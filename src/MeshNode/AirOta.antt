-- ===== src/MeshNode/AirOta.antt =====
-- components/airlink_mesh/airlink_mesh.c: the update of an air node by chunks from the root.
pub mod Booted
pub mod Tests
use air_link.Base.{
  ℕ, zero, suc, ◌+◌, ◌-◌, ◌*◌, ◌/◌, ◌%◌, ◌^◌, List, [], ◌∷◌, Bool, true, false, Option, none, some,
}
use air_link.Base.{
  not, ◌&&◌, ◌||◌, ltb, leb, ◌==◌, if◌then◌else◌, length, take, replicate, get_or, set, bit_and,
  bit_or,
}
use air_link.Config.Strings.{characters}
use air_link.Ota.Stream.{
  Ota, Esp, Err, is_ok, stream_remaining, stream_abort, stream_begin, stream_write, stream_verify,
  stream_activate,
}

-- `air_ota_state_t`. A slot holds the bytes that were copied to its part of `window`, as many as
-- `lengths` says; a cleared length is an empty slot.
pub record AirOta : Type 0 where
  pub active : Bool
  pub session : ℕ
  pub image_size : ℕ
  pub total_chunks : ℕ
  pub window_base : ℕ
  pub bitmap : ℕ
  pub window_written : Bool
  pub slots : List (List ℕ)

-- The states that an acknowledgement tells, as far as an air node sends them.
pub data OtaState : Type 0 where
  ready receiving verified activating error : OtaState

-- `ota_ack_payload_t`
pub record Ack : Type 0 where
  pub session : ℕ
  pub window_base : ℕ
  pub bitmap : ℕ
  pub state : OtaState
  pub progress : ℕ

-- `ota_begin_payload_t`
pub record Begin : Type 0 where
  pub session : ℕ
  pub image_size : ℕ
  pub sha256 : List ℕ
  pub expected_version : List ℕ
  pub chunk_size : ℕ
  pub window_chunks : ℕ

-- `ota_chunk_header_t` with what follows on it in the packet.
pub record Chunk : Type 0 where
  pub session : ℕ
  pub chunk_index : ℕ
  pub data_length : ℕ
  pub payload : List ℕ

-- The packets of an update, of the sizes that their handlers ask for. With `begin`, whether the
-- vehicle is safe and the window can be allocated; with `commit`, the session and whether to
-- activate.
pub data OtaPacket : Type 0 where
  begin_packet : Begin → Bool → Bool → OtaPacket
  chunk_packet : Chunk → OtaPacket
  commit_packet : ℕ → Bool → OtaPacket
  abort_packet : OtaPacket

-- `s_air_ota`, `s_air_approved`, the stream of airlink_ota.c and the acknowledgements, last first.
pub record AirNode : Type 0 where
  pub air : AirOta
  pub approved : Bool
  pub ota : Ota
  pub acks : List Ack

abbrev pub no_update : AirOta
no_update = record {
  active = false;
  session = 0;
  image_size = 0;
  total_chunks = 0;
  window_base = 0;
  bitmap = 0;
  window_written = false;
  slots = replicate 32 [];
}

-- `__builtin_popcount` of a number of that many bits.
pub popcount : ℕ → ℕ → ℕ
popcount zero n = 0
popcount (suc bits) n = n % 2 + popcount bits (n / 2)

-- `ota_window_expected`
pub window_expected : ℕ → ℕ → ℕ
window_expected base total_chunks =
    if leb total_chunks base
    then 0
    else if leb 32 (total_chunks - base)
    then 2 ^ 32 - 1
    else 2 ^ (total_chunks - base) - 1

-- `send_air_ota_ack`
pub send_ack : AirNode → ℕ → ℕ → OtaState → AirNode
send_ack n base bitmap state = record n {
  acks =
      record {
        session = n.air.session;
        window_base = base;
        bitmap = bitmap;
        state = state;
        progress =
            if n.air.total_chunks == 0
            then 0
            else (((base + popcount 32 bitmap) % 2 ^ 32) * 100 / n.air.total_chunks) % 256;
      }
      ∷ n.acks;
}

-- `air_ota_reset(true)`
pub air_reset : AirNode → AirNode
air_reset n = record n { ota = if n.ota.active then stream_abort n.ota else n.ota; air = no_update }

module _ (esp : Esp) where
  -- What follows on the tests of `process_air_ota_begin` when no update is active.
  pub begin_update : AirNode → Begin → Bool → AirNode
  begin_update n b allocated =
      let (ota, err) =
        stream_begin esp n.ota b.image_size b.sha256
          (some (characters (take 23 b.expected_version))) in
      let started = record n {
        ota = ota;
        air = record {
          active = true;
          session = b.session;
          image_size = b.image_size;
          total_chunks = ((b.image_size + 1023) % 2 ^ 32) / 1024;
          window_base = 0;
          bitmap = 0;
          window_written = false;
          slots = replicate 32 [];
        };
      } in
      if not allocated
      then send_ack (record n { air = record (n.air) { session = b.session } }) 0 0 error
      else if not (is_ok err)
      then send_ack (record n { ota = ota; air = record (n.air) { session = b.session } }) 0 0 error
      else send_ack started 0 0 ready

  -- `process_air_ota_begin`
  pub process_begin : AirNode → Begin → Bool → Bool → AirNode
  process_begin n b safe allocated =
      let n' = if n.air.active && not (n.air.session == b.session) then air_reset n else n in
      if not n.approved
        || not safe
        || b.image_size == 0
        || not (b.chunk_size == 1024)
        || not (b.window_chunks == 32)
      then send_ack (record n { air = record (n.air) { session = b.session } }) 0 0 error
      else if not n'.air.active
      then begin_update n' b allocated
      else send_ack n' n'.air.window_base n'.air.bitmap ready

  -- The loop over the slots of a full window.
  pub write_slots : Ota → List (List ℕ) → Ota × Bool
  write_slots s [] = (s, true)
  write_slots s (slot ∷ rest) =
      let (s', err) = stream_write esp s slot in
      let (s'', written) = write_slots s' rest in
      if length slot == 0 then (s, false) else if is_ok err then (s'', written) else (s', false)

  -- What `process_air_ota_chunk` does with a chunk of its window.
  pub window_filled : AirNode → ℕ → AirNode
  window_filled n base =
      let expected = window_expected base n.air.total_chunks in
      let (ota, written) = write_slots n.ota (take (popcount 32 expected) n.air.slots) in
      let n' = record n { ota = ota } in
      if n.air.bitmap == expected && not n.air.window_written
      then if written
        then send_ack (record n' { air = record (n.air) { window_written = true } }) base
            n.air.bitmap receiving
        else air_reset (send_ack n' base n.air.bitmap error)
      else send_ack n base n.air.bitmap receiving

  -- A chunk is copied to its slot unless it is there.
  pub chunk_stored : AirOta → ℕ → List ℕ → AirOta
  chunk_stored air slot bytes =
      if bit_and air.bitmap (2 ^ slot) == 0
      then record air { slots = set air.slots slot bytes; bitmap = bit_or air.bitmap (2 ^ slot) }
      else air

  -- The window moves on to the next one.
  pub next_window : AirOta → ℕ → AirOta
  next_window air base = record air {
    window_base = base;
    bitmap = 0;
    window_written = false;
    slots = replicate 32 [];
  }

  -- `process_air_ota_chunk`
  pub process_chunk : AirNode → Chunk → AirNode
  process_chunk n c =
      let base = c.chunk_index / 32 * 32 in
      let moved = if base == n.air.window_base then n.air else next_window n.air base in
      if not n.air.active
        || not (c.session == n.air.session)
        || c.data_length == 0
        || ltb 1024 c.data_length
        || not (length c.payload == c.data_length)
        || leb n.air.total_chunks c.chunk_index
      then n
      else if not (base == n.air.window_base)
          && (not n.air.window_written || not (base == (n.air.window_base + 32) % 2 ^ 32))
      then send_ack n n.air.window_base n.air.bitmap receiving
      else window_filled (record n { air = chunk_stored moved (c.chunk_index - base) c.payload })
          base

  -- The calls of `process_air_ota_commit`, with the state that they lead to.
  pub commit_state : AirNode → Bool → Ota × OtaState
  commit_state n activate =
      let (checked, verify_err) = stream_verify esp n.ota in
      let (chosen, activate_err) = stream_activate esp n.ota in
      if not activate
      then if n.air.window_written && stream_remaining n.ota == 0
        then (checked, if is_ok verify_err then verified else error)
        else (n.ota, error)
      else if n.ota.verified
      then (chosen, if is_ok activate_err then activating else error)
      else (n.ota, error)

  -- The end of `process_air_ota_commit`, with whether it calls `schedule_restart`.
  pub commit_end : AirNode → OtaState → AirNode × Bool
  commit_end n activating = (n, true)
  commit_end n error = (air_reset n, false)
  commit_end n _ = (n, false)

  -- `process_air_ota_commit`
  pub process_commit : AirNode → ℕ → Bool → AirNode × Bool
  process_commit n session activate =
      let (ota, state) = commit_state n activate in
      if not n.air.active || not (session == n.air.session)
      then (n, false)
      else commit_end (send_ack (record n { ota = ota }) n.air.window_base n.air.bitmap state) state

  -- The branches of `process_air_packet` for an update, with whether a restart is scheduled.
  pub process_ota : AirNode → OtaPacket → AirNode × Bool
  process_ota n (begin_packet b safe allocated) = (process_begin n b safe allocated, false)
  process_ota n (chunk_packet c) = (process_chunk n c, false)
  process_ota n (commit_packet session activate) = process_commit n session activate
  process_ota n abort_packet = (air_reset n, false)
