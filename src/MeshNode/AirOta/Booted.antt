-- ===== src/MeshNode/AirOta/Booted.antt =====
-- An air node restarts only into an image that was written whole and checked.
use air_link.Base.{
  ℕ, ◌+◌, ◌-◌, ◌*◌, ◌/◌, ◌%◌, ◌^◌, List, [], ◌∷◌, ◌≡◌, refl, sym, ap, ◌∙◌, arith, Bool, true, false,
  not, ◌&&◌, ◌||◌, ltb, leb, ◌==◌, if◌then◌else◌, length, take, some, if-both,
}
use air_link.Ota.Stream.{
  Ota, Esp, Err, is_ok, stream_begin, stream_write, stream_verify, stream_activate,
  stream_remaining,
}
use air_link.Ota.Stream.Phases.{IsValid}
use air_link.Ota.Stream.Keeps.{stream_abort-IsValid, stream_begin-IsValid, stream_write-IsValid}
use air_link.Ota.Stream.Booted.{stream_verify-IsValid, stream_activate-IsValid}
use air_link.Ota.Stream.Runs.{at_start}
use air_link.Ota.Stream.Outcome.{BootChosen, activate-Over}
use air_link.Config.Strings.{characters}
use air_link.Ota.Stream.{invalid_arg}
use air_link.Ota.Stream.Keeps.{invalid_arg-not_ok}
use air_link.Ota.Stream.Started.{stream_begin-refused, verified-idle}
use air_link.MeshNode.AirOta.{
  AirOta, AirNode, Begin, Chunk, OtaPacket, begin_packet, chunk_packet, commit_packet, abort_packet,
  OtaState, ready, receiving, verified, activating, error, no_update, window_expected, popcount,
  send_ack, air_reset, begin_update, process_begin, write_slots, window_filled, chunk_stored,
  next_window, process_chunk, commit_state, commit_end, process_commit, process_ota,
}

module _ (esp : Esp) where
  -- The stream of the node is valid.
  abbrev Streams : AirNode → Type 0
  Streams n = IsValid esp n.ota

  send_ack-Streams :
      (n : AirNode) (base bitmap : ℕ) (state : OtaState)
      → Streams n
      → Streams (send_ack n base bitmap state)
  unfolding send_ack
  send_ack-Streams n base bitmap state v = v

  air_reset-Streams : (n : AirNode) → Streams n → Streams (air_reset n)
  unfolding air_reset
  air_reset-Streams n v =
      if-both (IsValid esp) n.ota.active _ _ (λ _. stream_abort-IsValid esp n.ota v) (λ _. v)

  begin_update-Streams :
      (n : AirNode) (b : Begin) (allocated : Bool)
      → Streams n
      → Streams (begin_update esp n b allocated)
  unfolding begin_update
  begin_update-Streams n b allocated v =
      let begun = stream_begin-IsValid esp n.ota b.image_size b.sha256 _ v in
      if-both Streams (not allocated) _ _ (λ _. send_ack-Streams _ 0 0 error v)
        (λ _.
          if-both Streams (not (is_ok (stream_begin esp n.ota b.image_size b.sha256 _).1)) _ _
            (λ _. send_ack-Streams _ 0 0 error begun) (λ _. send_ack-Streams _ 0 0 ready begun))

  process_begin-Streams :
      (n : AirNode) (b : Begin) (safe allocated : Bool)
      → Streams n
      → Streams (process_begin esp n b safe allocated)
  unfolding process_begin
  process_begin-Streams n b safe allocated v =
      if-both Streams
        (not n.approved
          || not safe
          || b.image_size == 0
          || not (b.chunk_size == 1024)
          || not (b.window_chunks == 32))
        _ _ (λ _. send_ack-Streams _ 0 0 error v)
        (λ _.
          if-both Streams (not n'.air.active) _ _ (λ _. begin_update-Streams n' b allocated kept)
            (λ _. send_ack-Streams n' _ _ ready kept))
    where
      n' : AirNode
      n' = if n.air.active && not (n.air.session == b.session) then air_reset n else n

      kept : Streams n'
      kept =
          if-both Streams (n.air.active && not (n.air.session == b.session)) _ _
            (λ _. air_reset-Streams n v) (λ _. v)

  write_slots-IsValid :
      (slots : List (List ℕ)) (s : Ota) → IsValid esp s → IsValid esp (write_slots esp s slots).0
  unfolding write_slots
  write_slots-IsValid [] s v = v
  write_slots-IsValid (slot ∷ rest) s v =
      if-both Kept (length slot == 0) _ _ (λ _. v)
        (λ _.
          if-both Kept (is_ok (stream_write esp s slot).1) _ _
            (λ _. write_slots-IsValid rest _ (stream_write-IsValid esp s slot v))
            (λ _. stream_write-IsValid esp s slot v))
    where
      Kept : Ota × Bool → Type 0
      Kept r = IsValid esp r.0

  window_filled-Streams : (n : AirNode) (base : ℕ) → Streams n → Streams (window_filled esp n base)
  unfolding window_filled
  window_filled-Streams n base v =
      let w =
        write_slots-IsValid
          (take (popcount 32 (window_expected base n.air.total_chunks)) n.air.slots) n.ota v in
      if-both Streams
        (n.air.bitmap == window_expected base n.air.total_chunks && not n.air.window_written) _ _
        (λ _.
          if-both Streams
            (write_slots esp n.ota
              (take (popcount 32 (window_expected base n.air.total_chunks)) n.air.slots)).1
            _ _ (λ _. send_ack-Streams _ base _ receiving w)
            (λ _. air_reset-Streams _ (send_ack-Streams _ base _ error w)))
        (λ _. send_ack-Streams n base _ receiving v)

  process_chunk-Streams : (n : AirNode) (c : Chunk) → Streams n → Streams (process_chunk esp n c)
  unfolding process_chunk
  process_chunk-Streams n c v =
      if-both Streams
        (not n.air.active
          || not (c.session == n.air.session)
          || c.data_length == 0
          || ltb 1024 c.data_length
          || not (length c.payload == c.data_length)
          || leb n.air.total_chunks c.chunk_index)
        _ _ (λ _. v)
        (λ _.
          if-both Streams
            (not (base == n.air.window_base)
              && (not n.air.window_written || not (base == (n.air.window_base + 32) % 2 ^ 32)))
            _ _ (λ _. send_ack-Streams n n.air.window_base n.air.bitmap receiving v)
            (λ _. window_filled-Streams (record n { air = stored }) base v))
    where
      base : ℕ
      base = c.chunk_index / 32 * 32

      stored : AirOta
      stored =
          chunk_stored esp (if base == n.air.window_base then n.air else next_window esp n.air base)
            (c.chunk_index - base) c.payload

  -- The stream stays valid, and the state that asks for a restart follows on a choice to boot.
  record Commits (r : Ota × OtaState) : Type 0 where
    valid : IsValid esp r.0
    chosen : r.1 ≡ activating → BootChosen esp r.0.trace

  commit_state-Commits :
      (n : AirNode) (activate : Bool) → Streams n → Commits (commit_state esp n activate)
  unfolding commit_state
  commit_state-Commits n false v =
      if-both Commits (n.air.window_written && stream_remaining n.ota == 0) _ _
        (λ _.
          if-both (λ state. Commits ((stream_verify esp n.ota).0, state))
            (is_ok (stream_verify esp n.ota).1) _ _
            (λ _. record { valid = stream_verify-IsValid esp n.ota v; chosen = λ e. absurd (cc) })
            (λ _. record { valid = stream_verify-IsValid esp n.ota v; chosen = λ e. absurd (cc) }))
        (λ _. record { valid = v; chosen = λ e. absurd (cc) })
  commit_state-Commits n true v =
      if-both Commits n.ota.verified _ _
        (λ staged.
          if-both (λ state. Commits ((stream_activate esp n.ota).0, state))
            (is_ok (stream_activate esp n.ota).1) _ _
            (λ ok. record {
              valid = stream_activate-IsValid esp n.ota v;
              chosen = λ _. (activate-Over esp n.ota v staged).chosen ok;
            })
            (λ _. record {
              valid = stream_activate-IsValid esp n.ota v;
              chosen = λ e. absurd (cc);
            }))
        (λ _. record { valid = v; chosen = λ e. absurd (cc) })

  -- The stream stays valid, and a restart follows on a choice to boot.
  record Restarts (r : AirNode × Bool) : Type 0 where
    valid : Streams r.0
    chosen : r.1 ≡ true → BootChosen esp r.0.ota.trace

  commit_end-Restarts :
      (n : AirNode) (state : OtaState)
      → Streams n
      → (state ≡ activating → BootChosen esp n.ota.trace)
      → Restarts (commit_end esp n state)
  unfolding commit_end
  commit_end-Restarts n activating v c = record { valid = v; chosen = λ _. c refl }
  commit_end-Restarts n error v c = record {
    valid = air_reset-Streams n v;
    chosen = λ e. absurd (cc);
  }
  commit_end-Restarts n ready v c = record { valid = v; chosen = λ e. absurd (cc) }
  commit_end-Restarts n receiving v c = record { valid = v; chosen = λ e. absurd (cc) }
  commit_end-Restarts n verified v c = record { valid = v; chosen = λ e. absurd (cc) }

  process_commit-Restarts :
      (n : AirNode) (session : ℕ) (activate : Bool)
      → Streams n
      → Restarts (process_commit esp n session activate)
  unfolding process_commit send_ack
  process_commit-Restarts n session activate v =
      let c = commit_state-Commits n activate v in
      if-both Restarts (not n.air.active || not (session == n.air.session)) _ _
        (λ _. record { valid = v; chosen = λ e. absurd (cc) })
        (λ _. commit_end-Restarts _ (commit_state esp n activate).1 c.valid c.chosen)

  process_ota-Restarts : (n : AirNode) (p : OtaPacket) → Streams n → Restarts (process_ota esp n p)
  unfolding process_ota
  process_ota-Restarts n (begin_packet b safe allocated) v = record {
    valid = process_begin-Streams n b safe allocated v;
    chosen = λ e. absurd (cc);
  }
  process_ota-Restarts n (chunk_packet c) v = record {
    valid = process_chunk-Streams n c v;
    chosen = λ e. absurd (cc);
  }
  process_ota-Restarts n (commit_packet session activate) v =
      process_commit-Restarts n session activate v
  process_ota-Restarts n abort_packet v = record {
    valid = air_reset-Streams n v;
    chosen = λ e. absurd (cc);
  }

  -- The packets of updates, one after the other.
  unfoldable pub process_all : AirNode → List OtaPacket → AirNode
  process_all n [] = n
  process_all n (p ∷ rest) = process_all (process_ota esp n p).0 rest

  process_all-Streams :
      (packets : List OtaPacket) (n : AirNode) → Streams n → Streams (process_all n packets)
  unfolding process_all
  process_all-Streams [] n v = v
  process_all-Streams (p ∷ rest) n v = process_all-Streams rest _ (process_ota-Restarts n p v).valid

  -- An air node without an update, after the start.
  abbrev pub idle_node : Bool → AirNode
  idle_node approved = record { air = no_update; approved = approved; ota = at_start; acks = [] }

  -- Whatever packets of updates reach an air node, in whatever order, lost, repeated or of different
  -- sessions, and whatever the calls of the system answer: when a packet makes it restart, the last
  -- call chose a partition to boot, directly behind the calls that wrote and checked its image.
  pub process_ota-BootChosen :
      (approved : Bool) (packets : List OtaPacket) (last : OtaPacket)
      → (process_ota esp (process_all (idle_node approved) packets) last).1 ≡ true
      → BootChosen esp (process_ota esp (process_all (idle_node approved) packets) last).0.ota.trace
  process_ota-BootChosen approved packets last restarts =
      (process_ota-Restarts _ last (
          process_all-Streams packets (idle_node approved)
            (record { phase = refl; booted = tt }))).chosen
        restarts

  begin_staged :
      (n : AirNode) (b : Begin) (allocated : Bool)
      → n.ota.verified ≡ true
      → n.air.active ≡ false
      → ((begin_update esp n b allocated).ota ≡ n.ota)
        × ((begin_update esp n b allocated).air.active ≡ false)
  unfolding begin_update send_ack
  begin_staged n b allocated staged idle =
      if-both Same (not allocated) _ _ (λ _. (refl, idle))
        (λ _.
          if-both Same (not (is_ok r.1)) _ _ (λ _. (ap (λ (x : Ota × Err). x.0) refused, idle))
            (λ good. absurd (
              invalid_arg-not_ok
                (ap (λ (x : Ota × Err). is_ok x.1) (sym refused) ∙ ground (arith, good)))))
    where
      r : Ota × Err
      r =
          stream_begin esp n.ota b.image_size b.sha256
            (some (characters (take 23 b.expected_version)))

      refused : r ≡ (n.ota, invalid_arg)
      refused = stream_begin-refused esp n.ota b.image_size b.sha256 _ staged

      Same : AirNode → Type 0
      Same m = (m.ota ≡ n.ota) × (m.air.active ≡ false)

  -- A node that has a verified image and gets an abort keeps the image staged: a begin packet
  -- behind it, of any content, leaves the stream as it is and does not start an update.
  pub begin-Staged :
      (n : AirNode) (b : Begin) (safe allocated : Bool)
      → IsValid esp n.ota
      → n.ota.verified ≡ true
      → let aborted = (process_ota esp n abort_packet).0 in
        ((process_begin esp aborted b safe allocated).ota ≡ n.ota)
        × ((process_begin esp aborted b safe allocated).air.active ≡ false)
  unfolding process_begin process_ota air_reset send_ack
  begin-Staged n b safe allocated v staged =
      if-both Same
        (not n.approved
          || not safe
          || b.image_size == 0
          || not (b.chunk_size == 1024)
          || not (b.window_chunks == 32))
        _ _ (λ _. (kept, refl))
        (λ _.
          let (ota, air) =
            begin_staged (air_reset n) b allocated (ap (λ (x : Ota). x.verified) kept ∙ staged)
              refl in
          (ota ∙ kept, air))
    where
      Same : AirNode → Type 0
      Same m = (m.ota ≡ n.ota) × (m.air.active ≡ false)

      kept : (air_reset n).ota ≡ n.ota
      kept =
          if-both (λ (x : Ota). x ≡ n.ota) n.ota.active _ _
            (λ both. absurd (ground (arith, both, verified-idle esp n.ota v staged))) (λ _. refl)
