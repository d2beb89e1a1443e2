-- ===== src/Router/Observe.antt =====
-- components/airlink_router/airlink_router.c: repeated network frames and the armed latch.
use air_link.Base.{ℕ, ◌+◌, ◌-◌, ◌%◌, List, [], ◌∷◌, Bool, true, false}
use air_link.Base.{none, some, not, ◌&&◌, ◌||◌, ltb, ◌==◌, if◌then◌else◌}
use air_link.Base.{set}
use air_link.Crc.{crc32}
use air_link.Mavlink.{Frame, parse_byte, heartbeat_is_autopilot}
use air_link.Router.State.{Slot, Dedup, Router, dedup_entries, dedup_window_us}
use air_link.Router.Slots.{vehicle_side, slot_at, update_slot, read_clock}

-- The search of `duplicate_network_frame`. `now - time_us` is signed in the code: below 0 it is
-- below the window too, as the stopped difference is.
unfoldable pub seen_recently : List Dedup → ℕ → ℕ → Bool
seen_recently [] crc now = false
seen_recently (entry ∷ rest) crc now =
    (entry.crc == crc && ltb (now - entry.time_us) dedup_window_us) || seen_recently rest crc now

-- `duplicate_network_frame`
unfoldable pub duplicate_network_frame : (ℕ → ℕ) → Router → List ℕ → Router × Bool
duplicate_network_frame clock r bytes =
    let now = clock r.readings in
    let crc = crc32 bytes in
    if seen_recently r.dedup crc now then (read_clock r, true) else (
      record (read_clock r) {
        dedup = set r.dedup r.dedup_cursor (record { crc = crc; time_us = now });
        dedup_cursor = (r.dedup_cursor + 1) % dedup_entries;
      },
      false,
    )

-- `observe_vehicle_frame`
unfoldable pub observe_vehicle_frame : (ℕ → ℕ) → Router → Slot → Frame → Router
observe_vehicle_frame clock r source frame =
    if not (vehicle_side source)
    then r
    else let seen = record (read_clock r) { fc_last_seen_us = clock r.readings } in
      if not (heartbeat_is_autopilot frame)
      then seen
      else let pinned =
          if seen.fc_identity_known
          then seen
          else record seen { fc_identity_known = true; fc_system_id = frame.system_id } in
        if frame.system_id == pinned.fc_system_id
        then record pinned { fc_armed = frame.heartbeat_armed }
        else pinned

-- A frame whose checksum is known to be wrong.
unfoldable pub is_corrupt : Frame → Bool
is_corrupt frame = frame.crc_known && not frame.crc_valid

-- The loop of `observe_vehicle_safety` over the bytes of the source at an index.
unfoldable pub observe_bytes : (ℕ → ℕ) → ℕ → Router → List ℕ → Router
observe_bytes clock from r [] = r
observe_bytes clock from r (byte ∷ rest) =
    let (parser, result) = parse_byte (slot_at r from).parser byte in
    let parsed = update_slot r from (λ slot. record slot { parser = parser }) in
    observe_bytes clock from
      (elim result [
        | none ↦ parsed
        | some frame ↦
            if is_corrupt frame
            then parsed
            else observe_vehicle_frame clock parsed (slot_at parsed from) frame
      ])
      rest

-- `source->stats.parse_errors = source->parser.errors`
unfoldable pub copy_errors : Slot → Slot
copy_errors slot = record slot { stats = record (slot.stats) { parse_errors = slot.parser.errors } }

-- `observe_vehicle_safety`
unfoldable pub observe_vehicle_safety : (ℕ → ℕ) → ℕ → Router → List ℕ → Router
observe_vehicle_safety clock from r bytes =
    if vehicle_side (slot_at r from)
    then update_slot (observe_bytes clock from r bytes) from copy_errors
    else r
