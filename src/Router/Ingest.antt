-- ===== src/Router/Ingest.antt =====
-- components/airlink_router/airlink_router.c: `airlink_router_ingest` and the queries.
use air_link.Base.{ℕ, zero, suc, ◌-◌, List, [], ◌∷◌, Bool, false}
use air_link.Base.{Option, none, some, ltb, ◌==◌, if◌then◌else◌}
use air_link.Base.{length, take, drop}
use air_link.Stream.{chunk_size}
use air_link.Mavlink.{Frame, parse_byte, max_frame_size}
use air_link.Router.State.{
  mavlink, transparent, Err, esp_ok, invalid_arg, not_found, Stats, Slot, Router, no_stats,
}
use air_link.Router.Slots.{
  find_endpoint, vehicle_side, add_u32_saturated, add_u64_saturated, slot_at, update_slot,
  read_clock,
}
use air_link.Router.Forward.{Send, route}
use air_link.Router.Observe.{
  duplicate_network_frame, observe_vehicle_frame, observe_vehicle_safety, is_corrupt, copy_errors,
}

-- `source->stats.frames_in = add_u32_saturated(source->stats.frames_in, 1U)`
unfoldable pub count_frame_in : Slot → Slot
count_frame_in slot = record slot {
  stats = record (slot.stats) { frames_in = add_u32_saturated slot.stats.frames_in 1 };
}

unfoldable pub count_parse_error : Slot → Slot
count_parse_error slot = record slot {
  stats = record (slot.stats) { parse_errors = add_u32_saturated slot.stats.parse_errors 1 };
}

-- The `while` loop of transparent mode on the bytes from `offset` on. Each round takes at least
-- one byte, so their number is enough fuel.
unfoldable pub send_chunks : Send → ℕ → ℕ → Router → List ℕ → Router
send_chunks send from zero r bytes = r
send_chunks send from (suc fuel) r bytes =
    let chunk = chunk_size (length bytes) max_frame_size in
    let routed = update_slot (route send r from (take chunk bytes) false) from count_frame_in in
    let rest = send_chunks send from fuel routed (drop chunk bytes) in
    if length bytes == 0 then r else rest

-- One frame in MAVLink mode.
unfoldable pub ingest_frame : (ℕ → ℕ) → Send → ℕ → Router → Frame → Router
ingest_frame clock send from r frame =
    let counted = update_slot r from count_frame_in in
    let bytes = take frame.length frame.bytes in
    if is_corrupt frame
    then update_slot counted from count_parse_error
    else if vehicle_side (slot_at counted from)
    then route send (observe_vehicle_frame clock counted (slot_at counted from) frame) from bytes
        frame.high_priority
    else let (looked, duplicate) = duplicate_network_frame clock counted bytes in
      if duplicate then looked else route send looked from bytes frame.high_priority

-- The loop over the bytes in MAVLink mode.
unfoldable pub ingest_bytes : (ℕ → ℕ) → Send → ℕ → Router → List ℕ → Router
ingest_bytes clock send from r [] = r
ingest_bytes clock send from r (byte ∷ rest) =
    let (parser, result) = parse_byte (slot_at r from).parser byte in
    let parsed = update_slot r from (λ slot. record slot { parser = parser }) in
    ingest_bytes clock send from
      (elim result [ none ↦ parsed | some frame ↦ ingest_frame clock send from parsed frame ]) rest

-- `airlink_router_ingest`, `data` not NULL.
unfoldable pub ingest : (ℕ → ℕ) → Send → Router → ℕ → List ℕ → Router × Err
ingest clock send r id bytes =
    if length bytes == 0 then (r, invalid_arg) else elim (find_endpoint r.endpoints id) [
      | none ↦ (r, not_found)
      | some from ↦
          let entered = update_slot (read_clock r) from (λ slot. record slot {
            stats = record (slot.stats) {
              bytes_in = add_u64_saturated slot.stats.bytes_in (length bytes);
              last_activity_us = clock r.readings;
            };
          }) in
          (
            elim r.mode [
              | transparent ↦
                  send_chunks send from (length bytes)
                    (observe_vehicle_safety clock from entered bytes) bytes
              | mavlink ↦ update_slot (ingest_bytes clock send from entered bytes) from copy_errors
            ],
            esp_ok,
          )
    ]

-- `airlink_router_fc_seen`
unfoldable pub fc_seen : (ℕ → ℕ) → Router → Bool
fc_seen clock r = ltb (clock r.readings - r.fc_last_seen_us) 3000000

-- `airlink_router_fc_system_id`: `none` is the result false.
unfoldable pub fc_system_id : Router → Option ℕ
fc_system_id r = if r.fc_identity_known then some r.fc_system_id else none

-- `airlink_router_get_stats`
unfoldable pub get_stats : Router → ℕ → Stats
get_stats r id = elim (find_endpoint r.endpoints id) [
  | some i ↦ (slot_at r i).stats
  | none ↦ no_stats
]
