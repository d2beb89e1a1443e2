-- ===== src/Router/Forward.antt =====
-- components/airlink_router/airlink_router.c: `route`, which hands data to the other side.
use air_link.Base.{ℕ, ◌+◌, List, [], ◌∷◌, Bool, true, false}
use air_link.Base.{not, ◌&&◌, ◌||◌, ◌==◌, if◌then◌else◌}
use air_link.Base.{length}
use air_link.Router.State.{Slot, Sent, Router}
use air_link.Router.Slots.{vehicle_side, is_internal, add_u32_saturated, add_u64_saturated, slot_at}

-- The tests of `route` on the destination at one index.
unfoldable pub eligible : Slot → ℕ → Slot → ℕ → Bool
eligible source from destination to =
    destination.used
    && not (to == from)
    && not (is_internal source || is_internal destination)
    && (if vehicle_side source then not (vehicle_side destination) else vehicle_side destination)

-- What one destination's counters become after its `send`.
unfoldable pub count_send : Bool → ℕ → Slot → Slot
count_send true len slot = record slot {
  stats = record (slot.stats) {
    bytes_out = add_u64_saturated slot.stats.bytes_out len;
    frames_out = add_u32_saturated slot.stats.frames_out 1;
  };
}
count_send false len slot = record slot {
  stats = record (slot.stats) { queue_drops = add_u32_saturated slot.stats.queue_drops 1 };
}

-- The result of a callback, by the calls made before and this one: true is ESP_OK.
abbrev pub Send : Type 0
Send = List Sent → Sent → Bool

-- The loop of `route` over the slots from index `to` on; `from` is the index of `source`.
unfoldable pub route_from :
    Send → Slot → ℕ → List ℕ → Bool → List Slot → ℕ → List Sent → List Slot × List Sent
route_from send source from bytes high [] to sent = ([], sent)
route_from send source from bytes high (slot ∷ rest) to sent =
    let goes = eligible source from slot to in
    let call : Sent = record { to = slot.endpoint.id; bytes = bytes; high_priority = high } in
    let (rest', sent') =
      route_from send source from bytes high rest (to + 1) (if goes then call ∷ sent else sent) in
    ((if goes then count_send (send sent call) (length bytes) slot else slot) ∷ rest', sent')

-- `route`
unfoldable pub route : Send → Router → ℕ → List ℕ → Bool → Router
route send r from bytes high =
    let (slots, sent) = route_from send (slot_at r from) from bytes high r.endpoints 0 r.sent in
    record r { endpoints = slots; sent = sent }
