-- ===== src/Router/Isolation.antt =====
-- `airlink_router_ingest` keeps the two sides apart, and the armed latch with the vehicle's side.
use air_link.Base.{ℕ, zero, suc, List, [], ◌∷◌, refl, ap, ◌∙◌, ◌≢◌, arith}
use air_link.Base.{Bool, Option, none, some, true, false, inl, inr, Bool-cases}
use air_link.Base.{length, take, get_or-map, if◌then◌else◌, ◌==◌}
use air_link.Mavlink.{Frame, Parser, parse_byte}
use air_link.Router.State.{vehicle, Router, empty_slot}
use air_link.Router.Slots.{slot_at, vehicle_side, update_slot, read_clock}
use air_link.Router.Forward.{Send, route}
use air_link.Router.Observe.{
  observe_vehicle_frame, observe_bytes, observe_vehicle_safety, is_corrupt,
}
use air_link.Router.Observe.{duplicate_network_frame, copy_errors}
use air_link.Router.Ingest.{send_chunks, ingest_frame, ingest_bytes, count_frame_in}
use air_link.Router.Ingest.{count_parse_error}
use air_link.Router.Follows.{seat, Follows, Follows-refl}
use air_link.Router.Follows.{Follows-trans, update_slot-Follows}
use air_link.Router.Delivery.{route-Follows}

-- The armed latch and the identity change only from the vehicle's side, and the identity is kept
-- once it is known.
observe_vehicle_frame-Follows :
    (clock : ℕ → ℕ) (from : ℕ) (r : Router) (frame : Frame)
    → Follows from r (observe_vehicle_frame clock r (slot_at r from) frame)
unfolding observe_vehicle_frame vehicle_side read_clock
observe_vehicle_frame-Follows clock from r frame = record {
  same_seats = ground arith;
  same_mode = ground arith;
  new = [];
  calls = ground arith;
  legit = tt;
  pinned = λ h. ground arith;
  untouched = λ h.
      let other : (slot_at r from).endpoint.direction ≢ vehicle =
        λ e. h (ap (λ t. t.1.direction) (get_or-map seat r.endpoints from empty_slot) ∙ e) in
      ground arith;
}

duplicate_network_frame-Follows :
    (clock : ℕ → ℕ) (from : ℕ) (r : Router) (bytes : List ℕ)
    → Follows from r (duplicate_network_frame clock r bytes).0
unfolding duplicate_network_frame read_clock
duplicate_network_frame-Follows clock from r bytes = record {
  same_seats = ground arith;
  same_mode = ground arith;
  new = [];
  calls = ground arith;
  legit = tt;
  pinned = λ h. ground arith;
  untouched = λ h. ground arith;
}

module _ (clock : ℕ → ℕ) (send : Send) (from : ℕ) where
  -- A slot that gets another parser or other counters keeps its seat.
  set_parser-Follows :
      (r : Router) (parser : Parser)
      → Follows from r (update_slot r from (λ slot. record slot { parser = parser }))
  set_parser-Follows r parser = update_slot-Follows from from r _ refl

  observed-Follows :
      (r : Router) (result : Option Frame)
      → Follows from r (elim result [
        | none ↦ r
        | some frame ↦
            if is_corrupt frame then r else observe_vehicle_frame clock r (slot_at r from) frame
      ])
  observed-Follows r none = Follows-refl from r
  observed-Follows r (some frame) = elim (Bool-cases (is_corrupt frame)) [
    | inl bad ↦ rw bad (Follows-refl from r)
    | inr good ↦ rw good (observe_vehicle_frame-Follows clock from r frame)
  ]

  observe_bytes-Follows :
      (bytes : List ℕ) (r : Router) → Follows from r (observe_bytes clock from r bytes)
  unfolding observe_bytes
  observe_bytes-Follows [] r = Follows-refl from r
  observe_bytes-Follows (byte ∷ rest) r =
      let (parser, result) = parse_byte (slot_at r from).parser byte in
      Follows-trans from _ _ _ (set_parser-Follows r parser)
        (Follows-trans from _ _ _ (observed-Follows _ result) (observe_bytes-Follows rest _))

  pub copy_errors-Follows : (r : Router) → Follows from r (update_slot r from copy_errors)
  unfolding copy_errors
  copy_errors-Follows r = update_slot-Follows from from r _ refl

  pub observe_vehicle_safety-Follows :
      (r : Router) (bytes : List ℕ) → Follows from r (observe_vehicle_safety clock from r bytes)
  unfolding observe_vehicle_safety
  observe_vehicle_safety-Follows r bytes = elim (Bool-cases (vehicle_side (slot_at r from))) [
    | inl yes_side ↦
        rw yes_side
          (Follows-trans from _ _ _ (observe_bytes-Follows bytes r) (copy_errors-Follows _))
    | inr no_side ↦ rw no_side (Follows-refl from r)
  ]

  count_frame_in-Follows : (r : Router) → Follows from r (update_slot r from count_frame_in)
  unfolding count_frame_in
  count_frame_in-Follows r = update_slot-Follows from from r _ refl

  count_parse_error-Follows : (r : Router) → Follows from r (update_slot r from count_parse_error)
  unfolding count_parse_error
  count_parse_error-Follows r = update_slot-Follows from from r _ refl

  pub send_chunks-Follows :
      (fuel : ℕ) (r : Router) (bytes : List ℕ) → Follows from r (send_chunks send from fuel r bytes)
  unfolding send_chunks
  send_chunks-Follows zero r bytes = Follows-refl from r
  send_chunks-Follows (suc fuel) r bytes = elim (Bool-cases (length bytes == 0)) [
    | inl done ↦ rw done (Follows-refl from r)
    | inr more ↦ rw more (
        Follows-trans from _ _ _ (route-Follows send from r _ false)
          (Follows-trans from _ _ _ (count_frame_in-Follows _) (send_chunks-Follows fuel _ _)))
  ]

  ingest_frame-Follows :
      (r : Router) (frame : Frame) → Follows from r (ingest_frame clock send from r frame)
  unfolding ingest_frame
  ingest_frame-Follows r frame = Follows-trans from _ _ _ (count_frame_in-Follows r) (rest _)
    where
      rest :
          (counted : Router)
          → Follows from counted (
              if is_corrupt frame
              then update_slot counted from count_parse_error
              else if vehicle_side (slot_at counted from)
              then route send
                  (observe_vehicle_frame clock counted (slot_at counted from) frame)
                  from
                  (take frame.length frame.bytes)
                  frame.high_priority
              else let (looked, duplicate) =
                  duplicate_network_frame clock counted (take frame.length frame.bytes) in
                if duplicate
                then looked
                else route send looked from (take frame.length frame.bytes) frame.high_priority)
      rest counted = elim (Bool-cases (is_corrupt frame)) [
        | inl bad ↦ rw bad (count_parse_error-Follows counted)
        | inr good ↦ rw good elim (Bool-cases (vehicle_side (slot_at counted from))) [
          | inl up ↦ rw up (
              Follows-trans from _ _ _ (observe_vehicle_frame-Follows clock from counted frame)
                (route-Follows send from _ _ _))
          | inr down ↦ rw down (
              Follows-trans from _ _ _ (duplicate_network_frame-Follows clock from counted _)
                (unless _ _ _ _))
        ]
      ]
        where
          unless :
              (looked : Router) (duplicate : Bool) (bytes : List ℕ) (high : Bool)
              → Follows from looked
                  (if duplicate then looked else route send looked from bytes high)
          unless looked true bytes high = Follows-refl from looked
          unless looked false bytes high = route-Follows send from looked bytes high

  ingested-Follows :
      (r : Router) (result : Option Frame)
      → Follows from r
          (elim result [ none ↦ r | some frame ↦ ingest_frame clock send from r frame ])
  ingested-Follows r none = Follows-refl from r
  ingested-Follows r (some frame) = ingest_frame-Follows r frame

  pub ingest_bytes-Follows :
      (bytes : List ℕ) (r : Router) → Follows from r (ingest_bytes clock send from r bytes)
  unfolding ingest_bytes
  ingest_bytes-Follows [] r = Follows-refl from r
  ingest_bytes-Follows (byte ∷ rest) r =
      let (parser, result) = parse_byte (slot_at r from).parser byte in
      Follows-trans from _ _ _ (set_parser-Follows r parser)
        (Follows-trans from _ _ _ (ingested-Follows _ result) (ingest_bytes-Follows rest _))
