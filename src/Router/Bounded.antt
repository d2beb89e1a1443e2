-- ===== src/Router/Bounded.antt =====
-- The memory safety of every call of the router's interface.
use air_link.Base.{ℕ, zero, suc, List, [], ◌∷◌, Option, none, some, true, false}
use air_link.Base.{Bool, ◌<◌, inl, inr, Bool-cases, Option-cases, ◌==◌, length, take, if◌then◌else◌}
use air_link.Mavlink.{Frame, parse_byte}
use air_link.Mavlink.Bounds.{parse_byte-IsValid}
use air_link.Mavlink.Framing.{AllBytes}
use air_link.Router.State.{Router, mavlink, transparent, RouteMode}
use air_link.Router.Slots.{slot_at, vehicle_side, update_slot, find_endpoint, read_clock}
use air_link.Router.Forward.{Send, route}
use air_link.Router.Observe.{
  observe_vehicle_frame, observe_bytes, observe_vehicle_safety, is_corrupt,
}
use air_link.Router.Observe.{duplicate_network_frame, copy_errors}
use air_link.Router.Ingest.{send_chunks, ingest_frame, ingest_bytes, ingest, count_frame_in}
use air_link.Router.Ingest.{count_parse_error}
use air_link.Router.Safe.{IsSafe, slot_at-GoodSlot, update_slot-IsSafe}
use air_link.Router.Safe.{route-IsSafe, observe-IsSafe}
use air_link.Router.Safe.{duplicate-IsSafe}

module _ (clock : ℕ → ℕ) (send : Send) (from : ℕ) where
  -- A parser that has taken a byte.
  parsed-IsSafe :
      (r : Router) (byte : ℕ)
      → byte < 256
      → IsSafe r
      → IsSafe (
          update_slot r from
            (λ slot. record slot { parser = (parse_byte (slot_at r from).parser byte).0 }))
  parsed-IsSafe r byte lt v =
      update_slot-IsSafe r from _
        (parse_byte-IsValid (slot_at r from).parser byte lt (slot_at-GoodSlot r from v)).0 v

  observe_bytes-IsSafe :
      (bytes : List ℕ) (r : Router)
      → AllBytes bytes
      → IsSafe r
      → IsSafe (observe_bytes clock from r bytes)
  unfolding observe_bytes
  observe_bytes-IsSafe [] r all v = v
  observe_bytes-IsSafe (byte ∷ rest) r (lt, all) v =
      observe_bytes-IsSafe rest _ all
        (go _ (parse_byte (slot_at r from).parser byte).1 (parsed-IsSafe r byte lt v))
    where
      go :
          (s : Router) (result : Option Frame)
          → IsSafe s
          → IsSafe (elim result as (λ _. Router) [
            | none ↦ s
            | some frame ↦
                if is_corrupt frame then s else observe_vehicle_frame clock s (slot_at s from) frame
          ])
      go s none v = v
      go s (some frame) v = elim (Bool-cases (is_corrupt frame)) [
        | inl bad ↦ rw bad v
        | inr good ↦ rw good (observe-IsSafe clock s _ frame v)
      ]

  copy_errors-IsSafe : (r : Router) → IsSafe r → IsSafe (update_slot r from copy_errors)
  unfolding copy_errors
  copy_errors-IsSafe r v = update_slot-IsSafe r from _ (slot_at-GoodSlot r from v) v

  count_frame_in-IsSafe : (r : Router) → IsSafe r → IsSafe (update_slot r from count_frame_in)
  unfolding count_frame_in
  count_frame_in-IsSafe r v = update_slot-IsSafe r from _ (slot_at-GoodSlot r from v) v

  count_parse_error-IsSafe : (r : Router) → IsSafe r → IsSafe (update_slot r from count_parse_error)
  unfolding count_parse_error
  count_parse_error-IsSafe r v = update_slot-IsSafe r from _ (slot_at-GoodSlot r from v) v

  safety-IsSafe :
      (r : Router) (bytes : List ℕ)
      → AllBytes bytes
      → IsSafe r
      → IsSafe (observe_vehicle_safety clock from r bytes)
  unfolding observe_vehicle_safety
  safety-IsSafe r bytes all v = elim (Bool-cases (vehicle_side (slot_at r from))) [
    | inl up ↦ rw up (copy_errors-IsSafe _ (observe_bytes-IsSafe bytes r all v))
    | inr down ↦ rw down v
  ]

  send_chunks-IsSafe :
      (fuel : ℕ) (r : Router) (bytes : List ℕ)
      → IsSafe r
      → IsSafe (send_chunks send from fuel r bytes)
  unfolding send_chunks
  send_chunks-IsSafe zero r bytes v = v
  send_chunks-IsSafe (suc fuel) r bytes v = elim (Bool-cases (length bytes == 0)) [
    | inl done ↦ rw done v
    | inr more ↦
        rw more (
          send_chunks-IsSafe fuel _ _
            (count_frame_in-IsSafe _ (route-IsSafe send r from _ false v)))
  ]

  ingest_frame-IsSafe :
      (r : Router) (frame : Frame) → IsSafe r → IsSafe (ingest_frame clock send from r frame)
  unfolding ingest_frame
  ingest_frame-IsSafe r frame v = go (update_slot r from count_frame_in) (count_frame_in-IsSafe r v)
    where
      bytes : List ℕ
      bytes = take frame.length frame.bytes

      unless :
          (looked : Router) (duplicate : Bool)
          → IsSafe looked
          → IsSafe (if duplicate then looked else route send looked from bytes frame.high_priority)
      unless looked true v = v
      unless looked false v = route-IsSafe send looked from bytes _ v

      go :
          (s : Router)
          → IsSafe s
          → IsSafe (
              if is_corrupt frame
              then update_slot s from count_parse_error
              else if vehicle_side (slot_at s from)
              then route send
                  (observe_vehicle_frame clock s (slot_at s from) frame)
                  from
                  bytes
                  frame.high_priority
              else let (looked, duplicate) = duplicate_network_frame clock s bytes in
                if duplicate then looked else route send looked from bytes frame.high_priority)
      go s v = elim (Bool-cases (is_corrupt frame)) [
        | inl bad ↦ rw bad (count_parse_error-IsSafe s v)
        | inr good ↦ rw good elim (Bool-cases (vehicle_side (slot_at s from))) [
          | inl up ↦ rw up (route-IsSafe send _ from bytes _ (observe-IsSafe clock s _ frame v))
          | inr down ↦ rw down (unless _ _ (duplicate-IsSafe clock s bytes v))
        ]
      ]

  ingest_bytes-IsSafe :
      (bytes : List ℕ) (r : Router)
      → AllBytes bytes
      → IsSafe r
      → IsSafe (ingest_bytes clock send from r bytes)
  unfolding ingest_bytes
  ingest_bytes-IsSafe [] r all v = v
  ingest_bytes-IsSafe (byte ∷ rest) r (lt, all) v =
      ingest_bytes-IsSafe rest _ all
        (go _ (parse_byte (slot_at r from).parser byte).1 (parsed-IsSafe r byte lt v))
    where
      go :
          (s : Router) (result : Option Frame)
          → IsSafe s
          → IsSafe (elim result as (λ _. Router) [
            | none ↦ s
            | some frame ↦ ingest_frame clock send from s frame
          ])
      go s none v = v
      go s (some frame) v = ingest_frame-IsSafe s frame v

pub ingest-IsSafe :
    (clock : ℕ → ℕ) (send : Send) (r : Router) (id : ℕ) (bytes : List ℕ)
    → AllBytes bytes
    → IsSafe r
    → IsSafe (ingest clock send r id bytes).0
unfolding ingest read_clock
ingest-IsSafe clock send r id bytes all v = elim (Bool-cases (length bytes == 0)) [
  | inl nothing ↦ rw nothing v
  | inr some_bytes ↦ elim (Option-cases (find_endpoint r.endpoints id)) [
    | inl unknown ↦ rw (some_bytes, unknown) v
    | inr (from, found) ↦
        rw (some_bytes, found)
          (by_mode from r.mode _ (
            update_slot-IsSafe (read_clock r) from _ (slot_at-GoodSlot r from v)
              (record { slots = v.slots; parsers = v.parsers; ring = v.ring; cursor = v.cursor })))
  ]
]
  where
    by_mode :
        (from : ℕ) (mode : RouteMode) (entered : Router)
        → IsSafe entered
        → IsSafe (elim mode as (λ _. Router) [
          | transparent ↦
              send_chunks send from
                (length bytes)
                (observe_vehicle_safety clock from entered bytes)
                bytes
          | mavlink ↦ update_slot (ingest_bytes clock send from entered bytes) from copy_errors
        ])
    by_mode from mavlink entered v =
        copy_errors-IsSafe clock send from _
          (ingest_bytes-IsSafe clock send from bytes entered all v)
    by_mode from transparent entered v =
        send_chunks-IsSafe clock send from _ _ bytes
          (safety-IsSafe clock send from entered bytes all v)
