-- ===== src/Router/Sides.antt =====
-- What `airlink_router_ingest` as a whole promises about the two sides and the armed latch.
use air_link.Base.{ℕ, List, ◌++◌, ◌≡◌, ◌≢◌, refl, some, length, ◌==◌, true, Bool-cases}
use air_link.Base.{inl, inr, ap, sym, ◌∙◌, [], get_or-map, All}
use air_link.Router.State.{vehicle, Sent, Router, mavlink, transparent, empty_slot, RouteMode}
use air_link.Router.Slots.{slot_at, find_endpoint, read_clock, update_slot}
use air_link.Router.Forward.{Send}
use air_link.Router.Observe.{observe_vehicle_safety, copy_errors}
use air_link.Router.Ingest.{ingest, ingest_bytes, send_chunks}
use air_link.Router.Follows.{seat, seats, seat_at, Legit, SameFc, Follows, Follows-refl}
use air_link.Router.Follows.{Follows-trans, update_slot-Follows}
use air_link.Router.Isolation.{send_chunks-Follows, observe_vehicle_safety-Follows}
use air_link.Router.Isolation.{ingest_bytes-Follows, copy_errors-Follows}

read_clock-Follows : (from : ℕ) (r : Router) → Follows from r (read_clock r)
unfolding read_clock
read_clock-Follows from r = record {
  same_seats = refl;
  same_mode = refl;
  new = [];
  calls = refl;
  legit = tt;
  pinned = λ h. (h, refl);
  untouched = λ h. record { armed = refl; last_seen = refl; known = refl; system = refl };
}

module _ (clock : ℕ → ℕ) (send : Send) (r : Router) (id : ℕ) (bytes : List ℕ) (from : ℕ)
    (found : find_endpoint r.endpoints id ≡ some from) where
  ingest-Follows : Follows from r (ingest clock send r id bytes).0
  unfolding ingest
  ingest-Follows = elim (Bool-cases (length bytes == 0)) [
    | inl nothing ↦ rw nothing (Follows-refl from r)
    | inr some_bytes ↦
        rw (some_bytes, found)
          (Follows-trans from _ _ _
            (Follows-trans from _ _ _ (read_clock-Follows from r)
              (update_slot-Follows from from (read_clock r) _ refl))
            (by_mode r.mode _))
  ]
    where
      by_mode :
          (mode : RouteMode) (entered : Router)
          → Follows from entered (elim mode [
            | transparent ↦
                send_chunks send from
                  (length bytes)
                  (observe_vehicle_safety clock from entered bytes)
                  bytes
            | mavlink ↦ update_slot (ingest_bytes clock send from entered bytes) from copy_errors
          ])
      by_mode mavlink entered =
          Follows-trans from _ _ _ (ingest_bytes-Follows clock send from bytes entered)
            (copy_errors-Follows clock send from _)
      by_mode transparent entered =
          Follows-trans from _ _ _ (observe_vehicle_safety-Follows clock send from entered bytes)
            (send_chunks-Follows clock send from _ _ bytes)

  -- Whatever an endpoint's bytes hold, in both modes, every call of `send` that ingesting them
  -- makes goes to a used endpoint in another slot, and one of the two is on the vehicle's side and
  -- the other on the ground station's; the calls made before and the endpoints stay as they were.
  pub ingest_crosses :
      (new : List Sent) × ((ingest clock send r id bytes).0.sent ≡ new ++ r.sent)
      × All (Legit (seats r) from) new
      × (seats (ingest clock send r id bytes).0 ≡ seats r)
  ingest_crosses =
      (ingest-Follows.new, ingest-Follows.calls, ingest-Follows.legit, ingest-Follows.same_seats)

  -- Bytes of an endpoint that is not on the vehicle's side change nothing of the armed latch, of
  -- the time when the flight controller was last seen, and of the identity pinned for it.
  pub ingest_latch :
      (slot_at r from).endpoint.direction ≢ vehicle → SameFc r (ingest clock send r id bytes).0
  ingest_latch other =
      ingest-Follows.untouched (λ e. other (ap (λ t. t.1.direction) (sym_seat) ∙ e))
    where
      sym_seat : seat (slot_at r from) ≡ seat_at (seats r) from
      sym_seat = sym (get_or-map seat r.endpoints from empty_slot)

  -- Once a flight controller is pinned, no bytes of any endpoint pin another.
  pub ingest_pinned :
      r.fc_identity_known ≡ true
      → let after = (ingest clock send r id bytes).0 in
        (after.fc_identity_known ≡ true) × (after.fc_system_id ≡ r.fc_system_id)
  ingest_pinned known = ingest-Follows.pinned known
