-- ===== src/Router/Delivery.antt =====
-- `route` calls `send` only for used endpoints of the other side.
use air_link.Base.{ℕ, suc, ◌+◌, List, [], ◌∷◌, ◌++◌, map, ◌≡◌, refl, sym, ap, ap₂, ◌∙◌, ◌≢◌, arith}
use air_link.Base.{Bool, true, false, inl, inr, Bool-cases, All, All-append}
use air_link.Base.{get_or-map, append_assoc}
use mathlib.Core.Path.{subst}
use air_link.Router.State.{
  Direction, vehicle, gcs, internal, Endpoint, Slot, Sent, Router, empty_slot,
}
use air_link.Router.Slots.{slot_at, vehicle_side, is_internal}
use air_link.Router.Forward.{Send, eligible, count_send, route_from, route}
use air_link.Router.Follows.{seat, seats, seat_at, Opposite, Legit, Follows}

eligible-Opposite :
    (source : Slot) (from : ℕ) (slot : Slot) (to : ℕ)
    → eligible source from slot to ≡ true
    → (to ≢ from) × (slot.used ≡ true) × Opposite source.endpoint.direction slot.endpoint.direction
unfolding eligible vehicle_side is_internal
eligible-Opposite source from slot to e =
    go source.endpoint.direction slot.endpoint.direction refl refl
  where
    go :
        (d d' : Direction)
        → source.endpoint.direction ≡ d
        → slot.endpoint.direction ≡ d'
        → (to ≢ from) × (slot.used ≡ true) × Opposite d d'
    go vehicle vehicle p q = absurd (ground arith)
    go vehicle gcs p q = (ground arith, ground arith, tt)
    go vehicle internal p q = absurd (ground arith)
    go gcs vehicle p q = (ground arith, ground arith, tt)
    go gcs gcs p q = absurd (ground arith)
    go gcs internal p q = absurd (ground arith)
    go internal d' p q = absurd (ground arith)

seat-count_send : (ok : Bool) (len : ℕ) (slot : Slot) → seat (count_send ok len slot) ≡ seat slot
unfolding count_send
seat-count_send true len slot = refl
seat-count_send false len slot = refl

-- What the loop of `route` did to the slots and to the calls.
record Routed (es : List (Bool × Endpoint)) (from : ℕ) (slots : List Slot) (sent : List Sent)
    (out : List Slot × List Sent) : Type 0 where
  same_seats : map seat out.0 ≡ map seat slots
  new : List Sent
  calls : out.1 ≡ new ++ sent
  legit : All (Legit es from) new

module _ (send : Send) (source : Slot) (from : ℕ) (bytes : List ℕ) (high : Bool)
    (es : List (Bool × Endpoint)) (is_source : seat source ≡ seat_at es from) where
  route_from-Routed :
      (slots : List Slot) (to : ℕ) (sent : List Sent)
      → ((k : ℕ) → seat_at es (to + k) ≡ seat_at (map seat slots) k)
      → Routed es from slots sent (route_from send source from bytes high slots to sent)
  unfolding route_from
  route_from-Routed [] to sent place = record {
    same_seats = refl;
    new = [];
    calls = refl;
    legit = tt;
  }
  route_from-Routed (slot ∷ rest) to sent place = elim (Bool-cases (eligible source from slot to)) [
    | inl goes ↦ rw goes (
        let later =
          route_from-Routed rest (to + 1)
            (record { to = slot.endpoint.id; bytes = bytes; high_priority = high } ∷ sent) next in
        record {
          same_seats = ap₂ ◌∷◌ (seat-count_send _ _ slot) later.same_seats;
          new = later.new ++ call ∷ [];
          calls = later.calls ∙ sym (append_assoc later.new (call ∷ []) sent);
          legit = All-append _ later.new (call ∷ []) later.legit (lawful goes, tt);
        })
    | inr stays ↦ rw stays (
        let later = route_from-Routed rest (to + 1) sent next in
        record {
          same_seats = ap (λ t. seat slot ∷ t) later.same_seats;
          new = later.new;
          calls = later.calls;
          legit = later.legit;
        })
  ]
    where
      call : Sent
      call = record { to = slot.endpoint.id; bytes = bytes; high_priority = high }

      next : (k : ℕ) → seat_at es (to + 1 + k) ≡ seat_at (map seat rest) k
      next k = ap (λ n. seat_at es n) (omega arith) ∙ place (suc k)

      here : seat_at es to ≡ seat slot
      here = ap (λ n. seat_at es n) (omega arith) ∙ place 0

      lawful : eligible source from slot to ≡ true → Legit es from call
      lawful goes =
          let (ne, used, opposite) = eligible-Opposite source from slot to goes in
          (
            to,
            ne,
            ap (λ t. t.0) here ∙ used,
            ap (λ t. t.1.id) here,
            subst (λ t. Opposite t.1.direction (seat_at es to).1.direction) is_source
                (subst (λ t. Opposite source.endpoint.direction t.1.direction) (sym here) opposite),
          )

pub route-Follows :
    (send : Send) (from : ℕ) (r : Router) (bytes : List ℕ) (high : Bool)
    → Follows from r (route send r from bytes high)
unfolding route
route-Follows send from r bytes high = record {
  same_seats = done.same_seats;
  same_mode = refl;
  new = done.new;
  calls = done.calls;
  legit = done.legit;
  pinned = λ h. (h, refl);
  untouched = λ h. record { armed = refl; last_seen = refl; known = refl; system = refl };
}
  where
    done :
        Routed
          (seats r)
          from
          r.endpoints
          r.sent
          (route_from send (slot_at r from) from bytes high r.endpoints 0 r.sent)
    done =
        route_from-Routed send (slot_at r from) from bytes high (seats r)
          (sym (get_or-map seat r.endpoints from empty_slot)) r.endpoints 0 r.sent
          (λ k. ap (λ n. seat_at (seats r) n) (omega arith))
