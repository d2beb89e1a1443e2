-- ===== src/Router/Follows.antt =====
-- What every operation on a registered endpoint's data leaves alone: a relation between the
-- router before and after, with the calls of `send` in between.
use air_link.Base.{ℕ, List, [], ◌++◌, map, ◌≡◌, refl, sym, ap, ◌∙◌, ◌≢◌}
use air_link.Base.{Bool, true, get_or, set, All, All-append}
use air_link.Base.{get_or-map, map-set, set-get_or, append_assoc}
use mathlib.Core.Path.{subst}
use air_link.Router.State.{Direction, vehicle, gcs, Endpoint, Slot, Sent, Router, empty_slot}
use air_link.Router.Slots.{slot_at, update_slot}

-- Whether a slot is used, and its endpoint.
abbrev pub seat : Slot → Bool × Endpoint
seat slot = (slot.used, slot.endpoint)

abbrev pub seats : Router → List (Bool × Endpoint)
seats r = map seat r.endpoints

abbrev pub seat_at : List (Bool × Endpoint) → ℕ → Bool × Endpoint
seat_at es i = get_or es i (seat empty_slot)

-- One is on the vehicle's side and the other on the ground station's.
abbrev pub Opposite : Direction → Direction → Type 0
Opposite vehicle gcs = Unit
Opposite gcs vehicle = Unit
Opposite _ _ = ⊥

-- A call goes to a used slot other than the source's, on the other side.
abbrev pub Legit : List (Bool × Endpoint) → ℕ → Sent → Type 0
Legit es from call =
    (to : ℕ) × (to ≢ from)
    × ((seat_at es to).0 ≡ true)
    × ((seat_at es to).1.id ≡ call.to)
    × Opposite (seat_at es from).1.direction (seat_at es to).1.direction

-- The flight controller's state: armed, last seen, pinned identity.
pub record SameFc (r s : Router) : Type 0 where
  pub armed : s.fc_armed ≡ r.fc_armed
  pub last_seen : s.fc_last_seen_us ≡ r.fc_last_seen_us
  pub known : s.fc_identity_known ≡ r.fc_identity_known
  pub system : s.fc_system_id ≡ r.fc_system_id

pub record Follows (from : ℕ) (r s : Router) : Type 0 where
  pub same_seats : seats s ≡ seats r
  pub same_mode : s.mode ≡ r.mode
  pub new : List Sent
  pub calls : s.sent ≡ new ++ r.sent
  pub legit : All (Legit (seats r) from) new
  pub pinned :
      r.fc_identity_known ≡ true → (s.fc_identity_known ≡ true) × (s.fc_system_id ≡ r.fc_system_id)
  pub untouched : (seat_at (seats r) from).1.direction ≢ vehicle → SameFc r s

pub Follows-refl : (from : ℕ) (r : Router) → Follows from r r
Follows-refl from r = record {
  same_seats = refl;
  same_mode = refl;
  new = [];
  calls = refl;
  legit = tt;
  pinned = λ h. (h, refl);
  untouched = λ h. record { armed = refl; last_seen = refl; known = refl; system = refl };
}

pub Follows-trans :
    (from : ℕ) (r s t : Router) → Follows from r s → Follows from s t → Follows from r t
Follows-trans from r s t a b = record {
  same_seats = b.same_seats ∙ a.same_seats;
  same_mode = b.same_mode ∙ a.same_mode;
  new = b.new ++ a.new;
  calls = b.calls ∙ ap (λ l. b.new ++ l) a.calls ∙ sym (append_assoc b.new a.new r.sent);
  legit =
      All-append _ b.new a.new (subst (λ es. All (Legit es from) b.new) a.same_seats b.legit)
        a.legit;
  pinned = λ h. let (k, e) = a.pinned h in let (k', e') = b.pinned k in (k', e' ∙ e);
  untouched = λ h.
      let p = a.untouched h in
      let q =
        b.untouched (subst (λ es. (seat_at es from).1.direction ≢ vehicle) (sym a.same_seats) h) in
      record {
        armed = q.armed ∙ p.armed;
        last_seen = q.last_seen ∙ p.last_seen;
        known = q.known ∙ p.known;
        system = q.system ∙ p.system;
      };
}

-- A change of a slot that keeps its seat.
pub update_slot-Follows :
    (from i : ℕ) (r : Router) (f : Slot → Slot)
    → seat (f (slot_at r i)) ≡ seat (slot_at r i)
    → Follows from r (update_slot r i f)
unfolding update_slot
update_slot-Follows from i r f e = record {
  same_seats =
      map-set seat r.endpoints i _
      ∙ ap (λ v. set (seats r) i v) (e ∙ sym (get_or-map seat r.endpoints i empty_slot))
      ∙ set-get_or (seats r) i (seat empty_slot);
  same_mode = refl;
  new = [];
  calls = refl;
  legit = tt;
  pinned = λ h. (h, refl);
  untouched = λ h. record { armed = refl; last_seen = refl; known = refl; system = refl };
}
