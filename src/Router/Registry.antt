-- ===== src/Router/Registry.antt =====
-- Registering and unregistering endpoints, against a map from ids to endpoints.
use air_link.Base.{ℕ, ◌+◌, List, [], ◌∷◌, ◌≡◌, ◌≢◌, refl, sym, ◌∙◌, arith}
use air_link.Base.{true, false, ◌&&◌, Option, none, some, inl, inr, Bool-cases, ◌==◌}
use air_link.Base.{◌⊎◌, if◌then◌else◌, All, ==_refl, length}
use mathlib.Core.Path.{subst}
use air_link.Mavlink.{fresh}
use air_link.Router.State.{Endpoint, Slot, Router, Err, esp_ok, invalid_arg, invalid_state, no_mem}
use air_link.Router.State.{not_found}
use air_link.Router.Slots.{find_from, find_endpoint, take_free, register}

-- The endpoint registered under an id.
pub endpoint_in : List Slot → ℕ → Option Endpoint
endpoint_in [] id = none
endpoint_in (slot ∷ rest) id =
    if slot.used && slot.endpoint.id == id then some slot.endpoint else endpoint_in rest id

-- No id is registered twice.
abbrev pub Distinct : List Slot → Type 0
Distinct [] = Unit
Distinct (slot ∷ rest) =
    ((slot.used ≡ false) ⊎ (endpoint_in rest slot.endpoint.id ≡ none)) × Distinct rest

-- `find_endpoint` answers whether the map has the id.
abbrev Finds : Option ℕ → Option Endpoint → Type 0
Finds none none = Unit
Finds (some i) (some e) = Unit
Finds _ _ = ⊥

find_from-Finds :
    (slots : List Slot) (id i : ℕ) → Finds (find_from slots id i) (endpoint_in slots id)
unfolding find_from endpoint_in
find_from-Finds [] id i = tt
find_from-Finds (slot ∷ rest) id i = elim (Bool-cases (slot.used && slot.endpoint.id == id)) [
  | inl here ↦ rw here tt
  | inr on ↦ rw on (find_from-Finds rest id (i + 1))
]

-- The outcome of taking a free slot for an endpoint whose id is not registered.
abbrev Taken : List Slot → Endpoint → Option (List Slot) → Type 0
Taken slots e none = All (λ slot. slot.used ≡ true) slots
Taken slots e (some after) =
    (endpoint_in after e.id ≡ some e)
    × ((id : ℕ) → id ≢ e.id → endpoint_in after id ≡ endpoint_in slots id)
    × Distinct after
    × (length after ≡ length slots)
    × (All (λ slot. slot.used ≡ true) slots → ⊥)

-- One more used slot in front.
Taken-cons :
    (slot : Slot) (rest : List Slot) (e : Endpoint) (o : Option (List Slot))
    → slot.used ≡ true
    → slot.endpoint.id ≢ e.id
    → (slot.used ≡ false) ⊎ (endpoint_in rest slot.endpoint.id ≡ none)
    → Taken rest e o
    → Taken (slot ∷ rest) e (elim o [ none ↦ none | some rest' ↦ some (slot ∷ rest') ])
unfolding endpoint_in
Taken-cons slot rest e none busy ne d t = (busy, t)
Taken-cons slot rest e (some after) busy ne d (found, others, distinct, long, free) = (
  ground (arith, found),
  λ id other. ground (arith, others id other),
  (elim d [ inl p ↦ inl p | inr p ↦ inr (others slot.endpoint.id ne ∙ p) ], distinct),
  omega (arith, long),
  λ full. free full.1,
)

take_free-Taken :
    (slots : List Slot) (e : Endpoint)
    → endpoint_in slots e.id ≡ none
    → Distinct slots
    → Taken slots e (take_free slots e)
unfolding take_free endpoint_in
take_free-Taken [] e h d = tt
take_free-Taken (slot ∷ rest) e h d = elim (Bool-cases slot.used) [
  | inr free ↦ subst (Taken (slot ∷ rest) e) (sym (closes free)) (
    rw (==_refl e.id),
    λ id ne. others id ne free,
    (inr (ground arith), d.1),
    refl,
    λ full. absurd (ground (arith, free, full.0)),
  )
  | inl busy ↦ subst (Taken (slot ∷ rest) e) (sym (opens busy)) (
      Taken-cons slot rest e (take_free rest e) busy (λ same. ground arith) d.0
        (take_free-Taken rest e (ground arith) d.1))
]
  where
    others :
        (id : ℕ)
        → id ≢ e.id
        → slot.used ≡ false
        → (if e.id == id then some e else endpoint_in rest id) ≡ (
            if slot.used && slot.endpoint.id == id then some slot.endpoint else endpoint_in rest id)
    others id ne free = ground arith

    closes :
        slot.used ≡ false
        → (if slot.used
            then elim (take_free rest e) [ none ↦ none | some rest' ↦ some (slot ∷ rest') ]
            else some (record slot { used = true; endpoint = e; parser = fresh } ∷ rest))
          ≡ some (record slot { used = true; endpoint = e; parser = fresh } ∷ rest)
    closes free = ground arith

    opens :
        slot.used ≡ true
        → (if slot.used
            then elim (take_free rest e) [ none ↦ none | some rest' ↦ some (slot ∷ rest') ]
            else some (record slot { used = true; endpoint = e; parser = fresh } ∷ rest))
          ≡ elim (take_free rest e) [ none ↦ none | some rest' ↦ some (slot ∷ rest') ]
    opens busy = rw busy

-- What `airlink_router_register` answers, and what that says of the table before and after.
abbrev pub Registered : Err → Router → Endpoint → Router → Type 0
Registered esp_ok r e s =
    (endpoint_in r.endpoints e.id ≡ none)
    × (endpoint_in s.endpoints e.id ≡ some e)
    × ((id : ℕ) → id ≢ e.id → endpoint_in s.endpoints id ≡ endpoint_in r.endpoints id)
    × Distinct s.endpoints
    × (length s.endpoints ≡ length r.endpoints)
    × (All (λ slot. slot.used ≡ true) r.endpoints → ⊥)
Registered invalid_state r e s = (endpoint_in r.endpoints e.id ≢ none) × (s ≡ r)
Registered no_mem r e s =
    (endpoint_in r.endpoints e.id ≡ none) × All (λ slot. slot.used ≡ true) r.endpoints × (s ≡ r)
Registered invalid_arg r e s = ⊥
Registered not_found r e s = ⊥

-- With no id registered twice, registering succeeds exactly when the id is new and a slot is free:
-- then the id names the new endpoint, every other id names what it did, still no id is twice there,
-- and the table has as many slots as before. An id that is taken gives INVALID_STATE, a full table gives NO_MEM, and neither changes
-- anything.
pub register_lem :
    (r : Router) (e : Endpoint)
    → Distinct r.endpoints
    → let (s, err) = register r e in Registered err r e s
unfolding register find_endpoint
register_lem r e d =
    go (find_from r.endpoints e.id 0) (endpoint_in r.endpoints e.id) (take_free r.endpoints e) refl
      (find_from-Finds r.endpoints e.id 0) (λ q. take_free-Taken r.endpoints e q d)
  where
    go :
        (found : Option ℕ) (known : Option Endpoint) (taken : Option (List Slot))
        → endpoint_in r.endpoints e.id ≡ known
        → Finds found known
        → (known ≡ none → Taken r.endpoints e taken)
        → let (s, err) = elim found as (λ _. Router × Err) [
          | some _ ↦ (r, invalid_state)
          | none ↦ elim taken [
            | some slots ↦ (record r { endpoints = slots }, esp_ok)
            | none ↦ (r, no_mem)
          ]
        ] in
          Registered err r e s
    go none none none q f t = (q, t refl, refl)
    go none none (some after) q f t = let (a, b, c, l, n) = t refl in (q, a, b, c, l, n)
    go none (some x) taken q f t = absurd f
    go (some i) none taken q f t = absurd f
    go (some i) (some x) taken q f t = (λ z. cc, refl)
