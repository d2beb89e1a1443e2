-- ===== src/Mavlink/Search.antt =====
-- The binary search of `crc_extra_for` finds exactly the entries of the table.
use air_link.Base.{ℕ, zero, suc, ◌+◌, ◌-◌, ◌/◌, ◌≤◌, ◌<◌, List, [], ◌∷◌, ◌≡◌, refl, arith}
use air_link.Base.{Option, Option-cases, none, some, true, Bool, ◌&&◌, inl, inr, ltb, ◌==◌, length}
use air_link.Base.{get_elem?, Bool-cases, ◌↔◌, if◌then◌else◌, get_or, get_elem?-eq-get_or}
use air_link.Mavlink.Table.{crc_extras, search_between, crc_extra_for}

-- The ids of the table grow strictly.
ascending : ℕ → List (ℕ × ℕ) → Bool
ascending low [] = true
ascending low ((id, extra) ∷ rest) = ltb low (suc id) && ascending (suc id) rest

crc_extras-ascending : ascending 0 crc_extras ≡ true
unfolding ascending
crc_extras-ascending = refl

-- What `ascending` gives at two places.
abbrev Sorted : List (ℕ × ℕ) → Type 0
Sorted table =
    (i j a b x y : ℕ)
    → i < j
    → get_elem? table i ≡ some (a, x)
    → get_elem? table j ≡ some (b, y)
    → a < b

ascending_bound :
    (t : List (ℕ × ℕ)) (low j b y : ℕ)
    → ascending low t ≡ true
    → get_elem? t j ≡ some (b, y)
    → low ≤ b
unfolding ascending
ascending_bound [] low j b y h e = cc
ascending_bound ((id, extra) ∷ t) low zero b y h e = ground arith
ascending_bound ((id, extra) ∷ t) low (suc j) b y h e =
    ground (arith, ascending_bound t (suc id) j b y)

ascending-Sorted : (t : List (ℕ × ℕ)) (low : ℕ) → ascending low t ≡ true → Sorted t
unfolding ascending
ascending-Sorted [] low h i j a b x y lt e f = cc
ascending-Sorted ((id, extra) ∷ t) low h i zero a b x y lt e f = absurd (omega arith)
ascending-Sorted ((id, extra) ∷ t) low h zero (suc j) a b x y lt e f =
    ground (arith, ascending_bound t (suc id) j b y)
ascending-Sorted ((id, extra) ∷ t) low h (suc i) (suc j) a b x y lt e f =
    ascending-Sorted t (suc id) (ground arith) i j a b x y (omega arith) e f

module _ (table : List (ℕ × ℕ)) (id : ℕ) where
  -- What the search returns stands in the table.
  abbrev Found : ℕ → Type 0
  Found extra = (i : ℕ) × (get_elem? table i ≡ some (id, extra))

  -- One round of the search.
  round_sound :
      (low high extra : ℕ) (above below : Option ℕ)
      → (above ≡ some extra → Found extra)
      → (below ≡ some extra → Found extra)
      → (if ltb low high
          then elim (get_elem? table (low + (high - low) / 2)) [
            | none ↦ none
            | some (key, x) ↦ if key == id then some x else if ltb key id then above else below
          ]
          else none)
        ≡ some extra
      → Found extra
  round_sound low high extra above below fa fb e = elim (Bool-cases (ltb low high)) [
    | inr no_room ↦ absurd (ground arith)
    | inl room ↦ elim (Option-cases (get_elem? table (low + (high - low) / 2))) [
      | inl outside ↦ absurd (ground arith)
      | inr ((key, x), here) ↦ elim (Bool-cases (key == id)) [
        | inl same ↦ (low + (high - low) / 2, ground arith)
        | inr other ↦ elim (Bool-cases (ltb key id)) [
          | inl smaller ↦ fa (ground arith)
          | inr larger ↦ fb (ground arith)
        ]
      ]
    ]
  ]

  search_between_sound :
      (fuel low high extra : ℕ) → search_between table id fuel low high ≡ some extra → Found extra
  unfolding search_between
  search_between_sound zero low high extra e = absurd (ground arith)
  search_between_sound (suc fuel) low high extra e =
      round_sound low high extra _ _
        (search_between_sound fuel (low + (high - low) / 2 + 1) high extra)
        (search_between_sound fuel low (low + (high - low) / 2) extra) e

  -- An entry of the id between the bounds is found, if the table is sorted and the fuel covers
  -- the distance.
  search_between_complete :
      (fuel low high i extra : ℕ)
      → Sorted table
      → get_elem? table i ≡ some (id, extra)
      → low ≤ i
      → i < high
      → high ≤ length table
      → high - low ≤ fuel
      → search_between table id fuel low high ≡ some extra
  unfolding search_between
  search_between_complete zero low high i extra s e lo hi top f = absurd (omega arith)
  search_between_complete (suc fuel) low high i extra s e lo hi top f =
      let mid = low + (high - low) / 2 in
      let entry = get_or table mid (0, 0) in
      ground (
        arith,
        get_elem?-eq-get_or table mid (0, 0),
        s i mid id entry.0 extra entry.1,
        s mid i entry.0 id entry.1 extra,
        search_between_complete fuel (mid + 1) high i extra s e,
        search_between_complete fuel low mid i extra s e,
      )

get_elem?-lt-length : (t : List (ℕ × ℕ)) (i : ℕ) (x : ℕ × ℕ) → get_elem? t i ≡ some x → i < length t
get_elem?-lt-length [] i x e = absurd (ground arith)
get_elem?-lt-length (y ∷ t) zero x e = omega arith
get_elem?-lt-length (y ∷ t) (suc i) x e = omega (arith, get_elem?-lt-length t i x e)

-- For every message id, `crc_extra_for` returns an extra byte exactly when the table holds the id
-- with that byte.
pub crc_extra_for_iff :
    (id extra : ℕ)
    → (crc_extra_for id ≡ some extra) ↔ ((i : ℕ) × (get_elem? crc_extras i ≡ some (id, extra)))
unfolding crc_extra_for
crc_extra_for_iff id extra = (
  λ e. search_between_sound crc_extras id (length crc_extras) 0 (length crc_extras) extra e,
  λ (i, e).
      search_between_complete crc_extras id (length crc_extras) 0 (length crc_extras) i extra
        (ascending-Sorted crc_extras 0 crc_extras-ascending) e (omega arith)
        (get_elem?-lt-length crc_extras i _ e) (omega arith) (omega arith),
)
