-- ===== src/MeshConfig/Approvals/Lists.antt =====
-- Adding and removing against the set of approved nodes.
use air_link.Base.{ℕ, ◌≤◌, List, [], ◌∷◌, ◌++◌, ◌≡◌, refl, sym, ◌∙◌, ap, arith, length}
use air_link.Base.{true, false, ◌||◌, Bool-cases, Option, some, none, inl, inr}
use air_link.Base.{bytes_eq→eq, bytes_eq_refl, if◌then◌else◌}
use mathlib.Core.Path.{subst}
use air_link.MeshConfig.Approvals.{Approval, same_node, contains, remove_first}

pub contains-append :
    (xs : List Approval) (e : Approval) (serial mac : List ℕ)
    → contains (xs ++ e ∷ []) serial mac ≡ (contains xs serial mac || same_node e serial mac)
unfolding contains
contains-append [] e serial mac = ground arith
contains-append (x ∷ xs) e serial mac = ground (arith, contains-append xs e serial mac)

-- No node stands in the list twice.
abbrev pub Distinct : List Approval → Type 0
Distinct [] = Unit
Distinct (e ∷ rest) = (contains rest e.serial e.sta_mac ≡ false) × Distinct rest

pub same_node_refl :
    (serial mac : List ℕ) → same_node (record { serial = serial; sta_mac = mac }) serial mac ≡ true
unfolding same_node
same_node_refl serial mac = ground (arith, bytes_eq_refl serial, bytes_eq_refl mac)

-- An entry that is the same node is found under both names.
contains-same_node :
    (xs : List Approval) (e : Approval) (serial mac : List ℕ)
    → same_node e serial mac ≡ true
    → contains xs serial mac ≡ contains xs e.serial e.sta_mac
unfolding same_node
contains-same_node xs e serial mac h =
    ap (λ t. contains xs t mac) (sym (bytes_eq→eq e.serial serial (ground arith)))
    ∙ ap (contains xs e.serial) (sym (bytes_eq→eq e.sta_mac mac (ground arith)))

-- Another node than the one with this serial and address.
abbrev pub Other : List ℕ → List ℕ → List ℕ → List ℕ → Type 0
Other serial mac serial' mac' =
    same_node (record { serial = serial; sta_mac = mac }) serial' mac' ≡ false

same_node_moved :
    (e : Approval) (serial mac serial' mac' : List ℕ)
    → same_node e serial mac ≡ true
    → same_node e serial' mac' ≡ same_node (record { serial = serial; sta_mac = mac }) serial' mac'
unfolding same_node
same_node_moved e serial mac serial' mac' h =
    ground (arith, bytes_eq→eq e.serial serial, bytes_eq→eq e.sta_mac mac)

-- What removing a node from the list gives.
abbrev pub Removed : List Approval → List ℕ → List ℕ → Option (List Approval) → Type 0
Removed xs serial mac none = contains xs serial mac ≡ false
Removed xs serial mac (some ys) =
    (contains xs serial mac ≡ true)
    × (contains ys serial mac ≡ false)
    × ((serial' mac' : List ℕ)
        → Other serial mac serial' mac'
        → contains ys serial' mac' ≡ contains xs serial' mac')
    × (length ys ≤ length xs)
    × Distinct ys

Removed-cons :
    (e : Approval) (rest : List Approval) (serial mac : List ℕ) (o : Option (List Approval))
    → same_node e serial mac ≡ false
    → contains rest e.serial e.sta_mac ≡ false
    → Other serial mac e.serial e.sta_mac
    → Removed rest serial mac o
    → Removed (e ∷ rest) serial mac (elim o [ none ↦ none | some rest' ↦ some (e ∷ rest') ])
unfolding contains
Removed-cons e rest serial mac none other new apart absent = ground arith
Removed-cons e rest serial mac (some ys) other new apart (had, gone, keeps, shorter, distinct) = (
  ground arith,
  ground arith,
  λ serial' mac' h. ground (arith, keeps serial' mac' h),
  omega arith,
  (keeps e.serial e.sta_mac apart ∙ new, distinct),
)

pub same_node_comm :
    (e : Approval) (serial mac : List ℕ)
    → same_node e serial mac ≡ false
    → Other serial mac e.serial e.sta_mac
unfolding same_node
same_node_comm e serial mac h = ground (
  arith,
  bytes_eq→eq serial e.serial,
  bytes_eq→eq mac e.sta_mac,
  bytes_eq_refl serial,
  bytes_eq_refl mac,
)

pub remove_first-Removed :
    (xs : List Approval) (serial mac : List ℕ)
    → Distinct xs
    → Removed xs serial mac (remove_first xs serial mac)
unfolding remove_first contains
remove_first-Removed [] serial mac d = refl
remove_first-Removed (e ∷ rest) serial mac (new, d) = elim (Bool-cases (same_node e serial mac)) [
  | inl same ↦ rw same (
    ground arith,
    contains-same_node rest e serial mac same ∙ new,
    λ serial' mac' h. ground (arith, same_node_moved e serial mac serial' mac' same),
    omega arith,
    d,
  )
  | inr other ↦
      subst (Removed (e ∷ rest) serial mac)
        (sym (
          ap
            (λ t. if t then some rest else elim (remove_first rest serial mac) [
              | none ↦ none
              | some rest' ↦ some (e ∷ rest')
            ])
            other))
        (Removed-cons e rest serial mac _ other new (same_node_comm e serial mac other)
          (remove_first-Removed rest serial mac d))
]
