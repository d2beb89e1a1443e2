-- ===== src/Ota/Marker/Search.antt =====
-- The search in overlapping blocks against the search in the whole image.
use air_link.Base.{ℕ, zero, suc, ◌+◌, ◌-◌, ◌≤◌, ◌<◌, List, [], ◌∷◌, ◌≡◌, refl, sym, ap, ◌∙◌, arith}
use air_link.Base.{
  Bool, true, false, ◌||◌, Bool-cases, inl, inr, ltb, Option, none, some, if◌then◌else◌,
}
use air_link.Base.{length, take, drop, take_all, length-take, length-drop, bytes_eq, bytes_eq→eq}
use air_link.Ota.Marker.{
  hardware_marker, begins, contains_marker, scan_blocks, partition_contains_marker,
}

begins_short : (m xs : List ℕ) → length xs < length m → begins m xs ≡ false
unfolding begins
begins_short m xs h = elim (Bool-cases (bytes_eq (take (length m) xs) m)) [
  | inr other ↦ other
  | inl same ↦ absurd (
      omega (arith, ap length (bytes_eq→eq (take (length m) xs) m same), length-take (length m) xs))
]

contains_short : (m xs : List ℕ) → length xs < length m → contains_marker m xs ≡ false
unfolding contains_marker
contains_short m [] h = refl
contains_short m (x ∷ xs) h = rw (begins_short m (x ∷ xs) h) (contains_short m xs (omega arith))

take-take : (k n : ℕ) (xs : List ℕ) → k ≤ n → take k (take n xs) ≡ take k xs
take-take zero n xs h = refl
take-take (suc k) zero xs h = absurd (omega arith)
take-take (suc k) (suc n) [] h = refl
take-take (suc k) (suc n) (x ∷ xs) h = ap (λ t. x ∷ t) (take-take k n xs (omega arith))

begins-take : (m : List ℕ) (n : ℕ) (xs : List ℕ) → length m ≤ n → begins m (take n xs) ≡ begins m xs
unfolding begins
begins-take m n xs h = ap (λ t. bytes_eq t m) (take-take (length m) n xs h)

-- A marker stands in the first `n` bytes, or begins late enough to stand behind the first `k`.
contains-split :
    (m : List ℕ) (k n : ℕ) (xs : List ℕ)
    → 0 < length m
    → k + length m ≡ n + 1
    → n ≤ length xs
    → contains_marker m xs ≡ (contains_marker m (take n xs) || contains_marker m (drop k xs))
unfolding contains_marker
contains-split m zero n xs pos e h =
    rw (contains_short m (take n xs) (omega (arith, length-take n xs))) refl
contains-split m (suc k) zero xs pos e h = absurd (omega arith)
contains-split m (suc k) (suc n) [] pos e h = absurd (omega arith)
contains-split m (suc k) (suc n) (x ∷ xs) pos e h = ground (
  arith,
  begins-take m (suc n) (x ∷ xs) (omega arith),
  contains-split m k n xs pos (omega arith) (omega arith),
)

drop-nil : (n : ℕ) → drop {A = ℕ} n [] ≡ []
drop-nil zero = refl
drop-nil (suc n) = refl

drop-drop : (a b : ℕ) (xs : List ℕ) → drop a (drop b xs) ≡ drop (b + a) xs
drop-drop a zero xs = ap (λ n. drop n xs) (omega arith)
drop-drop a (suc b) [] = drop-nil a ∙ sym (drop-nil (suc b + a))
drop-drop a (suc b) (x ∷ xs) =
    let next : suc (b + a) ≡ suc b + a = omega arith in
    drop-drop a b xs ∙ ap (λ n. drop n (x ∷ xs)) next

if_true-else : (a b : Bool) → (if a then true else b) ≡ (a || b)
if_true-else true b = refl
if_true-else false b = refl

module _ (read : ℕ → ℕ → Option (List ℕ)) (m content : List ℕ) (pos : 0 < length m)
    (fits : length m ≤ 1024)
    (reads : (offset count : ℕ)
      → offset + count ≤ length content
      → read offset count ≡ some (take count (drop offset content))) where
  step : ℕ
  step = 1024 - length m + 1

  nothing : (offset : ℕ) → length content ≤ offset → contains_marker m (drop offset content) ≡ false
  nothing offset h =
      contains_short m (drop offset content) (omega (arith, length-drop offset content))

  last_block :
      (offset : ℕ)
      → offset < length content
      → read offset (length content - offset) ≡ some (drop offset content)
  last_block offset h =
      reads offset (length content - offset) (omega arith)
      ∙ ap some (
          take_all (length content - offset) (drop offset content)
            (omega (arith, length-drop offset content)))

  -- One round, by what the later ones find.
  block :
      (offset : ℕ) (later : Bool)
      → later ≡ contains_marker m (drop (offset + step) content)
      → let count = if ltb (length content - offset) 1024 then length content - offset else 1024 in
        (if ltb offset (length content)
          then elim (read offset count) as (λ _. Bool) [
            | none ↦ false
            | some buffer ↦
                if contains_marker m buffer then true else if ltb count 1024 then false else later
          ]
          else false)
        ≡ contains_marker m (drop offset content)
  unfolding step
  block offset later e = elim (Bool-cases (ltb offset (length content))) [
    | inr past ↦ rw past (sym (nothing offset (ground arith)))
    | inl inside ↦ elim (Bool-cases (ltb (length content - offset) 1024)) [
      | inl last ↦ rw (inside, last, last_block offset (ground arith), last) (ground arith)
      | inr more ↦
          rw (inside, more, reads offset 1024 (ground arith), more)
            (if_true-else (contains_marker m (take 1024 (drop offset content))) later
              ∙ ap (λ t. contains_marker m (take 1024 (drop offset content)) || t)
                  (e ∙ ap (contains_marker m) (sym (drop-drop step offset content)))
              ∙ sym (
                  contains-split m step 1024 (drop offset content) pos (omega arith)
                    (ground (arith, length-drop offset content))))
    ]
  ]

  -- From an offset on, the blocks find what stands behind the offset.
  scan_blocks-eq :
      (fuel offset : ℕ)
      → length content ≤ fuel + offset
      → scan_blocks read m (length content) fuel offset ≡ contains_marker m (drop offset content)
  unfolding scan_blocks step
  scan_blocks-eq zero offset h = sym (nothing offset (omega arith))
  scan_blocks-eq (suc fuel) offset h =
      block offset _ (scan_blocks-eq fuel (offset + step) (omega arith))

-- When the partition can be read and gives `content`, the search in overlapping blocks of 1024
-- bytes finds the hardware marker exactly when it stands somewhere in the image, also across the
-- border of two blocks.
pub partition_contains_marker-eq :
    (read : ℕ → ℕ → Option (List ℕ)) (content : List ℕ)
    → ((offset count : ℕ)
        → offset + count ≤ length content
        → read offset count ≡ some (take count (drop offset content)))
    → partition_contains_marker read (length content) ≡ contains_marker hardware_marker content
unfolding partition_contains_marker
partition_contains_marker-eq read content reads = elim (Bool-cases (ltb (length content) 57)) [
  | inl short ↦ rw short (sym (contains_short hardware_marker content (ground arith)))
  | inr long ↦ rw long (
      scan_blocks-eq read hardware_marker content (omega arith) (omega arith) reads (length content)
        0 (omega arith))
]
