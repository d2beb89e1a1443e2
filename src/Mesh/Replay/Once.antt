-- ===== src/Mesh/Replay/Once.antt =====
-- Within a session the replay window accepts every sequence number at most once.
use air_link.Base.{ℕ, ◌-◌, ◌*◌, ◌%◌, ◌^◌, ◌≤◌, ◌<◌, List, [], ◌∷◌, ◌≡◌, refl, ap}
use air_link.Base.{
  arith, Bool, true, false, not, ◌&&◌, ◌||◌, inl, inr, Bool-cases, ◌⊎◌, All, ltb, leb, ltb→lt, ◌==◌,
}
use air_link.Base.{bit_and, bit_or, if◌then◌else◌}
use air_link.Mesh.Bits.{
  bit, bit-lt, bit-bit_or, bit-bit_and, bit-pow, bit-shift, bit-mod, zero_of_bits, bit-zero,
}
use air_link.Mesh.Replay.{Window, shifted, accept_in_session}

-- The sequence number occurs in the list.
unfoldable pub occurs : ℕ → List ℕ → Bool
occurs s [] = false
occurs s (x ∷ xs) = x == s || occurs s xs

-- The window stands for the numbers accepted in the session so far, newest first: none is above
-- the highest, the highest is among them, and bit `d` of the map says whether `highest - d` is.
pub record Stands (window : Window) (accepted : List ℕ) : Type 0 where
  pub below : All (λ s. s ≤ window.highest_sequence) accepted
  pub top : occurs window.highest_sequence accepted ≡ true
  pub bits :
      (d : ℕ)
      → d < 64
      → bit window.seen_bitmap d ≡ (
          if leb d window.highest_sequence && occurs (window.highest_sequence - d) accepted
          then 1
          else 0)

-- Testing one bit.
and-pow : (n d : ℕ) → bit (bit_and n (2 ^ d)) d ≡ bit n d
and-pow n d = ground (arith, bit-bit_and n (2 ^ d) d, bit-pow d d, bit-lt n d)

and-pow_eq_zero : (n d : ℕ) → bit n d ≡ 0 → bit_and n (2 ^ d) ≡ 0
and-pow_eq_zero n d h = zero_of_bits (bit_and n (2 ^ d)) (bit_and n (2 ^ d)) (omega arith) (λ i.
    elim (Bool-cases (i == d)) [
      | inl same ↦ ground (arith, bit-bit_and n (2 ^ d) i, bit-pow d i)
      | inr other ↦ ground (arith, bit-bit_and n (2 ^ d) i, bit-pow d i)
    ])

-- The test of the code on one bit.
pub tested : (n d : ℕ) → (bit_and n (2 ^ d) == 0) ≡ (bit n d == 0)
tested n d = elim (Bool-cases (bit n d == 0)) [
  | inl clear ↦ ground (arith, and-pow_eq_zero n d)
  | inr set_bit ↦
      ground (arith, and-pow n d, ap (λ m. bit m d) {x = bit_and n (2 ^ d)} {y = 0}, bit-zero d)
]

bit-set : (n d i : ℕ) → bit (bit_or n (2 ^ d)) i ≡ (if i == d then 1 else bit n i)
bit-set n d i = ground (arith, bit-bit_or n (2 ^ d) i, bit-pow d i, bit-lt n i)

bit-shifted :
    (n k i : ℕ)
    → 0 < k
    → i < 64
    → bit (shifted n k) i ≡ (if i == 0 then 1 else if ltb i k then 0 else bit n (i - k))
unfolding shifted
bit-shifted n k i pos h = ground (
  arith,
  bit-bit_or (n * 2 ^ k % 2 ^ 64) 1 i,
  bit-mod (n * 2 ^ k) 64 i h,
  bit-shift n k i,
  bit-pow 0 i,
  bit-lt n (i - k),
)

occurs_above : (xs : List ℕ) (h x : ℕ) → All (λ s. s ≤ h) xs → h < x → occurs x xs ≡ false
unfolding occurs
occurs_above [] h x all lt = refl
occurs_above (y ∷ xs) h x (le, all) lt = ground (arith, occurs_above xs h x all lt)

All-le_trans : (xs : List ℕ) (h k : ℕ) → h ≤ k → All (λ s. s ≤ h) xs → All (λ s. s ≤ k) xs
All-le_trans [] h k le all = tt
All-le_trans (x ∷ xs) h k le (p, all) = (omega arith, All-le_trans xs h k le all)

-- What the window ought to answer, by the numbers accepted: a number above all is new, and one
-- that is less than 64 below the highest is if it was not accepted.
abbrev pub is_new : Window → List ℕ → ℕ → Bool
is_new window accepted s =
    ltb window.highest_sequence s
    || (ltb (window.highest_sequence - s) 64 && not (occurs s accepted))

module _ (w : Window) (accepted : List ℕ) (v : Stands w accepted) (s : ℕ) where
  above-Stands :
      w.highest_sequence < s
      → Stands
          (record w {
            seen_bitmap = shifted w.seen_bitmap (s - w.highest_sequence);
            highest_sequence = s;
          })
          (s ∷ accepted)
  unfolding occurs
  above-Stands lt = record {
    below = (omega arith, All-le_trans accepted _ s (omega arith) v.below);
    top = ground arith;
    bits = λ i h.
        let k = s - w.highest_sequence in
        let same : k ≤ i → i ≤ s → s - i ≡ w.highest_sequence - (i - k) = λ p q. omega arith in
        ground (
          arith,
          bit-shifted w.seen_bitmap k i,
          v.bits (i - k),
          occurs_above accepted w.highest_sequence (s - i) v.below,
          same,
        );
  }

  within-Stands :
      s ≤ w.highest_sequence
      → Stands
          (record w { seen_bitmap = bit_or w.seen_bitmap (2 ^ (w.highest_sequence - s)) })
          (s ∷ accepted)
  unfolding occurs
  within-Stands le = record {
    below = (le, v.below);
    top = ground (arith, v.top);
    bits = λ i h. ground (arith, bit-set w.seen_bitmap (w.highest_sequence - s) i, v.bits i);
  }

  -- The test of the code within the window.
  decides :
      s ≤ w.highest_sequence
      → let distance = w.highest_sequence - s in
        (leb 64 distance || not (bit_and w.seen_bitmap (2 ^ distance) == 0))
        ≡ not (ltb distance 64 && not (occurs s accepted))
  decides le =
      let distance = w.highest_sequence - s in
      let back : w.highest_sequence - distance ≡ s = omega arith in
      rw (tested w.seen_bitmap distance)
        (ground (arith, v.bits distance, ap (λ x. occurs x accepted) back))

  -- Within a session, a window that stands for the accepted numbers accepts a number exactly when
  -- it is new, and then stands for the numbers with this one; a rejected number leaves it as it is.
  pub accept_in_session-Stands :
      let (w', ok) = accept_in_session w s in
      (ok ≡ is_new w accepted s)
      × Stands w' (if ok then s ∷ accepted else accepted)
      × ((ok ≡ true) ⊎ (w' ≡ w))
  unfolding accept_in_session
  accept_in_session-Stands = elim (Bool-cases (ltb w.highest_sequence s)) [
    | inl above ↦ rw above (refl, above-Stands (ltb→lt _ _ above), inl refl)
    | inr within ↦ rw within (
        rw (decides (ground arith))
          elim (Bool-cases (ltb (w.highest_sequence - s) 64 && not (occurs s accepted))) [
            | inl new ↦ rw new (refl, within-Stands (ground arith), inl refl)
            | inr old ↦ rw old (refl, v, inr refl)
          ])
  ]
