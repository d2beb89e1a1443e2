-- ===== src/Stream/Borders.antt =====
-- `suffix_prefix` finds the longest proper prefix of the pattern that the bytes end with.
use air_link.Base.{ℕ, zero, suc, ◌+◌, ◌-◌, ◌≤◌, ◌<◌, List, [], ◌∷◌, ◌++◌, ◌≡◌, refl, sym, ap, ◌∙◌}
use air_link.Base.{arith, false, inl, inr, Bool-cases, length, take, drop, get_or, bytes_eq}
use air_link.Base.{bytes_eq→eq, bytes_eq_refl, length-append, length-drop, ap₂}
use mathlib.Core.Path.{subst}
use mathlib.Core.Bool.{false≢true}
use native.Mathlib.Nat.{zero-add, suc-add}
use native.Mathlib.Decide.{ℕ_discrete}
use air_link.Stream.{longest_from, suffix_prefix}

-- The last `n` bytes of a string.
abbrev pub last_bytes : ℕ → List ℕ → List ℕ
last_bytes n s = drop (length s - n) s

-- The last `n` bytes of `s` are the first `n` of `p`.
abbrev pub Border : List ℕ → List ℕ → ℕ → Type 0
Border s p n = last_bytes n s ≡ take n p

pub longest_from-le : (s p : List ℕ) (c : ℕ) → longest_from s p c ≤ c
unfolding longest_from
longest_from-le s p zero = omega arith
longest_from-le s p (suc c) = ground (arith, longest_from-le s p c)

drop_all : (s : List ℕ) → drop (length s) s ≡ []
drop_all [] = refl
drop_all (x ∷ s) = drop_all s

pub Border-zero : (s p : List ℕ) → Border s p 0
Border-zero s p = ap (λ k. drop k s) (omega arith) ∙ drop_all s

pub longest_from-Border : (s p : List ℕ) (c : ℕ) → Border s p (longest_from s p c)
unfolding longest_from
longest_from-Border s p zero = Border-zero s p
longest_from-Border s p (suc c) =
    elim (Bool-cases (bytes_eq (last_bytes (suc c) s) (take (suc c) p))) [
      | inl e ↦ rw e (bytes_eq→eq _ _ e)
      | inr e ↦ rw e (longest_from-Border s p c)
    ]

pub longest_from_max : (s p : List ℕ) (c n : ℕ) → n ≤ c → Border s p n → n ≤ longest_from s p c
unfolding longest_from
longest_from_max s p zero n h b = h
longest_from_max s p (suc c) n h b =
    elim (Bool-cases (bytes_eq (last_bytes (suc c) s) (take (suc c) p))) [
      | inl e ↦ rw e h
      | inr e ↦ rw e (longest_from_max s p c n (smaller e) b)
    ]
  where
    smaller : bytes_eq (last_bytes (suc c) s) (take (suc c) p) ≡ false → n ≤ c
    smaller e = elim (ℕ_discrete n (suc c)) [
      | yes q ↦ absurd (
          false≢true (
            sym e
            ∙ ap (λ t. bytes_eq t (take (suc c) p)) (subst (λ k. Border s p k) q b)
            ∙ bytes_eq_refl _))
      | no q ↦ omega arith
    ]

-- The bound on `keep`: less than the pattern, and no more than there is.
pub suffix_prefix-le :
    (s p : List ℕ) → (suffix_prefix s p ≤ length s) × (suffix_prefix s p ≤ length p - 1)
unfolding suffix_prefix
suffix_prefix-le s p =
    ground (arith, longest_from-le s p (length s), longest_from-le s p (length p - 1))

pub suffix_prefix-Border : (s p : List ℕ) → Border s p (suffix_prefix s p)
unfolding suffix_prefix
suffix_prefix-Border s p = longest_from-Border s p _

-- No longer proper prefix of the pattern ends the bytes.
pub suffix_prefix_max :
    (s p : List ℕ) (n : ℕ) → n ≤ length s → n ≤ length p - 1 → Border s p n → n ≤ suffix_prefix s p
unfolding suffix_prefix
suffix_prefix_max s p n h k b = longest_from_max s p _ n (ground arith) b

drop-snoc : (n : ℕ) (s : List ℕ) (x : ℕ) → n ≤ length s → drop n (s ++ x ∷ []) ≡ drop n s ++ x ∷ []
drop-snoc zero s x h = refl
drop-snoc (suc n) [] x h = absurd (omega arith)
drop-snoc (suc n) (y ∷ s) x h = drop-snoc n s x (omega arith)

take-suc : (n : ℕ) (p : List ℕ) → n < length p → take (suc n) p ≡ take n p ++ get_or p n 0 ∷ []
take-suc n [] h = absurd (omega arith)
take-suc zero (y ∷ p) h = refl
take-suc (suc n) (y ∷ p) h = ap (λ t. y ∷ t) (take-suc n p (omega arith))

snoc_injective : (s t : List ℕ) {x y : ℕ} → (s ++ x ∷ []) ≡ (t ++ y ∷ []) → (s ≡ t) × (x ≡ y)
snoc_injective [] [] e = (refl, ap (λ l. get_or l 0 0) e)
snoc_injective [] (b ∷ t) e = absurd (omega (arith, ap length e, length-append t (_ ∷ [])))
snoc_injective (a ∷ s) [] e = absurd (omega (arith, ap length e, length-append s (_ ∷ [])))
snoc_injective (a ∷ s) (b ∷ t) e =
    let (q, r) = snoc_injective s t (ap (drop 1) e) in (ap₂ ◌∷◌ (ap (λ l. get_or l 0 0) e) q, r)

-- One more byte at the end of both.
pub last_bytes-snoc :
    (s : List ℕ) (x n : ℕ)
    → n ≤ length s
    → last_bytes (suc n) (s ++ x ∷ []) ≡ last_bytes n s ++ x ∷ []
last_bytes-snoc s x n h =
    ap (λ k. drop k (s ++ x ∷ [])) (omega (arith, length-append s (x ∷ [])))
    ∙ drop-snoc (length s - n) s x (omega arith)

drop-nil : (n : ℕ) → drop {A = ℕ} n [] ≡ []
drop-nil zero = refl
drop-nil (suc n) = refl

drop-drop : (m n : ℕ) (s : List ℕ) → drop m (drop n s) ≡ drop (n + m) s
drop-drop m zero s = rw zero-add
drop-drop m (suc n) [] = drop-nil m ∙ sym (drop-nil (suc n + m))
drop-drop m (suc n) (x ∷ s) = rw suc-add (drop-drop m n s)

-- The end of an end.
pub last_bytes-last_bytes :
    (s : List ℕ) (m n : ℕ) → m ≤ n → n ≤ length s → last_bytes m (last_bytes n s) ≡ last_bytes m s
last_bytes-last_bytes s m n h k =
    drop-drop _ _ s ∙ ap (λ t. drop t s) (omega (arith, length-drop (length s - n) s))

-- A border of the longer string is one of the shorter with the pattern's next byte.
pub Border-snoc :
    (s p : List ℕ) (x n : ℕ)
    → n ≤ length s
    → n < length p
    → Border (s ++ x ∷ []) p (suc n)
    → Border s p n × (x ≡ get_or p n 0)
Border-snoc s p x n h k b = snoc_injective _ _ (sym (last_bytes-snoc s x n h) ∙ b ∙ take-suc n p k)

pub snoc-Border :
    (s p : List ℕ) (x n : ℕ)
    → n ≤ length s
    → n < length p
    → Border s p n
    → x ≡ get_or p n 0
    → Border (s ++ x ∷ []) p (suc n)
snoc-Border s p x n h k b e =
    last_bytes-snoc s x n h ∙ ap₂ (λ t y. t ++ y ∷ []) b e ∙ sym (take-suc n p k)
