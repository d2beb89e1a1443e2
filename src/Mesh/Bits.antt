-- ===== src/Mesh/Bits.antt =====
-- The bits of a 64-bit map under shifting, testing and setting.
use Prim.Native.Nat.{digits, bit_and-bitwise, bit_or-bitwise, bitwise}
use native.Mathlib.Nat.{le_refl, pow-suc, pow-succ', div-add-mod, div-div-eq-div-mul}
use air_link.Base.{ℕ, zero, suc, ◌+◌, ◌-◌, ◌*◌, ◌/◌, ◌%◌, ◌^◌, ◌≤◌, ◌<◌, min, max, bit_and, bit_or}
use air_link.Base.{◌≡◌, refl, ap, ◌∙◌, arith, ltb, ◌==◌, if◌then◌else◌}

-- Bit `d` of `n`.
abbrev pub bit : ℕ → ℕ → ℕ
bit n zero = n % 2
bit n (suc d) = bit (n / 2) d

-- The native operations by the lowest digit.
module _ (z : ℕ → ℕ) (f : ℕ → ℕ → ℕ) where
  enough_digits : (n m a b : ℕ) → a ≤ n → a ≤ m → digits z f n a b ≡ digits z f m a b
  enough_digits zero zero a b p q = refl
  enough_digits zero (suc m) zero b p q = refl
  enough_digits zero (suc m) (suc a) b p q = absurd (omega arith)
  enough_digits (suc n) zero zero b p q = refl
  enough_digits (suc n) zero (suc a) b p q = absurd (omega arith)
  enough_digits (suc n) (suc m) zero b p q = refl
  enough_digits (suc n) (suc m) (suc a) b p q =
      rw (enough_digits n m (suc a / 2) (b / 2) (omega arith) (omega arith))

  lowest_digit :
      (a b : ℕ)
      → bitwise z f (suc a) b ≡ bitwise z f (suc a / 2) (b / 2) * 2 + f (suc a % 2) (b % 2)
  lowest_digit a b =
      omega (arith, enough_digits a (suc a / 2) (suc a / 2) (b / 2) (omega arith) (le_refl _))

or_step : (a b : ℕ) → bit_or a b ≡ bit_or (a / 2) (b / 2) * 2 + max (a % 2) (b % 2)
or_step zero b = simp bit_or-bitwise (omega arith)
or_step (suc a) b = simp bit_or-bitwise (lowest_digit (λ y. y) max a b)

and_step : (a b : ℕ) → bit_and a b ≡ bit_and (a / 2) (b / 2) * 2 + min (a % 2) (b % 2)
and_step zero b = simp bit_and-bitwise (omega arith)
and_step (suc a) b = simp bit_and-bitwise (lowest_digit (λ y. 0) min a b)

pub bit-zero : (d : ℕ) → bit 0 d ≡ 0
bit-zero zero = refl
bit-zero (suc d) = bit-zero d

pub bit-lt : (n d : ℕ) → bit n d < 2
bit-lt n zero = omega arith
bit-lt n (suc d) = bit-lt (n / 2) d

-- Every bit of `a | b` and of `a & b`.
pub bit-bit_or : (a b d : ℕ) → bit (bit_or a b) d ≡ max (bit a d) (bit b d)
bit-bit_or a b zero = omega (arith, or_step a b)
bit-bit_or a b (suc d) =
    let half : bit_or a b / 2 ≡ bit_or (a / 2) (b / 2) = omega (arith, or_step a b) in
    ap (λ n. bit n d) half ∙ bit-bit_or (a / 2) (b / 2) d

pub bit-bit_and : (a b d : ℕ) → bit (bit_and a b) d ≡ min (bit a d) (bit b d)
bit-bit_and a b zero = omega (arith, and_step a b)
bit-bit_and a b (suc d) =
    let half : bit_and a b / 2 ≡ bit_and (a / 2) (b / 2) = omega (arith, and_step a b) in
    ap (λ n. bit n d) half ∙ bit-bit_and (a / 2) (b / 2) d

pow_half : (d : ℕ) → 2 ^ suc d / 2 ≡ 2 ^ d
pow_half d = omega (arith, pow-suc 2 d)

pub bit-pow : (d i : ℕ) → bit (2 ^ d) i ≡ (if i == d then 1 else 0)
bit-pow zero zero = refl
bit-pow zero (suc i) = ground (arith, bit-zero i)
bit-pow (suc d) zero = ground (arith, pow-suc 2 d)
bit-pow (suc d) (suc i) = ap (λ n. bit n i) (pow_half d) ∙ bit-pow d i ∙ ground arith

-- A number none of whose bits is set is 0.
pub zero_of_bits : (k n : ℕ) → n ≤ k → ((d : ℕ) → bit n d ≡ 0) → n ≡ 0
zero_of_bits k zero le h = refl
zero_of_bits zero (suc n) le h = absurd (omega arith)
zero_of_bits (suc k) (suc n) le h =
    omega (arith, h 0, zero_of_bits k (suc n / 2) (omega arith) (λ d. h (suc d)))

bit-twice : (n d : ℕ) → bit (n * 2) (suc d) ≡ bit n d
bit-twice n d = ap (λ k. bit k d) (omega arith)

double : (n k : ℕ) → n * 2 ^ suc k ≡ 2 * (n * 2 ^ k)
double n k = omega (arith, ap (λ (t : ℕ). n * t) (pow-suc 2 k))

-- Shifting left by `k`.
pub bit-shift : (n k i : ℕ) → bit (n * 2 ^ k) i ≡ (if ltb i k then 0 else bit n (i - k))
bit-shift n zero i =
    let whole : n * 1 ≡ n = omega arith in
    let same : i - 0 ≡ i = omega arith in ap (λ m. bit m i) whole ∙ ground arith
bit-shift n (suc k) zero = ground (arith, double n k)
bit-shift n (suc k) (suc i) =
    let half : n * 2 ^ suc k / 2 ≡ n * 2 ^ k = omega (arith, double n k) in
    let less : suc i - suc k ≡ i - k = omega arith in
    ap (λ m. bit m i) half ∙ bit-shift n k i ∙ ground arith

-- Halving a remainder by `2 * m`.
mod-half : (n m : ℕ) → (n % (2 * m) / 2 ≡ n / 2 % m) × (n % (2 * m) % 2 ≡ n % 2)
mod-half n m = (
  omega (
    arith,
    div-add-mod n (2 * m),
    div-add-mod (n / 2) m,
    ap (λ (t : ℕ). m * t) (div-div-eq-div-mul n 2 m),
  ),
  omega (arith, div-add-mod n (2 * m)),
)

-- The low bits of a word.
pub bit-mod : (n k i : ℕ) → i < k → bit (n % 2 ^ k) i ≡ bit n i
bit-mod n zero i h = absurd (omega arith)
bit-mod n (suc k) zero h = ap (λ m. n % m % 2) (pow-succ' 2 k) ∙ (mod-half n (2 ^ k)).1
bit-mod n (suc k) (suc i) h =
    ap (λ m. bit (n % m / 2) i) (pow-succ' 2 k)
    ∙ ap (λ m. bit m i) (mod-half n (2 ^ k)).0
    ∙ bit-mod (n / 2) k i (omega arith)
