-- ===== src/Stream/Conserve.antt =====
-- `airlink_escape_feed` loses no byte of the stream and changes no order.
use air_link.Base.{
  ℕ, zero, suc, ◌+◌, ◌-◌, ◌≤◌, ◌<◌, List, [], ◌∷◌, ◌++◌, ◌≡◌, refl, sym, ap, ◌∙◌, arith,
}
use air_link.Base.{
  lt→ltb, true, false, not, ◌&&◌, ◌||◌, inl, inr, Bool-cases, length, take, drop, ltb, ◌==◌,
}
use air_link.Base.{if◌then◌else◌, bytes_eq, bytes_eq→eq, take-append-drop, append-nil, append_assoc}
use mathlib.Core.List.{flatten}
use air_link.Stream.{Matcher, Fed, EscapeResult, pending, matched, emit_failed, Emit, pattern_max}
use air_link.Stream.{hold, suffix_prefix, feed_from, feed}

-- What was passed on in order, and what is held back behind it.
abbrev pub passed : Fed → List ℕ
passed fed = flatten fed.sent ++ fed.matcher.bytes

-- Every byte up to `before` and of the input so far is passed on or held back, in order.
abbrev pub Conserved : EscapeResult → List ℕ → List ℕ → List ℕ → ℕ → Fed → Type 0
Conserved pending pattern before input i fed =
    (passed fed ≡ before ++ input) × (fed.consumed ≡ i + length input)
Conserved matched pattern before input i fed =
    (n : ℕ) × (n ≤ length input)
    × (fed.consumed ≡ i + n)
    × (flatten fed.sent ++ pattern ≡ before ++ take n input)
    × (fed.matcher.bytes ≡ [])
Conserved emit_failed pattern before input i fed =
    (n : ℕ) × (n < length input) × (fed.consumed ≡ 0) × (passed fed ≡ before ++ take n input)

flatten-snoc : (s : List (List ℕ)) (b : List ℕ) → flatten (s ++ b ∷ []) ≡ flatten s ++ b
unfolding flatten
flatten-snoc [] b = append-nil b
flatten-snoc (a ∷ s) b = ap (λ t. a ++ t) (flatten-snoc s b) ∙ sym (append_assoc a (flatten s) b)

-- Cutting the combined bytes into a block and a rest keeps them.
cut_keeps :
    (sent : List (List ℕ)) (c : List ℕ) (n : ℕ)
    → flatten (if ltb 0 n then sent ++ take n c ∷ [] else sent) ++ drop n c ≡ flatten sent ++ c
cut_keeps sent c zero = refl
cut_keeps sent c (suc n) = rw (lt→ltb 0 (suc n) (omega arith)) (
    ap (λ t. t ++ drop (suc n) c) (flatten-snoc sent (take (suc n) c))
    ∙ append_assoc (flatten sent) (take (suc n) c) (drop (suc n) c)
    ∙ ap (λ t. flatten sent ++ t) (take-append-drop (suc n) c))

-- One byte taken from the input into what came before.
Conserved-cons :
    (r : EscapeResult) (p before : List ℕ) (b : ℕ) (rest : List ℕ) (i : ℕ) (fed : Fed)
    → Conserved r p (before ++ b ∷ []) rest (i + 1) fed
    → Conserved r p before (b ∷ rest) i fed
Conserved-cons pending p before b rest i fed (e, k) =
    (e ∙ append_assoc before (b ∷ []) rest, omega arith)
Conserved-cons matched p before b rest i fed (n, h, k, e, z) =
    (suc n, omega arith, omega arith, e ∙ append_assoc before (b ∷ []) (take n rest), z)
Conserved-cons emit_failed p before b rest i fed (n, h, k, e) =
    (suc n, omega arith, k, e ∙ append_assoc before (b ∷ []) (take n rest))

module _ (emit : Emit) (pattern : List ℕ) (now_us : ℕ) where
  feed_from-Conserved :
      (input : List ℕ) (i : ℕ) (m : Matcher) (sent : List (List ℕ)) (before : List ℕ)
      → flatten sent ++ m.bytes ≡ before
      → let fed = feed_from emit pattern now_us input i m sent in
        Conserved fed.result pattern before input i fed
  unfolding feed_from hold
  feed_from-Conserved [] i m sent before e = (e ∙ sym (append-nil before), omega arith)
  feed_from-Conserved (b ∷ rest) i m sent before e =
      elim (Bool-cases (length combined == length pattern && bytes_eq combined pattern)) [
        | inl hit ↦ rw hit (1, omega arith, refl, whole hit, refl)
        | inr miss ↦ elim (Bool-cases (ltb 0 flush && not (emit sent (take flush combined)))) [
          | inl refused ↦ rw (miss, refused) (0, omega arith, refl, e ∙ sym (append-nil before))
          | inr taken ↦
              rw (miss, taken)
                (Conserved-cons _ pattern before b rest i _ (
                  feed_from-Conserved rest (i + 1) (hold m combined keep now_us) _
                    (before ++ b ∷ []) (cut_keeps sent combined flush ∙ extended)))
        ]
      ]
    where
      combined : List ℕ
      combined = m.bytes ++ b ∷ []

      keep : ℕ
      keep = suffix_prefix combined pattern

      flush : ℕ
      flush = length combined - keep

      extended : flatten sent ++ combined ≡ before ++ b ∷ []
      extended = sym (append_assoc (flatten sent) m.bytes (b ∷ [])) ∙ ap (λ t. t ++ b ∷ []) e

      whole :
          (length combined == length pattern && bytes_eq combined pattern) ≡ true
          → flatten sent ++ pattern ≡ before ++ b ∷ []
      whole hit =
          ap (λ t. flatten sent ++ t) (sym (bytes_eq→eq combined pattern (ground arith))) ∙ extended

  -- With a pattern of an allowed length, every byte that was held or fed is accounted for, in
  -- order. If the call is pending, the blocks passed on and the bytes held make up all of it. If
  -- it matched, the blocks and the pattern make up the input up to `consumed` and nothing is held.
  -- If `emit` refused a block, they make up a shorter prefix of the input and `consumed` is 0.
  pub feed-Conserved :
      (m : Matcher) (input : List ℕ) (sent : List (List ℕ))
      → 2 ≤ length pattern
      → length pattern ≤ 32
      → let fed = feed emit pattern now_us m input sent in
        Conserved fed.result pattern (flatten sent ++ m.bytes) input 0 fed
  unfolding feed
  feed-Conserved m input sent lo hi = rw (allowed lo hi) (feed_from-Conserved input 0 m sent _ refl)
    where
      allowed :
          2 ≤ length pattern
          → length pattern ≤ 32
          → (ltb (length pattern) 2 || ltb pattern_max (length pattern)) ≡ false
      allowed lo hi = ground arith
