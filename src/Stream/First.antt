-- ===== src/Stream/First.antt =====
-- The loop of `airlink_escape_feed` against the occurrences of the pattern in the stream.
use air_link.Base.{ℕ, suc, ◌+◌, ◌-◌, ◌≤◌, List, [], ◌∷◌, ◌++◌, ◌≡◌, sym, ◌∙◌}
use air_link.Base.{
  arith, true, false, not, ◌&&◌, ◌||◌, inl, inr, Bool-cases, length, take, drop, ltb, refl, ap,
  take-append-drop, length-append, length-drop,
}
use air_link.Base.{bytes_eq, bytes_eq→eq, bytes_eq_refl, ◌==◌, ==_refl, append-nil}
use mathlib.Core.Path.{subst}
use mathlib.Core.Bool.{false≢true}
use air_link.Stream.{Matcher, Emit, pattern_max}
use air_link.Stream.{hold, suffix_prefix, feed_from, feed}
use air_link.Stream.Detect.{Tracks, Detected, Detected-cons, EndsWith, hit→EndsWith, EndsWith→hit}
use air_link.Stream.Detect.{Tracks-hold}

module _ (emit : Emit) (pattern : List ℕ) (now_us : ℕ) where
  feed_from-Detected :
      (input : List ℕ) (i : ℕ) (m : Matcher) (sent : List (List ℕ)) (s : List ℕ)
      → Tracks pattern s m.bytes
      → let fed = feed_from emit pattern now_us input i m sent in
        Detected emit fed.result pattern s input i fed
  unfolding feed_from hold
  feed_from-Detected [] i m sent s t =
      (subst (λ l. Tracks pattern l m.bytes) (sym (append-nil s)) t, λ n h. absurd (omega arith))
  feed_from-Detected (x ∷ rest) i m sent s t =
      elim (Bool-cases (length combined == length pattern && bytes_eq combined pattern)) [
        | inl hit ↦ rw hit (
          0,
          omega arith,
          omega arith,
          hit→EndsWith pattern s m.bytes x t (bytes_eq→eq combined pattern (ground arith)),
          λ n h. absurd (omega arith),
        )
        | inr miss ↦ elim (Bool-cases (ltb 0 flush && not (emit sent (take flush combined)))) [
          | inl refused ↦
              rw (miss, refused)
                (
                  0,
                  record {
                    inside = omega arith;
                    nothing_consumed = refl;
                    held = subst (λ l. Tracks pattern l m.bytes) (sym (append-nil s)) t;
                    byte = x;
                    block = take flush combined;
                    kept = drop flush combined;
                    at_byte = refl;
                    cut = sym (take-append-drop flush combined);
                    held_next = Tracks-hold pattern s m.bytes x t;
                    some_bytes = block_long (ground (arith, refused));
                    refused = ground (arith, refused);
                    none_before = λ n h e. not_here miss (
                        subst (λ k. EndsWith (s ++ take (suc k) (x ∷ rest)) pattern) (zero_of n h)
                          e);
                  },
                )
          | inr taken ↦
              rw (miss, taken)
                (Detected-cons emit _ pattern s x rest i _ (not_here miss) (
                  feed_from-Detected rest (i + 1) (hold m combined keep now_us) _ (s ++ x ∷ [])
                    (Tracks-hold pattern s m.bytes x t)))
        ]
      ]
    where
      combined : List ℕ
      combined = m.bytes ++ x ∷ []

      keep : ℕ
      keep = suffix_prefix combined pattern

      flush : ℕ
      flush = length combined - keep

      block_long : 1 ≤ flush → 1 ≤ length (take flush combined)
      block_long some_flush = omega (
        arith,
        some_flush,
        ap (λ (l : List ℕ). length l) (take-append-drop flush combined),
        length-append (take flush combined) (drop flush combined),
        length-drop flush combined,
      )

      zero_of : (n : ℕ) → n ≤ 0 → n ≡ 0
      zero_of n h = omega arith

      same :
          combined ≡ pattern
          → (length combined == length pattern && bytes_eq combined pattern) ≡ true
      same e = rw (e, ==_refl, bytes_eq_refl)

      not_here :
          (length combined == length pattern && bytes_eq combined pattern) ≡ false
          → ¬ EndsWith (s ++ x ∷ []) pattern
      not_here miss e = false≢true (sym miss ∙ same (EndsWith→hit pattern s m.bytes x t e))

  -- With a pattern of an allowed length, started on a stream `s` of which the longest possible
  -- start of the pattern is held, a call that is pending has not seen the pattern end anywhere in
  -- the input and again holds the longest possible start; a call that matched stopped just behind
  -- the first place where the stream ends with the pattern; a call that `emit` failed stopped at a
  -- byte of the input up to which the stream ends with the pattern nowhere, consumed nothing, holds
  -- the longest possible start before this byte, and `emit`, after the blocks it had taken, refused
  -- the bytes in front of the longest possible start with it.
  pub feed-Detected :
      (m : Matcher) (input : List ℕ) (sent : List (List ℕ)) (s : List ℕ)
      → 2 ≤ length pattern
      → length pattern ≤ 32
      → Tracks pattern s m.bytes
      → let fed = feed emit pattern now_us m input sent in
        Detected emit fed.result pattern s input 0 fed
  unfolding feed
  feed-Detected m input sent s lo hi t = rw (allowed lo hi) (feed_from-Detected input 0 m sent s t)
    where
      allowed :
          2 ≤ length pattern
          → length pattern ≤ 32
          → (ltb (length pattern) 2 || ltb pattern_max (length pattern)) ≡ false
      allowed lo hi = ground arith
