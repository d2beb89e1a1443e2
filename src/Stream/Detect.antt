-- ===== src/Stream/Detect.antt =====
-- `airlink_escape_feed` reports the escape pattern at its first occurrence and nowhere else.
use air_link.Base.{ℕ, zero, suc, ◌+◌, ◌-◌, ◌≤◌, ◌<◌, List, [], ◌∷◌, ◌++◌, ◌≡◌, refl, sym, ap, ◌∙◌}
use air_link.Base.{
  false, arith, length, take, drop, take_all, length-append, length-drop, append_assoc,
}
use air_link.Stream.{Emit, Fed, EscapeResult, pending, matched, emit_failed, suffix_prefix}
use air_link.Stream.Borders.{last_bytes, Border, suffix_prefix-le, suffix_prefix-Border}
use air_link.Stream.Borders.{suffix_prefix_max, last_bytes-last_bytes, Border-snoc, snoc-Border}
use air_link.Stream.Borders.{last_bytes-snoc, Border-zero}
use mathlib.Core.Path.{subst}

-- The string ends with the pattern.
abbrev pub EndsWith : List ℕ → List ℕ → Type 0
EndsWith s p = (length p ≤ length s) × Border s p (length p)

-- `held` is the longest proper prefix of the pattern that the stream `s` ends with.
pub record Tracks (p s held : List ℕ) : Type 0 where
  pub shorter : length held < length p
  pub inside : length held ≤ length s
  pub is_end : last_bytes (length held) s ≡ held
  pub is_start : take (length held) p ≡ held
  pub longest : (n : ℕ) → n < length p → n ≤ length s → Border s p n → n ≤ length held

-- A stream that has just begun.
pub Tracks-nil : (p : List ℕ) → 2 ≤ length p → Tracks p [] []
Tracks-nil p h = record {
  shorter = omega arith;
  inside = omega arith;
  is_end = refl;
  is_start = refl;
  longest = λ n a b c. b;
}

module _ (p s held : List ℕ) (x : ℕ) (t : Tracks p s held) where
  combined : List ℕ
  combined = held ++ x ∷ []

  -- A border of what is held with the byte is one of the stream with it, and conversely.
  Border-held : (n : ℕ) → n ≤ length held → last_bytes n held ≡ last_bytes n s
  Border-held n h =
      ap (λ l. last_bytes n l) (sym t.is_end) ∙ last_bytes-last_bytes s n (length held) h t.inside

  Border-from_stream :
      (n : ℕ)
      → n < length p
      → n ≤ length s
      → Border (s ++ x ∷ []) p (suc n)
      → (n ≤ length held) × Border combined p (suc n)
  unfolding combined
  Border-from_stream n h k b =
      let (earlier, e) = Border-snoc s p x n k h b in
      let fits = t.longest n h k earlier in
      (fits, snoc-Border held p x n fits h (Border-held n fits ∙ earlier) e)

  last_combined :
      (n : ℕ) → n ≤ suc (length held) → last_bytes n (s ++ x ∷ []) ≡ last_bytes n combined
  unfolding combined
  last_combined zero h = Border-zero (s ++ x ∷ []) [] ∙ sym (Border-zero (held ++ x ∷ []) [])
  last_combined (suc n) h =
      last_bytes-snoc s x n (omega (arith, t.inside))
      ∙ ap (λ l. l ++ x ∷ []) (sym (Border-held n (omega arith)))
      ∙ sym (last_bytes-snoc held x n (omega arith))

  -- The stream ends with the pattern exactly when the bytes compared are the pattern.
  pub hit→EndsWith : held ++ x ∷ [] ≡ p → EndsWith (s ++ x ∷ []) p
  hit→EndsWith e = (
    omega (arith, as_long, t.inside, length-append s (x ∷ [])),
    ap (λ n. last_bytes n (s ++ x ∷ [])) as_long
        ∙ last_bytes-snoc s x (length held) t.inside
        ∙ ap (λ l. l ++ x ∷ []) t.is_end
        ∙ e
        ∙ sym (take_all (length p) p (omega arith)),
  )
    where
      as_long : length p ≡ suc (length held)
      as_long = omega (arith, ap length e, length-append held (x ∷ []))

  pub EndsWith→hit : EndsWith (s ++ x ∷ []) p → held ++ x ∷ [] ≡ p
  unfolding combined
  EndsWith→hit (long, b) = from_border (length p - 1) (omega (arith, t.shorter))
    where
      from_border : (n : ℕ) → length p ≡ suc n → combined ≡ p
      from_border n e =
          let (fits, bc) =
            Border-from_stream n (omega arith) (omega (arith, length-append s (x ∷ [])))
              (subst (λ k. Border (s ++ x ∷ []) p k) e b) in
          let whole : 0 ≡ length combined - suc n =
            omega (arith, length-append held (x ∷ []), t.shorter) in
          ap (λ k. drop k combined) whole ∙ bc ∙ take_all (suc n) p (omega arith)

  -- When they are not, what is held back afterwards is again the longest.
  pub Tracks-hold :
      let c = held ++ x ∷ [] in Tracks p (s ++ x ∷ []) (drop (length c - suffix_prefix c p) c)
  unfolding combined
  Tracks-hold = record {
    shorter = omega (arith, kept, bound, t.shorter);
    inside = omega (arith, kept, bound, t.inside, length-append s (x ∷ []), long);
    is_end =
        ap (λ n. last_bytes n (s ++ x ∷ [])) kept ∙ last_combined _ (omega (arith, bound, long));
    is_start = ap (λ n. take n p) kept ∙ sym (suffix_prefix-Border combined p);
    longest = λ n a b c. subst (λ k. n ≤ k) (sym kept) (no_longer n a b c);
  }
    where
      long : length combined ≡ suc (length held)
      long = omega (arith, length-append held (x ∷ []))

      bound :
          (suffix_prefix combined p ≤ length combined) × (suffix_prefix combined p ≤ length p - 1)
      bound = suffix_prefix-le combined p

      kept :
          length (drop (length combined - suffix_prefix combined p) combined)
          ≡ suffix_prefix combined p
      kept = omega (arith, bound, length-drop (length combined - suffix_prefix combined p) combined)

      no_longer :
          (n : ℕ)
          → n < length p
          → n ≤ length (s ++ x ∷ [])
          → Border (s ++ x ∷ []) p n
          → n ≤ suffix_prefix combined p
      no_longer zero a b c = omega arith
      no_longer (suc n) a b c =
          let (fits, bc) =
            Border-from_stream n (omega arith) (omega (arith, length-append s (x ∷ []))) c in
          suffix_prefix_max combined p (suc n) (omega (arith, long)) (omega arith) bc

-- The call stopped at the byte with index `k`, no occurrence of the pattern behind it or before:
-- it holds what was held before this byte, and `emit` refused the block in front of the longest
-- possible start that the stream with this byte ends with.
pub record Refused (emit : Emit) (p s input : List ℕ) (fed : Fed) (k : ℕ) : Type 0 where
  pub inside : k < length input
  pub nothing_consumed : fed.consumed ≡ 0
  pub held : Tracks p (s ++ take k input) fed.matcher.bytes
  pub byte : ℕ
  pub block : List ℕ
  pub kept : List ℕ
  pub at_byte : take (suc k) input ≡ take k input ++ byte ∷ []
  pub cut : fed.matcher.bytes ++ byte ∷ [] ≡ block ++ kept
  pub held_next : Tracks p (s ++ take (suc k) input) kept
  pub some_bytes : 1 ≤ length block
  pub refused : emit fed.sent block ≡ false
  pub none_before : (n : ℕ) → n ≤ k → ¬ EndsWith (s ++ take (suc n) input) p

-- Where the call stops in the input, and that the pattern ends nowhere earlier.
abbrev pub Detected : Emit → EscapeResult → List ℕ → List ℕ → List ℕ → ℕ → Fed → Type 0
Detected emit pending p s input i fed =
    Tracks p (s ++ input) fed.matcher.bytes
    × ((n : ℕ) → n < length input → ¬ EndsWith (s ++ take (suc n) input) p)
Detected emit matched p s input i fed =
    (k : ℕ) × (k < length input)
    × (fed.consumed ≡ i + suc k)
    × EndsWith (s ++ take (suc k) input) p
    × ((n : ℕ) → n < k → ¬ EndsWith (s ++ take (suc n) input) p)
Detected emit emit_failed p s input i fed = (k : ℕ) × Refused emit p s input fed k

none_yet :
    (p s : List ℕ) (x : ℕ) (rest : List ℕ)
    → ¬ EndsWith (s ++ x ∷ []) p
    → (k : ℕ) → ((n : ℕ) → n < k → ¬ EndsWith ((s ++ x ∷ []) ++ take (suc n) rest) p)
    → (n : ℕ) → n < suc k
    → ¬ EndsWith (s ++ take (suc n) (x ∷ rest)) p
none_yet p s x rest first k later zero h e = first e
none_yet p s x rest first k later (suc n) h e =
    later n (omega arith) (subst (λ l. EndsWith l p) (sym (append_assoc s (x ∷ []) _)) e)

pub Detected-cons :
    (emit : Emit) (r : EscapeResult) (p s : List ℕ) (x : ℕ) (rest : List ℕ) (i : ℕ) (fed : Fed)
    → ¬ EndsWith (s ++ x ∷ []) p
    → Detected emit r p (s ++ x ∷ []) rest (i + 1) fed
    → Detected emit r p s (x ∷ rest) i fed
Detected-cons emit pending p s x rest i fed first (t, later) = (
  subst (λ l. Tracks p l fed.matcher.bytes) (append_assoc s (x ∷ []) rest) t,
  none_yet p s x rest first (length rest) later,
)
Detected-cons emit matched p s x rest i fed first (k, h, c, e, later) = (
  suc k,
  omega arith,
  omega arith,
  subst (λ l. EndsWith l p) (append_assoc s (x ∷ []) _) e,
  none_yet p s x rest first k later,
)
Detected-cons emit emit_failed p s x rest i fed first (k, r) = (
  suc k,
  record {
    inside = omega (arith, r.inside);
    nothing_consumed = r.nothing_consumed;
    held = subst (λ l. Tracks p l fed.matcher.bytes) (append_assoc s (x ∷ []) (take k rest)) r.held;
    byte = r.byte;
    block = r.block;
    kept = r.kept;
    at_byte = ap (λ l. x ∷ l) r.at_byte;
    cut = r.cut;
    held_next =
        subst (λ l. Tracks p l r.kept) (append_assoc s (x ∷ []) (take (suc k) rest)) r.held_next;
    some_bytes = r.some_bytes;
    refused = r.refused;
    none_before = λ n b.
        none_yet p s x rest first (suc k) (λ m c. r.none_before m (omega arith)) n (omega arith);
  },
)
