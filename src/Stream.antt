-- ===== src/Stream.antt =====
-- components/airlink_core/airlink_stream.c: the chunking of byte streams and the matcher that
-- looks for an escape pattern in a stream that it passes on.
pub mod Conserve
pub mod Borders
pub mod Detect
pub mod First
pub mod Tests
use air_link.Base.{ℕ, zero, suc, ◌+◌, ◌-◌, ◌%◌, ◌^◌, List, [], ◌∷◌, ◌++◌, Bool, true, false}
use air_link.Base.{not, ◌&&◌, ◌||◌, ltb, ◌==◌, if◌then◌else◌, length, take, drop, bytes_eq}

-- `airlink_stream_chunk_size`
unfoldable pub chunk_size : ℕ → ℕ → ℕ
chunk_size remaining maximum =
    if maximum == 0 then 0 else if ltb maximum remaining then maximum else remaining

-- `AIRLINK_ESCAPE_PATTERN_MAX`
abbrev pub pattern_max : ℕ
pattern_max = 32

-- `airlink_escape_matcher_t`: `bytes` holds the first `length` elements of the C array, which are
-- the only ones that the code reads.
pub record Matcher : Type 0 where
  pub bytes : List ℕ
  pub started_us : ℕ

-- `memset(matcher, 0, sizeof(*matcher))`
abbrev pub cleared : Matcher
cleared = record { bytes = []; started_us = 0 }

-- `airlink_escape_result_t`
pub data EscapeResult : Type 0 where
  pending matched emit_failed : EscapeResult

-- What a call leaves behind: its result, `*matcher`, `*consumed`, and the blocks that `emit` took.
pub record Fed : Type 0 where
  pub result : EscapeResult
  pub matcher : Matcher
  pub consumed : ℕ
  pub sent : List (List ℕ)

-- The `while` loop of `suffix_prefix`, from a candidate downwards.
pub longest_from : List ℕ → List ℕ → ℕ → ℕ
longest_from bytes pattern zero = 0
longest_from bytes pattern (suc candidate) =
    if bytes_eq (drop (length bytes - suc candidate) bytes) (take (suc candidate) pattern)
    then suc candidate
    else longest_from bytes pattern candidate

-- `suffix_prefix`: the pattern has at least two bytes, so `pattern_length - 1U` does not wrap.
pub suffix_prefix : List ℕ → List ℕ → ℕ
suffix_prefix bytes pattern =
    longest_from bytes pattern
      (if ltb (length bytes) (length pattern - 1) then length bytes else length pattern - 1)

-- `emit` is a callback of the caller: it takes a block or refuses it, as a function of the blocks
-- that it took before and of this one.
abbrev pub Emit : Type 0
Emit = List (List ℕ) → List ℕ → Bool

-- The matcher after one byte that completes no match, with `keep` bytes of `combined` held back.
pub hold : Matcher → List ℕ → ℕ → ℕ → Matcher
hold matcher combined keep now_us = record {
  bytes = drop (length combined - keep) combined;
  started_us =
      if keep == 0 then 0 else if length matcher.bytes == 0 then now_us else matcher.started_us;
}

module _ (emit : Emit) (pattern : List ℕ) (now_us : ℕ) where
  -- The loop of `airlink_escape_feed` with the rest of the input, at index `i`.
  pub feed_from : List ℕ → ℕ → Matcher → List (List ℕ) → Fed
  feed_from [] i matcher sent = record {
    result = pending;
    matcher = matcher;
    consumed = i;
    sent = sent;
  }
  feed_from (byte ∷ rest) i matcher sent =
      let combined : List ℕ = matcher.bytes ++ byte ∷ [] in
      let keep = suffix_prefix combined pattern in
      let flush = length combined - keep in
      let block = take flush combined in
      let later =
        feed_from rest (i + 1) (hold matcher combined keep now_us)
          (if ltb 0 flush then sent ++ block ∷ [] else sent) in
      if length combined == length pattern && bytes_eq combined pattern
      then record { result = matched; matcher = cleared; consumed = i + 1; sent = sent }
      else if ltb 0 flush && not (emit sent block)
      then record { result = emit_failed; matcher = matcher; consumed = 0; sent = sent }
      else later

  -- `airlink_escape_feed`, its pointers not NULL.
  pub feed : Matcher → List ℕ → List (List ℕ) → Fed
  feed matcher input sent =
      if ltb (length pattern) 2 || ltb pattern_max (length pattern)
      then record { result = emit_failed; matcher = matcher; consumed = 0; sent = sent }
      else feed_from input 0 matcher sent

-- `airlink_escape_flush_expired`: `now_us - started_us` wraps in `uint64_t`.
pub flush_expired : Emit → Matcher → ℕ → ℕ → List (List ℕ) → Bool × Matcher × List (List ℕ)
flush_expired emit matcher now_us timeout_us sent =
    if length matcher.bytes == 0 || ltb ((now_us + 2 ^ 64 - matcher.started_us) % 2 ^ 64) timeout_us
    then (true, matcher, sent)
    else if emit sent matcher.bytes
    then (true, cleared, sent ++ matcher.bytes ∷ [])
    else (false, cleared, sent)
