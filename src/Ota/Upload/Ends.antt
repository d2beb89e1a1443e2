-- ===== src/Ota/Upload/Ends.antt =====
-- The upload ends, leaves no stream behind, and succeeds only with an image to boot.
use air_link.Base.{
  ℕ, zero, suc, ◌+◌, ◌-◌, ◌*◌, ◌≤◌, List, ◌≡◌, refl, arith, Bool, true, false, not, ◌||◌,
}
use air_link.Base.{Option, none, some, length, ltb, ◌==◌, if◌then◌else◌, if-both}
use mathlib.Core.Path.{subst}
use air_link.Ota.Upload.{
  HttpRequest, Received, timeout, failed, received, Recv, Loop, receive_loop, after_loop,
  upload_image, http_upload,
}
use air_link.Ota.Stream.{Ota, Esp, Err, fail, invalid_arg, is_ok, stream_begin, stream_write}
use air_link.Ota.Stream.Phases.{IsValid}
use air_link.Ota.Stream.Keeps.{
  fail-not_ok, invalid_arg-not_ok, invalid_version-not_ok, stream_write-IsValid,
}
use air_link.Ota.Stream.Outcome.{Going, write-Going, abort_idle, Over, finish-Over}
use air_link.Ota.Stream.Started.{begin-Going}
use air_link.Ota.Upload.{hardware_id, memory_bytes, header_equals, parse_sha256}

module _ (esp : Esp) (recv : Recv)
    (gives : (n wanted : ℕ) (bytes : List ℕ)
      → recv n wanted ≡ received bytes
      → (1 ≤ length bytes) × (length bytes ≤ wanted)) where
  -- The loop's end: a valid stream, and after a success nothing to come.
  record Stopped (l : Loop) : Type 0 where
    valid : IsValid esp l.state
    complete : is_ok l.err ≡ true → Going esp l.state 0

  abbrev Ending : Option Loop → Type 0
  Ending none = ⊥
  Ending (some l) = Stopped l

  -- A round with its answer, when the rounds behind it end well.
  round :
      (s : Ota) (remaining wanted timeouts : ℕ) (again : Option Loop) (more : List ℕ → Option Loop)
      → Going esp s remaining
      → (timeouts + 1 ≤ 5 → Ending again)
      → ((bytes : List ℕ)
          → 1 ≤ length bytes
          → length bytes ≤ wanted
          → is_ok (stream_write esp s bytes).1 ≡ true
          → Ending (more bytes))
      → (n : ℕ) (r : Received) → recv n wanted ≡ r
      → Ending (elim r as (λ _. Option Loop) [
        | timeout ↦
            if ltb timeouts 5
            then again
            else some (record { state = s; err = fail; remaining = remaining })
        | failed ↦ some (record { state = s; err = fail; remaining = remaining })
        | received bytes ↦
            let (s', err) = stream_write esp s bytes in
            if is_ok err
            then more bytes
            else some (record { state = s'; err = err; remaining = remaining })
      ])
  round s remaining wanted timeouts again more g f k n timeout e =
      if-both Ending (ltb timeouts 5) _ _ (λ lt. f (ground arith))
        (λ _. record { valid = g.valid; complete = λ ok. absurd (fail-not_ok ok) })
  round s remaining wanted timeouts again more g f k n failed e = record {
    valid = g.valid;
    complete = λ ok. absurd (fail-not_ok ok);
  }
  round s remaining wanted timeouts again more g f k n (received bytes) e =
      let (positive, most) = gives n wanted bytes e in
      if-both Ending (is_ok (stream_write esp s bytes).1) _ _ (k bytes positive most) (λ bad.
        record {
          valid = stream_write-IsValid esp s bytes g.valid;
          complete = λ ok. absurd (ground (arith, ok, bad));
        })

  wanted_le : (remaining : ℕ) → (if ltb remaining 2048 then remaining else 2048) ≤ remaining
  wanted_le remaining = ground arith

  receive_loop-Ending :
      (fuel : ℕ) (s : Ota) (remaining timeouts calls : ℕ)
      → Going esp s remaining
      → timeouts ≤ 5
      → 6 * remaining + (6 - timeouts) ≤ fuel
      → Ending (receive_loop esp recv fuel s remaining timeouts calls)
  unfolding receive_loop
  receive_loop-Ending zero s remaining timeouts calls g t h = absurd (omega arith)
  receive_loop-Ending (suc fuel) s remaining timeouts calls g t h =
      if-both Ending (remaining == 0) _ _
        (λ done. record { valid = g.valid; complete = λ _. subst (Going esp s) (ground arith) g })
        (λ more.
          round s remaining (if ltb remaining 2048 then remaining else 2048) timeouts _ _ g
            (λ lt.
              receive_loop-Ending fuel s remaining (timeouts + 1) (calls + 1) g lt (omega arith))
            (λ bytes positive most ok.
              receive_loop-Ending fuel _ (remaining - length bytes) 0 (calls + 1)
                (write-Going esp s bytes remaining g (omega (arith, wanted_le remaining)) ok)
                (omega arith) (omega (arith, wanted_le remaining)))
            calls (recv calls (if ltb remaining 2048 then remaining else 2048)) refl)

  loop-Over : (l : Loop) → Stopped l → Over esp (after_loop esp recv l)
  unfolding after_loop
  loop-Over l stopped =
      if-both (Over esp) (not (is_ok l.err) || not (l.remaining == 0)) _ _
        (λ bad. record {
          idle = abort_idle esp l.state stopped.valid;
          chosen = λ ok. absurd (never (is_ok l.err) refl ok);
        })
        (λ good. finish-Over esp l.state (stopped.complete (ground arith)))
    where
      never : (b : Bool) → is_ok l.err ≡ b → is_ok (if b then fail else l.err) ≡ true → ⊥
      never true e ok = fail-not_ok ok
      never false e ok = ground (arith, e, ok)

  -- The result is there, and the upload is over.
  abbrev Answered : Option (Ota × Err) → Type 0
  Answered none = ⊥
  Answered (some r) = Over esp r

  upload_image-Answered :
      (s : Ota) (size : ℕ) (sha256 : List ℕ)
      → IsValid esp s
      → s.in_progress ≡ false
      → Answered (upload_image esp recv s size sha256)
  unfolding upload_image
  upload_image-Answered s size sha256 v idle =
      if-both Answered (not (is_ok begun.1)) _ _
        (λ bad.
          let failed : is_ok begun.1 ≡ false = ground (arith, bad) in
          record {
            idle = subst Result failed result;
            chosen = λ ok. absurd (ground (arith, ok, failed));
          })
        (λ good.
          let started : is_ok begun.1 ≡ true = ground (arith, good) in
          ended _ (
            receive_loop-Ending (6 * size + 6) begun.0 size 0 0 (subst Result started result)
              (omega arith) (omega arith)))
    where
      begun : Ota × Err
      begun = stream_begin esp s size sha256 none

      Result : Bool → Type 0
      Result b = if b then Going esp begun.0 size else begun.0.in_progress ≡ false

      result : Result (is_ok begun.1)
      result = begin-Going esp s size sha256 none v idle

      ended :
          (o : Option Loop)
          → Ending o
          → Answered (elim o as (λ _. Option (Ota × Err)) [
            | none ↦ none
            | some l ↦ some (after_loop esp recv l)
          ])
      ended none e = absurd e
      ended (some l) e = loop-Over l e

  refused-Over :
      (s : Ota) (err : Err) → s.in_progress ≡ false → (is_ok err ≡ true → ⊥) → Over esp (s, err)
  refused-Over s err idle bad = record { idle = idle; chosen = λ ok. absurd (bad ok) }

  http_upload-Answered :
      (s : Ota) (request : HttpRequest)
      → IsValid esp s
      → s.in_progress ≡ false
      → Answered (http_upload esp recv s request)
  unfolding http_upload
  http_upload-Answered s request v idle =
      if-both Answered (request.content_len == 0) _ _
        (λ _. refused-Over s _ idle invalid_arg-not_ok)
        (λ _.
          if-both Answered
            (not (header_equals request.hardware hardware_id)
              || not (header_equals request.flash_bytes memory_bytes)
              || not (header_equals request.psram_bytes memory_bytes))
            _ _ (λ _. refused-Over s _ idle invalid_version-not_ok)
            (λ _. on_digest (parse_sha256 request.sha256)))
    where
      on_digest :
          (o : Option (List ℕ))
          → Answered (elim o as (λ _. Option (Ota × Err)) [
            | none ↦ some (s, invalid_arg)
            | some sha256 ↦ upload_image esp recv s request.content_len sha256
          ])
      on_digest none = refused-Over s _ idle invalid_arg-not_ok
      on_digest (some sha256) = upload_image-Answered s request.content_len sha256 v idle

  -- An upload to an idle, valid updater always ends, provided that a receive that succeeds gives at
  -- least one byte and no more than were wanted: whatever the request holds and whatever the calls
  -- of the system answer, a result is there within the fuel, no stream is left in progress, and a
  -- result without an error means that the last call chose a partition to boot directly behind
  -- the calls that wrote and checked its image.
  pub http_upload-Over :
      (s : Ota) (request : HttpRequest)
      → IsValid esp s
      → s.in_progress ≡ false
      → (r : Ota × Err) × (http_upload esp recv s request ≡ some r) × Over esp r
  http_upload-Over s request v idle = result _ (http_upload-Answered s request v idle)
    where
      result : (o : Option (Ota × Err)) → Answered o → (r : Ota × Err) × (o ≡ some r) × Over esp r
      result none a = absurd a
      result (some r) a = (r, refl, a)
