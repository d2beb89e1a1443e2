-- ===== src/Ota/Stream/Started.antt =====
-- How beginning a stream ends.
use air_link.Base.{ℕ, List, ◌∷◌, ◌≡◌, refl, arith, true, false, ◌||◌}
use air_link.Base.{Option, none, some, ltb, ◌==◌, if◌then◌else◌, Bool-cases, if-both, inl, inr}
use mathlib.Core.Path.{subst}
use air_link.Ota.Stream.{Ota, Esp, Partition, Err, invalid_size, invalid_state, is_ok}
use air_link.Ota.Stream.{requested}
use air_link.Ota.Stream.{version_refused, begin_failed, begin_hash, begin_on, stream_begin}
use air_link.Ota.Stream.Phases.{IsValid}
use air_link.Ota.Stream.{invalid_arg}
use air_link.Ota.Stream.Keeps.{by_flags, stream_begin-IsValid}
use air_link.Ota.Stream.{requested}
use air_link.Ota.Stream.Outcome.{Going}

module _ (esp : Esp) where
  -- A success leaves an active stream with nothing written, a failure none.
  abbrev Begun : ℕ → Ota × Err → Type 0
  Begun size r =
      if is_ok r.1
      then (r.0.active ≡ true) × (r.0.written ≡ 0) × (r.0.image_size ≡ size)
      else r.0.in_progress ≡ false

  begin_on-cases :
      (s : Ota) (target : Partition) (size : ℕ) (sha256 : List ℕ) (version : Option (List ℕ))
      → Begun size (begin_on esp s target size sha256 version)
  unfolding begin_on begin_hash begin_failed is_ok
  begin_on-cases s target size sha256 version =
      if-both (Begun size)
        (is_ok (esp.begins (requested size sha256 version ∷ s.trace) target size).0) _ _
        (λ ok. if-both (Begun size) (esp.sets_up _) _ _ (λ _. (refl, refl, refl)) (λ _. refl))
        (λ bad. rw bad refl)

  begin-cases :
      (s : Ota) (size : ℕ) (sha256 : List ℕ) (version : Option (List ℕ))
      → s.in_progress ≡ false
      → Begun size (stream_begin esp s size sha256 version)
  unfolding stream_begin is_ok
  begin-cases s size sha256 version idle =
      if-both (Begun size) (size == 0 || s.active || s.verified || version_refused version) _ _
        (λ _. idle) (λ _. on_target (esp.next_partition s.trace))
    where
      on_target :
          (o : Option Partition)
          → Begun size (elim o as (λ _. Ota × Err) [
            | none ↦ (s, invalid_size)
            | some target ↦
                if ltb target.size size
                then (s, invalid_size)
                else if s.in_progress
                then (s, invalid_state)
                else begin_on esp s target size sha256 version
          ])
      on_target none = idle
      on_target (some target) =
          if-both (Begun size) (ltb target.size size) _ _ (λ _. idle)
            (λ _.
              if-both (Begun size) s.in_progress _ _ (λ _. idle)
                (λ _. begin_on-cases s target size sha256 version))

  -- A stream that was begun has all of its image to come; else none is in progress.
  pub begin-Going :
      (s : Ota) (size : ℕ) (sha256 : List ℕ) (version : Option (List ℕ))
      → IsValid esp s
      → s.in_progress ≡ false
      → let (s', err) = stream_begin esp s size sha256 version in
        if is_ok err then Going esp s' size else s'.in_progress ≡ false
  begin-Going s size sha256 version v idle =
      go (stream_begin esp s size sha256 version) (begin-cases s size sha256 version idle)
        (stream_begin-IsValid esp s size sha256 version v)
    where
      go :
          (r : Ota × Err)
          → Begun size r
          → IsValid esp r.0
          → if is_ok r.1 then Going esp r.0 size else r.0.in_progress ≡ false
      go (t, err) b valid = elim (Bool-cases (is_ok err)) [
        | inl ok ↦
            let (a, w, i) =
              subst
                (λ x.
                  if x
                  then (t.active ≡ true) × (t.written ≡ 0) × (t.image_size ≡ size)
                  else t.in_progress ≡ false)
                ok b in
            rw ok (record { valid = valid; active = a; to_come = omega (arith, w, i) })
        | inr bad ↦ rw bad (
            subst
              (λ x.
                if x
                then (t.active ≡ true) × (t.written ≡ 0) × (t.image_size ≡ size)
                else t.in_progress ≡ false)
              bad b)
      ]

  -- A verified stream refuses another one.
  pub stream_begin-refused :
      (s : Ota) (size : ℕ) (sha256 : List ℕ) (version : Option (List ℕ))
      → s.verified ≡ true
      → stream_begin esp s size sha256 version ≡ (s, invalid_arg)
  unfolding stream_begin
  stream_begin-refused s size sha256 version staged =
      if-both (λ r. r ≡ (s, invalid_arg))
        (size == 0 || s.active || s.verified || version_refused version) _ _ (λ _. refl)
        (λ allowed. absurd (ground (arith, allowed, staged)))

  -- A valid stream is active or verified, not both.
  pub verified-idle : (s : Ota) → IsValid esp s → s.verified ≡ true → s.active ≡ false
  verified-idle s v staged = elim (Bool-cases s.active) [
    | inl both ↦ absurd (by_flags esp s true true v both staged)
    | inr idle ↦ idle
  ]
