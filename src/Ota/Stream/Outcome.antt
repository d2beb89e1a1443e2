-- ===== src/Ota/Stream/Outcome.antt =====
-- How the operations end: what a success and a failure leave.
use air_link.Base.{
  ℕ, ◌+◌, ◌-◌, ◌≤◌, List, ◌∷◌, ◌≡◌, refl, ap, arith, Bool, true, false, not, ◌&&◌, ◌||◌,
}
use air_link.Base.{
  Option, none, some, length, ltb, ◌==◌, if◌then◌else◌, Bool-cases, if-both, inl, inr,
}
use mathlib.Core.Path.{subst}
use air_link.Ota.Stream.{Ota, Esp, Trace, Partition, Err, esp_ok, invalid_state, is_ok}
use air_link.Ota.Stream.{led_error, called, cleared, lit, hash_update, hash_finish, set_boot}
use air_link.Ota.Stream.{stream_remaining, stream_abort, stream_write}
use air_link.Ota.Stream.{
  verify_end, verify_image, digest_err, verify_written, stream_verify, stream_activate,
  stream_finish,
}
use air_link.Ota.Stream.Phases.{Checked, IsValid}
use air_link.Ota.Stream.Keeps.{is_ok-eq, by_flags, stream_write-IsValid}
use air_link.Ota.Stream.Booted.{stream_verify-IsValid}

module _ (esp : Esp) where
  -- The stream is active, with so many bytes to come.
  pub record Going (s : Ota) (remaining : ℕ) : Type 0 where
    pub valid : IsValid esp s
    pub active : s.active ≡ true
    pub to_come : s.written + remaining ≡ s.image_size

  -- A write that succeeds brings the stream on.
  write_ok :
      (s : Ota) (bytes : List ℕ)
      → let (s', err) = stream_write esp s bytes in
        is_ok err ≡ true
        → (s'.active ≡ true)
          × (s'.written ≡ s.written + length bytes)
          × (s'.image_size ≡ s.image_size)
  unfolding stream_write is_ok
  write_ok s bytes =
      if-both Grown refused _ _ (λ _ bad. absurd (cc))
        (λ allowed.
          if-both Grown (not (esp.updates s.trace bytes)) _ _ (λ _ bad. absurd (cc))
            (λ updated.
              if-both Grown (not (is_ok err)) _ _ (λ b good. absurd (ground (arith, b, good)))
                (λ _ _. (ground (arith, allowed), refl, refl))))
    where
      Grown : Ota × Err → Type 0
      Grown r =
          is_ok r.1 ≡ true
          → (r.0.active ≡ true)
            × (r.0.written ≡ s.written + length bytes)
            × (r.0.image_size ≡ s.image_size)

      refused : Bool
      refused = not s.active || length bytes == 0 || ltb (stream_remaining s) (length bytes)

      err : Err
      err = esp.writes (hash_update bytes (esp.updates s.trace bytes) ∷ s.trace) bytes

  pub write-Going :
      (s : Ota) (bytes : List ℕ) (remaining : ℕ)
      → Going s remaining
      → length bytes ≤ remaining
      → is_ok (stream_write esp s bytes).1 ≡ true
      → Going (stream_write esp s bytes).0 (remaining - length bytes)
  write-Going s bytes remaining g le ok =
      let (a, w, i) = write_ok s bytes ok in
      record {
        valid = stream_write-IsValid esp s bytes g.valid;
        active = a;
        to_come = omega (arith, w, i, g.to_come);
      }

  -- Nothing is in progress after an abort.
  pub abort_idle : (s : Ota) → IsValid esp s → (stream_abort s).in_progress ≡ false
  unfolding stream_abort
  abort_idle s v =
      if-both (λ (t : Ota). t.in_progress ≡ false) (not s.active && not s.verified) _ _
        (λ idle. by_flags esp s false false v (ground arith) (ground arith)) (λ _. refl)

  -- A success leaves a verified stream, a failure none.
  abbrev Decided : Ota × Err → Type 0
  Decided r = if is_ok r.1 then r.0.verified ≡ true else r.0.in_progress ≡ false

  verify_end-Decided : (s : Ota) (err : Err) → Decided (verify_end esp s err)
  unfolding verify_end is_ok
  verify_end-Decided s err = elim (Bool-cases (is_ok err)) [
    | inl ok ↦ rw ok refl
    | inr bad ↦ rw (bad, bad) refl
  ]

  verify_written-Decided :
      (s : Ota) (p : Partition) (err : Err) → Decided (verify_written esp s p err)
  unfolding verify_written verify_image
  verify_written-Decided s p err =
      if-both Decided (not (is_ok err)) _ _ (λ _. verify_end-Decided _ err)
        (λ _.
          if-both Decided (not (is_ok (esp.ends s.trace))) _ _ (λ _. verify_end-Decided _ _)
            (λ _. verify_end-Decided _ _))

  -- The last call chose a partition to boot, whose image was written and checked before.
  abbrev pub BootChosen : Trace → Type 0
  BootChosen trace =
      (p : Partition) × (rest : Trace) × (trace ≡ set_boot p esp_ok ∷ rest) × Checked esp p rest

  -- No stream is left, and a success means a chosen image.
  pub record Over (r : Ota × Err) : Type 0 where
    pub idle : r.0.in_progress ≡ false
    pub chosen : is_ok r.1 ≡ true → BootChosen r.0.trace

  verify-Decided : (s : Ota) → Going s 0 → Decided (stream_verify esp s)
  unfolding stream_verify
  verify-Decided s g = elim (Bool-cases s.verified) [
    | inl both ↦ absurd (by_flags esp s true true g.valid g.active both)
    | inr not_yet ↦
        let (t, _) = by_flags esp s true false g.valid g.active not_yet in
        on_target s.target (t.partition, t.target)
  ]
    where
      on_target :
          (o : Option Partition)
          → (p : Partition) × (o ≡ some p)
          → Decided (elim o as (λ _. Ota × Err) [
            | none ↦ (s, invalid_state)
            | some target ↦
                let digest = esp.finishes s.trace in
                if not s.active || not (s.written == s.image_size)
                then (s, invalid_state)
                else verify_written esp
                    (called s (hash_finish digest))
                    target
                    (digest_err esp s.expected_sha256 digest)
          ])
      on_target none (p, e) = absurd (cc)
      on_target (some q) _ =
          if-both Decided (not s.active || not (s.written == s.image_size)) _ _
            (λ refused. absurd (ground (arith, refused, g.active, g.to_come)))
            (λ _. verify_written-Decided _ q _)

  pub activate-Over : (s : Ota) → IsValid esp s → s.verified ≡ true → Over (stream_activate esp s)
  unfolding stream_activate
  activate-Over s v ready = elim (Bool-cases s.active) [
    | inl both ↦ absurd (by_flags esp s true true v both ready)
    | inr done ↦
        let (staged, _) = by_flags esp s false true v done ready in
        on_target s.target staged.partition staged.target staged.checked
  ]
    where
      chosen :
          (p : Partition)
          → Checked esp p s.trace
          → is_ok (esp.boots s.trace p) ≡ true
          → BootChosen (set_boot p (esp.boots s.trace p) ∷ s.trace)
      chosen p checked ok = (p, s.trace, ap (λ e. set_boot p e ∷ s.trace) (is_ok-eq _ ok), checked)

      on_target :
          (o : Option Partition) (p : Partition)
          → o ≡ some p
          → Checked esp p s.trace
          → Over (elim o as (λ _. Ota × Err) [
            | none ↦ (s, invalid_state)
            | some target ↦
                let err = esp.boots s.trace target in
                let s' = cleared (called s (set_boot target err)) in
                if not s.verified
                then (s, invalid_state)
                else (if is_ok err then s' else lit s' led_error, err)
          ])
      on_target none p e checked = absurd (cc)
      on_target (some q) p e checked =
          let same : p ≡ q = cc in
          if-both Over (not s.verified) _ _ (λ refused. absurd (ground (arith, refused, ready)))
            (λ _.
              if-both (λ (t : Ota). Over (t, esp.boots s.trace q)) (is_ok (esp.boots s.trace q)) _ _
                (λ ok. record {
                  idle = refl;
                  chosen = λ _. chosen q (subst (λ x. Checked esp x s.trace) same checked) ok;
                })
                (λ bad. record { idle = refl; chosen = λ ok. absurd (ground (arith, ok, bad)) }))

  -- Finishing a stream with nothing to come.
  pub finish-Over : (s : Ota) → Going s 0 → Over (stream_finish esp s)
  unfolding stream_finish
  finish-Over s g =
      if-both Over (is_ok (stream_verify esp s).1) _ _
        (λ ok.
          activate-Over _ (stream_verify-IsValid esp s g.valid)
            (subst by_result ok (verify-Decided s g)))
        (λ bad. record {
          idle = subst by_result bad (verify-Decided s g);
          chosen = λ ok. absurd (ground (arith, ok, bad));
        })
    where
      by_result : Bool → Type 0
      by_result b =
          if b
          then (stream_verify esp s).0.verified ≡ true
          else (stream_verify esp s).0.in_progress ≡ false
