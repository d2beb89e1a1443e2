-- ===== src/Ota/Stream/Booted.antt =====
-- Only an image that was written whole and checked is made the one to boot.
use air_link.Base.{
  ℕ, ◌≤◌, List, [], ◌∷◌, ◌≡◌, refl, sym, ap, ap₂, ◌∙◌, arith, Bool, true, false, not, ◌&&◌, ◌||◌,
}
use air_link.Base.{
  Option, none, some, length, ◌==◌, if◌then◌else◌, Bool-cases, if-both, inl, inr, ◌⊎◌, bytes_eq,
  bytes_eq→eq,
}
use mathlib.Core.Path.{subst}
use air_link.Ota.Stream.{
  Ota, Esp, Trace, Partition, Description, Err, esp_ok, fail, invalid_arg, invalid_size,
  invalid_state, invalid_crc, invalid_version, other, is_ok,
}
use air_link.Ota.Stream.{
  led_error, called, cleared, lit, hash_finish, ota_end, description, set_boot,
}
use air_link.Ota.Stream.{version_kept}
use air_link.Ota.Stream.{
  description_err, verify_end, verify_image, digest_err, verify_written, stream_verify,
  stream_activate, stream_finish,
}
use air_link.Ota.Stream.Phases.{pieces, total, opening, Checked, Streaming, Booted, IsValid}
use air_link.Ota.Stream.Keeps.{is_ok-eq, idle-IsValid, by_flags, Kept}

module _ (esp : Esp) where
  verify_end-IsValid :
      (s : Ota) (p : Partition) (err : Err)
      → s.target ≡ some p
      → s.in_progress ≡ true
      → (is_ok err ≡ true → Checked esp p s.trace)
      → Booted esp s.trace
      → Kept esp (verify_end esp s err)
  unfolding verify_end
  verify_end-IsValid s p err target busy checked b =
      if-both (Kept esp) (is_ok err) _ _
        (λ ok. record {
          phase = (record { partition = p; target = target; checked = checked ok }, busy);
          booted = b;
        })
        (λ _. idle-IsValid esp _ refl refl refl b)

  -- A description that passes the tests.
  description_ok :
      (expected : List ℕ) (o : Option Description)
      → is_ok (description_err esp expected o) ≡ true
      → (d : Description) × (o ≡ some d)
        × (d.project_name ≡ 97 ∷ 105 ∷ 114 ∷ 108 ∷ 105 ∷ 110 ∷ 107 ∷ [])
        × ((expected ≡ []) ⊎ (d.version ≡ expected))
  unfolding description_err is_ok
  description_ok expected none h = cc
  description_ok expected (some d) h =
      (d, refl, bytes_eq→eq d.project_name _ (ground arith), versions expected (ground arith))
    where
      versions :
          (e : List ℕ) → (length e == 0 || bytes_eq d.version e) ≡ true → (e ≡ []) ⊎ (d.version ≡ e)
      versions [] q = inl refl
      versions (x ∷ e) q = inr (bytes_eq→eq d.version (x ∷ e) (ground arith))

  -- The image is written, its digest is the requested one, and `esp_ota_end` succeeded.
  record Digested (p : Partition) (s : Ota) : Type 0 where
    written : List (List ℕ)
    version : Option (List ℕ)
    earlier : Trace
    target : s.target ≡ some p
    fits : s.image_size ≤ p.size
    calls :
        s.trace
        ≡ ota_end esp_ok
          ∷ hash_finish (some s.expected_sha256)
          ∷ pieces written (opening p s.image_size s.expected_sha256 version earlier)
    whole : total written ≡ s.image_size
    wanted : s.expected_version ≡ version_kept version

  marker_err-ok :
      (err : Err) (found : Bool)
      → is_ok (if is_ok err && not found then invalid_version else err) ≡ true
      → (is_ok err ≡ true) × (found ≡ true)
  unfolding is_ok
  marker_err-ok esp_ok true h = (refl, refl)
  marker_err-ok esp_ok false h = cc
  marker_err-ok fail found h = cc
  marker_err-ok invalid_arg found h = cc
  marker_err-ok invalid_size found h = cc
  marker_err-ok invalid_state found h = cc
  marker_err-ok invalid_crc found h = cc
  marker_err-ok invalid_version found h = cc
  marker_err-ok (other n) found h = cc

  verify_image-IsValid :
      (s : Ota) (p : Partition)
      → Digested p s
      → s.in_progress ≡ true
      → Booted esp s.trace
      → Kept esp (verify_image esp s p)
  unfolding verify_image
  verify_image-IsValid s p g busy b =
      verify_end-IsValid (called s (description p app)) p _ g.target busy
        (λ ok.
          let (described, found) = marker_err-ok _ _ ok in
          let (d, e, project, version) = description_ok s.expected_version app described in
          record {
            written = g.written;
            size = s.image_size;
            sha256 = s.expected_sha256;
            version = g.version;
            earlier = g.earlier;
            app = d;
            fits = g.fits;
            calls = ap₂ (λ o c. description p o ∷ c) e g.calls;
            whole = g.whole;
            project = project;
            same_version = subst (λ v. (v ≡ []) ⊎ (d.version ≡ v)) g.wanted version;
            marker = found;
          })
        b
    where
      app : Option Description
      app = esp.describes s.trace p

  digest_ok :
      (expected : List ℕ) (o : Option (List ℕ))
      → is_ok (digest_err esp expected o) ≡ true
      → o ≡ some expected
  unfolding digest_err is_ok
  digest_ok expected none h = cc
  digest_ok expected (some d) h = ap some (bytes_eq→eq d expected (ground arith))

  verify_written-IsValid :
      (s : Ota) (p : Partition) (err : Err)
      → s.target ≡ some p
      → s.in_progress ≡ true
      → Booted esp s.trace
      → (is_ok err ≡ true
          → is_ok (esp.ends s.trace) ≡ true
          → Digested p (called s (ota_end (esp.ends s.trace))))
      → Kept esp (verify_written esp s p err)
  unfolding verify_written
  verify_written-IsValid s p err target busy b g =
      if-both (Kept esp) (not (is_ok err)) _ _
        (λ bad. verify_end-IsValid _ p err target busy (λ ok. absurd (ground arith)) b)
        (λ good.
          if-both (Kept esp) (not (is_ok (esp.ends s.trace))) _ _
            (λ bad. verify_end-IsValid _ p _ target busy (λ ok. absurd (ground arith)) b)
            (λ ended. verify_image-IsValid _ p (g (ground arith) (ground arith)) busy b))

  verify_on :
      (s : Ota) (o : Option Partition)
      → s.target ≡ o
      → IsValid esp s
      → Kept esp (elim o as (λ _. Ota × Err) [
        | none ↦ (s, invalid_state)
        | some target ↦
            let digest = esp.finishes s.trace in
            if not s.active || not (s.written == s.image_size)
            then (s, invalid_state)
            else verify_written esp
                (called s (hash_finish digest))
                target
                (digest_err esp s.expected_sha256 digest)
      ])
  verify_on s none e v = v
  verify_on s (some p) e v =
      if-both (Kept esp) (not s.active || not (s.written == s.image_size)) _ _ (λ _. v)
        (λ ready. elim (Bool-cases s.verified) [
          | inl both ↦ absurd (by_flags esp s true true v (ground arith) both)
          | inr not_yet ↦
              let (t, busy) = by_flags esp s true false v (ground arith) not_yet in
              verify_written-IsValid _ p _ e busy v.booted (λ good ended.
                digested t (digest_ok s.expected_sha256 _ good) (is_ok-eq _ ended) (ground arith))
        ])
    where
      after : Ota
      after = called s (hash_finish (esp.finishes s.trace))

      some_eq : (a b : Partition) → some a ≡ some b → a ≡ b
      some_eq a b q = cc

      digested :
          (t : Streaming esp s)
          → esp.finishes s.trace ≡ some s.expected_sha256
          → esp.ends after.trace ≡ esp_ok
          → s.written ≡ s.image_size
          → Digested p (called after (ota_end (esp.ends after.trace)))
      digested t digest ended full = record {
        written = t.written;
        version = t.version;
        earlier = t.earlier;
        target = e;
        fits = subst (λ q. s.image_size ≤ q.size) (some_eq _ _ (sym t.target ∙ e)) t.fits;
        calls =
            ap₂ (λ x y. ota_end x ∷ hash_finish y ∷ s.trace) ended digest
            ∙ ap (λ c. ota_end esp_ok ∷ hash_finish (some s.expected_sha256) ∷ c)
                (t.calls
                  ∙ ap
                      (λ q.
                        pieces t.written
                          (opening q s.image_size s.expected_sha256 t.version t.earlier))
                      (some_eq _ _ (sym t.target ∙ e)));
        whole = t.count ∙ full;
        wanted = t.wanted;
      }

  pub stream_verify-IsValid : (s : Ota) → IsValid esp s → IsValid esp (stream_verify esp s).0
  unfolding stream_verify
  stream_verify-IsValid s v = verify_on s s.target refl v

  activate_on :
      (s : Ota) (o : Option Partition)
      → s.target ≡ o
      → IsValid esp s
      → Kept esp (elim o as (λ _. Ota × Err) [
        | none ↦ (s, invalid_state)
        | some target ↦
            let err = esp.boots s.trace target in
            let s' = cleared (called s (set_boot target err)) in
            if not s.verified
            then (s, invalid_state)
            else (if is_ok err then s' else lit s' led_error, err)
      ])
  activate_on s none e v = v
  activate_on s (some p) e v =
      if-both (Kept esp) (not s.verified) _ _ (λ _. v)
        (λ ready. elim (Bool-cases s.active) [
          | inl both ↦ absurd (by_flags esp s true true v both (ground arith))
          | inr done ↦
              let (staged, _) = by_flags esp s false true v done (ground arith) in
              let checked : Checked esp p s.trace =
                subst (λ q. Checked esp q s.trace) (some_eq _ _ (sym staged.target ∙ e))
                  staged.checked in
              if-both (IsValid esp) (is_ok (esp.boots s.trace p)) _ _
                (λ _. idle-IsValid esp _ refl refl refl (checked, v.booted))
                (λ _. idle-IsValid esp _ refl refl refl (checked, v.booted))
        ])
    where
      some_eq : (a b : Partition) → some a ≡ some b → a ≡ b
      some_eq a b q = cc

  pub stream_activate-IsValid : (s : Ota) → IsValid esp s → IsValid esp (stream_activate esp s).0
  unfolding stream_activate
  stream_activate-IsValid s v = activate_on s s.target refl v

  pub stream_finish-IsValid : (s : Ota) → IsValid esp s → IsValid esp (stream_finish esp s).0
  unfolding stream_finish
  stream_finish-IsValid s v =
      if-both (Kept esp) (is_ok (stream_verify esp s).1) _ _
        (λ _. stream_activate-IsValid _ (stream_verify-IsValid s v))
        (λ _. stream_verify-IsValid s v)
