-- ===== src/Ota/Stream/Keeps.antt =====
-- Beginning, writing and aborting keep the phases of the stream.
use air_link.Base.{
  ℕ, ◌+◌, ◌≤◌, List, [], ◌∷◌, ◌≡◌, refl, sym, ap, ap₂, ◌∙◌, arith, Bool, true, false, not, ◌&&◌,
  ◌||◌,
}
use air_link.Base.{
  Option, none, some, length, ltb, ◌==◌, if◌then◌else◌, Bool-cases, if-both, inl, inr, ◌⊎◌,
}
use mathlib.Core.Path.{subst}
use air_link.Ota.Stream.{
  Ota, Esp, Trace, Partition, Err, esp_ok, fail, invalid_arg, invalid_size, invalid_state,
  invalid_crc, invalid_version, other, is_ok,
}
use air_link.Ota.Stream.{led_ota, lit, requested, ota_begin, hash_setup, hash_update, ota_write}
use air_link.Ota.Stream.{
  stream_remaining, stream_abort, version_refused, version_kept, begin_failed, begin_hash, begin_on,
  stream_begin, stream_write,
}
use air_link.Ota.Stream.Phases.{Streaming, Phase, Booted, IsValid}

pub is_ok-eq : (err : Err) → is_ok err ≡ true → err ≡ esp_ok
unfolding is_ok
is_ok-eq esp_ok h = refl
is_ok-eq fail h = cc
is_ok-eq invalid_arg h = cc
is_ok-eq invalid_size h = cc
is_ok-eq invalid_state h = cc
is_ok-eq invalid_crc h = cc
is_ok-eq invalid_version h = cc
is_ok-eq (other n) h = cc

pub fail-not_ok : is_ok fail ≡ true → ⊥
unfolding is_ok
fail-not_ok h = cc

pub invalid_arg-not_ok : is_ok invalid_arg ≡ true → ⊥
unfolding is_ok
invalid_arg-not_ok h = cc

pub invalid_version-not_ok : is_ok invalid_version ≡ true → ⊥
unfolding is_ok
invalid_version-not_ok h = cc

module _ (esp : Esp) where
  -- The state that an operation leaves is valid.
  abbrev pub Kept : Ota × Err → Type 0
  Kept r = IsValid esp r.0

  -- No stream.
  pub idle-IsValid :
      (s : Ota)
      → s.active ≡ false
      → s.verified ≡ false
      → s.in_progress ≡ false
      → Booted esp s.trace
      → IsValid esp s
  idle-IsValid s a v i b = record {
    phase =
        subst (λ x. Phase esp x s.verified s) (sym a) (subst (λ x. Phase esp false x s) (sym v) i);
    booted = b;
  }

  abort_trace : (s : Ota) → Booted esp s.trace → Booted esp (stream_abort s).trace
  unfolding stream_abort
  abort_trace s b = elim (Bool-cases s.active) [
    | inl on ↦ rw on b
    | inr off ↦ elim (Bool-cases s.verified) [ inl v ↦ rw (off, v) b | inr n ↦ rw (off, n) b ]
  ]

  pub by_flags :
      (s : Ota) (a v : Bool) → IsValid esp s → s.active ≡ a → s.verified ≡ v → Phase esp a v s
  by_flags s a v valid ea ev =
      subst (λ x. Phase esp x v s) ea (subst (λ x. Phase esp s.active x s) ev valid.phase)

  abort_cases :
      (s : Ota)
      → (stream_abort s ≡ s)
        ⊎ (((stream_abort s).active ≡ false)
            × ((stream_abort s).verified ≡ false)
            × ((stream_abort s).in_progress ≡ false))
  unfolding stream_abort
  abort_cases s = elim (Bool-cases (not s.active && not s.verified)) [
    | inl idle ↦ inl (rw idle refl)
    | inr busy ↦ inr (rw busy (refl, refl, refl))
  ]

  pub stream_abort-IsValid : (s : Ota) → IsValid esp s → IsValid esp (stream_abort s)
  stream_abort-IsValid s v = elim (abort_cases s) [
    | inl same ↦ subst (IsValid esp) (sym same) v
    | inr (a, w, i) ↦ idle-IsValid _ a w i (abort_trace s v.booted)
  ]

  -- An abort of a stream that is active clears it whatever it had written.
  abort_active-IsValid :
      (s : Ota) → s.active ≡ true → Booted esp s.trace → IsValid esp (stream_abort s)
  unfolding stream_abort
  abort_active-IsValid s on b =
      idle-IsValid _ (rw on refl) (rw on refl) (rw on refl) (abort_trace s b)

  begin_failed-IsValid :
      (s : Ota) (err : Err) → Booted esp s.trace → IsValid esp (begin_failed esp s err).0
  unfolding begin_failed
  begin_failed-IsValid s err b =
      idle-IsValid _ refl refl refl (elim (Bool-cases (s.handle == 0)) [
        | inl none_yet ↦ rw none_yet b
        | inr there ↦ rw there b
      ])

  begin_hash-IsValid :
      (s : Ota) (p : Partition) (version : Option (List ℕ)) (earlier : Trace)
      → s.target ≡ some p
      → s.image_size ≤ p.size
      → s.trace
        ≡ ota_begin p s.image_size esp_ok
          ∷ requested s.image_size s.expected_sha256 version
          ∷ earlier
      → s.written ≡ 0
      → s.verified ≡ false
      → s.in_progress ≡ true
      → s.expected_version ≡ version_kept version
      → Booted esp s.trace
      → IsValid esp (begin_hash esp s).0
  unfolding begin_hash
  begin_hash-IsValid s p version earlier target fits calls zero_written v busy wanted b =
      elim (Bool-cases (esp.sets_up s.trace)) [
        | inr refused ↦ rw refused (begin_failed-IsValid _ _ b)
        | inl ready ↦ rw ready (record {
          phase =
              subst (λ x. Phase esp true x (streaming s)) (sym v)
                (
                  record {
                    partition = p;
                    written = [];
                    version = version;
                    earlier = earlier;
                    target = target;
                    fits = fits;
                    calls = ap (λ t. hash_setup true ∷ t) calls;
                    count = sym zero_written;
                    bound = omega arith;
                    wanted = wanted;
                  },
                  busy,
                );
          booted = b;
        })
      ]
    where
      streaming : Ota → Ota
      streaming s = lit (record s { active = true; trace = hash_setup true ∷ s.trace }) led_ota

  begin_on-IsValid :
      (s : Ota) (target : Partition) (size : ℕ) (sha : List ℕ) (version : Option (List ℕ))
      → size ≤ target.size
      → Booted esp s.trace
      → IsValid esp (begin_on esp s target size sha version).0
  unfolding begin_on
  begin_on-IsValid s target size sha version le b =
      elim (Bool-cases (is_ok (esp.begins (requested size sha version ∷ s.trace) target size).0)) [
        | inr refused ↦ rw refused (begin_failed-IsValid _ _ b)
        | inl begun ↦ rw begun (
            begin_hash-IsValid _ target version s.trace refl le
              (ap (λ e. ota_begin target size e ∷ requested size sha version ∷ s.trace)
                (is_ok-eq _ begun))
              refl refl refl refl b)
      ]

  pub stream_begin-IsValid :
      (s : Ota) (size : ℕ) (sha : List ℕ) (version : Option (List ℕ))
      → IsValid esp s
      → IsValid esp (stream_begin esp s size sha version).0
  unfolding stream_begin
  stream_begin-IsValid s size sha version v =
      elim (Bool-cases (size == 0 || s.active || s.verified || version_refused version)) [
        | inl refused ↦ rw refused v
        | inr allowed ↦ rw allowed (on_target (esp.next_partition s.trace))
      ]
    where
      on_target :
          (o : Option Partition)
          → IsValid esp
              (elim o as (λ _. Ota × Err) [
                | none ↦ (s, invalid_size)
                | some target ↦
                    if ltb target.size size
                    then (s, invalid_size)
                    else if s.in_progress
                    then (s, invalid_state)
                    else begin_on esp s target size sha version
              ]).0
      on_target none = v
      on_target (some target) =
          if-both Kept (ltb target.size size) _ _ (λ _. v)
            (λ fits.
              if-both Kept s.in_progress _ _ (λ _. v)
                (λ _. begin_on-IsValid s target size sha version (ground arith) v.booted))

  written-IsValid :
      (s : Ota) (bytes : List ℕ) (updated : Bool) (err : Err)
      → s.active ≡ true
      → length bytes ≤ stream_remaining s
      → IsValid esp s
      → updated ≡ true
      → is_ok err ≡ true
      → IsValid esp (record s {
        written = s.written + length bytes;
        trace = ota_write bytes err ∷ hash_update bytes updated ∷ s.trace;
      })
  unfolding stream_remaining
  written-IsValid s bytes updated err on room v hashed ok = elim (Bool-cases s.verified) [
    | inl both ↦ absurd (by_flags s true true v on both)
    | inr not_yet ↦
        let (stream, busy) = by_flags s true false v on not_yet in
        record {
          phase =
              subst (λ a. Phase esp a s.verified after) (sym on)
                (subst (λ w. Phase esp true w after) (sym not_yet) (longer stream, busy));
          booted = v.booted;
        }
  ]
    where
      after : Ota
      after = record s {
        written = s.written + length bytes;
        trace = ota_write bytes err ∷ hash_update bytes updated ∷ s.trace;
      }

      longer : Streaming esp s → Streaming esp after
      longer t = record {
        partition = t.partition;
        written = bytes ∷ t.written;
        version = t.version;
        earlier = t.earlier;
        target = t.target;
        fits = t.fits;
        calls =
            ap₂ (λ e u. ota_write bytes e ∷ hash_update bytes u ∷ s.trace) (is_ok-eq err ok) hashed
            ∙ ap (λ c. ota_write bytes esp_ok ∷ hash_update bytes true ∷ c) t.calls;
        count = omega (arith, t.count);
        bound = ground (arith, room, t.bound);
        wanted = t.wanted;
      }

  pub stream_write-IsValid :
      (s : Ota) (bytes : List ℕ) → IsValid esp s → IsValid esp (stream_write esp s bytes).0
  unfolding stream_write
  stream_write-IsValid s bytes v =
      if-both Kept refused _ _ (λ _. v)
        (λ allowed.
          if-both Kept (not (esp.updates s.trace bytes)) _ _
            (λ _. abort_active-IsValid _ (ground arith) v.booted)
            (λ updated.
              if-both Kept (not (is_ok err)) _ _
                (λ _. abort_active-IsValid _ (ground arith) v.booted)
                (λ ok.
                  written-IsValid s bytes _ err (ground arith) (ground arith) v (ground arith)
                    (ground arith))))
    where
      refused : Bool
      refused = not s.active || length bytes == 0 || ltb (stream_remaining s) (length bytes)

      err : Err
      err = esp.writes (hash_update bytes (esp.updates s.trace bytes) ∷ s.trace) bytes
