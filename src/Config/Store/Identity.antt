-- ===== src/Config/Store/Identity.antt =====
-- What is read of an identity.
use air_link.Base.{
  ℕ, ◌≤◌, List, ◌≡◌, refl, arith, true, Option, none, some, not, ◌&&◌, ◌||◌, ltb, ◌==◌,
  if◌then◌else◌, if-both,
}
use air_link.Config.Validate.{strnlen, config_validate}
use air_link.Config.Strings.{strlcpy, serial_valid, identity_password_valid}
use air_link.Config.Strings.Copies.{
  strnlen-strlcpy, serial_valid-lengths, serial_valid-strlcpy, identity_password_valid-strlcpy,
  identity_password_valid-lengths,
}
use air_link.Config.Defaults.{
  Entropy, default_config, default_ssid, random_password, with_serial, with_password,
}
use air_link.Config.Defaults.Accepted.{with_serial-valid, with_password-valid, default-valid}
use air_link.Config.Store.{
  World, FactoryIdentity, identity_magic, check_identity, read_identity, load_defaults, is_ok,
  write_identity,
}
use air_link.MeshConfig.Nvs.{Status}
use air_link.Base.{replicate, ◌∙◌, ap, ==_refl, lt→ltb}

-- An identity's password has an allowed length.
abbrev pub Fits : Option FactoryIdentity → Type 0
Fits none = Unit
Fits (some i) = (12 ≤ strnlen i.initial_password) × (strnlen i.initial_password ≤ 63)

module _ (world : World) where
  check_identity-Fits : (o : Option FactoryIdentity) → Fits (check_identity world o)
  unfolding check_identity
  check_identity-Fits none = tt
  check_identity-Fits (some i) =
      if-both Fits
        (not (i.magic == identity_magic)
          || not (i.crc32 == world.identity_crc i.magic i.serial_number i.initial_password))
        _ _ (λ _. tt)
        (λ _.
          if-both Fits
            (ltb 0 (strnlen i.serial_number)
              && ltb (strnlen i.serial_number) 25
              && identity_password_valid i.initial_password (strnlen i.initial_password)
              && serial_valid i.serial_number)
            _ _
            (λ good.
              let (_, low, high) =
                identity_password_valid-lengths i.initial_password (strnlen i.initial_password)
                  (ground (arith, good)) in
              (low, high))
            (λ _. tt))

  pub read_identity-Fits : (store : world.identities.Store) → Fits (read_identity world store)
  unfolding read_identity
  read_identity-Fits store =
      if-both Fits (world.identities.opens store) _ _ (λ _. check_identity-Fits _) (λ _. tt)

  pub load_defaults-valid :
      (store : world.identities.Store) (e : Entropy)
      → config_validate (load_defaults world store e) ≡ true
  unfolding load_defaults
  load_defaults-valid store e = by_identity (read_identity world store) (read_identity-Fits store)
    where
      by_identity :
          (o : Option FactoryIdentity)
          → Fits o
          → config_validate (elim o [
            | none ↦ default_config (default_ssid e) (random_password e.random)
            | some i ↦
                with_password
                  (with_serial
                    (default_config (default_ssid e) (random_password e.random))
                    i.serial_number)
                  i.initial_password
          ])
            ≡ true
      by_identity none f = default-valid e
      by_identity (some i) (low, high) =
          with_password-valid _ i.initial_password low high
            (with_serial-valid _ i.serial_number (default-valid e))

  -- The identity that `write_identity` makes of its arguments.
  abbrev pub made : List ℕ → List ℕ → FactoryIdentity
  made serial password = record {
    magic = identity_magic;
    serial_number = strlcpy 25 (replicate 25 0) serial;
    initial_password = strlcpy 65 (replicate 65 0) password;
    crc32 =
        world.identity_crc identity_magic (strlcpy 25 (replicate 25 0) serial)
          (strlcpy 65 (replicate 65 0) password);
  }

  check_identity-made :
      (serial password : List ℕ)
      → serial_valid serial ≡ true
      → identity_password_valid password (strnlen password) ≡ true
      → check_identity world (some (made serial password)) ≡ some (made serial password)
  unfolding check_identity
  check_identity-made serial password s p =
      let (low, high) = serial_valid-lengths serial s in
      let (_, _, end) = identity_password_valid-lengths password (strnlen password) p in
      let same = strnlen-strlcpy 25 (replicate 25 0) serial (omega (arith, high)) in
      let named = serial_valid-strlcpy 25 (replicate 25 0) serial (omega (arith, high)) ∙ s in
      let secret =
        identity_password_valid-strlcpy 65 (replicate 65 0) password (omega (arith, end)) p in
      rw
        (
          ==_refl (
              world.identity_crc identity_magic (strlcpy 25 (replicate 25 0) serial)
                (strlcpy 65 (replicate 65 0) password)),
          named,
          secret,
          same,
          lt→ltb 0 (strnlen serial) (omega (arith, low)),
          lt→ltb (strnlen serial) 25 (omega (arith, high)),
        )
        refl

  -- An identity that was written is read back.
  pub write_identity-read :
      (store : world.identities.Store) (serial password : List ℕ)
      → serial_valid serial ≡ true
      → identity_password_valid password (strnlen password) ≡ true
      → is_ok (write_identity world store serial password).1 ≡ true
      → world.identities.opens (write_identity world store serial password).0 ≡ true
      → read_identity world (write_identity world store serial password).0
        ≡ some (made serial password)
  unfolding write_identity read_identity is_ok
  write_identity-read store serial password s p =
      if-both Back (not (world.identities.opens store)) _ _ (λ _ ok. absurd (cc))
        (λ _.
          if-both Back (not (world.identities.set_blob store tt (made serial password)).1) _ _
            (λ _ ok. absurd (cc))
            (λ set _ opens. rw opens (
              ap (check_identity world) (
                world.identities.get_blob-commit _ tt
                ∙ world.identities.get_blob-set_blob store tt (made serial password)
                    (ground (arith, set)))
              ∙ check_identity-made serial password s p)))
    where
      Back : world.identities.Store × Status → Type 0
      Back r =
          is_ok r.1 ≡ true
          → world.identities.opens r.0 ≡ true
          → (if world.identities.opens r.0
              then check_identity world (world.identities.get_blob r.0 tt)
              else none)
            ≡ some (made serial password)
