-- ===== src/Config/Device/Identity.antt =====
-- The identity of a device is set once.
use air_link.Base.{
  ℕ, ◌<◌, List, ◌≡◌, refl, sym, ap, ap₂, ◌∙◌, arith, true, false, Option, none, some, not, ◌||◌,
  min, replicate, if-both, bytes_eq,
}
use mathlib.Core.Path.{subst}
use air_link.MeshConfig.Nvs.{Status}
use air_link.Config.Validate.{strnlen, DeviceConfig}
use air_link.Config.Strings.{
  characters, same_string, strlcpy, serial_valid, identity_password_valid,
}
use air_link.Config.Strings.Copies.{
  characters-strlcpy, serial_valid-lengths, identity_password_valid-lengths,
}
use air_link.Config.Store.{World, FactoryIdentity, is_ok, read_identity, write_identity}
use air_link.Config.Store.Identity.{made, write_identity-read}
use air_link.Config.Device.{Device, save_locked, differs, set_identity}

module _ (world : World) where
  saved_identities :
      (d : Device world) (config : DeviceConfig)
      → (save_locked world d config).0.identities ≡ d.identities
  unfolding save_locked
  saved_identities d config =
      if-both (λ (r : Device world × Status). r.0.identities ≡ d.identities) (is_ok _) _ _
        (λ _. refl) (λ _. refl)

  -- A success wrote the identity.
  set_identity-cases :
      (d : Device world) (serial password : List ℕ)
      → let r = set_identity world d serial password in
        is_ok r.1 ≡ true
        → (serial_valid serial ≡ true)
          × (identity_password_valid password (strnlen password) ≡ true)
          × (is_ok (write_identity world d.identities serial password).1 ≡ true)
          × (r.0.identities ≡ (write_identity world d.identities serial password).0)
  unfolding set_identity is_ok
  set_identity-cases d serial password =
      if-both Cases
        (not (serial_valid serial)
          || not (identity_password_valid password (min (strnlen password) 65)))
        _ _ (λ _ ok. absurd (cc))
        (λ fits.
          if-both Cases (differs world (read_identity world d.identities) serial password) _ _
            (λ _ ok. absurd (cc))
            (λ _.
              if-both Cases (is_ok (write_identity world d.identities serial password).1) _ _
                (λ written _. (
                  ground (arith, fits),
                  valid (ground (arith, fits)),
                  written,
                  saved_identities _ _,
                ))
                (λ bad ok. absurd (ground (arith, ok, bad)))))
    where
      Cases : Device world × Status → Type 0
      Cases r =
          is_ok r.1 ≡ true
          → (serial_valid serial ≡ true)
            × (identity_password_valid password (strnlen password) ≡ true)
            × (is_ok (write_identity world d.identities serial password).1 ≡ true)
            × (r.0.identities ≡ (write_identity world d.identities serial password).0)

      valid :
          identity_password_valid password (min (strnlen password) 65) ≡ true
          → identity_password_valid password (strnlen password) ≡ true
      valid v =
          let (same, _, _) =
            identity_password_valid-lengths password (min (strnlen password) 65) v in
          subst (λ n. identity_password_valid password n ≡ true) (sym same) v

  same_string-made :
      (size : ℕ) (text given : List ℕ)
      → strnlen text < size
      → same_string (strlcpy size (replicate size 0) text) given ≡ same_string text given
  unfolding same_string
  same_string-made size text given lt =
      ap (λ c. bytes_eq c (characters given)) (characters-strlcpy size (replicate size 0) text lt)

  differs-made :
      (serial password serial' password' : List ℕ)
      → strnlen serial < 25
      → strnlen password < 65
      → differs world (some (made world serial password)) serial' password'
        ≡ (not (same_string serial serial') || not (same_string password password'))
  unfolding differs
  differs-made serial password serial' password' s p =
      ap₂ (λ a b. not a || not b) (same_string-made 25 serial serial' s)
        (same_string-made 65 password password' p)

  -- An identity that differs is refused.
  set_identity-refused :
      (d : Device world) (serial password : List ℕ)
      → differs world (read_identity world d.identities) serial password ≡ true
      → (is_ok (set_identity world d serial password).1 ≡ false)
        × ((set_identity world d serial password).0 ≡ d)
  unfolding set_identity is_ok
  set_identity-refused d serial password differ =
      if-both Refused
        (not (serial_valid serial)
          || not (identity_password_valid password (min (strnlen password) 65)))
        _ _ (λ _. (refl, refl))
        (λ _.
          if-both Refused (differs world (read_identity world d.identities) serial password) _ _
            (λ _. (refl, refl)) (λ same. absurd (ground (arith, same, differ))))
    where
      Refused : Device world × Status → Type 0
      Refused r = (is_ok r.1 ≡ false) × (r.0 ≡ d)

  -- An identity with these strings is read.
  abbrev pub Holds : Option FactoryIdentity → List ℕ → List ℕ → Type 0
  Holds none serial password = ⊥
  Holds (some i) serial password =
      (characters i.serial_number ≡ characters serial)
      × (characters i.initial_password ≡ characters password)

  -- When a serial number and a password were set with success, and the storage of the identity can
  -- be opened, what is read of the identity is what was set, and another call with a different
  -- serial number or password is refused and changes nothing.
  pub set_identity-once :
      (d : Device world) (serial password serial' password' : List ℕ)
      → is_ok (set_identity world d serial password).1 ≡ true
      → world.identities.opens (set_identity world d serial password).0.identities ≡ true
      → (not (same_string serial serial') || not (same_string password password')) ≡ true
      → let after = (set_identity world d serial password).0 in
        Holds (read_identity world after.identities) serial password
        × (is_ok (set_identity world after serial' password').1 ≡ false)
        × ((set_identity world after serial' password').0 ≡ after)
  set_identity-once d serial password serial' password' ok opens differ =
      let (s, p, written, stored) = set_identity-cases d serial password ok in
      let (_, short) = serial_valid-lengths serial s in
      let (_, _, end) = identity_password_valid-lengths password (strnlen password) p in
      let read : read_identity world after.identities ≡ some (made world serial password) =
        ap (read_identity world) stored
        ∙ write_identity-read world d.identities serial password s p written
            (sym (ap world.identities.opens stored) ∙ opens) in
      let (refused, unchanged) = set_identity-refused after serial' password' (
        ap (λ o. differs world o serial' password') read
        ∙ differs-made serial password serial' password' (omega (arith, short)) (omega (arith, end))
        ∙ differ) in
      (
        subst (λ o. Holds o serial password) (sym read)
            (
              characters-strlcpy 25 (replicate 25 0) serial (omega (arith, short)),
              characters-strlcpy 65 (replicate 65 0) password (omega (arith, end)),
            ),
        refused,
        unchanged,
      )
    where
      after : Device world
      after = (set_identity world d serial password).0
