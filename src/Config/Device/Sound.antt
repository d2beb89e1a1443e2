-- ===== src/Config/Device/Sound.antt =====
-- The configuration in use is an accepted one, and a stored one comes back at a restart.
use air_link.Base.{
  ℕ, ◌+◌, ◌≤◌, ◌<◌, List, ◌≡◌, sym, ap, ◌∙◌, arith, true, false, some, not, ◌||◌, min,
}
use air_link.Base.{if-both}
use mathlib.Core.Path.{subst}
use air_link.MeshConfig.Nvs.{slot_a, slot_b, Status, invalid_arg, invalid_state}
use air_link.Config.Validate.{DeviceConfig, strnlen, config_validate}
use air_link.Config.Strings.{serial_valid, identity_password_valid}
use air_link.Config.Strings.Copies.{identity_password_valid-lengths}
use air_link.Config.Defaults.{Entropy, with_serial, with_password}
use air_link.Config.Defaults.Accepted.{with_serial-valid, with_password-valid}
use air_link.Config.Store.{
  World, selected, next_generation, place_of, read_slot, is_ok, write_record, read_identity,
  write_identity,
}
use air_link.Config.Store.Slots.{
  other, other-place_of, other_ne, UpTo, selected-later, write_record-other, write_record-read,
  write_record-restart,
}
use air_link.Config.Store.Identity.{load_defaults-valid}
use air_link.Config.Device.{Device, save_locked, config_save, factory_reset, differs, set_identity}

next_below : (g : ℕ) → g < 4294967295 → next_generation g ≡ g + 1
unfolding next_generation
next_below g lt = ground arith

invalid_arg-not_ok : is_ok invalid_arg ≡ true → ⊥
unfolding is_ok
invalid_arg-not_ok h = cc

invalid_state-not_ok : is_ok invalid_state ≡ true → ⊥
unfolding is_ok
invalid_state-not_ok h = cc

module _ (world : World) where
  -- The slot of the next generation may hold anything, the other one nothing later than the
  -- generation in use.
  abbrev pub Behind : Device world → Type 0
  Behind d =
      d.generation < 4294967295
      → UpTo d.generation (read_slot world d.slots (other (place_of (d.generation + 1))))

  -- An accepted configuration in use, and no later one in the slot that is not written next.
  pub record Sound (d : Device world) : Type 0 where
    pub accepted : config_validate d.config ≡ true
    pub below : Behind d

  -- After a restart the configuration in use is selected.
  abbrev pub Restored : Device world → Type 0
  Restored d =
      selected (read_slot world (world.slots.restart d.slots) slot_a)
        (read_slot world (world.slots.restart d.slots) slot_b)
      ≡ some (record { generation = d.generation; config = d.config; migrated = false })

  -- A call keeps the device sound, and after a success what is in use is stored.
  pub record Stores (g : ℕ) (r : Device world × Status) : Type 0 where
    pub sound : Sound r.0
    pub restored : is_ok r.1 ≡ true → g < 4294967295 → Restored r.0

  pub save_locked-Stores :
      (d : Device world) (config : DeviceConfig)
      → Behind d
      → config_validate d.config ≡ true
      → config_validate config ≡ true
      → Stores d.generation (save_locked world d config)
  unfolding save_locked
  save_locked-Stores d config b old valid =
      if-both (Stores d.generation) (is_ok (write_record world d.slots config n).1) _ _
        (λ ok.
          let written = write_record-read world d.slots config n valid ok in
          record {
            sound = record {
              accepted = valid;
              below = λ _.
                  subst (UpTo n) (sym (ap (read_slot world slots) (other-place_of n) ∙ written))
                    (self n);
            };
            restored = λ _ lt.
                selected-later (read_slot world (world.slots.restart slots))
                  (record { generation = n; config = config; migrated = false }) (place_of n)
                  d.generation
                  (write_record-restart world d.slots config n (place_of n) ok ∙ written)
                  (subst (UpTo d.generation)
                    (sym (write_record-restart world d.slots config n (other (place_of n)) ok))
                    (kept lt))
                  (omega (arith, next_below d.generation lt));
          })
        (λ bad. record {
          sound = record {
            accepted = old;
            below = λ lt.
                subst (λ m. UpTo d.generation (read_slot world slots (other (place_of m))))
                  (next_below d.generation lt) (kept lt);
          };
          restored = λ ok. absurd (ground (arith, ok, bad));
        })
    where
      n : ℕ
      n = next_generation d.generation

      slots : world.slots.Store
      slots = (write_record world d.slots config n).0

      self : (m : ℕ) → m ≤ m
      self m = omega arith

      kept :
          d.generation < 4294967295 → UpTo d.generation (read_slot world slots (other (place_of n)))
      kept lt =
          subst (UpTo d.generation)
            (sym (
              write_record-other world d.slots config n (other (place_of n))
                (other_ne (place_of n))))
            (subst (λ m. UpTo d.generation (read_slot world d.slots (other (place_of m))))
              (sym (next_below d.generation lt)) (b lt))

  pub save-Stores :
      (d : Device world) (config : DeviceConfig)
      → Sound d
      → Stores d.generation (config_save world d config)
  unfolding config_save
  save-Stores d config s =
      if-both (Stores d.generation) (not (config_validate config)) _ _
        (λ _. record { sound = s; restored = λ ok. absurd (invalid_arg-not_ok ok) })
        (λ valid. save_locked-Stores d config s.below s.accepted (ground (arith, valid)))

  pub reset-Stores :
      (d : Device world) (e : Entropy) → Sound d → Stores d.generation (factory_reset world d e)
  unfolding factory_reset
  reset-Stores d e s =
      save_locked-Stores d _ s.below s.accepted (load_defaults-valid world d.identities e)

  pub set_identity-Stores :
      (d : Device world) (serial password : List ℕ)
      → Sound d
      → Stores d.generation (set_identity world d serial password)
  unfolding set_identity
  set_identity-Stores d serial password s =
      if-both (Stores d.generation)
        (not (serial_valid serial)
          || not (identity_password_valid password (min (strnlen password) 65)))
        _ _ (λ _. record { sound = s; restored = λ ok. absurd (invalid_arg-not_ok ok) })
        (λ fits.
          if-both (Stores d.generation)
            (differs world (read_identity world d.identities) serial password) _ _
            (λ _. record { sound = s; restored = λ ok. absurd (invalid_state-not_ok ok) })
            (λ _.
              if-both (Stores d.generation)
                (is_ok (write_identity world d.identities serial password).1) _ _
                (λ _.
                  save_locked-Stores _ _ s.below s.accepted
                    (with_credentials (ground (arith, fits))))
                (λ bad. record {
                  sound = record { accepted = s.accepted; below = s.below };
                  restored = λ ok. absurd (ground (arith, ok, bad));
                })))
    where
      with_credentials :
          identity_password_valid password (min (strnlen password) 65) ≡ true
          → config_validate (with_password (with_serial d.config serial) password) ≡ true
      with_credentials v =
          let (same, low, high) =
            identity_password_valid-lengths password (min (strnlen password) 65) v in
          with_password-valid _ password (omega (arith, same, low)) (omega (arith, same, high))
            (with_serial-valid d.config serial s.accepted)
