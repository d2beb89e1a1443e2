-- ===== src/Config/Device/Start.antt =====
-- From the start on, through every sequence of calls.
use air_link.Base.{
  ℕ, ◌≤◌, ◌<◌, List, [], ◌∷◌, ◌≡◌, refl, sym, ap, ◌∙◌, arith, true, Option, none, some, not, ◌||◌,
}
use air_link.Base.{if-both, inl, inr, ◌⊎◌}
use mathlib.Core.Path.{subst}
use air_link.MeshConfig.Nvs.{Place, slot_a, slot_b, Status}
use air_link.Config.Validate.{DeviceConfig, config_validate}
use air_link.Config.Provision.{ProvisionRecord, record_valid}
use air_link.Config.Provision.Password.{record_valid-strnlen}
use air_link.Config.Defaults.{Entropy, with_serial}
use air_link.Config.Defaults.Accepted.{with_serial-valid, with_password-valid}
use air_link.Config.Store.{World, FactoryIdentity, Decoded, selected, read_slot, is_ok}
use air_link.Config.Store.Slots.{
  other-place_of, UpTo, Accepts, selected-Accepts, Latest, selected-Latest, read_slot-Accepts,
  write_record-read,
}
use air_link.Config.Store.Identity.{Fits, read_identity-Fits, load_defaults-valid}
use air_link.Config.Device.{
  Loaded, Device, flash_start, loaded_from, apply_identity, apply_provision, put_together,
  store_loaded, config_init, config_save, factory_reset, set_identity,
}
use air_link.Config.Device.Sound.{
  Sound, Restored, Stores, save_locked-Stores, save-Stores, reset-Stores, set_identity-Stores,
}

-- A call that changes the configuration.
pub data Request : Type 0 where
  do_save : DeviceConfig → Request
  do_reset : Entropy → Request
  do_set_identity : List ℕ → List ℕ → Request

module _ (world : World) where
  unfoldable pub request : Device world → Request → Device world × Status
  request d (do_save config) = config_save world d config
  request d (do_reset e) = factory_reset world d e
  request d (do_set_identity serial password) = set_identity world d serial password

  unfoldable pub run : Device world → List Request → Device world
  run d [] = d
  run d (r ∷ rest) = run (request d r).0 rest

  request-Stores :
      (d : Device world) (r : Request) → Sound world d → Stores world d.generation (request d r)
  unfolding request
  request-Stores d (do_save config) s = save-Stores world d config s
  request-Stores d (do_reset e) s = reset-Stores world d e s
  request-Stores d (do_set_identity serial password) s =
      set_identity-Stores world d serial password s

  run-Sound :
      (requests : List Request) (d : Device world) → Sound world d → Sound world (run d requests)
  unfolding run
  run-Sound [] d s = s
  run-Sound (r ∷ rest) d s = run-Sound rest _ (request-Stores d r s).sound

  -- What is put together is accepted, and its generation bounds those of the slots, unless the
  -- slots hold nothing.
  record Fresh (d : Device world) (l : Loaded) : Type 0 where
    accepted : config_validate l.config ≡ true
    bound : (l.defaults ≡ true) ⊎ ((p : Place) → UpTo l.generation (read_slot world d.slots p))

  loaded-Fresh :
      (d : Device world) (e : Entropy) (o : Option Decoded)
      → Accepts o
      → Latest (read_slot world d.slots slot_a) (read_slot world d.slots slot_b) o
      → Fresh d (loaded_from world d.identities e o)
  unfolding loaded_from
  loaded-Fresh d e none a l = record {
    accepted = load_defaults-valid world d.identities e;
    bound = inl refl;
  }
  loaded-Fresh d e (some x) a (first, second) = record { accepted = a; bound = inr at_place }
    where
      at_place : (p : Place) → UpTo x.generation (read_slot world d.slots p)
      at_place slot_a = first
      at_place slot_b = second

  identity-Fresh :
      (d : Device world) (o : Option FactoryIdentity) (l : Loaded)
      → Fits o
      → Fresh d l
      → Fresh d (apply_identity world o l)
  unfolding apply_identity
  identity-Fresh d none l f fresh = fresh
  identity-Fresh d (some i) l (low, high) fresh = record {
    accepted =
        if-both (λ c. config_validate c ≡ true) l.defaults _ _
          (λ _. with_password-valid _ i.initial_password low high serial) (λ _. serial);
    bound = fresh.bound;
  }
    where
      serial : config_validate (with_serial l.config i.serial_number) ≡ true
      serial = with_serial-valid l.config i.serial_number fresh.accepted

  provision-Fresh :
      (d : Device world) (identity : Option FactoryIdentity) (provision : Option ProvisionRecord)
      (l : Loaded)
      → Fresh d l
      → Fresh d (apply_provision world identity provision l)
  unfolding apply_provision
  provision-Fresh d (some i) none l fresh = fresh
  provision-Fresh d (some i) (some p) l fresh = fresh
  provision-Fresh d none none l fresh = fresh
  provision-Fresh d none (some p) l fresh =
      if-both (Fresh d) (record_valid world.provision_crc p) _ _
        (λ good.
          let (_, low, high) = record_valid-strnlen world.provision_crc p good in
          record {
            accepted = with_password-valid l.config p.password low high fresh.accepted;
            bound = fresh.bound;
          })
        (λ _. fresh)

  put_together-Fresh : (d : Device world) (e : Entropy) → Fresh d (put_together world d e)
  unfolding put_together
  put_together-Fresh d e =
      let a = read_slot world d.slots slot_a in
      let b = read_slot world d.slots slot_b in
      provision-Fresh d _ d.provision _ (
        identity-Fresh d _ _ (read_identity-Fits world d.identities) (
          loaded-Fresh d e (selected a b)
            (selected-Accepts a b (read_slot-Accepts world d.slots slot_a)
              (read_slot-Accepts world d.slots slot_b))
            (selected-Latest a b)))

  -- A start that succeeds leaves a sound device.
  abbrev Started : Device world × Status → Type 0
  Started r = is_ok r.1 ≡ true → Sound world r.0

  store_loaded-Started :
      (d : Device world) (l : Loaded) → Fresh d l → Started (store_loaded world d l)
  unfolding store_loaded
  store_loaded-Started d l fresh =
      if-both Started l.defaults _ _
        (λ _ ok. record {
          accepted = fresh.accepted;
          below = λ _.
              subst (UpTo l.generation)
                (sym (
                  ap (read_slot world _) (other-place_of l.generation)
                  ∙ write_record-read world d.slots l.config l.generation fresh.accepted ok))
                (self l.generation);
        })
        (λ kept.
          let old : (p : Place) → UpTo l.generation (read_slot world d.slots p) =
            elim (fresh.bound) [
              | inl defaults ↦ absurd (ground (arith, kept, defaults))
              | inr u ↦ u
            ] in
          if-both Started (l.credentials_changed || l.schema_migrated) _ _
            (λ _ _.
              (save_locked-Stores world _ l.config (λ _. old _) fresh.accepted
                fresh.accepted).sound)
            (λ _ _. record { accepted = fresh.accepted; below = λ _. old _ }))
    where
      self : (m : ℕ) → m ≤ m
      self m = omega arith

  config_init-Started : (d : Device world) (e : Entropy) → Started (config_init world d e)
  unfolding config_init is_ok
  config_init-Started d e =
      if-both Started (not (flash_start world d.slots).1) _ _ (λ _ ok. absurd (cc))
        (λ _.
          if-both Started (not (world.identity_init d.identities).1) _ _ (λ _ ok. absurd (cc))
            (λ _.
              if-both Started (not world.mutex_made) _ _ (λ _ ok. absurd (cc))
                (λ _.
                  if-both Started (not (world.slots.opens (flash_start world d.slots).0)) _ _
                    (λ _ ok. absurd (cc))
                    (λ _. store_loaded-Started _ _ (put_together-Fresh _ e)))))

  -- After `airlink_config_init` has succeeded, whatever the flash, the identity and the provisioning
  -- partition held, the configuration in use is one that `airlink_config_validate` accepts, and it
  -- stays so through every sequence of saves, factory resets and settings of an identity, whether
  -- they succeed or fail.
  pub config_init-accepted :
      (d : Device world) (e : Entropy) (requests : List Request)
      → is_ok (config_init world d e).1 ≡ true
      → config_validate (run (config_init world d e).0 requests).config ≡ true
  config_init-accepted d e requests ok =
      (run-Sound requests _ (config_init-Started d e ok)).accepted

  -- After a start that succeeded and any sequence of calls, a save, factory reset or setting of an
  -- identity that answers ESP_OK leaves the configuration and generation that it put in use as
  -- what the two slots give after a restart, which has for sure only what was committed, as long as
  -- the generation was below the largest 32-bit number; also when earlier writes failed and left
  -- anything in the slot they wrote.
  pub request-Restored :
      (d : Device world) (e : Entropy) (requests : List Request) (last : Request)
      → is_ok (config_init world d e).1 ≡ true
      → (run (config_init world d e).0 requests).generation < 4294967295
      → is_ok (request (run (config_init world d e).0 requests) last).1 ≡ true
      → Restored world (request (run (config_init world d e).0 requests) last).0
  request-Restored d e requests last ok lt done =
      (request-Stores _ last (run-Sound requests _ (config_init-Started d e ok))).restored done lt
