-- ===== src/Config/Device.antt =====
-- components/airlink_config/airlink_config.c: the configuration in use, from the start on.
pub mod Sound
pub mod Start
pub mod Identity
pub mod Tests
use air_link.Base.{ℕ, ◌+◌, List, [], ◌∷◌, Bool, true, false, Option, none, some}
use air_link.Base.{not, ◌&&◌, ◌||◌, ltb, ◌==◌, if◌then◌else◌, min}
use air_link.MeshConfig.Nvs.{
  Nvs, slot_a, slot_b, Status, esp_ok, invalid_arg, invalid_state, no_mem, failed,
}
use air_link.Config.Validate.{DeviceConfig, strnlen, config_validate}
use air_link.Config.Provision.{ProvisionRecord, record_valid}
use air_link.Config.Strings.{same_string, serial_valid, identity_password_valid}
use air_link.Config.Defaults.{Entropy, with_serial, with_password}
use air_link.Config.Store.{
  World, FactoryIdentity, FlashInit, flash_ready, damaged, flash_failed, Decoded, selected,
  next_generation, read_slot, is_ok, write_record, read_identity, write_identity, load_defaults,
}

-- The configuration that `airlink_config_init` puts together.
pub record Loaded : Type 0 where
  pub config : DeviceConfig
  pub generation : ℕ
  pub defaults : Bool
  pub schema_migrated : Bool
  pub credentials_changed : Bool

-- Whether the flash has started.
pub starts : FlashInit → Bool
starts flash_ready = true
starts _ = false

module _ (world : World) where
  -- `s_config`, `s_generation`, the two storages, and what `provisioning_record_read` gives.
  pub record Device : Type 0 where
    pub config : DeviceConfig
    pub generation : ℕ
    pub slots : world.slots.Store
    pub identities : world.identities.Store
    pub provision : Option ProvisionRecord

  -- `save_locked`
  pub save_locked : Device → DeviceConfig → Device × Status
  save_locked d config =
      let generation = next_generation d.generation in
      let (store, status) = write_record world d.slots config generation in
      if is_ok status
      then (record d { config = config; generation = generation; slots = store }, esp_ok)
      else (record d { slots = store }, status)

  -- The start of the flash.
  pub flash_start : world.slots.Store → world.slots.Store × Bool
  flash_start store =
      let (first, answer) = world.flash_init store in
      let (erased, done) = world.flash_erase first in
      let (second, again) = world.flash_init erased in
      elim answer [
        | flash_ready ↦ (first, true)
        | flash_failed ↦ (first, false)
        | damaged ↦ if done then (second, starts again) else (erased, false)
      ]

  -- The configuration by the selected slot.
  pub loaded_from : world.identities.Store → Entropy → Option Decoded → Loaded
  loaded_from identities e none = record {
    config = load_defaults world identities e;
    generation = 1;
    defaults = true;
    schema_migrated = false;
    credentials_changed = false;
  }
  loaded_from identities e (some d) = record {
    config = d.config;
    generation = d.generation;
    defaults = false;
    schema_migrated = d.migrated;
    credentials_changed = false;
  }

  -- The branch for an identity.
  pub apply_identity : Option FactoryIdentity → Loaded → Loaded
  apply_identity none l = l
  apply_identity (some i) l =
      let config = with_serial l.config i.serial_number in
      record l {
        config = if l.defaults then with_password config i.initial_password else config;
        credentials_changed = not (same_string l.config.v1.serial_number i.serial_number);
      }

  -- The branch for a provisioning record.
  pub apply_provision : Option FactoryIdentity → Option ProvisionRecord → Loaded → Loaded
  apply_provision none (some p) l =
      if record_valid world.provision_crc p
      then record l {
        config = with_password l.config p.password;
        credentials_changed =
            not (same_string l.config.v1.ap_password p.password)
            || not (same_string l.config.v1.admin_password p.password);
      }
      else l
  apply_provision identity provision l = l

  -- `provisioning_record_erase`, when there is a record.
  pub provision_left : Option ProvisionRecord → Option ProvisionRecord
  provision_left provision = if world.partition_erased then none else provision

  -- The configuration of `airlink_config_init`, before it is stored.
  pub put_together : Device → Entropy → Loaded
  put_together d e =
      let identity = read_identity world d.identities in
      apply_provision identity d.provision (
        apply_identity identity (
          loaded_from d.identities e
            (selected (read_slot world d.slots slot_a) (read_slot world d.slots slot_b))))

  -- The end of `airlink_config_init`.
  pub store_loaded : Device → Loaded → Device × Status
  store_loaded d l =
      let d' : Device = record d {
        config = l.config;
        generation = l.generation;
        provision = provision_left d.provision;
      } in
      let (store, status) = write_record world d'.slots l.config l.generation in
      if l.defaults
      then (record d' { slots = store }, status)
      else if l.credentials_changed || l.schema_migrated
      then save_locked d' l.config
      else (d', esp_ok)

  -- `airlink_config_init`; the snapshot is the state that it leaves.
  pub config_init : Device → Entropy → Device × Status
  config_init d e =
      let (slots, ready) = flash_start d.slots in
      let (identities, also) = world.identity_init d.identities in
      let d' : Device = record d { slots = slots; identities = identities } in
      if not ready
      then (record d { slots = slots }, failed)
      else if not also
      then (d', failed)
      else if not world.mutex_made
      then (d', no_mem)
      else if not (world.slots.opens slots)
      then (d', failed)
      else store_loaded d' (put_together d' e)

  -- `airlink_config_save`
  pub config_save : Device → DeviceConfig → Device × Status
  config_save d config =
      if not (config_validate config) then (d, invalid_arg) else save_locked d config

  -- `airlink_config_factory_reset`
  pub factory_reset : Device → Entropy → Device × Status
  factory_reset d e = save_locked d (load_defaults world d.identities e)

  -- Whether an identity says something else.
  pub differs : Option FactoryIdentity → List ℕ → List ℕ → Bool
  differs none serial password = false
  differs (some i) serial password =
      not (same_string i.serial_number serial) || not (same_string i.initial_password password)

  -- `airlink_config_set_identity`, its arguments not NULL.
  pub set_identity : Device → List ℕ → List ℕ → Device × Status
  set_identity d serial password =
      if not (serial_valid serial)
        || not (identity_password_valid password (min (strnlen password) 65))
      then (d, invalid_arg)
      else if differs (read_identity world d.identities) serial password
      then (d, invalid_state)
      else let (store, status) = write_identity world d.identities serial password in
        let d' : Device = record d { identities = store } in
        if is_ok status
        then save_locked d' (with_password (with_serial d'.config serial) password)
        else (d', status)
