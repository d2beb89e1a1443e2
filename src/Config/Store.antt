-- ===== src/Config/Store.antt =====
-- components/airlink_config/airlink_config.c: the records in the flash and the configuration in use.
pub mod Slots
pub mod Identity
use air_link.Base.{
  ℕ, zero, suc, ◌+◌, ◌/◌, ◌%◌, List, [], ◌∷◌, ◌++◌, Bool, true, false, Option, none, some,
}
use air_link.Base.{not, ◌&&◌, ◌||◌, ltb, leb, ◌==◌, if◌then◌else◌, length, replicate, get_or}
use air_link.MeshConfig.Nvs.{
  Nvs, Place, slot_a, slot_b, Status, esp_ok, invalid_arg, invalid_state, no_mem, failed,
}
use air_link.Config.Validate.{
  ConfigV1, DeviceConfig, strnlen, config_validate, migrate_v1, config_v1_valid,
}
use air_link.Config.Provision.{ProvisionRecord, record_valid}
use air_link.Config.Strings.{strlcpy, serial_valid, identity_password_valid}
use air_link.Config.Defaults.{
  Entropy, random_password, default_ssid, default_config, with_serial, with_password,
}

abbrev pub config_magic : ℕ
config_magic = 0x414c_4346

abbrev pub identity_magic : ℕ
identity_magic = 0x414c_4944

-- `config_record_t` and `config_record_v1_t`
pub record ConfigRecord (Config : Type 0) : Type 0 where
  pub magic : ℕ
  pub generation : ℕ
  pub config : Config
  pub crc32 : ℕ

-- A blob by its length: that of a record, of a record of schema 1, or another.
pub data Blob : Type 0 where
  current : ConfigRecord DeviceConfig → Blob
  of_schema_1 : ConfigRecord ConfigV1 → Blob
  other_length : Blob

-- `decoded_record_t`, valid.
pub record Decoded : Type 0 where
  pub generation : ℕ
  pub config : DeviceConfig
  pub migrated : Bool

-- `factory_identity_t`
pub record FactoryIdentity : Type 0 where
  pub magic : ℕ
  pub serial_number : List ℕ
  pub initial_password : List ℕ
  pub crc32 : ℕ

-- What `nvs_flash_init` answers; `damaged` is ESP_ERR_NVS_NO_FREE_PAGES or
-- ESP_ERR_NVS_NEW_VERSION_FOUND.
pub data FlashInit : Type 0 where
  flash_ready damaged flash_failed : FlashInit

-- What the file calls: the two storages, the checksums of the records as functions of the fields in
-- front of them, and the start of the flash.
pub record World : Type 1 where
  pub slots : Nvs Place Blob
  pub identities : Nvs Unit FactoryIdentity
  pub record_crc : ℕ → ℕ → DeviceConfig → ℕ
  pub record_v1_crc : ℕ → ℕ → ConfigV1 → ℕ
  pub identity_crc : ℕ → List ℕ → List ℕ → ℕ
  pub provision_crc : ℕ → ℕ → ℕ → List ℕ → ℕ
  pub flash_init : slots.Store → slots.Store × FlashInit
  pub flash_erase : slots.Store → slots.Store × Bool
  pub identity_init : identities.Store → identities.Store × Bool
  -- Whether `xSemaphoreCreateMutex` and the erasure of the provisioning partition succeed.
  pub mutex_made : Bool
  pub partition_erased : Bool

-- `err == ESP_OK`
unfoldable pub is_ok : Status → Bool
is_ok esp_ok = true
is_ok _ = false

-- The choice of `airlink_config_init` between the slots.
unfoldable pub selected : Option Decoded → Option Decoded → Option Decoded
selected none b = b
selected (some a) none = some a
selected (some a) (some b) = if leb b.generation a.generation then some a else some b

-- The slot of `write_record`, by the last bit of the generation.
unfoldable pub place_of : ℕ → Place
place_of generation = if generation % 2 == 1 then slot_b else slot_a

-- The generation of `save_locked`.
unfoldable pub next_generation : ℕ → ℕ
next_generation generation = if generation == 4294967295 then 4294967295 else generation + 1

module _ (world : World) where
  -- The tests of `read_identity` on what the storage gave.
  unfoldable pub check_identity : Option FactoryIdentity → Option FactoryIdentity
  check_identity none = none
  check_identity (some i) =
      if not (i.magic == identity_magic)
        || not (i.crc32 == world.identity_crc i.magic i.serial_number i.initial_password)
      then none
      else if ltb 0 (strnlen i.serial_number)
          && ltb (strnlen i.serial_number) 25
          && identity_password_valid i.initial_password (strnlen i.initial_password)
          && serial_valid i.serial_number
      then some i
      else none

  -- `read_identity`, `none` for false.
  unfoldable pub read_identity : world.identities.Store → Option FactoryIdentity
  read_identity store =
      if world.identities.opens store
      then check_identity (world.identities.get_blob store tt)
      else none

  -- `write_identity`
  unfoldable pub write_identity :
      world.identities.Store → List ℕ → List ℕ → world.identities.Store × Status
  write_identity store serial password =
      let serial_number = strlcpy 25 (replicate 25 0) serial in
      let initial_password = strlcpy 65 (replicate 65 0) password in
      let i : FactoryIdentity = record {
        magic = identity_magic;
        serial_number = serial_number;
        initial_password = initial_password;
        crc32 = world.identity_crc identity_magic serial_number initial_password;
      } in
      let (written, set) = world.identities.set_blob store tt i in
      let (committed, done) = world.identities.commit written in
      if not (world.identities.opens store)
      then (store, failed)
      else if not set
      then (written, failed)
      else (committed, if done then esp_ok else failed)

  -- `load_defaults`
  unfoldable pub load_defaults : world.identities.Store → Entropy → DeviceConfig
  load_defaults store e =
      let config = default_config (default_ssid e) (random_password e.random) in
      elim (read_identity store) [
        | none ↦ config
        | some i ↦ with_password (with_serial config i.serial_number) i.initial_password
      ]

  -- The tests of `read_slot` on the blob, with `record_valid`. `none` is that the record is not
  -- valid, as after an error of the storage.
  unfoldable pub check_slot : Option Blob → Option Decoded
  check_slot (some (current r)) =
      if r.magic == config_magic
        && r.crc32 == world.record_crc r.magic r.generation r.config
        && config_validate r.config
      then some (record { generation = r.generation; config = r.config; migrated = false })
      else none
  check_slot (some (of_schema_1 r)) =
      if r.magic == config_magic
        && r.crc32 == world.record_v1_crc r.magic r.generation r.config
        && config_v1_valid r.config
      then some
          (record { generation = r.generation; config = migrate_v1 r.config; migrated = true })
      else none
  check_slot (some other_length) = none
  check_slot none = none

  -- `read_slot`
  unfoldable pub read_slot : world.slots.Store → Place → Option Decoded
  read_slot store place = check_slot (world.slots.get_blob store place)

  -- `write_record`
  unfoldable pub write_record : world.slots.Store → DeviceConfig → ℕ → world.slots.Store × Status
  write_record store config generation =
      let r : ConfigRecord DeviceConfig = record {
        magic = config_magic;
        generation = generation;
        config = config;
        crc32 = world.record_crc config_magic generation config;
      } in
      let (written, set) = world.slots.set_blob store (place_of generation) (current r) in
      let (committed, done) = world.slots.commit written in
      if not (world.slots.opens store)
      then (store, failed)
      else if not set
      then (written, failed)
      else (committed, if done then esp_ok else failed)
