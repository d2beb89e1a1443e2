-- ===== src/MeshConfig/Slots.antt =====
-- components/airlink_mesh/airlink_mesh_config.c: the stored configuration, its two slots and the
-- two of a configuration that is staged.
pub mod Sound
pub mod Tests
use air_link.Base.{
  ℕ, ◌+◌, ◌%◌, Bool, true, false, Option, none, some, not, ◌&&◌, ◌||◌, ltb, leb, ◌==◌,
  if◌then◌else◌, replicate,
}
use air_link.MeshConfig.Nvs.{
  Nvs, Erased, erased, nvs_not_found, erase_failed, Status, esp_ok, invalid_arg, invalid_state,
  not_found, failed,
}
use air_link.MeshConfig.Validate.{MeshConfig, validate, defaults}

-- The keys "mesh_a", "mesh_b", "pending_a" and "pending_b".
pub data ConfigKey : Type 0 where
  mesh_a mesh_b pending_a pending_b : ConfigKey

abbrev pub config_magic : ℕ
config_magic = 0x414c_4d43

-- `mesh_config_record_t`
pub record ConfigRecord : Type 0 where
  pub magic : ℕ
  pub generation : ℕ
  pub config : MeshConfig
  pub crc32 : ℕ

-- `decoded_config_t`: `none` is that it is not valid.
pub record DecodedConfig : Type 0 where
  pub generation : ℕ
  pub config : MeshConfig

-- The choice between two slots, the first if neither is older.
pub newer : Option DecodedConfig → Option DecodedConfig → Option DecodedConfig
newer none b = b
newer (some a) none = some a
newer (some a) (some b) = if leb b.generation a.generation then some a else some b

-- The keys of `write_config_slot`, by the last bit of the generation.
pub mesh_key : ℕ → ConfigKey
mesh_key generation = if generation % 2 == 1 then mesh_b else mesh_a

pub pending_key : ℕ → ConfigKey
pending_key generation = if generation % 2 == 1 then pending_b else pending_a

-- Whether an erased key is gone.
pub is_gone : Erased → Bool
is_gone erased = true
is_gone nvs_not_found = true
is_gone erase_failed = false

-- `s_config` before it is set.
abbrev pub zeros : MeshConfig
zeros = record {
  schema_version = 0;
  configured = 0;
  role = 0;
  network_id = replicate 6 0;
  fleet_key = replicate 32 0;
  band = 0;
  channel = 0;
  country = replicate 3 0;
  max_nodes = 0;
  max_hops = 0;
  reserved = replicate 6 0;
}

-- The checksum is a function `crc` of the fields in front, as for the approvals.
module _ (nvs : Nvs ConfigKey ConfigRecord) (crc : ℕ → ℕ → MeshConfig → ℕ) where
  -- `s_config`, `s_generation` and the storage.
  pub record Stored : Type 0 where
    pub config : MeshConfig
    pub generation : ℕ
    pub store : nvs.Store

  -- The tests of `read_config_slot` on what `nvs_get_blob` gave.
  pub check_config : Option ConfigRecord → Option DecodedConfig
  check_config none = none
  check_config (some r) =
      if not (r.magic == config_magic)
        || not (r.crc32 == crc r.magic r.generation r.config)
        || not (validate r.config none)
      then none
      else some (record { generation = r.generation; config = r.config })

  -- `read_config_slot`
  pub read_config : nvs.Store → ConfigKey → Option DecodedConfig
  read_config store key = check_config (nvs.get_blob store key)

  -- `write_config_slot`, with its key.
  pub write_config : nvs.Store → ConfigKey → MeshConfig → ℕ → nvs.Store × Status
  write_config store key config generation =
      let r : ConfigRecord = record {
        magic = config_magic;
        generation = generation;
        config = config;
        crc32 = crc config_magic generation config;
      } in
      let (written, set) = nvs.set_blob store key r in
      let (committed, done) = nvs.commit written in
      if not (nvs.opens store)
      then (store, failed)
      else if not set
      then (written, failed)
      else if not done
      then (committed, failed)
      else (committed, esp_ok)

  -- The branches of `airlink_mesh_config_init` on the configuration.
  pub loaded_config : nvs.Store → Option DecodedConfig → Stored
  loaded_config store none = record { config = defaults; generation = 0; store = store }
  loaded_config store (some d) = record {
    config = d.config;
    generation = d.generation;
    store = store;
  }

  -- The part of `airlink_mesh_config_init` on the configuration, when the mutex can be made.
  pub load_config : nvs.Store → Stored × Status
  load_config store =
      if not (nvs.opens store)
      then (record { config = zeros; generation = 0; store = store }, failed)
      else (
        loaded_config store (newer (read_config store mesh_a) (read_config store mesh_b)),
        esp_ok,
      )

  -- What a write to the slots of the configuration leaves behind.
  pub installed : Stored → MeshConfig → ℕ → nvs.Store × Status → Stored × Status
  installed s config generation (store, esp_ok) =
      (record { config = config; generation = generation; store = store }, esp_ok)
  installed s config generation (store, status) = (record s { store = store }, status)

  -- `airlink_mesh_config_save` with the bridge role of the device's configuration.
  pub config_save : Stored → ℕ → MeshConfig → Stored × Status
  config_save s bridge_role config =
      if not (validate config (some bridge_role))
      then (s, invalid_arg)
      else if s.generation == 4294967295
      then (s, invalid_state)
      else installed s config (s.generation + 1)
          (write_config s.store (mesh_key (s.generation + 1)) config (s.generation + 1))

  -- `airlink_mesh_config_stage`
  pub config_stage : Stored → ℕ → MeshConfig → ℕ → Stored × Status
  config_stage s bridge_role config generation =
      if not (validate config (some bridge_role))
      then (s, invalid_arg)
      else if leb generation s.generation
      then (s, invalid_arg)
      else let (store, status) = write_config s.store (pending_key generation) config generation in
        (record s { store = store }, status)

  -- `airlink_mesh_config_abort_staged`
  pub abort_staged : Stored → Stored × Status
  abort_staged s =
      let (without_a, a) = nvs.erase_key s.store pending_a in
      let (without_b, b) = nvs.erase_key without_a pending_b in
      let (committed, done) = nvs.commit without_b in
      if not (nvs.opens s.store)
      then (s, failed)
      else if not (is_gone a && is_gone b)
      then (record s { store = without_b }, failed)
      else (record s { store = committed }, if done then esp_ok else failed)

  -- The end of `airlink_mesh_config_commit_staged`: what is staged is dropped after a success.
  pub then_abort : Stored × Status → Stored × Status
  then_abort (s, esp_ok) = abort_staged s
  then_abort (s, status) = (s, status)

  -- The middle of `airlink_mesh_config_commit_staged`, with the staged configuration.
  pub install_staged : Stored → Option DecodedConfig → Stored × Status
  install_staged s none = (s, not_found)
  install_staged s (some d) =
      if leb d.generation s.generation
      then (s, not_found)
      else then_abort (
          installed s d.config d.generation
            (write_config s.store (mesh_key d.generation) d.config d.generation))

  -- `airlink_mesh_config_commit_staged`
  pub commit_staged : Stored → Stored × Status
  commit_staged s =
      if not (nvs.opens s.store)
      then (s, failed)
      else install_staged s (newer (read_config s.store pending_a) (read_config s.store pending_b))

  -- `airlink_mesh_config_reset`
  pub config_reset : Stored → ℕ → Stored × Status
  config_reset s bridge_role = config_save s bridge_role defaults
