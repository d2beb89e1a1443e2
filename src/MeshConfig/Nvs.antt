-- ===== src/MeshConfig/Nvs.antt =====
-- The non-volatile storage of ESP-IDF as components/airlink_mesh/airlink_mesh_config.c and
-- components/airlink_config/airlink_config.c use it.
use air_link.Base.{Bool, true, Option, some, ◌≡◌, ◌≢◌}

-- The two slots of a record, under the keys that end in `_a` and `_b`.
pub data Place : Type 0 where
  slot_a slot_b : Place

-- `esp_err_t`, as far as the file returns it itself; `failed` stands for an error of the storage.
pub data Status : Type 0 where
  esp_ok invalid_arg invalid_state no_mem not_found failed : Status

-- What `nvs_erase_key` answers: done, ESP_ERR_NVS_NOT_FOUND, or another error.
pub data Erased : Type 0 where
  erased nvs_not_found erase_failed : Erased

-- One kind of record in the namespace. `opens` is whether `nvs_open` succeeds, `set_blob` and
-- `commit` answer whether they do. A blob that was set is read back, also after the commit, and
-- setting, erasing or committing changes no other blob. `restart` is the storage after a loss of
-- power: only a commit that succeeded has its blobs there; of what was set or erased and not
-- committed nothing is known. A restart right after a restart changes nothing.
pub record Nvs (Key Blob : Type 0) : Type 1 where
  pub Store : Type 0
  pub opens : Store → Bool
  pub get_blob : Store → Key → Option Blob
  pub set_blob : Store → Key → Blob → Store × Bool
  pub erase_key : Store → Key → Store × Erased
  pub commit : Store → Store × Bool
  pub restart : Store → Store
  pub get_blob-set_blob :
      (s : Store) (k : Key) (b : Blob)
      → (set_blob s k b).1 ≡ true
      → get_blob (set_blob s k b).0 k ≡ some b
  pub get_blob-set_blob_other :
      (s : Store) (k j : Key) (b : Blob) → j ≢ k → get_blob (set_blob s k b).0 j ≡ get_blob s j
  pub get_blob-erase_key_other :
      (s : Store) (k j : Key) → j ≢ k → get_blob (erase_key s k).0 j ≡ get_blob s j
  pub get_blob-commit : (s : Store) (j : Key) → get_blob (commit s).0 j ≡ get_blob s j
  pub get_blob-restart :
      (s : Store) (j : Key) → (commit s).1 ≡ true → get_blob (restart (commit s).0) j ≡ get_blob s j
  pub get_blob-restart_again :
      (s : Store) (j : Key) → get_blob (restart (restart s)) j ≡ get_blob (restart s) j
