-- ===== src/MeshConfig/Approvals.antt =====
-- components/airlink_mesh/airlink_mesh_config.c: the list of approved nodes.
pub mod Lists
pub mod Edits
pub mod Stored
pub mod Tests
use air_link.Base.{ℕ, suc, ◌+◌, ◌%◌, List, [], ◌∷◌, ◌++◌, Bool, true, false, Option, none, some}
use air_link.Base.{not, ◌&&◌, ◌||◌, ltb, leb, ◌==◌, if◌then◌else◌, length, bytes_eq}
use air_link.MeshConfig.Nvs.{
  Place, slot_a, slot_b, Nvs, Status, esp_ok, invalid_arg, invalid_state, no_mem, not_found, failed,
}

abbrev pub approval_magic : ℕ
approval_magic = 0x414c_4d41

abbrev pub max_nodes : ℕ
max_nodes = 8

abbrev pub serial_size : ℕ
serial_size = 24

-- `airlink_mesh_approval_t`: the serial without the byte 0 that ends it.
pub record Approval : Type 0 where
  pub serial : List ℕ
  pub sta_mac : List ℕ

-- `approval_record_t`; the list holds the first `count` of the entries.
pub record ApprovalRecord : Type 0 where
  pub magic : ℕ
  pub generation : ℕ
  pub list : List Approval
  pub crc32 : ℕ

-- The test of the loops on one entry.
pub same_node : Approval → List ℕ → List ℕ → Bool
same_node entry serial sta_mac = bytes_eq entry.serial serial && bytes_eq entry.sta_mac sta_mac

-- `airlink_mesh_approval_contains`
pub contains : List Approval → List ℕ → List ℕ → Bool
contains [] serial sta_mac = false
contains (entry ∷ rest) serial sta_mac =
    if same_node entry serial sta_mac then true else contains rest serial sta_mac

-- The search of `airlink_mesh_approval_remove` with the shift of the entries behind: `none` is
-- that nothing was found.
pub remove_first : List Approval → List ℕ → List ℕ → Option (List Approval)
remove_first [] serial sta_mac = none
remove_first (entry ∷ rest) serial sta_mac =
    if same_node entry serial sta_mac
    then some rest
    else elim (remove_first rest serial sta_mac) [ none ↦ none | some rest' ↦ some (entry ∷ rest') ]

-- The key for a generation.
pub place_of : ℕ → Place
place_of generation = if generation % 2 == 1 then slot_b else slot_a

-- The choice of `airlink_mesh_config_init` between the two slots, the first if neither is older.
pub choose : Option ApprovalRecord → Option ApprovalRecord → Option ApprovalRecord
choose none b = b
choose (some a) none = some a
choose (some a) (some b) = if leb b.generation a.generation then some a else some b

-- The checksum reads the record as it lies in memory, which the compiler lays out: it is a
-- function `crc` of the fields in front.
module _ (nvs : Nvs Place ApprovalRecord) (crc : ℕ → ℕ → List Approval → ℕ) where
  -- `s_approvals`, `s_approval_generation` and the storage.
  pub record Approvals : Type 0 where
    pub list : List Approval
    pub generation : ℕ
    pub store : nvs.Store

  -- The record that is written.
  pub record_of : List Approval → ℕ → ApprovalRecord
  record_of list generation = record {
    magic = approval_magic;
    generation = generation;
    list = list;
    crc32 = crc approval_magic generation list;
  }

  -- `save_approvals_locked`, of a new list.
  pub save_approvals : Approvals → List Approval → Approvals × Status
  save_approvals s list =
      if s.generation == 4294967295
      then (s, invalid_state)
      else if not (nvs.opens s.store)
      then (s, failed)
      else let (written, set) =
          nvs.set_blob s.store (place_of (s.generation + 1)) (record_of list (s.generation + 1)) in
        let (committed, done) = nvs.commit written in
        if not set
        then (record s { store = written }, failed)
        else if not done
        then (record s { store = committed }, failed)
        else (record { list = list; generation = s.generation + 1; store = committed }, esp_ok)

  -- `airlink_mesh_approval_add`, its pointers not NULL. The list is put back when it is not saved.
  pub approval_add : Approvals → List ℕ → List ℕ → Approvals × Status
  approval_add s serial sta_mac =
      if length serial == 0 || ltb serial_size (length serial)
      then (s, invalid_arg)
      else if contains s.list serial sta_mac
      then (s, esp_ok)
      else if leb max_nodes (length s.list)
      then (s, no_mem)
      else save_approvals s (s.list ++ record { serial = serial; sta_mac = sta_mac } ∷ [])

  -- `airlink_mesh_approval_remove`, its pointers not NULL.
  pub approval_remove : Approvals → List ℕ → List ℕ → Approvals × Status
  approval_remove s serial sta_mac = elim (remove_first s.list serial sta_mac) [
    | none ↦ (s, not_found)
    | some list ↦ save_approvals s list
  ]

  -- The tests of `read_approval_slot` on what `nvs_get_blob` gave; `none` is the result false.
  pub check_slot : Option ApprovalRecord → Option ApprovalRecord
  check_slot none = none
  check_slot (some r) =
      if r.magic == approval_magic
        && leb (length r.list) max_nodes
        && r.crc32 == crc r.magic r.generation r.list
      then some r
      else none

  -- `read_approval_slot`
  pub read_slot : nvs.Store → Place → Option ApprovalRecord
  read_slot store place = check_slot (nvs.get_blob store place)

  -- The branches of `airlink_mesh_config_init` on the approvals.
  pub loaded : nvs.Store → Option ApprovalRecord → Approvals
  loaded store none = record { list = []; generation = 0; store = store }
  loaded store (some r) = record { list = r.list; generation = r.generation; store = store }

  -- The part of `airlink_mesh_config_init` on the approvals, when the mutex can be made. What is
  -- not loaded stays zero.
  pub load_approvals : nvs.Store → Approvals × Status
  load_approvals store =
      if not (nvs.opens store)
      then (record { list = []; generation = 0; store = store }, failed)
      else (loaded store (choose (read_slot store slot_a) (read_slot store slot_b)), esp_ok)
