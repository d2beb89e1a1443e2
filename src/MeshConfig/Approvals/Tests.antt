-- ===== src/MeshConfig/Approvals/Tests.antt =====
-- The approvals on a storage that never fails.
use air_link.Base.{
  ap, if◌then◌else◌, ℕ, ◌+◌, List, [], ◌∷◌, ◌≡◌, ◌≢◌, refl, arith, true, Option, some, none, length,
  replicate,
}
use air_link.MeshConfig.Nvs.{erase_failed, Status, not_found, Nvs, Place, slot_a, slot_b, esp_ok}
use air_link.MeshConfig.Approvals.{
  Approval, ApprovalRecord, Approvals, approval_add, approval_remove, save_approvals, contains,
}
use air_link.MeshConfig.Approvals.{
  record_of, load_approvals, loaded, choose, read_slot, check_slot, remove_first,
}
use air_link.MeshConfig.Approvals.Edits.{Added, Taken, approval_add_lem, approval_remove_lem}
use air_link.MeshConfig.Approvals.Lists.{Distinct, same_node_refl}
use air_link.MeshConfig.Approvals.Stored.{
  load_approvals-Synced, Synced, approval_add-Synced, approval_remove-Synced,
}

-- The two blobs.
abbrev Blobs : Type 0
Blobs = Option ApprovalRecord × Option ApprovalRecord

get : Option ApprovalRecord × Option ApprovalRecord → Place → Option ApprovalRecord
get (a, b) slot_a = a
get (a, b) slot_b = b

set :
    Option ApprovalRecord × Option ApprovalRecord
    → Place
    → ApprovalRecord
    → Option ApprovalRecord × Option ApprovalRecord
set (a, b) slot_a r = (some r, b)
set (a, b) slot_b r = (a, some r)

get-set :
    (s : Option ApprovalRecord × Option ApprovalRecord) (k : Place) (r : ApprovalRecord)
    → get (set s k r) k ≡ some r
unfolding get set
get-set s slot_a r = refl
get-set s slot_b r = refl

get-set_other :
    (s : Option ApprovalRecord × Option ApprovalRecord) (k j : Place) (r : ApprovalRecord)
    → j ≢ k
    → get (set s k r) j ≡ get s j
unfolding get set
get-set_other s slot_a slot_a r ne = absurd (ne refl)
get-set_other s slot_a slot_b r ne = refl
get-set_other s slot_b slot_a r ne = refl
get-set_other s slot_b slot_b r ne = absurd (ne refl)

-- The blobs as they are read, and as they were committed last.
abbrev flash : Nvs Place ApprovalRecord
flash = record {
  Store = Blobs × Blobs;
  opens = λ s. true;
  get_blob = λ s. get s.0;
  set_blob = λ s k r. ((set s.0 k r, s.1), true);
  erase_key = λ s k. (s, erase_failed);
  get_blob-erase_key_other = λ s k j ne. refl;
  commit = λ s. ((s.0, s.0), true);
  restart = λ s. (s.1, s.1);
  get_blob-set_blob = λ s k r ok. get-set s.0 k r;
  get_blob-set_blob_other = λ s k j r ne. get-set_other s.0 k j r ne;
  get_blob-commit = λ s j. refl;
  get_blob-restart = λ s j ok. refl;
  get_blob-restart_again = λ s j. refl;
}

abbrev sum : ℕ → ℕ → List Approval → ℕ
sum = λ magic generation list. magic + generation + length list

abbrev serial : List ℕ
serial = 65 ∷ 49 ∷ []

abbrev mac : List ℕ
mac = replicate 6 1

abbrev nothing : Approvals flash sum
nothing = record { list = []; generation = 0; store = ((none, none), (none, none)) }

-- What is loaded from an empty flash.
nothing-Synced : Synced flash sum nothing
unfolding load_approvals loaded choose read_slot check_slot get
nothing-Synced = load_approvals-Synced flash sum ((none, none), (none, none)) refl

approval_add_lem_example :
    Added flash sum nothing serial mac
      (approval_add flash sum nothing serial mac).0
      (approval_add flash sum nothing serial mac).1
approval_add_lem_example = approval_add_lem flash sum nothing serial mac tt (omega arith)

approval_add-Synced_example : Synced flash sum (approval_add flash sum nothing serial mac).0
unfolding approval_add save_approvals contains
approval_add-Synced_example =
    approval_add-Synced flash sum nothing serial mac nothing-Synced (omega arith) refl

-- One node, saved with generation 1.
abbrev one : List Approval
one = record { serial = serial; sta_mac = mac } ∷ []

abbrev one_blob : Blobs
one_blob = (none, some (record_of flash sum one 1))

abbrev saved : Approvals flash sum
saved = record { list = one; generation = 1; store = (one_blob, one_blob) }

saved-Synced : Synced flash sum saved
unfolding load_approvals loaded choose read_slot check_slot get record_of
saved-Synced = record { restart = λ opened. refl; older_a = tt; older_b = omega arith }

one-Distinct : Distinct one
unfolding contains
one-Distinct = (refl, tt)

approval_remove_lem_example :
    Taken flash sum saved serial mac
      (approval_remove flash sum saved serial mac).0
      (approval_remove flash sum saved serial mac).1
approval_remove_lem_example = approval_remove_lem flash sum saved serial mac one-Distinct

found : remove_first one serial mac ≡ some []
unfolding remove_first
found = ap (λ t. if t then some [] else none) (same_node_refl serial mac)

removed_ok : (approval_remove flash sum saved serial mac).1 ≡ esp_ok
unfolding approval_remove save_approvals
removed_ok =
    ap
      (λ o.
        (elim o as (λ _. Approvals flash sum × Status) [
          | none ↦ (saved, not_found)
          | some list ↦ save_approvals flash sum saved list
        ]).1)
      found

approval_remove-Synced_example : Synced flash sum (approval_remove flash sum saved serial mac).0
approval_remove-Synced_example =
    approval_remove-Synced flash sum saved serial mac saved-Synced one-Distinct (omega arith)
      removed_ok
