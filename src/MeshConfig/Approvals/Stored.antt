-- ===== src/MeshConfig/Approvals/Stored.antt =====
-- What a restart finds of the approvals.
use air_link.Base.{
  ap₂, if-both, not, ℕ, ◌+◌, ◌≤◌, List, [], ◌∷◌, ◌≡◌, ◌≢◌, refl, sym, ◌∙◌, ap, arith, length, leb,
  ltb, ◌==◌, ==_refl,
}
use air_link.Base.{true, ◌&&◌, ◌||◌, Bool-cases, Option, some, none, inl, inr, length-append}
use mathlib.Core.Path.{subst}
use air_link.MeshConfig.Nvs.{Nvs, Place, slot_a, slot_b, Status, esp_ok, not_found}
use air_link.MeshConfig.Approvals.{
  Approval, ApprovalRecord, Approvals, approval_magic, place_of, record_of, save_approvals,
}
use air_link.MeshConfig.Approvals.{
  loaded, check_slot, read_slot, choose, load_approvals, approval_add, approval_remove, contains,
  remove_first,
}
use air_link.MeshConfig.Approvals.Lists.{Distinct, Removed, remove_first-Removed}

abbrev other_place : Place → Place
other_place slot_a = slot_b
other_place slot_b = slot_a

other_place-ne : (k : Place) → other_place k ≢ k
other_place-ne slot_a = λ e. absurd (cc)
other_place-ne slot_b = λ e. absurd (cc)

-- What the two slots give, by the slot that was written.
abbrev chosen_of : Place → Option ApprovalRecord → Option ApprovalRecord → Option ApprovalRecord
chosen_of slot_a new old = choose new old
chosen_of slot_b new old = choose old new

abbrev Older : Option ApprovalRecord → ℕ → Type 0
Older none g = Unit
Older (some r) g = r.generation ≤ g

choose-newer :
    (k : Place) (new : ApprovalRecord) (old : Option ApprovalRecord) (g : ℕ)
    → Older old g
    → new.generation ≡ g + 1
    → chosen_of k (some new) old ≡ some new
unfolding choose
choose-newer slot_a new none g h e = refl
choose-newer slot_a new (some r) g h e = ground arith
choose-newer slot_b new none g h e = refl
choose-newer slot_b new (some r) g h e = ground arith

-- No slot holds a later generation than the one that is chosen.
abbrev Latest : Option ApprovalRecord → Option ApprovalRecord → Option ApprovalRecord → Type 0
Latest a b none = Older a 0 × Older b 0
Latest a b (some r) = Older a r.generation × Older b r.generation

choose-Latest : (a b : Option ApprovalRecord) → Latest a b (choose a b)
unfolding choose
choose-Latest none none = (tt, tt)
choose-Latest none (some b) = (tt, omega arith)
choose-Latest (some a) none = (omega arith, tt)
choose-Latest (some a) (some b) =
    if-both (Latest (some a) (some b)) (leb b.generation a.generation) _ _
      (λ le. (omega arith, ground (arith, le))) (λ gt. (ground (arith, gt), omega arith))

module _ (nvs : Nvs Place ApprovalRecord) (crc : ℕ → ℕ → List Approval → ℕ) where
  -- A restart that can open the storage finds the list and the generation, and no slot holds a
  -- later generation.
  pub record Synced (s : Approvals nvs crc) : Type 0 where
    pub restart :
        nvs.opens (nvs.restart s.store) ≡ true
        → load_approvals nvs crc (nvs.restart s.store)
          ≡ (record s { store = nvs.restart s.store }, esp_ok)
    pub older_a : Older (read_slot nvs crc s.store slot_a) s.generation
    pub older_b : Older (read_slot nvs crc s.store slot_b) s.generation

  -- A second restart reads the same.
  reads :
      (store : nvs.Store)
      → choose
          (read_slot nvs crc (nvs.restart (nvs.restart store)) slot_a)
          (read_slot nvs crc (nvs.restart (nvs.restart store)) slot_b)
        ≡ choose
            (read_slot nvs crc (nvs.restart store) slot_a)
            (read_slot nvs crc (nvs.restart store) slot_b)
  unfolding read_slot
  reads store =
      ap₂ (λ (x y : Option ApprovalRecord). choose (check_slot nvs crc x) (check_slot nvs crc y))
        (nvs.get_blob-restart_again store slot_a) (nvs.get_blob-restart_again store slot_b)

  loaded-Synced :
      (store : nvs.Store) (o : Option ApprovalRecord)
      → choose
          (read_slot nvs crc (nvs.restart store) slot_a)
          (read_slot nvs crc (nvs.restart store) slot_b)
        ≡ o
      → nvs.opens (nvs.restart store) ≡ true
      → Latest
          (read_slot nvs crc (nvs.restart store) slot_a)
          (read_slot nvs crc (nvs.restart store) slot_b)
          o
      → Synced (loaded nvs crc (nvs.restart store) o)
  unfolding load_approvals loaded read_slot
  loaded-Synced store none e there (a, b) = record {
    restart = λ again.
        rw again (
          ap (λ o. (loaded nvs crc (nvs.restart (nvs.restart store)) o, esp_ok)) (reads store ∙ e));
    older_a = a;
    older_b = b;
  }
  loaded-Synced store (some r) e there (a, b) = record {
    restart = λ again.
        rw again (
          ap (λ o. (loaded nvs crc (nvs.restart (nvs.restart store)) o, esp_ok)) (reads store ∙ e));
    older_a = a;
    older_b = b;
  }

  -- What `airlink_mesh_config_init` loads after a restart is what the next restart finds.
  pub load_approvals-Synced :
      (store : nvs.Store)
      → (load_approvals nvs crc (nvs.restart store)).1 ≡ esp_ok
      → Synced (load_approvals nvs crc (nvs.restart store)).0
  unfolding load_approvals
  load_approvals-Synced store =
      if-both (λ (r : Approvals nvs crc × Status). r.1 ≡ esp_ok → Synced r.0)
        (not (nvs.opens (nvs.restart store))) _ _ (λ _ ok. absurd (cc))
        (λ there _. loaded-Synced store _ refl (ground (arith, there)) (choose-Latest _ _))

  check_record_of :
      (list : List Approval) (g : ℕ)
      → length list ≤ 8
      → check_slot nvs crc (some (record_of nvs crc list g)) ≡ some (record_of nvs crc list g)
  unfolding check_slot record_of
  check_record_of list g le = rw (valid) refl
    where
      valid :
          (approval_magic == approval_magic
            && leb (length list) 8
            && crc approval_magic g list == crc approval_magic g list)
          ≡ true
      valid = ground (arith, ==_refl (crc approval_magic g list))

  -- What the slots give after a record with the next generation was written and committed.
  module _ (s : Approvals nvs crc) (k : Place) (list : List Approval) where
    new : ApprovalRecord
    new = record_of nvs crc list (s.generation + 1)

    written : nvs.Store
    written = (nvs.set_blob s.store k new).0

    committed : nvs.Store
    committed = (nvs.commit written).0

    read_new :
        (nvs.set_blob s.store k new).1 ≡ true
        → length list ≤ 8
        → read_slot nvs crc committed k ≡ some new
    unfolding read_slot committed written new
    read_new ok le =
        ap (check_slot nvs crc)
          (nvs.get_blob-commit written k ∙ nvs.get_blob-set_blob s.store k new ok)
        ∙ check_record_of list (s.generation + 1) le

    read_old :
        read_slot nvs crc committed (other_place k) ≡ read_slot nvs crc s.store (other_place k)
    unfolding read_slot committed written
    read_old = ap (check_slot nvs crc) (
        nvs.get_blob-commit written (other_place k)
        ∙ nvs.get_blob-set_blob_other s.store k (other_place k) new (other_place-ne k))

    -- After a commit that succeeded, a restart reads what could be read before it.
    read_restart :
        (j : Place)
        → (nvs.commit written).1 ≡ true
        → read_slot nvs crc (nvs.restart committed) j ≡ read_slot nvs crc committed j
    unfolding read_slot committed
    read_restart j done =
        ap (check_slot nvs crc)
          (nvs.get_blob-restart written j done ∙ sym (nvs.get_blob-commit written j))

    after : Approvals nvs crc
    after = record { list = list; generation = s.generation + 1; store = committed }

    save_of_ok :
        k ≡ place_of (s.generation + 1)
        → (save_approvals nvs crc s list).1 ≡ esp_ok
        → ((nvs.set_blob s.store k new).1 ≡ true)
          × ((nvs.commit written).1 ≡ true)
          × ((save_approvals nvs crc s list).0 ≡ after)
    unfolding save_approvals after committed written new
    save_of_ok e ok =
        subst
          (λ k'.
            ((nvs.set_blob s.store k' (record_of nvs crc list (s.generation + 1))).1 ≡ true)
            × ((nvs.commit
                  (nvs.set_blob s.store k' (record_of nvs crc list (s.generation + 1))).0).1
                ≡ true)
            × ((save_approvals nvs crc s list).0 ≡ record {
              list = list;
              generation = s.generation + 1;
              store =
                  (nvs.commit
                    (nvs.set_blob s.store k' (record_of nvs crc list (s.generation + 1))).0).0;
            }))
          (sym e) (ground arith)

  load_of :
      (store : nvs.Store) (r : ApprovalRecord)
      → choose (read_slot nvs crc store slot_a) (read_slot nvs crc store slot_b) ≡ some r
      → nvs.opens store ≡ true
      → load_approvals nvs crc store
        ≡ (record { list = r.list; generation = r.generation; store = store }, esp_ok)
  unfolding load_approvals loaded
  load_of store r e there = rw there (ap (λ o. (loaded nvs crc store o, esp_ok)) e)

  Older-slot :
      (s : Approvals nvs crc) (k : Place)
      → Synced s
      → Older (read_slot nvs crc s.store k) s.generation
  Older-slot s slot_a v = v.older_a
  Older-slot s slot_b v = v.older_b

  Older-next : (o : Option ApprovalRecord) (g : ℕ) → Older o g → Older o (g + 1)
  Older-next none g h = tt
  Older-next (some r) g h = omega arith

  after-Synced :
      (s : Approvals nvs crc) (k : Place) (list : List Approval)
      → Synced s
      → length list ≤ 8
      → (nvs.set_blob s.store k (new s k list)).1 ≡ true
      → (nvs.commit (written s k list)).1 ≡ true
      → Synced (after s k list)
  unfolding after new record_of written committed
  after-Synced s slot_a list v le ok done = record {
    restart = load_of _ _ (
        ap (choose _) {x = _} (read_restart s slot_a list slot_b done ∙ read_old s slot_a list)
        ∙ ap (λ o. choose o (read_slot nvs crc s.store slot_b))
            (read_restart s slot_a list slot_a done ∙ read_new s slot_a list ok le)
        ∙ choose-newer slot_a _ _ s.generation v.older_b refl);
    older_a =
        subst (λ o. Older o (s.generation + 1)) (sym (read_new s slot_a list ok le)) (omega arith);
    older_b =
        subst (λ o. Older o (s.generation + 1)) (sym (read_old s slot_a list))
          (Older-next _ s.generation v.older_b);
  }
  after-Synced s slot_b list v le ok done = record {
    restart = load_of _ _ (
        ap (choose _) {x = _}
          (read_restart s slot_b list slot_b done ∙ read_new s slot_b list ok le)
        ∙ ap (λ o. choose o (some (new s slot_b list)))
            (read_restart s slot_b list slot_a done ∙ read_old s slot_b list)
        ∙ choose-newer slot_b _ _ s.generation v.older_a refl);
    older_a =
        subst (λ o. Older o (s.generation + 1)) (sym (read_old s slot_b list))
          (Older-next _ s.generation v.older_a);
    older_b =
        subst (λ o. Older o (s.generation + 1)) (sym (read_new s slot_b list ok le)) (omega arith);
  }

  save-Synced :
      (s : Approvals nvs crc) (list : List Approval)
      → Synced s
      → length list ≤ 8
      → (save_approvals nvs crc s list).1 ≡ esp_ok
      → Synced (save_approvals nvs crc s list).0
  save-Synced s list v le ok =
      let (set, done, e) = save_of_ok s (place_of (s.generation + 1)) list refl ok in
      subst Synced (sym e) (after-Synced s (place_of (s.generation + 1)) list v le set done)

  Removed-Synced :
      (s : Approvals nvs crc) (serial mac : List ℕ) (o : Option (List Approval))
      → Removed s.list serial mac o
      → Synced s
      → length s.list ≤ 8
      → let (s', status) = elim o as (λ _. Approvals nvs crc × Status) [
        | none ↦ (s, not_found)
        | some list ↦ save_approvals nvs crc s list
      ] in
        status ≡ esp_ok → Synced s'
  Removed-Synced s serial mac none r v le ok = v
  Removed-Synced s serial mac (some list) (_, _, _, shorter, _) v le ok =
      save-Synced s list v (omega arith) ok

  -- When a restart that can open the storage would find the approvals as they are, and no slot
  -- holds a later generation, then after an approval that answered ESP_OK, with at most eight nodes
  -- before, such a restart, which has only what was committed, again finds exactly the list and its
  -- generation, and no slot holds a later one.
  pub approval_add-Synced :
      (s : Approvals nvs crc) (serial mac : List ℕ)
      → Synced s
      → length s.list ≤ 8
      → (approval_add nvs crc s serial mac).1 ≡ esp_ok
      → Synced (approval_add nvs crc s serial mac).0
  unfolding approval_add
  approval_add-Synced s serial mac v le =
      elim (Bool-cases (length serial == 0 || ltb 24 (length serial))) [
        | inl bad ↦ rw bad (λ e. v)
        | inr good ↦ rw good elim (Bool-cases (contains s.list serial mac)) [
          | inl there ↦ rw there (λ e. v)
          | inr new ↦ rw new elim (Bool-cases (leb 8 (length s.list))) [
            | inl full ↦ rw full (λ e. v)
            | inr room ↦ rw room (
                save-Synced s _ v (
                  ground
                    (arith, length-append s.list (record { serial = serial; sta_mac = mac } ∷ []))))
          ]
        ]
      ]

  -- When a restart that can open the storage would find the approvals as they are, and no slot
  -- holds a later generation, then after a removal that answered ESP_OK, with at most eight nodes
  -- before, no two the same, such a restart, which has only what was committed, finds the new list
  -- and its generation, and no slot holds a later one.
  pub approval_remove-Synced :
      (s : Approvals nvs crc) (serial mac : List ℕ)
      → Synced s
      → Distinct s.list
      → length s.list ≤ 8
      → (approval_remove nvs crc s serial mac).1 ≡ esp_ok
      → Synced (approval_remove nvs crc s serial mac).0
  unfolding approval_remove
  approval_remove-Synced s serial mac v d le =
      Removed-Synced s serial mac (remove_first s.list serial mac)
        (remove_first-Removed s.list serial mac d) v le
