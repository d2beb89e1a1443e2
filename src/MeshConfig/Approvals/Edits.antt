-- ===== src/MeshConfig/Approvals/Edits.antt =====
-- Approving and removing nodes, on every branch.
use air_link.Base.{
  ℕ, ◌+◌, ◌≤◌, ◌<◌, List, [], ◌∷◌, ◌++◌, ◌≡◌, refl, sym, arith, length, length-append, ltb, leb,
}
use air_link.Base.{
  Bool, true, false, not, ◌||◌, ◌≢◌, if-both, Bool-cases, Option, some, none, inl, inr, ◌==◌, ◌⊎◌,
}
use mathlib.Core.Path.{subst}
use air_link.MeshConfig.Nvs.{
  Place, Nvs, Status, esp_ok, invalid_arg, invalid_state, no_mem, not_found, failed,
}
use air_link.MeshConfig.Approvals.{Approval, ApprovalRecord, Approvals, contains, remove_first}
use air_link.MeshConfig.Approvals.{
  save_approvals, approval_add, approval_remove, place_of, record_of,
}
use air_link.MeshConfig.Approvals.Lists.{
  Distinct, Other, Removed, contains-append, same_node_refl, same_node_comm, remove_first-Removed,
}

-- The nodes approved after one was added: it and those before.
pub record WithNode (xs ys : List Approval) (serial mac : List ℕ) : Type 0 where
  pub has : contains ys serial mac ≡ true
  pub keeps :
      (serial' mac' : List ℕ)
      → Other serial mac serial' mac'
      → contains ys serial' mac' ≡ contains xs serial' mac'
  pub bounded : length ys ≤ 8
  pub distinct : Distinct ys

-- The nodes approved after one was removed: those before without it.
pub record WithoutNode (xs ys : List Approval) (serial mac : List ℕ) : Type 0 where
  pub had : contains xs serial mac ≡ true
  pub gone : contains ys serial mac ≡ false
  pub keeps :
      (serial' mac' : List ℕ)
      → Other serial mac serial' mac'
      → contains ys serial' mac' ≡ contains xs serial' mac'
  pub bounded : length ys ≤ length xs
  pub distinct : Distinct ys

Distinct-append :
    (xs : List Approval) (serial mac : List ℕ)
    → Distinct xs
    → contains xs serial mac ≡ false
    → Distinct (xs ++ record { serial = serial; sta_mac = mac } ∷ [])
unfolding contains
Distinct-append [] serial mac d new = (refl, tt)
Distinct-append (x ∷ xs) serial mac (here, d) new = (
  ground (
    arith,
    contains-append xs (record { serial = serial; sta_mac = mac }) x.serial x.sta_mac,
    same_node_comm x serial mac,
  ),
  Distinct-append xs serial mac d (ground arith),
)

module _ (nvs : Nvs Place ApprovalRecord) (crc : ℕ → ℕ → List Approval → ℕ) where
  -- The list and the generation stay as they were.
  abbrev pub Unchanged : Approvals nvs crc → Approvals nvs crc → Type 0
  Unchanged s s' = (s'.list ≡ s.list) × (s'.generation ≡ s.generation)

  -- What setting and committing the record of the list with the next generation answers.
  abbrev set_answer : Approvals nvs crc → List Approval → nvs.Store × Bool
  set_answer s list =
      nvs.set_blob s.store (place_of (s.generation + 1)) (record_of nvs crc list (s.generation + 1))

  abbrev commit_answer : Approvals nvs crc → List Approval → Bool
  commit_answer s list = (nvs.commit (set_answer s list).0).1

  -- The storage takes the list, and it fails to take it.
  abbrev pub Takes : Approvals nvs crc → List Approval → Type 0
  Takes s list =
      (nvs.opens s.store ≡ true) × ((set_answer s list).1 ≡ true) × (commit_answer s list ≡ true)

  abbrev pub Fails : Approvals nvs crc → List Approval → Type 0
  Fails s list =
      (nvs.opens s.store ≡ false) ⊎ ((set_answer s list).1 ≡ false) ⊎ (commit_answer s list ≡ false)

  -- What follows from each answer of storing a list.
  abbrev pub Saved : Approvals nvs crc → List Approval → Approvals nvs crc → Status → Type 0
  Saved s list s' esp_ok =
      (s.generation ≢ 4294967295)
      × Takes s list
      × (s'.list ≡ list)
      × (s'.generation ≡ s.generation + 1)
  Saved s list s' invalid_state = (s.generation ≡ 4294967295) × Unchanged s s'
  Saved s list s' failed = (s.generation ≢ 4294967295) × Fails s list × Unchanged s s'
  Saved s list s' _ = ⊥

  save_approvals-Saved :
      (s : Approvals nvs crc) (list : List Approval)
      → let (s', status) = save_approvals nvs crc s list in Saved s list s' status
  unfolding save_approvals
  save_approvals-Saved s list =
      if-both Outcome (s.generation == 4294967295) _ _
        (λ last. (ground (arith, last), (refl, refl)))
        (λ more.
          if-both Outcome (not (nvs.opens s.store)) _ _
            (λ shut. (ground (arith, more), inl (ground (arith, shut)), (refl, refl)))
            (λ there.
              if-both Outcome (not (set_answer s list).1) _ _
                (λ bad. (ground (arith, more), inr (inl (ground (arith, bad))), (refl, refl)))
                (λ good.
                  if-both Outcome (not (commit_answer s list)) _ _
                    (λ bad. (ground (arith, more), inr (inr (ground (arith, bad))), (refl, refl)))
                    (λ done. (
                      ground (arith, more),
                      (ground (arith, there), ground (arith, good), ground (arith, done)),
                      refl,
                      refl,
                    )))))
    where
      Outcome : Approvals nvs crc × Status → Type 0
      Outcome r = Saved s list r.0 r.1

  abbrev pub FitsSerial : List ℕ → Type 0
  FitsSerial serial = (1 ≤ length serial) × (length serial ≤ 24)

  abbrev pub with_node : Approvals nvs crc → List ℕ → List ℕ → List Approval
  with_node s serial mac = s.list ++ record { serial = serial; sta_mac = mac } ∷ []

  -- What `airlink_mesh_approval_add` answers, and what that says of the list before and after.
  abbrev pub Added : Approvals nvs crc → List ℕ → List ℕ → Approvals nvs crc → Status → Type 0
  Added s serial mac s' esp_ok =
      FitsSerial serial
      × WithNode s.list s'.list serial mac
      × (((contains s.list serial mac ≡ true) × (s' ≡ s))
          ⊎ ((contains s.list serial mac ≡ false)
              × (length s.list < 8)
              × Saved s (with_node s serial mac) s' esp_ok))
  Added s serial mac s' invalid_arg = (s' ≡ s) × ((length serial ≡ 0) ⊎ (24 < length serial))
  Added s serial mac s' no_mem =
      FitsSerial serial × (s' ≡ s) × (contains s.list serial mac ≡ false) × (length s.list ≡ 8)
  Added s serial mac s' invalid_state =
      FitsSerial serial
      × (contains s.list serial mac ≡ false)
      × (length s.list < 8)
      × Saved s (with_node s serial mac) s' invalid_state
  Added s serial mac s' failed =
      FitsSerial serial
      × (contains s.list serial mac ≡ false)
      × (length s.list < 8)
      × Saved s (with_node s serial mac) s' failed
  Added s serial mac s' not_found = ⊥

  Saved-Added :
      (s s' : Approvals nvs crc) (serial mac : List ℕ) (status : Status)
      → FitsSerial serial
      → Distinct s.list
      → length s.list < 8
      → contains s.list serial mac ≡ false
      → Saved s (with_node s serial mac) s' status
      → Added s serial mac s' status
  Saved-Added s s' serial mac esp_ok fits d room new (g, takes, same, next) = (
    fits,
    subst (λ l. WithNode s.list l serial mac) (sym same)
        (record {
          has = ground (arith, contains-append s.list added serial mac, same_node_refl serial mac);
          keeps = λ serial' mac' h. ground (arith, contains-append s.list added serial' mac', h);
          bounded = omega (arith, length-append s.list (added ∷ []));
          distinct = Distinct-append s.list serial mac d new;
        }),
    inr (new, room, (g, takes, same, next)),
  )
    where
      added : Approval
      added = record { serial = serial; sta_mac = mac }
  Saved-Added s s' serial mac invalid_state fits d room new u = (fits, new, room, u)
  Saved-Added s s' serial mac failed fits d room new u = (fits, new, room, u)
  Saved-Added s s' serial mac invalid_arg fits d room new u = elim u [ ]
  Saved-Added s s' serial mac no_mem fits d room new u = elim u [ ]
  Saved-Added s s' serial mac not_found fits d room new u = elim u [ ]

  -- On a list of at most eight different nodes: INVALID_ARG means a serial that is empty or longer
  -- than 24 bytes, every other answer one of 1 to 24. Success leaves exactly the nodes approved
  -- before and this one, still at most eight and different: either the node was approved and
  -- nothing changed, or it was not, there was room, the generation was not used up and rose by one,
  -- and the storage took the new list: it was opened, the record was set and committed. NO_MEM is a
  -- full list, INVALID_STATE a used-up generation, and an error of the storage that opening, setting
  -- or committing failed; these are answered for a node that was not approved, and leave the list
  -- and the generation as they were.
  pub approval_add_lem :
      (s : Approvals nvs crc) (serial mac : List ℕ)
      → Distinct s.list
      → length s.list ≤ 8
      → let (s', status) = approval_add nvs crc s serial mac in Added s serial mac s' status
  unfolding approval_add
  approval_add_lem s serial mac d le =
      elim (Bool-cases (length serial == 0 || ltb 24 (length serial))) [
        | inl bad ↦ rw bad (refl, ground arith)
        | inr good ↦ rw good elim (Bool-cases (contains s.list serial mac)) [
          | inl there ↦ rw there (
            ground (arith, good),
            record { has = there; keeps = λ serial' mac' h. refl; bounded = le; distinct = d },
            inl (there, refl),
          )
          | inr new ↦ rw new elim (Bool-cases (leb 8 (length s.list))) [
            | inl full ↦ rw full (ground (arith, good), refl, new, ground arith)
            | inr room ↦ rw room (
                Saved-Added s _ serial mac _ (ground (arith, good)) d (ground arith) new
                  (save_approvals-Saved s _))
          ]
        ]
      ]

  -- What `airlink_mesh_approval_remove` answers, and what that says of the list.
  abbrev pub Taken : Approvals nvs crc → List ℕ → List ℕ → Approvals nvs crc → Status → Type 0
  Taken s serial mac s' esp_ok = WithoutNode s.list s'.list serial mac × Saved s s'.list s' esp_ok
  Taken s serial mac s' not_found = (s' ≡ s) × (contains s.list serial mac ≡ false)
  Taken s serial mac s' invalid_state =
      (contains s.list serial mac ≡ true) × (s.generation ≡ 4294967295) × Unchanged s s'
  Taken s serial mac s' failed =
      (contains s.list serial mac ≡ true)
      × (list : List Approval) × WithoutNode s.list list serial mac
      × Saved s list s' failed
  Taken s serial mac s' _ = ⊥

  Saved-Taken :
      (s s' : Approvals nvs crc) (serial mac : List ℕ) (list : List Approval) (status : Status)
      → Removed s.list serial mac (some list)
      → Saved s list s' status
      → Taken s serial mac s' status
  Saved-Taken s s' serial mac list esp_ok (had, gone, keeps, shorter, distinct) saved =
      subst (λ l. WithoutNode s.list l serial mac × Saved s l s' esp_ok) (sym saved.2)
        (
          record { had = had; gone = gone; keeps = keeps; bounded = shorter; distinct = distinct },
          saved,
        )
  Saved-Taken s s' serial mac list invalid_state r u = (r.0, u.0, u.1)
  Saved-Taken s s' serial mac list failed (had, gone, keeps, shorter, distinct) u = (
    had,
    list,
    record { had = had; gone = gone; keeps = keeps; bounded = shorter; distinct = distinct },
    u,
  )
  Saved-Taken s s' serial mac list invalid_arg r u = elim u [ ]
  Saved-Taken s s' serial mac list no_mem r u = elim u [ ]
  Saved-Taken s s' serial mac list not_found r u = elim u [ ]

  removal :
      (s : Approvals nvs crc) (serial mac : List ℕ) (o : Option (List Approval))
      → Removed s.list serial mac o
      → let (s', status) = elim o as (λ _. Approvals nvs crc × Status) [
        | none ↦ (s, not_found)
        | some list ↦ save_approvals nvs crc s list
      ] in
        Taken s serial mac s' status
  removal s serial mac none r = (refl, r)
  removal s serial mac (some list) r =
      Saved-Taken s _ serial mac list _ r (save_approvals-Saved s list)

  -- On a list of different nodes: NOT_FOUND means a node that is not approved, and changes nothing,
  -- every other answer one that was. Success leaves exactly the others of the nodes approved before,
  -- the generation was not used up and rose by one, and the storage took the new list: it was
  -- opened, the record was set and committed. INVALID_STATE is a used-up generation, and an error of
  -- the storage that opening, setting or committing the list without the node failed; both leave
  -- the list and the generation as they were.
  pub approval_remove_lem :
      (s : Approvals nvs crc) (serial mac : List ℕ)
      → Distinct s.list
      → let (s', status) = approval_remove nvs crc s serial mac in Taken s serial mac s' status
  unfolding approval_remove
  approval_remove_lem s serial mac d =
      removal s serial mac (remove_first s.list serial mac)
        (remove_first-Removed s.list serial mac d)
