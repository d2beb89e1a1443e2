-- ===== src/MeshConfig/Slots/Sound.antt =====
-- Every sequence of calls on the stored configuration.
use air_link.Base.{
  ℕ, ◌+◌, ◌≤◌, ◌<◌, List, [], ◌∷◌, ◌≡◌, refl, ap, ◌∙◌, arith, true, not, ◌||◌, ◌==◌, Option, none,
  some,
}
use air_link.Base.{if-both, Bool-cases, inl, inr, leb}
use air_link.MeshConfig.Nvs.{
  Nvs, Status, esp_ok, invalid_arg, invalid_state, no_mem, not_found, failed,
}
use air_link.MeshConfig.Validate.{MeshConfig, validate, defaults}
use air_link.MeshConfig.Validate.Accepts.{validate-none, defaults_valid}
use air_link.MeshConfig.Slots.{
  ConfigKey, ConfigRecord, DecodedConfig, newer, Stored, check_config, read_config,
}
use air_link.MeshConfig.Slots.{
  loaded_config, load_config, installed, config_save, config_stage, abort_staged, then_abort,
}
use air_link.MeshConfig.Slots.{
  install_staged, commit_staged, config_reset, mesh_a, mesh_b, pending_a, pending_b,
}

-- A call that may change the stored configuration, with the bridge role that it finds.
pub data Request : Type 0 where
  do_save : ℕ → MeshConfig → Request
  do_stage : ℕ → MeshConfig → ℕ → Request
  do_commit : Request
  do_abort : Request
  do_reset : ℕ → Request

-- What a slot gives has been validated.
abbrev ValidSlot : Option DecodedConfig → Type 0
ValidSlot none = Unit
ValidSlot (some d) = validate d.config none ≡ true

newer-ValidSlot : (a b : Option DecodedConfig) → ValidSlot a → ValidSlot b → ValidSlot (newer a b)
unfolding newer
newer-ValidSlot none b p q = q
newer-ValidSlot (some a) none p q = p
newer-ValidSlot (some a) (some b) p q = elim (Bool-cases (leb b.generation a.generation)) [
  | inl first ↦ rw first p
  | inr second ↦ rw second q
]

module _ (nvs : Nvs ConfigKey ConfigRecord) (crc : ℕ → ℕ → MeshConfig → ℕ) where
  check-ValidSlot : (o : Option ConfigRecord) → ValidSlot (check_config nvs crc o)
  unfolding check_config
  check-ValidSlot none = tt
  check-ValidSlot (some r) =
      elim (Bool-cases (
        not (r.magic == 0x414c_4d43)
        || not (r.crc32 == crc r.magic r.generation r.config)
        || not (validate r.config none))) [
          | inl bad ↦ rw bad tt
          | inr good ↦ rw good (ground (arith, good))
        ]

  -- The generation never falls, only a new generation brings another configuration, and a
  -- configuration that was valid is followed by one.
  pub record Sound (s t : Stored nvs crc) : Type 0 where
    pub grows : s.generation ≤ t.generation
    pub same : t.generation ≡ s.generation → t.config ≡ s.config
    pub valid : validate s.config none ≡ true → validate t.config none ≡ true

  Sound-same :
      (s t : Stored nvs crc) → t.generation ≡ s.generation → t.config ≡ s.config → Sound s t
  Sound-same s t g c = record {
    grows = omega arith;
    same = λ _. c;
    valid = λ v. ap (λ x. validate x none) c ∙ v;
  }

  Sound-trans : (s t u : Stored nvs crc) → Sound s t → Sound t u → Sound s u
  Sound-trans s t u p q = record {
    grows = omega (arith, p.grows, q.grows);
    same = λ e. q.same (omega (arith, p.grows, q.grows)) ∙ p.same (omega (arith, p.grows, q.grows));
    valid = λ v. q.valid (p.valid v);
  }

  installed-Sound :
      (s : Stored nvs crc) (config : MeshConfig) (g : ℕ) (w : nvs.Store × Status)
      → s.generation < g
      → validate config none ≡ true
      → Sound s (installed nvs crc s config g w).0
  unfolding installed
  installed-Sound s config g (store, esp_ok) lt v = record {
    grows = omega arith;
    same = λ e. absurd (omega arith);
    valid = λ _. v;
  }
  installed-Sound s config g (store, invalid_arg) lt v = Sound-same s _ refl refl
  installed-Sound s config g (store, invalid_state) lt v = Sound-same s _ refl refl
  installed-Sound s config g (store, no_mem) lt v = Sound-same s _ refl refl
  installed-Sound s config g (store, not_found) lt v = Sound-same s _ refl refl
  installed-Sound s config g (store, failed) lt v = Sound-same s _ refl refl

  abort-Sound : (s : Stored nvs crc) → Sound s (abort_staged nvs crc s).0
  unfolding abort_staged
  abort-Sound s = Sound-same s _ (ground arith) (ground arith)

  then_abort-Sound :
      (s : Stored nvs crc) (r : Stored nvs crc × Status)
      → Sound s r.0
      → Sound s (then_abort nvs crc r).0
  unfolding then_abort
  then_abort-Sound s (t, esp_ok) p = Sound-trans s t _ p (abort-Sound t)
  then_abort-Sound s (t, invalid_arg) p = p
  then_abort-Sound s (t, invalid_state) p = p
  then_abort-Sound s (t, no_mem) p = p
  then_abort-Sound s (t, not_found) p = p
  then_abort-Sound s (t, failed) p = p

  save-Sound :
      (s : Stored nvs crc) (bridge : ℕ) (config : MeshConfig)
      → Sound s (config_save nvs crc s bridge config).0
  unfolding config_save
  save-Sound s bridge config = elim (Bool-cases (validate config (some bridge))) [
    | inr bad ↦ rw bad (Sound-same s s refl refl)
    | inl good ↦ rw good elim (Bool-cases (s.generation == 4294967295)) [
      | inl last ↦ rw last (Sound-same s s refl refl)
      | inr more ↦ rw more (
          installed-Sound s config (s.generation + 1) _ (omega arith)
            (validate-none config bridge good))
    ]
  ]

  stage-Sound :
      (s : Stored nvs crc) (bridge : ℕ) (config : MeshConfig) (g : ℕ)
      → Sound s (config_stage nvs crc s bridge config g).0
  unfolding config_stage
  stage-Sound s bridge config g = Sound-same s _ (ground arith) (ground arith)

  install_staged-Sound :
      (s : Stored nvs crc) (o : Option DecodedConfig)
      → ValidSlot o
      → Sound s (install_staged nvs crc s o).0
  unfolding install_staged
  install_staged-Sound s none v = Sound-same s s refl refl
  install_staged-Sound s (some d) v = elim (Bool-cases (leb d.generation s.generation)) [
    | inl old ↦ rw old (Sound-same s s refl refl)
    | inr new ↦
        rw new (then_abort-Sound s _ (installed-Sound s d.config d.generation _ (ground arith) v))
  ]

  commit-Sound : (s : Stored nvs crc) → Sound s (commit_staged nvs crc s).0
  unfolding commit_staged read_config
  commit-Sound s = elim (Bool-cases (nvs.opens s.store)) [
    | inr shut ↦ rw shut (Sound-same s s refl refl)
    | inl there ↦ rw there (
        install_staged-Sound s _ (
          newer-ValidSlot _ _ (check-ValidSlot (nvs.get_blob s.store pending_a))
            (check-ValidSlot (nvs.get_blob s.store pending_b))))
  ]

  -- A sequence of calls.
  pub run_config : Stored nvs crc → List Request → Stored nvs crc
  run_config s [] = s
  run_config s (do_save bridge config ∷ rest) =
      run_config (config_save nvs crc s bridge config).0 rest
  run_config s (do_stage bridge config g ∷ rest) =
      run_config (config_stage nvs crc s bridge config g).0 rest
  run_config s (do_commit ∷ rest) = run_config (commit_staged nvs crc s).0 rest
  run_config s (do_abort ∷ rest) = run_config (abort_staged nvs crc s).0 rest
  run_config s (do_reset bridge ∷ rest) = run_config (config_reset nvs crc s bridge).0 rest

  run_config-Sound : (calls : List Request) (s : Stored nvs crc) → Sound s (run_config s calls)
  unfolding run_config config_reset
  run_config-Sound [] s = Sound-same s s refl refl
  run_config-Sound (do_save bridge config ∷ rest) s =
      Sound-trans s _ _ (save-Sound s bridge config) (run_config-Sound rest _)
  run_config-Sound (do_stage bridge config g ∷ rest) s =
      Sound-trans s _ _ (stage-Sound s bridge config g) (run_config-Sound rest _)
  run_config-Sound (do_commit ∷ rest) s =
      Sound-trans s _ _ (commit-Sound s) (run_config-Sound rest _)
  run_config-Sound (do_abort ∷ rest) s = Sound-trans s _ _ (abort-Sound s) (run_config-Sound rest _)
  run_config-Sound (do_reset bridge ∷ rest) s =
      Sound-trans s _ _ (save-Sound s bridge defaults) (run_config-Sound rest _)

  loaded-valid :
      (store : nvs.Store) (o : Option DecodedConfig)
      → ValidSlot o
      → validate (loaded_config nvs crc store o).config none ≡ true
  unfolding loaded_config
  loaded-valid store none v = defaults_valid
  loaded-valid store (some d) v = v

  load_config-valid :
      (store : nvs.Store)
      → (load_config nvs crc store).1 ≡ esp_ok
      → validate (load_config nvs crc store).0.config none ≡ true
  unfolding load_config read_config
  load_config-valid store =
      if-both (λ (r : Stored nvs crc × Status). r.1 ≡ esp_ok → validate r.0.config none ≡ true)
        (not (nvs.opens store)) _ _ (λ _ ok. absurd (cc))
        (λ _ _. loaded-valid store _ (
          newer-ValidSlot _ _ (check-ValidSlot (nvs.get_blob store mesh_a))
            (check-ValidSlot (nvs.get_blob store mesh_b))))

  -- Whatever the storage holds, after an `airlink_mesh_config_init` that answered ESP_OK and any
  -- sequence of saves, stagings, commits, aborts and resets, however their writes fail, the
  -- configuration in use passes the validation, its generation is not below the first one, and it
  -- is the first configuration if the generation is the first.
  pub run_config-valid :
      (store : nvs.Store) (calls : List Request)
      → (load_config nvs crc store).1 ≡ esp_ok
      → let first = (load_config nvs crc store).0 in
        let last = run_config first calls in (validate last.config none ≡ true) × Sound first last
  run_config-valid store calls ok =
      let sound = run_config-Sound calls (load_config nvs crc store).0 in
      (sound.valid (load_config-valid store ok), sound)
