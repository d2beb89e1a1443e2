-- ===== src/MeshConfig/Slots/Tests.antt =====
-- The stored configuration on a storage that never fails, and validation at concrete values.
use air_link.Base.{ℕ, ◌+◌, ◌∷◌, [], ◌≡◌, ◌≢◌, refl, true, Option, some, none, replicate, List}
use air_link.MeshConfig.Nvs.{Nvs, erased, esp_ok}
use air_link.MeshConfig.Validate.{MeshConfig, validate, defaults}
use air_link.MeshConfig.Slots.{
  ConfigKey, mesh_a, mesh_b, pending_a, pending_b, ConfigRecord, load_config,
}
use air_link.MeshConfig.Slots.Sound.{
  Request, do_save, do_stage, do_commit, do_abort, do_reset, Sound, run_config, run_config-valid,
}

abbrev Slot : Type 0
Slot = Option ConfigRecord

-- The four blobs.
abbrev Blobs : Type 0
Blobs = Slot × Slot × Slot × Slot

get : Blobs → ConfigKey → Slot
get (a, b, c, d) mesh_a = a
get (a, b, c, d) mesh_b = b
get (a, b, c, d) pending_a = c
get (a, b, c, d) pending_b = d

set : Blobs → ConfigKey → Slot → Blobs
set (a, b, c, d) mesh_a r = (r, b, c, d)
set (a, b, c, d) mesh_b r = (a, r, c, d)
set (a, b, c, d) pending_a r = (a, b, r, d)
set (a, b, c, d) pending_b r = (a, b, c, r)

get-set : (s : Blobs) (k : ConfigKey) (r : Slot) → get (set s k r) k ≡ r
unfolding get set
get-set s mesh_a r = refl
get-set s mesh_b r = refl
get-set s pending_a r = refl
get-set s pending_b r = refl

get-set_other : (s : Blobs) (k j : ConfigKey) (r : Slot) → j ≢ k → get (set s k r) j ≡ get s j
unfolding get set
get-set_other s mesh_a mesh_a r ne = absurd (ne refl)
get-set_other s mesh_a mesh_b r ne = refl
get-set_other s mesh_a pending_a r ne = refl
get-set_other s mesh_a pending_b r ne = refl
get-set_other s mesh_b mesh_a r ne = refl
get-set_other s mesh_b mesh_b r ne = absurd (ne refl)
get-set_other s mesh_b pending_a r ne = refl
get-set_other s mesh_b pending_b r ne = refl
get-set_other s pending_a mesh_a r ne = refl
get-set_other s pending_a mesh_b r ne = refl
get-set_other s pending_a pending_a r ne = absurd (ne refl)
get-set_other s pending_a pending_b r ne = refl
get-set_other s pending_b mesh_a r ne = refl
get-set_other s pending_b mesh_b r ne = refl
get-set_other s pending_b pending_a r ne = refl
get-set_other s pending_b pending_b r ne = absurd (ne refl)

-- The blobs as they are read, and as they were committed last.
abbrev flash : Nvs ConfigKey ConfigRecord
flash = record {
  Store = Blobs × Blobs;
  opens = λ s. true;
  get_blob = λ s. get s.0;
  set_blob = λ s k r. ((set s.0 k (some r), s.1), true);
  erase_key = λ s k. ((set s.0 k none, s.1), erased);
  commit = λ s. ((s.0, s.0), true);
  restart = λ s. (s.1, s.1);
  get_blob-set_blob = λ s k r ok. get-set s.0 k (some r);
  get_blob-set_blob_other = λ s k j r ne. get-set_other s.0 k j (some r) ne;
  get_blob-erase_key_other = λ s k j ne. get-set_other s.0 k j none ne;
  get_blob-commit = λ s j. refl;
  get_blob-restart = λ s j ok. refl;
  get_blob-restart_again = λ s j. refl;
}

abbrev sum : ℕ → ℕ → MeshConfig → ℕ
sum = λ magic generation config. magic + generation + config.channel

abbrev blank : Blobs × Blobs
blank = ((none, none, none, none), (none, none, none, none))

abbrev fleet : MeshConfig
fleet = record defaults {
  configured = 1;
  role = 2;
  network_id = replicate 6 1;
  fleet_key = replicate 32 1;
}

abbrev calls : List Request
calls = do_save 0 fleet ∷ do_stage 0 fleet 2 ∷ do_commit ∷ do_abort ∷ do_reset 0 ∷ []

opened : (load_config flash sum blank).1 ≡ esp_ok
unfolding load_config
opened = refl

run_config-valid_example :
    (validate (run_config flash sum (load_config flash sum blank).0 calls).config none ≡ true)
    × Sound flash sum
        (load_config flash sum blank).0
        (run_config flash sum (load_config flash sum blank).0 calls)
run_config-valid_example = run_config-valid flash sum blank calls opened
