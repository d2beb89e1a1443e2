-- ===== src/Config/Device/Tests.antt =====
-- The device's configuration on a flash that never fails.
use air_link.Base.{
  ℕ, ◌+◌, ◌<◌, List, [], ◌∷◌, ◌++◌, ◌≡◌, ◌≢◌, refl, arith, true, false, not, ◌||◌, Option, none,
  some, replicate, bytes_eq,
}
use air_link.MeshConfig.Nvs.{Nvs, Place, slot_a, slot_b, erased}
use air_link.Config.Validate.{strnlen, config_validate}
use air_link.Config.Strings.{
  same_string, characters, serial_valid, serial_characters, serial_character,
  identity_password_valid,
}
use air_link.Config.Defaults.{Entropy, default_config}
use air_link.Config.Store.{
  World, Blob, FactoryIdentity, flash_ready, is_ok, read_identity, write_identity, check_identity,
  load_defaults, selected, read_slot, check_slot, write_record, place_of, next_generation,
}
use air_link.Config.Provision.{visible}
use air_link.Config.Device.{
  Device, config_init, set_identity, flash_start, put_together, store_loaded, loaded_from,
  apply_identity, apply_provision, factory_reset, save_locked, differs,
}
use air_link.Config.Device.Sound.{Restored}
use air_link.Config.Device.Start.{
  Request, do_reset, do_set_identity, request, run, config_init-accepted, request-Restored,
}
use air_link.Config.Device.Identity.{Holds, set_identity-once}

abbrev Slots : Type 0
Slots = Option Blob × Option Blob

abbrev get : Slots → Place → Option Blob
get (a, b) slot_a = a
get (a, b) slot_b = b

abbrev set : Slots → Place → Option Blob → Slots
set (a, b) slot_a r = (r, b)
set (a, b) slot_b r = (a, r)

get-set : (s : Slots) (p : Place) (r : Option Blob) → get (set s p r) p ≡ r
get-set s slot_a r = refl
get-set s slot_b r = refl

get-set_other : (s : Slots) (p q : Place) (r : Option Blob) → q ≢ p → get (set s p r) q ≡ get s q
get-set_other s slot_a slot_a r ne = absurd (ne refl)
get-set_other s slot_a slot_b r ne = refl
get-set_other s slot_b slot_a r ne = refl
get-set_other s slot_b slot_b r ne = absurd (ne refl)

-- The blobs as they are read, and as they were committed last.
abbrev flash : Nvs Place Blob
flash = record {
  Store = Slots × Slots;
  opens = λ s. true;
  get_blob = λ s. get s.0;
  set_blob = λ s k r. ((set s.0 k (some r), s.1), true);
  erase_key = λ s k. ((set s.0 k none, s.1), erased);
  commit = λ s. ((s.0, s.0), true);
  restart = λ s. (s.1, s.1);
  get_blob-set_blob = λ s k r ok. get-set s.0 k (some r);
  get_blob-set_blob_other = λ s k j r ne. get-set_other s.0 k j (some r) ne;
  get_blob-erase_key_other = λ s k j ne. get-set_other s.0 k j none ne;
  get_blob-commit = λ s j. refl;
  get_blob-restart = λ s j ok. refl;
  get_blob-restart_again = λ s j. refl;
}

-- The blobs as they are read, and as they were committed last. Two keys of one kind are the same.
abbrev factory_flash : Nvs Unit FactoryIdentity
factory_flash = record {
  Store = Option FactoryIdentity × Option FactoryIdentity;
  opens = λ s. true;
  get_blob = λ s k. s.0;
  set_blob = λ s k r. ((some r, s.1), true);
  erase_key = λ s k. ((none, s.1), erased);
  commit = λ s. ((s.0, s.0), true);
  restart = λ s. (s.1, s.1);
  get_blob-restart = λ s j ok. refl;
  get_blob-restart_again = λ s j. refl;
  get_blob-set_blob = λ s k r ok. refl;
  get_blob-set_blob_other = λ s k j r ne. absurd (ne refl);
  get_blob-erase_key_other = λ s k j ne. absurd (ne refl);
  get_blob-commit = λ s j. refl;
}

abbrev world : World
world = record {
  slots = flash;
  identities = factory_flash;
  record_crc = λ m g c. m + g + c.can_node_id;
  record_v1_crc = λ m g c. m + g;
  identity_crc = λ m s p. m;
  provision_crc = λ m v n p. m;
  flash_init = λ s. (s, flash_ready);
  flash_erase = λ s. (s, true);
  identity_init = λ s. (s, true);
  mutex_made = true;
  partition_erased = true;
}

abbrev entropy : Entropy
entropy = record { mac_4 = 18; mac_5 = 171; random = λ n. n + 3 }

abbrev empty : Device world
empty = record {
  config = default_config (replicate 33 0) (replicate 65 0);
  generation = 0;
  slots = ((none, none), (none, none));
  identities = (none, none);
  provision = none;
}

-- "AL-01" and thirteen characters
abbrev serial : List ℕ
serial = 65 ∷ 76 ∷ 45 ∷ 48 ∷ 49 ∷ 0 ∷ []

abbrev password : List ℕ
password = replicate 13 120 ++ 0 ∷ []

abbrev resets : List Request
resets = do_reset entropy ∷ []

abbrev requests : List Request
requests = do_set_identity serial password ∷ do_reset entropy ∷ []

starts_ok : is_ok (config_init world empty entropy).1 ≡ true
unfolding config_init flash_start put_together store_loaded loaded_from apply_identity
    apply_provision read_identity check_identity load_defaults selected read_slot check_slot
    write_record is_ok place_of
starts_ok = refl

saves_ok :
    is_ok
      (request world (run world (config_init world empty entropy).0 resets) (do_reset entropy)).1
    ≡ true
unfolding config_init flash_start put_together store_loaded loaded_from apply_identity
    apply_provision read_identity check_identity load_defaults selected read_slot check_slot
    write_record is_ok place_of run request factory_reset save_locked next_generation
saves_ok = refl

generation_below : (run world (config_init world empty entropy).0 resets).generation < 4294967295
unfolding config_init flash_start put_together store_loaded loaded_from apply_identity
    apply_provision read_identity check_identity load_defaults selected read_slot check_slot
    write_record is_ok place_of run request factory_reset save_locked next_generation
generation_below = ground arith

config_init-accepted_example :
    config_validate (run world (config_init world empty entropy).0 requests).config ≡ true
config_init-accepted_example = config_init-accepted world empty entropy requests starts_ok

request-Restored_example :
    Restored world
      (request world (run world (config_init world empty entropy).0 resets) (do_reset entropy)).0
request-Restored_example =
    request-Restored world empty entropy resets (do_reset entropy) starts_ok generation_below
      saves_ok

set_ok : is_ok (set_identity world empty serial password).1 ≡ true
unfolding set_identity differs serial_valid strnlen serial_characters serial_character
    identity_password_valid visible read_identity check_identity write_identity save_locked
    write_record is_ok place_of next_generation
set_ok = refl

abbrev other_serial : List ℕ
other_serial = 65 ∷ 76 ∷ 0 ∷ []

differ : (not (same_string serial other_serial) || not (same_string password password)) ≡ true
unfolding same_string characters bytes_eq
differ = refl

set_identity-once_example :
    let after = (set_identity world empty serial password).0 in
    Holds world (read_identity world after.identities) serial password
    × (is_ok (set_identity world after other_serial password).1 ≡ false)
    × ((set_identity world after other_serial password).0 ≡ after)
set_identity-once_example =
    set_identity-once world empty serial password other_serial password set_ok refl differ
