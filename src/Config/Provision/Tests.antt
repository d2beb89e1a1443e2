-- ===== src/Config/Provision/Tests.antt =====
-- A concrete provisioning record.
use air_link.Base.{ℕ, ◌+◌, ◌≤◌, List, ◌++◌, ◌≡◌, refl, true, replicate}
use air_link.Config.Validate.{strnlen}
use air_link.Config.Provision.{ProvisionRecord, visible, password_valid, record_valid}
use air_link.Config.Provision.Password.{record_valid-strnlen}

abbrev sum : ℕ → ℕ → ℕ → List ℕ → ℕ
sum = λ magic version length password. magic + version + length

abbrev twelve : ProvisionRecord
twelve = record {
  magic = 0x414c_5057;
  version = 1;
  password_length = 12;
  password = replicate 12 97 ++ replicate 53 0;
  crc32 = sum 0x414c_5057 1 12 (replicate 12 97 ++ replicate 53 0);
}

twelve_valid : record_valid sum twelve ≡ true
unfolding record_valid password_valid visible
twelve_valid = refl

record_valid-strnlen_example :
    (strnlen twelve.password ≡ 12) × (12 ≤ strnlen twelve.password) × (strnlen twelve.password ≤ 63)
record_valid-strnlen_example = record_valid-strnlen sum twelve twelve_valid
