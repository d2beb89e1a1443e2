-- ===== src/Config/Provision.antt =====
-- components/airlink_config/airlink_provision.c: the record of a one-time password.
pub mod Password
pub mod Tests
use air_link.Base.{
  ℕ, zero, suc, ◌+◌, List, [], ◌∷◌, Bool, true, false, not, ◌&&◌, ◌||◌, ltb, leb, ◌==◌,
  if◌then◌else◌,
}
use air_link.Base.{get_or}

abbrev pub provision_magic : ℕ
provision_magic = 0x414c_5057

-- `airlink_provision_record_t`; the password is the array of 65 characters.
pub record ProvisionRecord : Type 0 where
  pub magic : ℕ
  pub version : ℕ
  pub password_length : ℕ
  pub password : List ℕ
  pub crc32 : ℕ

-- The loop of `airlink_provision_password_valid` over that many characters.
unfoldable pub visible : ℕ → List ℕ → Bool
visible zero password = true
visible (suc n) [] = false
visible (suc n) (c ∷ rest) = not (ltb c 0x21 || ltb 0x7e c) && visible n rest

-- `airlink_provision_password_valid`, `password` not NULL.
pub password_valid : List ℕ → ℕ → Bool
password_valid password length =
    not (ltb length 12 || ltb 63 length) && visible length password && get_or password length 0 == 0

-- `airlink_provision_record_valid`, `record` not NULL, with `airlink_provision_record_crc` of the
-- record as the function `crc` of the fields in front of the checksum.
pub record_valid : (ℕ → ℕ → ℕ → List ℕ → ℕ) → ProvisionRecord → Bool
record_valid crc r =
    not (
      not (r.magic == provision_magic)
      || not (r.version == 1)
      || leb 65 r.password_length
      || not (r.crc32 == crc r.magic r.version r.password_length r.password))
    && password_valid r.password r.password_length
