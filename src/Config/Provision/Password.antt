-- ===== src/Config/Provision/Password.antt =====
-- An accepted password as a C string.
use air_link.Base.{ℕ, zero, suc, ◌≤◌, List, [], ◌∷◌, ◌≡◌, refl, arith, true, get_or}
use air_link.Config.Validate.{strnlen}
use air_link.Config.Provision.{ProvisionRecord, visible, password_valid, record_valid}

pub strnlen-visible :
    (n : ℕ) (password : List ℕ)
    → visible n password ≡ true
    → get_or password n 0 ≡ 0
    → strnlen password ≡ n
unfolding visible strnlen
strnlen-visible zero [] v e = refl
strnlen-visible zero (c ∷ rest) v e = ground arith
strnlen-visible (suc n) [] v e = absurd (ground arith)
strnlen-visible (suc n) (c ∷ rest) v e = ground (arith, strnlen-visible n rest)

-- The password of an accepted provisioning record, read as a C string, has exactly the announced
-- length, which is from 12 to 63: a length that the device's configuration accepts.
pub record_valid-strnlen :
    (crc : ℕ → ℕ → ℕ → List ℕ → ℕ) (r : ProvisionRecord)
    → record_valid crc r ≡ true
    → (strnlen r.password ≡ r.password_length)
      × (12 ≤ strnlen r.password)
      × (strnlen r.password ≤ 63)
unfolding record_valid password_valid
record_valid-strnlen crc r h =
    let same : strnlen r.password ≡ r.password_length =
      strnlen-visible r.password_length r.password (ground arith) (ground arith) in
    (same, ground arith, ground arith)
