-- ===== src/Config/Defaults/Accepted.antt =====
-- The configuration of a device without a record is an accepted one.
use air_link.Base.{
  ℕ, zero, suc, ◌+◌, ◌/◌, ◌%◌, ◌≤◌, ◌<◌, List, [], ◌∷◌, ◌++◌, Bool, ◌≡◌, refl, ap, ◌∙◌, arith, true,
  ◌&&◌, leb, ◌==◌, length, replicate, get_or, Bool-cases, inl, inr,
}
use air_link.Config.Validate.{
  strnlen, DeviceConfig, config_validate, bridge_valid, nodes_valid, transport_valid, numbers_valid,
  strings_valid, modes_valid, baud_valid, can_bitrate_valid,
}
use air_link.Config.Validate.Accepts.{groups}
use air_link.Config.Strings.Copies.{strnlen-strlcpy}
use air_link.Config.Defaults.{
  Entropy, alphabet, random_characters, random_password, upper_digit, hex_byte, default_ssid,
  default_config, with_serial, with_password,
}

-- No character is 0.
positives : List ℕ → Bool
positives [] = true
positives (c ∷ text) = leb 1 c && positives text

-- Characters without a 0, then zeros.
strnlen-append :
    (text : List ℕ) (n : ℕ) → positives text ≡ true → strnlen (text ++ replicate n 0) ≡ length text
unfolding strnlen positives
strnlen-append [] zero h = refl
strnlen-append [] (suc n) h = refl
strnlen-append (c ∷ text) n h = elim (Bool-cases (c == 0)) [
  | inl ends ↦ absurd (ground (arith, ends, h))
  | inr more ↦ rw more (ap suc (strnlen-append text n (ground (arith, h))))
]

get_or-positive :
    (text : List ℕ) (i : ℕ)
    → positives text ≡ true
    → i < length text
    → leb 1 (get_or text i 0) ≡ true
unfolding positives
get_or-positive [] i h lt = absurd (omega arith)
get_or-positive (c ∷ text) zero h lt = ground (arith, h)
get_or-positive (c ∷ text) (suc i) h lt = get_or-positive text i (ground (arith, h)) (omega arith)

letter_positive : (n : ℕ) → leb 1 (get_or alphabet (n % 57) 0) ≡ true
unfolding positives
letter_positive n = get_or-positive alphabet (n % 57) refl (omega arith)

random_characters-positive :
    (random : ℕ → ℕ) (n i : ℕ)
    → (positives (random_characters random n i) ≡ true)
      × (length (random_characters random n i) ≡ n)
unfolding random_characters positives
random_characters-positive random zero i = (refl, refl)
random_characters-positive random (suc n) i =
    let (p, l) = random_characters-positive random n (i + 1) in
    (rw (letter_positive (random i)) p, ap suc l)

strnlen-random_password : (random : ℕ → ℕ) → strnlen (random_password random) ≡ 16
unfolding random_password
strnlen-random_password random =
    let (p, l) = random_characters-positive random 16 0 in
    strnlen-append (random_characters random 16 0) 49 p ∙ l

upper_positive : (n : ℕ) → leb 1 (upper_digit n) ≡ true
unfolding upper_digit
upper_positive n = ground arith

strnlen-default_ssid : (e : Entropy) → strnlen (default_ssid e) ≡ 21
unfolding default_ssid hex_byte positives
strnlen-default_ssid e =
    strnlen-append
      ((70 ∷ 108 ∷ 121 ∷ 105 ∷ 110 ∷ 103 ∷ 82 ∷ 67 ∷ 45 ∷ 65 ∷ 105 ∷ 114 ∷ 76 ∷ 105 ∷ 110 ∷ 107 ∷ 45
          ∷ [])
        ++ hex_byte e.mac_4
        ++ hex_byte e.mac_5)
      12
      (rw
        (
          upper_positive (e.mac_4 / 16 % 16),
          upper_positive (e.mac_4 % 16),
          upper_positive (e.mac_5 / 16 % 16),
          upper_positive (e.mac_5 % 16),
        )
        refl)

default_config_valid :
    (ssid password : List ℕ)
    → strnlen ssid ≡ 21
    → strnlen password ≡ 16
    → config_validate (default_config ssid password) ≡ true
unfolding default_config config_validate numbers_valid bridge_valid nodes_valid transport_valid
    strings_valid modes_valid baud_valid can_bitrate_valid strnlen
default_config_valid ssid password s p = rw (s, p) refl

pub with_serial-valid :
    (config : DeviceConfig) (serial : List ℕ)
    → config_validate config ≡ true
    → config_validate (with_serial config serial) ≡ true
unfolding with_serial config_validate numbers_valid bridge_valid nodes_valid transport_valid
    strings_valid modes_valid
with_serial-valid config serial h = h

strings-with_password :
    (config : DeviceConfig) (password : List ℕ)
    → 12 ≤ strnlen password
    → strnlen password ≤ 63
    → strings_valid config.v1 ≡ true
    → strings_valid (with_password config password).v1 ≡ true
unfolding strings_valid with_password
strings-with_password config password low high h =
    rw
      (
        strnlen-strlcpy 65 config.v1.ap_password password (omega arith),
        strnlen-strlcpy 65 config.v1.admin_password password (omega arith),
      )
      (ground (arith, low, high, h))

all_true :
    (a b c d e f : Bool)
    → (a ≡ true) × (b ≡ true) × (c ≡ true) × (d ≡ true) × (e ≡ true) × (f ≡ true)
    → (a && b && c && d && e && f) ≡ true
all_true a b c d e f h = ground (arith, h)

-- A password of an allowed length keeps a configuration accepted.
pub with_password-valid :
    (config : DeviceConfig) (password : List ℕ)
    → 12 ≤ strnlen password
    → strnlen password ≤ 63
    → config_validate config ≡ true
    → config_validate (with_password config password) ≡ true
unfolding with_password config_validate numbers_valid bridge_valid nodes_valid transport_valid
    modes_valid
with_password-valid config password low high h =
    let (n, b, t, c, s, m) = groups config h in
    all_true _ _ _ _ _ _ (n, b, t, c, strings-with_password config password low high s, m)

pub default-valid :
    (e : Entropy)
    → config_validate (default_config (default_ssid e) (random_password e.random)) ≡ true
default-valid e =
    default_config_valid _ _ (strnlen-default_ssid e) (strnlen-random_password e.random)
