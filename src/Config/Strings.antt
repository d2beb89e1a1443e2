-- ===== src/Config/Strings.antt =====
-- The C strings of components/airlink_config/airlink_config.c: arrays of characters up to a 0.
pub mod Copies
use air_link.Base.{
  ℕ, zero, suc, ◌+◌, List, [], ◌∷◌, Bool, not, ◌&&◌, ◌||◌, leb, ltb, ◌==◌, if◌then◌else◌, bytes_eq,
}
use air_link.Config.Validate.{strnlen}
use air_link.Config.Provision.{visible}
use air_link.Base.{get_or, true}

-- The characters in front of the first 0.
unfoldable pub characters : List ℕ → List ℕ
characters [] = []
characters (c ∷ rest) = let behind = characters rest in if c == 0 then [] else c ∷ behind

-- `strcmp`, whether it is 0.
unfoldable pub same_string : List ℕ → List ℕ → Bool
same_string a b = bytes_eq (characters a) (characters b)

-- The array behind its first element.
abbrev pub behind : List ℕ → List ℕ
behind [] = []
behind (c ∷ rest) = rest

-- `strlcpy` to an array of that size, which keeps what stands behind the copy.
unfoldable pub strlcpy : ℕ → List ℕ → List ℕ → List ℕ
strlcpy zero array text = array
strlcpy (suc zero) array text = 0 ∷ behind array
strlcpy (suc (suc n)) array [] = 0 ∷ behind array
strlcpy (suc (suc n)) array (c ∷ text) =
    let later = strlcpy (suc n) (behind array) text in
    if c == 0 then 0 ∷ behind array else c ∷ later

-- The test on a character of `serial_valid`: `isalnum`, '-', '_' or '.'.
unfoldable pub serial_character : ℕ → Bool
serial_character c =
    (leb 48 c && leb c 57)
    || (leb 65 c && leb c 90)
    || (leb 97 c && leb c 122)
    || c == 45
    || c == 95
    || c == 46

-- The loop of `serial_valid`.
unfoldable pub serial_characters : List ℕ → Bool
serial_characters [] = true
serial_characters (c ∷ rest) = c == 0 || (serial_character c && serial_characters rest)

-- `serial_valid`, `serial` not NULL.
unfoldable pub serial_valid : List ℕ → Bool
serial_valid serial =
    not (strnlen serial == 0 || ltb 24 (strnlen serial)) && serial_characters serial

-- `identity_password_valid`, `password` not NULL. Its loop is that of
-- `airlink_provision_password_valid`.
unfoldable pub identity_password_valid : List ℕ → ℕ → Bool
identity_password_valid password length =
    not (ltb length 12 || ltb 63 length) && visible length password && get_or password length 0 == 0
