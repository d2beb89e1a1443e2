-- ===== src/Config/Strings/Copies.antt =====
-- What a copied string is.
use air_link.Base.{
  ℕ, zero, suc, ◌≤◌, ◌<◌, List, [], ◌∷◌, ◌≡◌, refl, sym, ap, ◌∙◌, arith, true, not, ◌&&◌, ◌||◌, ltb,
  ◌==◌, Bool-cases, inl, inr, length, get_or,
}
use air_link.Config.Validate.{strnlen}
use air_link.Config.Provision.{visible}
use air_link.Config.Strings.{
  characters, strlcpy, behind, serial_character, serial_characters, serial_valid,
  identity_password_valid,
}
use air_link.Config.Provision.Password.{strnlen-visible}

-- A string that fits is copied whole.
pub characters-strlcpy :
    (size : ℕ) (array text : List ℕ)
    → strnlen text < size
    → characters (strlcpy size array text) ≡ characters text
unfolding characters strlcpy strnlen
characters-strlcpy zero array text h = absurd (omega arith)
characters-strlcpy (suc zero) array [] h = refl
characters-strlcpy (suc zero) array (c ∷ text) h = ground (arith, h)
characters-strlcpy (suc (suc n)) array [] h = refl
characters-strlcpy (suc (suc n)) array (c ∷ text) h = elim (Bool-cases (c == 0)) [
  | inl ends ↦ rw ends refl
  | inr more ↦
      rw (more, more)
        (ap (λ r. c ∷ r) (characters-strlcpy (suc n) (behind array) text (ground (arith, h, more))))
]

-- What a string is said by its characters.
pub length-characters : (text : List ℕ) → length (characters text) ≡ strnlen text
unfolding characters strnlen
length-characters [] = refl
length-characters (c ∷ text) = elim (Bool-cases (c == 0)) [
  | inl ends ↦ rw ends refl
  | inr more ↦ rw more (ap suc (length-characters text))
]

serial_characters_lem :
    (text : List ℕ) → serial_characters (characters text) ≡ serial_characters text
unfolding characters serial_characters
serial_characters_lem [] = refl
serial_characters_lem (c ∷ text) = elim (Bool-cases (c == 0)) [
  | inl ends ↦ rw ends refl
  | inr more ↦ rw (more, more) (ap (λ r. serial_character c && r) (serial_characters_lem text))
]

visible_lem :
    (text : List ℕ) → visible (strnlen text) (characters text) ≡ visible (strnlen text) text
unfolding characters strnlen visible
visible_lem [] = refl
visible_lem (c ∷ text) = elim (Bool-cases (c == 0)) [
  | inl ends ↦ rw ends refl
  | inr more ↦ rw more (ap (λ r. not (ltb c 0x21 || ltb 0x7e c) && r) (visible_lem text))
]

get_or-strnlen : (text : List ℕ) → get_or text (strnlen text) 0 ≡ 0
unfolding strnlen
get_or-strnlen [] = refl
get_or-strnlen (c ∷ text) = elim (Bool-cases (c == 0)) [
  | inl ends ↦ rw ends (ground (arith, ends))
  | inr more ↦ rw more (get_or-strnlen text)
]

pub strnlen-strlcpy :
    (size : ℕ) (array text : List ℕ)
    → strnlen text < size
    → strnlen (strlcpy size array text) ≡ strnlen text
strnlen-strlcpy size array text h =
    sym (length-characters (strlcpy size array text))
    ∙ ap length (characters-strlcpy size array text h)
    ∙ length-characters text

-- A copy of a valid serial number or password is valid.
pub serial_valid-strlcpy :
    (size : ℕ) (array text : List ℕ)
    → strnlen text < size
    → serial_valid (strlcpy size array text) ≡ serial_valid text
unfolding serial_valid
serial_valid-strlcpy size array text h = rw (strnlen-strlcpy size array text h) (
    ap (λ r. not (strnlen text == 0 || ltb 24 (strnlen text)) && r)
      (sym (serial_characters_lem (strlcpy size array text))
        ∙ ap serial_characters (characters-strlcpy size array text h)
        ∙ serial_characters_lem text))

pub identity_password_valid-lengths :
    (password : List ℕ) (n : ℕ)
    → identity_password_valid password n ≡ true
    → (strnlen password ≡ n) × (12 ≤ n) × (n ≤ 63)
unfolding identity_password_valid
identity_password_valid-lengths password n h = (
  strnlen-visible n password (ground (arith, h)) (ground (arith, h)),
  ground (arith, h),
  ground (arith, h),
)

pub identity_password_valid-strlcpy :
    (size : ℕ) (array text : List ℕ)
    → strnlen text < size
    → identity_password_valid text (strnlen text) ≡ true
    → identity_password_valid (strlcpy size array text) (strnlen (strlcpy size array text)) ≡ true
unfolding identity_password_valid
identity_password_valid-strlcpy size array text h v =
    let copy = strlcpy size array text in
    let same : strnlen copy ≡ strnlen text = strnlen-strlcpy size array text h in
    let seen : visible (strnlen copy) copy ≡ visible (strnlen text) text =
      sym (visible_lem copy)
      ∙ ap (λ n. visible n (characters copy)) same
      ∙ ap (visible (strnlen text)) (characters-strlcpy size array text h)
      ∙ visible_lem text in
    rw (seen, get_or-strnlen copy, same) (ground (arith, v))

pub serial_valid-lengths :
    (serial : List ℕ) → serial_valid serial ≡ true → (1 ≤ strnlen serial) × (strnlen serial ≤ 24)
unfolding serial_valid
serial_valid-lengths serial h = (ground (arith, h), ground (arith, h))
