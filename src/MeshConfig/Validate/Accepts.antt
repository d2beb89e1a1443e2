-- ===== src/MeshConfig/Validate/Accepts.antt =====
-- What an accepted configuration satisfies.
use air_link.Base.{
  sym, ℕ, ◌≤◌, ◌<◌, List, [], ◌∷◌, ◌≡◌, ◌≢◌, refl, arith, true, Option, none, some, ◌⊎◌, ltb, ◌==◌,
  ◌||◌, ap, ◌∙◌, All, Bool-cases, inl, inr, bytes_eq_refl, bytes_eq→eq, bytes_eq, bit_or,
}
use air_link.Mesh.Bits.{bit, bit-bit_or, bit-zero, zero_of_bits}
use air_link.MeshConfig.Validate.{
  MeshConfig, CountryRule, country_rules, allowed_by, is_upper, validate, defaults, channel_allowed,
  nonzero, or_all, create,
}

-- What the validation accepts with the device's configuration, it accepts without.
pub validate-none :
    (config : MeshConfig) (bridge : ℕ)
    → validate config (some bridge) ≡ true
    → validate config none ≡ true
unfolding validate
validate-none config bridge h = ground arith

pub defaults_valid : validate defaults none ≡ true
unfolding validate defaults
defaults_valid = refl

-- A rule lets in only the channels 1 to 14.
abbrev InBand : CountryRule → Type 0
InBand r = (1 ≤ r.first) × (r.last ≤ 14)

allowed_by-bounds :
    (rules : List CountryRule) (country : List ℕ) (channel : ℕ)
    → All InBand rules
    → allowed_by rules country channel ≡ true
    → (1 ≤ channel) × (channel ≤ 14)
unfolding allowed_by
allowed_by-bounds [] country channel all h = absurd (ground arith)
allowed_by-bounds (r ∷ rules) country channel (here, all) h =
    ground (arith, allowed_by-bounds rules country channel all)

country_rules-InBand : All InBand country_rules
country_rules-InBand = ground arith

channel_allowed-bounds :
    (country : List ℕ) (channel : ℕ)
    → channel_allowed country channel ≡ true
    → (1 ≤ channel) × (channel ≤ 14)
unfolding channel_allowed
channel_allowed-bounds [] channel h = absurd (ground arith)
channel_allowed-bounds (a ∷ []) channel h = absurd (ground arith)
channel_allowed-bounds (a ∷ b ∷ []) channel h = absurd (ground arith)
channel_allowed-bounds (a ∷ b ∷ c ∷ []) channel h =
    allowed_by-bounds country_rules (a ∷ b ∷ c ∷ []) channel country_rules-InBand (ground arith)
channel_allowed-bounds (a ∷ b ∷ c ∷ d ∷ more) channel h = absurd (ground arith)

-- Every byte is 0.
abbrev pub AllZero : List ℕ → Type 0
AllZero bytes = All (λ byte. byte ≡ 0) bytes

bit_or_zero : (a b : ℕ) → bit_or a b ≡ 0 → (a ≡ 0) × (b ≡ 0)
bit_or_zero a b e = (
  zero_of_bits a a (omega arith)
      (λ d. ground (arith, bit-bit_or a b d, ap (λ m. bit m d) e, bit-zero d)),
  zero_of_bits b b (omega arith)
      (λ d. ground (arith, bit-bit_or a b d, ap (λ m. bit m d) e, bit-zero d)),
)

or_all-AllZero : (bytes : List ℕ) (value : ℕ) → or_all bytes value ≡ 0 → (value ≡ 0) × AllZero bytes
unfolding or_all
or_all-AllZero [] value e = (e, tt)
or_all-AllZero (byte ∷ rest) value e =
    let (both, zeros) = or_all-AllZero rest (bit_or value byte) e in
    let (before, here) = bit_or_zero value byte both in (before, (here, zeros))

AllZero-or_all : (bytes : List ℕ) → AllZero bytes → or_all bytes 0 ≡ 0
unfolding or_all
AllZero-or_all [] z = refl
AllZero-or_all (byte ∷ rest) (here, z) =
    ap (λ b. or_all rest (bit_or 0 b)) here ∙ AllZero-or_all rest z

-- `nonzero` finds a byte that is not 0 exactly when there is one.
nonzero-AllZero : (bytes : List ℕ) → nonzero bytes ≡ true → AllZero bytes → ⊥
unfolding nonzero
nonzero-AllZero bytes h z = ground (arith, AllZero-or_all bytes z)

pub nonzero_of : (bytes : List ℕ) → (AllZero bytes → ⊥) → nonzero bytes ≡ true
unfolding nonzero
nonzero_of bytes some_byte = elim (Bool-cases (or_all bytes 0 == 0)) [
  | inl none_set ↦ absurd (some_byte (or_all-AllZero bytes 0 (ground (arith, none_set))).1)
  | inr one_set ↦ rw one_set refl
]

-- "JP"
abbrev pub japan : List ℕ
japan = 74 ∷ 80 ∷ 0 ∷ []

-- A rule other than that of Japan ends at channel 13.
abbrev EndsBefore14 : CountryRule → Type 0
EndsBefore14 r = (r.last ≤ 13) ⊎ (r.code ≡ japan)

allowed_by-japan :
    (rules : List CountryRule) (country : List ℕ) (channel : ℕ)
    → All EndsBefore14 rules
    → allowed_by rules country channel ≡ true
    → 13 < channel
    → country ≡ japan
unfolding allowed_by
allowed_by-japan [] country channel all h lt = absurd (ground arith)
allowed_by-japan (r ∷ rules) country channel (here, all) h lt =
    elim (Bool-cases (bytes_eq country r.code)) [
      | inl match ↦ elim here [
        | inl short ↦ absurd (ground (arith, match, h))
        | inr code ↦ bytes_eq→eq country r.code match ∙ code
      ]
      | inr other ↦ allowed_by-japan rules country channel all (ground (arith, other, h)) lt
    ]

country_rules-EndsBefore14 : All EndsBefore14 country_rules
country_rules-EndsBefore14 =
    let narrow : (n : ℕ) (l : List ℕ) → n ≤ 13 → (n ≤ 13) ⊎ (l ≡ japan) = λ n l le. inl le in
    ground (arith, narrow)

-- "US", "CA", "MX" or "TW"
abbrev pub Narrow : List ℕ → Type 0
Narrow country =
    (country ≡ 85 ∷ 83 ∷ 0 ∷ [])
    ⊎ (country ≡ 67 ∷ 65 ∷ 0 ∷ [])
    ⊎ (country ≡ 77 ∷ 88 ∷ 0 ∷ [])
    ⊎ (country ≡ 84 ∷ 87 ∷ 0 ∷ [])

channel_allowed-Narrow :
    (country : List ℕ) (channel : ℕ)
    → channel_allowed country channel ≡ true
    → Narrow country
    → channel ≤ 11
unfolding channel_allowed allowed_by is_upper bytes_eq
channel_allowed-Narrow country channel h narrow = elim narrow [
  | inl e ↦ ends _ e (λ (k : channel_allowed (85 ∷ 83 ∷ 0 ∷ []) channel ≡ true). ground (arith, k))
  | inr (inl e) ↦
      ends _ e (λ (k : channel_allowed (67 ∷ 65 ∷ 0 ∷ []) channel ≡ true). ground (arith, k))
  | inr (inr (inl e)) ↦
      ends _ e (λ (k : channel_allowed (77 ∷ 88 ∷ 0 ∷ []) channel ≡ true). ground (arith, k))
  | inr (inr (inr e)) ↦
      ends _ e (λ (k : channel_allowed (84 ∷ 87 ∷ 0 ∷ []) channel ≡ true). ground (arith, k))
]
  where
    ends :
        (c : List ℕ)
        → country ≡ c
        → (channel_allowed c channel ≡ true → channel ≤ 11)
        → channel ≤ 11
    ends c e bound = bound (sym (ap (λ x. channel_allowed x channel) e) ∙ h)

-- Two capital letters and the byte 0 that ends them.
abbrev pub CountryCode : List ℕ → Type 0
CountryCode (a ∷ b ∷ c ∷ []) = ((65 ≤ a) × (a ≤ 90)) × ((65 ≤ b) × (b ≤ 90)) × (c ≡ 0)
CountryCode _ = ⊥

channel_allowed-CountryCode :
    (country : List ℕ) (channel : ℕ)
    → channel_allowed country channel ≡ true
    → CountryCode country × (13 < channel → country ≡ japan)
unfolding channel_allowed is_upper
channel_allowed-CountryCode [] channel h = absurd (ground arith)
channel_allowed-CountryCode (a ∷ []) channel h = absurd (ground arith)
channel_allowed-CountryCode (a ∷ b ∷ []) channel h = absurd (ground arith)
channel_allowed-CountryCode (a ∷ b ∷ c ∷ []) channel h = (
  (ground arith, ground arith, ground arith),
  allowed_by-japan country_rules (a ∷ b ∷ c ∷ []) channel country_rules-EndsBefore14 (ground arith),
)
channel_allowed-CountryCode (a ∷ b ∷ c ∷ d ∷ more) channel h = absurd (ground arith)

-- What a configuration that is in use keeps to.
pub record InRange (config : MeshConfig) : Type 0 where
  pub role : (1 ≤ config.role) × (config.role ≤ 2)
  pub band : config.band ≡ 1
  pub channel : (1 ≤ config.channel) × (config.channel ≤ 14)
  pub country : CountryCode config.country
  pub narrow : Narrow config.country → config.channel ≤ 11
  pub japanese : 13 < config.channel → config.country ≡ japan
  pub nodes : (1 ≤ config.max_nodes) × (config.max_nodes ≤ 8)
  pub hops : (1 ≤ config.max_hops) × (config.max_hops ≤ 3)
  pub network : AllZero config.network_id → ⊥
  pub key : AllZero config.fleet_key → ⊥

-- A configured mesh that the validation accepts has a role other than off, the 2.4 GHz band, a
-- channel from 1 to 14, a country of two capital letters, which is Japan for channel 14 and none of
-- US, CA, MX and TW above channel 11, one to eight nodes, one to three hops, and a network id and a
-- fleet key with a byte that is not 0; with a device configuration, its bridge role is off.
pub validate-InRange :
    (config : MeshConfig) (bridge : Option ℕ)
    → config.configured ≢ 0
    → validate config bridge ≡ true
    → InRange config × ((bridge ≡ none) ⊎ (bridge ≡ some 0))
unfolding validate
validate-InRange config bridge on h = (
  record {
    role = ground arith;
    band = ground arith;
    channel = channel_allowed-bounds config.country config.channel (ground arith);
    country = (channel_allowed-CountryCode config.country config.channel (ground arith)).0;
    narrow = channel_allowed-Narrow config.country config.channel (ground arith);
    japanese = (channel_allowed-CountryCode config.country config.channel (ground arith)).1;
    nodes = ground arith;
    hops = ground arith;
    network = nonzero-AllZero config.network_id (ground arith);
    key = nonzero-AllZero config.fleet_key (ground arith);
  },
  ground arith,
)

pub default_channel : channel_allowed (67 ∷ 78 ∷ 0 ∷ []) 6 ≡ true
unfolding channel_allowed allowed_by is_upper
default_channel = rw (bytes_eq_refl (67 ∷ 78 ∷ 0 ∷ [])) refl

-- What `airlink_mesh_config_create` makes for a role is accepted when a random byte of the network
-- id and one of the fleet key are not 0; it answers INVALID_ARG for off and for a role
-- past the last.
pub create_lem :
    (role : ℕ) (network_id fleet_key : List ℕ)
    → (AllZero network_id → ⊥)
    → (AllZero fleet_key → ⊥)
    → ((create role network_id fleet_key ≡ none) × ((role ≡ 0) ⊎ (2 < role)))
      ⊎ ((config : MeshConfig) × (create role network_id fleet_key ≡ some config)
          × (validate config (some 0) ≡ true)
          × (config.role ≡ role))
unfolding create validate defaults
create_lem role network_id fleet_key i k = elim (Bool-cases (role == 0 || ltb 2 role)) [
  | inl bad ↦ inl (ground (arith, bad), ground arith)
  | inr good ↦ inr (
    record defaults { configured = 1; role = role; network_id = network_id; fleet_key = fleet_key },
    ground (arith, good),
    ground (arith, default_channel, nonzero_of network_id i, nonzero_of fleet_key k),
    refl,
  )
]
