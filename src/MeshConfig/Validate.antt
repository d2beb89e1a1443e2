-- ===== src/MeshConfig/Validate.antt =====
-- components/airlink_mesh/airlink_mesh_config.c: which configurations are accepted.
pub mod Accepts
pub mod Tests
use air_link.Base.{
  ℕ, List, [], ◌∷◌, Bool, true, false, not, ◌&&◌, ◌||◌, ltb, leb, ◌==◌, if◌then◌else◌,
}
use air_link.Base.{Option, none, some, bytes_eq, bit_or, replicate}

-- `airlink_mesh_config_t`. `country` is the array of three characters.
pub record MeshConfig : Type 0 where
  pub schema_version : ℕ
  pub configured : ℕ
  pub role : ℕ
  pub network_id : List ℕ
  pub fleet_key : List ℕ
  pub band : ℕ
  pub channel : ℕ
  pub country : List ℕ
  pub max_nodes : ℕ
  pub max_hops : ℕ
  pub reserved : List ℕ

-- `airlink_mesh_role_t` and `airlink_mesh_band_t`
abbrev pub role_off : ℕ
role_off = 0

abbrev pub role_ground_root : ℕ
role_ground_root = 2

abbrev pub band_2g : ℕ
band_2g = 1

-- `country_rule_t`, with both letters of the code.
pub record CountryRule : Type 0 where
  pub code : List ℕ
  pub first : ℕ
  pub last : ℕ

abbrev rule : ℕ → ℕ → ℕ → ℕ → CountryRule
rule a b first last = record { code = a ∷ b ∷ 0 ∷ []; first = first; last = last }

-- `COUNTRY_RULES`: CN, US, CA, MX, JP, GB, DE, FR, ES, IT, NL, AU, NZ, SG, KR, TW.
abbrev pub country_rules : List CountryRule
country_rules =
    rule 67 78 1 13
    ∷ rule 85 83 1 11
    ∷ rule 67 65 1 11
    ∷ rule 77 88 1 11
    ∷ rule 74 80 1 14
    ∷ rule 71 66 1 13
    ∷ rule 68 69 1 13
    ∷ rule 70 82 1 13
    ∷ rule 69 83 1 13
    ∷ rule 73 84 1 13
    ∷ rule 78 76 1 13
    ∷ rule 65 85 1 13
    ∷ rule 78 90 1 13
    ∷ rule 83 71 1 13
    ∷ rule 75 82 1 13
    ∷ rule 84 87 1 11
    ∷ []

-- `isupper` in the C locale.
pub is_upper : ℕ → Bool
is_upper c = leb 65 c && leb c 90

-- The loop of `airlink_mesh_channel_allowed`: the first rule of the country decides.
pub allowed_by : List CountryRule → List ℕ → ℕ → Bool
allowed_by [] country channel = false
allowed_by (r ∷ rules) country channel =
    if bytes_eq country r.code
    then leb r.first channel && leb channel r.last
    else allowed_by rules country channel

-- `airlink_mesh_channel_allowed`; an array of another length than three does not occur.
pub channel_allowed : List ℕ → ℕ → Bool
channel_allowed (a ∷ b ∷ c ∷ []) channel =
    is_upper a && is_upper b && c == 0 && allowed_by country_rules (a ∷ b ∷ c ∷ []) channel
channel_allowed _ channel = false

-- The loop of `nonzero`, and `nonzero`.
pub or_all : List ℕ → ℕ → ℕ
or_all [] value = value
or_all (byte ∷ rest) value = or_all rest (bit_or value byte)

pub nonzero : List ℕ → Bool
nonzero bytes = not (or_all bytes 0 == 0)

-- `airlink_mesh_config_validate`, `config` not NULL. `none` is that `base_config` is NULL, `some`
-- its `bridge_role`, 0 for AIRLINK_BRIDGE_OFF.
pub validate : MeshConfig → Option ℕ → Bool
validate config bridge_role =
    if not (config.schema_version == 1) || ltb role_ground_root config.role
    then false
    else if config.configured == 0
    then config.role == role_off
    else if config.role == role_off
        || not (config.band == band_2g)
        || ltb config.max_nodes 1
        || ltb 8 config.max_nodes
        || ltb config.max_hops 1
        || ltb 3 config.max_hops
        || not (channel_allowed config.country config.channel)
        || not (nonzero config.network_id)
        || not (nonzero config.fleet_key)
    then false
    else elim bridge_role [ none ↦ true | some bridge ↦ bridge == 0 ]

-- `defaults`: "CN", channel 6.
pub defaults : MeshConfig
defaults = record {
  schema_version = 1;
  configured = 0;
  role = role_off;
  network_id = replicate 6 0;
  fleet_key = replicate 32 0;
  band = band_2g;
  channel = 6;
  country = 67 ∷ 78 ∷ 0 ∷ [];
  max_nodes = 8;
  max_hops = 3;
  reserved = replicate 6 0;
}

-- `airlink_mesh_config_create`, `created` not NULL, with the bytes that `esp_fill_random` gives:
-- `none` is ESP_ERR_INVALID_ARG.
pub create : ℕ → List ℕ → List ℕ → Option MeshConfig
create role network_id fleet_key =
    if role == role_off || ltb role_ground_root role
    then none
    else some (record defaults {
      configured = 1;
      role = role;
      network_id = network_id;
      fleet_key = fleet_key;
    })
