-- ===== src/MeshConfig/Validate/Tests.antt =====
-- Validation at concrete configurations.
use air_link.Base.{ℕ, ◌<◌, ◌≡◌, arith, true, Option, some, none, ◌⊎◌, replicate}
use air_link.MeshConfig.Validate.{MeshConfig, validate, defaults, create, nonzero, or_all}
use air_link.MeshConfig.Validate.Accepts.{InRange, validate-InRange, create_lem, default_channel}

abbrev fleet : MeshConfig
fleet = record defaults {
  configured = 1;
  role = 2;
  network_id = replicate 6 1;
  fleet_key = replicate 32 1;
}

abbrev bridge_off : Option ℕ
bridge_off = some 0

abbrev air : ℕ
air = 1

fleet_valid : validate fleet bridge_off ≡ true
unfolding validate defaults nonzero or_all
fleet_valid = ground (arith, default_channel)

validate-InRange_example : InRange fleet × ((bridge_off ≡ none) ⊎ (bridge_off ≡ some 0))
unfolding defaults
validate-InRange_example = validate-InRange fleet bridge_off (λ e. ground (arith, e)) fleet_valid

create_lem_example :
    ((create air (replicate 6 1) (replicate 32 1) ≡ none) × ((air ≡ 0) ⊎ (2 < air)))
    ⊎ ((config : MeshConfig) × (create air (replicate 6 1) (replicate 32 1) ≡ some config)
        × (validate config (some 0) ≡ true)
        × (config.role ≡ air))
create_lem_example =
    create_lem air (replicate 6 1) (replicate 32 1) (λ z. absurd (ground (arith, z.0)))
      (λ z. absurd (ground (arith, z.0)))
