-- ===== src/Config/Validate/Accepts.antt =====
-- What an accepted device configuration satisfies.
use air_link.Base.{◌≤◌, ◌≡◌, ◌≢◌, refl, arith, true, false, ◌⊎◌}
use air_link.Config.Validate.{
  bridge_valid, nodes_valid, transport_valid, ConfigV1, DeviceConfig, strnlen, numbers_valid,
  strings_valid,
}
use air_link.Config.Validate.{modes_valid, config_validate, migrate_v1, config_v1_valid}

-- What a configuration in use keeps to.
pub record Usable (config : DeviceConfig) : Type 0 where
  pub nodes :
      (1 ≤ config.can_node_id)
      × (config.can_node_id ≤ 127)
      × (1 ≤ config.can_remote_node_id)
      × (config.can_remote_node_id ≤ 127)
      × (config.can_node_id ≢ config.can_remote_node_id)
      × (config.can_serial_id ≤ 15)
  pub can_is_mavlink : (config.fc_transport ≡ 0) ⊎ (config.v1.route_mode ≡ 0)
  pub bridge :
      ((config.v1.bridge_enabled ≡ false) × (config.v1.bridge_role ≡ 0))
      ⊎ ((config.v1.bridge_enabled ≡ true)
          × (config.v1.bridge_role ≡ 1)
          × (config.v1.wifi_mode ≡ 0))
      ⊎ ((config.v1.bridge_enabled ≡ true)
          × (config.v1.bridge_role ≡ 2)
          × (config.v1.wifi_mode ≡ 1)
          × (config.v1.usb_mode ≡ 1))
  pub access_point :
      (1 ≤ strnlen config.v1.ap_ssid)
      × (strnlen config.v1.ap_ssid ≤ 32)
      × (12 ≤ strnlen config.v1.ap_password)
      × (strnlen config.v1.ap_password ≤ 63)
  pub station :
      (config.v1.wifi_mode ≡ 0)
      ⊎ ((1 ≤ strnlen config.v1.sta_ssid) × (strnlen config.v1.sta_ssid ≤ 32))
  pub admin : (12 ≤ strnlen config.v1.admin_password) × (strnlen config.v1.admin_password ≤ 64)

-- What each group of tests gives.
transport_valid_lem :
    (config : DeviceConfig)
    → transport_valid config ≡ true
    → (config.fc_transport ≡ 0) ⊎ (config.v1.route_mode ≡ 0)
unfolding transport_valid
transport_valid_lem config h = ground arith

wifi_mode_lem : (config : ConfigV1) → numbers_valid config ≡ true → config.wifi_mode ≤ 2
unfolding numbers_valid
wifi_mode_lem config h = ground arith

sta_ssid_lem : (config : ConfigV1) → strings_valid config ≡ true → strnlen config.sta_ssid ≤ 32
unfolding strings_valid
sta_ssid_lem config h = ground arith

station_lem :
    (config : ConfigV1)
    → config.wifi_mode ≤ 2
    → strnlen config.sta_ssid ≤ 32
    → modes_valid config ≡ true
    → (config.wifi_mode ≡ 0) ⊎ ((1 ≤ strnlen config.sta_ssid) × (strnlen config.sta_ssid ≤ 32))
unfolding modes_valid
station_lem config w l h = ground arith

bridge_valid_lem :
    (config : ConfigV1)
    → bridge_valid config ≡ true
    → modes_valid config ≡ true
    → ((config.bridge_enabled ≡ false) × (config.bridge_role ≡ 0))
      ⊎ ((config.bridge_enabled ≡ true) × (config.bridge_role ≡ 1) × (config.wifi_mode ≡ 0))
      ⊎ ((config.bridge_enabled ≡ true)
          × (config.bridge_role ≡ 2)
          × (config.wifi_mode ≡ 1)
          × (config.usb_mode ≡ 1))
unfolding bridge_valid modes_valid
bridge_valid_lem config h m = ground arith

nodes_valid_lem :
    (config : DeviceConfig)
    → nodes_valid config ≡ true
    → (1 ≤ config.can_node_id)
      × (config.can_node_id ≤ 127)
      × (1 ≤ config.can_remote_node_id)
      × (config.can_remote_node_id ≤ 127)
      × (config.can_node_id ≢ config.can_remote_node_id)
      × (config.can_serial_id ≤ 15)
unfolding nodes_valid
nodes_valid_lem config h = ground arith

ap_lem :
    (config : ConfigV1)
    → strings_valid config ≡ true
    → (1 ≤ strnlen config.ap_ssid)
      × (strnlen config.ap_ssid ≤ 32)
      × (12 ≤ strnlen config.ap_password)
      × (strnlen config.ap_password ≤ 63)
      × (12 ≤ strnlen config.admin_password)
      × (strnlen config.admin_password ≤ 64)
unfolding strings_valid
ap_lem config h = ground arith

pub groups :
    (config : DeviceConfig)
    → config_validate config ≡ true
    → (numbers_valid config.v1 ≡ true)
      × (bridge_valid config.v1 ≡ true)
      × (transport_valid config ≡ true)
      × (nodes_valid config ≡ true)
      × (strings_valid config.v1 ≡ true)
      × (modes_valid config.v1 ≡ true)
unfolding config_validate
groups config h = ground arith

-- A device configuration that the validation accepts has different CAN node ids from 1 to 127,
-- uses CAN only with MAVLink routing, has the bridge off, or on in a role whose Wi-Fi and USB modes
-- fit, an SSID and a password of the access point of allowed lengths, a station's SSID where there
-- is a station, and an administrator's password of 12 to 64 characters.
pub config_validate-Usable : (config : DeviceConfig) → config_validate config ≡ true → Usable config
config_validate-Usable config h =
    let (n, b, t, c, s, m) = groups config h in
    let (ssid, ssid_end, ap, ap_end, admin, admin_end) = ap_lem config.v1 s in
    record {
      nodes = nodes_valid_lem config c;
      can_is_mavlink = transport_valid_lem config t;
      bridge = bridge_valid_lem config.v1 b m;
      access_point = (ssid, ssid_end, ap, ap_end);
      station = station_lem config.v1 (wifi_mode_lem config.v1 n) (sta_ssid_lem config.v1 s) m;
      admin = (admin, admin_end);
    }

-- A configuration of schema 1 that `config_v1_valid` accepts is migrated to one that the validation
-- accepts, that keeps to what a configuration in use keeps to, and whose transport is the UART.
pub migrate_v1-Usable :
    (config : ConfigV1)
    → config_v1_valid config ≡ true
    → (config_validate (migrate_v1 config) ≡ true)
      × Usable (migrate_v1 config)
      × ((migrate_v1 config).fc_transport ≡ 0)
unfolding config_v1_valid migrate_v1
migrate_v1-Usable config h =
    let accepted : config_validate (migrate_v1 config) ≡ true = ground arith in
    (accepted, config_validate-Usable (migrate_v1 config) accepted, refl)
