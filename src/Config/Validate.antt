-- ===== src/Config/Validate.antt =====
-- components/airlink_config/airlink_config.c: which configurations are accepted, and those of
-- schema 1.
pub mod Accepts
pub mod Tests
use air_link.Base.{
  ℕ, suc, ◌+◌, List, [], ◌∷◌, Bool, true, false, not, ◌&&◌, ◌||◌, ltb, leb, ◌==◌, if◌then◌else◌,
}

-- `airlink_config_v1_t`. Enumerations are their numbers, and a string is its array of characters,
-- of 33 for an SSID, 65 for a password and 25 for a serial number.
pub record ConfigV1 : Type 0 where
  pub schema_version : ℕ
  pub route_mode : ℕ
  pub uart_baud : ℕ
  pub wifi_mode : ℕ
  pub wifi_band : ℕ
  pub ap_ssid : List ℕ
  pub ap_password : List ℕ
  pub sta_ssid : List ℕ
  pub sta_password : List ℕ
  pub udp_port : ℕ
  pub tcp_port : ℕ
  pub usb_mode : ℕ
  pub can_bitrate : ℕ
  pub led_brightness : ℕ
  pub serial_number : List ℕ
  pub admin_password : List ℕ
  pub bridge_enabled : Bool
  pub bridge_role : ℕ

-- `airlink_config_t`: the fields of schema 1, then those behind them. `can_serial_id` is the byte
-- of the `int8_t`, which is below 0 from 128 on.
pub record DeviceConfig : Type 0 where
  pub v1 : ConfigV1
  pub fc_transport : ℕ
  pub can_node_id : ℕ
  pub can_remote_node_id : ℕ
  pub can_serial_id : ℕ

-- `baud_valid`
unfoldable pub baud_valid : ℕ → Bool
baud_valid baud =
    baud == 57600 || baud == 115200 || baud == 230400 || baud == 460800 || baud == 921600

-- `can_bitrate_valid`
unfoldable pub can_bitrate_valid : ℕ → Bool
can_bitrate_valid bitrate =
    bitrate == 125000 || bitrate == 250000 || bitrate == 500000 || bitrate == 1000000

-- `strnlen` of a whole array: the characters in front of the first 0.
unfoldable pub strnlen : List ℕ → ℕ
strnlen [] = 0
strnlen (c ∷ rest) = let behind = strnlen rest in if c == 0 then 0 else suc behind

-- The tests of `airlink_config_validate` on the bridge, the CAN nodes and the transport.
unfoldable pub bridge_valid : ConfigV1 → Bool
bridge_valid config =
    not (ltb 2 config.bridge_role)
    && (if config.bridge_enabled then not (config.bridge_role == 0) else config.bridge_role == 0)

unfoldable pub nodes_valid : DeviceConfig → Bool
nodes_valid config = not (
    ltb config.can_node_id 1
    || ltb 127 config.can_node_id
    || ltb config.can_remote_node_id 1
    || ltb 127 config.can_remote_node_id
    || config.can_node_id == config.can_remote_node_id
    || leb 128 config.can_serial_id
    || ltb 15 config.can_serial_id)

unfoldable pub transport_valid : DeviceConfig → Bool
transport_valid config =
    not (ltb 1 config.fc_transport)
    && not (config.fc_transport == 1 && not (config.v1.route_mode == 0))

-- The other tests on numbers.
unfoldable pub numbers_valid : ConfigV1 → Bool
numbers_valid config =
    config.schema_version == 2
    && not (ltb 1 config.route_mode || not (baud_valid config.uart_baud))
    && not (ltb 2 config.wifi_mode || ltb 2 config.wifi_band)
    && not (ltb 1 config.usb_mode || not (can_bitrate_valid config.can_bitrate))
    && not (config.udp_port == 0 || config.tcp_port == 0 || ltb 100 config.led_brightness)

-- The tests on the lengths of strings.
unfoldable pub strings_valid : ConfigV1 → Bool
strings_valid config =
    let ap_ssid_len = strnlen config.ap_ssid in
    let sta_ssid_len = strnlen config.sta_ssid in
    let ap_password_len = strnlen config.ap_password in
    let sta_password_len = strnlen config.sta_password in
    let admin_password_len = strnlen config.admin_password in
    not (ap_ssid_len == 0 || leb 33 ap_ssid_len || leb 33 sta_ssid_len)
    && not (
        ltb ap_password_len 12
        || ltb 63 ap_password_len
        || leb 65 sta_password_len
        || (not (sta_password_len == 0) && (ltb sta_password_len 8 || ltb 63 sta_password_len))
        || ltb admin_password_len 12
        || leb 65 admin_password_len)

-- The tests on the modes that go together.
unfoldable pub modes_valid : ConfigV1 → Bool
modes_valid config =
    not ((config.wifi_mode == 1 || config.wifi_mode == 2) && strnlen config.sta_ssid == 0)
    && not (config.bridge_role == 1 && not (config.wifi_mode == 0))
    && not (config.bridge_role == 2 && (not (config.wifi_mode == 1) || not (config.usb_mode == 1)))

-- `airlink_config_validate`, `config` not NULL; the order of the tests does not show.
unfoldable pub config_validate : DeviceConfig → Bool
config_validate config =
    numbers_valid config.v1
    && bridge_valid config.v1
    && transport_valid config
    && nodes_valid config
    && strings_valid config.v1
    && modes_valid config.v1

-- `migrate_v1`
pub migrate_v1 : ConfigV1 → DeviceConfig
migrate_v1 source = record {
  v1 = record source { schema_version = 2 };
  fc_transport = 0;
  can_node_id = 125;
  can_remote_node_id = 10;
  can_serial_id = 0;
}

-- `config_v1_valid`, which writes the migrated configuration out once more.
pub config_v1_valid : ConfigV1 → Bool
config_v1_valid config =
    config.schema_version == 1
    && config_validate (record {
      v1 = record config { schema_version = 2 };
      fc_transport = 0;
      can_node_id = 125;
      can_remote_node_id = 10;
      can_serial_id = 0;
    })
