-- ===== src/Config/Validate/Tests.antt =====
-- The validation at concrete configurations.
use air_link.Base.{ℕ, List, ◌++◌, ◌≡◌, refl, true, false, replicate}
use air_link.Config.Validate.{
  ConfigV1, DeviceConfig, config_validate, bridge_valid, nodes_valid, transport_valid,
  numbers_valid, strings_valid, modes_valid, baud_valid, can_bitrate_valid, strnlen, migrate_v1,
  config_v1_valid,
}
use air_link.Config.Validate.Accepts.{Usable, config_validate-Usable, migrate_v1-Usable}

abbrev text : ℕ → ℕ → List ℕ
text = λ characters rest. replicate characters 97 ++ replicate rest 0

abbrev old : ConfigV1
old = record {
  schema_version = 1;
  route_mode = 0;
  uart_baud = 115200;
  wifi_mode = 0;
  wifi_band = 0;
  ap_ssid = text 21 12;
  ap_password = text 16 49;
  sta_ssid = text 0 33;
  sta_password = text 0 65;
  udp_port = 14550;
  tcp_port = 5760;
  usb_mode = 0;
  can_bitrate = 1000000;
  led_brightness = 25;
  serial_number = text 0 25;
  admin_password = text 16 49;
  bridge_enabled = false;
  bridge_role = 0;
}

abbrev factory : DeviceConfig
factory = record {
  v1 = record old { schema_version = 2 };
  fc_transport = 0;
  can_node_id = 125;
  can_remote_node_id = 10;
  can_serial_id = 0;
}

factory_valid : config_validate factory ≡ true
unfolding config_validate numbers_valid bridge_valid nodes_valid transport_valid strings_valid
    modes_valid baud_valid can_bitrate_valid strnlen
factory_valid = refl

config_validate-Usable_example : Usable factory
config_validate-Usable_example = config_validate-Usable factory factory_valid

old_valid : config_v1_valid old ≡ true
unfolding config_v1_valid config_validate numbers_valid bridge_valid nodes_valid transport_valid
    strings_valid modes_valid baud_valid can_bitrate_valid strnlen
old_valid = refl

migrate_v1-Usable_example :
    (config_validate (migrate_v1 old) ≡ true)
    × Usable (migrate_v1 old)
    × ((migrate_v1 old).fc_transport ≡ 0)
migrate_v1-Usable_example = migrate_v1-Usable old old_valid
