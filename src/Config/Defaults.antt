-- ===== src/Config/Defaults.antt =====
-- components/airlink_config/airlink_config.c: the configuration of a device without a record.
pub mod Accepted
use air_link.Base.{
  ℕ, zero, suc, ◌+◌, ◌/◌, ◌%◌, List, [], ◌∷◌, ◌++◌, false, ltb, if◌then◌else◌, length, replicate,
  get_or,
}
use air_link.Config.Validate.{DeviceConfig}
use air_link.Config.Strings.{strlcpy}

-- The last bytes of the MAC address and the numbers of `esp_random`.
pub record Entropy : Type 0 where
  pub mac_4 : ℕ
  pub mac_5 : ℕ
  pub random : ℕ → ℕ

-- The characters of `random_password`.
abbrev pub alphabet : List ℕ
alphabet =
    65 ∷ 66 ∷ 67 ∷ 68 ∷ 69 ∷ 70 ∷ 71 ∷ 72 ∷ 74 ∷ 75 ∷ 76 ∷ 77 ∷ 78 ∷ 80 ∷ 81 ∷ 82 ∷ 83 ∷ 84 ∷ 85
    ∷ 86 ∷ 87 ∷ 88 ∷ 89 ∷ 90 ∷ 97 ∷ 98 ∷ 99 ∷ 100 ∷ 101 ∷ 102 ∷ 103 ∷ 104 ∷ 105 ∷ 106 ∷ 107 ∷ 109
    ∷ 110 ∷ 111 ∷ 112 ∷ 113 ∷ 114 ∷ 115 ∷ 116 ∷ 117 ∷ 118 ∷ 119 ∷ 120 ∷ 121 ∷ 122 ∷ 50 ∷ 51 ∷ 52
    ∷ 53 ∷ 54 ∷ 55 ∷ 56 ∷ 57 ∷ []

-- The loop of `random_password`, for that many characters.
pub random_characters : (ℕ → ℕ) → ℕ → ℕ → List ℕ
random_characters random zero i = []
random_characters random (suc n) i =
    get_or alphabet (random i % length alphabet) 0 ∷ random_characters random n (i + 1)

-- `random_password`, to a cleared array of 65 characters.
pub random_password : (ℕ → ℕ) → List ℕ
random_password random = random_characters random 16 0 ++ replicate 49 0

-- A digit of "%02X".
pub upper_digit : ℕ → ℕ
upper_digit n = if ltb n 10 then n + 48 else n + 55

pub hex_byte : ℕ → List ℕ
hex_byte n = upper_digit (n / 16 % 16) ∷ upper_digit (n % 16) ∷ []

-- "FlyingRC-AirLink-%02X%02X" in a cleared array of 33 characters.
pub default_ssid : Entropy → List ℕ
default_ssid e =
    (70 ∷ 108 ∷ 121 ∷ 105 ∷ 110 ∷ 103 ∷ 82 ∷ 67 ∷ 45 ∷ 65 ∷ 105 ∷ 114 ∷ 76 ∷ 105 ∷ 110 ∷ 107 ∷ 45
      ∷ [])
    ++ hex_byte e.mac_4
    ++ hex_byte e.mac_5
    ++ replicate 12 0

-- `strlcpy` of a serial number, and of a password to both passwords.
pub with_serial : DeviceConfig → List ℕ → DeviceConfig
with_serial config serial = record config {
  v1 = record (config.v1) { serial_number = strlcpy 25 config.v1.serial_number serial };
}

pub with_password : DeviceConfig → List ℕ → DeviceConfig
with_password config password = record config {
  v1 = record (config.v1) {
    ap_password = strlcpy 65 config.v1.ap_password password;
    admin_password = strlcpy 65 config.v1.admin_password password;
  };
}

-- The constants of `load_defaults`, with the SSID and the password.
pub default_config : List ℕ → List ℕ → DeviceConfig
default_config ssid password = record {
  v1 = record {
    schema_version = 2;
    route_mode = 0;
    uart_baud = 115200;
    wifi_mode = 0;
    wifi_band = 0;
    ap_ssid = ssid;
    ap_password = password;
    sta_ssid = replicate 33 0;
    sta_password = replicate 65 0;
    udp_port = 14550;
    tcp_port = 5760;
    usb_mode = 0;
    can_bitrate = 1000000;
    led_brightness = 25;
    serial_number = replicate 25 0;
    admin_password = password;
    bridge_enabled = false;
    bridge_role = 0;
  };
  fc_transport = 0;
  can_node_id = 125;
  can_remote_node_id = 10;
  can_serial_id = 0;
}
