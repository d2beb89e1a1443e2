-- ===== src/Config.antt =====
-- components/airlink_config: the device's configuration and the passwords it accepts.
pub mod Validate
pub mod Provision
pub mod Strings
pub mod Store
pub mod Defaults
pub mod Device
