-- ===== src/Ota.antt =====
-- components/airlink_ota: the update of the firmware.
pub mod Marker
pub mod Stream
pub mod Upload
pub mod Confirm
pub mod Tests
