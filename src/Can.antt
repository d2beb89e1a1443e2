-- ===== src/Can.antt =====
-- components/airlink_can: MAVLink over the CAN bus.
pub mod Queue
pub mod Tunnel
