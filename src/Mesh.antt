-- ===== src/Mesh.antt =====
-- components/airlink_mesh: the encrypted packets and the replay window.
pub mod Bits
pub mod Replay
pub mod Wire
pub mod Codec
