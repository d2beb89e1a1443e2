-- ===== src/MeshConfig.antt =====
-- components/airlink_mesh/airlink_mesh_config.c: the stored mesh configuration and the approvals.
pub mod Nvs
pub mod Validate
pub mod Slots
pub mod Approvals
