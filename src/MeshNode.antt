-- ===== src/MeshNode.antt =====
-- components/airlink_mesh/airlink_mesh.c: a node of the mesh.
pub mod AirOta
