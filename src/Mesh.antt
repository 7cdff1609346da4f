-- ===== src/Mesh.antt =====
-- The networks that the control plane serves (internal/mesh).
pub mod Dns
pub mod Manager
