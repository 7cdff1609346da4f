-- ===== src/Db.antt =====
-- Stores of the control plane (internal/db).
pub mod DeviceCodes
pub mod Retry
pub mod Invites
pub mod Nodes
