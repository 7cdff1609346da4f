-- ===== src/Portmap.antt =====
-- The port-mapping clients of internal/portmap.
pub mod Wire
pub mod NatPmp
pub mod Pcp
pub mod Manager
