-- ===== src/Api.antt =====
-- Handlers of the control plane (internal/api), as compositions of the stores.
pub mod Device
pub mod DnsName
pub mod Endpoints
pub mod Events
pub mod Status
