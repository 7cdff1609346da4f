-- ===== src/Client.antt =====
-- Parts of the agent below internal/client other than the registry.
pub mod PeerState
pub mod RelayState
pub mod Heartbeat
pub mod NebulaConfig
pub mod Renewal
pub mod PeerCache
pub mod Watchdog
pub mod Routes
pub mod SelfEndpoints
