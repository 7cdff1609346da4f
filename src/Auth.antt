-- ===== src/Auth.antt =====
-- Request limiting and access (internal/auth, internal/authz).
pub mod RateLimit
pub mod Access
