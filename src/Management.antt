-- ===== src/Management.antt =====
-- internal/management: the controllers that run against the Karmada API.
pub mod Naming
pub mod Claims
pub mod Works
pub mod Applied
pub mod Routing
pub mod Binding
pub mod Server
pub mod Hash
pub mod Migration
pub mod Cleanup
pub mod Discovery
pub mod Lifecycle
