-- ===== src/Management/Cleanup.antt =====
-- internal/management/cleanup.go: the controller that detaches the Works of a ready migration.
pub mod Detach
pub mod Pass
pub mod References
pub mod Allowed
pub mod Planned
pub mod Marks
pub mod Sweeps
pub mod Safe
pub mod Completes
pub mod Repeated
