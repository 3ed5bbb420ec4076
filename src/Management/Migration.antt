-- ===== src/Management/Migration.antt =====
-- The PVMigration controller of internal/management/migration.go.
pub mod Phase
pub mod Sync
pub mod Receipts
pub mod Pass
pub mod References
pub mod Allowed
pub mod Progress
pub mod Rounds
pub mod Patches
pub mod Safe
pub mod Plans
pub mod Repeated
pub mod Refused
