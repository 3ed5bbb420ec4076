-- ===== src/Management/Applied.antt =====
-- The evidence that a Work has been applied on its member: `workApplied` of
-- internal/management/migration.go, and the receipts of internal/management/standalone.go.
pub mod Receipt
pub mod Pair
pub mod Evidence
pub mod Conditions
pub mod Values
pub mod Receipts
pub mod Pairs
pub mod Reciprocal
pub mod Matches
