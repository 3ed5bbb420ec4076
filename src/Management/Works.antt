-- ===== src/Management/Works.antt =====
-- `BuildWorks` of internal/management/migration.go, part by part.
pub mod Snapshot
pub mod Source
pub mod Manifests
pub mod Plan
pub mod Planned
pub mod Rounds
pub mod Sound
pub mod Identity
