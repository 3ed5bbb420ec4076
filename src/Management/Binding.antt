-- ===== src/Management/Binding.antt =====
-- `validateBinding` and `validateSelectedTargetHold` of internal/management/migration.go: the gates
-- that a migration request must pass before anything is planned.
pub mod Reserved
pub mod Hold
pub mod Held
pub mod Targets
pub mod Mapped
pub mod Gates
pub mod Sound
