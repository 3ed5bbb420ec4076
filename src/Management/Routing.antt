-- ===== src/Management/Routing.antt =====
-- The check of a Work against its plan (`validateWork`, `comparableWorkSpec` of
-- internal/management/migration.go), and internal/management/work_routing.go.
pub mod Comparable
pub mod Repair
pub mod Safe
