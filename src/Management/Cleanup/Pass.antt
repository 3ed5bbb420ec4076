-- ===== src/Management/Cleanup/Pass.antt =====
-- `PVCleanupReconciler.Reconcile`: one pass over a migration.
use karmada_with_pvmigration.Prelude.{
  ℕ, String, Bool, true, false, not, ◌||◌, none, ◌==◌, eqb, is_empty, found, failed, if◌then◌else◌,
}
use karmada_with_pvmigration.Prelude.Int.{ℤ}
use karmada_with_pvmigration.Api.{PvMigration}
use karmada_with_pvmigration.Machinery.{Machinery}
use karmada_with_pvmigration.Management.Server.{
  Server, Action, ◌>>=◌, ◌>>◌, return, ask, fail_if, ignore_not_found,
}
use karmada_with_pvmigration.Management.Migration.Phase.{delay, patch_changed}
use karmada_with_pvmigration.Management.Cleanup.Detach.{Sweep, sweep_refs}

-- The status after the loop.
abbrev pub with_outcome : Sweep → PvMigration
with_outcome s =
    if s.all
    then record (s.m) {
      status = record (s.m.status) {
        phase = "Completed";
        message =
            "All PV Works detached; retained PVs remain. Workload placement/restore is a separate gate.";
      };
    }
    else s.m

-- The pass has nothing to do.
unfoldable pub is_idle : PvMigration → Bool
is_idle m = m.meta.deleting || not (m.status.phase == "Ready")

module _ (k : Machinery) (server : Server) (interval : ℕ) where
  unfoldable pub sweep : PvMigration → Action (Unit {0})
  sweep m = do
    fail_if interval
        (not (eqb m.status.observed_generation m.meta.generation) || is_empty m.status.works)
        "migration has no current durable application evidence"
    s ← sweep_refs k server interval 0 m.status.works (record { m = m; all = true })
    patch_changed server interval m.status (with_outcome s)
    return interval none

unfoldable pub reconcile : Machinery → Server → ℤ → String → String → Action (Unit {0})
reconcile k server poll_interval namespace name = do
  answer ← ask (λ written. server.get_migration written namespace name)
  elim answer [
    | failed e ↦ return 0 (ignore_not_found e)
    | found m ↦ elim (is_idle m) [
      | true ↦ return 0 none
      | false ↦ sweep k server (delay poll_interval) m
    ]
  ]
