-- ===== src/Management/Migration/Pass.antt =====
-- `PVMigrationReconciler.Reconcile`: one pass over a migration.
use karmada_with_pvmigration.Prelude.{
  ℕ, String, Bool, true, false, ◌||◌, none, List, [], ◌==◌, map, length, eqb, is_empty, Result, ok,
  err, found, failed, got, if◌then◌else◌,
}
use karmada_with_pvmigration.Prelude.Int.{ℤ}
use karmada_with_pvmigration.Api.{PvMigration, WorkReference}
use karmada_with_pvmigration.Machinery.{Machinery, Unstructured}
use karmada_with_pvmigration.Management.Binding.Gates.{validate_binding}
use karmada_with_pvmigration.Management.Works.Plan.{build_works}
use karmada_with_pvmigration.Management.Applied.Receipt.{standalone_work}
use karmada_with_pvmigration.Management.Hash.{plan_hash}
use karmada_with_pvmigration.Management.Server.{
  Server, Action, ◌>>=◌, ◌>>◌, pure, return, try, ask, must, write, ignore_not_found, patch_status,
}
use karmada_with_pvmigration.Management.Migration.Phase.{delay, patch_changed, set_phase}
use karmada_with_pvmigration.Management.Migration.Sync.{sync_works}
use karmada_with_pvmigration.Management.Migration.Receipts.{record_receipts}

-- The identity of a Work, before it is made.
abbrev pub reference_of : Unstructured → WorkReference
reference_of w = record {
  pv_uid = "";
  pvc_uid = "";
  standalone = standalone_work w;
  routing_work_uid = "";
  routing_generation = 0;
  name = w.meta.name;
  namespace = w.meta.namespace;
  applied = false;
  detached = false;
}

-- The migration with a plan: its hash, and the identities of its Works.
abbrev pub with_plan : PvMigration → String → List Unstructured → PvMigration
with_plan m hash works = record m {
  status = record {
    observed_generation = m.meta.generation;
    phase = "Preparing";
    message = "PV Work identities recorded";
    plan_hash = hash;
    works = map reference_of works;
  };
}

-- The status at the end of the pass.
abbrev pub with_progress : PvMigration → List WorkReference → Bool → PvMigration
with_progress m refs all = record m {
  status = record {
    observed_generation = m.meta.generation;
    phase = if all then "Ready" else "Preparing";
    message =
        if all
        then "PV application confirmed; cleanup may detach Works"
        else "Waiting for Applied Work and reflected Available/Bound PV";
    plan_hash = m.status.plan_hash;
    works = refs;
  };
}

-- The pass has nothing to do.
unfoldable pub is_over : PvMigration → Bool
is_over m = m.meta.deleting || (m.status.phase == "Completed" || m.status.phase == "Ready")

module _ (k : Machinery) (server : Server) (interval : ℕ) where
  -- An error is shown as the phase "Pending".
  abbrev pub or_pending : {A : Type 0} → PvMigration → Result A → Action A
  or_pending m (ok a) = pure a
  or_pending m (err e) = set_phase server interval m "Pending" e

  -- The identities are recorded before any Work is made.
  unfoldable pub record_plan : PvMigration → String → List Unstructured → Action (Unit {0})
  record_plan m hash works = do
    answer ← write server (patch_status (with_plan m hash works))
    must interval answer
    return interval none

  -- The Works of a recorded plan.
  unfoldable pub follow_plan : PvMigration → List Unstructured → Action (Unit {0})
  follow_plan m works = do
    s ← sync_works k server interval 0 works (record { m = m; observed = []; all = true })
    (refs, all) ← try interval (record_receipts k s.observed s.m.status.works works s.all)
    patch_changed server interval m.status (with_progress s.m refs all)
    return interval none

  unfoldable pub with_hash : PvMigration → String → List Unstructured → Action (Unit {0})
  with_hash m hash works = elim (is_empty m.status.works) [
    | true ↦ record_plan m hash works
    | false ↦ elim (m.status.plan_hash == hash) [
      | false ↦
          set_phase server interval m "Pending"
            "source snapshot identities/specs changed after planning; inspect existing Works before starting a new request"
      | true ↦ elim (eqb (length m.status.works) (length works)) [
        | false ↦
            set_phase server interval m "Failed"
              "immutable migration plan differs from recorded Works"
        | true ↦ follow_plan m works
      ]
    ]
  ]

  -- A migration that is not over.
  unfoldable pub advance : PvMigration → Action (Unit {0})
  advance m = do
    answer ← ask (λ written. server.get_metadata written m.meta.namespace m.spec.metadata_ref)
    md ← try interval (got answer)
    reads ← ask server.reads
    or_pending m (validate_binding k reads m md)
    works ← or_pending m (build_works k m md)
    hash ← try interval (plan_hash k m md works)
    with_hash m hash works

-- `poll_interval` is in nanoseconds.
unfoldable pub reconcile : Machinery → Server → ℤ → String → String → Action (Unit {0})
reconcile k server poll_interval namespace name = do
  answer ← ask (λ written. server.get_migration written namespace name)
  elim answer [
    | failed e ↦ return 0 (ignore_not_found e)
    | found m ↦ elim (is_over m) [
      | true ↦ return 0 none
      | false ↦ advance k server (delay poll_interval) m
    ]
  ]
