-- ===== src/Management/Migration/Sync.antt =====
-- The loop over the Works in `PVMigrationReconciler.Reconcile`.
use karmada_with_pvmigration.Prelude.{
  ℕ, zero, suc, String, Bool, true, false, not, ◌&&◌, ◌||◌, Option, none, some, List, [], ◌∷◌, ◌==◌,
  ◌<>◌, Result, ok, err, Reply, found, failed, not_found, already_exists, other,
}
use karmada_with_pvmigration.Api.{PvMigration, WorkReference}
use karmada_with_pvmigration.Machinery.{Machinery, Unstructured}
use karmada_with_pvmigration.Management.Applied.Receipt.{same_truth, standalone_work}
use karmada_with_pvmigration.Management.Applied.Evidence.{work_applied}
use karmada_with_pvmigration.Management.Routing.Repair.{
  ref_at, Repair, unchanged, record_intent, rewrite, validate_work, ensure_work_routing,
}
use karmada_with_pvmigration.Management.Server.{
  Server, Action, ◌>>=◌, ◌>>◌, pure, return, try, ask, must, must_or_exists, write, fail_if,
  patch_status, patch_work, create_work,
}

-- `ref.Applied = applied` of the reference at an index.
unfoldable pub set_applied : List WorkReference → ℕ → Bool → List WorkReference
set_applied [] i applied = []
set_applied (ref ∷ refs) zero applied = record ref { applied = applied } ∷ refs
set_applied (ref ∷ refs) (suc i) applied = ref ∷ set_applied refs i applied

-- What the loop keeps: the migration with its changed status, the Works read by name (the latest
-- first), and whether all are applied.
pub record Round : Type 0 where
  pub m : PvMigration
  pub observed : List (String × Unstructured)
  pub all : Bool

abbrev pub in_range : Option WorkReference → Result WorkReference
in_range none = err "panic: index out of range"
in_range (some ref) = ok ref

-- The reference is not that of the planned Work.
unfoldable pub identity_changed : WorkReference → Unstructured → Bool
identity_changed ref expected =
    (not (ref.name == expected.meta.name) || not (ref.namespace == expected.meta.namespace))
    || not (same_truth ref.standalone (standalone_work expected))

-- The Work has been read, and its evidence is recorded.
abbrev pub with_applied : Round → ℕ → Unstructured → Bool → Round
with_applied s i actual applied = record {
  m = record (s.m) {
    status = record (s.m.status) { works = set_applied s.m.status.works i applied };
  };
  observed = (actual.meta.name, actual) ∷ s.observed;
  all = s.all && applied;
}

module _ (k : Machinery) (server : Server) (interval : ℕ) where
  -- A Work that is not there is created, unless it has been applied or repaired.
  unfoldable pub create_missing : WorkReference → Unstructured → Round → Action Round
  create_missing ref expected s = do
    fail_if interval (not (ref.routing_work_uid == ""))
        "routing repair Work disappeared; refusing recreation"
    fail_if interval ref.applied (
        "applied Work " <> ref.name
        <> " disappeared before cleanup; inspect retained PV before recovery")
    answer ← write server (create_work expected)
    must_or_exists interval answer
    pure (record s { all = false })

  -- The patch of the routing check ends the pass.
  unfoldable pub do_repair : Repair → Action (Unit {0})
  do_repair unchanged = pure tt
  do_repair (record_intent m) = do
    answer ← write server (patch_status m)
    must interval answer
    return interval none
  do_repair (rewrite w) = do
    answer ← write server (patch_work w)
    must interval answer
    return interval none

  -- A Work that is there is repaired or checked, and its evidence read.
  unfoldable pub check_present : ℕ → Unstructured → Unstructured → Round → Action Round
  check_present i actual expected s = do
    repair ← try interval (ensure_work_routing k s.m i actual expected)
    do_repair repair
    valid ← try interval (validate_work k actual expected s.m)
    pure (with_applied s i actual (work_applied k actual))

  abbrev pub by_answer :
      ℕ → WorkReference → Unstructured → Round → Reply Unstructured → Action Round
  by_answer i ref expected s (found actual) = check_present i actual expected s
  by_answer i ref expected s (failed (not_found e)) = create_missing ref expected s
  by_answer i ref expected s (failed (already_exists e)) = return interval (some e)
  by_answer i ref expected s (failed (other e)) = return interval (some e)

  -- The body of the loop, where the Work is not detached.
  unfoldable pub sync_attached : ℕ → WorkReference → Unstructured → Round → Action Round
  sync_attached i ref expected s = do
    answer ← ask (λ written. server.get_work written ref.namespace ref.name)
    by_answer i ref expected s answer

  unfoldable pub sync_work : ℕ → Unstructured → Round → Action Round
  sync_work i expected s = do
    ref ← try interval (in_range (ref_at s.m.status.works i))
    fail_if interval (identity_changed ref expected) "migration Work identity changed"
    elim ref.detached [ true ↦ pure s | false ↦ sync_attached i ref expected s ]

  unfoldable pub sync_works : ℕ → List Unstructured → Round → Action Round
  sync_works i [] s = pure s
  sync_works i (expected ∷ works) s = do s' ← sync_work i expected s; sync_works (suc i) works s'
