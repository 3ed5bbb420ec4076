-- ===== src/Management/Cleanup/Detach.antt =====
-- The body of the loop in `PVCleanupReconciler.Reconcile`.
use karmada_with_pvmigration.Prelude.{
  ℕ, zero, suc, String, Bool, true, false, not, ◌&&◌, ◌||◌, some, List, [], ◌∷◌, ◌==◌, ◌<>◌, Result,
  ok, err, Reply, found, failed, not_found, already_exists, other, got,
}
use karmada_with_pvmigration.Api.{PvMigration, WorkReference}
use karmada_with_pvmigration.Api.Core.{label}
use karmada_with_pvmigration.Machinery.{Machinery, Unstructured}
use karmada_with_pvmigration.Management.Naming.{owner_label, managed_label, manager_name}
use karmada_with_pvmigration.Management.Works.Plan.{build_works}
use karmada_with_pvmigration.Management.Works.Manifests.{execution_namespace}
use karmada_with_pvmigration.Management.Binding.Gates.{truth_or_false}
use karmada_with_pvmigration.Management.Applied.Receipt.{same_truth, standalone_work}
use karmada_with_pvmigration.Management.Applied.Evidence.{work_applied, standalone_receipt_matches}
use karmada_with_pvmigration.Management.Routing.Repair.{work_generation_allowed, validate_work}
use karmada_with_pvmigration.Management.Hash.{plan_hash}
use karmada_with_pvmigration.Management.Server.{
  Server, Action, ◌>>=◌, ◌>>◌, pure, return, try, ask, must_or_missing, write, fail_if, delete_work,
}

-- `ref.Detached = true` of the reference at an index.
unfoldable pub set_detached : List WorkReference → ℕ → List WorkReference
set_detached [] i = []
set_detached (ref ∷ refs) zero = record ref { detached = true } ∷ refs
set_detached (ref ∷ refs) (suc i) = ref ∷ set_detached refs i

-- What the loop keeps: the migration with its changed status, and whether all Works are gone.
pub record Sweep : Type 0 where
  pub m : PvMigration
  pub all : Bool

abbrev pub with_detached : Sweep → ℕ → Sweep
with_detached s i = record s {
  m = record (s.m) { status = record (s.m.status) { works = set_detached s.m.status.works i } };
}

abbrev pub is_same_work : Unstructured → Unstructured → Bool
is_same_work expected w =
    expected.meta.name == w.meta.name && expected.meta.namespace == w.meta.namespace

-- The Work is not the migration's, would take its volume along, or was modified.
unfoldable pub refused : Machinery → PvMigration → Unstructured → Bool
refused k m w =
    (not (label w.meta.labels owner_label == m.meta.uid)
      || not (label w.meta.labels managed_label == manager_name))
    || (not (truth_or_false (k.nested_bool w.spec ("preserveResourcesOnDeletion" ∷ [])))
        || not (work_generation_allowed w m))

-- `hash, err := planHash(…); err != nil || hash != m.Status.PlanHash`
abbrev pub hash_differs : Result String → String → Bool
hash_differs (ok hash) recorded = not (hash == recorded)
hash_differs (err e) recorded = true

module _ (k : Machinery) where
  -- The loop over the plan: whether the Work is one of it, which must then be valid.
  unfoldable pub find_planned :
      PvMigration → WorkReference → Unstructured → List Unstructured → Bool → Result Bool
  find_planned m ref w [] matched = ok matched
  find_planned m ref w (expected ∷ works) matched = elim (is_same_work expected w) [
    | false ↦ find_planned m ref w works matched
    | true ↦ elim (same_truth ref.standalone (standalone_work expected)) [
      | false ↦ err "cleanup Work kind differs from recorded plan"
      | true ↦ elim (validate_work k w expected m) [
        | err e ↦ err e
        | ok valid ↦ find_planned m ref w works true
      ]
    ]
  ]

module _ (k : Machinery) (server : Server) (interval : ℕ) where
  -- The plan must be the recorded one, and hold the Work.
  unfoldable pub check_plan : PvMigration → WorkReference → Unstructured → Action (Unit {0})
  check_plan m ref w = do
    answer ← ask (λ written. server.get_metadata written m.meta.namespace m.spec.metadata_ref)
    md ← try interval (got answer)
    works ← try interval (build_works k m md)
    fail_if interval (hash_differs (plan_hash k m md works) m.status.plan_hash)
        "repair cleanup plan changed"
    matched ← try interval (find_planned k m ref w works false)
    fail_if interval (not matched) "repair cleanup Work absent from plan"

  -- Only a repaired or standalone Work is compared with the plan.
  unfoldable pub check_if_special : PvMigration → WorkReference → Unstructured → Action (Unit {0})
  check_if_special m ref w = elim (not (ref.routing_work_uid == "") || ref.standalone) [
    | true ↦ check_plan m ref w
    | false ↦ pure tt
  ]

  -- A Work that is not being deleted yet.
  unfoldable pub detach : WorkReference → Unstructured → Sweep → Action Sweep
  detach ref w s = do
    fail_if interval (not (work_applied k w))
        ("Work " <> ref.name <> " no longer has valid PV application evidence")
    fail_if interval (ref.standalone && not (standalone_receipt_matches k w ref))
        ("Work " <> ref.name <> " binding differs from durable Ready receipt")
    check_if_special s.m ref w
    answer ← write server (delete_work w)
    must_or_missing interval answer
    pure (record s { all = false })

  unfoldable pub check_found : WorkReference → Unstructured → Sweep → Action Sweep
  check_found ref w s = do
    fail_if interval (refused k s.m w)
        ("refuse deletion: Work " <> ref.name <> " ownership/preservation changed")
    elim w.meta.deleting [ true ↦ pure (record s { all = false }) | false ↦ detach ref w s ]

  abbrev pub by_answer : ℕ → WorkReference → Sweep → Reply Unstructured → Action Sweep
  by_answer i ref s (found w) = check_found ref w s
  by_answer i ref s (failed (not_found e)) = pure (with_detached s i)
  by_answer i ref s (failed (already_exists e)) = return interval (some e)
  by_answer i ref s (failed (other e)) = return interval (some e)

  unfoldable pub sweep_attached : ℕ → WorkReference → Sweep → Action Sweep
  sweep_attached i ref s = do
    fail_if interval (not (ref.namespace == execution_namespace s.m))
        "Work namespace ownership mismatch"
    answer ← ask (λ written. server.get_work written ref.namespace ref.name)
    by_answer i ref s answer

  unfoldable pub sweep_ref : ℕ → WorkReference → Sweep → Action Sweep
  sweep_ref i ref s = do
    fail_if interval (not ref.applied) ("Work " <> ref.name <> " not durably applied")
    elim ref.detached [ true ↦ pure s | false ↦ sweep_attached i ref s ]

  -- The loop, over the references as they were read: a round changes none of the later ones.
  unfoldable pub sweep_refs : ℕ → List WorkReference → Sweep → Action Sweep
  sweep_refs i [] s = pure s
  sweep_refs i (ref ∷ refs) s = do s' ← sweep_ref i ref s; sweep_refs (suc i) refs s'
