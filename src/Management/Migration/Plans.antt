-- ===== src/Management/Migration/Plans.antt =====
-- The first pass of PVMigrationReconciler.Reconcile over a migration that is accepted.
use karmada_with_pvmigration.Prelude.{
  String, false, [], ◌∷◌, ◌≡◌, ap, is_empty, List, ok, found, refl, Bool, true, not, ◌||◌, ◌==◌,
  map, arith, eq_refl,
}
use karmada_with_pvmigration.Prelude.Int.{ℤ}
use karmada_with_pvmigration.Api.{PvMigration, PvMetadata, WorkReference}
use karmada_with_pvmigration.Machinery.{Machinery, Unstructured}
use karmada_with_pvmigration.Api.Core.{label}
use karmada_with_pvmigration.Management.Naming.{standalone_pair_label}
use karmada_with_pvmigration.Management.Applied.Receipt.{same_truth, standalone_work}
use karmada_with_pvmigration.Management.Migration.Sync.{identity_changed}
use karmada_with_pvmigration.Management.Binding.Gates.{validate_binding}
use karmada_with_pvmigration.Management.Works.Plan.{build_works}
use karmada_with_pvmigration.Management.Hash.{plan_hash}
use karmada_with_pvmigration.Management.Server.{
  Server, ◌>>=◌, pure, return, try, ask, write, patch_status, writes_of,
}
use karmada_with_pvmigration.Management.Server.Rules.{end_writes}
use karmada_with_pvmigration.Management.Migration.Phase.{delay}
use karmada_with_pvmigration.Management.Migration.Pass.{
  is_over, reference_of, with_plan, record_plan, with_hash, advance, reconcile,
}

-- The reference has the identity of the Work, which is not made, applied, repaired or detached, and the
-- loop of the later passes takes it for that of the Work.
pub record IsReference (w : Unstructured) (ref : WorkReference) : Type 0 where
  pub name_is : ref.name ≡ w.meta.name
  pub namespace_is : ref.namespace ≡ w.meta.namespace
  pub standalone_is : ref.standalone ≡ not (label w.meta.labels standalone_pair_label == "")
  pub no_volume : ref.pv_uid ≡ ""
  pub no_claim : ref.pvc_uid ≡ ""
  pub unrepaired : ref.routing_work_uid ≡ ""
  pub unapplied : ref.applied ≡ false
  pub attached : ref.detached ≡ false
  pub accepted : identity_changed ref w ≡ false

-- One reference for each Work, in their order.
abbrev pub AreReferences : List Unstructured → List WorkReference → Type 0
AreReferences [] [] = Unit
AreReferences [] (ref ∷ refs) = ⊥
AreReferences (w ∷ ws) [] = ⊥
AreReferences (w ∷ ws) (ref ∷ refs) = IsReference w ref × AreReferences ws refs

-- The status records the plan, and nothing but the status is changed.
pub record RecordsPlan (m : PvMigration) (works : List Unstructured) (hash : String)
    (m' : PvMigration) : Type 0 where
  pub meta : m'.meta ≡ m.meta
  pub spec : m'.spec ≡ m.spec
  pub phase : m'.status.phase ≡ "Preparing"
  pub generation : m'.status.observed_generation ≡ m.meta.generation
  pub plan_is : m'.status.plan_hash ≡ hash
  pub references : AreReferences works m'.status.works

reference_of-accepted : (w : Unstructured) → identity_changed (reference_of w) w ≡ false
unfolding identity_changed
reference_of-accepted w = by_pair (standalone_work w)
  where
    by_pair :
        (b : Bool)
        → ((not (w.meta.name == w.meta.name) || not (w.meta.namespace == w.meta.namespace))
            || not (same_truth b b))
          ≡ false
    by_pair true = ground (arith, eq_refl w.meta.name, eq_refl w.meta.namespace)
    by_pair false = ground (arith, eq_refl w.meta.name, eq_refl w.meta.namespace)

reference_of-IsReference : (w : Unstructured) → IsReference w (reference_of w)
reference_of-IsReference w = record {
  name_is = refl;
  namespace_is = refl;
  standalone_is = unfold standalone_work in refl;
  no_volume = refl;
  no_claim = refl;
  unrepaired = refl;
  unapplied = refl;
  attached = refl;
  accepted = reference_of-accepted w;
}

map-AreReferences : (works : List Unstructured) → AreReferences works (map reference_of works)
map-AreReferences [] = tt
map-AreReferences (w ∷ ws) = (reference_of-IsReference w, map-AreReferences ws)

with_plan-RecordsPlan :
    (m : PvMigration) (works : List Unstructured) (hash : String)
    → RecordsPlan m works hash (with_plan m hash works)
with_plan-RecordsPlan m works hash = record {
  meta = refl;
  spec = refl;
  phase = refl;
  generation = refl;
  plan_is = refl;
  references = map-AreReferences works;
}

module _ (k : Machinery) (server : Server) (poll_interval : ℤ) (m : PvMigration) (md : PvMetadata)
    (works : List Unstructured) (hash : String) where
  pub plan-written :
      (namespace name : String)
      → server.get_migration [] namespace name ≡ found m
      → is_over m ≡ false
      → server.get_metadata [] m.meta.namespace m.spec.metadata_ref ≡ found md
      → validate_binding k (server.reads []) m md ≡ ok tt
      → build_works k m md ≡ ok works
      → plan_hash k m md works ≡ ok hash
      → m.status.works ≡ []
      → writes_of (reconcile k server poll_interval namespace name)
        ≡ patch_status (with_plan m hash works) ∷ []
  unfolding reconcile ◌>>=◌ ask return
  plan-written namespace name read running read_md valid built hashed new =
      rw (read, running)
        (unfold advance with_hash record_plan ◌>>=◌ ask try pure write in
          rw (read_md, valid, built, hashed, with_hash, ap is_empty new)
            (end_writes (Unit {0}) (delay poll_interval)
              (server.answer [] (patch_status (with_plan m hash works)))
              (patch_status (with_plan m hash works) ∷ [])))

  -- If a migration is not over, its request is accepted, its Works and their hash are determined, and
  -- nothing is recorded yet, then the pass writes one status patch alone.
  -- It leaves metadata and spec, says "Preparing", and records the hash of the plan and a reference
  -- for each Work in its order: with its name, its namespace and whether it has the pair label, none
  -- of them applied, repaired or detached. The loop of a later pass takes each for that of its Work.
  pub first_pass :
      (namespace name : String)
      → server.get_migration [] namespace name ≡ found m
      → is_over m ≡ false
      → server.get_metadata [] m.meta.namespace m.spec.metadata_ref ≡ found md
      → validate_binding k (server.reads []) m md ≡ ok tt
      → build_works k m md ≡ ok works
      → plan_hash k m md works ≡ ok hash
      → m.status.works ≡ []
      → (m' : PvMigration) × RecordsPlan m works hash m'
        × (writes_of (reconcile k server poll_interval namespace name) ≡ patch_status m' ∷ [])
  first_pass namespace name read running read_md valid built hashed new = (
    with_plan m hash works,
    with_plan-RecordsPlan m works hash,
    plan-written namespace name read running read_md valid built hashed new,
  )
