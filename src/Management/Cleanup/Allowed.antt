-- ===== src/Management/Cleanup/Allowed.antt =====
-- What a pass of the cleanup controller may write.
use karmada_with_pvmigration.Prelude.{ℕ, true, false, some, List, [], ◌∷◌, ◌≡◌, ◌≢◌, ◌⊎◌, ok, found}
use karmada_with_pvmigration.Api.{PvMigration, PvMetadata, WorkReference}
use karmada_with_pvmigration.Api.Core.{label}
use karmada_with_pvmigration.Machinery.{Machinery, Unstructured}
use karmada_with_pvmigration.Management.Naming.{owner_label, managed_label, manager_name}
use karmada_with_pvmigration.Management.Works.Manifests.{execution_namespace}
use karmada_with_pvmigration.Management.Works.Plan.{build_works}
use karmada_with_pvmigration.Management.Binding.Gates.{truth_or_false}
use karmada_with_pvmigration.Management.Applied.Receipt.{standalone_work}
use karmada_with_pvmigration.Management.Applied.Evidence.{work_applied, standalone_receipt_matches}
use karmada_with_pvmigration.Management.Routing.Repair.{
  ref_at, work_generation_allowed, validate_work,
}
use karmada_with_pvmigration.Management.Hash.{plan_hash}
use karmada_with_pvmigration.Management.Server.{
  Write, Server, patch_status, create_work, patch_work, delete_work, create_metadata, create_policy,
}
use karmada_with_pvmigration.Management.Migration.References.{every}
use karmada_with_pvmigration.Management.Migration.Allowed.{work_at}
use karmada_with_pvmigration.Management.Cleanup.References.{is_gone, Detaches}

-- The status of the migration is that of the source, with more references marked as detached;
-- "Completed" is said where each Work is applied and detached.
pub record IsMarked (m m' : PvMigration) : Type 0 where
  pub meta : m'.meta ≡ m.meta
  pub spec : m'.spec ≡ m.spec
  pub hash : m'.status.plan_hash ≡ m.status.plan_hash
  pub generation : m'.status.observed_generation ≡ m.status.observed_generation
  pub works : Detaches m.status.works m'.status.works
  pub phase :
      (m'.status.phase ≡ "Ready")
      ⊎ ((m'.status.phase ≡ "Completed") × (every is_gone m'.status.works ≡ true))

-- The Work is one of the recorded plan, of the recorded kind, and valid.
pub record IsOfPlan (k : Machinery) (m : PvMigration) (ref : WorkReference) (w : Unstructured)
    : Type 0 where
  pub md : PvMetadata
  pub works : List Unstructured
  pub i : ℕ
  pub expected : Unstructured
  pub built : build_works k m md ≡ ok works
  pub hashed : plan_hash k m md works ≡ ok m.status.plan_hash
  pub planned : work_at works i ≡ some expected
  pub same_name : expected.meta.name ≡ w.meta.name
  pub same_namespace : expected.meta.namespace ≡ w.meta.namespace
  pub same_kind : ref.standalone ≡ standalone_work expected
  pub valid : validate_work k w expected m ≡ ok tt

module _ (k : Machinery) (server : Server) (m : PvMigration) where
  -- The Work of a reference that is applied, as the server has just shown it: live, the migration's
  -- own, unmodified, keeping its volume, and applied with the recorded receipt. `now` is the
  -- migration with the references that were found gone so far.
  pub record IsDelete (w : Unstructured) : Type 0 where
    pub now : PvMigration
    pub i : ℕ
    pub ref : WorkReference
    pub written : List Write
    pub same_meta : now.meta ≡ m.meta
    pub same_spec : now.spec ≡ m.spec
    pub same_hash : now.status.plan_hash ≡ m.status.plan_hash
    pub marks : Detaches m.status.works now.status.works
    pub recorded : ref_at m.status.works i ≡ some ref
    pub applied : ref.applied ≡ true
    pub attached : ref.detached ≡ false
    pub in_target : ref.namespace ≡ execution_namespace m
    pub read : server.get_work written ref.namespace ref.name ≡ found w
    pub live : w.meta.deleting ≡ false
    pub owner : label w.meta.labels owner_label ≡ m.meta.uid
    pub manager : label w.meta.labels managed_label ≡ manager_name
    pub preserves :
        truth_or_false (k.nested_bool w.spec ("preserveResourcesOnDeletion" ∷ [])) ≡ true
    pub unmodified : work_generation_allowed w now ≡ true
    pub evident : work_applied k w ≡ true
    pub receipt : ref.standalone ≡ true → standalone_receipt_matches k w ref ≡ true
    pub of_plan : (ref.standalone ≡ true) ⊎ (ref.routing_work_uid ≢ "") → IsOfPlan k now ref w

  -- Nothing is made, and no Work is changed.
  abbrev pub IsAllowed : Write → Type 0
  IsAllowed (patch_status m') = IsMarked m m'
  IsAllowed (create_work w) = ⊥
  IsAllowed (patch_work w) = ⊥
  IsAllowed (delete_work w) = IsDelete w
  IsAllowed (create_metadata md) = ⊥
  IsAllowed (create_policy w) = ⊥
