-- ===== src/Management/Migration/Allowed.antt =====
-- What a pass of the PVMigration controller may write.
use karmada_with_pvmigration.Prelude.{
  ℕ, zero, suc, String, true, false, Option, none, some, List, [], ◌∷◌, map, ◌≡◌, ◌≢◌, ◌⊎◌, inr, ok,
  failed, not_found,
}
use karmada_with_pvmigration.Api.{PvMigration, PvMetadata, WorkReference}
use karmada_with_pvmigration.Machinery.{Machinery, Unstructured}
use karmada_with_pvmigration.Management.Works.Manifests.{set_work_routing}
use karmada_with_pvmigration.Management.Works.Plan.{build_works}
use karmada_with_pvmigration.Management.Routing.Repair.{ref_at}
use karmada_with_pvmigration.Management.Hash.{plan_hash}
use karmada_with_pvmigration.Management.Server.{
  Write, Server, patch_status, create_work, patch_work, delete_work, create_metadata, create_policy,
}
use karmada_with_pvmigration.Management.Migration.References.{
  identity, is_settled, is_attached, every, every_attached-identity,
}

-- `works[i]`, none out of range.
abbrev pub work_at : List Unstructured → ℕ → Option Unstructured
work_at [] i = none
work_at (w ∷ ws) zero = some w
work_at (w ∷ ws) (suc i) = work_at ws i

-- A new status of the migration: a recorded plan stays, and "Ready" is said of settled Works alone.
pub record IsPatch (m m' : PvMigration) : Type 0 where
  pub meta : m'.meta ≡ m.meta
  pub spec : m'.spec ≡ m.spec
  pub plan :
      (m.status.works ≡ [])
      ⊎ ((map identity m'.status.works ≡ map identity m.status.works)
          × (m'.status.plan_hash ≡ m.status.plan_hash))
  pub fresh : m.status.works ≡ [] → every is_attached m'.status.works ≡ true
  pub ready : m'.status.phase ≡ "Ready" → every is_settled m'.status.works ≡ true
  pub open_end : m'.status.phase ≢ "Completed"

-- A status that keeps the plan.
pub keeps_plan :
    (m m' : PvMigration)
    → m'.meta ≡ m.meta
    → m'.spec ≡ m.spec
    → map identity m'.status.works ≡ map identity m.status.works
    → m'.status.plan_hash ≡ m.status.plan_hash
    → (m'.status.phase ≡ "Ready" → every is_settled m'.status.works ≡ true)
    → m'.status.phase ≢ "Completed"
    → IsPatch m m'
keeps_plan m m' meta spec kept hash ready open_end = record {
  meta = meta;
  spec = spec;
  plan = inr (kept, hash);
  fresh = λ none. every_attached-identity m'.status.works [] (rw none at kept);
  ready = ready;
  open_end = open_end;
}

module _ (k : Machinery) (server : Server) (m : PvMigration) where
  -- A Work of the recorded plan that has neither been applied, repaired nor detached, and that the
  -- server does not have.
  pub record IsCreate (w : Unstructured) : Type 0 where
    pub md : PvMetadata
    pub works : List Unstructured
    pub hash : String
    pub i : ℕ
    pub ref : WorkReference
    pub built : build_works k m md ≡ ok works
    pub hashed : plan_hash k m md works ≡ ok hash
    pub unchanged_plan : hash ≡ m.status.plan_hash
    pub planned : work_at works i ≡ some w
    pub recorded : ref_at m.status.works i ≡ some ref
    pub same_name : w.meta.name ≡ ref.name
    pub same_namespace : w.meta.namespace ≡ ref.namespace
    pub unapplied : ref.applied ≡ false
    pub attached : ref.detached ≡ false
    pub unrepaired : ref.routing_work_uid ≡ ""
    pub written : List Write
    pub message : String
    pub missing : server.get_work written ref.namespace ref.name ≡ failed (not_found message)

  -- The routing is added to a Work of generation 1 under the recorded intent for its UID.
  pub record IsRewrite (w : Unstructured) : Type 0 where
    pub actual : Unstructured
    pub i : ℕ
    pub ref : WorkReference
    pub routed : set_work_routing k actual ≡ ok w
    pub recorded : ref_at m.status.works i ≡ some ref
    pub intended : ref.routing_work_uid ≡ actual.meta.uid
    pub intended_generation : ref.routing_generation ≡ 2
    pub unapplied : ref.applied ≡ false
    pub attached : ref.detached ≡ false
    pub first_generation : actual.meta.generation ≡ 1
    pub live : actual.meta.deleting ≡ false

  -- Nothing is deleted, and no object of another kind is made.
  abbrev pub IsAllowed : Write → Type 0
  IsAllowed (patch_status m') = IsPatch m m'
  IsAllowed (create_work w) = IsCreate w
  IsAllowed (patch_work w) = IsRewrite w
  IsAllowed (delete_work w) = ⊥
  IsAllowed (create_metadata md) = ⊥
  IsAllowed (create_policy w) = ⊥
