-- ===== src/Management/Works/Plan.antt =====
-- Part of `BuildWorks` of internal/management/migration.go: the loop over the mappings.
use Prim.Native.String.{len}
use karmada_with_pvmigration.Prelude.{
  is_empty, String, not, ◌||◌, none, some, List, [], ◌∷◌, ◌++◌, ◌<>◌, contains, put, ltb, Result,
  ok, err, ◌>>=◌, ◌>>◌, reject,
}
use karmada_with_pvmigration.Prelude.Int.{ℤ}
use karmada_with_pvmigration.Api.{PvMigration, PvMetadata, VolumeMetadata, VolumeMapping}
use karmada_with_pvmigration.Machinery.{Machinery, Unstructured}
use karmada_with_pvmigration.Management.Works.Snapshot.{
  find_snapshot, current_snapshot, index_volumes, find_volume,
}
use karmada_with_pvmigration.Management.Works.Source.{check_lane, source_spec}
use karmada_with_pvmigration.Management.Works.Manifests.{execution_namespace, mapping_works}

-- The maps that the loop over the mappings keeps, and the Works so far.
pub record Plan : Type 0 where
  pub seen_source : List String
  pub seen_target : List String
  pub source_ordinals : List (String × ℤ)
  pub works : List Unstructured

-- `volumes[mapping.SourcePVC]`
abbrev pub source_volume : List VolumeMetadata → VolumeMapping → Result VolumeMetadata
source_volume volumes mapping = elim (find_volume volumes mapping.source_pvc) [
  | none ↦ err ("source PVC " <> mapping.source_pvc <> " not present in snapshot")
  | some v ↦ ok v
]

abbrev pub empty_plan : Plan
empty_plan = record { seen_source = []; seen_target = []; source_ordinals = []; works = [] }

module _ (k : Machinery) where
  -- One round of the loop over the mappings.
  unfoldable pub plan_mapping :
      PvMigration → PvMetadata → List VolumeMetadata → VolumeMapping → Plan → Result Plan
  plan_mapping m md volumes mapping p = do
    reject (contains p.seen_source mapping.source_pvc || contains p.seen_target mapping.target_pvc)
        "PVC mapping must be one-to-one"
    v ← source_volume volumes mapping
    ordinals ← check_lane k md mapping v p.source_ordinals
    reject (not (k.is_dns1123_subdomain mapping.target_pvc)) "invalid target PVC name"
    spec ← source_spec m mapping v
    ws ← mapping_works k m md mapping v spec
    ok (record {
      seen_source = put mapping.source_pvc p.seen_source;
      seen_target = put mapping.target_pvc p.seen_target;
      source_ordinals = ordinals;
      works = p.works ++ ws;
    })

  unfoldable pub plan_mappings :
      PvMigration → PvMetadata → List VolumeMetadata → List VolumeMapping → Plan → Result Plan
  plan_mappings m md volumes [] p = ok p
  plan_mappings m md volumes (mapping ∷ rest) p = do
    p' ← plan_mapping m md volumes mapping p
    plan_mappings m md volumes rest p'

  unfoldable pub build_works : PvMigration → PvMetadata → Result (List Unstructured)
  build_works m md = do
    reject (is_empty m.spec.volumes) "at least one explicit PVC mapping is required"
    reject
        (not (k.is_dns1123_subdomain m.spec.target_cluster) || ltb 63 (len (execution_namespace m)))
        "invalid target execution namespace"
    best ← find_snapshot m.spec.source_cluster md.status.clusters none
    snapshot ← current_snapshot md best
    volumes ← index_volumes snapshot.volumes []
    plan ← plan_mappings m md volumes m.spec.volumes empty_plan
    ok plan.works
