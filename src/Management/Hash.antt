-- ===== src/Management/Hash.antt =====
-- `planHash` of internal/management/plan.go: the digest of what must not change once a plan has begun.

pub mod Stable
use karmada_with_pvmigration.Prelude.{
  String, List, [], ◌∷◌, ◌++◌, ◌==◌, Result, ok, ◌>>=◌, if◌then◌else◌,
}
use karmada_with_pvmigration.Api.{
  PvMigration, PvMetadata, ClusterSnapshot, VolumeMetadata, VolumeMapping,
}
use karmada_with_pvmigration.Machinery.{Machinery, Unstructured, Value, text, slice, of_elements}
use karmada_with_pvmigration.Management.Routing.Repair.{remove_work_routing}

-- `[]string{volume.PVCName, volume.PVCUID, volume.PVName}`
abbrev pub identity_of : VolumeMetadata → Value
identity_of v = slice (of_elements (text v.pvc_name ∷ text v.pvc_uid ∷ text v.pv_name ∷ []))

-- The volumes of one mapping.
abbrev pub mapped_volumes : VolumeMapping → List VolumeMetadata → List Value
mapped_volumes mapping [] = []
mapped_volumes mapping (v ∷ vs) =
    let rest = mapped_volumes mapping vs in
    if v.pvc_name == mapping.source_pvc then identity_of v ∷ rest else rest

abbrev pub mapping_parts : List VolumeMapping → List VolumeMetadata → List Value
mapping_parts [] volumes = []
mapping_parts (mapping ∷ mappings) volumes =
    mapped_volumes mapping volumes ++ mapping_parts mappings volumes

-- The loop over the snapshots: those of the source cluster.
abbrev pub snapshot_parts : String → List VolumeMapping → List ClusterSnapshot → List Value
snapshot_parts source mappings [] = []
snapshot_parts source mappings (s ∷ ss) =
    let rest = snapshot_parts source mappings ss in
    if s.cluster_name == source
    then text s.workload_uid ∷ (mapping_parts mappings s.volumes ++ rest)
    else rest

module _ (k : Machinery) where
  -- The spec of each Work, without the routing.
  unfoldable pub work_parts : List Unstructured → Result (List Value)
  work_parts [] = ok []
  work_parts (w ∷ ws) = do
    legacy ← remove_work_routing k w
    rest ← work_parts ws
    ok (legacy.spec ∷ rest)

  unfoldable pub plan_hash : PvMigration → PvMetadata → List Unstructured → Result String
  plan_hash m md works = do
    specs ← work_parts works
    encoded ←
        k.json_marshal
          (snapshot_parts m.spec.source_cluster m.spec.volumes md.status.clusters ++ specs)
    ok (k.sha256_hex encoded)
