-- ===== src/Management/Works/Source.antt =====
-- Part of `BuildWorks` of internal/management/migration.go: the checks on one mapping, and the
-- spec of the volume that is rebuilt.
use karmada_with_pvmigration.Prelude.{
  is_empty, is_some, String, Bool, false, not, ◌||◌, Option, none, some, List, [], ◌∷◌, ◌==◌, ◌<>◌,
  Result, ok, err, ◌>>=◌, ◌>>◌, reject, if◌then◌else◌,
}
use karmada_with_pvmigration.Prelude.Int.{ℤ, same_ℤ}
use karmada_with_pvmigration.Api.{PvMigration, PvMetadata, VolumeMetadata, VolumeMapping}
use karmada_with_pvmigration.Api.Core.{
  PersistentVolume, PersistentVolumeSpec, ObjectReference, NfsVolumeSource,
}
use karmada_with_pvmigration.Machinery.{Machinery}
use karmada_with_pvmigration.Management.Naming.{named, valid_ordinal_pvc, trim_prefix}
use karmada_with_pvmigration.Management.Claims.{manifest_labels}

-- `sourceOrdinalByTarget[target]`
unfoldable pub prior_ordinal : List (String × ℤ) → String → Option ℤ
prior_ordinal [] target = none
prior_ordinal ((t, o) ∷ os) target = if t == target then some o else prior_ordinal os target

abbrev pub differs : Option ℤ → ℤ → Bool
differs none o = false
differs (some p) o = not (same_ℤ p o)

module _ (k : Machinery) where
  -- The lane of a mapping: a standalone claim keeps its name, any other one its claim template and
  -- one source ordinal for each target ordinal. Returns the ordinals recorded so far.
  unfoldable pub check_lane :
      PvMetadata → VolumeMapping → VolumeMetadata → List (String × ℤ) → Result (List (String × ℤ))
  check_lane md mapping v ordinals =
      let prefix = v.template_name <> "-" <> md.spec.workload_ref.name <> "-" in
      if v.standalone
      then (do
        reject
            (not (v.template_name == "")
              || not (is_some v.pvc_spec)
              || not (mapping.source_pvc == mapping.target_pvc))
            "standalone PVC requires source spec and identical source/target names"
        ok ordinals)
      else (do
        reject (v.template_name == "" || not (valid_ordinal_pvc k mapping.target_pvc prefix))
            "source and target PVC must use the same claim template"
        let target = trim_prefix mapping.target_pvc prefix
        reject (differs (prior_ordinal ordinals target) v.ordinal)
            "all volumes for a target ordinal must come from one source ordinal"
        ok ((target, v.ordinal) ∷ ordinals))

-- The NFS source of a volume that can be rebuilt elsewhere.
unfoldable pub portable_nfs :
    PersistentVolumeSpec → String → Option NfsVolumeSource → Result NfsVolumeSource
portable_nfs spec pvc none = err (
    "PVC " <> pvc
    <> " requires portable NFS without node affinity; CSI/EBS/local sources are unsupported")
portable_nfs spec pvc (some nfs) = do
  reject (nfs.server == "" || nfs.path == "" || is_some spec.node_affinity) (
      "PVC " <> pvc
      <> " requires portable NFS without node affinity; CSI/EBS/local sources are unsupported")
  ok nfs

-- The source volume must be bound to the recorded claim.
unfoldable pub check_source_claim :
    PvMigration → VolumeMetadata → Option ObjectReference → Result (Unit {0})
check_source_claim m v none = err "source PV/PVC binding identity mismatch"
check_source_claim m v (some ref) =
    reject
      (not (ref.namespace == m.meta.namespace)
        || not (ref.name == v.pvc_name)
        || not (ref.uid == v.pvc_uid)
        || v.pvc_uid == "")
      "source PV/PVC binding identity mismatch"

-- The spec of the rebuilt volume: the NFS source alone, retained, reserved for the target claim.
unfoldable pub rebuilt_spec :
    PvMigration → VolumeMapping → PersistentVolumeSpec → NfsVolumeSource → PersistentVolumeSpec
rebuilt_spec m mapping spec nfs = record spec {
  nfs = some nfs;
  other_sources = [];
  reclaim_policy = "Retain";
  claim_ref = some (record {
    api_version = "v1";
    kind = "PersistentVolumeClaim";
    namespace = m.meta.namespace;
    name = mapping.target_pvc;
    uid = "";
  });
}

unfoldable pub rebuilt_volume : PvMigration → String → PersistentVolumeSpec → PersistentVolume
rebuilt_volume m pv_name spec = record {
  meta = record (named "" pv_name) { labels = manifest_labels m };
  spec = spec;
  phase = "";
}

-- The checks on the source volume's spec, and the spec that is rebuilt from it.
unfoldable pub source_spec :
    PvMigration → VolumeMapping → VolumeMetadata → Result PersistentVolumeSpec
unfolding portable_nfs check_source_claim rebuilt_spec
source_spec m mapping v = do
  nfs ← portable_nfs v.pv_spec v.pvc_name v.pv_spec.nfs
  check_source_claim m v v.pv_spec.claim_ref
  reject (not (is_empty v.pv_spec.other_sources)) "ambiguous PV volume sources"
  ok (rebuilt_spec m mapping v.pv_spec nfs)
