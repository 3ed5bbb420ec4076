-- ===== src/Management/Claims.antt =====
-- `standaloneClaim` of internal/management/standalone.go: the claim that a standalone PVC is rebuilt as.
use karmada_with_pvmigration.Prelude.{
  is_empty, is_some, String, not, ◌||◌, Option, none, some, List, [], ◌∷◌, ◌==◌, ◌<>◌, contains,
  Result, ok, ◌>>=◌, ◌>>◌, reject,
}
use karmada_with_pvmigration.Prelude.Int.{pos, leb_ℤ}
use karmada_with_pvmigration.Api.{PvMigration, VolumeMetadata}
use karmada_with_pvmigration.Api.Core.{PersistentVolumeClaim, PersistentVolumeClaimSpec, Labels}
use karmada_with_pvmigration.Machinery.{Machinery, Fields, delete_key}
use karmada_with_pvmigration.Management.Naming.{owner_label, managed_label, manager_name, named}

-- The labels of an embedded manifest.
abbrev pub manifest_labels : PvMigration → Labels
manifest_labels m =
    (managed_label, manager_name) ∷ (owner_label, m.meta.uid) ∷ ("karmada.io/managed", "true") ∷ []

-- The volume mode, "Filesystem" where it is nil.
abbrev pub volume_mode_of : Option String → String
volume_mode_of none = "Filesystem"
volume_mode_of (some mode) = mode

-- The storage class, "" where it is nil.
abbrev pub class_of : Option String → String
class_of none = ""
class_of (some class) = class

-- Each access mode of the claim is one of the volume.
check_modes : List String → List String → Result (Unit {0})
check_modes [] pv_modes = ok tt
check_modes (mode ∷ modes) pv_modes = do
  reject (not (contains pv_modes mode)) "standalone PVC access mode is incompatible with source PV"
  check_modes modes pv_modes

-- The tests on the claim's spec against the volume's.
unfoldable pub check_claim : VolumeMetadata → PersistentVolumeClaimSpec → Result (Unit {0})
unfolding check_modes
check_claim v spec = do
  reject
      (not (spec.volume_name == v.pv_name)
        || v.pv_name == ""
        || is_some spec.selector
        || is_some spec.data_source
        || is_some spec.data_source_ref
        || is_some spec.volume_attributes_class_name)
      ("standalone PVC " <> v.pvc_name
        <> " has mismatched source PV or unsupported selector/data source/attributes")
  reject
      (leb_ℤ spec.storage (pos 0)
        || not (leb_ℤ spec.storage v.pv_spec.storage)
        || is_empty spec.access_modes)
      ("standalone PVC " <> v.pvc_name <> " has invalid capacity or access modes")
  check_modes spec.access_modes v.pv_spec.access_modes
  reject
      (not (volume_mode_of spec.volume_mode == volume_mode_of v.pv_spec.volume_mode)
        || not (volume_mode_of spec.volume_mode == "Filesystem"))
      "standalone NFS PVC requires matching filesystem volume mode"
  reject (not (class_of spec.storage_class_name == v.pv_spec.storage_class_name))
      "standalone PVC storage class differs from source PV"

-- The claim that is made: the source's spec, with the class pinned and bound to the new volume.
unfoldable pub rebuilt_claim :
    PvMigration → VolumeMetadata → PersistentVolumeClaimSpec → String → PersistentVolumeClaim
rebuilt_claim m v spec pv_name = record {
  meta = record (named m.meta.namespace v.pvc_name) { labels = manifest_labels m };
  spec = record spec {
    storage_class_name = some (class_of spec.storage_class_name);
    volume_name = pv_name;
  };
  phase = "";
}

unfoldable pub standalone_claim :
    Machinery → PvMigration → VolumeMetadata → PersistentVolumeClaimSpec → String → Result Fields
standalone_claim k m v spec pv_name = do
  check_claim v spec
  manifest ← k.pvc_to_unstructured (rebuilt_claim m v spec pv_name)
  ok (delete_key manifest "status")
