-- ===== src/Management/Applied/Receipt.antt =====
-- `standaloneStatus` of internal/management/standalone.go: the reflected status of a Work's single
-- manifest, if it is the receipt of a bound volume or claim.
use karmada_with_pvmigration.Prelude.{
  String, Bool, true, false, not, ◌&&◌, Option, none, some, List, [], ◌∷◌, ◌==◌, ◌<>◌,
  if◌then◌else◌,
}
use karmada_with_pvmigration.Api.Core.{NfsVolumeSource, label}
use karmada_with_pvmigration.Machinery.{
  Machinery, Unstructured, Value, Fields, object, index, text_or_empty, list_or_nil, fields_or_nil,
  nested_differs, is_text, is_null,
}
use karmada_with_pvmigration.Management.Naming.{owner_label, standalone_pair_label}

abbrev pub owner_of : Unstructured → String
owner_of w = label w.meta.labels owner_label

abbrev pub pair_of : Unstructured → String
pair_of w = label w.meta.labels standalone_pair_label

unfoldable pub standalone_work : Unstructured → Bool
standalone_work w = not (pair_of w == "")

-- The only element, if it is a map.
abbrev pub single : List Value → Option Fields
single (object fs ∷ []) = some fs
single _ = none

abbrev pub same_truth : Bool → Bool → Bool
same_truth true b = b
same_truth false b = not b

-- Both conversions succeed, and give one NFS source with a server and a path.
unfoldable pub same_nfs : Option NfsVolumeSource → Option NfsVolumeSource → Bool
same_nfs (some expected) (some actual) =
    (not (expected.server == "") && not (expected.path == ""))
    && (expected.server == actual.server
        && (expected.path == actual.path && same_truth expected.read_only actual.read_only))
same_nfs _ _ = false

module _ (k : Machinery) where
  abbrev pub manifests_of : Unstructured → List Value
  manifests_of w = list_or_nil (k.nested_slice w.spec ("workload" ∷ "manifests" ∷ []))

  abbrev pub statuses_of : Unstructured → List Value
  statuses_of w = list_or_nil (k.nested_slice w.status ("manifestStatuses" ∷ []))

  -- A text of a map, "" where it is missing or not a text.
  abbrev pub read : Fields → List String → String
  read fs path = text_or_empty (k.nested_string (object fs) path)

  abbrev pub api_version_of : Fields → String
  api_version_of obj = read obj ("apiVersion" ∷ [])

  abbrev pub kind_of : Fields → String
  kind_of obj = read obj ("kind" ∷ [])

  abbrev pub name_of : Fields → String
  name_of obj = read obj ("metadata" ∷ "name" ∷ [])

  abbrev pub namespace_of : Fields → String
  namespace_of obj = read obj ("metadata" ∷ "namespace" ∷ [])

  abbrev identifies : Fields → String → String → Bool
  identifies reflection key want =
      not (nested_differs (k.nested_string (object reflection) ("identifier" ∷ key ∷ [])) want)

  -- The reflection's identifier is that of the manifest.
  unfoldable pub same_identifier : Fields → Fields → Bool
  same_identifier reflection obj =
      identifies reflection "group" ""
      && (identifies reflection "version" "v1"
          && (identifies reflection "kind" (kind_of obj)
              && (identifies reflection "name" (name_of obj)
                  && identifies reflection "namespace" (namespace_of obj))))

  abbrev pub status_of : Fields → Fields
  status_of reflection = fields_or_nil (k.nested_map (object reflection) ("status" ∷ []))

  -- The reflected object has a UID, is bound and live, and belongs to the migration.
  unfoldable pub bound_for : Fields → String → Bool
  bound_for status owner =
      not (read status ("uid" ∷ []) == "")
      && (is_text (index status "phase") "Bound"
          && (is_null (index status "deletionTimestamp")
              && (not (owner == "") && is_text (index status "migrationUID") owner)))

  abbrev claims : Fields → Fields → String → Bool
  claims obj status key =
      not (read obj ("spec" ∷ "claimRef" ∷ key ∷ []) == "")
      && read obj ("spec" ∷ "claimRef" ∷ key ∷ []) == read status ("claimRef" ∷ key ∷ [])

  abbrev pub nfs_at : Fields → List String → Option NfsVolumeSource
  nfs_at fs path = k.nfs_from_unstructured (fields_or_nil (k.nested_map (object fs) path))

  -- The case of a PersistentVolume.
  unfoldable pub volume_receipt : Unstructured → Fields → Fields → Bool
  volume_receipt w obj status =
      (w.meta.name == pair_of w && name_of obj == pair_of w && namespace_of obj == "")
      && (claims obj status "name" && claims obj status "namespace")
      && (not (read status ("claimRef" ∷ "uid" ∷ []) == "")
          && same_nfs (nfs_at obj ("spec" ∷ "nfs" ∷ [])) (nfs_at status ("nfs" ∷ [])))

  -- The case of a PersistentVolumeClaim.
  unfoldable pub claim_receipt : Unstructured → Fields → Fields → Bool
  claim_receipt w obj status =
      (w.meta.name == (pair_of w <> "-pvc") && not (namespace_of obj == ""))
      && (read obj ("spec" ∷ "volumeName" ∷ []) == pair_of w
          && is_text (index status "volumeName") (pair_of w))

  unfoldable pub kind_receipt : Unstructured → Fields → Fields → Bool
  kind_receipt w obj status =
      if kind_of obj == "PersistentVolume"
      then volume_receipt w obj status
      else if kind_of obj == "PersistentVolumeClaim"
      then claim_receipt w obj status
      else false

  unfoldable pub is_receipt : Unstructured → Fields → Fields → Bool
  is_receipt w obj reflection =
      (not (pair_of w == "") && (api_version_of obj == "v1" && not (name_of obj == "")))
      && (same_identifier reflection obj
          && (bound_for (status_of reflection) (owner_of w)
              && kind_receipt w obj (status_of reflection)))

  abbrev pub receipt_of : Unstructured → Option Fields → Option Fields → Option Fields
  receipt_of w (some obj) (some reflection) =
      if is_receipt w obj reflection then some (status_of reflection) else none
  receipt_of w _ _ = none

  unfoldable pub standalone_status : Unstructured → Option Fields
  standalone_status w = receipt_of w (single (manifests_of w)) (single (statuses_of w))
