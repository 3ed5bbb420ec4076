-- ===== src/Management/Works/Manifests.antt =====
-- Part of `BuildWorks` of internal/management/migration.go: the Works of one mapping, with
-- `setWorkRouting` of work_routing.go.
use karmada_with_pvmigration.Prelude.{
  String, true, Option, none, some, List, [], ◌∷◌, ◌<>◌, Result, ok, err, ◌>>=◌, if◌then◌else◌,
}
use karmada_with_pvmigration.Api.{PvMigration, PvMetadata, VolumeMetadata, VolumeMapping}
use karmada_with_pvmigration.Api.Core.{PersistentVolumeClaimSpec, PersistentVolumeSpec, Labels}
use karmada_with_pvmigration.Machinery.{
  Machinery, Unstructured, Value, Fields, truth, text, slice, object, end, field, delete_key,
  of_elements, list_or_nil,
}
use karmada_with_pvmigration.Management.Naming.{
  owner_label, managed_label, manager_name, standalone_pair_label, named, new_object, stable_name,
}
use karmada_with_pvmigration.Management.Claims.{standalone_claim}
use karmada_with_pvmigration.Management.Works.Source.{rebuilt_volume}

-- The execution namespace of the target cluster.
abbrev pub execution_namespace : PvMigration → String
execution_namespace m = "karmada-es-" <> m.spec.target_cluster

-- `map[string]interface{}{"preserveResourcesOnDeletion": true, "workload": {"manifests": [resource]}}`
abbrev pub work_spec : Fields → Value
work_spec resource = object (
    field "preserveResourcesOnDeletion" (truth true) (
      field "workload" (object (field "manifests" (slice (of_elements (object resource ∷ []))) end))
        end))

abbrev pub manifests_path : List String
manifests_path = "workload" ∷ "manifests" ∷ []

module _ (k : Machinery) where
  -- The routing annotations of one manifest. `entry.(map[string]interface{})` panics on anything but
  -- a map, which controller-runtime turns into an error.
  route_entry : Unstructured → Value → Result Value
  route_entry w (object fs) =
      let named =
        k.set_nested_field (object fs) (text w.meta.name)
          ("metadata" ∷ "annotations" ∷ "work.karmada.io/name" ∷ []) in
      ok (
        k.set_nested_field named (text w.meta.namespace)
          ("metadata" ∷ "annotations" ∷ "work.karmada.io/namespace" ∷ []))
  route_entry w other = err "panic: interface conversion"

  pub route_entries : Unstructured → List Value → Result (List Value)
  route_entries w [] = ok []
  route_entries w (v ∷ vs) = do v' ← route_entry w v; vs' ← route_entries w vs; ok (v' ∷ vs')

  unfoldable pub set_work_routing : Unstructured → Result Unstructured
  unfolding route_entries route_entry
  set_work_routing w = do
    manifests ← route_entries w (list_or_nil (k.nested_slice w.spec manifests_path))
    ok (record w { spec = k.set_nested_slice w.spec manifests manifests_path })

  -- One Work for one manifest.
  abbrev pub work_labels : PvMigration → VolumeMetadata → String → Labels
  work_labels m v pv_name =
      (managed_label, manager_name)
      ∷ (owner_label, m.meta.uid)
      ∷ (if v.standalone then (standalone_pair_label, pv_name) ∷ [] else [])

  unfoldable pub make_work :
      PvMigration → VolumeMetadata → String → String → Fields → Result Unstructured
  unfolding set_work_routing
  make_work m v pv_name name resource =
      set_work_routing (record (new_object "Work" (execution_namespace m) name) {
        meta = record (named (execution_namespace m) name) { labels = work_labels m v pv_name };
        spec = work_spec resource;
      })

  abbrev pub pv_name_of : PvMigration → PvMetadata → VolumeMapping → String
  pv_name_of m md mapping = stable_name k "pvm" (
      md.spec.workload_ref.uid ∷ m.spec.target_cluster ∷ m.meta.namespace ∷ mapping.target_pvc ∷ [])

  -- The manifest of the claim, for a standalone volume.
  unfoldable pub claim_manifests :
      PvMigration
      → VolumeMetadata
      → String
      → Option PersistentVolumeClaimSpec
      → Result (List Fields)
  claim_manifests m v pv_name none = ok []
  claim_manifests m v pv_name (some spec) =
      if v.standalone
      then (do claim ← standalone_claim k m v spec pv_name; ok (claim ∷ []))
      else ok []

  -- The Works of the claims, named after the volume.
  unfoldable pub claim_works :
      PvMigration → VolumeMetadata → String → List Fields → Result (List Unstructured)
  claim_works m v pv_name [] = ok []
  claim_works m v pv_name (claim ∷ claims) = do
    w ← make_work m v pv_name (pv_name <> "-pvc") claim
    ws ← claim_works m v pv_name claims
    ok (w ∷ ws)

  -- The Works of one checked mapping: that of the volume, and that of a standalone claim.
  unfoldable pub mapping_works :
      PvMigration
      → PvMetadata
      → VolumeMapping
      → VolumeMetadata
      → PersistentVolumeSpec
      → Result (List Unstructured)
  mapping_works m md mapping v spec = do
    manifest ← k.pv_to_unstructured (rebuilt_volume m (pv_name_of m md mapping) spec)
    claims ← claim_manifests m v (pv_name_of m md mapping) v.pvc_spec
    w ←
        make_work m v (pv_name_of m md mapping) (pv_name_of m md mapping)
          (delete_key manifest "status")
    ws ← claim_works m v (pv_name_of m md mapping) claims
    ok (w ∷ ws)
