-- ===== src/Management/Binding/Gates.antt =====
-- `validateBinding`: the gates in their order.
use karmada_with_pvmigration.Prelude.{
  String, Bool, false, not, ◌||◌, List, [], ◌∷◌, ◌==◌, ◌<>◌, length, eqb, Result, ok, err, Reply,
  got, ◌>>=◌, ◌>>◌, reject, if◌then◌else◌,
}
use karmada_with_pvmigration.Api.{PvMigration, PvMetadata}
use karmada_with_pvmigration.Api.Core.{StatefulSet}
use karmada_with_pvmigration.Machinery.{
  Machinery, Unstructured, Value, object, Nested, present, absent, mistyped, index, text_or_empty,
  list_or_nil, is_text,
}
use karmada_with_pvmigration.Management.Binding.Reserved.{check_peers}
use karmada_with_pvmigration.Management.Binding.Hold.{validate_selected_target_hold}
use karmada_with_pvmigration.Management.Binding.Targets.{
  mark_standalone, check_targets, check_ordinals,
}

-- The answers of the Karmada API to the reads of one validation, by namespace and name.
pub record Reads : Type 0 where
  pub get_binding : String → String → Reply Unstructured
  pub get_stateful_set : String → String → Reply StatefulSet
  pub list_migrations : String → Reply (List PvMigration)
  pub get_restore_request : String → String → Reply Unstructured

-- `suspended, _, _ := NestedBool(…)`
abbrev pub truth_or_false : Nested Bool → Bool
truth_or_false (present b) = b
truth_or_false absent = false
truth_or_false mistyped = false

-- `c, ok := item.(map[string]interface{}); ok && c["name"] == target`
unfoldable pub selects : String → Value → Bool
selects target (object fs) = is_text (index fs "name") target
selects target _ = false

-- The error of the hold check, as it is wrapped.
abbrev pub wrap_hold : Result (Unit {0}) → Result (Unit {0})
wrap_hold (ok u) = ok u
wrap_hold (err e) = err (
    "target is already selected by ResourceBinding; pre-stage PVs before changing placement or retain the exact operation hold: "
    <> e)

-- The loop over `spec.clusters`: where the target is selected it must be alone, and held.
unfoldable pub check_clusters : String → Bool → Result (Unit {0}) → List Value → Result (Unit {0})
check_clusters target alone hold [] = ok tt
check_clusters target alone hold (item ∷ items) =
    if selects target item
    then (do
      reject (not alone)
          "target is already selected by ResourceBinding; split placement cannot stage PVs"
      wrap_hold hold
      check_clusters target alone hold items)
    else check_clusters target alone hold items

-- The tests on the request itself.
unfoldable pub check_request : PvMigration → PvMetadata → Result (Unit {0})
check_request m md = do
  reject (not m.spec.source_fenced)
      "sourceFenced must attest that the source workload can no longer write"
  reject
      (m.spec.source_cluster == m.spec.target_cluster
        || m.spec.source_cluster == ""
        || m.spec.target_cluster == "")
      "different source and target clusters are required"
  reject (not (md.spec.source_cluster == m.spec.source_cluster))
      "metadata belongs to a different source cluster"

module _ (k : Machinery) (reads : Reads) where
  -- A text under `spec.resource` of the binding.
  abbrev pub resource_text : Unstructured → String → String
  resource_text rb key = text_or_empty (k.nested_string rb.spec ("resource" ∷ key ∷ []))

  -- The binding must be for the metadata's StatefulSet.
  unfoldable pub check_resource : PvMetadata → Unstructured → Result (Unit {0})
  check_resource md rb =
      reject
        (not (resource_text rb "kind" == "StatefulSet")
          || not (resource_text rb "apiVersion" == "apps/v1")
          || not (resource_text rb "name" == md.spec.workload_ref.name))
        "ResourceBinding does not match PVMetadata StatefulSet"

  -- The StatefulSet must be the recorded one, and its dispatching suspended.
  unfoldable pub check_workload : PvMetadata → Unstructured → StatefulSet → Result (Unit {0})
  check_workload md rb sts = do
    reject (md.spec.workload_ref.uid == "" || not (md.spec.workload_ref.uid == sts.meta.uid))
        "PVMetadata belongs to an old or unspecified StatefulSet UID"
    reject (not (truth_or_false (k.nested_bool rb.spec ("suspension" ∷ "dispatching" ∷ []))))
        "suspend ResourceBinding dispatching before requesting PV migration"

  abbrev pub clusters_of : Unstructured → List Value
  clusters_of rb = list_or_nil (k.nested_slice rb.spec ("clusters" ∷ []))

  unfoldable pub check_placement : PvMigration → PvMetadata → Unstructured → Result (Unit {0})
  check_placement m md rb =
      check_clusters m.spec.target_cluster (eqb (length (clusters_of rb)) 1)
        (validate_selected_target_hold k reads.get_restore_request m md rb) (clusters_of rb)

  unfoldable pub validate_binding : PvMigration → PvMetadata → Result (Unit {0})
  validate_binding m md = do
    check_request m md
    rb ← got (reads.get_binding m.meta.namespace m.spec.resource_binding)
    check_resource md rb
    sts ← got (reads.get_stateful_set m.meta.namespace (resource_text rb "name"))
    check_workload md rb sts
    peers ← got (reads.list_migrations m.meta.namespace)
    check_peers m peers
    check_placement m md rb
    by_ordinal ←
        check_targets k sts (mark_standalone m.spec.source_cluster md.status.clusters [])
          m.spec.volumes []
    check_ordinals sts by_ordinal
