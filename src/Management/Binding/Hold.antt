-- ===== src/Management/Binding/Hold.antt =====
-- `validateSelectedTargetHold`: a binding that already selects the target must be held by the very
-- restore operation that the migration belongs to.
use karmada_with_pvmigration.Prelude.{
  String, not, ◌||◌, List, [], ◌∷◌, ◌==◌, ◌<>◌, Result, ok, err, Reply, found, failed, error_text,
  ◌>>=◌, ◌>>◌, reject,
}
use karmada_with_pvmigration.Api.{PvMigration, PvMetadata}
use karmada_with_pvmigration.Api.Core.{label}
use karmada_with_pvmigration.Machinery.{
  Machinery, Unstructured, Value, text_or_empty, nested_differs,
}

abbrev pub request_uid_key : String
request_uid_key = "training.dcnlab.com/placement-restore-request-uid"

-- `strings.Join(path, ".")`
join_path : List String → String
join_path [] = ""
join_path (p ∷ []) = p
join_path (p ∷ ps) = p <> "." <> join_path ps

-- The table of fields that the restore request must have under `spec`.
abbrev pub hold_checks :
    PvMigration → PvMetadata → Unstructured → String → List (List String × String)
hold_checks m md rb workload_uid =
    (("sourceCluster" ∷ []), m.spec.source_cluster)
    ∷ (("targetCluster" ∷ []), m.spec.target_cluster)
    ∷ (("workloadRef" ∷ "apiVersion" ∷ []), "apps/v1")
    ∷ (("workloadRef" ∷ "kind" ∷ []), "StatefulSet")
    ∷ (("workloadRef" ∷ "name" ∷ []), md.spec.workload_ref.name)
    ∷ (("workloadRef" ∷ "uid" ∷ []), workload_uid)
    ∷ (("groupRestore" ∷ "operationUID" ∷ []), rb.meta.uid)
    ∷ (("groupRestore" ∷ "sourceWorldUID" ∷ []), workload_uid)
    ∷ []

-- `fmt.Errorf("read bound restore request: %w", err)` around the read.
abbrev pub bound_request : Reply Unstructured → Result Unstructured
bound_request (found u) = ok u
bound_request (failed e) = err ("read bound restore request: " <> error_text e)

module _ (k : Machinery) where
  unfoldable pub run_checks : Value → List (List String × String) → Result (Unit {0})
  unfolding join_path
  run_checks spec [] = ok tt
  run_checks spec ((path, want) ∷ checks) = do
    reject (nested_differs (k.nested_string spec path) want)
        ("bound restore request " <> join_path path <> " mismatch")
    run_checks spec checks

  -- `get_request` answers the read of the RestoreRequest by namespace and name.
  unfoldable pub validate_selected_target_hold :
      (String → String → Reply Unstructured)
      → PvMigration
      → PvMetadata
      → Unstructured
      → Result (Unit {0})
  validate_selected_target_hold get_request m md rb = do
    let operation = label m.meta.annotations request_uid_key
    let a = rb.meta.annotations
    reject
        (operation == ""
          || not (label a request_uid_key == operation)
          || not (label a "migration.dcnlab.com/group-volume-hold" == operation))
        "migration and binding must belong to the same restore hold"
    reject
        (m.meta.uid == ""
          || not (label a "migration.dcnlab.com/pv-migration" == m.meta.name)
          || not (label a "migration.dcnlab.com/pv-migration-uid" == m.meta.uid))
        "binding must reference the current PVMigration name and UID"
    reject (rb.meta.uid == "" || rb.meta.deleting || md.meta.deleting)
        "binding or source metadata identity is not live"
    let workload_uid = text_or_empty (k.nested_string rb.spec ("resource" ∷ "uid" ∷ []))
    let namespace = text_or_empty (k.nested_string rb.spec ("resource" ∷ "namespace" ∷ []))
    reject (not (workload_uid == md.spec.workload_ref.uid) || not (namespace == m.meta.namespace))
        "binding workload identity does not match source metadata"
    let name = label a "training.dcnlab.com/placement-restore-request"
    reject (name == "") "binding restore request name is missing"
    request ← bound_request (get_request m.meta.namespace name)
    reject (not (request.meta.uid == operation) || request.meta.deleting)
        "bound restore request UID is stale or deleting"
    run_checks request.spec (hold_checks m md rb workload_uid)
