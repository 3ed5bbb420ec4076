-- ===== src/Management/Binding/Held.antt =====
-- What the check of the restore hold has established when it returns no error:
-- `validateSelectedTargetHold` of internal/management/migration.go.
use karmada_with_pvmigration.Prelude.{
  String, false, not, ◌||◌, List, [], ◌∷◌, ◌==◌, ◌≡◌, ◌≢◌, ◌∙◌, arith, eq_iff, All, ok, Reply,
  found, failed, >>=-eq-ok, reject,
}
use karmada_with_pvmigration.Api.{PvMigration, PvMetadata}
use karmada_with_pvmigration.Api.Core.{label}
use karmada_with_pvmigration.Machinery.{
  Machinery, Unstructured, Value, Nested, present, absent, mistyped, text_or_empty, nested_differs,
}
use karmada_with_pvmigration.Management.Binding.Hold.{
  hold_checks, bound_request, run_checks, validate_selected_target_hold,
}

-- The operation that a migration belongs to.
abbrev pub operation_of : PvMigration → String
operation_of m = label m.meta.annotations "training.dcnlab.com/placement-restore-request-uid"

-- The binding and the migration belong to one operation, whose request the server has, under the name
-- that the binding gives, live, with the UID of the operation, and for this very move.
pub record IsHeld (k : Machinery) (get_request : String → String → Reply Unstructured)
    (m : PvMigration) (md : PvMetadata) (rb : Unstructured) : Type 0 where
  pub has_operation : operation_of m ≢ ""
  pub same_operation :
      label rb.meta.annotations "training.dcnlab.com/placement-restore-request-uid" ≡ operation_of m
  pub volume_hold :
      label rb.meta.annotations "migration.dcnlab.com/group-volume-hold" ≡ operation_of m
  pub has_uid : m.meta.uid ≢ ""
  pub migration_name : label rb.meta.annotations "migration.dcnlab.com/pv-migration" ≡ m.meta.name
  pub migration_uid : label rb.meta.annotations "migration.dcnlab.com/pv-migration-uid" ≡ m.meta.uid
  pub binding_uid : rb.meta.uid ≢ ""
  pub binding_live : rb.meta.deleting ≡ false
  pub metadata_live : md.meta.deleting ≡ false
  pub workload_uid :
      text_or_empty (k.nested_string rb.spec ("resource" ∷ "uid" ∷ [])) ≡ md.spec.workload_ref.uid
  pub namespace :
      text_or_empty (k.nested_string rb.spec ("resource" ∷ "namespace" ∷ [])) ≡ m.meta.namespace
  pub has_request : label rb.meta.annotations "training.dcnlab.com/placement-restore-request" ≢ ""
  pub request : Unstructured
  pub read :
      get_request m.meta.namespace
        (label rb.meta.annotations "training.dcnlab.com/placement-restore-request")
      ≡ found request
  pub request_uid : request.meta.uid ≡ operation_of m
  pub request_live : request.meta.deleting ≡ false
  pub source :
      text_or_empty (k.nested_string request.spec ("sourceCluster" ∷ [])) ≡ m.spec.source_cluster
  pub target :
      text_or_empty (k.nested_string request.spec ("targetCluster" ∷ [])) ≡ m.spec.target_cluster
  pub request_version :
      text_or_empty (k.nested_string request.spec ("workloadRef" ∷ "apiVersion" ∷ [])) ≡ "apps/v1"
  pub request_kind :
      text_or_empty (k.nested_string request.spec ("workloadRef" ∷ "kind" ∷ [])) ≡ "StatefulSet"
  pub request_name :
      text_or_empty (k.nested_string request.spec ("workloadRef" ∷ "name" ∷ []))
      ≡ md.spec.workload_ref.name
  pub request_workload :
      text_or_empty (k.nested_string request.spec ("workloadRef" ∷ "uid" ∷ []))
      ≡ md.spec.workload_ref.uid
  pub group_operation :
      text_or_empty (k.nested_string request.spec ("groupRestore" ∷ "operationUID" ∷ []))
      ≡ rb.meta.uid
  pub source_world :
      text_or_empty (k.nested_string request.spec ("groupRestore" ∷ "sourceWorldUID" ∷ []))
      ≡ md.spec.workload_ref.uid

nested_differs-false :
    (n : Nested String) (want : String) → nested_differs n want ≡ false → text_or_empty n ≡ want
nested_differs-false (present s) want h = ground (arith, eq_iff s want)
nested_differs-false absent want h = ground (arith, eq_iff "" want)
nested_differs-false mistyped want h = cc

bound_request-eq-ok :
    (r : Reply Unstructured) (u : Unstructured) → bound_request r ≡ ok u → r ≡ found u
bound_request-eq-ok (found v) u h = cc
bound_request-eq-ok (failed e) u h = cc

run_checks-All :
    (k : Machinery) (spec : Value) (checks : List (List String × String))
    → run_checks k spec checks ≡ ok tt
    → All (λ (c : List String × String). text_or_empty (k.nested_string spec c.0) ≡ c.1) checks
unfolding run_checks
run_checks-All k spec [] h = tt
run_checks-All k spec ((path, want) ∷ checks) h =
    let (_, same, rest) =
      >>=-eq-ok (reject (nested_differs (k.nested_string spec path) want) _) _ h in
    (
      nested_differs-false (k.nested_string spec path) want (ground arith),
      run_checks-All k spec checks rest,
    )

module _ (k : Machinery) (get_request : String → String → Reply Unstructured) (m : PvMigration)
    (md : PvMetadata) (rb : Unstructured) where
  pub hold-IsHeld :
      validate_selected_target_hold k get_request m md rb ≡ ok tt → IsHeld k get_request m md rb
  unfolding validate_selected_target_hold
  hold-IsHeld h =
      let a = rb.meta.annotations in
      let operation = operation_of m in
      let workload_uid = text_or_empty (k.nested_string rb.spec ("resource" ∷ "uid" ∷ [])) in
      let namespace = text_or_empty (k.nested_string rb.spec ("resource" ∷ "namespace" ∷ [])) in
      let (_, one, h₁) =
        >>=-eq-ok
          (reject
            (operation == ""
              || not (label a "training.dcnlab.com/placement-restore-request-uid" == operation)
              || not (label a "migration.dcnlab.com/group-volume-hold" == operation))
            _)
          _ h in
      let (_, two, h₂) =
        >>=-eq-ok
          (reject
            (m.meta.uid == ""
              || not (label a "migration.dcnlab.com/pv-migration" == m.meta.name)
              || not (label a "migration.dcnlab.com/pv-migration-uid" == m.meta.uid))
            _)
          _ h₁ in
      let (_, three, h₃) =
        >>=-eq-ok (reject (rb.meta.uid == "" || rb.meta.deleting || md.meta.deleting) _) _ h₂ in
      let (_, four, h₄) =
        >>=-eq-ok
          (reject
            (not (workload_uid == md.spec.workload_ref.uid) || not (namespace == m.meta.namespace))
            _)
          _ h₃ in
      let (_, five, h₅) =
        >>=-eq-ok (reject (label a "training.dcnlab.com/placement-restore-request" == "") _) _ h₄ in
      let (request, six, h₆) =
        >>=-eq-ok
          (bound_request (
            get_request m.meta.namespace (label a "training.dcnlab.com/placement-restore-request")))
          _ h₅ in
      let (_, seven, h₇) =
        >>=-eq-ok (reject (not (request.meta.uid == operation) || request.meta.deleting) _) _ h₆ in
      let (own_operation, own_annotation, own_hold) = first_test _ one in
      let (own_uid, own_name, own_reference) = second_test _ two in
      let (rb_uid, rb_live, md_live) = third_test _ three in
      let (same_workload, same_namespace) = fourth_test workload_uid namespace _ four in
      let (uid, live) = last_test request _ seven in
      let (source, (target, (version, (kind, (name, (ref_uid, (group, (world, _)))))))) =
        run_checks-All k request.spec (hold_checks m md rb workload_uid) h₇ in
      record {
        has_operation = own_operation;
        same_operation = own_annotation;
        volume_hold = own_hold;
        has_uid = own_uid;
        migration_name = own_name;
        migration_uid = own_reference;
        binding_uid = rb_uid;
        binding_live = rb_live;
        metadata_live = md_live;
        workload_uid = same_workload;
        namespace = same_namespace;
        has_request = has_name _ five;
        request = request;
        read = bound_request-eq-ok _ request six;
        request_uid = uid;
        request_live = live;
        source = source;
        target = target;
        request_version = version;
        request_kind = kind;
        request_name = name;
        request_workload = ref_uid ∙ same_workload;
        group_operation = group;
        source_world = world ∙ same_workload;
      }
    where
      a : List (String × String)
      a = rb.meta.annotations

      first_test :
          (e : String)
          → reject
              (operation_of m == ""
                || not
                    (label a "training.dcnlab.com/placement-restore-request-uid" == operation_of m)
                || not (label a "migration.dcnlab.com/group-volume-hold" == operation_of m))
              e
            ≡ ok tt
          → (operation_of m ≢ "")
            × (label a "training.dcnlab.com/placement-restore-request-uid" ≡ operation_of m)
            × (label a "migration.dcnlab.com/group-volume-hold" ≡ operation_of m)
      first_test e h = ground (
        arith,
        eq_iff (operation_of m) "",
        eq_iff (label a "training.dcnlab.com/placement-restore-request-uid") (operation_of m),
        eq_iff (label a "migration.dcnlab.com/group-volume-hold") (operation_of m),
      )

      second_test :
          (e : String)
          → reject
              (m.meta.uid == ""
                || not (label a "migration.dcnlab.com/pv-migration" == m.meta.name)
                || not (label a "migration.dcnlab.com/pv-migration-uid" == m.meta.uid))
              e
            ≡ ok tt
          → (m.meta.uid ≢ "")
            × (label a "migration.dcnlab.com/pv-migration" ≡ m.meta.name)
            × (label a "migration.dcnlab.com/pv-migration-uid" ≡ m.meta.uid)
      second_test e h = ground (
        arith,
        eq_iff m.meta.uid "",
        eq_iff (label a "migration.dcnlab.com/pv-migration") m.meta.name,
        eq_iff (label a "migration.dcnlab.com/pv-migration-uid") m.meta.uid,
      )

      third_test :
          (e : String)
          → reject (rb.meta.uid == "" || rb.meta.deleting || md.meta.deleting) e ≡ ok tt
          → (rb.meta.uid ≢ "") × (rb.meta.deleting ≡ false) × (md.meta.deleting ≡ false)
      third_test e h = ground (arith, eq_iff rb.meta.uid "")

      fourth_test :
          (uid namespace e : String)
          → reject (not (uid == md.spec.workload_ref.uid) || not (namespace == m.meta.namespace)) e
            ≡ ok tt
          → (uid ≡ md.spec.workload_ref.uid) × (namespace ≡ m.meta.namespace)
      fourth_test uid namespace e h =
          ground (arith, eq_iff uid md.spec.workload_ref.uid, eq_iff namespace m.meta.namespace)

      has_name :
          (e : String)
          → reject (label a "training.dcnlab.com/placement-restore-request" == "") e ≡ ok tt
          → label a "training.dcnlab.com/placement-restore-request" ≢ ""
      has_name e h =
          ground (arith, eq_iff (label a "training.dcnlab.com/placement-restore-request") "")

      last_test :
          (request : Unstructured) (e : String)
          → reject (not (request.meta.uid == operation_of m) || request.meta.deleting) e ≡ ok tt
          → (request.meta.uid ≡ operation_of m) × (request.meta.deleting ≡ false)
      last_test request e h = ground (arith, eq_iff request.meta.uid (operation_of m))
