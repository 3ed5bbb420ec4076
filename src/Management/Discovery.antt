-- ===== src/Management/Discovery.antt =====
-- internal/management/discovery.go: the controller that has the volumes of a StatefulSet recorded in
-- each member cluster that its ResourceBinding lists.
pub mod Allowed
pub mod Clusters
pub mod Safe
pub mod Settled
pub mod Repeated
pub mod Created
use karmada_with_pvmigration.Prelude.{
  ℕ, String, Bool, true, false, not, ◌||◌, Option, none, some, List, [], ◌∷◌, ◌==◌, ◌<>◌, Result,
  ok, err, Reply, found, failed, ApiError, not_found, already_exists, other, got, if◌then◌else◌,
}
use karmada_with_pvmigration.Prelude.Int.{ℤ, pos, pos_part, leb_ℤ}
use karmada_with_pvmigration.Api.{PvMetadata}
use karmada_with_pvmigration.Api.Core.{StatefulSet, label}
use karmada_with_pvmigration.Machinery.{
  Machinery, Unstructured, Value, Fields, null, text, slice, object, end, field, nil, cons, index,
  Nested, present, absent, mistyped, text_or_empty,
}
use karmada_with_pvmigration.Management.Naming.{
  opt_in_label, managed_label, manager_name, named, new_object, stable_name, controller_owner,
}
use karmada_with_pvmigration.Management.Server.{
  Server, Action, ◌>>=◌, ◌>>◌, pure, return, try, ask, must_or_exists, write, fail_if,
  create_metadata, create_policy, ignore_not_found,
}

-- In nanoseconds; thirty seconds where the interval is not positive.
unfoldable pub interval_or_default : ℤ → ℕ
interval_or_default d = if leb_ℤ d (pos 0) then 30000000000 else pos_part d

-- The binding is not that of a StatefulSet, or is being deleted.
unfoldable pub is_ignored : Machinery → Unstructured → Bool
is_ignored k rb =
    not (text_or_empty (k.nested_string rb.spec ("resource" ∷ "kind" ∷ [])) == "StatefulSet")
    || (not (text_or_empty (k.nested_string rb.spec ("resource" ∷ "apiVersion" ∷ [])) == "apps/v1")
        || rb.meta.deleting)

-- `NestedSlice(rb.Object, "spec", "clusters")`; the text of its error is apimachinery's.
unfoldable pub listed_clusters : Machinery → Unstructured → Result (List Value)
listed_clusters k rb = elim (k.nested_slice rb.spec ("clusters" ∷ [])) [
  | present entries ↦ ok entries
  | absent ↦ ok []
  | mistyped ↦ err ".spec.clusters accessor error"
]

-- `name, _ := value.(string)`
abbrev pub text_of : Value → String
text_of (text s) = s
text_of _ = ""

-- The metadata of a StatefulSet in one cluster, as it is made.
abbrev pub new_metadata : StatefulSet → String → String → PvMetadata
new_metadata sts cluster name = record {
  meta = record (named sts.meta.namespace name) { labels = (managed_label, manager_name) ∷ [] };
  spec = record {
    workload_ref = record { name = sts.meta.name; uid = sts.meta.uid };
    source_cluster = cluster;
  };
  status = record {
    observed_generation = 0;
    ready = false;
    message = "";
    collected_at = none;
    workload_uid = "";
    volumes = [];
    clusters = [];
  };
}

-- Metadata of that name that is not of this StatefulSet, cluster and manager.
unfoldable pub conflicts : StatefulSet → String → PvMetadata → Bool
conflicts sts cluster md =
    (not (md.spec.source_cluster == cluster) || not (md.spec.workload_ref.name == sts.meta.name))
    || (not (md.spec.workload_ref.uid == sts.meta.uid)
        || not (label md.meta.labels managed_label == manager_name))

-- `spec` of a policy: it selects one PVMetadata, and places it in one cluster.
abbrev pub policy_spec : PvMetadata → String → Value
policy_spec md cluster = object (
    field "resourceSelectors"
      (slice (
        cons
          (object (
            field "apiVersion" (text "migration.dcnlab.com/v1alpha1") (
              field "kind" (text "PVMetadata") (
                field "name" (text md.meta.name)
                  (field "namespace" (text md.meta.namespace) end)))))
          nil))
      (field "placement"
        (object (
          field "clusterAffinity"
            (object (field "clusterNames" (slice (cons (text cluster) nil)) end)) end))
        end))

unfoldable pub new_policy : StatefulSet → String → String → PvMetadata → Unstructured
new_policy sts cluster name md = record (new_object "PropagationPolicy" sts.meta.namespace name) {
  meta = record (named sts.meta.namespace name) { labels = (managed_label, manager_name) ∷ [] };
  owners =
      controller_owner "migration.dcnlab.com/v1alpha1" "PVMetadata" md.meta.name md.meta.uid ∷ [];
  spec = policy_spec md cluster;
}

-- `len(names) != 1 || names[0] != clusterName`, where a failed read gives no names.
abbrev pub differ : Nested (List String) → String → Bool
differ (present (name ∷ [])) cluster = not (name == cluster)
differ (present (name ∷ name' ∷ names)) cluster = true
differ (present []) cluster = true
differ absent cluster = true
differ mistyped cluster = true

abbrev pub affinity_path : List String
affinity_path = "placement" ∷ "clusterAffinity" ∷ "clusterNames" ∷ []

module _ (k : Machinery) (server : Server) (interval : ℕ) (sts : StatefulSet) where
  -- Missing metadata is made, and read again.
  abbrev pub metadata_by_answer : String → String → Reply PvMetadata → Action PvMetadata
  metadata_by_answer cluster name (found md) = pure md
  metadata_by_answer cluster name (failed (not_found e)) = do
    answer ← write server (create_metadata (new_metadata sts cluster name))
    must_or_exists interval answer
    again ← ask (λ written. server.get_metadata written sts.meta.namespace name)
    try interval (got again)
  metadata_by_answer cluster name (failed (already_exists e)) = return interval (some e)
  metadata_by_answer cluster name (failed (other e)) = return interval (some e)

  -- A policy that is there must be the metadata's and of its cluster, a missing one is made.
  abbrev pub policy_by_answer :
      String → String → PvMetadata → Reply Unstructured → Action (Unit {0})
  policy_by_answer cluster name md (found pp) = do
    fail_if interval (not (k.is_controlled_by pp.owners md.meta))
        ("PropagationPolicy " <> name <> " ownership conflict")
    fail_if interval (differ (k.nested_string_slice pp.spec affinity_path) cluster)
        ("PropagationPolicy " <> name <> " was retargeted")
  policy_by_answer cluster name md (failed (not_found e)) = do
    answer ← write server (create_policy (new_policy sts cluster name md))
    must_or_exists interval answer
  policy_by_answer cluster name md (failed (already_exists e)) = return interval (some e)
  policy_by_answer cluster name md (failed (other e)) = return interval (some e)

  -- One cluster.
  unfoldable pub discover : String → String → Action (Unit {0})
  discover cluster name = do
    answer ← ask (λ written. server.get_metadata written sts.meta.namespace name)
    md ← metadata_by_answer cluster name answer
    fail_if interval (conflicts sts cluster md)
        ("PVMetadata " <> name <> " ownership/spec conflict")
    answer' ← ask (λ written. server.get_policy written sts.meta.namespace name)
    policy_by_answer cluster name md answer'

  abbrev pub metadata_name : String → String
  metadata_name cluster = stable_name k "pvm" (sts.meta.uid ∷ cluster ∷ [])

  -- An entry without a name is passed over.
  unfoldable pub discover_entry : Value → Action (Unit {0})
  discover_entry (object fs) = elim (text_of (index fs "name") == "") [
    | true ↦ pure tt
    | false ↦ discover (text_of (index fs "name")) (metadata_name (text_of (index fs "name")))
  ]
  discover_entry null = return interval (some "invalid ResourceBinding cluster")
  discover_entry _ = return interval (some "invalid ResourceBinding cluster")

  unfoldable pub discover_entries : List Value → Action (Unit {0})
  discover_entries [] = pure tt
  discover_entries (entry ∷ entries) = do discover_entry entry; discover_entries entries

module _ (k : Machinery) (server : Server) (interval : ℕ) where
  -- A StatefulSet that has opted in.
  unfoldable pub discover_all : Unstructured → StatefulSet → Action (Unit {0})
  discover_all rb sts = elim (label sts.meta.labels opt_in_label == "enabled") [
    | false ↦ return interval none
    | true ↦ do
      entries ← try interval (listed_clusters k rb)
      discover_entries k server interval sts entries
      return interval none
  ]

  -- A binding of a StatefulSet.
  unfoldable pub follow_binding : String → Unstructured → Action (Unit {0})
  follow_binding namespace rb = do
    let name = text_or_empty (k.nested_string rb.spec ("resource" ∷ "name" ∷ []))
    answer ← ask (λ written. (server.reads written).get_stateful_set namespace name)
    elim answer [
      | failed e ↦ return interval (ignore_not_found e)
      | found sts ↦ discover_all rb sts
    ]

unfoldable pub reconcile : Machinery → Server → ℤ → String → String → Action (Unit {0})
reconcile k server poll_interval namespace name = do
  answer ← ask (λ written. (server.reads written).get_binding namespace name)
  elim answer [
    | failed e ↦ return 0 (ignore_not_found e)
    | found rb ↦ elim (is_ignored k rb) [
      | true ↦ return 0 none
      | false ↦ follow_binding k server (interval_or_default poll_interval) namespace rb
    ]
  ]
