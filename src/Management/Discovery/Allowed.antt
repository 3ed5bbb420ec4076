-- ===== src/Management/Discovery/Allowed.antt =====
-- What a pass of the discovery controller may write, and about which objects.
use karmada_with_pvmigration.Prelude.{
  String, false, List, [], ◌∷◌, ◌≡◌, ◌≢◌, ◌⊎◌, All, ok, found, failed, not_found,
}
use karmada_with_pvmigration.Api.{PvMetadata}
use karmada_with_pvmigration.Api.Core.{StatefulSet, label}
use karmada_with_pvmigration.Machinery.{
  Machinery, Unstructured, Value, Fields, object, index, text_or_empty, text, slice, end, field,
  nil, cons,
}
use karmada_with_pvmigration.Management.Naming.{
  opt_in_label, managed_label, manager_name, stable_name, controller_owner,
}
use karmada_with_pvmigration.Management.Server.{
  Write, Server, patch_status, create_work, patch_work, delete_work, create_metadata, create_policy,
}
use karmada_with_pvmigration.Management.Discovery.{listed_clusters, text_of}

-- An entry of a list.
abbrev pub IsEntry : Value → List Value → Type 0
IsEntry v [] = ⊥
IsEntry v (x ∷ xs) = (v ≡ x) ⊎ IsEntry v xs

module _ (k : Machinery) (server : Server) (rb : Unstructured) (sts : StatefulSet) where
  -- The binding lists the cluster.
  pub record IsListed (cluster : String) : Type 0 where
    pub entries : List Value
    pub fs : Fields
    pub listed : listed_clusters k rb ≡ ok entries
    pub entry : IsEntry (object fs) entries
    pub named : text_of (index fs "name") ≡ cluster
    pub has_name : cluster ≢ ""

  -- The metadata of the StatefulSet in a listed cluster, under the name that the UID and the cluster
  -- determine, where the server has none.
  pub record IsNewMetadata (md : PvMetadata) : Type 0 where
    pub cluster : String
    pub listed : IsListed cluster
    pub name : md.meta.name ≡ stable_name k "pvm" (sts.meta.uid ∷ cluster ∷ [])
    pub namespace : md.meta.namespace ≡ sts.meta.namespace
    pub manager : label md.meta.labels managed_label ≡ manager_name
    pub workload : md.spec.workload_ref.name ≡ sts.meta.name
    pub workload_uid : md.spec.workload_ref.uid ≡ sts.meta.uid
    pub source : md.spec.source_cluster ≡ cluster
    pub written : List Write
    pub message : String
    pub missing :
        server.get_metadata written sts.meta.namespace md.meta.name ≡ failed (not_found message)

  -- The policy of the metadata that the server shows for a listed cluster: under its name, controlled
  -- by it, and placing it in that cluster alone, where the server has no policy of the name.
  pub record IsNewPolicy (w : Unstructured) : Type 0 where
    pub cluster : String
    pub listed : IsListed cluster
    pub name : w.meta.name ≡ stable_name k "pvm" (sts.meta.uid ∷ cluster ∷ [])
    pub namespace : w.meta.namespace ≡ sts.meta.namespace
    pub md : PvMetadata
    pub read_after : List Write
    pub read : server.get_metadata read_after sts.meta.namespace w.meta.name ≡ found md
    pub source : md.spec.source_cluster ≡ cluster
    pub workload : md.spec.workload_ref.name ≡ sts.meta.name
    pub workload_uid : md.spec.workload_ref.uid ≡ sts.meta.uid
    pub manager : label md.meta.labels managed_label ≡ manager_name
    pub owner :
        w.owners
        ≡ controller_owner "migration.dcnlab.com/v1alpha1" "PVMetadata" md.meta.name md.meta.uid
          ∷ []
    pub policy_manager : label w.meta.labels managed_label ≡ manager_name
    pub spec :
        w.spec
        ≡ object (
            field "resourceSelectors"
              (slice (
                cons
                  (object (
                    field "apiVersion" (text "migration.dcnlab.com/v1alpha1") (
                      field "kind" (text "PVMetadata") (
                        field "name"
                          (text md.meta.name)
                          (field "namespace" (text md.meta.namespace) end)))))
                  nil))
              (field "placement"
                (object (
                  field "clusterAffinity"
                    (object (field "clusterNames" (slice (cons (text cluster) nil)) end))
                    end))
                end))
    pub written : List Write
    pub message : String
    pub missing :
        server.get_policy written sts.meta.namespace w.meta.name ≡ failed (not_found message)

  abbrev pub IsAllowed : Write → Type 0
  IsAllowed (patch_status m') = ⊥
  IsAllowed (create_work w) = ⊥
  IsAllowed (patch_work w) = ⊥
  IsAllowed (delete_work w) = ⊥
  IsAllowed (create_metadata md) = IsNewMetadata md
  IsAllowed (create_policy w) = IsNewPolicy w

-- Nothing is written, or all is about one binding and StatefulSet that the server has.
unfoldable pub IsDiscovery : Machinery → Server → String → String → List Write → Type 0
IsDiscovery k server namespace name writes =
    (writes ≡ [])
    ⊎ ((rb : Unstructured) × (sts : StatefulSet) × ((server.reads []).get_binding namespace name
          ≡ found rb)
        × (text_or_empty (k.nested_string rb.spec ("resource" ∷ "kind" ∷ [])) ≡ "StatefulSet")
        × (text_or_empty (k.nested_string rb.spec ("resource" ∷ "apiVersion" ∷ [])) ≡ "apps/v1")
        × (rb.meta.deleting ≡ false)
        × ((server.reads []).get_stateful_set namespace
              (text_or_empty (k.nested_string rb.spec ("resource" ∷ "name" ∷ [])))
            ≡ found sts)
        × (label sts.meta.labels opt_in_label ≡ "enabled")
        × All (IsAllowed k server rb sts) writes)
