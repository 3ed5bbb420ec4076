-- ===== src/Management/Discovery/Created.antt =====
-- What a pass makes, the next pass accepts.
use karmada_with_pvmigration.Prelude.{ℕ, String, true, ◌≡◌, refl, found, List, [], ◌∷◌, ◌∙◌, map}
use karmada_with_pvmigration.Api.{PvMetadata}
use karmada_with_pvmigration.Api.Core.{StatefulSet, ObjectMeta, label}
use karmada_with_pvmigration.Machinery.{
  Machinery, Fields, text, slice, object, index, of_elements, present,
}
use karmada_with_pvmigration.Management.Naming.{controller_owner}
use karmada_with_pvmigration.Management.Server.{Server, go}
use karmada_with_pvmigration.Management.Discovery.{
  new_metadata, new_policy, policy_spec, affinity_path, metadata_name, discover,
}
use karmada_with_pvmigration.Management.Discovery.Settled.{in_place}

-- `IsControlledBy` accepts an owner reference with the UID of the owner. `NestedStringSlice` goes into
-- the map that it finds under the first key, and reads a slice of texts under the last one.
pub record ReadsPolicies (k : Machinery) : Type 0 where
  pub owned :
      (api_version kind name : String) (owner : ObjectMeta)
      → k.is_controlled_by (controller_owner api_version kind name owner.uid ∷ []) owner ≡ true
  pub inside :
      (fs inner : Fields) (key : String) (path : List String)
      → index fs key ≡ object inner
      → k.nested_string_slice (object fs) (key ∷ path) ≡ k.nested_string_slice (object inner) path
  pub texts :
      (fs : Fields) (key : String) (ss : List String)
      → index fs key ≡ slice (of_elements (map text ss))
      → k.nested_string_slice (object fs) (key ∷ []) ≡ present ss

-- The clusters of the placement that a pass makes.
placed_in :
    (k : Machinery) (md : PvMetadata) (cluster : String)
    → ReadsPolicies k
    → k.nested_string_slice (policy_spec md cluster) affinity_path ≡ present (cluster ∷ [])
unfolding index
placed_in k md cluster reads =
    reads.inside _ _ "placement" ("clusterAffinity" ∷ "clusterNames" ∷ []) refl
    ∙ reads.inside _ _ "clusterAffinity" ("clusterNames" ∷ []) refl
    ∙ reads.texts _ "clusterNames" (cluster ∷ []) refl

-- The metadata with what the server fills in.
abbrev pub stored_metadata : StatefulSet → String → String → String → ℕ → PvMetadata
stored_metadata sts cluster name uid generation =
    let md = new_metadata sts cluster name in
    record md { meta = record (md.meta) { uid = uid; generation = generation } }

-- Where IsControlledBy accepts the UID of the owner, and NestedStringSlice follows the keys: if the server has stored the
-- metadata and the policy that a pass makes for a cluster, under a UID of its own, then a pass finds
-- nothing to do for the cluster, and goes on without an error.
pub discover-new_policy :
    (k : Machinery) (server : Server) (interval : ℕ) (sts : StatefulSet) (cluster uid : String)
    (generation : ℕ)
    → ReadsPolicies k
    → server.get_metadata [] sts.meta.namespace (metadata_name k server interval sts cluster)
      ≡ found
          (stored_metadata sts cluster (metadata_name k server interval sts cluster) uid generation)
    → server.get_policy [] sts.meta.namespace (metadata_name k server interval sts cluster)
      ≡ found (
          new_policy sts cluster (metadata_name k server interval sts cluster) (
            stored_metadata sts cluster
              (metadata_name k server interval sts cluster)
              uid
              generation))
    → discover k server interval sts cluster (metadata_name k server interval sts cluster) []
      ≡ (go tt, [])
unfolding new_policy label
discover-new_policy k server interval sts cluster uid generation reads read read_policy =
    let name = metadata_name k server interval sts cluster in
    let md = stored_metadata sts cluster name uid generation in
    in_place k server sts interval cluster (record {
      md = md;
      pp = new_policy sts cluster name md;
      read = read;
      source = refl;
      workload = refl;
      workload_uid = refl;
      manager = refl;
      read_policy = read_policy;
      owned = reads.owned _ _ _ md.meta;
      placed = placed_in k md cluster reads;
    })
