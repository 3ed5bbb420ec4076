-- ===== src/Management/Works/Snapshot.antt =====
-- Part of `BuildWorks` of internal/management/migration.go: the choice of the source snapshot.
use karmada_with_pvmigration.Prelude.{
  is_some, String, not, ◌||◌, Option, none, some, List, [], ◌∷◌, ◌==◌, ◌<>◌, eqb, Result, ok, err,
  ◌>>◌, reject, if◌then◌else◌,
}
use karmada_with_pvmigration.Api.{PvMetadata, VolumeMetadata, ClusterSnapshot}

-- The one snapshot of the source cluster, if there is one; a second one is an error.
unfoldable pub find_snapshot :
    String → List ClusterSnapshot → Option ClusterSnapshot → Result (Option ClusterSnapshot)
find_snapshot source [] best = ok best
find_snapshot source (s ∷ ss) best =
    if s.cluster_name == source
    then (do reject (is_some best) "duplicate source snapshot"; find_snapshot source ss (some s))
    else find_snapshot source ss best

abbrev pub no_snapshot : String
no_snapshot =
    "no matching collected source snapshot; wait for ResourceInterpreterCustomization aggregation"

-- The snapshot must be collected, for the metadata's current generation, of a known workload.
unfoldable pub current_snapshot : PvMetadata → Option ClusterSnapshot → Result ClusterSnapshot
current_snapshot md none = err no_snapshot
current_snapshot md (some s) = do
  reject
      (not (is_some s.collected_at)
        || not (eqb s.observed_generation md.meta.generation)
        || s.workload_uid == "")
      no_snapshot
  ok s

-- `volumes[name]` of the map from PVC names, kept as a list.
unfoldable pub find_volume : List VolumeMetadata → String → Option VolumeMetadata
find_volume [] name = none
find_volume (v ∷ vs) name = if v.pvc_name == name then some v else find_volume vs name

-- The map of a snapshot's volumes; a name that comes twice is an error.
unfoldable pub index_volumes :
    List VolumeMetadata → List VolumeMetadata → Result (List VolumeMetadata)
index_volumes [] volumes = ok volumes
index_volumes (v ∷ vs) volumes = do
  reject (is_some (find_volume volumes v.pvc_name)) ("duplicate snapshot PVC " <> v.pvc_name)
  index_volumes vs (v ∷ volumes)
