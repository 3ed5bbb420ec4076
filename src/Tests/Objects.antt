-- ===== src/Tests/Objects.antt =====
-- Objects for the runs: a StatefulSet with one template and one standalone claim, and its volumes.
use karmada_with_pvmigration.Prelude.{String, true, false, none, some, [], ◌∷◌, ◌<>◌}
use karmada_with_pvmigration.Prelude.Int.{pos}
use karmada_with_pvmigration.Api.{
  VolumeMetadata, ClusterSnapshot, PvMetadata, PvMigration, PvMetadataStatus,
}
use karmada_with_pvmigration.Api.Core.{
  ObjectMeta, StatefulSet, PersistentVolume, PersistentVolumeClaim, PersistentVolumeSpec,
  PersistentVolumeClaimSpec,
}

abbrev pub meta_of : String → String → String → ObjectMeta
meta_of namespace name uid = record {
  name = name;
  namespace = namespace;
  uid = uid;
  generation = 1;
  resource_version = "1";
  labels = [];
  annotations = [];
  deleting = false;
  created = 0;
}

abbrev pub web : StatefulSet
web = record {
  meta = meta_of "apps" "web" "sts-1";
  replicas = some (pos 1);
  start = none;
  templates = "data" ∷ [];
  volumes =
      (record { name = "cache"; claim = some "shared" })
      ∷ (record { name = "alias"; claim = some "data-web-0" })
      ∷ [];
  template_annotations = [];
}

-- The volume `name` that is bound to a claim of `apps`.
abbrev pub pv_spec_of : String → String → PersistentVolumeSpec
pv_spec_of claim uid = record {
  nfs = some (record { server = "10.0.0.1"; path = "/exports/" <> claim; read_only = false });
  other_sources = [];
  node_affinity = none;
  claim_ref = some (record {
    api_version = "v1";
    kind = "PersistentVolumeClaim";
    namespace = "apps";
    name = claim;
    uid = uid;
  });
  reclaim_policy = "Delete";
  storage = pos 10;
  access_modes = "ReadWriteMany" ∷ [];
  volume_mode = none;
  storage_class_name = "nfs";
  mount_options = [];
}

abbrev pub pvc_spec_of : String → PersistentVolumeClaimSpec
pvc_spec_of volume = record {
  volume_name = volume;
  selector = none;
  data_source = none;
  data_source_ref = none;
  volume_attributes_class_name = none;
  storage = pos 5;
  access_modes = "ReadWriteMany" ∷ [];
  volume_mode = none;
  storage_class_name = some "nfs";
}

abbrev pub pvc_of : String → String → PersistentVolumeClaim
pvc_of name uid = record {
  meta = meta_of "apps" name uid;
  spec = pvc_spec_of ("pv-" <> name);
  phase = "Bound";
}

abbrev pub pv_of : String → String → PersistentVolume
pv_of claim uid = record {
  meta = meta_of "" ("pv-" <> claim) ("pv-uid-" <> claim);
  spec = pv_spec_of claim uid;
  phase = "Bound";
}

abbrev pub data_volume : VolumeMetadata
data_volume = record {
  standalone = false;
  pvc_spec = none;
  pvc_name = "data-web-0";
  pvc_uid = "u1";
  template_name = "data";
  ordinal = pos 0;
  pv_name = "pv-data-web-0";
  pv_spec = pv_spec_of "data-web-0" "u1";
}

abbrev pub shared_volume : VolumeMetadata
shared_volume = record {
  standalone = true;
  pvc_spec = some (pvc_spec_of "pv-shared");
  pvc_name = "shared";
  pvc_uid = "u2";
  template_name = "";
  ordinal = pos 0;
  pv_name = "pv-shared";
  pv_spec = pv_spec_of "shared" "u2";
}

abbrev pub snapshot : ClusterSnapshot
snapshot = record {
  cluster_name = "aws";
  observed_generation = 1;
  ready = true;
  message = "collected";
  collected_at = some 7;
  workload_uid = "sts-1";
  volumes = data_volume ∷ shared_volume ∷ [];
}

abbrev pub empty_status : PvMetadataStatus
empty_status = record {
  observed_generation = 0;
  ready = false;
  message = "";
  collected_at = none;
  workload_uid = "";
  volumes = [];
  clusters = snapshot ∷ [];
}

abbrev pub metadata : PvMetadata
metadata = record {
  meta = meta_of "apps" "pvm-web" "md-1";
  spec = record { workload_ref = record { name = "web"; uid = "sts-1" }; source_cluster = "aws" };
  status = empty_status;
}

-- A request by its UID, and the time of its creation.
abbrev pub migration : PvMigration
migration = record {
  meta = meta_of "apps" "move" "mig-1";
  spec = record {
    metadata_ref = "pvm-web";
    source_cluster = "aws";
    target_cluster = "gcp";
    resource_binding = "web-statefulset";
    source_fenced = true;
    volumes =
        (record { source_pvc = "data-web-0"; target_pvc = "data-web-0" })
        ∷ (record { source_pvc = "shared"; target_pvc = "shared" })
        ∷ [];
  };
  status = record { observed_generation = 0; phase = ""; message = ""; plan_hash = ""; works = [] };
}
