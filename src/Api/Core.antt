-- ===== src/Api/Core.antt =====
-- The objects of Kubernetes that the program reads (k8s.io/api core/v1 and apps/v1, and
-- apimachinery's ObjectMeta), each with the fields that its code uses. They are data that the API
-- server hands over; what a field holds that the code only compares or copies is a text.
use karmada_with_pvmigration.Prelude.{ℕ, String, Bool, Option, List, [], ◌∷◌, ◌==◌, if◌then◌else◌}
use karmada_with_pvmigration.Prelude.Int.{ℤ}

-- `map[string]string`, in which a missing key reads as "".
abbrev pub Labels : Type 0
Labels = List (String × String)

unfoldable pub label : Labels → String → String
label [] k = ""
label ((j, v) ∷ m) k = if j == k then v else label m k

-- `deleting` is `!DeletionTimestamp.IsZero()`, `created` is `CreationTimestamp`.
pub record ObjectMeta : Type 0 where
  pub name : String
  pub namespace : String
  pub uid : String
  pub generation : ℕ
  pub resource_version : String
  pub labels : Labels
  pub annotations : Labels
  pub deleting : Bool
  pub created : ℕ

-- `controller` is `*Controller`, false where it is nil.
pub record OwnerReference : Type 0 where
  pub api_version : String
  pub kind : String
  pub name : String
  pub uid : String
  pub controller : Bool

pub record NfsVolumeSource : Type 0 where
  pub server : String
  pub path : String
  pub read_only : Bool

pub record ObjectReference : Type 0 where
  pub api_version : String
  pub kind : String
  pub namespace : String
  pub name : String
  pub uid : String

-- `other_sources` names the members of the embedded `PersistentVolumeSource`, other than NFS, that
-- are set. `storage` is the capacity under `ResourceStorage`, 0 where the key is missing.
pub record PersistentVolumeSpec : Type 0 where
  pub nfs : Option NfsVolumeSource
  pub other_sources : List String
  pub node_affinity : Option String
  pub claim_ref : Option ObjectReference
  pub reclaim_policy : String
  pub storage : ℤ
  pub access_modes : List String
  pub volume_mode : Option String
  pub storage_class_name : String
  pub mount_options : List String

-- `storage` is the request under `ResourceStorage`, 0 where the key is missing.
pub record PersistentVolumeClaimSpec : Type 0 where
  pub volume_name : String
  pub selector : Option String
  pub data_source : Option String
  pub data_source_ref : Option String
  pub volume_attributes_class_name : Option String
  pub storage : ℤ
  pub access_modes : List String
  pub volume_mode : Option String
  pub storage_class_name : Option String

pub record PersistentVolume : Type 0 where
  pub meta : ObjectMeta
  pub spec : PersistentVolumeSpec
  pub phase : String

pub record PersistentVolumeClaim : Type 0 where
  pub meta : ObjectMeta
  pub spec : PersistentVolumeClaimSpec
  pub phase : String

-- A volume of a pod template. `claim` is the claim name, where it is a PVC volume.
pub record Volume : Type 0 where
  pub name : String
  pub claim : Option String

-- `templates` are the names of `VolumeClaimTemplates`, `start` is `Ordinals.Start`.
pub record StatefulSet : Type 0 where
  pub meta : ObjectMeta
  pub replicas : Option ℤ
  pub start : Option ℤ
  pub templates : List String
  pub volumes : List Volume
  pub template_annotations : Labels
