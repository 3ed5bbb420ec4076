-- ===== src/Api.antt =====
-- api/v1alpha1/pvmetadata_types.go and pvmigration_types.go: the stored objects, field by field.
-- An int64 generation is a natural number, since the API server counts it up from 1; an int32 is a
-- ℤ whose wrap-around is written where it is computed with. A `time.Time` is its number.
pub mod Core
pub mod Equality
use karmada_with_pvmigration.Prelude.{ℕ, String, Bool, Option, List}
use karmada_with_pvmigration.Prelude.Int.{ℤ}
use Core.{ObjectMeta, PersistentVolumeSpec, PersistentVolumeClaimSpec}

pub record WorkloadRef : Type 0 where
  pub name : String
  pub uid : String

pub record VolumeMetadata : Type 0 where
  pub standalone : Bool
  pub pvc_spec : Option PersistentVolumeClaimSpec
  pub pvc_name : String
  pub pvc_uid : String
  pub template_name : String
  pub ordinal : ℤ
  pub pv_name : String
  pub pv_spec : PersistentVolumeSpec

pub record ClusterSnapshot : Type 0 where
  pub cluster_name : String
  pub observed_generation : ℕ
  pub ready : Bool
  pub message : String
  pub collected_at : Option ℕ
  pub workload_uid : String
  pub volumes : List VolumeMetadata

pub record PvMetadataSpec : Type 0 where
  pub workload_ref : WorkloadRef
  pub source_cluster : String

pub record PvMetadataStatus : Type 0 where
  pub observed_generation : ℕ
  pub ready : Bool
  pub message : String
  pub collected_at : Option ℕ
  pub workload_uid : String
  pub volumes : List VolumeMetadata
  pub clusters : List ClusterSnapshot

pub record PvMetadata : Type 0 where
  pub meta : ObjectMeta
  pub spec : PvMetadataSpec
  pub status : PvMetadataStatus

pub record VolumeMapping : Type 0 where
  pub source_pvc : String
  pub target_pvc : String

pub record WorkReference : Type 0 where
  pub pv_uid : String
  pub pvc_uid : String
  pub standalone : Bool
  pub routing_work_uid : String
  pub routing_generation : ℕ
  pub name : String
  pub namespace : String
  pub applied : Bool
  pub detached : Bool

pub record PvMigrationSpec : Type 0 where
  pub metadata_ref : String
  pub source_cluster : String
  pub target_cluster : String
  pub resource_binding : String
  pub source_fenced : Bool
  pub volumes : List VolumeMapping

pub record PvMigrationStatus : Type 0 where
  pub observed_generation : ℕ
  pub phase : String
  pub message : String
  pub plan_hash : String
  pub works : List WorkReference

pub record PvMigration : Type 0 where
  pub meta : ObjectMeta
  pub spec : PvMigrationSpec
  pub status : PvMigrationStatus
