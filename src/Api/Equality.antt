-- ===== src/Api/Equality.antt =====
-- `reflect.DeepEqual` on the statuses: equality of all fields.
use mathlib.Core.Logic.{dite}
use mathlib.Core.Bool.{Bool-discrete}
use native.Mathlib.Decide.{ℕ_discrete}
use text.Mathlib.Text
use karmada_with_pvmigration.Prelude.{String, true, eq_iff}
use karmada_with_pvmigration.Prelude.Int.{ℤ}
use karmada_with_pvmigration.Api.{
  VolumeMetadata, ClusterSnapshot, PvMetadataStatus, PvMigrationStatus,
}
use karmada_with_pvmigration.Api.Core.{PersistentVolumeSpec, PersistentVolumeClaimSpec}

String-discrete : Discrete String
String-discrete s t =
    dite (Bool-discrete (Text.◌==◌ s t) true) (λ same. yes ((eq_iff s t).0 same))
      (λ differ. no (λ p. differ ((eq_iff s t).1 p)))

ℤ-discrete : Discrete ℤ
ℤ-discrete = hlevel ℕ_discrete

PersistentVolumeSpec-discrete : Discrete PersistentVolumeSpec
PersistentVolumeSpec-discrete = hlevel (ℕ_discrete, String-discrete, ℤ-discrete)

PersistentVolumeClaimSpec-discrete : Discrete PersistentVolumeClaimSpec
PersistentVolumeClaimSpec-discrete = hlevel (ℕ_discrete, String-discrete, ℤ-discrete)

VolumeMetadata-discrete : Discrete VolumeMetadata
VolumeMetadata-discrete =
    hlevel (
      String-discrete, ℤ-discrete, PersistentVolumeSpec-discrete,
      PersistentVolumeClaimSpec-discrete,
    )

ClusterSnapshot-discrete : Discrete ClusterSnapshot
ClusterSnapshot-discrete = hlevel (ℕ_discrete, String-discrete, VolumeMetadata-discrete)

pub PvMetadataStatus-discrete : Discrete PvMetadataStatus
PvMetadataStatus-discrete =
    hlevel (ℕ_discrete, String-discrete, VolumeMetadata-discrete, ClusterSnapshot-discrete)

pub PvMigrationStatus-discrete : Discrete PvMigrationStatus
PvMigrationStatus-discrete = hlevel (ℕ_discrete, String-discrete)
