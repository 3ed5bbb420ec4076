-- ===== src/Management/Binding/Targets.antt =====
-- The check of the target claims against the source StatefulSet.
use karmada_with_pvmigration.Prelude.{
  String, Bool, false, not, ◌||◌, Option, none, some, List, [], ◌∷◌, ◌==◌, ◌<>◌, contains, put,
  length, eqb, Result, ok, err, ◌>>=◌, ◌>>◌, reject, if◌then◌else◌,
}
use karmada_with_pvmigration.Api.{VolumeMapping, VolumeMetadata, ClusterSnapshot}
use karmada_with_pvmigration.Api.Core.{StatefulSet}
use karmada_with_pvmigration.Machinery.{Machinery}
use karmada_with_pvmigration.Management.Naming.{valid_ordinal_pvc, trim_prefix}
use karmada_with_pvmigration.VolumeClaims.{standalone}

-- `markedStandalone`: the flag of each PVC name, the latest entry first; a missing name is unmarked.
abbrev pub mark_volumes : List VolumeMetadata → List (String × Bool) → List (String × Bool)
mark_volumes [] marks = marks
mark_volumes (v ∷ vs) marks = mark_volumes vs ((v.pvc_name, v.standalone) ∷ marks)

unfoldable pub mark_standalone :
    String → List ClusterSnapshot → List (String × Bool) → List (String × Bool)
mark_standalone source [] marks = marks
mark_standalone source (s ∷ ss) marks =
    mark_standalone source ss
      (if s.cluster_name == source then mark_volumes s.volumes marks else marks)

unfoldable pub marked : List (String × Bool) → String → Bool
marked [] name = false
marked ((n, b) ∷ marks) name = if n == name then b else marked marks name

-- `byOrdinal[ordinal][template] = true`
unfoldable pub add_template :
    String → String → List (String × List String) → List (String × List String)
add_template ordinal template [] = (ordinal, template ∷ []) ∷ []
add_template ordinal template ((o, ts) ∷ os) =
    if o == ordinal then (o, put template ts) ∷ os else (o, ts) ∷ add_template ordinal template os

module _ (k : Machinery) where
  -- The first template that generates the name, with the ordinal's text.
  unfoldable pub template_of : String → String → List String → Option (String × String)
  template_of sts name [] = none
  template_of sts name (t ∷ ts) =
      if valid_ordinal_pvc k name (t <> "-" <> sts <> "-")
      then some (t, trim_prefix name (t <> "-" <> sts <> "-"))
      else template_of sts name ts

  -- A target that is no standalone claim.
  unfoldable pub check_generated :
      StatefulSet
      → VolumeMapping
      → List (String × List String)
      → Result (List (String × List String))
  check_generated sts mapping by_ordinal =
      elim (template_of sts.meta.name mapping.target_pvc sts.templates) [
        | none ↦
            err (
              "target PVC " <> mapping.target_pvc <> " is not a StatefulSet claim-template ordinal")
        | some (t, ordinal) ↦ ok (add_template ordinal t by_ordinal)
      ]

  unfoldable pub check_targets :
      StatefulSet
      → List (String × Bool)
      → List VolumeMapping
      → List (String × List String)
      → Result (List (String × List String))
  check_targets sts marks [] by_ordinal = ok by_ordinal
  check_targets sts marks (mapping ∷ rest) by_ordinal =
      if marked marks mapping.source_pvc
      then (do
        reject
            (not (contains (standalone sts) mapping.source_pvc)
              || not (mapping.source_pvc == mapping.target_pvc))
            "standalone PVC must retain an exact StatefulSet claim reference"
        check_targets sts marks rest by_ordinal)
      else (do
        by_ordinal' ← check_generated sts mapping by_ordinal
        check_targets sts marks rest by_ordinal')

-- Each target ordinal maps every template. Go visits the map in any order, so the ordinal that an error
-- names is one of those that fail; here it is the first that was recorded.
unfoldable pub check_ordinals : StatefulSet → List (String × List String) → Result (Unit {0})
check_ordinals sts [] = ok tt
check_ordinals sts ((ordinal, ts) ∷ os) = do
  reject (not (eqb (length ts) (length sts.templates)))
      ("target ordinal " <> ordinal <> " must map every volumeClaimTemplate")
  check_ordinals sts os
