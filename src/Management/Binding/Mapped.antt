-- ===== src/Management/Binding/Mapped.antt =====
-- What the check of the target claims has established when it returns no error: the second half of
-- `validateBinding` in internal/management/migration.go.
use karmada_with_pvmigration.Prelude.{
  String, Bool, true, false, not, ◌||◌, Option, some, List, [], ◌∷◌, ◌==◌, ◌<>◌, ◌≡◌, refl, ◌∙◌,
  subst, ◌⊎◌, inl, inr, arith, eq_iff, eq_refl, eqb, length, All, contains, contains-put, put, ok,
  >>=-eq-ok, reject, Bool-cases, Option-cases,
}
use karmada_with_pvmigration.Api.{VolumeMapping, VolumeMetadata, ClusterSnapshot}
use karmada_with_pvmigration.Api.Core.{StatefulSet}
use karmada_with_pvmigration.Machinery.{Machinery}
use karmada_with_pvmigration.Management.Naming.{valid_ordinal_pvc, trim_prefix}
use karmada_with_pvmigration.VolumeClaims.{standalone}
use karmada_with_pvmigration.Management.Binding.Targets.{
  mark_volumes, mark_standalone, marked, add_template, template_of, check_generated, check_targets,
  check_ordinals,
}

-- One of the volumes is that of the claim, and standalone.
abbrev pub IsStandalone : String → List VolumeMetadata → Type 0
IsStandalone name [] = ⊥
IsStandalone name (v ∷ vs) = ((v.pvc_name ≡ name) × (v.standalone ≡ true)) ⊎ IsStandalone name vs

-- A snapshot of the cluster has such a volume.
abbrev pub IsMarked : String → String → List ClusterSnapshot → Type 0
IsMarked source name [] = ⊥
IsMarked source name (s ∷ ss) =
    ((s.cluster_name ≡ source) × IsStandalone name s.volumes) ⊎ IsMarked source name ss

-- The template is among those recorded for the ordinal.
abbrev pub IsRecorded : String → String → List (String × List String) → Type 0
IsRecorded ordinal template [] = ⊥
IsRecorded ordinal template ((o, ts) ∷ os) =
    ((o ≡ ordinal) × (contains ts template ≡ true)) ⊎ IsRecorded ordinal template os

abbrev pub Unrepeated : List String → Type 0
Unrepeated [] = Unit
Unrepeated (x ∷ xs) = (contains xs x ≡ false) × Unrepeated xs

-- Some templates of the StatefulSet, each once.
abbrev pub AreTemplates : StatefulSet → List String → Type 0
AreTemplates sts ts = Unrepeated ts × All (λ t. contains sts.templates t ≡ true) ts

-- The target is the standalone claim that is the source, or the claim of a template of the
-- StatefulSet for an ordinal, for which the template is recorded.
abbrev pub IsTarget :
    Machinery
    → StatefulSet
    → String
    → List ClusterSnapshot
    → List (String × List String)
    → VolumeMapping
    → Type 0
IsTarget k sts source clusters by_ordinal mapping =
    (IsMarked source mapping.source_pvc clusters
      × (contains (standalone sts) mapping.source_pvc ≡ true)
      × (mapping.source_pvc ≡ mapping.target_pvc))
    ⊎ ((template : String) × (contains sts.templates template ≡ true)
        × (valid_ordinal_pvc k mapping.target_pvc (template <> "-" <> sts.meta.name <> "-") ≡ true)
        × IsRecorded (trim_prefix mapping.target_pvc (template <> "-" <> sts.meta.name <> "-"))
            template by_ordinal)

mark_volumes_sound :
    (vs : List VolumeMetadata) (marks : List (String × Bool)) (name : String)
    → marked (mark_volumes vs marks) name ≡ true
    → IsStandalone name vs ⊎ (marked marks name ≡ true)
unfolding marked
mark_volumes_sound [] marks name h = inr h
mark_volumes_sound (v ∷ vs) marks name h =
    elim (mark_volumes_sound vs ((v.pvc_name, v.standalone) ∷ marks) name h) [
      | inl later ↦ inl (inr later)
      | inr here ↦ by_name here
    ]
  where
    by_name :
        marked ((v.pvc_name, v.standalone) ∷ marks) name ≡ true
        → IsStandalone name (v ∷ vs) ⊎ (marked marks name ≡ true)
    by_name here = elim (Bool-cases (v.pvc_name == name)) [
      | inl same ↦ inl (inl ((eq_iff v.pvc_name name).0 same, ground arith))
      | inr other ↦ inr (ground arith)
    ]

mark_standalone_sound :
    (source : String) (ss : List ClusterSnapshot) (marks : List (String × Bool)) (name : String)
    → marked (mark_standalone source ss marks) name ≡ true
    → IsMarked source name ss ⊎ (marked marks name ≡ true)
unfolding mark_standalone
mark_standalone_sound source [] marks name h = inr h
mark_standalone_sound source (s ∷ ss) marks name h =
    elim (mark_standalone_sound source ss _ name h) [
      | inl later ↦ inl (inr later)
      | inr here ↦ (elim (Bool-cases (s.cluster_name == source)) [
        | inr other ↦ inr (rw other at here)
        | inl same ↦ (elim (mark_volumes_sound s.volumes marks name (rw same at here)) [
          | inl found_here ↦ inl (inl ((eq_iff s.cluster_name source).0 same, found_here))
          | inr before ↦ inr before
        ])
      ])
    ]

module _ (k : Machinery) where
  template_of-eq-some :
      (sts name : String) (ts : List String) (t ordinal : String)
      → template_of k sts name ts ≡ some (t, ordinal)
      → (contains ts t ≡ true)
        × (valid_ordinal_pvc k name (t <> "-" <> sts <> "-") ≡ true)
        × (ordinal ≡ trim_prefix name (t <> "-" <> sts <> "-"))
  unfolding template_of
  template_of-eq-some sts name [] t ordinal h = absurd cc
  template_of-eq-some sts name (x ∷ ts) t ordinal h =
      elim (Bool-cases (valid_ordinal_pvc k name (x <> "-" <> sts <> "-"))) [
        | inl valid ↦
            let e : ◌≡◌ {A = Option (String × String)}
                (some (x, trim_prefix name (x <> "-" <> sts <> "-"))) (some (t, ordinal)) =
              rw (valid, template_of) at h in
            let same : x ≡ t = cc in
            (
              ground (arith, eq_iff x t),
              subst (λ y. valid_ordinal_pvc k name (y <> "-" <> sts <> "-") ≡ true) same valid,
              subst (λ y. ordinal ≡ trim_prefix name (y <> "-" <> sts <> "-")) same (cc),
            )
        | inr invalid ↦
            let (is_in, valid, is_ordinal) =
              template_of-eq-some sts name ts t ordinal (rw (invalid, template_of) at h) in
            (ground arith, valid, is_ordinal)
      ]

add_template-records :
    (o t : String) (os : List (String × List String)) → IsRecorded o t (add_template o t os)
unfolding add_template
add_template-records o t [] = inl (refl, ground (arith, eq_refl t))
add_template-records o t ((o', ts) ∷ os) = elim (Bool-cases (o' == o)) [
  | inl same ↦
      rw (same, add_template)
        (inl ((eq_iff o' o).0 same, contains-put t t ts ∙ ground (arith, eq_refl t)))
  | inr other ↦ rw (other, add_template) (inr (add_template-records o t os))
]

add_template-keeps :
    (o t : String) (os : List (String × List String)) (o₁ t₁ : String)
    → IsRecorded o₁ t₁ os
    → IsRecorded o₁ t₁ (add_template o t os)
unfolding add_template
add_template-keeps o t [] o₁ t₁ h = absurd h
add_template-keeps o t ((o', ts) ∷ os) o₁ t₁ h = elim (Bool-cases (o' == o)) [
  | inl same ↦
      rw (same, add_template)
        (elim h [
          | inl (is_o, is_t) ↦ inl (is_o, contains-put t t₁ ts ∙ ground arith)
          | inr later ↦ inr later
        ])
  | inr other ↦
      rw (other, add_template)
        (elim h [ inl here ↦ inl here | inr later ↦ inr (add_template-keeps o t os o₁ t₁ later) ])
]

-- Every ordinal has templates of the StatefulSet.
abbrev Recorded : StatefulSet → List (String × List String) → Type 0
Recorded sts os = All (λ (e : String × List String). AreTemplates sts e.1) os

put-AreTemplates :
    (sts : StatefulSet) (t : String) (ts : List String)
    → contains sts.templates t ≡ true
    → AreTemplates sts ts
    → AreTemplates sts (put t ts)
unfolding put
put-AreTemplates sts t ts is_in (once, all) = elim (Bool-cases (contains ts t)) [
  | inl old ↦ rw (old, put) (once, all)
  | inr new ↦ rw (new, put) ((new, once), (is_in, all))
]

add_template-Recorded :
    (sts : StatefulSet) (o t : String) (os : List (String × List String))
    → contains sts.templates t ≡ true
    → Recorded sts os
    → Recorded sts (add_template o t os)
unfolding add_template
add_template-Recorded sts o t [] is_in h = (((refl, tt), (is_in, tt)), tt)
add_template-Recorded sts o t ((o', ts) ∷ os) is_in h = elim (Bool-cases (o' == o)) [
  | inl same ↦ rw (same, add_template) (put-AreTemplates sts t ts is_in h.0, h.1)
  | inr other ↦ rw (other, add_template) (h.0, add_template-Recorded sts o t os is_in h.1)
]

-- The ordinals that a run of the loop ends with, over those that it begins with.
record IsLater (sts : StatefulSet) (os os' : List (String × List String)) : Type 0 where
  keeps : (o t : String) → IsRecorded o t os → IsRecorded o t os'
  recorded : Recorded sts os → Recorded sts os'

module _ (k : Machinery) (sts : StatefulSet) (source : String)
    (clusters : List ClusterSnapshot) where
  check_generated-parts :
      (mapping : VolumeMapping) (os os₁ : List (String × List String))
      → check_generated k sts mapping os ≡ ok os₁
      → IsLater sts os os₁ × IsTarget k sts source clusters os₁ mapping
  unfolding check_generated
  check_generated-parts mapping os os₁ h =
      elim (Option-cases (template_of k sts.meta.name mapping.target_pvc sts.templates)) [
        | inl missing ↦ absurd (cc (rw (missing, check_generated) at h))
        | inr ((t, o), is_template) ↦
            let (is_in, valid, is_ordinal) =
              template_of-eq-some k sts.meta.name mapping.target_pvc sts.templates t o
                is_template in
            let e : add_template o t os ≡ os₁ = cc (rw (is_template, check_generated) at h) in
            (
              record {
                keeps = λ o₁ t₁ r. subst (IsRecorded o₁ t₁) e (add_template-keeps o t os o₁ t₁ r);
                recorded = λ r. subst (Recorded sts) e (add_template-Recorded sts o t os is_in r);
              },
              inr (
                t,
                is_in,
                valid,
                subst (λ x. IsRecorded x t os₁) is_ordinal
                    (subst (IsRecorded o t) e (add_template-records o t os)),
              ),
            )
      ]

  IsTarget-later :
      (os os' : List (String × List String)) (mapping : VolumeMapping)
      → IsLater sts os os'
      → IsTarget k sts source clusters os mapping
      → IsTarget k sts source clusters os' mapping
  IsTarget-later os os' mapping later (inl same) = inl same
  IsTarget-later os os' mapping later (inr (t, is_in, valid, r)) =
      inr (t, is_in, valid, later.keeps _ _ r)

  check_targets-parts :
      (mappings : List VolumeMapping) (os os' : List (String × List String))
      → check_targets k sts (mark_standalone source clusters []) mappings os ≡ ok os'
      → IsLater sts os os' × All (IsTarget k sts source clusters os') mappings
  unfolding check_targets marked
  check_targets-parts [] os os' h =
      let e : os ≡ os' = cc in
      (
        record {
          keeps = λ o t r. subst (IsRecorded o t) e r;
          recorded = λ r. subst (Recorded sts) e r;
        },
        tt,
      )
  check_targets-parts (mapping ∷ rest) os os' h =
      let marks = mark_standalone source clusters [] in
      elim (Bool-cases (marked marks mapping.source_pvc)) [
        | inl is_marked ↦
            let (_, same, h₁) =
              >>=-eq-ok
                (reject
                  (not (contains (standalone sts) mapping.source_pvc)
                    || not (mapping.source_pvc == mapping.target_pvc))
                  _)
                _ (rw is_marked at h) in
            let (later, all) = check_targets-parts rest os os' h₁ in
            (
              later,
              (
                inl (
                  is_snapshot mapping is_marked,
                  ground arith,
                  ground (arith, eq_iff mapping.source_pvc mapping.target_pvc),
                ),
                all,
              ),
            )
        | inr unmarked ↦
            let (os₁, generated, h₁) =
              >>=-eq-ok (check_generated k sts mapping os) _ (rw unmarked at h) in
            let (first, target) = check_generated-parts mapping os os₁ generated in
            let (later, all) = check_targets-parts rest os₁ os' h₁ in
            (
              record {
                keeps = λ o t r. later.keeps o t (first.keeps o t r);
                recorded = λ r. later.recorded (first.recorded r);
              },
              (IsTarget-later os₁ os' mapping later target, all),
            )
      ]
    where
      is_snapshot :
          (mapping : VolumeMapping)
          → marked (mark_standalone source clusters []) mapping.source_pvc ≡ true
          → IsMarked source mapping.source_pvc clusters
      is_snapshot mapping e = elim (mark_standalone_sound source clusters [] mapping.source_pvc e) [
        | inl found_here ↦ found_here
        | inr nowhere ↦ absurd cc
      ]

  pub check_targets-All :
      (mappings : List VolumeMapping) (os : List (String × List String))
      → check_targets k sts (mark_standalone source clusters []) mappings [] ≡ ok os
      → All (IsTarget k sts source clusters os) mappings
        × All (λ (e : String × List String). AreTemplates sts e.1) os
  check_targets-All mappings os h =
      let (later, all) = check_targets-parts mappings [] os h in (all, later.recorded tt)

pub check_ordinals-All :
    (sts : StatefulSet) (os : List (String × List String))
    → check_ordinals sts os ≡ ok tt
    → All (λ (e : String × List String). length e.1 ≡ length sts.templates) os
unfolding check_ordinals
check_ordinals-All sts [] h = tt
check_ordinals-All sts ((o, ts) ∷ os) h =
    let (_, full, rest) = >>=-eq-ok (reject (not (eqb (length ts) (length sts.templates))) _) _ h in
    (ground arith, check_ordinals-All sts os rest)
