-- ===== src/VolumeClaims/Laws.antt =====
-- What `Standalone` returns, as a set and as a sequence.
use karmada_with_pvmigration.Prelude.{
  String, ◌≡◌, refl, ◌∙◌, ap, Bool, true, false, not, ◌&&◌, ◌||◌, none, some, List, [], ◌∷◌, arith,
  ◌==◌, contains, put, without, contains-put, contains-without, any, Option-cases, inl, inr,
}
use karmada_with_pvmigration.Prelude.Int.{ℤ}
use karmada_with_pvmigration.Api.Core.{StatefulSet, Volume, label}
use karmada_with_pvmigration.VolumeClaims.Sorting.{
  IsSorted, IsDistinct, sort-IsSorted, sort-IsDistinct, contains-sort,
}
use karmada_with_pvmigration.VolumeClaims

-- A volume of the pod template claims the name, and no template of that volume's name hides it.
abbrev pub claims_name : List String → String → Volume → Bool
claims_name templates name v = elim v.claim [
  | none ↦ false
  | some c ↦ not (contains templates v.name) && not (c == "") && c == name
]

-- Some template generates the name at an ordinal of the set.
abbrev pub is_generated : StatefulSet → String → Bool
is_generated sts name =
    any
      (λ t.
        any (λ o. VolumeClaims.pvc_name_of t sts.meta.name o == name)
          (VolumeClaims.generated_ordinals sts))
      sts.templates

-- The name stands in the pod template or in its annotation.
abbrev pub is_referenced : StatefulSet → String → Bool
is_referenced sts name =
    let checkpoint = label sts.template_annotations VolumeClaims.checkpoint_annotation in
    any (claims_name sts.templates name) sts.volumes
    || (not (checkpoint == "") && checkpoint == name)

or_assoc : (a b c : Bool) → ((a || b) || c) ≡ (a || (b || c))
or_assoc true b c = refl
or_assoc false b c = refl

contains-put_claim :
    (templates : List String) (v : Volume) (claims : List String) (n : String)
    → contains (VolumeClaims.put_claim (VolumeClaims.claim_of templates v) claims) n
      ≡ (contains claims n || claims_name templates n v)
unfolding VolumeClaims.put_claim VolumeClaims.claim_of
contains-put_claim templates v claims n = elim (Option-cases v.claim) [
  | inl e ↦ rw (e, VolumeClaims.claim_of) (ground arith)
  | inr (c, e) ↦ rw (e, VolumeClaims.claim_of) (ground (arith, contains-put c n claims))
]

contains-put_claims :
    (templates : List String) (vs : List Volume) (claims : List String) (n : String)
    → contains (VolumeClaims.put_claims templates vs claims) n
      ≡ (contains claims n || any (claims_name templates n) vs)
unfolding VolumeClaims.put_claims
contains-put_claims templates [] claims n = ground arith
contains-put_claims templates (v ∷ vs) claims n =
    contains-put_claims templates vs _ n
    ∙ ap (λ b. b || any (claims_name templates n) vs) (contains-put_claim templates v claims n)
    ∙ or_assoc (contains claims n) (claims_name templates n v) (any (claims_name templates n) vs)

contains-put_checkpoint :
    (c : String) (claims : List String) (n : String)
    → contains (VolumeClaims.put_checkpoint c claims) n
      ≡ (contains claims n || (not (c == "") && c == n))
unfolding VolumeClaims.put_checkpoint
contains-put_checkpoint c claims n = ground (arith, contains-put c n claims)

contains-drop_generated :
    (t s : String) (os : List ℤ) (claims : List String) (n : String)
    → contains (VolumeClaims.drop_generated t s os claims) n
      ≡ (contains claims n && not (any (λ o. VolumeClaims.pvc_name_of t s o == n) os))
unfolding VolumeClaims.drop_generated
contains-drop_generated t s [] claims n = ground arith
contains-drop_generated t s (o ∷ os) claims n =
    contains-drop_generated t s os (without (VolumeClaims.pvc_name_of t s o) claims) n
    ∙ ground (arith, contains-without (VolumeClaims.pvc_name_of t s o) n claims)

contains-drop_templates :
    (ts : List String) (s : String) (os : List ℤ) (claims : List String) (n : String)
    → contains (VolumeClaims.drop_templates ts s os claims) n
      ≡ (contains claims n && not (any (λ t. any (λ o. VolumeClaims.pvc_name_of t s o == n) os) ts))
unfolding VolumeClaims.drop_templates
contains-drop_templates [] s os claims n = ground arith
contains-drop_templates (t ∷ ts) s os claims n =
    contains-drop_templates ts s os (VolumeClaims.drop_generated t s os claims) n
    ∙ ground (arith, contains-drop_generated t s os claims n)

-- Standalone returns a name exactly when the pod template or its annotation refers to it and no claim
-- template of the StatefulSet generates it at one of the set's ordinals.
pub contains-standalone :
    (sts : StatefulSet) (name : String)
    → contains (VolumeClaims.standalone sts) name
      ≡ (is_referenced sts name && not (is_generated sts name))
unfolding VolumeClaims.standalone
contains-standalone sts name =
    contains-sort (VolumeClaims.claims_of sts) name
    ∙ contains-drop_templates sts.templates sts.meta.name (VolumeClaims.generated_ordinals sts) _
        name
    ∙ ap (λ b. b && not (is_generated sts name))
        (contains-put_checkpoint (label sts.template_annotations VolumeClaims.checkpoint_annotation)
            _ name
          ∙ ap
              (λ b.
                b
                || (not (label sts.template_annotations VolumeClaims.checkpoint_annotation == "")
                    && label sts.template_annotations VolumeClaims.checkpoint_annotation == name))
              (contains-put_claims sts.templates sts.volumes [] name))

put-IsDistinct : (a : String) (xs : List String) → IsDistinct xs → IsDistinct (put a xs)
unfolding put
put-IsDistinct a xs d = ground arith

without-IsDistinct : (a : String) (xs : List String) → IsDistinct xs → IsDistinct (without a xs)
unfolding without
without-IsDistinct a [] d = tt
without-IsDistinct a (x ∷ xs) d = ground (arith, without-IsDistinct a xs, contains-without a x xs)

put_claims-IsDistinct :
    (templates : List String) (vs : List Volume) (claims : List String)
    → IsDistinct claims
    → IsDistinct (VolumeClaims.put_claims templates vs claims)
unfolding VolumeClaims.put_claims
put_claims-IsDistinct templates [] claims d = d
put_claims-IsDistinct templates (v ∷ vs) claims d =
    elim (Option-cases (VolumeClaims.claim_of templates v)) [
      | inl e ↦ rw e (put_claims-IsDistinct templates vs claims d)
      | inr (c, e) ↦
          rw e (put_claims-IsDistinct templates vs (put c claims) (put-IsDistinct c claims d))
    ]

put_checkpoint-IsDistinct :
    (c : String) (claims : List String)
    → IsDistinct claims
    → IsDistinct (VolumeClaims.put_checkpoint c claims)
unfolding VolumeClaims.put_checkpoint
put_checkpoint-IsDistinct c claims d = ground (arith, put-IsDistinct c claims)

drop_generated-IsDistinct :
    (t s : String) (os : List ℤ) (claims : List String)
    → IsDistinct claims
    → IsDistinct (VolumeClaims.drop_generated t s os claims)
unfolding VolumeClaims.drop_generated
drop_generated-IsDistinct t s [] claims d = d
drop_generated-IsDistinct t s (o ∷ os) claims d =
    drop_generated-IsDistinct t s os _
      (without-IsDistinct (VolumeClaims.pvc_name_of t s o) claims d)

drop_templates-IsDistinct :
    (ts : List String) (s : String) (os : List ℤ) (claims : List String)
    → IsDistinct claims
    → IsDistinct (VolumeClaims.drop_templates ts s os claims)
unfolding VolumeClaims.drop_templates
drop_templates-IsDistinct [] s os claims d = d
drop_templates-IsDistinct (t ∷ ts) s os claims d =
    drop_templates-IsDistinct ts s os _ (drop_generated-IsDistinct t s os claims d)

-- The names that Standalone returns come in byte order, and none comes twice.
pub standalone-IsSorted :
    (sts : StatefulSet)
    → IsSorted (VolumeClaims.standalone sts) × IsDistinct (VolumeClaims.standalone sts)
unfolding VolumeClaims.standalone
standalone-IsSorted sts = (
  sort-IsSorted (VolumeClaims.claims_of sts),
  sort-IsDistinct (VolumeClaims.claims_of sts) claims_of-IsDistinct,
)
  where
    claims_of-IsDistinct : IsDistinct (VolumeClaims.claims_of sts)
    claims_of-IsDistinct =
        drop_templates-IsDistinct sts.templates sts.meta.name (VolumeClaims.generated_ordinals sts)
          _
          (put_checkpoint-IsDistinct
            (label sts.template_annotations VolumeClaims.checkpoint_annotation) _
            (put_claims-IsDistinct sts.templates sts.volumes [] tt))
