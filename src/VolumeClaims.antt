-- ===== src/VolumeClaims.antt =====
-- internal/volumeclaims/standalone.go: the claims of a StatefulSet that no claim template generates.
pub mod Sorting
pub mod Laws
use karmada_with_pvmigration.Prelude.{
  ℕ, zero, suc, String, Bool, true, false, not, ◌&&◌, Option, none, some, List, [], ◌∷◌, map, ◌==◌,
  ◌<>◌, contains, put, without, if◌then◌else◌,
}
use karmada_with_pvmigration.Prelude.Int.{ℤ, pos, ◌+ℤ◌, rounds, count_up, print_ℤ}
use karmada_with_pvmigration.Api.Core.{StatefulSet, Volume, label}
use Sorting.{sort}

abbrev or_else {ℓ} : {A : Type ℓ} → Option A → A → A
or_else none a = a
or_else (some x) a = x

-- `Spec.Replicas` and `Spec.Ordinals.Start` with the defaults 1 and 0.
abbrev pub replicas_of : StatefulSet → ℤ
replicas_of sts = or_else sts.replicas (pos 1)

abbrev pub start_of : StatefulSet → ℤ
start_of sts = or_else sts.start (pos 0)

-- `fmt.Sprintf("%s-%s-%d", template.Name, sts.Name, ordinal)`
unfoldable pub pvc_name_of : String → String → ℤ → String
pvc_name_of template sts ordinal = template <> "-" <> sts <> "-" <> print_ℤ ordinal

-- The claim name that a volume of the pod template adds, if it does.
unfoldable pub claim_of : List String → Volume → Option String
claim_of templates volume = elim volume.claim [
  | none ↦ none
  | some name ↦ if not (contains templates volume.name) && not (name == "") then some name else none
]

put_claim : Option String → List String → List String
put_claim none claims = claims
put_claim (some name) claims = put name claims

put_claims : List String → List Volume → List String → List String
unfolding put_claim
put_claims templates [] claims = claims
put_claims templates (v ∷ vs) claims =
    put_claims templates vs (put_claim (claim_of templates v) claims)

-- The key of the annotation that an admission hook injects.
abbrev pub checkpoint_annotation : String
checkpoint_annotation = "fluidcr.dcnlab.com/checkpoint-claim"

put_checkpoint : String → List String → List String
put_checkpoint name claims = if name == "" then claims else put name claims

-- `for offset := int32(0); offset < replicas; offset++`: the ordinal is a sum of int64 values.
unfoldable pub generated_ordinals : StatefulSet → List ℤ
unfolding rounds count_up
generated_ordinals sts = count_up (start_of sts) (rounds (pos 0) (replicas_of sts))

drop_generated : String → String → List ℤ → List String → List String
drop_generated template sts [] claims = claims
drop_generated template sts (o ∷ os) claims =
    drop_generated template sts os (without (pvc_name_of template sts o) claims)

drop_templates : List String → String → List ℤ → List String → List String
unfolding drop_generated
drop_templates [] sts os claims = claims
drop_templates (t ∷ ts) sts os claims = drop_templates ts sts os (drop_generated t sts os claims)

-- The set of claims before it is sorted.
unfoldable pub claims_of : StatefulSet → List String
unfolding put_claims put_checkpoint drop_templates generated_ordinals
claims_of sts = drop_templates sts.templates sts.meta.name (generated_ordinals sts) (
    put_checkpoint (label sts.template_annotations checkpoint_annotation)
      (put_claims sts.templates sts.volumes []))

unfoldable pub standalone : StatefulSet → List String
unfolding claims_of
standalone sts = sort (claims_of sts)
