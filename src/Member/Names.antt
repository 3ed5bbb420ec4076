-- ===== src/Member/Names.antt =====
-- Which claims a collection covers.
use mathlib.Core.List.{append_assoc, append-nil}
use karmada_with_pvmigration.Prelude.{
  is_empty, ℕ, ◌+◌, ◌^◌, ◌≤◌, ◌<◌, String, ◌≡◌, refl, sym, ap, ◌∙◌, Bool, true, false, ◌||◌, ◌&&◌,
  not, some, List, [], ◌∷◌, ◌++◌, map, arith, ◌==◌, eq_iff, All, All-of_contains, any, contains,
  put, contains-put, ok, found, >>=-eq-ok, reject,
}
use karmada_with_pvmigration.Prelude.Int.{ℤ, pos, ◌+ℤ◌, wrap32, rounds, count_up, leb_ℤ}
use karmada_with_pvmigration.Api.{VolumeMetadata}
use karmada_with_pvmigration.Api.Core.{StatefulSet, PersistentVolumeClaim}
use karmada_with_pvmigration.VolumeClaims.{
  standalone, pvc_name_of, generated_ordinals, replicas_of, start_of,
}
use karmada_with_pvmigration.VolumeClaims.Sorting.{IsDistinct}
use karmada_with_pvmigration.VolumeClaims.Laws.{
  contains-standalone, standalone-IsSorted, is_generated, is_referenced,
}
use karmada_with_pvmigration.Member.{
  Client, Observation, collect_volume, collect_ordinals, collect_templates, volume_of,
  collect_standalone, collect_sts, ordinals_of,
}
use karmada_with_pvmigration.Member.Collected.{collect_volume_iff}

-- The names of the recorded claims, in order.
abbrev pub names : List VolumeMetadata → List String
names [] = []
names (v ∷ vs) = v.pvc_name ∷ names vs

names-append : (vs ws : List VolumeMetadata) → names (vs ++ ws) ≡ names vs ++ names ws
names-append [] ws = refl
names-append (v ∷ vs) ws = rw (names-append vs ws)

-- The names that the claim templates generate, template by template.
abbrev pub generated_names : List String → String → List ℤ → List String
generated_names [] sts os = []
generated_names (t ∷ ts) sts os = map (pvc_name_of t sts) os ++ generated_names ts sts os

-- The client answers a read with the object of the name that was asked for.
abbrev pub AnswersByName : Client → Type 0
AnswersByName c =
    (namespace name : String) (pvc : PersistentVolumeClaim)
    → c.get_pvc namespace name ≡ found pvc
    → pvc.meta.name ≡ name

abbrev Covers :
    List String
    → List String
    → List String
    → List VolumeMetadata × List String
    → List VolumeMetadata
    → Type 0
Covers new seen_new seen r vs =
    (names r.0 ≡ names vs ++ new)
    × ((n : String) → contains r.1 n ≡ (contains seen n || contains seen_new n))

contains-append :
    (xs ys : List String) (n : String) → contains (xs ++ ys) n ≡ (contains xs n || contains ys n)
contains-append [] ys n = refl
contains-append (x ∷ xs) ys n = ground (arith, contains-append xs ys n)

fresh-put :
    (n : String) (ns seen : List String)
    → All (λ m. contains seen m ≡ false) ns
    → contains ns n ≡ false
    → All (λ m. contains (put n seen) m ≡ false) ns
fresh-put n [] seen fresh d = tt
fresh-put n (m ∷ ns) seen fresh d = (
  ground (arith, contains-put n m seen, eq_iff n m, eq_iff m n),
  fresh-put n ns seen fresh.1 (ground arith),
)

any-generated_names :
    (ts : List String) (sts : String) (os : List ℤ) (n : String)
    → contains (generated_names ts sts os) n ≡ any (λ t. any (λ o. pvc_name_of t sts o == n) os) ts
any-generated_names [] sts os n = refl
any-generated_names (t ∷ ts) sts os n =
    contains-append (map (pvc_name_of t sts) os) (generated_names ts sts os) n
    ∙ rw (contains-map os, any-generated_names ts sts os n)
  where
    contains-map :
        (os : List ℤ)
        → contains (map (pvc_name_of t sts) os) n ≡ any (λ o. pvc_name_of t sts o == n) os
    contains-map [] = refl
    contains-map (o ∷ os) = ap (λ b. pvc_name_of t sts o == n || b) (contains-map os)

-- The int32 bound of the collection and the int64 ordinals of `Standalone` agree below 2^31.
ordinals_of-eq :
    (sts : StatefulSet) (s r : ℕ)
    → start_of sts ≡ pos s
    → replicas_of sts ≡ pos r
    → s + r < 2 ^ 31
    → ordinals_of sts ≡ generated_ordinals sts
unfolding ordinals_of generated_ordinals wrap32 rounds ◌+ℤ◌
ordinals_of-eq sts s r hs hr fits = rw (hs, hr) (ap (count_up (pos s)) (ground arith))

module _ (c : Client) (answers : AnswersByName c) (namespace : String) where
  name-collect_volume :
      (template : String) (o : ℤ) (name : String) (v : VolumeMetadata)
      → collect_volume c namespace template o name ≡ ok v
      → v.pvc_name ≡ name
  unfolding volume_of
  name-collect_volume template o name v h =
      let e = (collect_volume_iff c namespace template o name v).0 h in
      ap (λ (w : VolumeMetadata). w.pvc_name) e.recorded ∙ answers namespace name e.pvc e.pvc_read

  names-collect_ordinals :
      (sts template : String) (os : List ℤ) (vs : List VolumeMetadata) (seen : List String)
      (r : List VolumeMetadata × List String)
      → collect_ordinals c namespace sts template os vs seen ≡ ok r
      → Covers (map (pvc_name_of template sts) os) (map (pvc_name_of template sts) os) seen r vs
  unfolding collect_ordinals
  names-collect_ordinals sts template [] vs seen r h =
      (cc (append-nil (names vs)), λ n. ground arith)
  names-collect_ordinals sts template (o ∷ os) vs seen r h =
      let (v, one, rest) =
        >>=-eq-ok (collect_volume c namespace template o (pvc_name_of template sts o)) _ h in
      let (covered, marked) = names-collect_ordinals sts template os _ _ r rest in
      (
        covered
            ∙ rw (
              names-append vs (v ∷ []),
              name-collect_volume template o (pvc_name_of template sts o) v one,
              append_assoc,
            ),
        λ n. marked n ∙ ground (arith, contains-put (pvc_name_of template sts o) n seen),
      )

  names-collect_templates :
      (sts : String) (ts : List String) (os : List ℤ) (vs : List VolumeMetadata)
      (seen : List String) (r : List VolumeMetadata × List String)
      → collect_templates c namespace sts ts os vs seen ≡ ok r
      → Covers (generated_names ts sts os) (generated_names ts sts os) seen r vs
  unfolding collect_templates
  names-collect_templates sts [] os vs seen r h = (cc (append-nil (names vs)), λ n. ground arith)
  names-collect_templates sts (t ∷ ts) os vs seen r h =
      let (_, _, h₁) = >>=-eq-ok (reject (t == "") _) _ h in
      let (mid, one, rest) = >>=-eq-ok (collect_ordinals c namespace sts t os vs seen) _ h₁ in
      let (covered, marked) = names-collect_ordinals sts t os vs seen mid one in
      let (covered', marked') = names-collect_templates sts ts os mid.0 mid.1 r rest in
      (
        covered' ∙ rw (covered, append_assoc),
        λ n.
            marked' n
            ∙ ground (
              arith,
              marked n,
              contains-append (map (pvc_name_of t sts) os) (generated_names ts sts os) n,
            ),
      )

  names-collect_standalone :
      (ns : List String) (vs : List VolumeMetadata) (seen : List String) (ws : List VolumeMetadata)
      → All (λ n. contains seen n ≡ false) ns
      → IsDistinct ns
      → collect_standalone c namespace ns vs seen ≡ ok ws
      → names ws ≡ names vs ++ ns
  unfolding collect_standalone
  names-collect_standalone [] vs seen ws fresh d h = ground (arith, append-nil (names vs))
  names-collect_standalone (n ∷ ns) vs seen ws fresh d h =
      let h' = rw (fresh.0, collect_standalone) at h in
      let (v, one, rest) = >>=-eq-ok (collect_volume c namespace "" (pos 0) n) _ h' in
      names-collect_standalone ns _ _ ws (fresh-put n ns seen fresh.1 d.0) d.1 rest
      ∙ rw (names-append vs (v ∷ []), name-collect_volume "" (pos 0) n v one, append_assoc)

and_not : (a b : Bool) → (a && not b) ≡ true → b ≡ false
and_not true true h = cc
and_not true false h = refl
and_not false b h = cc

standalone_not_generated :
    (sts : StatefulSet) (n : String)
    → contains (standalone sts) n ≡ true
    → is_generated sts n ≡ false
standalone_not_generated sts n h =
    and_not (is_referenced sts n) (is_generated sts n) (sym (contains-standalone sts n) ∙ h)

-- If the ordinals fit an int32, a successful collection records the claims of every template at
-- every ordinal, template by template, and after them exactly the standalone claims in their
-- order: nothing is left out and nothing is filtered as already seen.
pub names-collect_sts :
    (c : Client) (sts : StatefulSet) (s r : ℕ) (o : Observation)
    → AnswersByName c
    → start_of sts ≡ pos s
    → replicas_of sts ≡ pos r
    → s + r < 2 ^ 31
    → collect_sts c sts ≡ ok o
    → names o.volumes
      ≡ generated_names sts.templates sts.meta.name (generated_ordinals sts) ++ standalone sts
unfolding collect_sts
names-collect_sts c sts s r o answers hs hr fits h =
    let (_, _, h₁) = >>=-eq-ok (reject (leb_ℤ (replicas_of sts) (pos 0)) _) _ h in
    let (_, _, h₂) =
      >>=-eq-ok (reject (is_empty sts.templates && is_empty (standalone sts)) _) _ h₁ in
    let (mid, one, h₃) =
      >>=-eq-ok
        (collect_templates c sts.meta.namespace sts.meta.name sts.templates (ordinals_of sts) [] [])
        _ h₂ in
    let (vs, two, done) =
      >>=-eq-ok (collect_standalone c sts.meta.namespace (standalone sts) mid.0 mid.1) _ h₃ in
    let (covered, marked) =
      names-collect_templates c answers sts.meta.namespace sts.meta.name sts.templates
        (ordinals_of sts) [] [] mid one in
    let same = ordinals_of-eq sts s r hs hr fits in
    let fresh =
      All-of_contains (λ n. contains mid.1 n ≡ false) (standalone sts)
        (λ n m.
          marked n
          ∙ ap (λ os. contains (generated_names sts.templates sts.meta.name os) n) same
          ∙ any-generated_names sts.templates sts.meta.name (generated_ordinals sts) n
          ∙ standalone_not_generated sts n m) in
    ap names (volumes_eq vs done)
    ∙ names-collect_standalone c answers sts.meta.namespace (standalone sts) mid.0 mid.1 vs fresh
        (standalone-IsSorted sts).1 two
    ∙ ap (λ ns. ns ++ standalone sts)
        (covered ∙ ap (generated_names sts.templates sts.meta.name) same)
  where
    volumes_eq :
        (vs : List VolumeMetadata)
        → ok (record { workload_uid = sts.meta.uid; volumes = vs; collected_at = some c.now })
          ≡ ok o
        → o.volumes ≡ vs
    volumes_eq vs e = cc

-- The bound of the collecting loop is an int32 sum: where it passes 2^31 - 1 the loop has no round,
-- so no claim of a template is read, although `Standalone` takes all of them for generated.
pub ordinals_of_overflow :
    (sts : StatefulSet) (s r : ℕ)
    → start_of sts ≡ pos s
    → replicas_of sts ≡ pos r
    → s < 2 ^ 31
    → r < 2 ^ 31
    → 2 ^ 31 ≤ s + r
    → (ordinals_of sts ≡ []) × (generated_ordinals sts ≡ count_up (pos s) r)
unfolding ordinals_of generated_ordinals wrap32 rounds count_up ◌+ℤ◌
ordinals_of_overflow sts s r hs hr hs' hr' over =
    (rw (hs, hr) (no_round (ground arith)), rw (hs, hr) (ap (count_up (pos s)) (omega arith)))
  where
    no_round : {n : ℕ} → n ≡ 0 → count_up (pos s) n ≡ []
    no_round e = rw e
