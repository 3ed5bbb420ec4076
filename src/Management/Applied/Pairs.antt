-- ===== src/Management/Applied/Pairs.antt =====
-- What the test of a pair shows.
use karmada_with_pvmigration.Prelude.{
  String, ◌≡◌, refl, sym, ap, inl, inr, true, false, some, List, [], ◌∷◌, arith, Option-cases,
}
use karmada_with_pvmigration.Prelude.Int.{ℤ, pos, negsuc, same_ℤ}
use karmada_with_pvmigration.Machinery.{
  Machinery, Unstructured, Value, Fields, null, truth, number, text, slice, object,
}
use karmada_with_pvmigration.Management.Applied.Receipt.{
  owner_of, read, kind_of, same_identifier, status_of,
}
use karmada_with_pvmigration.Management.Applied.Pair.{
  ByKind, at_kind, both_kinds, same_value, find_kind, index_objects, index_reflections, reciprocal,
  paired_work_applied,
}
use karmada_with_pvmigration.Management.Applied.Values.{is_text-eq, not-nested_differs}

same_ℤ-eq : (a b : ℤ) → same_ℤ a b ≡ true → a ≡ b
same_ℤ-eq (pos a) (pos b) h = ap pos (ground arith)
same_ℤ-eq (negsuc a) (negsuc b) h = ap negsuc (ground arith)
same_ℤ-eq (pos a) (negsuc b) h = ground arith
same_ℤ-eq (negsuc a) (pos b) h = ground arith

pub same_value-eq : (v w : Value) → same_value v w ≡ true → v ≡ w
same_value-eq null null h = refl
same_value-eq (truth a) (truth b) h = ap truth (ground arith)
same_value-eq (number a) (number b) h = ap number (same_ℤ-eq a b h)
same_value-eq (text s) v h = sym (is_text-eq v s h)
same_value-eq null _ h = cc
same_value-eq (truth a) _ h = cc
same_value-eq (number a) _ h = cc
same_value-eq (slice vs) _ h = cc
same_value-eq (object fs) _ h = cc

module _ (k : Machinery) where
  pub identified_kind :
      (r obj : Fields)
      → same_identifier k r obj ≡ true
      → read k r ("identifier" ∷ "kind" ∷ []) ≡ kind_of k obj
  unfolding same_identifier
  identified_kind r obj h =
      not-nested_differs (k.nested_string (object r) ("identifier" ∷ "kind" ∷ [])) (kind_of k obj)
        (ground arith)

  two_objects :
      (o o' : Fields) {objects : ByKind}
      → index_objects k (object o ∷ object o' ∷ []) [] ≡ some objects
      → objects ≡ (kind_of k o', o') ∷ (kind_of k o, o) ∷ []
  unfolding index_objects
  two_objects o o' h = ground arith

  two_reflections :
      (owner : String) (objects : ByKind) (r r' : Fields) {reflections : ByKind}
      → index_reflections k owner objects (object r ∷ object r' ∷ []) [] ≡ some reflections
      → reflections
        ≡ (read k r' ("identifier" ∷ "kind" ∷ []), status_of k r')
          ∷ (read k r ("identifier" ∷ "kind" ∷ []), status_of k r)
          ∷ []
  unfolding index_reflections
  two_reflections owner objects r r' h = ground arith

  -- The map has one object for each of the two kinds.
  abbrev Holds : ByKind → Fields → Fields → Type 0
  Holds m pv pvc =
      (find_kind m "PersistentVolume" ≡ some pv) × (find_kind m "PersistentVolumeClaim" ≡ some pvc)

  at_both :
      (m : ByKind) {kind kind' : String} (pv pvc : Fields)
      → kind ≡ "PersistentVolume"
      → kind' ≡ "PersistentVolumeClaim"
      → m ≡ (kind', pvc) ∷ (kind, pv) ∷ []
      → Holds m pv pvc
  unfolding find_kind
  at_both m pv pvc p p' e = (rw (e, p, p') refl, rw (e, p, p') refl)

  at_kind-eq :
      (m : ByKind) (kind : String) {fs : Fields} → find_kind m kind ≡ some fs → at_kind m kind ≡ fs
  at_kind-eq m kind h = rw (at_kind, h) refl

  reciprocal_of :
      (objects reflections : ByKind) {pv pvc pvs pvcs : Fields}
      → Holds objects pv pvc
      → Holds reflections pvs pvcs
      → both_kinds k
          (find_kind objects "PersistentVolume")
          (find_kind objects "PersistentVolumeClaim")
          reflections
        ≡ true
      → reciprocal k pv pvc pvs pvcs ≡ true
  reciprocal_of objects reflections (p, q) (p', q') h =
      rw
        (
          p,
          q,
          both_kinds,
          at_kind-eq reflections "PersistentVolume" p',
          at_kind-eq reflections "PersistentVolumeClaim" q',
        )
        at h

  -- Two manifests of the two kinds: the pair is applied only if they are bound to each other.
  pub paired_two :
      (w : Unstructured) (pv pvc r r' : Fields)
      → kind_of k pv ≡ "PersistentVolume"
      → kind_of k pvc ≡ "PersistentVolumeClaim"
      → read k r ("identifier" ∷ "kind" ∷ []) ≡ "PersistentVolume"
      → read k r' ("identifier" ∷ "kind" ∷ []) ≡ "PersistentVolumeClaim"
      → paired_work_applied k w (object pv ∷ object pvc ∷ []) (object r ∷ object r' ∷ []) ≡ true
      → reciprocal k pv pvc (status_of k r) (status_of k r') ≡ true
  unfolding paired_work_applied
  paired_two w pv pvc r r' kv kc kr kr' h =
      elim (Option-cases (index_objects k (object pv ∷ object pvc ∷ []) [])) [
        | inl n ↦ absurd (cc (rw n at h))
        | inr (objects, e) ↦
            elim (Option-cases
              (index_reflections k (owner_of w) objects (object r ∷ object r' ∷ []) [])) [
                | inl n ↦ absurd (cc (rw (e, n) at h))
                | inr (reflections, e') ↦
                    reciprocal_of objects reflections
                      (at_both objects pv pvc kv kc (two_objects pv pvc e))
                      (at_both reflections (status_of k r) (status_of k r') kr kr'
                        (two_reflections (owner_of w) objects r r' e'))
                      (rw (e, e') at h)
              ]
      ]

  -- Two volumes are no pair.
  pub paired_same :
      (w : Unstructured) (pv pvc : Fields) (statuses : List Value)
      → kind_of k pv ≡ "PersistentVolume"
      → kind_of k pvc ≡ "PersistentVolume"
      → paired_work_applied k w (object pv ∷ object pvc ∷ []) statuses ≡ false
  unfolding paired_work_applied index_objects find_kind
  paired_same w pv pvc statuses kv kc = ground arith
