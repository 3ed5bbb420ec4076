-- ===== src/Management/Applied/Pair.antt =====
-- `pairedWorkApplied` of internal/management/standalone.go: a volume and its claim are reflected as
-- bound to each other.
use karmada_with_pvmigration.Prelude.{
  String, Bool, true, false, not, ◌&&◌, ◌||◌, Option, none, some, List, [], ◌∷◌, ◌==◌, is_some,
  length, eqb, if◌then◌else◌,
}
use karmada_with_pvmigration.Prelude.Int.{same_ℤ}
use karmada_with_pvmigration.Machinery.{
  Machinery, Unstructured, Value, Fields, null, truth, number, text, object, end, index, is_text,
  value_or_nil,
}
use karmada_with_pvmigration.Management.Applied.Receipt.{
  owner_of, same_truth, same_nfs, read, api_version_of, kind_of, name_of, namespace_of,
  same_identifier, status_of, bound_for, nfs_at,
}

-- `map[string]…` by kind.
abbrev pub ByKind : Type 0
ByKind = List (String × Fields)

unfoldable pub find_kind : ByKind → String → Option Fields
find_kind [] kind = none
find_kind ((j, fs) ∷ m) kind = if j == kind then some fs else find_kind m kind

-- `m[kind]` of a map of maps, nil where the key is missing.
abbrev pub at_kind : ByKind → String → Fields
at_kind m kind = elim (find_kind m kind) [ some fs ↦ fs | none ↦ end ]

-- `got == want` on values without a static type. Go panics on two maps or two slices; the code
-- compares with a text.
abbrev pub same_value : Value → Value → Bool
same_value null null = true
same_value (truth a) (truth b) = same_truth a b
same_value (number a) (number b) = same_ℤ a b
same_value (text s) v = is_text v s
same_value _ _ = false

module _ (k : Machinery) where
  -- The loop over the manifests: one object of `v1` for each kind.
  unfoldable pub index_objects : List Value → ByKind → Option ByKind
  index_objects [] objects = some objects
  index_objects (object obj ∷ entries) objects =
      if not (api_version_of k obj == "v1")
        || is_some (find_kind objects (kind_of k obj))
        || name_of k obj == ""
      then none
      else index_objects entries ((kind_of k obj, obj) ∷ objects)
  index_objects (_ ∷ entries) objects = none

  -- The body of the loop over the reflections, for the object of the reflection's kind.
  abbrev pub reflects : String → ByKind → Fields → Option Fields → Bool
  reflects owner reflections s none = false
  reflects owner reflections s (some obj) =
      not (is_some (find_kind reflections (read k s ("identifier" ∷ "kind" ∷ []))))
      && (same_identifier k s obj && bound_for k (status_of k s) owner)

  -- The loop over the reflections: one for each kind, of a manifest of that kind.
  unfoldable pub index_reflections : String → ByKind → List Value → ByKind → Option ByKind
  index_reflections owner objects [] reflections = some reflections
  index_reflections owner objects (object s ∷ entries) reflections =
      let kind = read k s ("identifier" ∷ "kind" ∷ []) in
      if reflects owner reflections s (find_kind objects kind)
      then index_reflections owner objects entries ((kind, status_of k s) ∷ reflections)
      else none
  index_reflections owner objects (_ ∷ entries) reflections = none

  abbrev pub claim_ref_of : Fields → String → Value
  claim_ref_of status key = value_or_nil (k.nested_field (object status) ("claimRef" ∷ key ∷ []))

  -- The claim is bound to the volume, and the volume to that claim by name, namespace and UID, over
  -- the planned NFS source.
  unfoldable pub reciprocal : Fields → Fields → Fields → Fields → Bool
  reciprocal pv pvc pvs pvcs =
      is_text (index pvcs "volumeName") (name_of k pv)
      && (same_value (text (name_of k pvc)) (claim_ref_of pvs "name")
          && (same_value (text (namespace_of k pvc)) (claim_ref_of pvs "namespace")
              && (same_value (index pvcs "uid") (claim_ref_of pvs "uid")
                  && same_nfs (nfs_at k pv ("spec" ∷ "nfs" ∷ [])) (nfs_at k pvs ("nfs" ∷ [])))))

  abbrev pub both_kinds : Option Fields → Option Fields → ByKind → Bool
  both_kinds (some pv) (some pvc) reflections =
      reciprocal pv pvc (at_kind reflections "PersistentVolume")
        (at_kind reflections "PersistentVolumeClaim")
  both_kinds _ _ reflections = false

  unfoldable pub paired_work_applied : Unstructured → List Value → List Value → Bool
  paired_work_applied w manifests statuses =
      eqb (length statuses) 2 && elim (index_objects manifests []) [
        | none ↦ false
        | some objects ↦ elim (index_reflections (owner_of w) objects statuses []) [
          | none ↦ false
          | some reflections ↦
              both_kinds (find_kind objects "PersistentVolume")
                (find_kind objects "PersistentVolumeClaim") reflections
        ]
      ]
