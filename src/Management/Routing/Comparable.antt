-- ===== src/Management/Routing/Comparable.antt =====
-- `comparableWorkSpec`, and `reflect.DeepEqual` on untyped data.
use karmada_with_pvmigration.Prelude.{
  ℕ, suc, String, Bool, true, false, ◌&&◌, List, [], ◌∷◌, ◌==◌, map, eqb, if◌then◌else◌,
}
use karmada_with_pvmigration.Prelude.Int.{same_ℤ}
use karmada_with_pvmigration.Machinery.{
  Machinery, Unstructured, Value, Values, Fields, null, truth, number, text, slice, object, nil,
  cons, end, field, index, delete_key, is_null, Nested, present, absent, mistyped,
}
use karmada_with_pvmigration.Management.Applied.Receipt.{same_truth}

abbrev count : Fields → ℕ
count end = 0
count (field key v fs) = suc (count fs)

abbrev has_key : Fields → String → Bool
has_key end key = false
has_key (field j v fs) key = if j == key then true else has_key fs key

-- Maps are equal if they have as many keys, and equal values at each key of the first.
unfoldable mutual
  pub deep_equal : Value → Value → Bool
  deep_equal null null = true
  deep_equal (truth a) (truth b) = same_truth a b
  deep_equal (number a) (number b) = same_ℤ a b
  deep_equal (text s) (text t) = s == t
  deep_equal (slice vs) (slice ws) = equal_elements vs ws
  deep_equal (object fs) (object gs) = eqb (count fs) (count gs) && equal_at_keys fs gs
  deep_equal _ _ = false

  equal_elements : Values → Values → Bool
  equal_elements nil nil = true
  equal_elements (cons v vs) (cons w ws) = deep_equal v w && equal_elements vs ws
  equal_elements _ _ = false

  equal_at_keys : Fields → Fields → Bool
  equal_at_keys end gs = true
  equal_at_keys (field key v fs) gs =
      has_key gs key && (deep_equal v (index gs key) && equal_at_keys fs gs)

-- `m[key] = v` for a key that the map has.
unfoldable pub replace : Fields → String → Value → Fields
replace end key v = end
replace (field j w fs) key v = if j == key then field j v fs else field j w (replace fs key v)

abbrev delete_keys : Fields → List String → Fields
delete_keys fs [] = fs
delete_keys fs (key ∷ keys) = delete_keys (delete_key fs key) keys

-- `len(values) == 0` after the deletions: the whole member is dropped.
abbrev kept : Fields → String → Fields → Fields
kept metadata name end = delete_key metadata name
kept metadata name (field key v fs) = replace metadata name (object (field key v fs))

abbrev tidy_member : Fields → String → Value → List String → Fields
tidy_member metadata name (object values) keys = kept metadata name (delete_keys values keys)
tidy_member metadata name _ keys = metadata

-- The tracking labels and annotations, and an empty creation time, do not count.
unfoldable pub tidy_metadata : Fields → Fields
tidy_metadata metadata =
    let labels =
      tidy_member metadata "labels" (index metadata "labels")
        ("work.karmada.io/permanent-id" ∷ []) in
    let annotations = tidy_member labels "annotations" (index labels "annotations") (
      "resourcetemplate.karmada.io/managed-annotations"
      ∷ "resourcetemplate.karmada.io/managed-labels" ∷ []) in
    if is_null (index annotations "creationTimestamp")
    then delete_key annotations "creationTimestamp"
    else annotations

abbrev tidy_object : Fields → Value → Value
tidy_object obj (object metadata) =
    object (replace obj "metadata" (object (tidy_metadata metadata)))
tidy_object obj _ = object obj

abbrev tidy_manifest : Value → Value
tidy_manifest (object obj) = tidy_object obj (index obj "metadata")
tidy_manifest v = v

abbrev with_manifests : Machinery → Value → Nested (List Value) → Value
with_manifests k spec (present manifests) =
    k.set_nested_slice spec (map tidy_manifest manifests) ("workload" ∷ "manifests" ∷ [])
with_manifests k spec absent = spec
with_manifests k spec mistyped = spec

unfoldable pub comparable_work_spec : Machinery → Unstructured → Value
comparable_work_spec k w =
    with_manifests k w.spec (k.nested_slice w.spec ("workload" ∷ "manifests" ∷ []))
