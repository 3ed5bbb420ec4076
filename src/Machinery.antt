-- ===== src/Machinery.antt =====
-- What the management controllers use of k8s.io/apimachinery and of cryptographic hashing: parameters
-- of the model. Data without a static type (`map[string]interface{}`) is a `Value`.
use karmada_with_pvmigration.Prelude.{
  String, Bool, true, false, not, List, [], Option, ◌∷◌, ◌==◌, Result, if◌then◌else◌,
}
use karmada_with_pvmigration.Prelude.Int.{ℤ}
use karmada_with_pvmigration.Api.Core.{
  ObjectMeta, OwnerReference, PersistentVolume, PersistentVolumeClaim, NfsVolumeSource,
}

-- `interface{}` as encoding/json fills it, with slices and maps as their own types.
mutual
  pub data Value : Type 0 where
    null : Value
    truth : Bool → Value
    number : ℤ → Value
    text : String → Value
    slice : Values → Value
    object : Fields → Value

  pub data Values : Type 0 where
    nil : Values
    cons : Value → Values → Values

  pub data Fields : Type 0 where
    end : Fields
    field : String → Value → Fields → Fields

-- `m[key]`, null where the key is missing.
unfoldable pub index : Fields → String → Value
index end k = null
index (field j v fs) k = if j == k then v else index fs k

-- `delete(m, key)`
unfoldable pub delete_key : Fields → String → Fields
delete_key end k = end
delete_key (field j v fs) k = let rest = delete_key fs k in if j == k then rest else field j v rest

-- `[]interface{}` as a list, and back.
abbrev pub elements : Values → List Value
elements nil = []
elements (cons v vs) = v ∷ elements vs

abbrev pub of_elements : List Value → Values
of_elements [] = nil
of_elements (v ∷ vs) = cons v (of_elements vs)

-- The answer of an `unstructured.Nested…` call: the value, `found == false`, or an error.
pub data Nested {ℓ} (A : Type ℓ) : Type ℓ where
  present : A → Nested A
  absent : Nested A
  mistyped : Nested A

-- `s, _, _ := unstructured.NestedString(…)`
abbrev pub text_or_empty : Nested String → String
text_or_empty (present s) = s
text_or_empty absent = ""
text_or_empty mistyped = ""

-- `l, _, _ := unstructured.NestedSlice(…)`
abbrev pub list_or_nil : Nested (List Value) → List Value
list_or_nil (present l) = l
list_or_nil absent = []
list_or_nil mistyped = []

-- `m, _, _ := unstructured.NestedMap(…)`
abbrev pub fields_or_nil : Nested Fields → Fields
fields_or_nil (present fs) = fs
fields_or_nil absent = end
fields_or_nil mistyped = end

-- `v, _, _ := unstructured.NestedFieldNoCopy(…)`
abbrev pub value_or_nil : Nested Value → Value
value_or_nil (present v) = v
value_or_nil absent = null
value_or_nil mistyped = null

-- `got, _, err := NestedString(…); err != nil || got != want`: a missing text reads as "".
abbrev pub nested_differs : Nested String → String → Bool
nested_differs (present s) want = not (s == want)
nested_differs absent want = not ("" == want)
nested_differs mistyped want = true

-- `v == t` for an `interface{}` and a string.
abbrev pub is_text : Value → String → Bool
is_text (text s) t = s == t
is_text _ t = false

-- `v == nil`
abbrev pub is_null : Value → Bool
is_null null = true
is_null _ = false

-- The functions. `nfs_from_unstructured` gives none for an error of the converter. `set_nested_field`
-- and `set_nested_slice` return the changed object, unchanged where the call fails, since every caller
-- drops the error. `sha256_hex` is the digest in hexadecimal, `json_marshal` the JSON text of a slice.
-- `is_controlled_by` is `metav1.IsControlledBy`, of the owner references of an object and the metadata
-- of an owner.
pub record Machinery : Type 0 where
  pub is_dns1123_subdomain : String → Bool
  pub sha256_hex : String → String
  pub json_marshal : List Value → Result String
  pub nested_string : Value → List String → Nested String
  pub nested_bool : Value → List String → Nested Bool
  pub nested_slice : Value → List String → Nested (List Value)
  pub nested_string_slice : Value → List String → Nested (List String)
  pub nested_map : Value → List String → Nested Fields
  pub nested_int64 : Value → List String → Nested ℤ
  pub nested_field : Value → List String → Nested Value
  pub set_nested_field : Value → Value → List String → Value
  pub remove_nested_field : Value → List String → Value
  pub set_nested_slice : Value → List Value → List String → Value
  pub is_controlled_by : List OwnerReference → ObjectMeta → Bool
  pub pv_to_unstructured : PersistentVolume → Result Fields
  pub pvc_to_unstructured : PersistentVolumeClaim → Result Fields
  pub nfs_from_unstructured : Fields → Option NfsVolumeSource

-- An `unstructured.Unstructured` object: its metadata by the accessors, and the members `spec` and
-- `status` of its map.
pub record Unstructured : Type 0 where
  pub kind : String
  pub meta : ObjectMeta
  pub owners : List OwnerReference
  pub spec : Value
  pub status : Value
