-- ===== src/Tests/Machines.antt =====
-- Functions of apimachinery that a run can use: lookups and changes along a path of map keys.
use karmada_with_pvmigration.Prelude.{
  ◌≡◌, ◌≢◌, refl, ap, sym, ◌∙◌, eq_refl, map, arith, String, Bool, true, false, ◌&&◌, ◌||◌, Option,
  none, some, List, [], ◌∷◌, ◌==◌, ◌<>◌, ok, if◌then◌else◌,
}
use karmada_with_pvmigration.Prelude.Int.{ℤ}
use karmada_with_pvmigration.Machinery.{
  Machinery, Value, Fields, null, index, delete_key, value_or_nil, text_or_empty, truth, number,
  text, slice, object, end, field, elements, of_elements, Nested, present, absent, mistyped,
}
use karmada_with_pvmigration.Api.Core.{ObjectMeta, OwnerReference}
use karmada_with_pvmigration.Management.Applied.Matches.{ReadsFields}
use karmada_with_pvmigration.Management.Discovery.Created.{ReadsPolicies}

lookup : Fields → String → Option Value
lookup end k = none
lookup (field j v fs) k = if j == k then some v else lookup fs k

walk : Value → List String → Nested Value
unfolding lookup
walk v [] = present v
walk (object fs) (k ∷ ks) =
    let next = lookup fs k in elim next [ none ↦ absent | some v ↦ walk v ks ]
walk v (k ∷ ks) = mistyped

as_text : Nested Value → Nested String
as_text (present (text s)) = present s
as_text (present v) = mistyped
as_text absent = absent
as_text mistyped = mistyped

as_truth : Nested Value → Nested Bool
as_truth (present (truth b)) = present b
as_truth (present v) = mistyped
as_truth absent = absent
as_truth mistyped = mistyped

as_map : Nested Value → Nested Fields
as_map (present (object fs)) = present fs
as_map (present v) = mistyped
as_map absent = absent
as_map mistyped = mistyped

as_int64 : Nested Value → Nested ℤ
as_int64 (present (number n)) = present n
as_int64 (present v) = mistyped
as_int64 absent = absent
as_int64 mistyped = mistyped

text_at : Fields → String → String
unfolding lookup
text_at fs key = elim (lookup fs key) [ some (text s) ↦ s | some _ ↦ "" | none ↦ "" ]

texts_of : List Value → Nested (List String)
texts_of [] = present []
texts_of (text s ∷ vs) =
    let rest = texts_of vs in
    elim rest [ present ss ↦ present (s ∷ ss) | absent ↦ absent | mistyped ↦ mistyped ]
texts_of (v ∷ vs) = mistyped

as_texts : Nested Value → Nested (List String)
unfolding texts_of
as_texts (present (slice vs)) = texts_of (elements vs)
as_texts (present v) = mistyped
as_texts absent = absent
as_texts mistyped = mistyped

-- The controller among the owners has the UID.
owned_by : List OwnerReference → ObjectMeta → Bool
owned_by [] owner = false
owned_by (r ∷ rs) owner = (r.controller && r.uid == owner.uid) || owned_by rs owner

as_slice : Nested Value → Nested (List Value)
as_slice (present (slice vs)) = present (elements vs)
as_slice (present v) = mistyped
as_slice absent = absent
as_slice mistyped = mistyped

store : Fields → String → Value → Fields
store end k v = field k v end
store (field j w fs) k v = if j == k then field k v fs else field j w (store fs k v)

-- `SetNestedField`: missing maps on the way are made.
assign : Value → Value → List String → Value
unfolding store lookup
assign v new [] = new
assign (object fs) new (k ∷ ks) =
    let inner : Value = (elim (lookup fs k) [ none ↦ object end | some w ↦ w ]) in
    object (store fs k (assign inner new ks))
assign v new (k ∷ ks) = v

-- `RemoveNestedField`
erase : Value → List String → Value
unfolding store lookup delete_key
erase v [] = v
erase (object fs) (k ∷ []) = object (delete_key fs k)
erase (object fs) (k ∷ k' ∷ ks) = elim (lookup fs k) [
  | none ↦ object fs
  | some w ↦ object (store fs k (erase w (k' ∷ ks)))
]
erase v (k ∷ ks) = v

-- A text for the slice, which tells texts apart.
marshal : List Value → String
marshal [] = ""
marshal (text s ∷ vs) = s <> ";" <> marshal vs
marshal (v ∷ vs) = "{};" <> marshal vs

unfoldable pub machine : Machinery
unfolding walk as_texts texts_of owned_by as_text as_truth as_slice as_map as_int64 text_at assign
    erase marshal
machine = record {
  is_dns1123_subdomain = λ s. true;
  json_marshal = λ vs. ok (marshal vs);
  sha256_hex = λ s. s <> "000000000000000000000000";
  nested_string = λ v path. as_text (walk v path);
  nested_bool = λ v path. as_truth (walk v path);
  nested_slice = λ v path. as_slice (walk v path);
  nested_string_slice = λ v path. as_texts (walk v path);
  is_controlled_by = owned_by;
  nested_map = λ v path. as_map (walk v path);
  nested_int64 = λ v path. as_int64 (walk v path);
  nested_field = walk;
  nfs_from_unstructured = λ fs.
      some (record { server = text_at fs "server"; path = text_at fs "path"; read_only = false });
  set_nested_field = assign;
  remove_nested_field = erase;
  set_nested_slice = λ v vs path. assign v (slice (of_elements vs)) path;
  pv_to_unstructured = λ pv. ok (
      field "metadata" (object (field "name" (text pv.meta.name) end))
        (field "status" (object end) end));
  pvc_to_unstructured =
      λ pvc. ok (field "metadata" (object (field "name" (text pvc.meta.name) end)) end);
}

field_text_of :
    (n : Nested Value) (s : String) → value_or_nil n ≡ text s → text_or_empty (as_text n) ≡ s
unfolding as_text
field_text_of (present (text t)) s h = cc
field_text_of (present null) s h = cc
field_text_of (present (truth b)) s h = cc
field_text_of (present (number n)) s h = cc
field_text_of (present (slice vs)) s h = cc
field_text_of (present (object fs)) s h = cc
field_text_of absent s h = cc
field_text_of mistyped s h = cc

index-lookup :
    (fs : Fields) (key : String) → index fs key ≡ elim (lookup fs key) [ some v ↦ v | none ↦ null ]
unfolding lookup index
index-lookup end key = refl
index-lookup (field j v fs) key = ground (arith, index-lookup fs key)

key_text_of :
    (fs : Fields) (key : String)
    → text_or_empty (as_text (walk (object fs) (key ∷ []))) ≢ ""
    → index fs key ≡ text (text_or_empty (as_text (walk (object fs) (key ∷ []))))
unfolding walk as_text
key_text_of fs key has = by_answer (lookup fs key) (index-lookup fs key) has
  where
    by_answer :
        (o : Option Value)
        → index fs key ≡ elim o [ some v ↦ v | none ↦ null ]
        → text_or_empty (as_text (elim o [ none ↦ absent | some v ↦ present v ])) ≢ ""
        → index fs key
          ≡ text (text_or_empty (as_text (elim o [ none ↦ absent | some v ↦ present v ])))
    by_answer (some (text s)) e has = e
    by_answer (some null) e has = absurd (has refl)
    by_answer (some (truth b)) e has = absurd (has refl)
    by_answer (some (number n)) e has = absurd (has refl)
    by_answer (some (slice vs)) e has = absurd (has refl)
    by_answer (some (object gs)) e has = absurd (has refl)
    by_answer none e has = absurd (has refl)

pub machine-ReadsFields : ReadsFields machine
unfolding machine
machine-ReadsFields = record {
  key_text = key_text_of;
  field_text = λ v path s h. field_text_of (walk v path) s h;
}

lookup_present :
    (fs : Fields) (key : String) (v : Value) → index fs key ≡ v → v ≢ null → lookup fs key ≡ some v
lookup_present fs key v e some_value = by_answer (lookup fs key) (index-lookup fs key) refl
  where
    by_answer :
        (o : Option Value)
        → index fs key ≡ elim o [ some v ↦ v | none ↦ null ]
        → lookup fs key ≡ o
        → lookup fs key ≡ some v
    by_answer none h is_o = absurd (some_value (sym e ∙ h))
    by_answer (some w) h is_o = is_o ∙ ap some (sym h ∙ e)

walk_present :
    (fs : Fields) (key : String) (v : Value) (path : List String)
    → index fs key ≡ v
    → v ≢ null
    → walk (object fs) (key ∷ path) ≡ walk v path
unfolding walk
walk_present fs key v path e some_value = rw (lookup_present fs key v e some_value, walk) refl

texts_of-texts : (ss : List String) → texts_of (elements (of_elements (map text ss))) ≡ present ss
unfolding texts_of
texts_of-texts [] = refl
texts_of-texts (s ∷ ss) = rw (texts_of-texts ss) refl

-- A UID is equal to itself, whatever it is.
pub machine-ReadsPolicies : ReadsPolicies machine
unfolding machine as_texts
machine-ReadsPolicies = record {
  owned = λ api_version kind name owner. rw (eq_refl owner.uid) refl;
  inside = λ fs inner key path e. ap as_texts (walk_present fs key _ path e (λ is_null. cc));
  texts =
      λ fs key ss e. ap as_texts (walk_present fs key _ [] e (λ is_null. cc)) ∙ texts_of-texts ss;
}
