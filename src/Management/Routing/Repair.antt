-- ===== src/Management/Routing/Repair.antt =====
-- `validateWork`, and the repair of a Work that was made without routing annotations.
use karmada_with_pvmigration.Prelude.{
  ℕ, zero, suc, String, Bool, true, false, not, ◌&&◌, ◌||◌, Option, none, some, List, [], ◌∷◌, ◌==◌,
  ◌<>◌, eqb, leb, is_empty, Result, ok, err, ◌>>=◌, ◌>>◌, reject, if◌then◌else◌,
}
use karmada_with_pvmigration.Api.{PvMigration, WorkReference}
use karmada_with_pvmigration.Api.Core.{label}
use karmada_with_pvmigration.Machinery.{
  Machinery, Unstructured, Value, Fields, object, end, list_or_nil, Nested, present,
}
use karmada_with_pvmigration.Management.Naming.{owner_label, managed_label, manager_name}
use karmada_with_pvmigration.Management.Works.Manifests.{set_work_routing}
use karmada_with_pvmigration.Management.Applied.Receipt.{pair_of, statuses_of}
use karmada_with_pvmigration.Management.Routing.Comparable.{deep_equal, comparable_work_spec}

-- The reference of a Work for which a repair is recorded.
abbrev pub is_repaired : Unstructured → WorkReference → Bool
is_repaired w ref =
    (ref.name == w.meta.name && ref.namespace == w.meta.namespace)
    && not (ref.routing_work_uid == "")

unfoldable pub generation_allowed : Unstructured → List WorkReference → Bool
generation_allowed w [] = leb w.meta.generation 1
generation_allowed w (ref ∷ refs) =
    if is_repaired w ref
    then (eqb ref.routing_generation 2 && ref.routing_work_uid == w.meta.uid)
      && eqb w.meta.generation ref.routing_generation
    else generation_allowed w refs

abbrev pub work_generation_allowed : Unstructured → PvMigration → Bool
work_generation_allowed w m = generation_allowed w m.status.works

-- `m.Status.Works[index]`, none out of range.
unfoldable pub ref_at : List WorkReference → ℕ → Option WorkReference
ref_at [] i = none
ref_at (ref ∷ refs) zero = some ref
ref_at (ref ∷ refs) (suc i) = ref_at refs i

-- `m.Status.Works[index].RoutingWorkUID, m.Status.Works[index].RoutingGeneration = uid, generation`
unfoldable pub set_routing : List WorkReference → ℕ → String → ℕ → List WorkReference
set_routing [] i uid generation = []
set_routing (ref ∷ refs) zero uid generation =
    record ref { routing_work_uid = uid; routing_generation = generation } ∷ refs
set_routing (ref ∷ refs) (suc i) uid generation = ref ∷ set_routing refs i uid generation

abbrev pub with_routing : PvMigration → ℕ → String → ℕ → PvMigration
with_routing m i uid generation = record m {
  status = record (m.status) { works = set_routing m.status.works i uid generation };
}

-- What a pass asks the API server to patch.
pub data Repair : Type 0 where
  unchanged : Repair
  record_intent : PvMigration → Repair
  rewrite : Unstructured → Repair

module _ (k : Machinery) where
  abbrev pub same_spec : Unstructured → Unstructured → Bool
  same_spec a b = deep_equal (comparable_work_spec k a) (comparable_work_spec k b)

  unfoldable pub validate_work : Unstructured → Unstructured → PvMigration → Result (Unit {0})
  validate_work actual expected m = do
    reject
        (not (pair_of actual == pair_of expected)
          || not (label actual.meta.labels owner_label == m.meta.uid)
          || not (label actual.meta.labels managed_label == manager_name)
          || not (same_spec actual expected))
        ("Work " <> actual.meta.name <> " ownership or immutable spec conflict")
    reject (not (work_generation_allowed actual m))
        ("Work " <> actual.meta.name <> " was modified; refuse stale application evidence")

  -- `found && len(annotations) == 0`
  abbrev no_annotations : Nested Fields → Bool
  no_annotations (present end) = true
  no_annotations _ = false

  -- `entry.(map[string]interface{})` panics on anything but a map.
  abbrev remove_entry : Value → Result Value
  remove_entry (object fs) =
      let once =
        k.remove_nested_field (object fs)
          ("metadata" ∷ "annotations" ∷ "work.karmada.io/name" ∷ []) in
      let twice =
        k.remove_nested_field once
          ("metadata" ∷ "annotations" ∷ "work.karmada.io/namespace" ∷ []) in
      ok (
        if no_annotations (k.nested_map twice ("metadata" ∷ "annotations" ∷ []))
        then k.remove_nested_field twice ("metadata" ∷ "annotations" ∷ [])
        else twice)
  remove_entry _ = err "panic: interface conversion"

  abbrev remove_entries : List Value → Result (List Value)
  remove_entries [] = ok []
  remove_entries (v ∷ vs) = do v' ← remove_entry v; vs' ← remove_entries vs; ok (v' ∷ vs')

  unfoldable pub remove_work_routing : Unstructured → Result Unstructured
  remove_work_routing w = do
    manifests ← remove_entries (list_or_nil (k.nested_slice w.spec ("workload" ∷ "manifests" ∷ [])))
    ok (record w { spec = k.set_nested_slice w.spec manifests ("workload" ∷ "manifests" ∷ []) })

  -- The intent is recorded first; the Work is rewritten once the intent is that for its UID.
  unfoldable pub intend_or_rewrite : PvMigration → ℕ → WorkReference → Unstructured → Result Repair
  intend_or_rewrite m i ref actual =
      if ref.routing_work_uid == ""
      then ok (record_intent (with_routing m i actual.meta.uid 2))
      else (do
        reject (not (ref.routing_work_uid == actual.meta.uid) || not (eqb ref.routing_generation 2))
            "routing repair identity changed"
        w ← set_work_routing k actual
        ok (rewrite w))

  -- The repair of a Work whose spec differs from the expected one.
  unfoldable pub repair :
      PvMigration → ℕ → WorkReference → Unstructured → Unstructured → Result Repair
  repair m i ref actual expected = do
    legacy ← remove_work_routing expected
    reject
        (not (eqb actual.meta.generation 1) || actual.meta.uid == "" || ref.applied || ref.detached)
        ("Work " <> actual.meta.name
          <> " ownership or immutable spec conflict: refuse routing repair of modified/applied Work")
    validate_work actual legacy (with_routing m i "" ref.routing_generation)
    reject (not (is_empty (statuses_of k actual)))
        "refuse routing repair with preexisting reflection"
    intend_or_rewrite m i ref actual

  abbrev ensure_at :
      PvMigration → ℕ → Option WorkReference → Unstructured → Unstructured → Result Repair
  ensure_at m i none actual expected = err "panic: index out of range"
  ensure_at m i (some ref) actual expected = do
    reject actual.meta.deleting "Work is terminating"
    if same_spec actual expected then ok unchanged else repair m i ref actual expected

  unfoldable pub ensure_work_routing : PvMigration → ℕ → Unstructured → Unstructured → Result Repair
  ensure_work_routing m i actual expected = ensure_at m i (ref_at m.status.works i) actual expected
