-- ===== src/Management/Applied/Evidence.antt =====
-- `workApplied` of internal/management/migration.go, and `splitPairApplied` and
-- `standaloneReceiptMatches` of internal/management/standalone.go.
use karmada_with_pvmigration.Prelude.{
  ℕ, String, Bool, true, false, not, ◌&&◌, ◌||◌, Option, none, some, List, [], ◌∷◌, ◌++◌, ◌==◌,
  is_some, length, eqb, if◌then◌else◌,
}
use karmada_with_pvmigration.Prelude.Int.{ℤ, pos, same_ℤ}
use karmada_with_pvmigration.Api.{WorkReference}
use karmada_with_pvmigration.Machinery.{
  Machinery, Unstructured, Value, Fields, text, object, index, is_text, list_or_nil, Nested,
  present, absent, mistyped,
}
use karmada_with_pvmigration.Management.Applied.Receipt.{
  owner_of, pair_of, standalone_work, single, manifests_of, statuses_of, read, name_of,
  standalone_status,
}
use karmada_with_pvmigration.Management.Applied.Pair.{paired_work_applied}

-- `found && generation != 0 && generation != w.GetGeneration()`
abbrev pub is_stale : ℕ → Nested ℤ → Bool
is_stale current (present g) = not (same_ℤ g (pos 0)) && not (same_ℤ g (pos current))
is_stale current absent = false
is_stale current mistyped = false

-- `w["uid"].(string)` where the receipt has been checked.
abbrev pub uid_of : Option Fields → String
uid_of (some status) = elim (index status "uid") [ text s ↦ s | _ ↦ "" ]
uid_of none = ""

module _ (k : Machinery) where
  -- The condition says that the Work is applied.
  abbrev pub says_applied : Fields → Bool
  says_applied c = is_text (index c "type") "Applied" && is_text (index c "status") "True"

  abbrev pub observed : Fields → Nested ℤ
  observed c = k.nested_int64 (object c) ("observedGeneration" ∷ [])

  -- The loop over the conditions.
  unfoldable pub conditions_applied : ℕ → List Value → Bool → Bool
  conditions_applied current [] applied = applied
  conditions_applied current (object c ∷ conditions) applied = elim (says_applied c) [
    | true ↦ elim (is_stale current (observed c)) [
      | true ↦ false
      | false ↦ conditions_applied current conditions true
    ]
    | false ↦ conditions_applied current conditions applied
  ]
  conditions_applied current (_ ∷ conditions) applied =
      conditions_applied current conditions applied

  -- The one manifest is reflected as an available or bound volume of its name.
  abbrev pub volume_applied : Option Fields → Option Fields → Bool
  volume_applied (some manifest) (some s) =
      (name_of k manifest == read k s ("identifier" ∷ "name" ∷ [])
        && read k s ("identifier" ∷ "kind" ∷ []) == "PersistentVolume")
      && (read k s ("status" ∷ "phase" ∷ []) == "Available"
          || read k s ("status" ∷ "phase" ∷ []) == "Bound")
  volume_applied _ _ = false

  abbrev pub conditions_of : Unstructured → List Value
  conditions_of w = list_or_nil (k.nested_slice w.status ("conditions" ∷ []))

  unfoldable pub work_applied : Unstructured → Bool
  work_applied w =
      if w.meta.deleting
      then false
      else if not (conditions_applied w.meta.generation (conditions_of w) false)
      then false
      else if standalone_work w
      then is_some (standalone_status k w)
      else if eqb (length (manifests_of k w)) 2
      then paired_work_applied k w (manifests_of k w) (statuses_of k w)
      else volume_applied (single (manifests_of k w)) (single (statuses_of k w))

  -- The UIDs of the volume and of the claim, where the two Works of a pair are the receipt of each
  -- other.
  unfoldable pub split_pair_applied :
      Option Unstructured → Option Unstructured → Option (String × String)
  split_pair_applied (some pv) (some pvc) =
      if ((pv.meta.namespace == pvc.meta.namespace && owner_of pv == owner_of pvc)
          && (pair_of pv == pair_of pvc && (standalone_work pv && standalone_work pvc)))
        && ((work_applied pv && work_applied pvc)
            && paired_work_applied k pv (manifests_of k pv ++ manifests_of k pvc)
                (statuses_of k pv ++ statuses_of k pvc))
      then some (uid_of (standalone_status k pv), uid_of (standalone_status k pvc))
      else none
  split_pair_applied _ _ = none

  -- The receipt of a Work that is recorded in the migration's status.
  unfoldable pub standalone_receipt_matches : Unstructured → WorkReference → Bool
  standalone_receipt_matches w ref = elim (standalone_status k w) [
    | none ↦ false
    | some status ↦
        if ref.pv_uid == "" || ref.pvc_uid == ""
        then false
        else if w.meta.name == pair_of w
        then is_text (index status "uid") ref.pv_uid
          && read k status ("claimRef" ∷ "uid" ∷ []) == ref.pvc_uid
        else is_text (index status "uid") ref.pvc_uid
  ]
