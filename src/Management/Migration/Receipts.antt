-- ===== src/Management/Migration/Receipts.antt =====
-- The loop over the references of standalone Works in `PVMigrationReconciler.Reconcile`: the receipt
-- of both Works of a pair.
use karmada_with_pvmigration.Prelude.{
  String, Bool, true, false, not, ◌&&◌, ◌||◌, Option, none, some, List, [], ◌∷◌, ◌==◌, ◌<>◌, Result,
  ok, err, ◌>>=◌, is_some, if◌then◌else◌,
}
use karmada_with_pvmigration.Api.{WorkReference}
use karmada_with_pvmigration.Machinery.{Machinery, Unstructured}
use karmada_with_pvmigration.Management.Applied.Receipt.{pair_of}
use karmada_with_pvmigration.Management.Applied.Evidence.{split_pair_applied}

-- `observed[name]`, nil where the key is missing.
unfoldable pub observed_at : List (String × Unstructured) → String → Option Unstructured
observed_at [] name = none
observed_at ((j, w) ∷ ws) name = if j == name then some w else observed_at ws name

-- `ref.Applied = ready; ref.PVUID, ref.PVCUID = pvUID, pvcUID`
abbrev pub with_receipt : WorkReference → Option (String × String) → WorkReference
with_receipt ref none = record ref { applied = false; pv_uid = ""; pvc_uid = "" }
with_receipt ref (some (u, c)) = record ref { applied = true; pv_uid = u; pvc_uid = c }

module _ (k : Machinery) where
  abbrev pub receipt_for : List (String × Unstructured) → Unstructured → Option (String × String)
  receipt_for observed expected =
      split_pair_applied k (observed_at observed (pair_of expected))
        (observed_at observed (pair_of expected <> "-pvc"))

  -- The references, and whether all of them are still applied. `works` has as many elements.
  unfoldable pub record_receipts :
      List (String × Unstructured)
      → List WorkReference
      → List Unstructured
      → Bool
      → Result (List WorkReference × Bool)
  record_receipts observed [] works all = ok ([], all)
  record_receipts observed (ref ∷ refs) [] all = err "panic: index out of range"
  record_receipts observed (ref ∷ refs) (expected ∷ works) all =
      elim (not ref.standalone || ref.detached) [
        | true ↦ do (refs', all') ← record_receipts observed refs works all; ok (ref ∷ refs', all')
        | false ↦ do
          let receipt = receipt_for observed expected
          (refs', all') ← record_receipts observed refs works (all && is_some receipt)
          ok (with_receipt ref receipt ∷ refs', all')
      ]
