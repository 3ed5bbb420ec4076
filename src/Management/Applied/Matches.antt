-- ===== src/Management/Applied/Matches.antt =====
-- The receipts that the migration controller records are those that the cleanup controller accepts.
use package.text.Mathlib.TextPositions.{eq_refl}
use karmada_with_pvmigration.Prelude.{
  String, ◌≡◌, refl, sym, ◌∙◌, ◌≢◌, true, some, List, [], ◌∷◌, eq_iff, arith,
}
use karmada_with_pvmigration.Api.{WorkReference}
use karmada_with_pvmigration.Machinery.{
  Machinery, Unstructured, Value, Fields, text, object, index, text_or_empty, value_or_nil,
}
use karmada_with_pvmigration.Management.Applied.Receipt.{pair_of, read, standalone_status}
use karmada_with_pvmigration.Management.Applied.Evidence.{
  uid_of, split_pair_applied, standalone_receipt_matches,
}
use karmada_with_pvmigration.Management.Applied.Reciprocal.{
  IsReciprocal, differs_suffix, split_pair_applied-IsReciprocal,
}

-- `NestedString` and `NestedFieldNoCopy` read what the map holds: a text that is found under one key
-- is the map's value, and a text found as a field is found as a text.
pub record ReadsFields (k : Machinery) : Type 0 where
  pub key_text :
      (fs : Fields) (key : String)
      → read k fs (key ∷ []) ≢ ""
      → index fs key ≡ text (read k fs (key ∷ []))
  pub field_text :
      (v : Value) (path : List String) (s : String)
      → value_or_nil (k.nested_field v path) ≡ text s
      → text_or_empty (k.nested_string v path) ≡ s

module _ (k : Machinery) where
  volume_matches :
      (w : Unstructured) (ref : WorkReference) (s : Fields)
      → standalone_status k w ≡ some s
      → w.meta.name ≡ pair_of w
      → ref.pv_uid ≢ ""
      → ref.pvc_uid ≢ ""
      → index s "uid" ≡ text ref.pv_uid
      → read k s ("claimRef" ∷ "uid" ∷ []) ≡ ref.pvc_uid
      → standalone_receipt_matches k w ref ≡ true
  unfolding standalone_receipt_matches
  volume_matches w ref s e name has has' uid claim =
      rw (standalone_receipt_matches, e)
        (ground (
          arith,
          eq_iff ref.pv_uid "",
          eq_iff ref.pvc_uid "",
          eq_iff w.meta.name (pair_of w),
          eq_refl ref.pv_uid,
          eq_iff (read k s ("claimRef" ∷ "uid" ∷ [])) ref.pvc_uid,
        ))

  claim_matches :
      (w : Unstructured) (ref : WorkReference) (s : Fields)
      → standalone_status k w ≡ some s
      → w.meta.name ≢ pair_of w
      → ref.pv_uid ≢ ""
      → ref.pvc_uid ≢ ""
      → index s "uid" ≡ text ref.pvc_uid
      → standalone_receipt_matches k w ref ≡ true
  unfolding standalone_receipt_matches
  claim_matches w ref s e name has has' uid =
      rw (standalone_receipt_matches, e)
        (ground (
          arith,
          eq_iff ref.pv_uid "",
          eq_iff ref.pvc_uid "",
          eq_iff w.meta.name (pair_of w),
          eq_refl ref.pvc_uid,
        ))

  -- The UID that is recorded from a receipt is the one that stands in it, and not empty.
  recorded :
      ReadsFields k
      → (s : Fields) (u : String) → read k s ("uid" ∷ []) ≢ ""
      → u ≡ uid_of (some s)
      → (index s "uid" ≡ text u) × (u ≢ "")
  recorded reads s u has e = (rw same at found_text, rw same at has)
    where
      found_text : index s "uid" ≡ text (read k s ("uid" ∷ []))
      found_text = reads.key_text s "uid" has

      same : read k s ("uid" ∷ []) ≡ u
      same = sym (e ∙ rw (uid_of, found_text) refl)

  -- Where NestedString and NestedFieldNoCopy read what the map holds: if `splitPairApplied` accepts a
  -- pair of Works, of which the first is the one named by the pair, then both Works match a reference
  -- with the two UIDs that it returns, as `standaloneReceiptMatches` tests it before the cleanup.
  pub split_pair_applied-matches :
      ReadsFields k
      → (pv pvc : Unstructured) (ref : WorkReference) → pv.meta.name ≡ pair_of pv
      → split_pair_applied k (some pv) (some pvc) ≡ some (ref.pv_uid, ref.pvc_uid)
      → (standalone_receipt_matches k pv ref ≡ true) × (standalone_receipt_matches k pvc ref ≡ true)
  split_pair_applied-matches reads pv pvc ref name h =
      by_receipts (split_pair_applied-IsReciprocal k pv pvc ref.pv_uid ref.pvc_uid name h)
    where
      by_receipts :
          IsReciprocal k pv pvc ref.pv_uid ref.pvc_uid
          → (standalone_receipt_matches k pv ref ≡ true)
            × (standalone_receipt_matches k pvc ref ≡ true)
      by_receipts p =
          let (uid, has) =
            recorded reads p.volume_status ref.pv_uid p.volume.bound.uid p.volume_uid in
          let (uid', has') =
            recorded reads p.claim_status ref.pvc_uid p.claim.bound.uid p.claim_uid in
          (
            volume_matches pv ref p.volume_status p.volume_read name has has' uid (
                reads.field_text (object p.volume_status) ("claimRef" ∷ "uid" ∷ []) ref.pvc_uid
                  (p.volume_claim_uid ∙ uid')),
            claim_matches pvc ref p.claim_status p.claim_read
                (λ same. differs_suffix (pair_of pvc) (sym same ∙ p.is_claim.work)) has has' uid',
          )
