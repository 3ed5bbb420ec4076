-- ===== src/Management/Applied/Receipts.antt =====
-- What a receipt of a standalone Work shows.
use karmada_with_pvmigration.Prelude.{
  String, ◌≡◌, refl, ◌≢◌, ◌⊎◌, inl, inr, true, Option, none, some, [], ◌∷◌, ◌<>◌, eq_iff, arith,
  Bool-cases,
}
use karmada_with_pvmigration.Machinery.{Machinery, Unstructured, Fields, null, text, object, index}
use karmada_with_pvmigration.Management.Applied.Receipt.{
  owner_of, pair_of, manifests_of, statuses_of, read, api_version_of, kind_of, name_of,
  namespace_of, same_identifier, status_of, bound_for, nfs_at, volume_receipt, claim_receipt,
  kind_receipt, is_receipt, receipt_of, standalone_status,
}
use karmada_with_pvmigration.Management.Applied.Values.{
  is_text-eq, is_null-eq, IsNfs, same_nfs-IsNfs, single-eq,
}

module _ (k : Machinery) where
  -- The reflected object is bound and live, and belongs to the migration.
  pub record IsBound (status : Fields) (owner : String) : Type 0 where
    pub uid : read k status ("uid" ∷ []) ≢ ""
    pub phase : index status "phase" ≡ text "Bound"
    pub live : index status "deletionTimestamp" ≡ null
    pub has_owner : owner ≢ ""
    pub migration : index status "migrationUID" ≡ text owner

  -- The Work's volume, which has the pair's name, is bound to the planned claim over the planned NFS.
  pub record IsVolumeReceipt (w : Unstructured) (obj status : Fields) : Type 0 where
    pub kind : kind_of k obj ≡ "PersistentVolume"
    pub work : w.meta.name ≡ pair_of w
    pub name : name_of k obj ≡ pair_of w
    pub namespace : namespace_of k obj ≡ ""
    pub claim_name :
        read k obj ("spec" ∷ "claimRef" ∷ "name" ∷ []) ≡ read k status ("claimRef" ∷ "name" ∷ [])
    pub claim_namespace :
        read k obj ("spec" ∷ "claimRef" ∷ "namespace" ∷ [])
        ≡ read k status ("claimRef" ∷ "namespace" ∷ [])
    pub claim_uid : read k status ("claimRef" ∷ "uid" ∷ []) ≢ ""
    pub nfs : IsNfs (nfs_at k obj ("spec" ∷ "nfs" ∷ [])) (nfs_at k status ("nfs" ∷ []))

  -- The Work's claim is bound to the volume of the pair's name.
  pub record IsClaimReceipt (w : Unstructured) (obj status : Fields) : Type 0 where
    pub kind : kind_of k obj ≡ "PersistentVolumeClaim"
    pub work : w.meta.name ≡ pair_of w <> "-pvc"
    pub namespace : namespace_of k obj ≢ ""
    pub planned_volume : read k obj ("spec" ∷ "volumeName" ∷ []) ≡ pair_of w
    pub volume : index status "volumeName" ≡ text (pair_of w)

  pub record IsReceipt (w : Unstructured) (status : Fields) : Type 0 where
    pub obj : Fields
    pub reflection : Fields
    pub manifests : manifests_of k w ≡ object obj ∷ []
    pub statuses : statuses_of k w ≡ object reflection ∷ []
    pub reflected : status ≡ status_of k reflection
    pub has_pair : pair_of w ≢ ""
    pub version : api_version_of k obj ≡ "v1"
    pub has_name : name_of k obj ≢ ""
    pub identifier : same_identifier k reflection obj ≡ true
    pub bound : IsBound status (owner_of w)
    pub kind : IsVolumeReceipt w obj status ⊎ IsClaimReceipt w obj status

  bound_for-IsBound :
      (status : Fields) (owner : String) → bound_for k status owner ≡ true → IsBound status owner
  unfolding bound_for
  bound_for-IsBound status owner h = ground (
    arith,
    eq_iff (read k status ("uid" ∷ [])) "",
    eq_iff owner "",
    is_text-eq (index status "phase") "Bound",
    is_null-eq (index status "deletionTimestamp"),
    is_text-eq (index status "migrationUID") owner,
  )

  volume_receipt-IsVolumeReceipt :
      (w : Unstructured) (obj status : Fields)
      → kind_of k obj ≡ "PersistentVolume"
      → volume_receipt k w obj status ≡ true
      → IsVolumeReceipt w obj status
  unfolding volume_receipt
  volume_receipt-IsVolumeReceipt w obj status kind h = ground (
    arith,
    eq_iff w.meta.name (pair_of w),
    eq_iff (name_of k obj) (pair_of w),
    eq_iff (namespace_of k obj) "",
    eq_iff (read k obj ("spec" ∷ "claimRef" ∷ "name" ∷ []))
        (read k status ("claimRef" ∷ "name" ∷ [])),
    eq_iff (read k obj ("spec" ∷ "claimRef" ∷ "namespace" ∷ []))
        (read k status ("claimRef" ∷ "namespace" ∷ [])),
    eq_iff (read k status ("claimRef" ∷ "uid" ∷ [])) "",
    same_nfs-IsNfs (nfs_at k obj ("spec" ∷ "nfs" ∷ [])) (nfs_at k status ("nfs" ∷ [])),
  )

  claim_receipt-IsClaimReceipt :
      (w : Unstructured) (obj status : Fields)
      → kind_of k obj ≡ "PersistentVolumeClaim"
      → claim_receipt k w obj status ≡ true
      → IsClaimReceipt w obj status
  unfolding claim_receipt
  claim_receipt-IsClaimReceipt w obj status kind h = ground (
    arith,
    eq_iff w.meta.name (pair_of w <> "-pvc"),
    eq_iff (namespace_of k obj) "",
    eq_iff (read k obj ("spec" ∷ "volumeName" ∷ [])) (pair_of w),
    is_text-eq (index status "volumeName") (pair_of w),
  )

  kind_receipt-cases :
      (w : Unstructured) (obj status : Fields)
      → kind_receipt k w obj status ≡ true
      → IsVolumeReceipt w obj status ⊎ IsClaimReceipt w obj status
  unfolding kind_receipt
  kind_receipt-cases w obj status h = ground (
    arith,
    eq_iff (kind_of k obj) "PersistentVolume",
    eq_iff (kind_of k obj) "PersistentVolumeClaim",
    volume_receipt-IsVolumeReceipt w obj status,
    claim_receipt-IsClaimReceipt w obj status,
  )

  receipt_of-parts :
      (w : Unstructured) (m s : Option Fields) {status : Fields}
      → receipt_of k w m s ≡ some status
      → (obj : Fields) × (reflection : Fields) × (m ≡ some obj)
        × (s ≡ some reflection)
        × (is_receipt k w obj reflection ≡ true)
        × (status ≡ status_of k reflection)
  receipt_of-parts w (some obj) (some r) h = elim (Bool-cases (is_receipt k w obj r)) [
    | inl yes_it_is ↦ (obj, r, refl, refl, yes_it_is, cc (rw yes_it_is at h))
    | inr it_is_not ↦ absurd (cc (rw it_is_not at h))
  ]
  receipt_of-parts w none s h = cc
  receipt_of-parts w (some obj) none h = cc

  -- A receipt of a standalone Work is the reflected status of its only manifest, an object of `v1` in
  -- a Work of a pair, identified by its kind, name and namespace; the object has a UID, is bound, not
  -- being deleted, and belongs to the migration of the Work's label; and it is the pair's volume,
  -- over the planned NFS source and bound to the planned claim, or the claim bound to that volume.
  pub standalone_status-IsReceipt :
      (w : Unstructured) (status : Fields)
      → standalone_status k w ≡ some status
      → IsReceipt w status
  unfolding standalone_status is_receipt
  standalone_status-IsReceipt w status h =
      let (obj, r, one, two, test, e) = receipt_of-parts w _ _ h in
      record {
        obj = obj;
        reflection = r;
        manifests = single-eq _ one;
        statuses = single-eq _ two;
        reflected = e;
        has_pair = ground (arith, eq_iff (pair_of w) "");
        version = ground (arith, eq_iff (api_version_of k obj) "v1");
        has_name = ground (arith, eq_iff (name_of k obj) "");
        identifier = ground arith;
        bound = rw e (bound_for-IsBound (status_of k r) (owner_of w) (ground arith));
        kind = rw e (kind_receipt-cases w obj (status_of k r) (ground arith));
      }
