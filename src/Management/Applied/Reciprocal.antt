-- ===== src/Management/Applied/Reciprocal.antt =====
-- What the two Works of a pair show together.
use Prim.Native.String.{len}
use package.text.Mathlib.TextPositions.{len-append}
use karmada_with_pvmigration.Prelude.{
  String, ◌≡◌, refl, sym, ap, ◌∙◌, ◌≢◌, inl, inr, Bool, true, false, Option, none, some, [], ◌∷◌,
  ◌++◌, ◌<>◌, eq_iff, arith, is_some, any, if◌then◌else◌,
}
use karmada_with_pvmigration.Machinery.{Machinery, Unstructured, Fields, text, object, index}
use karmada_with_pvmigration.Management.Applied.Receipt.{
  owner_of, pair_of, manifests_of, statuses_of, name_of, namespace_of, standalone_work,
  standalone_status,
}
use karmada_with_pvmigration.Management.Applied.Pair.{claim_ref_of, reciprocal, paired_work_applied}
use karmada_with_pvmigration.Management.Applied.Evidence.{
  uid_of, conditions_of, conditions_applied, work_applied, split_pair_applied,
}
use karmada_with_pvmigration.Management.Applied.Conditions.{
  applied_entry, stale_entry, conditions_applied-parts,
}
use karmada_with_pvmigration.Management.Applied.Values.{is_text-eq}
use karmada_with_pvmigration.Management.Applied.Receipts.{
  IsReceipt, IsVolumeReceipt, IsClaimReceipt, standalone_status-IsReceipt,
}
use karmada_with_pvmigration.Management.Applied.Pairs.{
  same_value-eq, identified_kind, paired_two, paired_same,
}

pub differs_suffix : (s : String) → s ≢ s <> "-pvc"
differs_suffix s h = omega (arith, len-append s "-pvc", ap len h)

module _ (k : Machinery) where
  -- The Works of the volume and of the claim, which stand in one namespace under one owner and one
  -- pair label, are live and applied; the claim's receipt names the volume, and the volume's receipt
  -- that claim by name, namespace and UID; `u` and `c` are the UIDs of the two receipts.
  pub record IsReciprocal (pv pvc : Unstructured) (u c : String) : Type 0 where
    pub volume_status : Fields
    pub claim_status : Fields
    pub volume_read : standalone_status k pv ≡ some volume_status
    pub claim_read : standalone_status k pvc ≡ some claim_status
    pub volume : IsReceipt k pv volume_status
    pub claim : IsReceipt k pvc claim_status
    pub is_volume : IsVolumeReceipt k pv volume.obj volume_status
    pub is_claim : IsClaimReceipt k pvc claim.obj claim_status
    pub namespace : pv.meta.namespace ≡ pvc.meta.namespace
    pub owner : owner_of pv ≡ owner_of pvc
    pub pair : pair_of pv ≡ pair_of pvc
    pub live : (pv.meta.deleting ≡ false) × (pvc.meta.deleting ≡ false)
    pub volume_current : conditions_applied k pv.meta.generation (conditions_of k pv) false ≡ true
    pub claim_current : conditions_applied k pvc.meta.generation (conditions_of k pvc) false ≡ true
    pub volume_applied : any (applied_entry k) (conditions_of k pv) ≡ true
    pub volume_not_stale : any (stale_entry k pv.meta.generation) (conditions_of k pv) ≡ false
    pub claim_applied : any (applied_entry k) (conditions_of k pvc) ≡ true
    pub claim_not_stale : any (stale_entry k pvc.meta.generation) (conditions_of k pvc) ≡ false
    pub claim_volume : index claim_status "volumeName" ≡ text (name_of k volume.obj)
    pub volume_claim_name : claim_ref_of k volume_status "name" ≡ text (name_of k claim.obj)
    pub volume_claim_namespace :
        claim_ref_of k volume_status "namespace" ≡ text (namespace_of k claim.obj)
    pub volume_claim_uid : claim_ref_of k volume_status "uid" ≡ index claim_status "uid"
    pub volume_uid : u ≡ uid_of (some volume_status)
    pub claim_uid : c ≡ uid_of (some claim_status)

  work_applied-parts :
      (w : Unstructured)
      → work_applied k w ≡ true
      → standalone_work w ≡ true
      → (w.meta.deleting ≡ false)
        × (conditions_applied k w.meta.generation (conditions_of k w) false ≡ true)
        × ((status : Fields) × (standalone_status k w ≡ some status))
  unfolding work_applied
  work_applied-parts w h alone = (ground arith, ground arith, is_some-parts (ground arith))
    where
      is_some-parts : {o : Option Fields} → is_some o ≡ true → (a : Fields) × (o ≡ some a)
      is_some-parts {o = some a} h = (a, refl)
      is_some-parts {o = none} h = cc

  -- Two receipts, of which the first Work bears the name of the pair, are of a volume and its claim.
  of_receipts :
      (pv pvc : Unstructured) {s s' : Fields} (p : IsReceipt k pv s) (c : IsReceipt k pvc s')
      → pv.meta.name ≡ pair_of pv
      → paired_work_applied k pv
          (manifests_of k pv ++ manifests_of k pvc)
          (statuses_of k pv ++ statuses_of k pvc)
        ≡ true
      → IsVolumeReceipt k pv p.obj s
        × IsClaimReceipt k pvc c.obj s'
        × (reciprocal k p.obj c.obj s s' ≡ true)
  of_receipts pv pvc p c name h = elim p.kind [
    | inr other ↦ absurd (differs_suffix (pair_of pv) (sym name ∙ other.work))
    | inl v ↦ elim c.kind [
      | inl v' ↦ absurd (cc (sym (paired_same k pv p.obj c.obj _ v.kind v'.kind) ∙ h'))
      | inr v' ↦ (
        v,
        v',
        rw (p.reflected, c.reflected)
            (paired_two k pv p.obj c.obj p.reflection c.reflection v.kind v'.kind
              (identified_kind k p.reflection p.obj p.identifier ∙ v.kind)
              (identified_kind k c.reflection c.obj c.identifier ∙ v'.kind) h'),
      )
    ]
  ]
    where
      h' :
          paired_work_applied k pv
            (object p.obj ∷ object c.obj ∷ [])
            (object p.reflection ∷ object c.reflection ∷ [])
          ≡ true
      h' = rw (p.manifests, c.manifests, p.statuses, c.statuses) at h

  reciprocal-parts :
      (pv pvc s s' : Fields)
      → reciprocal k pv pvc s s' ≡ true
      → (index s' "volumeName" ≡ text (name_of k pv))
        × (text (name_of k pvc) ≡ claim_ref_of k s "name")
        × (text (namespace_of k pvc) ≡ claim_ref_of k s "namespace")
        × (index s' "uid" ≡ claim_ref_of k s "uid")
  unfolding reciprocal
  reciprocal-parts pv pvc s s' h = ground (
    arith,
    is_text-eq (index s' "volumeName") (name_of k pv),
    same_value-eq (text (name_of k pvc)) (claim_ref_of k s "name"),
    same_value-eq (text (namespace_of k pvc)) (claim_ref_of k s "namespace"),
    same_value-eq (index s' "uid") (claim_ref_of k s "uid"),
  )

  if_some :
      (b : Bool) {x y : String × String}
      → (if b then some x else none) ≡ some y
      → (b ≡ true) × (x ≡ y)
  if_some true h = (refl, cc)
  if_some false h = cc

  -- If `splitPairApplied` accepts a pair of Works, of which the first is the one named by the pair,
  -- then both are live and in one namespace, and have one owner label; each has a condition "Applied"
  -- that is "True", and none that names a generation other than 0 and its own; the first shows the
  -- bound volume and the second its bound claim, each bound to the other by name, namespace and UID;
  -- and the UIDs returned are those of the volume and the claim.
  pub split_pair_applied-IsReciprocal :
      (pv pvc : Unstructured) (u c : String)
      → pv.meta.name ≡ pair_of pv
      → split_pair_applied k (some pv) (some pvc) ≡ some (u, c)
      → IsReciprocal pv pvc u c
  unfolding split_pair_applied
  split_pair_applied-IsReciprocal pv pvc u c name h =
      let (test, uids) = if_some _ h in
      let (live, current, (s, e)) = work_applied-parts pv (ground arith) (ground arith) in
      let (live', current', (s', e')) = work_applied-parts pvc (ground arith) (ground arith) in
      let p = standalone_status-IsReceipt k pv s e in
      let q = standalone_status-IsReceipt k pvc s' e' in
      let (v, v', mutual_refs) = of_receipts pv pvc p q name (ground arith) in
      let (volume, name', namespace', uid) = reciprocal-parts p.obj q.obj s s' mutual_refs in
      record {
        volume_applied = (conditions_applied-parts k _ _ current).0;
        volume_not_stale = (conditions_applied-parts k _ _ current).1;
        claim_applied = (conditions_applied-parts k _ _ current').0;
        claim_not_stale = (conditions_applied-parts k _ _ current').1;
        volume_status = s;
        claim_status = s';
        volume_read = e;
        claim_read = e';
        volume = p;
        claim = q;
        is_volume = v;
        is_claim = v';
        namespace = ground (arith, eq_iff pv.meta.namespace pvc.meta.namespace);
        owner = ground (arith, eq_iff (owner_of pv) (owner_of pvc));
        pair = ground (arith, eq_iff (pair_of pv) (pair_of pvc));
        live = (live, live');
        volume_current = current;
        claim_current = current';
        claim_volume = volume;
        volume_claim_name = sym name';
        volume_claim_namespace = sym namespace';
        volume_claim_uid = sym uid;
        volume_uid = sym (ap (λ x. x.0) uids) ∙ ap uid_of e;
        claim_uid = sym (ap (λ x. x.1) uids) ∙ ap uid_of e';
      }
