-- ===== src/Member/Collected.antt =====
-- What a collected volume rests on.
use karmada_with_pvmigration.Prelude.{
  String, ◌≡◌, ◌≢◌, ◌↔◌, false, none, some, arith, eq_iff, ok, found, >>=-eq-ok, fetched,
  fetched-eq-ok, ap, sym, Option-cases, inl, inr, ◌==◌, if◌then◌else◌,
}
use karmada_with_pvmigration.Prelude.Int.{ℤ}
use karmada_with_pvmigration.Api.{VolumeMetadata}
use karmada_with_pvmigration.Api.Core.{PersistentVolume, PersistentVolumeClaim, ObjectReference}
use karmada_with_pvmigration.Member.{
  Client, qualified, check_pvc, check_pv, check_claim_ref, volume_of, collect_volume,
}

-- The claim reference names the claim.
pub record Names (pvc : PersistentVolumeClaim) (ref : ObjectReference) : Type 0 where
  pub name : ref.name ≡ pvc.meta.name
  pub namespace : ref.namespace ≡ pvc.meta.namespace
  pub uid : ref.uid ≡ pvc.meta.uid

-- The claim is live and bound.
pub record IsBoundClaim (pvc : PersistentVolumeClaim) : Type 0 where
  pub has_uid : pvc.meta.uid ≢ ""
  pub live : pvc.meta.deleting ≡ false
  pub bound : pvc.phase ≡ "Bound"
  pub has_volume : pvc.spec.volume_name ≢ ""

-- The volume is live and bound to the claim.
pub record IsBoundTo (pv : PersistentVolume) (pvc : PersistentVolumeClaim) : Type 0 where
  pub bound : pv.phase ≡ "Bound"
  pub live : pv.meta.deleting ≡ false
  pub claim : (ref : ObjectReference) × (pv.spec.claim_ref ≡ some ref) × Names pvc ref

check_pvc_iff :
    (pvc : PersistentVolumeClaim) (key : String) → (check_pvc pvc key ≡ ok tt) ↔ IsBoundClaim pvc
unfolding check_pvc
check_pvc_iff pvc key = (
  λ h.
      ground
        (arith, eq_iff pvc.meta.uid "", eq_iff pvc.phase "Bound", eq_iff pvc.spec.volume_name ""),
  λ h. ground (
    arith,
    h.has_uid,
    h.live,
    h.bound,
    h.has_volume,
    eq_iff pvc.meta.uid "",
    eq_iff pvc.phase "Bound",
    eq_iff pvc.spec.volume_name "",
  ),
)

check_claim_ref_iff :
    (pv : PersistentVolume) (pvc : PersistentVolumeClaim) (ref : ObjectReference)
    → (check_claim_ref pv pvc (some ref) ≡ ok tt) ↔ Names pvc ref
unfolding check_claim_ref
check_claim_ref_iff pv pvc ref = (
  λ h. ground (
    arith,
    eq_iff ref.name pvc.meta.name,
    eq_iff ref.namespace pvc.meta.namespace,
    eq_iff ref.uid pvc.meta.uid,
  ),
  λ h. ground (
    arith,
    h.name,
    h.namespace,
    h.uid,
    eq_iff ref.name pvc.meta.name,
    eq_iff ref.namespace pvc.meta.namespace,
    eq_iff ref.uid pvc.meta.uid,
  ),
)

check_pv_iff :
    (pv : PersistentVolume) (pvc : PersistentVolumeClaim)
    → (check_pv pv pvc ≡ ok tt) ↔ IsBoundTo pv pvc
unfolding check_pv
check_pv_iff pv pvc = (
  λ h. elim (Option-cases pv.spec.claim_ref) [
    | inl e ↦ absurd (no_claim e (tests h).2)
    | inr (ref, e) ↦ record {
      bound = (tests h).0;
      live = (tests h).1;
      claim = (ref, e, (check_claim_ref_iff pv pvc ref).0 (rw e at ((tests h).2)));
    }
  ],
  λ h. ground (
    arith,
    h.bound,
    h.live,
    h.claim.1,
    eq_iff pv.phase "Bound",
    (check_claim_ref_iff pv pvc h.claim.0).1 h.claim.2,
  ),
)
  where
    no_claim : pv.spec.claim_ref ≡ none → check_claim_ref pv pvc pv.spec.claim_ref ≡ ok tt → ⊥
    no_claim e k = ground arith

    tests :
        check_pv pv pvc ≡ ok tt
        → (pv.phase ≡ "Bound")
          × (pv.meta.deleting ≡ false)
          × (check_claim_ref pv pvc pv.spec.claim_ref ≡ ok tt)
    tests h = ground (arith, eq_iff pv.phase "Bound")

-- The evidence for a volume: the two objects that the client returned, and their binding.
pub record Evidence (c : Client) (namespace template : String) (ordinal : ℤ) (name : String)
    (v : VolumeMetadata) : Type 0 where
  pub pvc : PersistentVolumeClaim
  pub pv : PersistentVolume
  pub pvc_read : c.get_pvc namespace name ≡ found pvc
  pub pvc_bound : IsBoundClaim pvc
  pub pv_read : c.get_pv pvc.spec.volume_name ≡ found pv
  pub pv_bound : IsBoundTo pv pvc
  pub recorded : v ≡ record {
    standalone = template == "";
    pvc_spec = if template == "" then some pvc.spec else none;
    pvc_name = pvc.meta.name;
    pvc_uid = pvc.meta.uid;
    template_name = template;
    ordinal = ordinal;
    pv_name = pv.meta.name;
    pv_spec = pv.spec;
  }

module _ (c : Client) where
  -- A volume is collected exactly when the client returns a live bound claim of that name and the
  -- volume that it names, live and bound to that very claim (name, namespace and UID); the record
  -- then holds their names, UID and spec, and the claim's spec if there is no template name.
  pub collect_volume_iff :
      (namespace template : String) (ordinal : ℤ) (name : String) (v : VolumeMetadata)
      → (collect_volume c namespace template ordinal name ≡ ok v)
        ↔ Evidence c namespace template ordinal name v
  unfolding collect_volume volume_of
  collect_volume_iff namespace template ordinal name v = (sound, complete)
    where
      sound :
          collect_volume c namespace template ordinal name ≡ ok v
          → Evidence c namespace template ordinal name v
      sound h =
          let (pvc, read, h₁) = >>=-eq-ok (fetched (c.get_pvc namespace name) _ _) _ h in
          let (_, claim_ok, h₂) = >>=-eq-ok (check_pvc pvc (qualified namespace name)) _ h₁ in
          let (pv, read', h₃) = >>=-eq-ok (fetched (c.get_pv pvc.spec.volume_name) _ _) _ h₂ in
          let (_, volume_ok, h₄) = >>=-eq-ok (check_pv pv pvc) _ h₃ in
          record {
            pvc = pvc;
            pv = pv;
            pvc_read = fetched-eq-ok (c.get_pvc namespace name) _ _ read;
            pvc_bound = (check_pvc_iff pvc (qualified namespace name)).0 claim_ok;
            pv_read = fetched-eq-ok (c.get_pv pvc.spec.volume_name) _ _ read';
            pv_bound = (check_pv_iff pv pvc).0 volume_ok;
            recorded = cc;
          }

      complete :
          Evidence c namespace template ordinal name v
          → collect_volume c namespace template ordinal name ≡ ok v
      complete e =
          rw
            (
              e.pvc_read,
              (check_pvc_iff e.pvc (qualified namespace name)).1 e.pvc_bound,
              e.pv_read,
              (check_pv_iff e.pv e.pvc).1 e.pv_bound,
              collect_volume,
            )
            (ap ok (sym e.recorded))
