-- ===== src/Management/Works/Rounds.antt =====
-- The loop over the mappings in `BuildWorks`, round by round.
use mathlib.Core.List.{append_assoc, append-nil}
use karmada_with_pvmigration.Prelude.{
  ◌≡◌, ap, ◌∙◌, false, not, ◌||◌, List, [], ◌∷◌, ◌++◌, arith, contains, put, ok, >>=-eq-ok, reject,
}
use karmada_with_pvmigration.Api.{PvMigration, PvMetadata, VolumeMetadata, VolumeMapping}
use karmada_with_pvmigration.Api.Core.{ObjectReference, NfsVolumeSource}
use karmada_with_pvmigration.Machinery.{Machinery, Unstructured}
use karmada_with_pvmigration.Management.Works.Source.{check_lane, source_spec, rebuilt_spec}
use karmada_with_pvmigration.Management.Works.Manifests.{mapping_works}
use karmada_with_pvmigration.Management.Works.Plan.{
  Plan, source_volume, plan_mapping, plan_mappings,
}
use karmada_with_pvmigration.Management.Works.Planned.{
  Plannable, Planned, done, next, check_lane-InLane, check_lane-has_spec, source_spec-parts,
  mapping_works-HoldsVolume,
}

module _ (k : Machinery) (m : PvMigration) (md : PvMetadata) (volumes : List VolumeMetadata) where
  -- What one successful round of the loop adds to the plan.
  pub record Round (mapping : VolumeMapping) (p q : Plan) : Type 0 where
    pub v : VolumeMetadata
    pub nfs : NfsVolumeSource
    pub ref : ObjectReference
    pub ws : List Unstructured
    pub plannable : Plannable k m md volumes mapping v nfs ref
    pub made : mapping_works k m md mapping v (rebuilt_spec m mapping v.pv_spec nfs) ≡ ok ws
    pub works : q.works ≡ p.works ++ ws
    pub new_source : contains p.seen_source mapping.source_pvc ≡ false
    pub new_target : contains p.seen_target mapping.target_pvc ≡ false
    pub sources : q.seen_source ≡ put mapping.source_pvc p.seen_source
    pub targets : q.seen_target ≡ put mapping.target_pvc p.seen_target

  pub plan_mapping-Round :
      (mapping : VolumeMapping) (p q : Plan)
      → plan_mapping k m md volumes mapping p ≡ ok q
      → Round mapping p q
  unfolding plan_mapping
  plan_mapping-Round mapping p q h =
      let (_, fresh, h₁) =
        >>=-eq-ok
          (reject
            (contains p.seen_source mapping.source_pvc || contains p.seen_target mapping.target_pvc)
            _)
          _ h in
      let (v, found, h₂) = >>=-eq-ok (source_volume volumes mapping) _ h₁ in
      let (os, lane, h₃) = >>=-eq-ok (check_lane k md mapping v p.source_ordinals) _ h₂ in
      let (_, _, h₄) =
        >>=-eq-ok (reject (not (k.is_dns1123_subdomain mapping.target_pvc)) _) _ h₃ in
      let (spec, checked, h₅) = >>=-eq-ok (source_spec m mapping v) _ h₄ in
      let (ws, made, last) = >>=-eq-ok (mapping_works k m md mapping v spec) _ h₅ in
      let (nfs, ref, portable, bound, is_spec) = source_spec-parts m mapping v spec checked in
      record {
        v = v;
        nfs = nfs;
        ref = ref;
        ws = ws;
        plannable = record {
          source = ground arith;
          lane = check_lane-InLane k md mapping v p.source_ordinals os lane;
          has_spec = check_lane-has_spec k md mapping v p.source_ordinals os lane;
          portable = portable;
          bound = bound;
        };
        made = rw (← is_spec) made;
        works = cc;
        new_source = ground arith;
        new_target = ground arith;
        sources = cc;
        targets = cc;
      }

  pub plan_mappings-Planned :
      (mappings : List VolumeMapping) (p q : Plan)
      → plan_mappings k m md volumes mappings p ≡ ok q
      → (ws : List Unstructured) × (q.works ≡ p.works ++ ws) × Planned k m md volumes mappings ws
  unfolding plan_mappings
  plan_mappings-Planned [] p q h = ([], cc (append-nil p.works), done)
  plan_mappings-Planned (mapping ∷ rest) p q h =
      let (p', one, h₁) = >>=-eq-ok (plan_mapping k m md volumes mapping p) _ h in
      let r = plan_mapping-Round mapping p p' one in
      let (wss, is_works, planned) = plan_mappings-Planned rest p' q h₁ in
      (
        r.ws ++ wss,
        is_works ∙ ap (λ ws. ws ++ wss) r.works ∙ append_assoc p.works r.ws wss,
        next r.v r.nfs r.ref r.plannable
            (mapping_works-HoldsVolume k m md volumes mapping r.v r.nfs r.ws
              r.plannable.portable.free r.made)
            r.made planned,
      )
