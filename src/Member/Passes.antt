-- ===== src/Member/Passes.antt =====
-- What a pass of the member controller, internal/member/pvsync_controller.go, writes.
use karmada_with_pvmigration.Prelude.{
  String, ◌≡◌, refl, ◌∙◌, ◌≢◌, true, Option, none, some, arith, ◌==◌, eq_iff, Reply, found, failed,
  ApiError, not_found, already_exists, other, Bool-cases, inl, inr,
}
use karmada_with_pvmigration.Api.{PvMetadata, PvMetadataStatus}
use karmada_with_pvmigration.Api.Equality.{PvMetadataStatus-discrete}
use karmada_with_pvmigration.Member.{Client, Reconciler, next_status, write_status, reconcile}

module _ (patched : PvMetadataStatus → Option ApiError) (r : Reconciler)
    (namespace name : String) where
  patch-write_status_same :
      (old next : PvMetadataStatus) → old ≡ next → (write_status patched r old next).patch ≡ none
  unfolding write_status
  patch-write_status_same old next e = ground arith

  pub patch-write_status_ne :
      (old next : PvMetadataStatus)
      → old ≢ next
      → (write_status patched r old next).patch ≡ some next
  unfolding write_status
  patch-write_status_ne old next ne = ground arith

  patch-write_status :
      (old next s : PvMetadataStatus)
      → (write_status patched r old next).patch ≡ some s
      → (s ≡ next) × (old ≢ next)
  patch-write_status old next s h = elim (PvMetadataStatus-discrete old next) [
    | yes p ↦ absurd (cc (patch-write_status_same old next p))
    | no p ↦ (cc (patch-write_status_ne old next p), p)
  ]

  -- A pass of the member controller patches nothing but the status, and only for metadata of its own
  -- cluster, to the status that the collection gives, and only if that differs from the stored one.
  pub patch-reconcile :
      (c : Client) (s : PvMetadataStatus)
      → (reconcile patched c r namespace name).patch ≡ some s
      → (md : PvMetadata) × (c.get_metadata namespace name ≡ found md)
        × (md.spec.source_cluster ≡ r.cluster_name)
        × (s ≡ next_status c md)
        × (md.status ≢ s)
  unfolding reconcile
  patch-reconcile c s h = by_answer (c.get_metadata namespace name) refl
    where
      own :
          (md : PvMetadata)
          → c.get_metadata namespace name ≡ found md
          → (md.spec.source_cluster == r.cluster_name) ≡ true
          → (x : PvMetadata) × (c.get_metadata namespace name ≡ found x)
            × (x.spec.source_cluster ≡ r.cluster_name)
            × (s ≡ next_status c x)
            × (x.status ≢ s)
      own md e same =
          let (is_next, differs) =
            patch-write_status md.status (next_status c md) s (rw (e, reconcile, same) at h) in
          (md, e, (eq_iff _ _).0 same, is_next, λ p. differs (p ∙ is_next))

      by_answer :
          (a : Reply PvMetadata)
          → c.get_metadata namespace name ≡ a
          → (x : PvMetadata) × (c.get_metadata namespace name ≡ found x)
            × (x.spec.source_cluster ≡ r.cluster_name)
            × (s ≡ next_status c x)
            × (x.status ≢ s)
      by_answer (failed (not_found m)) e = absurd (cc (rw (e, reconcile) at h))
      by_answer (failed (already_exists m)) e = absurd (cc (rw (e, reconcile) at h))
      by_answer (failed (other m)) e = absurd (cc (rw (e, reconcile) at h))
      by_answer (found md) e = elim (Bool-cases (md.spec.source_cluster == r.cluster_name)) [
        | inl same ↦ own md e same
        | inr differ ↦ absurd (cc (rw (e, reconcile, differ) at h))
      ]
