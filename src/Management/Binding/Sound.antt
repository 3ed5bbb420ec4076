-- ===== src/Management/Binding/Sound.antt =====
-- What `validateBinding` has established when it returns no error.
use karmada_with_pvmigration.Prelude.{
  String, ◌≡◌, refl, sym, ap, ◌∙◌, ◌≢◌, ◌⊎◌, inl, inr, All, Bool, true, false, List, [], ◌∷◌, arith,
  eq_iff, is_some, any, length, eqb, Result, ok, found, got, got-eq-ok, >>=-eq-ok,
}
use karmada_with_pvmigration.Api.{PvMigration, PvMetadata}
use karmada_with_pvmigration.Api.Core.{StatefulSet}
use karmada_with_pvmigration.Machinery.{Machinery, Unstructured, Value}
use karmada_with_pvmigration.Management.Binding.Reserved.{check_peers, blocking_claim}
use karmada_with_pvmigration.Management.Binding.Reserved.Winner.{check_peers_iff}
use karmada_with_pvmigration.Management.Binding.Hold.{validate_selected_target_hold}
use karmada_with_pvmigration.Management.Binding.Held.{IsHeld, hold-IsHeld}
use karmada_with_pvmigration.Management.Binding.Mapped.{
  IsTarget, AreTemplates, check_targets-All, check_ordinals-All,
}
use karmada_with_pvmigration.Management.Binding.Targets.{
  mark_standalone, check_targets, check_ordinals,
}
use karmada_with_pvmigration.Management.Binding.Gates.{
  Reads, truth_or_false, selects, check_clusters, check_request, resource_text, check_resource,
  check_workload, clusters_of, check_placement, validate_binding,
}

-- The request attests the fence, and moves between two different clusters from the metadata's.
pub record IsFencedMove (m : PvMigration) (md : PvMetadata) : Type 0 where
  pub fenced : m.spec.source_fenced ≡ true
  pub different : m.spec.source_cluster ≢ m.spec.target_cluster
  pub has_source : m.spec.source_cluster ≢ ""
  pub has_target : m.spec.target_cluster ≢ ""
  pub own_metadata : md.spec.source_cluster ≡ m.spec.source_cluster

check_request-IsFencedMove :
    (m : PvMigration) (md : PvMetadata) → check_request m md ≡ ok tt → IsFencedMove m md
unfolding check_request
check_request-IsFencedMove m md h = ground (
  arith,
  eq_iff m.spec.source_cluster m.spec.target_cluster,
  eq_iff m.spec.source_cluster "",
  eq_iff m.spec.target_cluster "",
  eq_iff md.spec.source_cluster m.spec.source_cluster,
)

-- The target is not selected, or it is the only cluster and the restore operation holds the binding.
abbrev pub IsStaged : Machinery → Reads → PvMigration → PvMetadata → Unstructured → Type 0
IsStaged k reads m md rb =
    (any (selects m.spec.target_cluster) (clusters_of k reads rb) ≡ false)
    ⊎ ((length (clusters_of k reads rb) ≡ 1)
        × (validate_selected_target_hold k reads.get_restore_request m md rb ≡ ok tt)
        × IsHeld k reads.get_restore_request m md rb)

check_clusters-parts :
    (target : String) (alone : Bool) (hold : Result (Unit {0})) (items : List Value)
    → check_clusters target alone hold items ≡ ok tt
    → (any (selects target) items ≡ false) ⊎ ((alone ≡ true) × (hold ≡ ok tt))
unfolding check_clusters
check_clusters-parts target alone hold [] h = inl refl
check_clusters-parts target alone hold (item ∷ items) h =
    ground (arith, check_clusters-parts target alone hold items)

-- The binding is that of the metadata's StatefulSet, which is the recorded one, and does not dispatch.
pub record IsHeldBinding (k : Machinery) (reads : Reads) (m : PvMigration) (md : PvMetadata)
    (rb : Unstructured) (sts : StatefulSet) : Type 0 where
  pub binding : reads.get_binding m.meta.namespace m.spec.resource_binding ≡ found rb
  pub kind : resource_text k reads rb "kind" ≡ "StatefulSet"
  pub version : resource_text k reads rb "apiVersion" ≡ "apps/v1"
  pub name : resource_text k reads rb "name" ≡ md.spec.workload_ref.name
  pub workload : reads.get_stateful_set m.meta.namespace md.spec.workload_ref.name ≡ found sts
  pub uid : md.spec.workload_ref.uid ≡ sts.meta.uid
  pub has_uid : sts.meta.uid ≢ ""
  pub suspended : truth_or_false (k.nested_bool rb.spec ("suspension" ∷ "dispatching" ∷ [])) ≡ true

pub record Gates (k : Machinery) (reads : Reads) (m : PvMigration) (md : PvMetadata) : Type 0 where
  pub rb : Unstructured
  pub sts : StatefulSet
  pub peers : List PvMigration
  pub by_ordinal : List (String × List String)
  pub move : IsFencedMove m md
  pub held : IsHeldBinding k reads m md rb sts
  pub listed : reads.list_migrations m.meta.namespace ≡ found peers
  pub unblocked : any (λ p. is_some (blocking_claim p m)) peers ≡ false
  pub staged : IsStaged k reads m md rb
  pub targets :
      check_targets k sts
        (mark_standalone m.spec.source_cluster md.status.clusters [])
        m.spec.volumes
        []
      ≡ ok by_ordinal
  pub complete : check_ordinals sts by_ordinal ≡ ok tt
  pub mapped :
      All (IsTarget k sts m.spec.source_cluster md.status.clusters by_ordinal) m.spec.volumes
  pub templates : All (λ (e : String × List String). AreTemplates sts e.1) by_ordinal
  pub full : All (λ (e : String × List String). length e.1 ≡ length sts.templates) by_ordinal

check_placement-IsStaged :
    (k : Machinery) (reads : Reads) (m : PvMigration) (md : PvMetadata) (rb : Unstructured)
    → check_placement k reads m md rb ≡ ok tt
    → IsStaged k reads m md rb
unfolding check_placement
check_placement-IsStaged k reads m md rb h =
    elim (check_clusters-parts m.spec.target_cluster (eqb (length (clusters_of k reads rb)) 1)
      (validate_selected_target_hold k reads.get_restore_request m md rb) (clusters_of k reads rb)
      h) [
        | inl unselected ↦ inl unselected
        | inr (alone, hold) ↦
            inr (ground arith, hold, hold-IsHeld k reads.get_restore_request m md rb hold)
      ]

-- A request that passes is fenced and moves between two clusters, from that of its metadata; its
-- binding is that of the StatefulSet with the recorded UID and dispatches nothing; no other migration
-- blocks a target claim; the target is not selected yet, or it is the only cluster, and the
-- annotations of migration and binding name one restore operation, whose live request has these
-- clusters and this workload; and each target claim is its own source, a standalone claim of the
-- StatefulSet recorded as one, or has a name of one of the templates, which is recorded for its
-- ordinal. Every ordinal has as many different templates recorded as the StatefulSet has.
pub validate_binding-Gates :
    (k : Machinery) (reads : Reads) (m : PvMigration) (md : PvMetadata)
    → validate_binding k reads m md ≡ ok tt
    → Gates k reads m md
unfolding validate_binding check_resource check_workload
validate_binding-Gates k reads m md h =
    let (_, one, h₁) = >>=-eq-ok (check_request m md) _ h in
    let (rb, two, h₂) =
      >>=-eq-ok (got (reads.get_binding m.meta.namespace m.spec.resource_binding)) _ h₁ in
    let (_, three, h₃) = >>=-eq-ok (check_resource k reads md rb) _ h₂ in
    let (sts, four, h₄) =
      >>=-eq-ok (got (reads.get_stateful_set m.meta.namespace (resource_text k reads rb "name"))) _
        h₃ in
    let (_, five, h₅) = >>=-eq-ok (check_workload k reads md rb sts) _ h₄ in
    let (peers, six, h₆) = >>=-eq-ok (got (reads.list_migrations m.meta.namespace)) _ h₅ in
    let (_, seven, h₇) = >>=-eq-ok (check_peers m peers) _ h₆ in
    let (_, eight, h₈) = >>=-eq-ok (check_placement k reads m md rb) _ h₇ in
    let (by_ordinal, nine, last) =
      >>=-eq-ok
        (check_targets k sts (mark_standalone m.spec.source_cluster md.status.clusters [])
          m.spec.volumes [])
        _ h₈ in
    let (kind, version, name) = resource rb three in
    let (uid, has_uid, suspended) = workload rb sts five in
    record {
      rb = rb;
      sts = sts;
      peers = peers;
      by_ordinal = by_ordinal;
      move = check_request-IsFencedMove m md one;
      held = record {
        binding = got-eq-ok _ two;
        kind = kind;
        version = version;
        name = name;
        workload = sym (ap (reads.get_stateful_set m.meta.namespace) name) ∙ got-eq-ok _ four;
        uid = uid;
        has_uid = has_uid;
        suspended = suspended;
      };
      listed = got-eq-ok _ six;
      unblocked = none_blocks peers seven;
      staged = check_placement-IsStaged k reads m md rb eight;
      targets = nine;
      complete = last;
      mapped =
          (check_targets-All k sts m.spec.source_cluster md.status.clusters m.spec.volumes
            by_ordinal nine).0;
      templates =
          (check_targets-All k sts m.spec.source_cluster md.status.clusters m.spec.volumes
            by_ordinal nine).1;
      full = check_ordinals-All sts by_ordinal last;
    }
  where
    resource :
        (rb : Unstructured)
        → check_resource k reads md rb ≡ ok tt
        → (resource_text k reads rb "kind" ≡ "StatefulSet")
          × (resource_text k reads rb "apiVersion" ≡ "apps/v1")
          × (resource_text k reads rb "name" ≡ md.spec.workload_ref.name)
    resource rb e = ground (
      arith,
      eq_iff (resource_text k reads rb "kind") "StatefulSet",
      eq_iff (resource_text k reads rb "apiVersion") "apps/v1",
      eq_iff (resource_text k reads rb "name") md.spec.workload_ref.name,
    )

    workload :
        (rb : Unstructured) (sts : StatefulSet)
        → check_workload k reads md rb sts ≡ ok tt
        → (md.spec.workload_ref.uid ≡ sts.meta.uid)
          × (sts.meta.uid ≢ "")
          × (truth_or_false (k.nested_bool rb.spec ("suspension" ∷ "dispatching" ∷ [])) ≡ true)
    workload rb sts e = ground (
      arith,
      eq_iff md.spec.workload_ref.uid "",
      eq_iff sts.meta.uid "",
      eq_iff md.spec.workload_ref.uid sts.meta.uid,
    )

    none_blocks :
        (peers : List PvMigration)
        → check_peers m peers ≡ ok tt
        → any (λ p. is_some (blocking_claim p m)) peers ≡ false
    none_blocks peers e = ground (arith, check_peers_iff m peers)
