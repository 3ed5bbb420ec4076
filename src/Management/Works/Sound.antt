-- ===== src/Management/Works/Sound.antt =====
-- What `BuildWorks` guarantees when it returns Works.
use Prim.Native.String.{len}
use mathlib.Core.List.{map}
use karmada_with_pvmigration.Prelude.{
  is_empty, String, ◌≡◌, refl, ◌≢◌, false, not, ◌||◌, Option, none, some, List, [], ◌∷◌, arith,
  ◌==◌, eq_iff, contains, put, contains-put, ltb, ok, >>=-eq-ok, reject, All, if◌then◌else◌,
}
use karmada_with_pvmigration.Api.{
  PvMigration, PvMetadata, VolumeMetadata, VolumeMapping, ClusterSnapshot,
}
use karmada_with_pvmigration.Machinery.{Machinery, Unstructured}
use karmada_with_pvmigration.VolumeClaims.Sorting.{IsDistinct}
use karmada_with_pvmigration.Management.Works.Snapshot.{
  find_snapshot, current_snapshot, index_volumes, find_volume,
}
use karmada_with_pvmigration.Management.Works.Manifests.{execution_namespace}
use karmada_with_pvmigration.Management.Works.Plan.{
  Plan, plan_mapping, plan_mappings, empty_plan, build_works,
}
use karmada_with_pvmigration.Management.Works.Planned.{Planned}
use karmada_with_pvmigration.Management.Works.Rounds.{plan_mapping-Round}

-- The snapshots of a cluster, in order.
abbrev pub snapshots_of : String → List ClusterSnapshot → List ClusterSnapshot
snapshots_of source [] = []
snapshots_of source (s ∷ ss) =
    let rest = snapshots_of source ss in if s.cluster_name == source then s ∷ rest else rest

abbrev option_list {ℓ} : {A : Type ℓ} → Option A → List A
option_list none = []
option_list (some a) = a ∷ []

-- A snapshot that was collected for the current generation, of a known workload.
pub record IsCurrent (md : PvMetadata) (s : ClusterSnapshot) : Type 0 where
  pub collected : s.collected_at ≢ none
  pub generation : s.observed_generation ≡ md.meta.generation
  pub workload : s.workload_uid ≢ ""

-- The plan of a returned list of Works: the one current snapshot of the source cluster, and for each
-- mapping, in order, a volume of that snapshot that may be rebuilt, with its Works.
pub record SoundPlan (k : Machinery) (m : PvMigration) (md : PvMetadata) (ws : List Unstructured)
    : Type 0 where
  pub snapshot : ClusterSnapshot
  pub volumes : List VolumeMetadata
  pub unique : snapshots_of m.spec.source_cluster md.status.clusters ≡ snapshot ∷ []
  pub current : IsCurrent md snapshot
  pub indexed : (name : String) → find_volume volumes name ≡ find_volume snapshot.volumes name
  pub planned : Planned k m md volumes m.spec.volumes ws
  pub some_volume : m.spec.volumes ≢ []

module _ (k : Machinery) (m : PvMigration) (md : PvMetadata) (volumes : List VolumeMetadata) where
  abbrev Fresh : List String → List String → Type 0
  Fresh seen names = All (λ n. contains seen n ≡ false) names × IsDistinct names

  Fresh-cons :
      (a : String) (seen names : List String)
      → contains seen a ≡ false
      → Fresh (put a seen) names
      → Fresh seen (a ∷ names)
  Fresh-cons a seen names new (later, distinct) =
      ((new, All-unput names later), (unseen names later, distinct))
    where
      All-unput :
          (ns : List String)
          → All (λ n. contains (put a seen) n ≡ false) ns
          → All (λ n. contains seen n ≡ false) ns
      All-unput [] h = tt
      All-unput (n ∷ ns) h = (ground (arith, contains-put a n seen), All-unput ns h.1)

      unseen :
          (ns : List String) → All (λ n. contains (put a seen) n ≡ false) ns → contains ns a ≡ false
      unseen [] h = refl
      unseen (n ∷ ns) h =
          ground (arith, contains-put a n seen, eq_iff a n, eq_iff n a, unseen ns h.1)

  plan_mappings-Fresh :
      (mappings : List VolumeMapping) (p q : Plan)
      → plan_mappings k m md volumes mappings p ≡ ok q
      → Fresh p.seen_source (map (λ x. x.source_pvc) mappings)
        × Fresh p.seen_target (map (λ x. x.target_pvc) mappings)
  unfolding plan_mappings
  plan_mappings-Fresh [] p q h = ((tt, tt), (tt, tt))
  plan_mappings-Fresh (mapping ∷ rest) p q h =
      let (p', one, h₁) = >>=-eq-ok (plan_mapping k m md volumes mapping p) _ h in
      let r = plan_mapping-Round k m md volumes mapping p p' one in
      let (sources, targets) = plan_mappings-Fresh rest p' q h₁ in
      (
        Fresh-cons mapping.source_pvc p.seen_source _ r.new_source (rw (r.sources) at sources),
        Fresh-cons mapping.target_pvc p.seen_target _ r.new_target (rw (r.targets) at targets),
      )

-- The mapping of an accepted request is one-to-one: no source claim and no target claim comes twice.
pub build_works-one_to_one :
    (k : Machinery) (m : PvMigration) (md : PvMetadata) (ws : List Unstructured)
    → build_works k m md ≡ ok ws
    → IsDistinct (map (λ x. x.source_pvc) m.spec.volumes)
      × IsDistinct (map (λ x. x.target_pvc) m.spec.volumes)
unfolding build_works
build_works-one_to_one k m md ws h =
    let (_, _, h₁) = >>=-eq-ok (reject (is_empty m.spec.volumes) _) _ h in
    let (_, _, h₂) =
      >>=-eq-ok
        (reject
          (not (k.is_dns1123_subdomain m.spec.target_cluster)
            || ltb 63 (len (execution_namespace m)))
          _)
        _ h₁ in
    let (best, _, h₃) =
      >>=-eq-ok (find_snapshot m.spec.source_cluster md.status.clusters none) _ h₂ in
    let (s, _, h₄) = >>=-eq-ok (current_snapshot md best) _ h₃ in
    let (volumes, _, h₅) = >>=-eq-ok (index_volumes s.volumes []) _ h₄ in
    let (plan, four, _) = >>=-eq-ok (plan_mappings k m md volumes m.spec.volumes empty_plan) _ h₅ in
    let (sources, targets) =
      plan_mappings-Fresh k m md volumes m.spec.volumes empty_plan plan four in
    (sources.1, targets.1)
