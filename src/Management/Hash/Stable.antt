-- ===== src/Management/Hash/Stable.antt =====
-- The plan and its hash do not change when a snapshot is collected again.
use Prim.Native.String.{len}
use karmada_with_pvmigration.Prelude.{
  ℕ, String, Bool, true, false, ◌==◌, ◌≡◌, refl, ap, sym, subst, ◌∙◌, Option, none, some, List, [],
  ◌∷◌, Result, ok, err, is_some, is_empty, reject, not, ◌||◌, ltb, if◌then◌else◌, ◌>>◌, ◌>>=◌,
}
use karmada_with_pvmigration.Api.{
  PvMigration, PvMetadata, ClusterSnapshot, VolumeMapping, VolumeMetadata, PvMetadataStatus,
}
use karmada_with_pvmigration.Machinery.{Machinery, Unstructured}
use karmada_with_pvmigration.Management.Hash.{snapshot_parts, plan_hash}
use karmada_with_pvmigration.Management.Works.Snapshot.{
  find_snapshot, current_snapshot, index_volumes,
}
use karmada_with_pvmigration.Management.Works.Source.{check_lane}
use karmada_with_pvmigration.Management.Works.Manifests.{mapping_works, execution_namespace}
use karmada_with_pvmigration.Management.Works.Plan.{
  Plan, empty_plan, plan_mapping, plan_mappings, build_works,
}

-- The snapshot, collected again: another time, state and message.
pub record IsRepolled (s s' : ClusterSnapshot) : Type 0 where
  pub before : ℕ
  pub after : ℕ
  pub ready : Bool
  pub message : String
  pub collected : s.collected_at ≡ some before
  pub again : s' ≡ record s { collected_at = some after; ready = ready; message = message }

abbrev pub AreRepolled : List ClusterSnapshot → List ClusterSnapshot → Type 0
AreRepolled [] [] = Unit
AreRepolled [] (s ∷ ss) = ⊥
AreRepolled (s ∷ ss) [] = ⊥
AreRepolled (s ∷ ss) (s' ∷ ss') = IsRepolled s s' × AreRepolled ss ss'

parts_again :
    (source : String) (mappings : List VolumeMapping) (ss ss' : List ClusterSnapshot)
    → AreRepolled ss ss'
    → snapshot_parts source mappings ss ≡ snapshot_parts source mappings ss'
parts_again source mappings [] [] again = refl
parts_again source mappings [] (s ∷ ss) again = absurd again
parts_again source mappings (s ∷ ss) [] again = absurd again
parts_again source mappings (s ∷ ss) (s' ∷ ss') (one, more) =
    rw (one.again, parts_again source mappings ss ss' more) refl

abbrev AgreeFound : Result (Option ClusterSnapshot) → Result (Option ClusterSnapshot) → Type 0
AgreeFound (err e) (err e') = e ≡ e'
AgreeFound (ok none) (ok none) = Unit
AgreeFound (ok (some s)) (ok (some s')) = IsRepolled s s'
AgreeFound (ok none) (ok (some s)) = ⊥
AgreeFound (ok (some s)) (ok none) = ⊥
AgreeFound (ok o) (err e) = ⊥
AgreeFound (err e) (ok o) = ⊥

round_again :
    (same : Bool) (o o' : Option ClusterSnapshot) (x x' r r' : Result (Option ClusterSnapshot))
    → AgreeFound (ok o) (ok o')
    → AgreeFound x x'
    → AgreeFound r r'
    → AgreeFound
        (if same then (reject (is_some o) "duplicate source snapshot" >> x) else r)
        (if same then (reject (is_some o') "duplicate source snapshot" >> x') else r')
round_again true none none x x' r r' agree first rest = first
round_again true (some s) (some s') x x' r r' agree first rest = refl
round_again true none (some s') x x' r r' agree first rest = absurd agree
round_again true (some s) none x x' r r' agree first rest = absurd agree
round_again false o o' x x' r r' agree first rest = rest

find_again :
    (source : String) (ss ss' : List ClusterSnapshot) (best best' : Option ClusterSnapshot)
    → AreRepolled ss ss'
    → AgreeFound (ok best) (ok best')
    → AgreeFound (find_snapshot source ss best) (find_snapshot source ss' best')
unfolding find_snapshot
find_again source [] [] best best' again agree = agree
find_again source [] (s ∷ ss) best best' again agree = absurd again
find_again source (s ∷ ss) [] best best' again agree = absurd again
find_again source (s ∷ ss) (s' ∷ ss') best best' (one, more) agree =
    subst
      (λ b.
        AgreeFound
          (if s.cluster_name == source
            then (reject (is_some best) "duplicate source snapshot"
                >> find_snapshot source ss (some s))
            else find_snapshot source ss best)
          (if b
            then (reject (is_some best') "duplicate source snapshot"
                >> find_snapshot source ss' (some s'))
            else find_snapshot source ss' best'))
      (ap (λ (t : ClusterSnapshot). t.cluster_name == source) (sym one.again))
      (round_again (s.cluster_name == source) best best' _ _ _ _ agree
        (find_again source ss ss' (some s) (some s') more one)
        (find_again source ss ss' best best' more agree))

bind_again :
    {A B : Type 0} (r : Result A) (f g : A → Result B)
    → ((a : A) → f a ≡ g a)
    → (r >>= f) ≡ (r >>= g)
bind_again (ok a) f g h = h a
bind_again (err e) f g h = refl

module _ (k : Machinery) (m : PvMigration) (md : PvMetadata) (status : PvMetadataStatus) where
  mapping_status :
      (volumes : List VolumeMetadata) (mapping : VolumeMapping) (p : Plan)
      → plan_mapping k m (record md { status = status }) volumes mapping p
        ≡ plan_mapping k m md volumes mapping p
  unfolding plan_mapping check_lane mapping_works
  mapping_status volumes mapping p = refl

  -- The Works of the mappings do not depend on the status.
  mappings_status :
      (volumes : List VolumeMetadata) (mappings : List VolumeMapping) (p : Plan)
      → plan_mappings k m (record md { status = status }) volumes mappings p
        ≡ plan_mappings k m md volumes mappings p
  unfolding plan_mappings
  mappings_status volumes [] p = refl
  mappings_status volumes (mapping ∷ mappings) p =
      ap (λ r. r >>= plan_mappings k m (record md { status = status }) volumes mappings)
        (mapping_status volumes mapping p)
      ∙ bind_again (plan_mapping k m md volumes mapping p) _ _
          (λ p'. mappings_status volumes mappings p')

  -- The Works of a snapshot that passes its test.
  snapshot_again :
      (test : Bool) (e : String) (s s' : ClusterSnapshot)
      → s'.volumes ≡ s.volumes
      → ((reject test e >> ok s') >>= λ (snapshot : ClusterSnapshot). do
        volumes ← index_volumes snapshot.volumes []
        plan ← plan_mappings k m (record md { status = status }) volumes m.spec.volumes empty_plan
        ok plan.works)
        ≡ ((reject test e >> ok s) >>= λ (snapshot : ClusterSnapshot). do
          volumes ← index_volumes snapshot.volumes []
          plan ← plan_mappings k m md volumes m.spec.volumes empty_plan
          ok plan.works)
  snapshot_again true e s s' same = refl
  snapshot_again false e s s' same = rw (same) (
      bind_again (index_volumes s.volumes []) _ _ (λ volumes.
        ap (λ r. r >>= λ (p : Plan). ok p.works)
          (mappings_status volumes m.spec.volumes empty_plan)))

  -- What follows the search for the snapshot.
  found_again :
      (o o' : Result (Option ClusterSnapshot))
      → AgreeFound o o'
      → (o' >>= λ best. do
        snapshot ← current_snapshot (record md { status = status }) best
        volumes ← index_volumes snapshot.volumes []
        plan ← plan_mappings k m (record md { status = status }) volumes m.spec.volumes empty_plan
        ok plan.works)
        ≡ (o >>= λ best. do
          snapshot ← current_snapshot md best
          volumes ← index_volumes snapshot.volumes []
          plan ← plan_mappings k m md volumes m.spec.volumes empty_plan
          ok plan.works)
  unfolding current_snapshot
  found_again (err e) (err e') agree = ap err (sym agree)
  found_again (ok none) (ok none) agree = refl
  found_again (ok (some s)) (ok (some s')) agree =
      rw (agree.again, agree.collected) (snapshot_again _ _ _ _ refl)
  found_again (ok none) (ok (some s)) agree = absurd agree
  found_again (ok (some s)) (ok none) agree = absurd agree
  found_again (ok o) (err e) agree = absurd agree
  found_again (err e) (ok o) agree = absurd agree

  -- If the snapshots are collected again, at another time and with another state and message, then
  -- the plan has the same Works (or error), and Works have the same hash.
  pub build_works-AreRepolled :
      AreRepolled md.status.clusters status.clusters
      → (build_works k m (record md { status = status }) ≡ build_works k m md)
        × ((works : List Unstructured)
            → plan_hash k m (record md { status = status }) works ≡ plan_hash k m md works)
  unfolding build_works plan_hash
  build_works-AreRepolled again = (
    bind_again (reject (is_empty m.spec.volumes) "at least one explicit PVC mapping is required") _
        _
        (λ u.
          bind_again
            (reject
              (not (k.is_dns1123_subdomain m.spec.target_cluster)
                || ltb 63 (len (execution_namespace m)))
              "invalid target execution namespace")
            _ _ (λ u. found_again _ _ (find_again m.spec.source_cluster _ _ none none again tt))),
    λ works. rw (sym (parts_again m.spec.source_cluster m.spec.volumes _ _ again)) refl,
  )
