-- ===== src/Management/Binding/Reserved/Winner.antt =====
-- Who wins where requests overlap.
use text.Mathlib.TextEquality.{path_by_compare}
use karmada_with_pvmigration.Prelude.{
  String, ◌≡◌, refl, sym, ap, ◌∙◌, ◌≢◌, Bool, true, false, not, ◌&&◌, ◌||◌, List, [], ◌∷◌, arith,
  ◌==◌, eq_iff, is_some, is_ok, any, ltb, eqb, text_ltb,
}
use karmada_with_pvmigration.Api.{PvMigration, VolumeMapping}
use karmada_with_pvmigration.VolumeClaims.Sorting.{swap, swap-compare}
use karmada_with_pvmigration.Management.Binding.Reserved.{
  is_reserved, is_older, clash, first_clash, blocking_claim, check_peers,
}

-- Some target claim stands in both lists of mappings.
abbrev pub overlaps : List VolumeMapping → List VolumeMapping → Bool
overlaps xs ys = any (λ x. any (λ y. x.target_pvc == y.target_pvc) ys) xs

is_some-clash :
    (e : String) (ys : List VolumeMapping) → is_some (clash e ys) ≡ any (λ y. e == y.target_pvc) ys
unfolding clash
is_some-clash e [] = refl
is_some-clash e (y ∷ ys) = ground (arith, is_some-clash e ys)

is_some-first_clash : (xs ys : List VolumeMapping) → is_some (first_clash xs ys) ≡ overlaps xs ys
unfolding first_clash
is_some-first_clash [] ys = refl
is_some-first_clash (x ∷ xs) ys =
    ground (arith, is_some-clash x.target_pvc ys, is_some-first_clash xs ys)

-- A peer keeps a claim from a request exactly when it is another migration to the same cluster, is
-- reserved or older, and maps onto a target claim that the request maps onto too.
pub blocking_claim_iff :
    (peer m : PvMigration)
    → is_some (blocking_claim peer m) ≡ (
        (not (peer.meta.uid == m.meta.uid) && peer.spec.target_cluster == m.spec.target_cluster)
        && ((is_reserved peer || is_older peer m) && overlaps peer.spec.volumes m.spec.volumes))
unfolding blocking_claim
blocking_claim_iff peer m = ground (arith, is_some-first_clash peer.spec.volumes m.spec.volumes)

older_decides : (a b : PvMigration) → a.meta.uid ≢ b.meta.uid → is_older a b ≡ not (is_older b a)
unfolding is_older swap
older_decides a b ne =
    ground (arith, swap-compare a.meta.uid b.meta.uid, path_by_compare a.meta.uid b.meta.uid)

any_or_comm :
    (x : VolumeMapping) (xs ys : List VolumeMapping)
    → any (λ y. any (λ z. y.target_pvc == z.target_pvc) (x ∷ xs)) ys
      ≡ (any (λ y. x.target_pvc == y.target_pvc) ys || overlaps ys xs)
any_or_comm x xs [] = refl
any_or_comm x xs (y ∷ ys) =
    ground (
      arith,
      any_or_comm x xs ys,
      eq_iff y.target_pvc x.target_pvc,
      eq_iff x.target_pvc y.target_pvc,
    )

overlaps_nil : (ys : List VolumeMapping) → overlaps ys [] ≡ false
overlaps_nil [] = refl
overlaps_nil (y ∷ ys) = overlaps_nil ys

overlaps_comm : (xs ys : List VolumeMapping) → overlaps xs ys ≡ overlaps ys xs
overlaps_comm [] ys = sym (overlaps_nil ys)
overlaps_comm (x ∷ xs) ys =
    ap (λ b. any (λ y. x.target_pvc == y.target_pvc) ys || b) (overlaps_comm xs ys)
    ∙ sym (any_or_comm x xs ys)

-- A pending request that overlaps with another on one cluster blocks it if it is the older one.
older_blocks :
    (a b : PvMigration)
    → a.meta.uid ≢ b.meta.uid
    → a.spec.target_cluster ≡ b.spec.target_cluster
    → is_reserved a ≡ false
    → overlaps a.spec.volumes b.spec.volumes ≡ true
    → is_some (blocking_claim a b) ≡ (
        ltb a.meta.created b.meta.created
        || (eqb a.meta.created b.meta.created && text_ltb a.meta.uid b.meta.uid))
unfolding is_older
older_blocks a b ne cluster ra over = ground (
  arith,
  blocking_claim_iff a b,
  eq_iff a.meta.uid b.meta.uid,
  eq_iff a.spec.target_cluster b.spec.target_cluster,
)

-- Of two different pending requests that overlap on one cluster, neither of them reserved yet,
-- exactly one is blocked by the other: the first blocks the second if it was created earlier, or at the
-- same time with the smaller UID, and the second the first otherwise.
pub one_winner :
    (a b : PvMigration)
    → a.meta.uid ≢ b.meta.uid
    → a.spec.target_cluster ≡ b.spec.target_cluster
    → is_reserved a ≡ false
    → is_reserved b ≡ false
    → overlaps a.spec.volumes b.spec.volumes ≡ true
    → (is_some (blocking_claim a b) ≡ (
        ltb a.meta.created b.meta.created
        || (eqb a.meta.created b.meta.created && text_ltb a.meta.uid b.meta.uid)))
      × (is_some (blocking_claim a b) ≡ not (is_some (blocking_claim b a)))
one_winner a b ne cluster ra rb over = (
  older_blocks a b ne cluster ra over,
  ground (
    arith,
    blocking_claim_iff a b,
    blocking_claim_iff b a,
    older_decides a b ne,
    overlaps_comm a.spec.volumes b.spec.volumes,
    eq_iff a.meta.uid b.meta.uid,
    eq_iff b.meta.uid a.meta.uid,
    eq_iff a.spec.target_cluster b.spec.target_cluster,
    eq_iff b.spec.target_cluster a.spec.target_cluster,
  ),
)

-- The check of the peers passes exactly when none of them blocks the request.
pub check_peers_iff :
    (m : PvMigration) (peers : List PvMigration)
    → is_ok (check_peers m peers) ≡ not (any (λ p. is_some (blocking_claim p m)) peers)
unfolding check_peers
check_peers_iff m [] = refl
check_peers_iff m (p ∷ peers) = ground (arith, check_peers_iff m peers)
