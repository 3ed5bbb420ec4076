-- ===== src/Management/Lifecycle.antt =====
-- The life of a migration's status under both controllers of internal/management, which patch it in
-- any order, in passes that begin with any answers of the server.
pub mod Stages
pub mod Sound
pub mod Durable
use karmada_with_pvmigration.Prelude.{
  ℕ, String, false, List, [], ◌∷◌, All, ◌≡◌, ◌≢◌, ◌⊎◌, inl, inr, found, subst, sym,
}
use karmada_with_pvmigration.Prelude.Int.{ℤ}
use karmada_with_pvmigration.Api.{PvMigration, PvMigrationStatus}
use karmada_with_pvmigration.Machinery.{Machinery}
use karmada_with_pvmigration.Management.Server.{Write, Server, patch_status, writes_of}
use karmada_with_pvmigration.Management.Migration.Pass.{reconcile}
use karmada_with_pvmigration.Management.Migration.Allowed.{IsPatch}
use karmada_with_pvmigration.Management.Migration.Safe.{reconcile-IsAllowed}
use karmada_with_pvmigration.Management.Cleanup.Pass.{reconcile as clean_up}
use karmada_with_pvmigration.Management.Cleanup.Allowed.{IsMarked}
use karmada_with_pvmigration.Management.Cleanup.Safe.{clean_up-IsAllowed}

-- The write is one of a pass.
abbrev pub Among : Write → List Write → Type 0
Among w [] = ⊥
Among w (x ∷ xs) = (x ≡ w) ⊎ Among w xs

-- A pass over a migration with the first status asks for a patch to the second. The patch carries the
-- version that was read, so the server takes it only where the first status is still stored.
pub data Step (s t : PvMigrationStatus) : Type 0 where
  migrates :
      (k : Machinery) (server : Server) (poll_interval : ℤ) (namespace name : String)
      (m m' : PvMigration)
      → server.get_migration [] namespace name ≡ found m
      → Among (patch_status m') (writes_of (reconcile k server poll_interval namespace name))
      → m.status ≡ s
      → m'.status ≡ t
      → Step s t
  cleans_up :
      (k : Machinery) (server : Server) (poll_interval : ℤ) (namespace name : String)
      (m m' : PvMigration)
      → server.get_migration [] namespace name ≡ found m
      → Among (patch_status m') (writes_of (clean_up k server poll_interval namespace name))
      → m.status ≡ s
      → m'.status ≡ t
      → Step s t

-- Any number of steps.
pub data Steps (s : PvMigrationStatus) : PvMigrationStatus → Type 0 where
  here : Steps s s
  next : {t u : PvMigrationStatus} → Steps s t → Step t u → Steps s u

All-Among : (P : Write → Type 0) (w : Write) (ws : List Write) → All P ws → Among w ws → P w
All-Among P w (x ∷ xs) all (inl e) = subst P e all.0
All-Among P w (x ∷ xs) all (inr m) = All-Among P w xs all.1 m
All-Among P w [] all m = absurd m

-- What a step is, by the properties of the two passes.
pub data IsStep (s t : PvMigrationStatus) : Type 0 where
  by_migration :
      (m m' : PvMigration)
      → m.status ≡ s
      → m'.status ≡ t
      → m.status.phase ≢ "Completed"
      → m.status.phase ≢ "Ready"
      → IsPatch m m'
      → IsStep s t
  by_cleanup :
      (m m' : PvMigration)
      → m.status ≡ s
      → m'.status ≡ t
      → m.status.phase ≡ "Ready"
      → IsMarked m m'
      → IsStep s t

pub Step-IsStep : {s t : PvMigrationStatus} → Step s t → IsStep s t
Step-IsStep (migrates k server poll namespace name m m' read wrote es et) =
    elim (reconcile-IsAllowed k server poll namespace name) [
      | inl none ↦ absurd (subst (Among (patch_status m')) none wrote)
      | inr (n, read', live, uncompleted, unready, all) ↦
          let same : n ≡ m = cc in
          by_migration m m' es et
            (subst (λ (x : PvMigration). x.status.phase ≢ "Completed") same uncompleted)
            (subst (λ (x : PvMigration). x.status.phase ≢ "Ready") same unready)
            (subst (λ x. IsPatch x m') same (All-Among _ (patch_status m') _ all wrote))
    ]
Step-IsStep (cleans_up k server poll namespace name m m' read wrote es et) =
    elim (clean_up-IsAllowed k server poll namespace name) [
      | inl none ↦ absurd (subst (Among (patch_status m')) none wrote)
      | inr (n, read', live, ready, all) ↦
          let same : n ≡ m = cc in
          by_cleanup m m' es et (subst (λ (x : PvMigration). x.status.phase ≡ "Ready") same ready)
            (subst (λ x. IsMarked x m') same (All-Among _ (patch_status m') _ all wrote))
    ]
