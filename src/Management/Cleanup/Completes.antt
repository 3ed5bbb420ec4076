-- ===== src/Management/Cleanup/Completes.antt =====
-- A pass that finds no Work left.
use mathlib.Core.Logic.{ite, if_neg}
use karmada_with_pvmigration.Prelude.{
  ℕ, suc, String, Bool, true, false, not, ◌||◌, ◌==◌, ◌∙◌, ◌<>◌, none, List, [], ◌∷◌, All, ◌≡◌, ◌≢◌,
  refl, sym, ap, arith, subst, eq_iff, is_empty, is_empty_lem, eqb, Bool-cases, inl, inr, not_found,
  found, failed,
}
use karmada_with_pvmigration.Prelude.Int.{ℤ}
use karmada_with_pvmigration.Api.{PvMigration, PvMigrationStatus, WorkReference}
use karmada_with_pvmigration.Api.Equality.{PvMigrationStatus-discrete}
use karmada_with_pvmigration.Machinery.{Machinery}
use karmada_with_pvmigration.Management.Works.Manifests.{execution_namespace}
use karmada_with_pvmigration.Management.Server.{
  Write, Server, Flow, go, ◌>>=◌, ◌>>◌, pure, return, ask, must, write, fail_if, patch_status,
  writes_of, Action,
}
use karmada_with_pvmigration.Management.Server.Rules.{end_writes}
use karmada_with_pvmigration.Management.Migration.Phase.{delay, patch_changed}
use karmada_with_pvmigration.Management.Cleanup.Detach.{
  Sweep, sweep_attached, sweep_ref, sweep_refs, with_detached,
}
use karmada_with_pvmigration.Management.Cleanup.Pass.{with_outcome, is_idle, sweep, reconcile}

-- What follows a decision that fails.
after_no :
    {P : Type 0} (d : Dec P) (rest : Action (Unit {0})) (i : ℕ) (written : List Write)
    → ¬ P
    → ((ite d (pure tt) rest) >> return {A = Unit {0}} i none) written
      ≡ (rest >> return {A = Unit {0}} i none) written
after_no d rest i written n =
    ap (λ r. (r >> return {A = Unit {0}} i none) written) (if_neg d n (pure tt) rest)

-- A changed status is written once, whether the server takes it or not.
patch_changed-writes :
    (server : Server) (i : ℕ) (base : PvMigrationStatus) (m : PvMigration) (written : List Write)
    → base ≢ m.status
    → ((patch_changed server i base m >> return {A = Unit {0}} i none) written).1
      ≡ patch_status m ∷ written
unfolding patch_changed
patch_changed-writes server i base m written changed =
    ap (λ r. r.1)
      (after_no (PvMigrationStatus-discrete base m.status)
        (write server (patch_status m) >>= must i) i written changed)
    ∙ (unfold ◌>>=◌ write in
        end_writes (Unit {0}) i (server.answer written (patch_status m)) (patch_status m ∷ written))

-- A reference that was applied and has no Work any more.
unfoldable pub IsGone : Server → String → WorkReference → Type 0
IsGone server ns ref =
    (ref.applied ≡ true)
    × (ref.namespace ≡ ns)
    × ((e : String) × (server.get_work [] ref.namespace ref.name ≡ failed (not_found e)))

module _ (k : Machinery) (server : Server) (interval : ℕ) where
  -- The sweep goes on with a value that still counts all Works as gone.
  Continues : Sweep → Flow Sweep × List Write → Type 0
  Continues s r =
      (s' : Sweep) × (r ≡ (go s', []))
      × (s'.all ≡ s.all)
      × (execution_namespace s'.m ≡ execution_namespace s.m)

  gone_round :
      (i : ℕ) (ref : WorkReference) (s : Sweep)
      → IsGone server (execution_namespace s.m) ref
      → Continues s (sweep_ref k server interval i ref s [])
  unfolding IsGone sweep_ref
  gone_round i ref s (applied, at_home, (e, missing)) = rw (applied) (by_mark ref.detached)
    where
      at_home_test : (ref.namespace == execution_namespace s.m) ≡ true
      at_home_test = ground (arith, eq_iff ref.namespace (execution_namespace s.m), at_home)

      by_mark :
          (b : Bool)
          → Continues s (
              (fail_if interval false ("Work " <> ref.name <> " not durably applied")
                  >> elim b [ true ↦ pure s | false ↦ sweep_attached k server interval i ref s ])
                [])
      by_mark true = unfold Continues ◌>>=◌ fail_if pure in (s, refl, refl, refl)
      by_mark false =
          unfold Continues ◌>>=◌ fail_if pure in
          (
            with_detached s i,
            (unfold sweep_attached ◌>>=◌ ask in
                rw (at_home_test) (unfold fail_if pure in rw (missing) refl)),
            refl,
            refl,
          )

  gone_rounds :
      (i : ℕ) (refs : List WorkReference) (s : Sweep)
      → All (IsGone server (execution_namespace s.m)) refs
      → Continues s (sweep_refs k server interval i refs s [])
  unfolding Continues sweep_refs ◌>>=◌ pure
  gone_rounds i [] s tt = (s, refl, refl, refl)
  gone_rounds i (ref ∷ refs) s (gone, all_gone) =
      let (s', went, all, ns) = gone_round i ref s gone in
      let (s'', went', all', ns') =
        gone_rounds (suc i) refs s' (subst (λ n. All (IsGone server n) refs) (sym ns) all_gone) in
      (s'', rw (went) went', all' ∙ all, ns' ∙ ns)

  current_lem :
      (m : PvMigration)
      → m.status.observed_generation ≡ m.meta.generation
      → m.status.works ≢ []
      → (not (eqb m.status.observed_generation m.meta.generation) || is_empty m.status.works)
        ≡ false
  current_lem m current some_works = elim (Bool-cases (is_empty m.status.works)) [
    | inl empty ↦ absurd (some_works (is_empty_lem m.status.works empty))
    | inr full ↦ ground (arith, current, full)
  ]

  sweep-completes :
      (m : PvMigration)
      → m.status.phase ≡ "Ready"
      → m.status.observed_generation ≡ m.meta.generation
      → m.status.works ≢ []
      → All (IsGone server (execution_namespace m)) m.status.works
      → (m' : PvMigration) × ((sweep k server interval m []).1 ≡ patch_status m' ∷ [])
        × (m'.status.phase ≡ "Completed")
  unfolding sweep Continues
  sweep-completes m ready current some_works all_gone =
      let (s', went, all, ns) =
        gone_rounds 0 m.status.works (record { m = m; all = true }) all_gone in
      let done : (with_outcome s').status.phase ≡ "Completed" = rw (all) refl in
      (
        with_outcome s',
        (unfold ◌>>=◌ in
            rw (current_lem m current some_works) (
              unfold fail_if pure in
              rw (went) (
                patch_changed-writes server interval m.status (with_outcome s') [] (λ e. ground (
                  arith,
                  eq_iff "Ready" "Completed",
                  ready,
                  done,
                  ap (λ (s : PvMigrationStatus). s.phase) e,
                ))))),
        done,
      )

module _ (k : Machinery) (server : Server) (poll_interval : ℤ) (m : PvMigration) where
  -- A cleanup pass over a ready migration that is not being deleted, whose evidence is of its current
  -- generation, and of whose Works, of which there is one at least, each is recorded as applied in the
  -- execution namespace and gone from the server, writes exactly one status, of the phase "Completed".
  pub clean_up-completes :
      (namespace name : String)
      → server.get_migration [] namespace name ≡ found m
      → m.meta.deleting ≡ false
      → m.status.phase ≡ "Ready"
      → m.status.observed_generation ≡ m.meta.generation
      → m.status.works ≢ []
      → All (IsGone server (execution_namespace m)) m.status.works
      → (m' : PvMigration) × (writes_of (reconcile k server poll_interval namespace name)
          ≡ patch_status m' ∷ [])
        × (m'.status.phase ≡ "Completed")
  unfolding reconcile ◌>>=◌ ask
  clean_up-completes namespace name read live ready current some_works all_gone =
      let (m', wrote, done) =
        sweep-completes k server (delay poll_interval) m ready current some_works all_gone in
      (m', rw (read, idle) wrote, done)
    where
      idle : is_idle m ≡ false
      idle = unfold is_idle in rw (live, ready) refl
