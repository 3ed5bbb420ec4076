-- ===== src/Management/Cleanup/Safe.antt =====
-- What a whole pass of the cleanup controller writes.
use karmada_with_pvmigration.Prelude.{
  ℕ, ◌+◌, String, Bool, true, false, not, ◌||◌, none, [], eqb, is_empty, length, ◌≡◌, refl, sym, ap,
  ◌∙◌, ◌⊎◌, inl, inr, arith, eq_iff, All, Reply, found, failed, Bool-cases,
}
use karmada_with_pvmigration.Prelude.Int.{ℤ}
use karmada_with_pvmigration.Api.{PvMigration}
use karmada_with_pvmigration.Machinery.{Machinery}
use karmada_with_pvmigration.Management.Routing.Repair.{ref_at}
use karmada_with_pvmigration.Management.Server.{Server, Action, ◌>>=◌, ask, return, writes_of}
use karmada_with_pvmigration.Management.Server.Rules.{
  Any, Ensures, Ensures-then, Ensures-fail_if, Ensures-return,
}
use karmada_with_pvmigration.Management.Migration.Phase.{delay}
use karmada_with_pvmigration.Management.Migration.References.{every}
use karmada_with_pvmigration.Management.Migration.Patches.{patch_changed_lem}
use karmada_with_pvmigration.Management.Cleanup.Detach.{Sweep}
use karmada_with_pvmigration.Management.Cleanup.Pass.{with_outcome, is_idle, sweep, reconcile}
use karmada_with_pvmigration.Management.Cleanup.References.{
  Detaches-refl, is_gone, gone_upto, gone_upto-length, length-Detaches,
}
use karmada_with_pvmigration.Management.Cleanup.Allowed.{IsMarked, IsAllowed}
use karmada_with_pvmigration.Management.Cleanup.Marks.{IsSweep}
use karmada_with_pvmigration.Management.Cleanup.Sweeps.{sweep_refs_lem}

module _ (k : Machinery) (server : Server) (interval : ℕ) (m : PvMigration) where
  abbrev Goal : {A : Type 0} → (A → Type 0) → Action A → Type 0
  Goal Q part = Ensures (IsAllowed k server m) Q part

  outcome-IsMarked :
      (s : Sweep)
      → m.status.phase ≡ "Ready"
      → IsSweep m (0 + length m.status.works) s
      → IsMarked m (with_outcome s)
  outcome-IsMarked s ready r = by_all s.all refl
    where
      all_gone : s.all ≡ true → every is_gone s.m.status.works ≡ true
      all_gone all =
          sym (gone_upto-length s.m.status.works)
          ∙ ap (λ n. gone_upto n s.m.status.works)
              (sym (length-Detaches m.status.works s.m.status.works r.marks) ∙ omega arith)
          ∙ r.gone all

      by_all : (all : Bool) → s.all ≡ all → IsMarked m (with_outcome s)
      by_all true all =
          rw (with_outcome, all)
            (record {
              meta = r.meta;
              spec = r.spec;
              hash = r.hash;
              generation = r.generation;
              works = r.marks;
              phase = inr (refl, all_gone all);
            })
      by_all false all =
          rw (with_outcome, all)
            (record {
              meta = r.meta;
              spec = r.spec;
              hash = r.hash;
              generation = r.generation;
              works = r.marks;
              phase = inl (r.phase ∙ ready);
            })

  sweep_lem : m.status.phase ≡ "Ready" → Goal Any (sweep k server interval m)
  unfolding sweep
  sweep_lem ready =
      Ensures-fail_if interval
        (not (eqb m.status.observed_generation m.meta.generation) || is_empty m.status.works) _ _
        (λ current.
          Ensures-then _ _ (sweep_refs_lem k server interval m 0 m.status.works _ start shift)
            (λ s r.
              Ensures-then {Q = Any} _ _
                (patch_changed_lem server interval m.status (with_outcome s)
                  (outcome-IsMarked s ready r))
                (λ done q. Ensures-return interval none)))
    where
      shift : (j : ℕ) → ref_at m.status.works j ≡ ref_at m.status.works (0 + j)
      shift j = ap (ref_at m.status.works) (omega arith)

      start : IsSweep m 0 (record { m = m; all = true })
      start = record {
        meta = refl;
        spec = refl;
        hash = refl;
        generation = refl;
        phase = refl;
        marks = Detaches-refl m.status.works;
        later = λ j le. refl;
        gone = λ all. refl;
      }

is_idle-ready :
    (m : PvMigration) → is_idle m ≡ false → (m.meta.deleting ≡ false) × (m.status.phase ≡ "Ready")
unfolding is_idle
is_idle-ready m h = ground (arith, eq_iff m.status.phase "Ready")

-- A pass of the cleanup controller writes nothing for a migration that is missing, deleted or not
-- ready. For a ready one it makes nothing and changes no Work; its status patch only marks references
-- as detached, and says "Completed" only where each Work is applied and detached; and it deletes only
-- Works of applied references in the target's execution namespace that the server has just shown to
-- be live, owned by the migration and its manager, unmodified, keeping their resources and applied,
-- with the recorded receipt if standalone and as one of the recorded plan if standalone or repaired.
pub clean_up-IsAllowed :
    (k : Machinery) (server : Server) (poll_interval : ℤ) (namespace name : String)
    → (writes_of (reconcile k server poll_interval namespace name) ≡ [])
      ⊎ ((m : PvMigration) × (server.get_migration [] namespace name ≡ found m)
          × (m.meta.deleting ≡ false)
          × (m.status.phase ≡ "Ready")
          × All
              (IsAllowed k server m)
              (writes_of (reconcile k server poll_interval namespace name)))
unfolding reconcile ◌>>=◌ ask return
clean_up-IsAllowed k server poll_interval namespace name =
    by_reply (server.get_migration [] namespace name) refl
  where
    by_reply :
        (answer : Reply PvMigration)
        → server.get_migration [] namespace name ≡ answer
        → (writes_of (reconcile k server poll_interval namespace name) ≡ [])
          ⊎ ((m : PvMigration) × (server.get_migration [] namespace name ≡ found m)
              × (m.meta.deleting ≡ false)
              × (m.status.phase ≡ "Ready")
              × All
                  (IsAllowed k server m)
                  (writes_of (reconcile k server poll_interval namespace name)))
    by_reply (failed e) read = inl (rw read refl)
    by_reply (found m) read = elim (Bool-cases (is_idle m)) [
      | inl idle ↦ inl (rw (read, idle) refl)
      | inr busy ↦ inr (
        m,
        read,
        (is_idle-ready m busy).0,
        (is_idle-ready m busy).1,
        rw (read, busy)
            ((sweep_lem k server (delay poll_interval) m (is_idle-ready m busy).1).at [] tt).0,
      )
    ]
