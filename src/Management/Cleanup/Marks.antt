-- ===== src/Management/Cleanup/Marks.antt =====
-- What the loop over the references keeps.
use karmada_with_pvmigration.Prelude.{ℕ, suc, ◌≤◌, Bool, true, some, ◌≡◌, ◌∙◌, arith}
use karmada_with_pvmigration.Api.{PvMigration, WorkReference}
use karmada_with_pvmigration.Management.Routing.Repair.{ref_at}
use karmada_with_pvmigration.Management.Cleanup.Detach.{Sweep, with_detached}
use karmada_with_pvmigration.Management.Cleanup.References.{
  Detaches, Detaches-set_detached, gone_upto, ref_at-set_detached, gone_upto-set_detached,
}

-- The loop has only marked references before an index, and `all` says that those are gone.
pub record IsSweep (m : PvMigration) (i : ℕ) (s : Sweep) : Type 0 where
  pub meta : s.m.meta ≡ m.meta
  pub spec : s.m.spec ≡ m.spec
  pub hash : s.m.status.plan_hash ≡ m.status.plan_hash
  pub generation : s.m.status.observed_generation ≡ m.status.observed_generation
  pub phase : s.m.status.phase ≡ m.status.phase
  pub marks : Detaches m.status.works s.m.status.works
  pub later : (j : ℕ) → i ≤ j → ref_at s.m.status.works j ≡ ref_at m.status.works j
  pub gone : s.all ≡ true → gone_upto i s.m.status.works ≡ true

module _ (m : PvMigration) (i : ℕ) (s : Sweep) (r : IsSweep m i s) where
  pub next-IsSweep :
      (all : Bool)
      → (all ≡ true → gone_upto (suc i) s.m.status.works ≡ true)
      → IsSweep m (suc i) (record s { all = all })
  next-IsSweep all gone = record {
    meta = r.meta;
    spec = r.spec;
    hash = r.hash;
    generation = r.generation;
    phase = r.phase;
    marks = r.marks;
    later = λ j le. r.later j (omega arith);
    gone = gone;
  }

  pub marked-IsSweep :
      (ref : WorkReference)
      → ref_at m.status.works i ≡ some ref
      → ref.applied ≡ true
      → IsSweep m (suc i) (with_detached s i)
  marked-IsSweep ref e applied = record {
    meta = r.meta;
    spec = r.spec;
    hash = r.hash;
    generation = r.generation;
    phase = r.phase;
    marks = Detaches-set_detached m.status.works s.m.status.works i r.marks;
    later = λ j le. ref_at-set_detached s.m.status.works i j le ∙ r.later j (omega arith);
    gone = λ all.
        gone_upto-set_detached s.m.status.works i (r.later i (omega arith) ∙ e) applied
          (r.gone all);
  }
