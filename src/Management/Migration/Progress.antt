-- ===== src/Management/Migration/Progress.antt =====
-- What the loop over the Works keeps.
use karmada_with_pvmigration.Prelude.{
  ℕ, suc, ◌≤◌, String, Bool, true, false, ◌&&◌, Option, none, some, List, map, ◌≡◌, ◌∙◌, arith, ok,
}
use karmada_with_pvmigration.Api.{PvMigration, PvMetadata, WorkReference}
use karmada_with_pvmigration.Machinery.{Machinery, Unstructured}
use karmada_with_pvmigration.Management.Works.Plan.{build_works}
use karmada_with_pvmigration.Management.Hash.{plan_hash}
use karmada_with_pvmigration.Management.Routing.Repair.{ref_at}
use karmada_with_pvmigration.Management.Migration.Sync.{Round, in_range, with_applied, set_applied}
use karmada_with_pvmigration.Management.Migration.Pass.{is_over}
use karmada_with_pvmigration.Management.Migration.References.{
  identity, is_settled, settled_upto, identity-set_applied, ref_at-set_applied, settled_upto-suc,
  settled_upto-set_applied,
}

-- The loop has changed nothing but what is recorded of the Works before an index.
pub record IsRound (m : PvMigration) (i : ℕ) (s : Round) : Type 0 where
  pub meta : s.m.meta ≡ m.meta
  pub spec : s.m.spec ≡ m.spec
  pub phase : s.m.status.phase ≡ m.status.phase
  pub hash : s.m.status.plan_hash ≡ m.status.plan_hash
  pub kept : map identity s.m.status.works ≡ map identity m.status.works
  pub later : (j : ℕ) → i ≤ j → ref_at s.m.status.works j ≡ ref_at m.status.works j
  pub evidence : s.all ≡ true → settled_upto i s.m.status.works ≡ true

-- A recorded plan whose works are still those that the source gives.
pub record IsPlanned (k : Machinery) (m : PvMigration) (works : List Unstructured) : Type 0 where
  pub md : PvMetadata
  pub hash : String
  pub built : build_works k m md ≡ ok works
  pub hashed : plan_hash k m md works ≡ ok hash
  pub same_hash : hash ≡ m.status.plan_hash
  pub running : is_over m ≡ false

pub in_range-eq-ok :
    (o : Option WorkReference) {ref : WorkReference} → in_range o ≡ ok ref → o ≡ some ref
in_range-eq-ok (some r) h = cc
in_range-eq-ok none h = cc

module _ (m : PvMigration) (i : ℕ) (s : Round) (r : IsRound m i s) where
  -- A settled Work is passed over.
  pub next-IsRound :
      (ref : WorkReference)
      → ref_at s.m.status.works i ≡ some ref
      → is_settled ref ≡ true
      → IsRound m (suc i) s
  next-IsRound ref e h = record {
    meta = r.meta;
    spec = r.spec;
    phase = r.phase;
    hash = r.hash;
    kept = r.kept;
    later = λ j le. r.later j (omega arith);
    evidence = λ all. settled_upto-suc s.m.status.works i e h (r.evidence all);
  }

  pub unsettled-IsRound : IsRound m (suc i) (record s { all = false })
  unsettled-IsRound = record {
    meta = r.meta;
    spec = r.spec;
    phase = r.phase;
    hash = r.hash;
    kept = r.kept;
    later = λ j le. r.later j (omega arith);
    evidence = λ all. absurd (cc all);
  }

  evidence_of :
      (applied : Bool)
      → s.all && applied ≡ true
      → settled_upto (suc i) (set_applied s.m.status.works i applied) ≡ true
  evidence_of true h = settled_upto-set_applied s.m.status.works i (r.evidence (ground arith))
  evidence_of false h = absurd (ground arith)

  pub applied-IsRound :
      (actual : Unstructured) (applied : Bool) → IsRound m (suc i) (with_applied s i actual applied)
  applied-IsRound actual applied = record {
    meta = r.meta;
    spec = r.spec;
    phase = r.phase;
    hash = r.hash;
    kept = identity-set_applied s.m.status.works i applied ∙ r.kept;
    later = λ j le. ref_at-set_applied s.m.status.works i j applied le ∙ r.later j (omega arith);
    evidence = evidence_of applied;
  }
