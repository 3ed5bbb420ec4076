-- ===== src/Management/Migration/Repeated.antt =====
-- The intervals that the PVMigration controller returns.
use karmada_with_pvmigration.Prelude.{
  ℕ, zero, suc, refl, inl, inr, ◌≢◌, eq_iff, String, Bool, true, false, ◌==◌, ◌≡◌, none, List, [],
  ◌∷◌, Result, ok, err, Reply, found, failed, not_found, already_exists, other, is_empty, eqb,
  length, arith,
}
use karmada_with_pvmigration.Prelude.Int.{ℤ, pos, negsuc}
use karmada_with_pvmigration.Api.{PvMigration, PvMigrationStatus, WorkReference}
use karmada_with_pvmigration.Api.Equality.{PvMigrationStatus-discrete}
use karmada_with_pvmigration.Machinery.{Machinery, Unstructured}
use karmada_with_pvmigration.Management.Routing.Repair.{Repair, unchanged, record_intent, rewrite}
use karmada_with_pvmigration.Management.Server.{Server, ◌>>=◌, pure, ask, must, write, patch_status}
use karmada_with_pvmigration.Management.Server.Intervals.{
  Keeps, Ends, IsInterval, IsRepeated, MustHalt-IsRepeated, Ends-return, Ends-then, Keeps-then,
  Keeps-Ends, Keeps-return, Keeps-pure, Keeps-try, Keeps-ask, Keeps-must, Keeps-must_or_exists,
  Keeps-write, Keeps-fail_if,
}
use karmada_with_pvmigration.Management.Migration.Phase.{delay, patch_changed, set_phase}
use karmada_with_pvmigration.Management.Migration.Sync.{
  Round, create_missing, do_repair, check_present, by_answer, sync_attached, sync_work, sync_works,
}
use karmada_with_pvmigration.Management.Migration.Pass.{
  is_over, or_pending, record_plan, follow_plan, with_hash, advance, reconcile,
}
use mathlib.Core.Logic.{ite}

module _ (k : Machinery) (server : Server) (i : ℕ) where
  do_repair-Keeps : (r : Repair) → Keeps i (do_repair k server i r)
  unfolding do_repair
  do_repair-Keeps unchanged = Keeps-pure i tt
  do_repair-Keeps (record_intent m) =
      Keeps-then i _ _ (Keeps-write i server _)
        (λ a. Keeps-then i _ _ (Keeps-must i a) (λ u. Keeps-return i none))
  do_repair-Keeps (rewrite w) =
      Keeps-then i _ _ (Keeps-write i server _)
        (λ a. Keeps-then i _ _ (Keeps-must i a) (λ u. Keeps-return i none))

  by_answer-Keeps :
      (n : ℕ) (ref : WorkReference) (expected : Unstructured) (s : Round) (r : Reply Unstructured)
      → Keeps i (by_answer k server i n ref expected s r)
  unfolding check_present create_missing
  by_answer-Keeps n ref expected s (found w) = Keeps-then i _ _ (Keeps-try i _) (λ repair.
      Keeps-then i _ _ (do_repair-Keeps repair)
        (λ u. Keeps-then i _ _ (Keeps-try i _) (λ valid. Keeps-pure i _)))
  by_answer-Keeps n ref expected s (failed (not_found e)) =
      Keeps-then i _ _ (Keeps-fail_if i _ _) (λ u. Keeps-then i _ _ (Keeps-fail_if i _ _) (λ u.
        Keeps-then i _ _ (Keeps-write i server _)
          (λ a. Keeps-then i _ _ (Keeps-must_or_exists i a) (λ u. Keeps-pure i _))))
  by_answer-Keeps n ref expected s (failed (already_exists e)) = Keeps-return i _
  by_answer-Keeps n ref expected s (failed (other e)) = Keeps-return i _

  sync_work-Keeps :
      (n : ℕ) (expected : Unstructured) (s : Round) → Keeps i (sync_work k server i n expected s)
  unfolding sync_work sync_attached
  sync_work-Keeps n expected s =
      Keeps-then i _ _ (Keeps-try i _)
        (λ ref. Keeps-then i _ _ (Keeps-fail_if i _ _) (λ u. by_mark ref ref.detached))
    where
      by_mark :
          (ref : WorkReference) (b : Bool)
          → Keeps i (elim b [ true ↦ pure s | false ↦ sync_attached k server i n ref expected s ])
      by_mark ref true = Keeps-pure i s
      by_mark ref false = Keeps-then i _ _ (Keeps-ask i _) (λ r. by_answer-Keeps n ref expected s r)

  sync_works-Keeps :
      (n : ℕ) (works : List Unstructured) (s : Round) → Keeps i (sync_works k server i n works s)
  unfolding sync_works
  sync_works-Keeps n [] s = Keeps-pure i s
  sync_works-Keeps n (w ∷ ws) s =
      Keeps-then i _ _ (sync_work-Keeps n w s) (λ s'. sync_works-Keeps _ ws s')

pub patch_changed-Keeps :
    (server : Server) (i : ℕ) (base : PvMigrationStatus) (m : PvMigration)
    → Keeps i (patch_changed server i base m)
unfolding patch_changed
patch_changed-Keeps server i base m = by_decision (PvMigrationStatus-discrete base m.status)
  where
    by_decision :
        (d : Dec (base ≡ m.status))
        → Keeps i (ite d (pure tt) (write server (patch_status m) >>= must i))
    by_decision (yes same) = Keeps-pure i tt
    by_decision (no changed) = Keeps-then i _ _ (Keeps-write i server _) (λ a. Keeps-must i a)

module _ (k : Machinery) (server : Server) (i : ℕ) where
  pub set_phase-Ends :
      {A : Type 0} (m : PvMigration) (phase message : String)
      → Ends {A = A} i (set_phase server i m phase message)
  unfolding set_phase
  set_phase-Ends m phase message =
      Ends-then i _ _ (patch_changed-Keeps server i _ _) (λ u. Ends-return i none)

  or_pending-Keeps :
      {A : Type 0} (m : PvMigration) (r : Result A) → Keeps i (or_pending k server i m r)
  or_pending-Keeps m (ok a) = Keeps-pure i a
  or_pending-Keeps m (err e) = Keeps-Ends i _ (set_phase-Ends m "Pending" e)

  follow_plan-Ends :
      (m : PvMigration) (works : List Unstructured) → Ends i (follow_plan k server i m works)
  unfolding follow_plan
  follow_plan-Ends m works = Ends-then i _ _ (sync_works-Keeps k server i _ works _) (λ s.
      Ends-then i _ _ (Keeps-try i _)
        (λ r. Ends-then i _ _ (patch_changed-Keeps server i _ _) (λ u. Ends-return i none)))

  record_plan-Ends :
      (m : PvMigration) (hash : String) (works : List Unstructured)
      → Ends i (record_plan k server i m hash works)
  unfolding record_plan
  record_plan-Ends m hash works =
      Ends-then i _ _ (Keeps-write i server _)
        (λ a. Ends-then i _ _ (Keeps-must i a) (λ u. Ends-return i none))

  with_hash-Ends :
      (m : PvMigration) (hash : String) (works : List Unstructured)
      → Ends i (with_hash k server i m hash works)
  unfolding with_hash
  with_hash-Ends m hash works =
      by_tests (is_empty m.status.works) (m.status.plan_hash == hash)
        (eqb (length m.status.works) (length works))
    where
      by_tests :
          (unplanned same as_many : Bool)
          → Ends {A = Unit {0}} i (elim unplanned [
            | true ↦ record_plan k server i m hash works
            | false ↦ elim same [
              | false ↦
                  set_phase server i m "Pending"
                    "source snapshot identities/specs changed after planning; inspect existing Works before starting a new request"
              | true ↦ elim as_many [
                | false ↦
                    set_phase server i m "Failed"
                      "immutable migration plan differs from recorded Works"
                | true ↦ follow_plan k server i m works
              ]
            ]
          ])
      by_tests true same as_many = record_plan-Ends m hash works
      by_tests false false as_many = set_phase-Ends m "Pending" _
      by_tests false true false = set_phase-Ends m "Failed" _
      by_tests false true true = follow_plan-Ends m works

  pub advance-Ends : (m : PvMigration) → Ends i (advance k server i m)
  unfolding advance
  advance-Ends m = Ends-then i _ _ (Keeps-ask i _) (λ answer. Ends-then i _ _ (Keeps-try i _) (λ md.
      Ends-then i _ _ (Keeps-ask i _) (λ reads. Ends-then i _ _ (or_pending-Keeps m _) (λ valid.
        Ends-then i _ _ (or_pending-Keeps m _)
          (λ works. Ends-then i _ _ (Keeps-try i _) (λ hash. with_hash-Ends m hash works))))))

pub delay-IsInterval : (d : ℤ) → IsInterval 10000000000 d (delay d)
unfolding delay
delay-IsInterval (pos zero) = inr (inl refl, refl)
delay-IsInterval (pos (suc n)) = inl (suc n, refl, omega arith, ground arith)
delay-IsInterval (negsuc n) = inr (inr (n, refl), ground arith)

not_over :
    (m : PvMigration)
    → m.meta.deleting ≡ false
    → m.status.phase ≢ "Completed"
    → m.status.phase ≢ "Ready"
    → is_over m ≡ false
unfolding is_over
not_over m live uncompleted unready =
    ground (arith, eq_iff m.status.phase "Completed", eq_iff m.status.phase "Ready")

-- A pass over a migration that is neither being deleted, nor completed, nor ready, returns an error,
-- or asks for another pass: after the interval of the controller, or after ten seconds where that is
-- not positive.
pub reconcile_repeats :
    (k : Machinery) (server : Server) (poll_interval : ℤ) (namespace name : String)
    (m : PvMigration)
    → server.get_migration [] namespace name ≡ found m
    → m.meta.deleting ≡ false
    → m.status.phase ≢ "Completed"
    → m.status.phase ≢ "Ready"
    → IsRepeated 10000000000 poll_interval (reconcile k server poll_interval namespace name []).0
unfolding reconcile ◌>>=◌ ask
reconcile_repeats k server poll_interval namespace name m read live uncompleted unready =
    rw (read, not_over m live uncompleted unready)
      (MustHalt-IsRepeated 10000000000 poll_interval (delay poll_interval) _
        (delay-IsInterval poll_interval) ((advance-Ends k server (delay poll_interval) m).at []))
