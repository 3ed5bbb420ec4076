-- ===== src/Management/Cleanup/Repeated.antt =====
-- The intervals that the cleanup controller returns.
use karmada_with_pvmigration.Prelude.{
  ℕ, eq_iff, arith, String, Bool, true, false, not, ◌||◌, ◌==◌, ◌≡◌, List, [], ◌∷◌, none, Reply,
  found, failed, not_found, already_exists, other,
}
use karmada_with_pvmigration.Prelude.Int.{ℤ}
use karmada_with_pvmigration.Api.{PvMigration, WorkReference}
use karmada_with_pvmigration.Machinery.{Machinery, Unstructured}
use karmada_with_pvmigration.Management.Server.{Server, ◌>>=◌, pure, ask}
use karmada_with_pvmigration.Management.Server.Intervals.{
  Keeps, Ends, IsRepeated, MustHalt-IsRepeated, Ends-return, Ends-then, Keeps-then, Keeps-return,
  Keeps-pure, Keeps-try, Keeps-ask, Keeps-must_or_missing, Keeps-write, Keeps-fail_if,
}
use karmada_with_pvmigration.Management.Migration.Phase.{delay}
use karmada_with_pvmigration.Management.Migration.Repeated.{patch_changed-Keeps, delay-IsInterval}
use karmada_with_pvmigration.Management.Cleanup.Detach.{
  Sweep, check_plan, check_if_special, detach, check_found, by_answer, sweep_attached, sweep_ref,
  sweep_refs,
}
use karmada_with_pvmigration.Management.Cleanup.Pass.{is_idle, sweep, reconcile}

module _ (k : Machinery) (server : Server) (i : ℕ) where
  check_plan-Keeps :
      (m : PvMigration) (ref : WorkReference) (w : Unstructured)
      → Keeps i (check_plan k server i m ref w)
  unfolding check_plan
  check_plan-Keeps m ref w = Keeps-then i _ _ (Keeps-ask i _) (λ r.
      Keeps-then i _ _ (Keeps-try i _) (λ md. Keeps-then i _ _ (Keeps-try i _) (λ works.
        Keeps-then i _ _ (Keeps-fail_if i _ _)
          (λ u. Keeps-then i _ _ (Keeps-try i _) (λ matched. Keeps-fail_if i _ _)))))

  check_if_special-Keeps :
      (m : PvMigration) (ref : WorkReference) (w : Unstructured)
      → Keeps i (check_if_special k server i m ref w)
  unfolding check_if_special
  check_if_special-Keeps m ref w = by_kind (not (ref.routing_work_uid == "") || ref.standalone)
    where
      by_kind :
          (special : Bool)
          → Keeps {A = Unit {0}} i
              (elim special [ true ↦ check_plan k server i m ref w | false ↦ pure tt ])
      by_kind true = check_plan-Keeps m ref w
      by_kind false = Keeps-pure i tt

  check_found-Keeps :
      (ref : WorkReference) (w : Unstructured) (s : Sweep)
      → Keeps i (check_found k server i ref w s)
  unfolding check_found detach
  check_found-Keeps ref w s =
      Keeps-then i _ _ (Keeps-fail_if i _ _) (λ u. by_deletion w.meta.deleting)
    where
      by_deletion :
          (deleting : Bool)
          → Keeps {A = Sweep} i (elim deleting [
            | true ↦ pure (record s { all = false })
            | false ↦ detach k server i ref w s
          ])
      by_deletion true = Keeps-pure i _
      by_deletion false = Keeps-then i _ _ (Keeps-fail_if i _ _) (λ u.
          Keeps-then i _ _ (Keeps-fail_if i _ _) (λ u.
            Keeps-then i _ _ (check_if_special-Keeps s.m ref w) (λ u.
              Keeps-then i _ _ (Keeps-write i server _)
                (λ a. Keeps-then i _ _ (Keeps-must_or_missing i a) (λ u. Keeps-pure i _)))))

  by_answer-Keeps :
      (n : ℕ) (ref : WorkReference) (s : Sweep) (r : Reply Unstructured)
      → Keeps i (by_answer k server i n ref s r)
  by_answer-Keeps n ref s (found w) = check_found-Keeps ref w s
  by_answer-Keeps n ref s (failed (not_found e)) = Keeps-pure i _
  by_answer-Keeps n ref s (failed (already_exists e)) = Keeps-return i _
  by_answer-Keeps n ref s (failed (other e)) = Keeps-return i _

  sweep_ref-Keeps :
      (n : ℕ) (ref : WorkReference) (s : Sweep) → Keeps i (sweep_ref k server i n ref s)
  unfolding sweep_ref sweep_attached
  sweep_ref-Keeps n ref s = Keeps-then i _ _ (Keeps-fail_if i _ _) (λ u. by_mark ref.detached)
    where
      by_mark :
          (b : Bool)
          → Keeps {A = Sweep} i
              (elim b [ true ↦ pure s | false ↦ sweep_attached k server i n ref s ])
      by_mark true = Keeps-pure i s
      by_mark false =
          Keeps-then i _ _ (Keeps-fail_if i _ _)
            (λ u. Keeps-then i _ _ (Keeps-ask i _) (λ r. by_answer-Keeps n ref s r))

  sweep_refs-Keeps :
      (n : ℕ) (refs : List WorkReference) (s : Sweep) → Keeps i (sweep_refs k server i n refs s)
  unfolding sweep_refs
  sweep_refs-Keeps n [] s = Keeps-pure i s
  sweep_refs-Keeps n (ref ∷ refs) s =
      Keeps-then i _ _ (sweep_ref-Keeps n ref s) (λ s'. sweep_refs-Keeps _ refs s')

  sweep-Ends : (m : PvMigration) → Ends i (sweep k server i m)
  unfolding sweep
  sweep-Ends m = Ends-then i _ _ (Keeps-fail_if i _ _) (λ u.
      Ends-then i _ _ (sweep_refs-Keeps _ m.status.works _)
        (λ s. Ends-then i _ _ (patch_changed-Keeps server i _ _) (λ u. Ends-return i none)))

not_idle :
    (m : PvMigration) → m.meta.deleting ≡ false → m.status.phase ≡ "Ready" → is_idle m ≡ false
unfolding is_idle
not_idle m live ready = ground (arith, eq_iff m.status.phase "Ready")

-- A cleanup pass over a ready migration that is not being deleted returns an error, or asks for
-- another pass: after the interval of the controller, or after ten seconds where that is not
-- positive.
pub clean_up_repeats :
    (k : Machinery) (server : Server) (poll_interval : ℤ) (namespace name : String)
    (m : PvMigration)
    → server.get_migration [] namespace name ≡ found m
    → m.meta.deleting ≡ false
    → m.status.phase ≡ "Ready"
    → IsRepeated 10000000000 poll_interval (reconcile k server poll_interval namespace name []).0
unfolding reconcile ◌>>=◌ ask
clean_up_repeats k server poll_interval namespace name m read live ready =
    rw (read, not_idle m live ready)
      (MustHalt-IsRepeated 10000000000 poll_interval (delay poll_interval) _
        (delay-IsInterval poll_interval) ((sweep-Ends k server (delay poll_interval) m).at []))
