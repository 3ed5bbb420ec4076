-- ===== src/Management/Migration/Safe.antt =====
-- What a whole pass of the PVMigration controller writes.
use karmada_with_pvmigration.Prelude.{
  ℕ, ◌+◌, String, Bool, true, false, none, List, [], ◌∷◌, length, ◌≡◌, ◌≢◌, refl, sym, ap, subst,
  ◌∙◌, ◌⊎◌, inl, inr, arith, eqb, eq_iff, ◌==◌, is_empty, All, Result, ok, err, Reply, found,
  failed, got, Bool-cases,
}
use karmada_with_pvmigration.Prelude.Int.{ℤ}
use karmada_with_pvmigration.Api.{PvMigration, PvMetadata, WorkReference}
use karmada_with_pvmigration.Machinery.{Machinery, Unstructured}
use karmada_with_pvmigration.Management.Binding.Gates.{validate_binding}
use karmada_with_pvmigration.Management.Works.Plan.{build_works}
use karmada_with_pvmigration.Management.Hash.{plan_hash}
use karmada_with_pvmigration.Management.Server.{
  Server, Action, ◌>>=◌, ask, return, patch_status, writes_of,
}
use karmada_with_pvmigration.Management.Server.Rules.{
  Any, Ensures, Ensures-then, Ensures-try, Ensures-ask, Ensures-write, Ensures-must, Ensures-return,
  Ensures-pure,
}
use karmada_with_pvmigration.Management.Migration.Phase.{delay, with_phase}
use karmada_with_pvmigration.Management.Migration.Sync.{Round}
use karmada_with_pvmigration.Management.Migration.Receipts.{record_receipts}
use karmada_with_pvmigration.Management.Migration.Pass.{
  with_plan, with_progress, is_over, or_pending, record_plan, follow_plan, with_hash, advance,
  reconcile,
}
use karmada_with_pvmigration.Management.Migration.References.{
  is_settled, every, settled_upto, settled_upto-length, IsRecorded, record_receipts-IsRecorded,
}
use karmada_with_pvmigration.Management.Migration.Allowed.{work_at, IsPatch, keeps_plan, IsAllowed}
use karmada_with_pvmigration.Management.Migration.Progress.{IsRound, IsPlanned}
use karmada_with_pvmigration.Management.Migration.Rounds.{sync_works_lem}
use karmada_with_pvmigration.Management.Migration.Patches.{
  patch_changed_lem, set_phase_lem, phase-IsPatch, plan-IsPatch, same_length,
}

module _ (k : Machinery) (server : Server) (interval : ℕ) (m : PvMigration) where
  abbrev Goal : {A : Type 0} → (A → Type 0) → Action A → Type 0
  Goal Q part = Ensures (IsAllowed k server m) Q part

  progress-IsPatch :
      (works : List Unstructured) (s : Round) (refs : List WorkReference) (all : Bool)
      → IsPlanned k m works
      → length m.status.works ≡ length works
      → IsRound m (0 + length works) s
      → IsRecorded s.m.status.works refs s.all all
      → IsPatch m (with_progress s.m refs all)
  progress-IsPatch works s refs all plan len r recorded =
      keeps_plan m (with_progress s.m refs all) r.meta r.spec (recorded.kept ∙ r.kept) r.hash
        (λ ready. settled_by (all_of all ready)) (not_completed all)
    where
      all_of : (b : Bool) → (with_progress s.m refs b).status.phase ≡ "Ready" → b ≡ true
      all_of true e = refl
      all_of false e = absurd (ground (arith, eq_iff "Preparing" "Ready"))

      not_completed : (b : Bool) → (with_progress s.m refs b).status.phase ≢ "Completed"
      not_completed true e = ground (arith, eq_iff "Ready" "Completed")
      not_completed false e = ground (arith, eq_iff "Preparing" "Completed")

      settled_by : all ≡ true → every is_settled refs ≡ true
      settled_by e = recorded.settled e (
          sym (settled_upto-length s.m.status.works)
          ∙ ap (λ n. settled_upto n s.m.status.works)
              (same_length s.m.status.works m.status.works r.kept ∙ len ∙ omega arith)
          ∙ r.evidence (recorded.still_all e))

  follow_plan_lem :
      (works : List Unstructured)
      → IsPlanned k m works
      → length m.status.works ≡ length works
      → Goal Any (follow_plan k server interval m works)
  unfolding follow_plan
  follow_plan_lem works plan len =
      Ensures-then _ _ (sync_works_lem k server interval m works plan 0 works _ start shift) (λ s r.
        Ensures-try interval (record_receipts k s.observed s.m.status.works works s.all) _ (λ x e.
          Ensures-then {Q = Any} _ _
            (patch_changed_lem server interval m.status (with_progress s.m x.0 x.1) (
              progress-IsPatch works s x.0 x.1 plan len r
                (record_receipts-IsRecorded k s.observed s.m.status.works works s.all x.0 x.1 e)))
            (λ done q. Ensures-return interval none)))
    where
      shift : (j : ℕ) → work_at works j ≡ work_at works (0 + j)
      shift j = ap (work_at works) (omega arith)

      start : IsRound m 0 (record { m = m; observed = []; all = true })
      start = record {
        meta = refl;
        spec = refl;
        phase = refl;
        hash = refl;
        kept = refl;
        later = λ j le. refl;
        evidence = λ all. refl;
      }

  pending : (message : String) → IsPatch m (with_phase m "Pending" message)
  pending message =
      phase-IsPatch m "Pending" message (λ e. ground (arith, eq_iff "Pending" "Ready"))
        (λ e. ground (arith, eq_iff "Pending" "Completed"))

  or_pending_lem :
      {A : Type 0} {Q : Unit {0} → Type 0} (r : Result A) (rest : A → Action (Unit {0}))
      → ((a : A) → r ≡ ok a → Goal Q (rest a))
      → Goal Q (or_pending k server interval m r >>= rest)
  or_pending_lem {Q = Q} (ok a) rest h =
      Ensures-then {Q = λ x. x ≡ a} _ _ (Ensures-pure a refl)
        (λ x e. subst (λ y. Goal Q (rest y)) (sym e) (h a refl))
  or_pending_lem (err e) rest h =
      Ensures-then {Q = λ x. ⊥} _ _ (set_phase_lem server interval m "Pending" e (pending e))
        (λ a none. absurd none)

  with_hash_lem :
      (md : PvMetadata) (hash : String) (works : List Unstructured)
      → is_over m ≡ false
      → build_works k m md ≡ ok works
      → plan_hash k m md works ≡ ok hash
      → Goal Any (with_hash k server interval m hash works)
  unfolding with_hash record_plan
  with_hash_lem md hash works running built hashed = elim (Bool-cases (is_empty m.status.works)) [
    | inl unplanned ↦
        rw (with_hash, unplanned)
          (Ensures-write server (patch_status (with_plan m hash works)) _
            (plan-IsPatch m hash works (is_empty-eq m.status.works unplanned))
            (λ answer.
              Ensures-then {Q = Any} _ _ (Ensures-must tt interval answer)
                (λ done q. Ensures-return interval none)))
    | inr planned ↦ (elim (Bool-cases (m.status.plan_hash == hash)) [
      | inr changed ↦
          rw (with_hash, planned, changed) (set_phase_lem server interval m "Pending" _ (pending _))
      | inl same ↦ (elim (Bool-cases (eqb (length m.status.works) (length works))) [
        | inr longer ↦
            rw (with_hash, planned, same, longer)
              (set_phase_lem server interval m "Failed" _ (
                phase-IsPatch m "Failed" _ (λ e. ground (arith, eq_iff "Failed" "Ready"))
                  (λ e. ground (arith, eq_iff "Failed" "Completed"))))
        | inl equal ↦
            rw (with_hash, planned, same, equal)
              (follow_plan_lem works
                (record {
                  md = md;
                  hash = hash;
                  built = built;
                  hashed = hashed;
                  same_hash = sym ((eq_iff m.status.plan_hash hash).0 same);
                  running = running;
                })
                (ground arith))
      ])
    ])
  ]
    where
      is_empty-eq : (refs : List WorkReference) → is_empty refs ≡ true → refs ≡ []
      is_empty-eq [] h = refl
      is_empty-eq (ref ∷ refs) h = cc

  advance_lem : is_over m ≡ false → Goal Any (advance k server interval m)
  unfolding advance
  advance_lem running =
      Ensures-ask (λ written. server.get_metadata written m.meta.namespace m.spec.metadata_ref) _
        (λ written answer e. Ensures-try interval (got answer) _ (λ md found_md.
          Ensures-ask server.reads _ (λ written' reads e'.
            or_pending_lem (validate_binding k reads m md) _ (λ valid ok_valid.
              or_pending_lem (build_works k m md) _ (λ works built.
                Ensures-try interval (plan_hash k m md works) _
                  (λ hash hashed. with_hash_lem md hash works running built hashed))))))

live_of : (m : PvMigration) → is_over m ≡ false → m.meta.deleting ≡ false
unfolding is_over
live_of m h = ground arith

running_phase :
    (m : PvMigration)
    → is_over m ≡ false
    → (m.status.phase ≢ "Completed") × (m.status.phase ≢ "Ready")
unfolding is_over
running_phase m h = ground (arith, eq_iff m.status.phase "Ready", eq_iff m.status.phase "Completed")

-- A pass of the PVMigration controller writes nothing for a migration that is missing, deleted, ready
-- or completed. For any other one it deletes nothing, and makes no objects but Works; each status
-- patch keeps metadata, spec and a recorded plan (hash and identities), never says "Completed", and
-- says "Ready" only where each recorded Work is applied (or detached); a Work is created only from
-- an unchanged recorded plan, where the server has none and it was never applied, repaired or
-- detached; and a Work is patched only to add its routing under the intent recorded for its UID.
pub reconcile-IsAllowed :
    (k : Machinery) (server : Server) (poll_interval : ℤ) (namespace name : String)
    → (writes_of (reconcile k server poll_interval namespace name) ≡ [])
      ⊎ ((m : PvMigration) × (server.get_migration [] namespace name ≡ found m)
          × (m.meta.deleting ≡ false)
          × (m.status.phase ≢ "Completed")
          × (m.status.phase ≢ "Ready")
          × All
              (IsAllowed k server m)
              (writes_of (reconcile k server poll_interval namespace name)))
unfolding reconcile ◌>>=◌ ask return
reconcile-IsAllowed k server poll_interval namespace name =
    by_answer (server.get_migration [] namespace name) refl
  where
    by_answer :
        (answer : Reply PvMigration)
        → server.get_migration [] namespace name ≡ answer
        → (writes_of (reconcile k server poll_interval namespace name) ≡ [])
          ⊎ ((m : PvMigration) × (server.get_migration [] namespace name ≡ found m)
              × (m.meta.deleting ≡ false)
              × (m.status.phase ≢ "Completed")
              × (m.status.phase ≢ "Ready")
              × All
                  (IsAllowed k server m)
                  (writes_of (reconcile k server poll_interval namespace name)))
    by_answer (failed e) read = inl (rw read refl)
    by_answer (found m) read = elim (Bool-cases (is_over m)) [
      | inl over ↦ inl (rw (read, over) refl)
      | inr running ↦ inr (
        m,
        read,
        live_of m running,
        (running_phase m running).0,
        (running_phase m running).1,
        rw (read, running) ((advance_lem k server (delay poll_interval) m running).at [] tt).0,
      )
    ]
