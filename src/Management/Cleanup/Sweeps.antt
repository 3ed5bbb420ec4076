-- ===== src/Management/Cleanup/Sweeps.antt =====
-- The loop over the references keeps to what is allowed.
use karmada_with_pvmigration.Prelude.{
  ℕ, suc, ◌+◌, String, Bool, true, false, not, ◌&&◌, ◌||◌, some, List, [], ◌∷◌, length, ◌≡◌, ◌≢◌,
  sym, ap, subst, ◌∙◌, ◌<>◌, ◌⊎◌, inl, inr, arith, eq_iff, ◌==◌, Result, ok, err, Reply, found,
  failed, not_found, already_exists, other, got, Bool-cases,
}
use karmada_with_pvmigration.Api.{PvMigration, PvMigrationSpec, PvMetadata, WorkReference}
use karmada_with_pvmigration.Api.Core.{label, ObjectMeta}
use karmada_with_pvmigration.Machinery.{Machinery, Unstructured}
use karmada_with_pvmigration.Management.Naming.{owner_label, managed_label, manager_name}
use karmada_with_pvmigration.Management.Works.Manifests.{execution_namespace}
use karmada_with_pvmigration.Management.Works.Plan.{build_works}
use karmada_with_pvmigration.Management.Applied.Evidence.{work_applied, standalone_receipt_matches}
use karmada_with_pvmigration.Management.Routing.Repair.{ref_at}
use karmada_with_pvmigration.Management.Hash.{plan_hash}
use karmada_with_pvmigration.Management.Server.{Write, Server, Flow, go, halt, Action, delete_work}
use karmada_with_pvmigration.Management.Server.Rules.{
  Any, Passes, Ensures, Ensures-then, Ensures-try, Ensures-ask, Ensures-fail_if, Ensures-write,
  Ensures-guard, Ensures-must_or_missing, Ensures-return, Ensures-pure,
}
use karmada_with_pvmigration.Management.Cleanup.Detach.{
  Sweep, refused, find_planned, hash_differs, check_plan, check_if_special, detach, check_found,
  by_answer, sweep_attached, sweep_ref, sweep_refs,
}
use karmada_with_pvmigration.Management.Cleanup.References.{gone_upto-suc}
use karmada_with_pvmigration.Management.Cleanup.Planned.{IsFound, find_planned-IsFound}
use karmada_with_pvmigration.Management.Cleanup.Allowed.{IsOfPlan, IsAllowed}
use karmada_with_pvmigration.Management.Cleanup.Marks.{IsSweep, next-IsSweep, marked-IsSweep}

module _ (k : Machinery) (server : Server) (interval : ℕ) (m : PvMigration) where
  abbrev pub Goal : {A : Type 0} → (A → Type 0) → Action A → Type 0
  Goal Q part = Ensures (IsAllowed k server m) Q part

  hash_differs-eq :
      (r : Result String) (recorded : String) → hash_differs r recorded ≡ false → r ≡ ok recorded
  hash_differs-eq (ok hash) recorded h = ap ok (ground (arith, eq_iff hash recorded))
  hash_differs-eq (err e) recorded h = cc

  check_plan_lem :
      (now : PvMigration) (ref : WorkReference) (w : Unstructured)
      → Goal (λ done. IsOfPlan k now ref w) (check_plan k server interval now ref w)
  unfolding check_plan
  check_plan_lem now ref w =
      Ensures-ask (λ written. server.get_metadata written now.meta.namespace now.spec.metadata_ref)
        _
        (λ written answer read. Ensures-try interval (got answer) _ (λ md found_md.
          Ensures-try interval (build_works k now md) _ (λ works built.
            Ensures-fail_if interval (hash_differs (plan_hash k now md works) now.status.plan_hash)
              _ _
              (λ same_hash.
                Ensures-try interval (find_planned k now ref w works false) _ (λ matched e.
                  Ensures-guard interval (not matched) _ (λ has.
                    of_plan md works built (hash_differs-eq _ _ same_hash) (
                      find_planned-IsFound k now ref w works false (e ∙ ap ok (ground arith)))))))))
    where
      of_plan :
          (md : PvMetadata) (works : List Unstructured)
          → build_works k now md ≡ ok works
          → plan_hash k now md works ≡ ok now.status.plan_hash
          → ◌≡◌ {A = Bool} false true ⊎ IsFound k now ref w works
          → IsOfPlan k now ref w
      of_plan md works built hashed (inl no_work) = cc
      of_plan md works built hashed (inr f) = record {
        md = md;
        works = works;
        i = f.i;
        expected = f.expected;
        built = built;
        hashed = hashed;
        planned = f.planned;
        same_name =
            let same = f.same in ground (arith, eq_iff f.expected.meta.name w.meta.name, same);
        same_namespace =
            let same = f.same in
            ground (arith, eq_iff f.expected.meta.namespace w.meta.namespace, same);
        same_kind = f.kind;
        valid = f.valid;
      }

  check_if_special_lem :
      (now : PvMigration) (ref : WorkReference) (w : Unstructured)
      → Goal
          (λ done. (ref.standalone ≡ true) ⊎ (ref.routing_work_uid ≢ "") → IsOfPlan k now ref w)
          (check_if_special k server interval now ref w)
  unfolding check_if_special
  check_if_special_lem now ref w =
      elim (Bool-cases (not (ref.routing_work_uid == "") || ref.standalone)) [
        | inl special ↦
            rw (special, check_if_special)
              (record {
                at = λ written all.
                    let (kept, passed) = (check_plan_lem now ref w).at written all in
                    (kept, by_flow (check_plan k server interval now ref w written).0 passed);
              })
        | inr plain ↦ rw (plain, check_if_special) (Ensures-pure tt (not_special plain))
      ]
    where
      by_flow :
          (x : Flow (Unit {0}))
          → Passes (λ done. IsOfPlan k now ref w) x
          → Passes
              (λ done. (ref.standalone ≡ true) ⊎ (ref.routing_work_uid ≢ "") → IsOfPlan k now ref w)
              x
      by_flow (go done) p = λ special. p
      by_flow (halt i e) p = tt

      not_special :
          (not (ref.routing_work_uid == "") || ref.standalone) ≡ false
          → (ref.standalone ≡ true) ⊎ (ref.routing_work_uid ≢ "")
          → IsOfPlan k now ref w
      not_special plain (inl alone) = absurd (ground arith)
      not_special plain (inr repaired) = absurd (ground (arith, eq_iff ref.routing_work_uid ""))

  module _ (i : ℕ) (s : Sweep) (r : IsSweep m i s) (ref : WorkReference)
      (recorded : ref_at m.status.works i ≡ some ref) (applied : ref.applied ≡ true)
      (attached : ref.detached ≡ false) (target : ref.namespace ≡ execution_namespace s.m) where
    check_found_lem :
        (written : List Write) (w : Unstructured)
        → server.get_work written ref.namespace ref.name ≡ found w
        → Goal (IsSweep m (suc i)) (check_found k server interval ref w s)
    unfolding check_found detach refused
    check_found_lem written w read = Ensures-fail_if interval (refused k s.m w) _ _ (λ own.
        elim (Bool-cases w.meta.deleting) [
          | inl terminating ↦
              rw terminating (Ensures-pure _ (next-IsSweep m i s r false (λ all. absurd (cc all))))
          | inr live ↦ rw live (
              Ensures-fail_if interval (not (work_applied k w)) _ _ (λ evident.
                Ensures-fail_if interval
                  (ref.standalone && not (standalone_receipt_matches k w ref)) _ _
                  (λ receipt. Ensures-then _ _ (check_if_special_lem s.m ref w) (λ done of_plan.
                    Ensures-write server (delete_work w) _
                      (record {
                        now = s.m;
                        i = i;
                        ref = ref;
                        written = written;
                        same_meta = r.meta;
                        same_spec = r.spec;
                        same_hash = r.hash;
                        marks = r.marks;
                        recorded = recorded;
                        applied = applied;
                        attached = attached;
                        in_target =
                            target
                            ∙ ap (λ (x : PvMigrationSpec). "karmada-es-" <> x.target_cluster)
                                r.spec;
                        read = read;
                        live = live;
                        owner =
                            ground (arith, eq_iff (label w.meta.labels owner_label) s.m.meta.uid)
                            ∙ ap (λ (x : ObjectMeta). x.uid) r.meta;
                        manager =
                            ground (arith, eq_iff (label w.meta.labels managed_label) manager_name);
                        preserves = ground arith;
                        unmodified = ground arith;
                        evident = ground arith;
                        receipt = λ alone. ground arith;
                        of_plan = of_plan;
                      })
                      (λ answer.
                        Ensures-then _ _ (Ensures-must_or_missing {R = Any} tt interval answer)
                          (λ done q.
                            Ensures-pure _
                              (next-IsSweep m i s r false (λ all. absurd (cc all)))))))))
        ])

  module _ (i : ℕ) (s : Sweep) (r : IsSweep m i s) (ref : WorkReference)
      (recorded : ref_at m.status.works i ≡ some ref) where
    sweep_attached_lem :
        ref.applied ≡ true
        → ref.detached ≡ false
        → Goal (IsSweep m (suc i)) (sweep_attached k server interval i ref s)
    unfolding sweep_attached
    sweep_attached_lem applied attached =
        Ensures-fail_if interval (not (ref.namespace == execution_namespace s.m)) _ _ (λ target.
          Ensures-ask (λ written. server.get_work written ref.namespace ref.name) _
            (by_reply (ground (arith, eq_iff ref.namespace (execution_namespace s.m)))))
      where
        by_reply :
            ref.namespace ≡ execution_namespace s.m
            → (written : List Write) (answer : Reply Unstructured)
            → server.get_work written ref.namespace ref.name ≡ answer
            → Goal (IsSweep m (suc i)) (by_answer k server interval i ref s answer)
        by_reply target written (found w) read =
            check_found_lem i s r ref recorded applied attached target written w read
        by_reply target written (failed (not_found e)) read =
            Ensures-pure _ (marked-IsSweep m i s r ref recorded applied)
        by_reply target written (failed (already_exists e)) read = Ensures-return interval (some e)
        by_reply target written (failed (other e)) read = Ensures-return interval (some e)

    sweep_ref_lem : Goal (IsSweep m (suc i)) (sweep_ref k server interval i ref s)
    unfolding sweep_ref
    sweep_ref_lem = Ensures-fail_if interval (not ref.applied) _ _ (λ applied.
        elim (Bool-cases ref.detached) [
          | inl detached ↦ rw detached (
              Ensures-pure s (
                next-IsSweep m i s r s.all (λ all.
                  gone_upto-suc s.m.status.works i (r.later i (omega arith) ∙ recorded)
                    (ground arith) (r.gone all))))
          | inr attached ↦ rw attached (sweep_attached_lem (ground arith) attached)
        ])

  -- From an index on, the loop goes over the references that are left.
  pub sweep_refs_lem :
      (i : ℕ) (rest : List WorkReference) (s : Sweep)
      → IsSweep m i s
      → ((j : ℕ) → ref_at rest j ≡ ref_at m.status.works (i + j))
      → Goal (IsSweep m (i + length rest)) (sweep_refs k server interval i rest s)
  unfolding sweep_refs ref_at
  sweep_refs_lem i [] s r suffix = Ensures-pure s (subst (λ j. IsSweep m j s) (omega arith) r)
  sweep_refs_lem i (ref ∷ rest) s r suffix =
      Ensures-then _ _
        (sweep_ref_lem i s r ref (ap (ref_at m.status.works) (omega arith) ∙ sym (suffix 0)))
        (λ s' r'.
          subst (λ j. Goal (IsSweep m j) (sweep_refs k server interval (suc i) rest s'))
            (omega arith)
            (sweep_refs_lem (suc i) rest s' r'
              (λ j. suffix (suc j) ∙ ap (ref_at m.status.works) (omega arith))))
