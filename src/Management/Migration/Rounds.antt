-- ===== src/Management/Migration/Rounds.antt =====
-- The loop over the Works keeps to what is allowed.
use karmada_with_pvmigration.Prelude.{
  ℕ, suc, ◌+◌, String, false, not, none, some, List, [], ◌∷◌, length, ◌≡◌, ◌≢◌, sym, ap, subst, ◌∙◌,
  inl, inr, arith, eq_iff, ◌==◌, Reply, found, failed, not_found, already_exists, other, Bool-cases,
}
use karmada_with_pvmigration.Api.{PvMigration, WorkReference}
use karmada_with_pvmigration.Machinery.{Machinery, Unstructured}
use karmada_with_pvmigration.Management.Applied.Evidence.{work_applied}
use karmada_with_pvmigration.Management.Routing.Repair.{
  ref_at, with_routing, Repair, unchanged, record_intent, rewrite, validate_work,
  ensure_work_routing,
}
use karmada_with_pvmigration.Management.Routing.Safe.{IsSafe, ensure_work_routing-IsSafe}
use karmada_with_pvmigration.Management.Server.{
  Write, Server, Action, patch_status, create_work, patch_work,
}
use karmada_with_pvmigration.Management.Server.Rules.{
  Any, Ensures, Ensures-then, Ensures-try, Ensures-ask, Ensures-fail_if, Ensures-write,
  Ensures-must, Ensures-must_or_exists, Ensures-return, Ensures-pure,
}
use karmada_with_pvmigration.Management.Migration.Sync.{
  Round, in_range, identity_changed, create_missing, do_repair, check_present, by_answer,
  sync_attached, sync_work, sync_works,
}
use karmada_with_pvmigration.Management.Migration.Pass.{is_over}
use karmada_with_pvmigration.Management.Migration.References.{identity-set_routing}
use karmada_with_pvmigration.Management.Migration.Allowed.{
  work_at, keeps_plan, IsPatch, IsRewrite, IsAllowed,
}
use karmada_with_pvmigration.Management.Migration.Progress.{
  IsRound, IsPlanned, in_range-eq-ok, next-IsRound, unsettled-IsRound, applied-IsRound,
}

module _ (k : Machinery) (server : Server) (interval : ℕ) (m : PvMigration)
    (works : List Unstructured) (plan : IsPlanned k m works) where
  abbrev pub Goal : {A : Type 0} → (A → Type 0) → Action A → Type 0
  Goal Q part = Ensures (IsAllowed k server m) Q part

  module _ (i : ℕ) (s : Round) (r : IsRound m i s) (ref : WorkReference) (expected : Unstructured)
      (at : ref_at s.m.status.works i ≡ some ref) (attached : ref.detached ≡ false)
      (same : identity_changed ref expected ≡ false)
      (planned : work_at works i ≡ some expected) where
    create_missing_lem :
        (written : List Write) (message : String)
        → server.get_work written ref.namespace ref.name ≡ failed (not_found message)
        → Goal (IsRound m (suc i)) (create_missing k server interval ref expected s)
    unfolding create_missing identity_changed
    create_missing_lem written message missing =
        Ensures-fail_if interval (not (ref.routing_work_uid == "")) _ _ (λ unrepaired.
          Ensures-fail_if interval ref.applied _ _ (λ unapplied.
            Ensures-write server (create_work expected) _
              (record {
                md = plan.md;
                works = works;
                hash = plan.hash;
                i = i;
                ref = ref;
                built = plan.built;
                hashed = plan.hashed;
                unchanged_plan = plan.same_hash;
                planned = planned;
                recorded = sym (r.later i (omega arith)) ∙ at;
                same_name = ground (arith, eq_iff ref.name expected.meta.name);
                same_namespace = ground (arith, eq_iff ref.namespace expected.meta.namespace);
                unapplied = unapplied;
                attached = attached;
                unrepaired = ground (arith, eq_iff ref.routing_work_uid "");
                written = written;
                message = message;
                missing = missing;
              })
              (λ answer.
                Ensures-then _ _ (Ensures-must_or_exists {R = Any} tt interval answer)
                  (λ done q. Ensures-pure _ (unsettled-IsRound m i s r)))))

    running_phase : (m.status.phase ≢ "Ready") × (m.status.phase ≢ "Completed")
    unfolding is_over
    running_phase =
        let running = plan.running in
        (
          ground (arith, eq_iff m.status.phase "Ready", running),
          ground (arith, eq_iff m.status.phase "Completed", running),
        )

    intent-IsPatch :
        (actual : Unstructured) (m' : PvMigration)
        → IsSafe k s.m i actual expected (record_intent m')
        → IsPatch m m'
    intent-IsPatch actual m' (inl (e, same_spec)) = cc
    intent-IsPatch actual m' (inr (ref', e, legacy, inr (uid, g, (w, routed, step)))) = cc
    intent-IsPatch actual m' (inr (ref', e, legacy, inl (uid, (m'', step, is_intent, intent)))) =
        let same : with_routing s.m i actual.meta.uid 2 ≡ m' = cc in
        subst (IsPatch m) same (
          keeps_plan m (with_routing s.m i actual.meta.uid 2) r.meta r.spec
            (identity-set_routing s.m.status.works i actual.meta.uid 2 ∙ r.kept) r.hash
            (λ ready. absurd (running_phase.0 (sym r.phase ∙ ready)))
            (λ over. running_phase.1 (sym r.phase ∙ over)))

    rewritten :
        (actual w : Unstructured)
        → (actual.meta.deleting ≡ false) × IsSafe k s.m i actual expected (rewrite w)
        → IsRewrite k server m w
    rewritten actual w (live, inl (e, same_spec)) = cc
    rewritten actual w (live, inr (ref', e, legacy, inl (uid, step))) = cc
    rewritten actual w (live, inr (ref', e, legacy, inr (uid, g, (w', routed, step)))) = record {
      actual = actual;
      i = i;
      ref = ref';
      routed = routed ∙ (cc);
      recorded = sym (r.later i (omega arith)) ∙ e;
      intended = uid;
      intended_generation = g;
      unapplied = legacy.unapplied;
      attached = legacy.attached;
      first_generation = legacy.first_generation;
      live = live;
    }

    do_repair_lem :
        (actual : Unstructured) (repair : Repair)
        → (actual.meta.deleting ≡ false) × IsSafe k s.m i actual expected repair
        → Goal Any (do_repair k server interval repair)
    unfolding do_repair
    do_repair_lem actual unchanged h = Ensures-pure tt tt
    do_repair_lem actual (record_intent m') h =
        Ensures-write server (patch_status m') _ (intent-IsPatch actual m' h.1) (λ answer.
          Ensures-then _ _ (Ensures-must {R = Any} tt interval answer)
            (λ done q. Ensures-return interval none))
    do_repair_lem actual (rewrite w) h =
        Ensures-write server (patch_work w) _ (rewritten actual w h) (λ answer.
          Ensures-then _ _ (Ensures-must {R = Any} tt interval answer)
            (λ done q. Ensures-return interval none))

    check_present_lem :
        (actual : Unstructured)
        → Goal (IsRound m (suc i)) (check_present k server interval i actual expected s)
    unfolding check_present
    check_present_lem actual =
        Ensures-try interval (ensure_work_routing k s.m i actual expected) _ (λ repair ok_repair.
          Ensures-then _ _
            (do_repair_lem actual repair
              (ensure_work_routing-IsSafe k s.m i actual expected repair ok_repair))
            (λ done q.
              Ensures-try interval (validate_work k actual expected s.m) _ (λ valid ok_valid.
                Ensures-pure _ (applied-IsRound m i s r actual (work_applied k actual)))))

    sync_attached_lem : Goal (IsRound m (suc i)) (sync_attached k server interval i ref expected s)
    unfolding sync_attached
    sync_attached_lem =
        Ensures-ask (λ written. server.get_work written ref.namespace ref.name) _ by_reply
      where
        by_reply :
            (written : List Write) (answer : Reply Unstructured)
            → server.get_work written ref.namespace ref.name ≡ answer
            → Goal (IsRound m (suc i)) (by_answer k server interval i ref expected s answer)
        by_reply written (found actual) e = check_present_lem actual
        by_reply written (failed (not_found message)) e = create_missing_lem written message e
        by_reply written (failed (already_exists message)) e =
            Ensures-return interval (some message)
        by_reply written (failed (other message)) e = Ensures-return interval (some message)

  sync_work_lem :
      (i : ℕ) (expected : Unstructured) (s : Round)
      → IsRound m i s
      → work_at works i ≡ some expected
      → Goal (IsRound m (suc i)) (sync_work k server interval i expected s)
  unfolding sync_work
  sync_work_lem i expected s r planned =
      Ensures-try interval (in_range (ref_at s.m.status.works i)) _ (λ ref e.
        let at = in_range-eq-ok (ref_at s.m.status.works i) e in
        Ensures-fail_if interval (identity_changed ref expected) _ _ (λ same.
          elim (Bool-cases ref.detached) [
            | inl detached ↦
                rw detached (Ensures-pure s (next-IsRound m i s r ref at (ground arith)))
            | inr attached ↦
                rw attached (sync_attached_lem i s r ref expected at attached same planned)
          ]))

  -- From an index on, the loop goes over the planned Works that are left.
  pub sync_works_lem :
      (i : ℕ) (rest : List Unstructured) (s : Round)
      → IsRound m i s
      → ((j : ℕ) → work_at rest j ≡ work_at works (i + j))
      → Goal (IsRound m (i + length rest)) (sync_works k server interval i rest s)
  unfolding sync_works
  sync_works_lem i [] s r suffix = Ensures-pure s (subst (λ j. IsRound m j s) (omega arith) r)
  sync_works_lem i (expected ∷ rest) s r suffix =
      Ensures-then _ _
        (sync_work_lem i expected s r (ap (work_at works) (omega arith) ∙ sym (suffix 0)))
        (λ s' r'.
          subst (λ j. Goal (IsRound m j) (sync_works k server interval (suc i) rest s'))
            (omega arith)
            (sync_works_lem (suc i) rest s' r'
              (λ j. suffix (suc j) ∙ ap (work_at works) (omega arith))))
