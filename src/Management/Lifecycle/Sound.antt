-- ===== src/Management/Lifecycle/Sound.antt =====
-- What the phases say of the recorded Works.
use karmada_with_pvmigration.Prelude.{
  true, List, [], ◌∷◌, ◌≡◌, ◌≢◌, refl, sym, ◌∙◌, subst, inl, inr, arith, eq_iff,
}
use karmada_with_pvmigration.Api.{PvMigration, PvMigrationStatus, WorkReference}
use karmada_with_pvmigration.Management.Migration.References.{
  is_settled, is_attached, every, every_attached-identity,
}
use karmada_with_pvmigration.Management.Migration.Allowed.{IsPatch}
use karmada_with_pvmigration.Management.Cleanup.References.{is_gone, every-Detaches}
use karmada_with_pvmigration.Management.Cleanup.Allowed.{IsMarked}
use karmada_with_pvmigration.Management.Lifecycle.{
  Steps, here, next, IsStep, by_migration, by_cleanup, Step-IsStep,
}

-- A migration as it is created.
pub record IsNew (s : PvMigrationStatus) : Type 0 where
  pub phase : s.phase ≡ ""
  pub works : s.works ≡ []

-- "Ready" is said of applied Works, "Completed" of applied and detached ones, and no Work is detached
-- before.
pub record IsTrue (s : PvMigrationStatus) : Type 0 where
  pub ready : s.phase ≡ "Ready" → every (λ ref. ref.applied) s.works ≡ true
  pub completed : s.phase ≡ "Completed" → every is_gone s.works ≡ true
  pub attached : s.phase ≢ "Ready" → s.phase ≢ "Completed" → every is_attached s.works ≡ true

settled-applied :
    (refs : List WorkReference)
    → every is_settled refs ≡ true
    → every is_attached refs ≡ true
    → every (λ ref. ref.applied) refs ≡ true
settled-applied [] s a = refl
settled-applied (ref ∷ refs) s a = ground (arith, settled-applied refs)

-- The migration is neither ready nor completed.
abbrev IsOpen : PvMigration → Type 0
IsOpen m = (m.status.phase ≢ "Ready") × (m.status.phase ≢ "Completed")

patch-IsTrue : (m m' : PvMigration) → IsOpen m → IsPatch m m' → IsTrue m.status → IsTrue m'.status
patch-IsTrue m m' (no_ready, no_completed) p s = record {
  ready = λ r. settled-applied m'.status.works (p.ready r) still_attached;
  completed = λ c. absurd (p.open_end c);
  attached = λ r c. still_attached;
}
  where
    still_attached : every is_attached m'.status.works ≡ true
    still_attached = elim p.plan [
      | inl unplanned ↦ p.fresh unplanned
      | inr (kept, hash) ↦
          every_attached-identity m'.status.works m.status.works kept
          ∙ s.attached no_ready no_completed
    ]

mark-IsTrue :
    (m m' : PvMigration)
    → m.status.phase ≡ "Ready"
    → IsMarked m m'
    → IsTrue m.status
    → IsTrue m'.status
mark-IsTrue m m' ready p s = record {
  ready = λ r. every-Detaches m.status.works m'.status.works p.works (s.ready ready);
  completed = λ c. elim p.phase [
    | inl still ↦ absurd (ground (arith, eq_iff "Ready" "Completed", sym still ∙ c))
    | inr (over, gone) ↦ gone
  ];
  attached = λ no_ready no_completed. elim p.phase [
    | inl still ↦ absurd (no_ready still)
    | inr (over, gone) ↦ absurd (no_completed over)
  ];
}

step-IsTrue : {s t : PvMigrationStatus} → IsStep s t → IsTrue s → IsTrue t
step-IsTrue (by_migration m m' es et no_completed no_ready p) h =
    subst IsTrue et (patch-IsTrue m m' (no_ready, no_completed) p (subst IsTrue (sym es) h))
step-IsTrue (by_cleanup m m' es et ready p) h =
    subst IsTrue et (mark-IsTrue m m' ready p (subst IsTrue (sym es) h))

-- However the passes of both controllers follow each other from a new migration, whatever the server
-- answers: "Ready" is stored only if each recorded Work is applied, "Completed" only if each is
-- applied and detached, and while the phase is another one no Work is detached.
pub Steps-IsTrue : {s t : PvMigrationStatus} → IsNew s → Steps s t → IsTrue t
Steps-IsTrue {s} new here = record {
  ready = λ r. rw (new.works) refl;
  completed = λ c. rw (new.works) refl;
  attached = λ r c. rw (new.works) refl;
}
Steps-IsTrue new (next steps step) = step-IsTrue (Step-IsStep step) (Steps-IsTrue new steps)
