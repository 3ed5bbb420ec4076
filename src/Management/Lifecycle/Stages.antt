-- ===== src/Management/Lifecycle/Stages.antt =====
-- The stages of a migration, and the ways between them.
use karmada_with_pvmigration.Prelude.{
  String, ◌≡◌, ◌≢◌, refl, sym, ap, ◌∙◌, ◌⊎◌, inl, inr, arith, eq_iff, ◌==◌, if◌then◌else◌,
}
use karmada_with_pvmigration.Api.{PvMigrationStatus}
use karmada_with_pvmigration.Management.Lifecycle.{
  Step, IsStep, by_migration, by_cleanup, Step-IsStep,
}

pub data Stage : Type 0 where
  open_stage ready_stage completed_stage : Stage

-- "Ready" and "Completed" are stages of their own; every other phase is open.
unfoldable pub stage_of : String → Stage
stage_of phase =
    if phase == "Ready"
    then ready_stage
    else if phase == "Completed"
    then completed_stage
    else open_stage

infix 40 ◌⟶◌
pub data ◌⟶◌ : Stage → Stage → Type 0 where
  work_on : open_stage ⟶ open_stage
  confirm : open_stage ⟶ ready_stage
  mark : ready_stage ⟶ ready_stage
  complete : ready_stage ⟶ completed_stage

pub stage-cases :
    (phase : String)
    → ((phase ≡ "Ready") × (stage_of phase ≡ ready_stage))
      ⊎ (((phase ≡ "Completed") × (stage_of phase ≡ completed_stage))
          ⊎ ((phase ≢ "Ready") × (phase ≢ "Completed") × (stage_of phase ≡ open_stage)))
unfolding stage_of
stage-cases phase = ground (arith, eq_iff phase "Ready", eq_iff phase "Completed")

ready_is : stage_of "Ready" ≡ ready_stage
unfolding stage_of
ready_is = refl

completed_is : stage_of "Completed" ≡ completed_stage
unfolding stage_of
completed_is = refl

-- Every status patch of either controller follows the stages: work goes on until "Ready", which only
-- the cleanup leaves, and only for "Completed", which nothing leaves.
pub Step-⟶ : {s t : PvMigrationStatus} → Step s t → stage_of s.phase ⟶ stage_of t.phase
Step-⟶ step = of_step (Step-IsStep step)
  where
    of_step : {s t : PvMigrationStatus} → IsStep s t → stage_of s.phase ⟶ stage_of t.phase
    of_step {s = s} {t = t} (by_migration m m' es et no_completed no_ready p) =
        elim (stage-cases s.phase) [
          | inl (e, st) ↦ absurd (no_ready (ap (λ (x : PvMigrationStatus). x.phase) es ∙ e))
          | inr (inl (e, st)) ↦
              absurd (no_completed (ap (λ (x : PvMigrationStatus). x.phase) es ∙ e))
          | inr (inr (ne, ne', st)) ↦ elim (stage-cases t.phase) [
            | inl (e, tt') ↦ rw (st, tt') confirm
            | inr (inl (e, tt')) ↦
                absurd (p.open_end (ap (λ (x : PvMigrationStatus). x.phase) et ∙ e))
            | inr (inr (n, n', tt')) ↦ rw (st, tt') work_on
          ]
        ]
    of_step {s = s} {t = t} (by_cleanup m m' es et ready p) =
        let from_ready : stage_of s.phase ≡ ready_stage =
          ap (λ (x : PvMigrationStatus). stage_of x.phase) (sym es)
          ∙ ap stage_of ready
          ∙ ready_is in
        elim p.phase [
          | inl still ↦
              let to_ready : stage_of t.phase ≡ ready_stage =
                ap (λ (x : PvMigrationStatus). stage_of x.phase) (sym et)
                ∙ ap stage_of still
                ∙ ready_is in
              rw (from_ready, to_ready) mark
          | inr (over, gone) ↦
              let to_end : stage_of t.phase ≡ completed_stage =
                ap (λ (x : PvMigrationStatus). stage_of x.phase) (sym et)
                ∙ ap stage_of over
                ∙ completed_is in
              rw (from_ready, to_end) complete
        ]
