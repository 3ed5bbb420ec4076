-- ===== src/Tests/Passes.antt =====
-- Passes of both controllers: one that records a plan, and one that finds its Works gone.
use karmada_with_pvmigration.Prelude.{
  sym, subst, String, ◌≡◌, ◌≢◌, ◌⊎◌, refl, inl, true, false, none, [], ◌∷◌, All, Result, ok, err,
  found, failed, not_found,
}
use karmada_with_pvmigration.Prelude.Int.{pos}
use karmada_with_pvmigration.Api.{PvMigration, WorkReference}
use karmada_with_pvmigration.Management.Hash.{plan_hash, work_parts}
use karmada_with_pvmigration.Management.Routing.Repair.{remove_work_routing}
use karmada_with_pvmigration.Management.Server.{Server, patch_status, writes_of}
use karmada_with_pvmigration.Management.Migration.Pass.{is_over, with_plan, reconcile}
use karmada_with_pvmigration.Management.Migration.Plans.{RecordsPlan, plan-written, first_pass}
use karmada_with_pvmigration.Management.Migration.Allowed.{IsAllowed}
use karmada_with_pvmigration.Management.Migration.Safe.{reconcile-IsAllowed}
use karmada_with_pvmigration.Management.Cleanup.Pass.{reconcile as clean_up}
use karmada_with_pvmigration.Management.Cleanup.Allowed.{IsAllowed as IsDetaching}
use karmada_with_pvmigration.Management.Cleanup.Safe.{clean_up-IsAllowed}
use karmada_with_pvmigration.Management.Cleanup.Completes.{IsGone, clean_up-completes}
use karmada_with_pvmigration.Management.Lifecycle.{Among, Step, migrates, cleans_up, here, next}
use karmada_with_pvmigration.Management.Lifecycle.Stages.{◌⟶◌, stage_of, Step-⟶}
use karmada_with_pvmigration.Management.Lifecycle.Sound.{IsNew, IsTrue, Steps-IsTrue}
use karmada_with_pvmigration.Management.Lifecycle.Durable.{IsDurable, Steps-IsDurable}
use karmada_with_pvmigration.Tests.Machines.{machine}
use karmada_with_pvmigration.Tests.Objects.{migration, metadata}
use karmada_with_pvmigration.Tests.Bindings.{reads, accepted}
use karmada_with_pvmigration.Tests.Plans.{planned, built, plan_run, works_of}

-- A server with one migration and no Works, which takes every write.
abbrev pub server_of : PvMigration → Server
server_of m = record {
  get_migration = λ written namespace name. found m;
  get_metadata = λ written namespace name. found metadata;
  get_work = λ written namespace name. failed (not_found "no");
  get_policy = λ written namespace name. failed (not_found "no");
  reads = λ written. reads;
  answer = λ written w. none;
}

unfoldable pub ok_text : Result String → String
ok_text (ok s) = s
ok_text (err e) = e

unfoldable pub planned_hash : String
unfolding ok_text
planned_hash = ok_text (plan_hash machine migration metadata planned)

hashed : plan_hash machine migration metadata planned ≡ ok planned_hash
unfolding planned_hash ok_text plan_hash work_parts remove_work_routing planned plan_run works_of
    machine
hashed = refl

abbrev with_planned : PvMigration
with_planned = with_plan migration planned_hash planned

pub running : is_over migration ≡ false
unfolding is_over
running = refl

plan_recorded :
    writes_of (reconcile machine (server_of migration) (pos 15000000000) "apps" "move")
    ≡ patch_status with_planned ∷ []
plan_recorded =
    plan-written machine (server_of migration) (pos 15000000000) migration metadata planned
      planned_hash "apps" "move" refl running refl accepted built hashed refl

first_pass_example :
    (m' : PvMigration) × RecordsPlan migration planned planned_hash m'
    × (writes_of (reconcile machine (server_of migration) (pos 15000000000) "apps" "move")
        ≡ patch_status m' ∷ [])
first_pass_example =
    first_pass machine (server_of migration) (pos 15000000000) migration metadata planned
      planned_hash "apps" "move" refl running refl accepted built hashed refl

reconcile-IsAllowed_example :
    (writes_of (reconcile machine (server_of migration) (pos 15000000000) "apps" "move") ≡ [])
    ⊎ ((m : PvMigration) × ((server_of migration).get_migration [] "apps" "move" ≡ found m)
        × (m.meta.deleting ≡ false)
        × (m.status.phase ≢ "Completed")
        × (m.status.phase ≢ "Ready")
        × All
            (IsAllowed machine (server_of migration) m)
            (writes_of (reconcile machine (server_of migration) (pos 15000000000) "apps" "move")))
reconcile-IsAllowed_example =
    reconcile-IsAllowed machine (server_of migration) (pos 15000000000) "apps" "move"

-- The plan is recorded in one step from the new migration.
planning : Step migration.status with_planned.status
planning =
    migrates machine (server_of migration) (pos 15000000000) "apps" "move" migration with_planned
      refl (subst (Among (patch_status with_planned)) (sym plan_recorded) (inl refl)) refl refl

IsNew-migration : IsNew migration.status
IsNew-migration = record { phase = refl; works = refl }

Step-⟶_example : stage_of migration.status.phase ⟶ stage_of with_planned.status.phase
Step-⟶_example = Step-⟶ planning

Steps-IsTrue_example : IsTrue with_planned.status
Steps-IsTrue_example = Steps-IsTrue IsNew-migration (next here planning)

-- A ready migration whose only Work is gone.
abbrev pub applied_work : WorkReference
applied_work = record {
  pv_uid = "";
  pvc_uid = "";
  standalone = false;
  routing_work_uid = "";
  routing_generation = 0;
  name = "pvm";
  namespace = "karmada-es-gcp";
  applied = true;
  detached = false;
}

abbrev pub ready_migration : PvMigration
ready_migration = record migration {
  status = record {
    observed_generation = 1;
    phase = "Ready";
    message = "";
    plan_hash = "h";
    works = applied_work ∷ [];
  };
}

has_works : ready_migration.status.works ≢ []
has_works e = cc

gone : IsGone (server_of ready_migration) "karmada-es-gcp" applied_work
unfolding IsGone
gone = (refl, refl, ("no", refl))

completion :
    (m' : PvMigration) × (writes_of
        (clean_up machine (server_of ready_migration) (pos 15000000000) "apps" "move")
      ≡ patch_status m' ∷ [])
    × (m'.status.phase ≡ "Completed")
completion =
    clean_up-completes machine (server_of ready_migration) (pos 15000000000) ready_migration "apps"
      "move" refl refl refl refl has_works (gone, tt)

clean_up-completes_example :
    (m' : PvMigration) × (writes_of
        (clean_up machine (server_of ready_migration) (pos 15000000000) "apps" "move")
      ≡ patch_status m' ∷ [])
    × (m'.status.phase ≡ "Completed")
clean_up-completes_example =
    clean_up-completes machine (server_of ready_migration) (pos 15000000000) ready_migration "apps"
      "move" refl refl refl refl has_works (gone, tt)

abbrev completed : PvMigration
completed = completion.0

cleaning : Step ready_migration.status completed.status
cleaning =
    cleans_up machine (server_of ready_migration) (pos 15000000000) "apps" "move" ready_migration
      completed refl (subst (Among (patch_status completed)) (sym completion.1) (inl refl)) refl
      refl

Steps-IsDurable_example : IsDurable ready_migration.status completed.status
Steps-IsDurable_example = Steps-IsDurable has_works (next here cleaning)

clean_up-IsAllowed_example :
    (writes_of (clean_up machine (server_of ready_migration) (pos 15000000000) "apps" "move") ≡ [])
    ⊎ ((m : PvMigration) × ((server_of ready_migration).get_migration [] "apps" "move" ≡ found m)
        × (m.meta.deleting ≡ false)
        × (m.status.phase ≡ "Ready")
        × All (IsDetaching machine (server_of ready_migration) m) (
            writes_of
              (clean_up machine (server_of ready_migration) (pos 15000000000) "apps" "move")))
clean_up-IsAllowed_example =
    clean_up-IsAllowed machine (server_of ready_migration) (pos 15000000000) "apps" "move"
