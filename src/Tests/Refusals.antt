-- ===== src/Tests/Refusals.antt =====
-- Passes that end without touching a Work, and the intervals after which passes are repeated.
use karmada_with_pvmigration.Prelude.{
  ◌≡◌, ◌≢◌, refl, inl, arith, eq_iff, String, [], ◌∷◌, false, ok, err, put, without, decimal,
}
use karmada_with_pvmigration.Prelude.Int.{pos, print_ℤ}
use karmada_with_pvmigration.Api.{PvMigration}
use karmada_with_pvmigration.Api.Core.{label}
use karmada_with_pvmigration.Machinery.{index}
use karmada_with_pvmigration.VolumeClaims.{standalone, pvc_name_of, claim_of}
use karmada_with_pvmigration.VolumeClaims.Sorting.{sort}
use karmada_with_pvmigration.Management.Naming.{valid_ordinal_pvc, trim_prefix}
use karmada_with_pvmigration.Management.Binding.Reserved.{
  is_reserved, is_older, blocking_claim, check_peers,
}
use karmada_with_pvmigration.Management.Binding.Targets.{
  mark_standalone, marked, add_template, template_of, check_generated, check_targets,
  check_ordinals,
}
use karmada_with_pvmigration.Management.Binding.Gates.{
  selects, check_clusters, check_request, check_resource, check_workload, check_placement,
  validate_binding,
}
use karmada_with_pvmigration.Management.Routing.Repair.{remove_work_routing}
use karmada_with_pvmigration.Management.Works.Plan.{build_works}
use karmada_with_pvmigration.Management.Hash.{plan_hash, work_parts}
use karmada_with_pvmigration.Management.Server.{writes_of}
use karmada_with_pvmigration.Management.Server.Intervals.{IsRepeated}
use karmada_with_pvmigration.Management.Migration.Pass.{is_over, reconcile}
use karmada_with_pvmigration.Management.Migration.Repeated.{reconcile_repeats}
use karmada_with_pvmigration.Management.Migration.Refused.{IsShown, refused_pass, changed_pass}
use karmada_with_pvmigration.Management.Cleanup.Pass.{reconcile as clean_up}
use karmada_with_pvmigration.Management.Cleanup.Repeated.{clean_up_repeats}
use karmada_with_pvmigration.Tests.Machines.{machine}
use karmada_with_pvmigration.Tests.Objects.{migration, metadata}
use karmada_with_pvmigration.Tests.Bindings.{reads}
use karmada_with_pvmigration.Tests.Plans.{planned, plan_run, works_of}
use karmada_with_pvmigration.Tests.Passes.{
  server_of, applied_work, ready_migration, planned_hash, ok_text,
}

not_completed : ◌≢◌ {A = String} "" "Completed"
not_completed = ground (arith, eq_iff "" "Completed")

not_ready : ◌≢◌ {A = String} "" "Ready"
not_ready = ground (arith, eq_iff "" "Ready")

reconcile_repeats_example :
    IsRepeated 10000000000
      (pos 15000000000)
      (reconcile machine (server_of migration) (pos 15000000000) "apps" "move" []).0
reconcile_repeats_example =
    reconcile_repeats machine (server_of migration) (pos 15000000000) "apps" "move" migration refl
      refl not_completed not_ready

clean_up_repeats_example :
    IsRepeated 10000000000
      (pos 15000000000)
      (clean_up machine (server_of ready_migration) (pos 15000000000) "apps" "move" []).0
clean_up_repeats_example =
    clean_up_repeats machine (server_of ready_migration) (pos 15000000000) "apps" "move"
      ready_migration refl refl refl

-- A migration whose source may still be written.
abbrev unfenced : PvMigration
unfenced = record migration { spec = record (migration.spec) { source_fenced = false } }

abbrev not_fenced : String
not_fenced = "sourceFenced must attest that the source workload can no longer write"

not_over : is_over unfenced ≡ false
unfolding is_over
not_over = refl

invalid : validate_binding machine reads unfenced metadata ≡ err not_fenced
unfolding validate_binding check_request
invalid = refl

refused_pass_example :
    IsShown unfenced "Pending" not_fenced
      (writes_of (reconcile machine (server_of unfenced) (pos 15000000000) "apps" "move"))
refused_pass_example =
    refused_pass machine (server_of unfenced) (pos 15000000000) "apps" "move" unfenced metadata refl
      not_over refl not_fenced (inl invalid)

-- A migration that is recorded with another plan.
abbrev outdated : PvMigration
outdated = record migration {
  status = record {
    observed_generation = 1;
    phase = "Preparing";
    message = "";
    plan_hash = "h";
    works = applied_work ∷ [];
  };
}

outdated_running : is_over outdated ≡ false
unfolding is_over
outdated_running = refl

other_hash : ◌≢◌ {A = String} "h" planned_hash
unfolding planned_hash ok_text plan_hash work_parts remove_work_routing planned plan_run works_of
    machine
other_hash = ground (arith, eq_iff "h" planned_hash)

has_plan : outdated.status.works ≢ []
has_plan e = cc

outdated_valid : validate_binding machine reads outdated metadata ≡ ok tt
unfolding validate_binding check_request check_resource check_workload check_placement
    check_clusters selects index check_peers blocking_claim is_reserved is_older check_targets
    check_ordinals check_generated template_of add_template marked mark_standalone valid_ordinal_pvc
    trim_prefix standalone sort without put decimal print_ℤ pvc_name_of claim_of label machine
outdated_valid = refl

outdated_built : build_works machine outdated metadata ≡ ok planned
unfolding planned plan_run works_of
outdated_built = refl

outdated_hashed : plan_hash machine outdated metadata planned ≡ ok planned_hash
unfolding planned_hash ok_text plan_hash work_parts remove_work_routing planned plan_run works_of
    machine
outdated_hashed = refl

changed_pass_example :
    IsShown outdated "Pending"
      "source snapshot identities/specs changed after planning; inspect existing Works before starting a new request"
      (writes_of (reconcile machine (server_of outdated) (pos 15000000000) "apps" "move"))
changed_pass_example =
    changed_pass machine (server_of outdated) (pos 15000000000) "apps" "move" outdated metadata refl
      outdated_running refl planned planned_hash outdated_valid outdated_built outdated_hashed
      has_plan other_hash
