-- ===== src/Tests/Bindings.antt =====
-- `validateBinding` at a request that passes, and two requests for one claim.
use karmada_with_pvmigration.Prelude.{
  String, ◌≡◌, refl, ◌≢◌, true, false, not, ◌&&◌, ◌||◌, [], ◌∷◌, arith, ◌==◌, eq_iff, is_some, ltb,
  eqb, text_ltb, put, without, decimal, ok, found, failed, not_found,
}
use karmada_with_pvmigration.Prelude.Int.{print_ℤ}
use karmada_with_pvmigration.Api.{PvMigration}
use karmada_with_pvmigration.Api.Core.{label}
use karmada_with_pvmigration.Machinery.{
  Unstructured, null, truth, text, slice, object, end, field, nil, cons, index,
}
use karmada_with_pvmigration.VolumeClaims.{standalone, pvc_name_of, claim_of}
use karmada_with_pvmigration.VolumeClaims.Sorting.{sort}
use karmada_with_pvmigration.Management.Naming.{valid_ordinal_pvc, trim_prefix}
use karmada_with_pvmigration.Management.Binding.Reserved.{
  is_reserved, is_older, blocking_claim, check_peers,
}
use karmada_with_pvmigration.Management.Binding.Reserved.Winner.{
  overlaps, blocking_claim_iff, one_winner,
}
use karmada_with_pvmigration.Management.Binding.Targets.{
  mark_standalone, marked, add_template, template_of, check_generated, check_targets,
  check_ordinals,
}
use karmada_with_pvmigration.Management.Binding.Gates.{
  Reads, selects, check_clusters, check_request, check_resource, check_workload, check_placement,
  validate_binding,
}
use karmada_with_pvmigration.Management.Binding.Sound.{Gates, validate_binding-Gates}
use karmada_with_pvmigration.Tests.Machines.{machine}
use karmada_with_pvmigration.Tests.Objects.{meta_of, web, metadata, migration}

abbrev pub binding : Unstructured
binding = record {
  kind = "ResourceBinding";
  owners = [];
  meta = meta_of "apps" "web-statefulset" "rb-1";
  spec = object (
      field "resource"
        (object (
          field "kind" (text "StatefulSet")
            (field "apiVersion" (text "apps/v1") (field "name" (text "web") end))))
        (field "suspension" (object (field "dispatching" (truth true) end))
          (field "clusters" (slice (cons (object (field "name" (text "aws") end)) nil)) end)));
  status = null;
}

-- A second request, of the same time.
abbrev pub rival : PvMigration
rival = record migration { meta = meta_of "apps" "move-again" "mig-2" }

abbrev pub reads : Reads
reads = record {
  get_binding = λ namespace name. found binding;
  get_stateful_set = λ namespace name. found web;
  list_migrations = λ namespace. found (migration ∷ rival ∷ []);
  get_restore_request = λ namespace name. failed (not_found "no");
}

peers_pass : check_peers migration (migration ∷ rival ∷ []) ≡ ok tt
unfolding check_peers blocking_claim is_reserved is_older
peers_pass = refl

pub accepted : validate_binding machine reads migration metadata ≡ ok tt
unfolding validate_binding check_request check_resource check_workload check_placement
    check_clusters selects index check_peers blocking_claim is_reserved is_older check_targets
    check_ordinals check_generated template_of add_template marked mark_standalone valid_ordinal_pvc
    trim_prefix standalone sort without put decimal print_ℤ pvc_name_of claim_of label machine
accepted = refl

validate_binding-Gates_example : Gates machine reads migration metadata
validate_binding-Gates_example = validate_binding-Gates machine reads migration metadata accepted

blocking_claim_iff_example : is_some (blocking_claim migration rival) ≡ (
    (not ("mig-1" == "mig-2") && "gcp" == "gcp")
    && ((is_reserved migration || is_older migration rival)
        && overlaps migration.spec.volumes rival.spec.volumes))
blocking_claim_iff_example = blocking_claim_iff migration rival

different : ◌≢◌ {A = String} "mig-1" "mig-2"
different = ground (arith, eq_iff "mig-1" "mig-2")

unreserved : (is_reserved migration ≡ false) × (is_reserved rival ≡ false)
unfolding is_reserved
unreserved = (refl, refl)

one_winner_example :
    (is_some (blocking_claim migration rival) ≡ (ltb 0 0 || (eqb 0 0 && text_ltb "mig-1" "mig-2")))
    × (is_some (blocking_claim migration rival) ≡ not (is_some (blocking_claim rival migration)))
one_winner_example = one_winner migration rival different refl unreserved.0 unreserved.1 refl
