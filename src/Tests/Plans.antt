-- ===== src/Tests/Plans.antt =====
-- `BuildWorks` at a request with one generated and one standalone claim.
use karmada_with_pvmigration.Prelude.{
  String, ◌≡◌, refl, List, [], ◌∷◌, put, decimal, Result, ok, err, some, false,
}
use karmada_with_pvmigration.Api.{ClusterSnapshot, PvMetadataStatus}
use karmada_with_pvmigration.Machinery.{Unstructured, delete_key}
use karmada_with_pvmigration.VolumeClaims.Sorting.{IsDistinct}
use karmada_with_pvmigration.Management.Naming.{
  encode_parts, stable_name, valid_ordinal_pvc, trim_prefix,
}
use karmada_with_pvmigration.Management.Claims.{check_claim, rebuilt_claim, standalone_claim}
use karmada_with_pvmigration.Management.Works.Snapshot.{
  find_snapshot, current_snapshot, find_volume, index_volumes,
}
use karmada_with_pvmigration.Management.Works.Source.{
  prior_ordinal, check_lane, source_spec, rebuilt_volume,
}
use karmada_with_pvmigration.Management.Works.Manifests.{
  set_work_routing, make_work, claim_manifests, claim_works, mapping_works,
}
use karmada_with_pvmigration.Management.Works.Plan.{plan_mapping, plan_mappings, build_works}
use karmada_with_pvmigration.Management.Hash.{plan_hash}
use karmada_with_pvmigration.Management.Hash.Stable.{IsRepolled, build_works-AreRepolled}
use karmada_with_pvmigration.Management.Works.Sound.{build_works-one_to_one}
use karmada_with_pvmigration.Tests.Machines.{machine}
use karmada_with_pvmigration.Tests.Objects.{metadata, migration, snapshot, empty_status}

unfoldable pub works_of : Result (List Unstructured) → List Unstructured
works_of (ok ws) = ws
works_of (err e) = []

unfoldable pub plan_run : Result (List Unstructured)
unfolding build_works plan_mappings plan_mapping mapping_works claim_works claim_manifests make_work
    set_work_routing rebuilt_volume source_spec check_lane prior_ordinal index_volumes find_volume
    current_snapshot find_snapshot standalone_claim rebuilt_claim check_claim trim_prefix
    valid_ordinal_pvc stable_name encode_parts decimal put delete_key machine
plan_run = build_works machine migration metadata

unfoldable pub planned : List Unstructured
unfolding plan_run works_of
planned = works_of plan_run

pub built : build_works machine migration metadata ≡ ok planned
unfolding planned
built = refl

names_of : List Unstructured → List String
names_of [] = []
names_of (w ∷ ws) = w.meta.name ∷ names_of ws

-- One Work for the generated claim, two for the standalone one.
planned_names :
    names_of planned
    ≡ "pvm-5:sts-1;3:gcp;4:apps;10:" ∷ "pvm-5:sts-1;3:gcp;4:apps;6:s"
      ∷ "pvm-5:sts-1;3:gcp;4:apps;6:s-pvc" ∷ []
unfolding planned names_of
planned_names = refl

build_works-one_to_one_example :
    IsDistinct ("data-web-0" ∷ "shared" ∷ []) × IsDistinct ("data-web-0" ∷ "shared" ∷ [])
build_works-one_to_one_example = build_works-one_to_one machine migration metadata planned built

-- The metadata after the snapshot has been collected again, unready.
abbrev later_snapshot : ClusterSnapshot
later_snapshot = record snapshot { collected_at = some 9; ready = false; message = "offline" }

collected_again : IsRepolled snapshot later_snapshot
collected_again = record {
  before = 7;
  after = 9;
  ready = false;
  message = "offline";
  collected = refl;
  again = refl;
}

abbrev later_status : PvMetadataStatus
later_status = record empty_status { clusters = later_snapshot ∷ [] }

build_works-AreRepolled_example :
    (build_works machine migration (record metadata { status = later_status })
      ≡ build_works machine migration metadata)
    × ((works : List Unstructured)
        → plan_hash machine migration (record metadata { status = later_status }) works
          ≡ plan_hash machine migration metadata works)
build_works-AreRepolled_example =
    build_works-AreRepolled machine migration metadata later_status (collected_again, tt)
