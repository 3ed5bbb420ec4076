-- ===== src/Tests/Members.antt =====
-- The member controller and the standalone claims.
use karmada_with_pvmigration.Prelude.{
  String, ◌≡◌, refl, ap, ◌∙◌, ◌≢◌, eq_iff, ◌↔◌, not, ◌&&◌, Option, none, some, List, [], ◌∷◌, ◌++◌,
  ◌==◌, contains, put, without, decimal, arith, ApiError, ok, found, failed, not_found,
  if◌then◌else◌,
}
use karmada_with_pvmigration.Prelude.Int.{pos, count_up, rounds, wrap32, ◌+ℤ◌, print_ℤ}
use karmada_with_pvmigration.Api.{PvMetadata, PvMetadataStatus, VolumeMetadata}
use karmada_with_pvmigration.Api.Core.{StatefulSet, label}
use karmada_with_pvmigration.VolumeClaims.{standalone, generated_ordinals, pvc_name_of, claim_of}
use karmada_with_pvmigration.VolumeClaims.Sorting.{sort, IsSorted, IsDistinct}
use karmada_with_pvmigration.VolumeClaims.Laws.{
  contains-standalone, standalone-IsSorted, is_referenced, is_generated,
}
use karmada_with_pvmigration.Member.{
  Client, Observation, collect_volume, collect_ordinals, collect_templates, collect_standalone,
  collect_sts, collect, check_pvc, check_pv, volume_of, ordinals_of, next_status, status_after,
  reconcile, Reconciler,
}
use karmada_with_pvmigration.Member.Collected.{Evidence, collect_volume_iff}
use karmada_with_pvmigration.Member.Names.{
  names, generated_names, names-collect_sts, ordinals_of_overflow, AnswersByName,
}
use karmada_with_pvmigration.Member.Passes.{patch-reconcile, patch-write_status_ne}
use karmada_with_pvmigration.Tests.Objects.{web, pvc_of, pv_of, metadata}

contains-standalone_example :
    contains (standalone web) "shared"
    ≡ (is_referenced web "shared" && not (is_generated web "shared"))
contains-standalone_example = contains-standalone web "shared"

standalone-IsSorted_example : IsSorted (standalone web) × IsDistinct (standalone web)
standalone-IsSorted_example = standalone-IsSorted web

-- A client that answers every read.
abbrev all_found : Client
all_found = record {
  get_metadata = λ namespace name. found metadata;
  get_stateful_set = λ namespace name. found web;
  get_pvc = λ namespace name. found (pvc_of name "u");
  get_pv = λ name.
      if name == "pv-data-web-0"
      then found (pv_of "data-web-0" "u")
      else found (pv_of "shared" "u");
  now = 7;
}

all_found-AnswersByName : AnswersByName all_found
all_found-AnswersByName namespace name pvc h = cc

standalone_run : List String
unfolding standalone pvc_name_of claim_of print_ℤ label sort without put decimal
standalone_run = standalone web

standalone_names : standalone_run ≡ "shared" ∷ []
unfolding standalone_run
standalone_names = refl

abbrev volume : VolumeMetadata
volume = volume_of (pv_of "shared" "u") (pvc_of "shared" "u") "" (pos 0)

collect_volume_iff_example :
    (collect_volume all_found "apps" "" (pos 0) "shared" ≡ ok volume)
    ↔ Evidence all_found "apps" "" (pos 0) "shared" volume
collect_volume_iff_example = collect_volume_iff all_found "apps" "" (pos 0) "shared" volume

abbrev observation : Observation
observation = record {
  workload_uid = "sts-1";
  volumes =
      volume_of (pv_of "data-web-0" "u") (pvc_of "data-web-0" "u") "data" (pos 0) ∷ volume ∷ [];
  collected_at = some 7;
}

collected : collect_sts all_found web ≡ ok observation
unfolding standalone_run collect_sts collect_templates collect_ordinals collect_standalone
    collect_volume check_pvc check_pv ordinals_of count_up rounds wrap32 ◌+ℤ◌
collected = refl

names-collect_sts_example :
    names observation.volumes
    ≡ generated_names web.templates "web" (generated_ordinals web) ++ standalone web
names-collect_sts_example =
    names-collect_sts all_found web 0 1 observation all_found-AnswersByName refl refl (omega arith)
      collected

-- Ordinals at the end of the int32 range.
abbrev late : StatefulSet
late = record web { start = some (pos 2147483647) }

ordinals_of_overflow_example :
    (ordinals_of late ≡ []) × (generated_ordinals late ≡ count_up (pos 2147483647) 1)
ordinals_of_overflow_example =
    ordinals_of_overflow late 2147483647 1 refl refl (omega arith) (omega arith) (omega arith)

abbrev reconciler : Reconciler
reconciler = record { cluster_name = "aws"; poll_interval = pos 15000000000 }

-- The StatefulSet is gone: the pass reports the failure.
abbrev gone : Client
gone = record all_found { get_stateful_set = λ namespace name. failed (not_found "no") }

abbrev accepts : PvMetadataStatus → Option ApiError
accepts s = none

failed_next :
    next_status gone metadata
    ≡ record metadata.status { message = "statefulset apps/web not found" }
unfolding status_after collect
failed_next = refl

status_changed : metadata.status ≢ next_status gone metadata
status_changed e = ground (
  arith,
  ap (λ (s : PvMetadataStatus). s.message) (e ∙ failed_next),
  eq_iff "" "statefulset apps/web not found",
)

patched_gone :
    (reconcile accepts gone reconciler "apps" "pvm-web").patch ≡ some (next_status gone metadata)
unfolding reconcile
patched_gone =
    patch-write_status_ne accepts reconciler "apps" "pvm-web" metadata.status
      (next_status gone metadata) status_changed

patch-reconcile_example :
    (md : PvMetadata) × (gone.get_metadata "apps" "pvm-web" ≡ found md)
    × (md.spec.source_cluster ≡ "aws")
    × (next_status gone metadata ≡ next_status gone md)
    × (md.status ≢ next_status gone metadata)
patch-reconcile_example =
    patch-reconcile accepts reconciler "apps" "pvm-web" gone (next_status gone metadata)
      patched_gone
