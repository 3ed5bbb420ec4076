-- ===== src/Tests/Discoveries.antt =====
-- The discovery controller at a StatefulSet that has opted in, with nothing and with all in place.
use karmada_with_pvmigration.Prelude.{
  ◌≡◌, refl, false, none, [], ◌∷◌, found, failed, not_found, ok, inr,
}
use karmada_with_pvmigration.Prelude.Int.{pos}
use karmada_with_pvmigration.Api.{PvMetadata}
use karmada_with_pvmigration.Api.Core.{StatefulSet, label}
use karmada_with_pvmigration.Machinery.{
  Unstructured, Value, text, object, end, field, index, text_or_empty,
}
use karmada_with_pvmigration.Management.Naming.{opt_in_label, stable_name}
use karmada_with_pvmigration.Management.Binding.Gates.{Reads}
use karmada_with_pvmigration.Management.Server.Intervals.{IsRepeated}
use karmada_with_pvmigration.Management.Server.{Server, go, halt, writes_of}
use karmada_with_pvmigration.Management.Discovery.{
  interval_or_default, is_ignored, listed_clusters, new_metadata, new_policy, discover,
  metadata_name, reconcile,
}
use karmada_with_pvmigration.Management.Discovery.Allowed.{IsDiscovery}
use karmada_with_pvmigration.Management.Discovery.Safe.{discover-IsDiscovery}
use karmada_with_pvmigration.Management.Discovery.Settled.{InPlace, IsSettled, discover_settled}
use karmada_with_pvmigration.Management.Discovery.Created.{discover-new_policy}
use karmada_with_pvmigration.Management.Discovery.Repeated.{discover_repeats}
use karmada_with_pvmigration.Tests.Machines.{machine, machine-ReadsPolicies}
use karmada_with_pvmigration.Tests.Objects.{meta_of, web}
use karmada_with_pvmigration.Tests.Bindings.{binding, reads}

abbrev opted_in : StatefulSet
opted_in = record web {
  meta = record (meta_of "apps" "web" "sts-1") { labels = (opt_in_label, "enabled") ∷ [] };
}

abbrev opted_reads : Reads
opted_reads = record reads { get_stateful_set = λ namespace name. found opted_in }

-- The metadata as it is made, with a UID of the server.
abbrev made : PvMetadata
made =
    let md = new_metadata opted_in "aws" (stable_name machine "pvm" ("sts-1" ∷ "aws" ∷ [])) in
    record md { meta = record (md.meta) { uid = "md-1" } }

abbrev made_policy : Unstructured
made_policy = new_policy opted_in "aws" (stable_name machine "pvm" ("sts-1" ∷ "aws" ∷ [])) made

abbrev bare : Server
bare = record {
  get_migration = λ written namespace name. failed (not_found "no");
  get_metadata = λ written namespace name. failed (not_found "no");
  get_work = λ written namespace name. failed (not_found "no");
  get_policy = λ written namespace name. failed (not_found "no");
  reads = λ written. opted_reads;
  answer = λ written w. none;
}

abbrev complete : Server
complete = record bare {
  get_metadata = λ written namespace name. found made;
  get_policy = λ written namespace name. found made_policy;
}

discover-IsDiscovery_example :
    IsDiscovery machine bare "apps" "web-statefulset"
      (writes_of (reconcile machine bare (pos 15000000000) "apps" "web-statefulset"))
discover-IsDiscovery_example =
    discover-IsDiscovery machine bare (pos 15000000000) "apps" "web-statefulset"

abbrev entry : Value
entry = object (field "name" (text "aws") end)

in_place : InPlace machine complete opted_in "aws"
unfolding label new_policy machine
in_place = record {
  md = made;
  pp = made_policy;
  read = refl;
  source = refl;
  workload = refl;
  workload_uid = refl;
  manager = refl;
  read_policy = refl;
  owned = refl;
  placed = refl;
}

followed : is_ignored machine binding ≡ false
unfolding is_ignored machine
followed = refl

listed : listed_clusters machine binding ≡ ok (entry ∷ [])
unfolding listed_clusters machine
listed = refl

has_label : label opted_in.meta.labels opt_in_label ≡ "enabled"
unfolding label
has_label = refl

settled : IsSettled machine complete opted_in entry
unfolding index
settled = inr in_place

discover_settled_example :
    reconcile machine complete (pos 15000000000) "apps" "web-statefulset" []
    ≡ (halt (interval_or_default (pos 15000000000)) none, [])
discover_settled_example =
    discover_settled machine complete (pos 15000000000) "apps" "web-statefulset" binding opted_in
      (entry ∷ []) refl followed refl has_label listed (settled, tt)

is_set :
    text_or_empty (machine.nested_string binding.spec ("resource" ∷ "kind" ∷ [])) ≡ "StatefulSet"
unfolding machine
is_set = refl

is_apps :
    text_or_empty (machine.nested_string binding.spec ("resource" ∷ "apiVersion" ∷ [])) ≡ "apps/v1"
unfolding machine
is_apps = refl

discover_repeats_example :
    IsRepeated 30000000000
      (pos 15000000000)
      (reconcile machine bare (pos 15000000000) "apps" "web-statefulset" []).0
discover_repeats_example =
    discover_repeats machine bare (pos 15000000000) "apps" "web-statefulset" binding refl is_set
      is_apps refl

discover-new_policy_example :
    discover machine complete 15 opted_in "aws"
      (metadata_name machine complete 15 opted_in "aws")
      []
    ≡ (go tt, [])
discover-new_policy_example =
    discover-new_policy machine complete 15 opted_in "aws" "md-1" 0 machine-ReadsPolicies refl refl
