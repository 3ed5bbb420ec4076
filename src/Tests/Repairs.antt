-- ===== src/Tests/Repairs.antt =====
-- The routing check at a Work that was made without routing annotations.
use karmada_with_pvmigration.Prelude.{false, [], ◌∷◌}
use karmada_with_pvmigration.Api.{PvMigration, WorkReference}
use karmada_with_pvmigration.Machinery.{
  Unstructured, Fields, text, slice, object, end, field, of_elements,
}
use karmada_with_pvmigration.Management.Naming.{owner_label, managed_label, manager_name, named}
use karmada_with_pvmigration.Tests.Objects.{migration}

abbrev metadata_of : Fields → Fields
metadata_of annotations = field "metadata" (object (field "name" (text "pvm") annotations)) end

abbrev routing : Fields
routing =
    field "annotations"
      (object (
        field "work.karmada.io/name" (text "pvm")
          (field "work.karmada.io/namespace" (text "karmada-es-gcp") end)))
      end

abbrev work_of : Fields → Unstructured
work_of manifest = record {
  kind = "Work";
  owners = [];
  meta = record (named "karmada-es-gcp" "pvm") {
    uid = "w-1";
    generation = 1;
    labels = (owner_label, "mig-1") ∷ (managed_label, manager_name) ∷ [];
  };
  spec = object (
      field "workload" (object (field "manifests" (slice (of_elements (object manifest ∷ []))) end))
        end);
  status = object end;
}

abbrev legacy_work : Unstructured
legacy_work = work_of (metadata_of end)

abbrev routed_work : Unstructured
routed_work = work_of (metadata_of routing)

abbrev recorded_work : WorkReference
recorded_work = record {
  pv_uid = "";
  pvc_uid = "";
  standalone = false;
  routing_work_uid = "";
  routing_generation = 0;
  name = "pvm";
  namespace = "karmada-es-gcp";
  applied = false;
  detached = false;
}

abbrev recorded_migration : PvMigration
recorded_migration = record migration {
  status = record (migration.status) { works = recorded_work ∷ [] };
}
