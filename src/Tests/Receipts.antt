-- ===== src/Tests/Receipts.antt =====
-- The evidence for a pair of Works: a volume and its claim, bound to each other on the member.
use karmada_with_pvmigration.Prelude.{
  String, ◌≡◌, refl, true, false, not, ◌&&◌, ◌||◌, some, [], ◌∷◌, any,
}
use karmada_with_pvmigration.Prelude.Int.{pos}
use karmada_with_pvmigration.Api.{WorkReference}
use karmada_with_pvmigration.Api.Core.{label}
use karmada_with_pvmigration.Machinery.{
  Unstructured, Value, Fields, null, number, text, slice, object, end, field, of_elements, index,
}
use karmada_with_pvmigration.Management.Naming.{owner_label, standalone_pair_label, named}
use karmada_with_pvmigration.Management.Applied.Receipt.{
  same_identifier, same_nfs, bound_for, volume_receipt, claim_receipt, kind_receipt, is_receipt,
  standalone_work, standalone_status,
}
use karmada_with_pvmigration.Management.Applied.Pair.{
  find_kind, index_objects, index_reflections, reciprocal, paired_work_applied,
}
use karmada_with_pvmigration.Management.Applied.Evidence.{
  conditions_applied, work_applied, split_pair_applied, standalone_receipt_matches,
}
use karmada_with_pvmigration.Management.Applied.Conditions.{
  applied_entry, stale_entry, conditions_applied_iff,
}
use karmada_with_pvmigration.Management.Applied.Receipts.{IsReceipt, standalone_status-IsReceipt}
use karmada_with_pvmigration.Management.Applied.Reciprocal.{
  IsReciprocal, split_pair_applied-IsReciprocal,
}
use karmada_with_pvmigration.Management.Applied.Matches.{split_pair_applied-matches}
use karmada_with_pvmigration.Tests.Machines.{machine, machine-ReadsFields}

abbrev text_field : String → String → Fields → Fields
text_field key value rest = field key (text value) rest

abbrev nfs_source : Value
nfs_source = object (text_field "server" "10.0.0.1" (text_field "path" "/data" end))

abbrev identifier : String → String → String → Value
identifier kind name namespace = object (
    text_field "group" "" (
      text_field "version" "v1"
        (text_field "kind" kind (text_field "name" name (text_field "namespace" namespace end)))))

abbrev reflected : String → Fields → Fields
reflected uid rest =
    text_field "uid" uid (text_field "phase" "Bound" (text_field "migrationUID" "mig-1" rest))

abbrev volume_object : Fields
volume_object = text_field "apiVersion" "v1" (
    text_field "kind" "PersistentVolume" (
      field "metadata" (object (text_field "name" "pvm" end)) (
        field "spec"
          (object (
            field "claimRef"
              (object (text_field "name" "shared" (text_field "namespace" "apps" end)))
              (field "nfs" nfs_source end)))
          end)))

abbrev claim_object : Fields
claim_object = text_field "apiVersion" "v1" (
    text_field "kind" "PersistentVolumeClaim" (
      field "metadata" (object (text_field "name" "shared" (text_field "namespace" "apps" end)))
        (field "spec" (object (text_field "volumeName" "pvm" end)) end)))

abbrev volume_reflection : Fields
volume_reflection = field "identifier" (identifier "PersistentVolume" "pvm" "") (
    field "status"
      (object (
        reflected "pv-9" (
          field "claimRef"
            (object (
              text_field "name" "shared"
                (text_field "namespace" "apps" (text_field "uid" "pvc-9" end))))
            (field "nfs" nfs_source end))))
      end)

abbrev claim_reflection : Fields
claim_reflection =
    field "identifier" (identifier "PersistentVolumeClaim" "shared" "apps")
      (field "status" (object (reflected "pvc-9" (text_field "volumeName" "pvm" end))) end)

abbrev applied_condition : Value
applied_condition = object (
    text_field "type" "Applied"
      (text_field "status" "True" (field "observedGeneration" (number (pos 1)) end)))

-- A Work of the pair, from its manifest and the reflection of it.
abbrev work : String → Fields → Fields → Unstructured
work name manifest reflection = record {
  kind = "Work";
  owners = [];
  meta = record (named "karmada-es-gcp" name) {
    generation = 1;
    labels = (owner_label, "mig-1") ∷ (standalone_pair_label, "pvm") ∷ [];
  };
  spec = object (
      field "workload" (object (field "manifests" (slice (of_elements (object manifest ∷ []))) end))
        end);
  status = object (
      field "conditions" (slice (of_elements (applied_condition ∷ [])))
        (field "manifestStatuses" (slice (of_elements (object reflection ∷ []))) end));
}

abbrev volume_work : Unstructured
volume_work = work "pvm" volume_object volume_reflection

abbrev claim_work : Unstructured
claim_work = work "pvm-pvc" claim_object claim_reflection

accepted_pair :
    split_pair_applied machine (some volume_work) (some claim_work) ≡ some ("pv-9", "pvc-9")
unfolding split_pair_applied work_applied conditions_applied standalone_work standalone_status
    is_receipt kind_receipt volume_receipt claim_receipt same_identifier same_nfs bound_for
    paired_work_applied index_objects index_reflections find_kind reciprocal machine index label
accepted_pair = refl

conditions_applied_iff_example :
    conditions_applied machine 2 (applied_condition ∷ null ∷ []) false ≡ (
      (false || any (applied_entry machine) (applied_condition ∷ null ∷ []))
      && not (any (stale_entry machine 2) (applied_condition ∷ null ∷ [])))
conditions_applied_iff_example =
    conditions_applied_iff machine 2 (applied_condition ∷ null ∷ []) false

abbrev claim_status : Fields
claim_status = reflected "pvc-9" (text_field "volumeName" "pvm" end)

claim_read : standalone_status machine claim_work ≡ some claim_status
unfolding standalone_status is_receipt kind_receipt claim_receipt same_identifier bound_for machine
    index label
claim_read = refl

standalone_status-IsReceipt_example : IsReceipt machine claim_work claim_status
standalone_status-IsReceipt_example =
    standalone_status-IsReceipt machine claim_work claim_status claim_read

pair_named : volume_work.meta.name ≡ label volume_work.meta.labels standalone_pair_label
unfolding label
pair_named = refl

split_pair_applied-IsReciprocal_example : IsReciprocal machine volume_work claim_work "pv-9" "pvc-9"
split_pair_applied-IsReciprocal_example =
    split_pair_applied-IsReciprocal machine volume_work claim_work "pv-9" "pvc-9" pair_named
      accepted_pair

abbrev reference : WorkReference
reference = record {
  pv_uid = "pv-9";
  pvc_uid = "pvc-9";
  standalone = true;
  routing_work_uid = "";
  routing_generation = 0;
  name = "pvm";
  namespace = "karmada-es-gcp";
  applied = true;
  detached = false;
}

split_pair_applied-matches_example :
    (standalone_receipt_matches machine volume_work reference ≡ true)
    × (standalone_receipt_matches machine claim_work reference ≡ true)
split_pair_applied-matches_example =
    split_pair_applied-matches machine machine-ReadsFields volume_work claim_work reference
      pair_named accepted_pair
