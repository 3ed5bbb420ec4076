-- ===== src/Member.antt =====
-- internal/member/pvsync_controller.go: the controller of one member cluster, which collects the PVC
-- and PV of each claim of a StatefulSet into the status of a PVMetadata.
-- The client of controller-runtime is a parameter: its answers to the reads of one pass, by key.
pub mod Collected
pub mod Names
pub mod Passes
use karmada_with_pvmigration.Prelude.{
  is_empty, ℕ, suc, String, Bool, true, false, not, ◌&&◌, ◌||◌, Option, none, some, List, [], ◌∷◌,
  ◌++◌, ◌==◌, ◌<>◌, contains, put, Result, ok, err, Reply, found, failed, ApiError, not_found,
  already_exists, other, error_text, ◌>>=◌, ◌>>◌, reject, fetched, if◌then◌else◌,
}
use karmada_with_pvmigration.Prelude.Int.{ℤ, pos, pos_part, leb_ℤ, ◌+ℤ◌, wrap32, rounds, count_up}
use mathlib.Core.Logic.{ite}
use karmada_with_pvmigration.Api.Equality.{PvMetadataStatus-discrete}
use karmada_with_pvmigration.Api.{VolumeMetadata, PvMetadata, PvMetadataStatus}
use karmada_with_pvmigration.Api.Core.{
  StatefulSet, PersistentVolume, PersistentVolumeClaim, ObjectReference,
}
use karmada_with_pvmigration.VolumeClaims.{standalone, replicas_of, start_of, pvc_name_of}

-- `client.Client` in one pass: each read is by namespace and name, or by name. `now` is `time.Now()`,
-- in nanoseconds.
pub record Client : Type 0 where
  pub get_metadata : String → String → Reply PvMetadata
  pub get_stateful_set : String → String → Reply StatefulSet
  pub get_pvc : String → String → Reply PersistentVolumeClaim
  pub get_pv : String → Reply PersistentVolume
  pub now : ℕ

pub record Observation : Type 0 where
  pub workload_uid : String
  pub volumes : List VolumeMetadata
  pub collected_at : Option ℕ

-- `namespace/name` in the messages.
abbrev pub qualified : String → String → String
qualified namespace name = namespace <> "/" <> name

-- The tests on the PVC.
unfoldable pub check_pvc : PersistentVolumeClaim → String → Result (Unit {0})
check_pvc pvc key = do
  reject (pvc.meta.uid == "") ("pvc " <> key <> " has empty uid")
  reject pvc.meta.deleting ("pvc " <> key <> " is deleting")
  reject (not (pvc.phase == "Bound")) ("pvc " <> key <> " is not bound")
  reject (pvc.spec.volume_name == "") ("pvc " <> key <> " is not bound to a pv")

-- The claim reference of a PV, if it names this PVC in name, namespace and UID.
unfoldable pub check_claim_ref :
    PersistentVolume → PersistentVolumeClaim → Option ObjectReference → Result (Unit {0})
check_claim_ref pv pvc none = err ("pv " <> pv.meta.name <> " has no claimRef")
check_claim_ref pv pvc (some ref) =
    reject
      (not (ref.name == pvc.meta.name)
        || not (ref.namespace == pvc.meta.namespace)
        || not (ref.uid == pvc.meta.uid))
      ("pv "
        <> pv.meta.name
        <> " claimRef does not match pvc "
        <> qualified pvc.meta.namespace pvc.meta.name)

-- The tests on the PV.
unfoldable pub check_pv : PersistentVolume → PersistentVolumeClaim → Result (Unit {0})
unfolding check_claim_ref
check_pv pv pvc = do
  reject (not (pv.phase == "Bound")) ("pv " <> pv.meta.name <> " is not bound")
  reject pv.meta.deleting ("pv " <> pv.meta.name <> " is deleting")
  check_claim_ref pv pvc pv.spec.claim_ref

-- The record of a checked pair. Without a template name it is a standalone claim.
unfoldable pub volume_of : PersistentVolume → PersistentVolumeClaim → String → ℤ → VolumeMetadata
volume_of pv pvc template ordinal = record {
  standalone = template == "";
  pvc_spec = if template == "" then some pvc.spec else none;
  pvc_name = pvc.meta.name;
  pvc_uid = pvc.meta.uid;
  template_name = template;
  ordinal = ordinal;
  pv_name = pv.meta.name;
  pv_spec = pv.spec;
}

-- The ordinals of the loop: the bound `startOrdinal+replicas` is an int32 sum.
unfoldable pub ordinals_of : StatefulSet → List ℤ
ordinals_of sts =
    count_up (start_of sts) (rounds (start_of sts) (wrap32 (start_of sts +ℤ replicas_of sts)))

module _ (c : Client) where
  unfoldable pub collect_volume : String → String → ℤ → String → Result VolumeMetadata
  collect_volume namespace template ordinal pvc_name = do
    let key = qualified namespace pvc_name
    pvc ←
        fetched (c.get_pvc namespace pvc_name) ("pvc " <> key <> " not found")
          ("get pvc " <> key <> ": ")
    check_pvc pvc key
    pv ←
        fetched (c.get_pv pvc.spec.volume_name)
          ("pv " <> pvc.spec.volume_name <> " bound by pvc " <> key <> " not found")
          ("get pv " <> pvc.spec.volume_name <> ": ")
    check_pv pv pvc
    ok (volume_of pv pvc template ordinal)

  -- `for ordinal := startOrdinal; ordinal < startOrdinal+replicas; ordinal++` with `volumes` and `seen`
  unfoldable pub collect_ordinals :
      String
      → String
      → String
      → List ℤ
      → List VolumeMetadata
      → List String
      → Result (List VolumeMetadata × List String)
  collect_ordinals namespace sts template [] volumes seen = ok (volumes, seen)
  collect_ordinals namespace sts template (o ∷ os) volumes seen = do
    volume ← collect_volume namespace template o (pvc_name_of template sts o)
    collect_ordinals namespace sts template os (volumes ++ volume ∷ [])
        (put (pvc_name_of template sts o) seen)

  unfoldable pub collect_templates :
      String
      → String
      → List String
      → List ℤ
      → List VolumeMetadata
      → List String
      → Result (List VolumeMetadata × List String)
  collect_templates namespace sts [] os volumes seen = ok (volumes, seen)
  collect_templates namespace sts (t ∷ ts) os volumes seen = do
    reject (t == "")
        ("statefulset " <> qualified namespace sts <> " has a volumeClaimTemplate without a name")
    (volumes', seen') ← collect_ordinals namespace sts t os volumes seen
    collect_templates namespace sts ts os volumes' seen'

  unfoldable pub collect_standalone :
      String → List String → List VolumeMetadata → List String → Result (List VolumeMetadata)
  collect_standalone namespace [] volumes seen = ok volumes
  collect_standalone namespace (name ∷ names) volumes seen =
      if contains seen name then collect_standalone namespace names volumes seen else (do
        volume ← collect_volume namespace "" (pos 0) name
        collect_standalone namespace names (volumes ++ volume ∷ []) (put name seen))

  -- All claims of a StatefulSet, once it is read.
  unfoldable pub collect_sts : StatefulSet → Result Observation
  collect_sts sts = do
    let key = qualified sts.meta.namespace sts.meta.name
    reject (leb_ℤ (replicas_of sts) (pos 0)) ("statefulset " <> key <> " has zero replicas")
    reject (is_empty sts.templates && is_empty (standalone sts))
        ("statefulset " <> key <> " has no PVC references")
    (volumes, seen) ←
        collect_templates sts.meta.namespace sts.meta.name sts.templates (ordinals_of sts) [] []
    all ← collect_standalone sts.meta.namespace (standalone sts) volumes seen
    ok (record { workload_uid = sts.meta.uid; volumes = all; collected_at = some c.now })

  unfoldable pub collect : PvMetadata → Result Observation
  unfolding collect_sts
  collect md = do
    let key = qualified md.meta.namespace md.spec.workload_ref.name
    reject (md.spec.workload_ref.name == "") "workloadRef.name is required"
    sts ←
        fetched (c.get_stateful_set md.meta.namespace md.spec.workload_ref.name)
          ("statefulset " <> key <> " not found") ("get statefulset " <> key <> ": ")
    collect_sts sts

unfoldable pub successful_status : PvMetadataStatus → PvMetadata → Observation → PvMetadataStatus
successful_status current md observed = record current {
  observed_generation = md.meta.generation;
  ready = true;
  message = "collected";
  collected_at = observed.collected_at;
  workload_uid = observed.workload_uid;
  volumes = observed.volumes;
}

unfoldable pub failed_status : PvMetadataStatus → String → PvMetadataStatus
failed_status current message = record current { ready = false; message = message }

-- What one pass does: at most one patch of the status, from the object read to the new status, and
-- the interval after which the pass is repeated (0 is no repetition).
pub record Pass : Type 0 where
  pub patch : Option PvMetadataStatus
  pub requeue_after : ℕ
  pub error : Option ApiError

abbrev pub done : Pass
done = record { patch = none; requeue_after = 0; error = none }

-- `PVSyncReconciler`; an interval is a number of nanoseconds. One minute is used where it is
-- not positive.
pub record Reconciler : Type 0 where
  pub cluster_name : String
  pub poll_interval : ℤ

unfoldable pub interval : Reconciler → ℕ
interval r = if leb_ℤ r.poll_interval (pos 0) then 60000000000 else pos_part r.poll_interval

-- The status that a pass arrives at, from the outcome of the collection.
unfoldable pub status_after : PvMetadata → Result Observation → PvMetadataStatus
unfolding successful_status failed_status
status_after md (err e) = failed_status md.status e
status_after md (ok observed) = successful_status md.status md observed

abbrev pub next_status : Client → PvMetadata → PvMetadataStatus
next_status c md = status_after md (collect c md)

-- `patched` is the answer of the API server to the patch: an error, or none.
module _ (patched : PvMetadataStatus → Option ApiError) where
  -- The patch, where `reflect.DeepEqual` tells the two apart, and its error.
  unfoldable pub write_status : Reconciler → PvMetadataStatus → PvMetadataStatus → Pass
  unfolding interval
  write_status r old next =
      ite (PvMetadataStatus-discrete old next)
        (record { patch = none; requeue_after = interval r; error = none })
        (elim (patched next) [
          | some e ↦ record { patch = some next; requeue_after = 0; error = some e }
          | none ↦ record { patch = some next; requeue_after = interval r; error = none }
        ])

  unfoldable pub reconcile : Client → Reconciler → String → String → Pass
  reconcile c r namespace name = elim (c.get_metadata namespace name) [
    | failed (not_found e) ↦ done
    | failed (already_exists e) ↦ record {
      patch = none;
      requeue_after = 0;
      error = some (already_exists e);
    }
    | failed (other e) ↦ record { patch = none; requeue_after = 0; error = some (other e) }
    | found md ↦
        if not (md.spec.source_cluster == r.cluster_name)
        then done
        else write_status r md.status (next_status c md)
  ]
