-- ===== src/Management/Works/Planned.antt =====
-- What a plan that `BuildWorks` returns rests on, mapping by mapping.
use karmada_with_pvmigration.Prelude.{
  is_empty, String, ◌≡◌, refl, sym, ◌≢◌, ◌⊎◌, inl, inr, true, false, not, Option, none, some, List,
  [], ◌∷◌, ◌++◌, arith, ◌<>◌, eq_iff, ok, >>=-eq-ok, reject, Bool-cases,
}
use karmada_with_pvmigration.Prelude.Int.{ℤ}
use karmada_with_pvmigration.Api.{PvMigration, PvMetadata, VolumeMetadata, VolumeMapping}
use karmada_with_pvmigration.Api.Core.{
  PersistentVolume, PersistentVolumeSpec, ObjectReference, NfsVolumeSource,
}
use karmada_with_pvmigration.Machinery.{
  Machinery, Unstructured, Fields, truth, slice, object, end, field, nil, cons, delete_key,
}
use karmada_with_pvmigration.Management.Naming.{valid_ordinal_pvc}
use karmada_with_pvmigration.Management.Works.Snapshot.{find_volume}
use karmada_with_pvmigration.Management.Works.Source.{
  check_lane, source_spec, portable_nfs, check_source_claim, rebuilt_spec, rebuilt_volume,
}
use karmada_with_pvmigration.Management.Works.Manifests.{
  set_work_routing, mapping_works, make_work, claim_works, claim_manifests, pv_name_of,
}

-- Shared NFS storage, with no other source and no tie to a node.
pub record IsPortable (spec : PersistentVolumeSpec) (nfs : NfsVolumeSource) : Type 0 where
  pub is_nfs : spec.nfs ≡ some nfs
  pub server : nfs.server ≢ ""
  pub path : nfs.path ≢ ""
  pub free : spec.node_affinity ≡ none
  pub alone : spec.other_sources ≡ []

-- The source volume is bound to the very claim that was recorded.
pub record IsBoundSource (m : PvMigration) (v : VolumeMetadata) (ref : ObjectReference)
    : Type 0 where
  pub claim_ref : v.pv_spec.claim_ref ≡ some ref
  pub namespace : ref.namespace ≡ m.meta.namespace
  pub name : ref.name ≡ v.pvc_name
  pub uid : ref.uid ≡ v.pvc_uid
  pub has_uid : v.pvc_uid ≢ ""

-- A standalone claim keeps its name; any other target is an ordinal of the source's claim template.
abbrev pub InLane : Machinery → PvMetadata → VolumeMapping → VolumeMetadata → Type 0
InLane k md mapping v =
    ((v.standalone ≡ true) × (v.template_name ≡ "") × (mapping.source_pvc ≡ mapping.target_pvc))
    ⊎ ((v.standalone ≡ false)
        × (v.template_name ≢ "")
        × (valid_ordinal_pvc k mapping.target_pvc
              (v.template_name <> "-" <> md.spec.workload_ref.name <> "-")
            ≡ true))

module _ (k : Machinery) (m : PvMigration) (md : PvMetadata) (volumes : List VolumeMetadata) where
  -- A mapping whose source volume may be rebuilt.
  pub record Plannable (mapping : VolumeMapping) (v : VolumeMetadata) (nfs : NfsVolumeSource)
      (ref : ObjectReference) : Type 0 where
    pub source : find_volume volumes mapping.source_pvc ≡ some v
    pub lane : InLane k md mapping v
    pub has_spec : v.standalone ≡ true → v.pvc_spec ≢ none
    pub portable : IsPortable v.pv_spec nfs
    pub bound : IsBoundSource m v ref

  -- The spec keeps what the source volume has but for these members: the NFS source is alone, the
  -- volume is retained, and it is reserved for the target claim, whatever the claim's UID.
  pub record IsRebuilt (mapping : VolumeMapping) (v : VolumeMetadata) (nfs : NfsVolumeSource)
      (spec : PersistentVolumeSpec) : Type 0 where
    pub source_alone : spec.nfs ≡ some nfs
    pub no_others : spec.other_sources ≡ []
    pub retained : spec.reclaim_policy ≡ "Retain"
    pub reserved :
        (ref : ObjectReference) × (spec.claim_ref ≡ some ref)
        × (ref.api_version ≡ "v1")
        × (ref.kind ≡ "PersistentVolumeClaim")
        × (ref.namespace ≡ m.meta.namespace)
        × (ref.name ≡ mapping.target_pvc)
        × (ref.uid ≡ "")
    pub storage : spec.storage ≡ v.pv_spec.storage
    pub access_modes : spec.access_modes ≡ v.pv_spec.access_modes
    pub volume_mode : spec.volume_mode ≡ v.pv_spec.volume_mode
    pub class : spec.storage_class_name ≡ v.pv_spec.storage_class_name
    pub mount_options : spec.mount_options ≡ v.pv_spec.mount_options
    pub node_affinity : spec.node_affinity ≡ none

  -- The first Work of a mapping, before its routing is set, holds one manifest: that of a volume with
  -- the rebuilt spec, without its status. It keeps its resources when it is deleted.
  pub record HoldsVolume (mapping : VolumeMapping) (v : VolumeMetadata) (nfs : NfsVolumeSource)
      (ws : List Unstructured) : Type 0 where
    pub pv : PersistentVolume
    pub rebuilt : IsRebuilt mapping v nfs pv.spec
    pub manifest : Fields
    pub converted : k.pv_to_unstructured pv ≡ ok manifest
    pub unrouted : Unstructured
    pub spec :
        unrouted.spec
        ≡ object (
            field "preserveResourcesOnDeletion" (truth true) (
              field "workload"
                (object (
                  field "manifests" (slice (cons (object (delete_key manifest "status")) nil)) end))
                end))
    pub first : Unstructured
    pub others : List Unstructured
    pub routed : set_work_routing k unrouted ≡ ok first
    pub works : ws ≡ first ∷ others

  -- The Works of a list of mappings: those of each mapping, of which the first holds the volume that is
  -- rebuilt from the source volume.
  pub data Planned : List VolumeMapping → List Unstructured → Type 0 where
    done : Planned [] []
    next :
        {mapping : VolumeMapping} {rest : List VolumeMapping} {ws wss : List Unstructured}
        (v : VolumeMetadata) (nfs : NfsVolumeSource) (ref : ObjectReference)
        → Plannable mapping v nfs ref
        → HoldsVolume mapping v nfs ws
        → mapping_works k m md mapping v (rebuilt_spec m mapping v.pv_spec nfs) ≡ ok ws
        → Planned rest wss
        → Planned (mapping ∷ rest) (ws ++ wss)

module _ (k : Machinery) (m : PvMigration) (md : PvMetadata) (volumes : List VolumeMetadata) where
  rebuilt_spec-IsRebuilt :
      (mapping : VolumeMapping) (v : VolumeMetadata) (nfs : NfsVolumeSource)
      → v.pv_spec.node_affinity ≡ none
      → IsRebuilt k m md volumes mapping v nfs (rebuilt_spec m mapping v.pv_spec nfs)
  unfolding rebuilt_spec
  rebuilt_spec-IsRebuilt mapping v nfs free = record {
    source_alone = refl;
    no_others = refl;
    retained = refl;
    reserved = (_, refl, refl, refl, refl, refl, refl);
    storage = refl;
    access_modes = refl;
    volume_mode = refl;
    class = refl;
    mount_options = refl;
    node_affinity = free;
  }

  pub mapping_works-HoldsVolume :
      (mapping : VolumeMapping) (v : VolumeMetadata) (nfs : NfsVolumeSource)
      (ws : List Unstructured)
      → v.pv_spec.node_affinity ≡ none
      → mapping_works k m md mapping v (rebuilt_spec m mapping v.pv_spec nfs) ≡ ok ws
      → HoldsVolume k m md volumes mapping v nfs ws
  unfolding mapping_works make_work rebuilt_volume
  mapping_works-HoldsVolume mapping v nfs ws free h =
      let name = pv_name_of k m md mapping in
      let (manifest, converted, h₁) =
        >>=-eq-ok
          (k.pv_to_unstructured (rebuilt_volume m name (rebuilt_spec m mapping v.pv_spec nfs))) _
          h in
      let (claims, _, h₂) = >>=-eq-ok (claim_manifests k m v name v.pvc_spec) _ h₁ in
      let (w, routed, h₃) =
        >>=-eq-ok (make_work k m v name name (delete_key manifest "status")) _ h₂ in
      let (ws', _, last) = >>=-eq-ok (claim_works k m v name claims) _ h₃ in
      record {
        pv = rebuilt_volume m name (rebuilt_spec m mapping v.pv_spec nfs);
        rebuilt = rebuilt_spec-IsRebuilt mapping v nfs free;
        manifest = manifest;
        converted = converted;
        unrouted = _;
        spec = refl;
        first = w;
        others = ws';
        routed = routed;
        works = cc;
      }

pub check_lane-InLane :
    (k : Machinery) (md : PvMetadata) (mapping : VolumeMapping) (v : VolumeMetadata)
    (os r : List (String × ℤ))
    → check_lane k md mapping v os ≡ ok r
    → InLane k md mapping v
unfolding check_lane
check_lane-InLane k md mapping v os r h = elim (Bool-cases v.standalone) [
  | inl s ↦
      inl (ground (arith, eq_iff v.template_name "", eq_iff mapping.source_pvc mapping.target_pvc))
  | inr s ↦ inr (ground (arith, eq_iff v.template_name ""))
]

pub check_lane-has_spec :
    (k : Machinery) (md : PvMetadata) (mapping : VolumeMapping) (v : VolumeMetadata)
    (os r : List (String × ℤ))
    → check_lane k md mapping v os ≡ ok r
    → v.standalone ≡ true
    → v.pvc_spec ≢ none
unfolding check_lane
check_lane-has_spec k md mapping v os r h s = ground arith

portable_nfs-parts :
    (spec : PersistentVolumeSpec) (pvc : String) (o : Option NfsVolumeSource)
    (nfs : NfsVolumeSource)
    → portable_nfs spec pvc o ≡ ok nfs
    → (o ≡ some nfs) × (nfs.server ≢ "") × (nfs.path ≢ "") × (spec.node_affinity ≡ none)
unfolding portable_nfs
portable_nfs-parts spec pvc none nfs h = absurd (cc)
portable_nfs-parts spec pvc (some n) nfs h =
    ground (arith, eq_iff n.server "", eq_iff n.path "", eq_iff nfs.server "", eq_iff nfs.path "")

check_source_claim-parts :
    (m : PvMigration) (v : VolumeMetadata) (o : Option ObjectReference)
    → o ≡ v.pv_spec.claim_ref
    → check_source_claim m v o ≡ ok tt
    → (ref : ObjectReference) × IsBoundSource m v ref
unfolding check_source_claim
check_source_claim-parts m v none e h = absurd (cc)
check_source_claim-parts m v (some ref) e h = (
  ref,
  record {
    claim_ref = sym e;
    namespace = tests.0;
    name = tests.1;
    uid = tests.2;
    has_uid = tests.3;
  },
)
  where
    tests :
        (ref.namespace ≡ m.meta.namespace)
        × (ref.name ≡ v.pvc_name)
        × (ref.uid ≡ v.pvc_uid)
        × (v.pvc_uid ≢ "")
    tests = ground (
      arith,
      eq_iff ref.namespace m.meta.namespace,
      eq_iff ref.name v.pvc_name,
      eq_iff ref.uid v.pvc_uid,
      eq_iff v.pvc_uid "",
    )

pub source_spec-parts :
    (m : PvMigration) (mapping : VolumeMapping) (v : VolumeMetadata) (spec : PersistentVolumeSpec)
    → source_spec m mapping v ≡ ok spec
    → (nfs : NfsVolumeSource) × (ref : ObjectReference) × IsPortable v.pv_spec nfs
      × IsBoundSource m v ref
      × (spec ≡ rebuilt_spec m mapping v.pv_spec nfs)
unfolding source_spec
source_spec-parts m mapping v spec h =
    let (nfs, one, h₁) = >>=-eq-ok (portable_nfs v.pv_spec v.pvc_name v.pv_spec.nfs) _ h in
    let (_, two, h₂) = >>=-eq-ok (check_source_claim m v v.pv_spec.claim_ref) _ h₁ in
    let (_, three, last) = >>=-eq-ok (reject (not (is_empty v.pv_spec.other_sources)) _) _ h₂ in
    let (is_nfs, server, path, free) =
      portable_nfs-parts v.pv_spec v.pvc_name v.pv_spec.nfs nfs one in
    let (ref, bound) = check_source_claim-parts m v v.pv_spec.claim_ref refl two in
    (
      nfs,
      ref,
      record {
        is_nfs = is_nfs;
        server = server;
        path = path;
        free = free;
        alone = no_others v.pv_spec.other_sources _ three;
      },
      bound,
      cc,
    )
  where
    no_others :
        (xs : List String) (e : String) {u : Unit {0}}
        → reject (not (is_empty xs)) e ≡ ok u
        → xs ≡ []
    no_others [] e p = refl
    no_others (x ∷ xs) e p = absurd (cc)
