-- ===== src/Management/Works/Identity.antt =====
-- The identities of the Works that `BuildWorks` makes: namespace, owner labels, names.
use Prim.Native.String.{len, slice}
use karmada_with_pvmigration.Prelude.{
  decimal, String, ◌≡◌, Bool, true, false, some, List, [], ◌∷◌, ◌++◌, ◌<>◌, if◌then◌else◌,
}
use karmada_with_pvmigration.Api.{PvMigration, PvMetadata, VolumeMetadata, VolumeMapping}
use karmada_with_pvmigration.Api.Core.{label}
use karmada_with_pvmigration.Machinery.{Machinery, Unstructured}
use karmada_with_pvmigration.Management.Naming.{
  owner_label, managed_label, manager_name, standalone_pair_label,
}
use karmada_with_pvmigration.Management.Works.Snapshot.{find_volume}
use karmada_with_pvmigration.Management.Works.Planned.{Planned}

-- The Work stands in the execution namespace of the target cluster and is marked as this
-- migration's: by the manager's label, its owner's UID, and the pair label of a standalone pair.
pub record IsOwned (m : PvMigration) (pair : String) (name : String) (w : Unstructured)
    : Type 0 where
  pub kind : w.kind ≡ "Work"
  pub name_is : w.meta.name ≡ name
  pub namespace : w.meta.namespace ≡ "karmada-es-" <> m.spec.target_cluster
  pub owner : label w.meta.labels owner_label ≡ m.meta.uid
  pub manager : label w.meta.labels managed_label ≡ manager_name
  pub paired : label w.meta.labels standalone_pair_label ≡ pair

-- The pair label that a source volume's Works carry: the volume's name, for a standalone claim.
abbrev pub pair_of : VolumeMetadata → String → String
pair_of v pv_name = if v.standalone then pv_name else ""

-- A text behind its length in bytes.
abbrev pub counted : String → String
counted s = decimal (len s) <> ":" <> s <> ";"

-- The names of one mapping's Works: the volume's, and that of a standalone claim.
abbrev pub claim_names : Bool → String → List String
claim_names true pv_name = (pv_name <> "-pvc") ∷ []
claim_names false pv_name = []

-- The Works carry these names, one by one, and are owned.
abbrev pub AllOwned : PvMigration → String → List String → List Unstructured → Type 0
AllOwned m pair [] [] = Unit
AllOwned m pair [] (w ∷ ws) = ⊥
AllOwned m pair (n ∷ ns) [] = ⊥
AllOwned m pair (n ∷ ns) (w ∷ ws) = IsOwned m pair n w × AllOwned m pair ns ws

module _ (k : Machinery) (m : PvMigration) (md : PvMetadata) where
  -- The name of a target's Work: a prefix of the digest of the workload's UID, the target cluster, the
  -- namespace and the target claim, each behind its length.
  abbrev pub target_name : VolumeMapping → String
  target_name mapping =
      "pvm"
      <> "-"
      <> slice
          (k.sha256_hex (
            counted md.spec.workload_ref.uid
            <> (counted m.spec.target_cluster
                <> (counted m.meta.namespace <> (counted mapping.target_pvc <> "")))))
          0 24

  -- The Works of a list of mappings, as identities: each mapping has a source volume, and its Works
  -- are owned and carry the names of that volume and target.
  pub data AllIdentified (volumes : List VolumeMetadata)
      : List VolumeMapping → List Unstructured → Type 0 where
    none_left : AllIdentified volumes [] []
    identified :
        {mapping : VolumeMapping} {rest : List VolumeMapping} {wss : List Unstructured}
        (v : VolumeMetadata) (ws : List Unstructured)
        → find_volume volumes mapping.source_pvc ≡ some v
        → AllOwned m
            (pair_of v (target_name mapping))
            (target_name mapping ∷ claim_names v.standalone (target_name mapping))
            ws
        → AllIdentified volumes rest wss
        → AllIdentified volumes (mapping ∷ rest) (ws ++ wss)
