-- ===== src/Management/Binding/Reserved.antt =====
-- The reservation of target claims among the migrations of a namespace.
pub mod Winner
use karmada_with_pvmigration.Prelude.{
  String, Bool, false, not, ◌&&◌, ◌||◌, Option, none, some, List, [], ◌∷◌, ◌==◌, ◌<>◌, text_ltb,
  ltb, eqb, Result, ok, err, if◌then◌else◌,
}
use karmada_with_pvmigration.Api.{PvMigration, VolumeMapping, WorkReference}

-- `reserved = reserved || ref.Applied || ref.Detached`
abbrev pub any_touched : List WorkReference → Bool
any_touched [] = false
any_touched (ref ∷ refs) = (ref.applied || ref.detached) || any_touched refs

-- The peer has put its volumes on the target, or has begun to.
unfoldable pub is_reserved : PvMigration → Bool
is_reserved peer =
    (peer.status.phase == "Ready" || peer.status.phase == "Completed")
    || any_touched peer.status.works

-- The peer was created first; its UID decides between requests of one time.
unfoldable pub is_older : PvMigration → PvMigration → Bool
is_older peer m =
    ltb peer.meta.created m.meta.created
    || (eqb peer.meta.created m.meta.created && text_ltb peer.meta.uid m.meta.uid)

-- The first requested claim that an existing mapping has as its target.
unfoldable pub clash : String → List VolumeMapping → Option String
clash existing [] = none
clash existing (requested ∷ rest) =
    if existing == requested.target_pvc then some requested.target_pvc else clash existing rest

unfoldable pub first_clash : List VolumeMapping → List VolumeMapping → Option String
unfolding clash
first_clash [] requested = none
first_clash (existing ∷ rest) requested = elim (clash existing.target_pvc requested) [
  | some name ↦ some name
  | none ↦ first_clash rest requested
]

-- The claim that a peer keeps from the request, if it does.
unfoldable pub blocking_claim : PvMigration → PvMigration → Option String
blocking_claim peer m =
    if peer.meta.uid == m.meta.uid || not (peer.spec.target_cluster == m.spec.target_cluster)
    then none
    else if not (is_reserved peer) && not (is_older peer m)
    then none
    else first_clash peer.spec.volumes m.spec.volumes

unfoldable pub check_peers : PvMigration → List PvMigration → Result (Unit {0})
check_peers m [] = ok tt
check_peers m (peer ∷ peers) = elim (blocking_claim peer m) [
  | some name ↦ err (
      "target PVC " <> name <> " already reserved by PVMigration " <> peer.meta.name
      <> "; retain its record until the PV is deliberately retired")
  | none ↦ check_peers m peers
]
