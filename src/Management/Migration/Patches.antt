-- ===== src/Management/Migration/Patches.antt =====
-- The status patches of a pass keep to what is allowed.
use mathlib.Core.Logic.{if_pos, if_neg}
use karmada_with_pvmigration.Prelude.{
  ℕ, suc, String, true, none, List, [], ◌∷◌, map, length, ◌≡◌, ◌≢◌, refl, ap, inl, arith, eq_iff,
}
use karmada_with_pvmigration.Api.{PvMigration, PvMigrationStatus, WorkReference}
use karmada_with_pvmigration.Api.Equality.{PvMigrationStatus-discrete}
use karmada_with_pvmigration.Machinery.{Unstructured}
use karmada_with_pvmigration.Management.Server.{Write, Server, patch_status}
use karmada_with_pvmigration.Management.Server.Rules.{
  Any, Ensures, Ensures-then, Ensures-write, Ensures-must, Ensures-return, Ensures-pure,
}
use karmada_with_pvmigration.Management.Migration.Phase.{patch_changed, with_phase, set_phase}
use karmada_with_pvmigration.Management.Migration.Pass.{reference_of, with_plan}
use karmada_with_pvmigration.Management.Migration.References.{identity, is_attached, every}
use karmada_with_pvmigration.Management.Migration.Allowed.{IsPatch, keeps_plan}

-- The only write of `patch_changed` is its patch.
pub patch_changed_lem :
    {P : Write → Type 0} (server : Server) (interval : ℕ) (base : PvMigrationStatus)
    (m : PvMigration)
    → P (patch_status m)
    → Ensures P Any (patch_changed server interval base m)
unfolding patch_changed
patch_changed_lem {P} server interval base m p = elim (PvMigrationStatus-discrete base m.status) [
  | yes same ↦ rw (if_pos _ same) (Ensures-pure tt tt)
  | no differ ↦
      rw (if_neg _ differ)
        (Ensures-write server (patch_status m) _ p (λ answer. Ensures-must tt interval answer))
]

pub set_phase_lem :
    {P : Write → Type 0} {A : Type 0} {Q : A → Type 0} (server : Server) (interval : ℕ)
    (m : PvMigration) (phase message : String)
    → P (patch_status (with_phase m phase message))
    → Ensures P Q (set_phase server interval m phase message)
unfolding set_phase
set_phase_lem server interval m phase message p =
    Ensures-then {Q = Any} _ _
      (patch_changed_lem server interval m.status (with_phase m phase message) p)
      (λ done q. Ensures-return interval none)

pub phase-IsPatch :
    (m : PvMigration) (phase message : String)
    → phase ≢ "Ready"
    → phase ≢ "Completed"
    → IsPatch m (with_phase m phase message)
phase-IsPatch m phase message pending running =
    keeps_plan m (with_phase m phase message) refl refl refl refl (λ ready. absurd (pending ready))
      running

pub plan-IsPatch :
    (m : PvMigration) (hash : String) (works : List Unstructured)
    → m.status.works ≡ []
    → IsPatch m (with_plan m hash works)
plan-IsPatch m hash works unplanned = record {
  meta = refl;
  spec = refl;
  plan = inl unplanned;
  fresh = λ none. new_attached works;
  ready = λ e. absurd (ground (arith, eq_iff "Preparing" "Ready"));
  open_end = λ e. ground (arith, eq_iff "Preparing" "Completed");
}
  where
    new_attached : (ws : List Unstructured) → every is_attached (map reference_of ws) ≡ true
    new_attached [] = refl
    new_attached (w ∷ ws) = new_attached ws

pub same_length :
    (xs ys : List WorkReference) → map identity xs ≡ map identity ys → length xs ≡ length ys
same_length [] [] e = refl
same_length [] (y ∷ ys) e = cc
same_length (x ∷ xs) [] e = cc
same_length (x ∷ xs) (y ∷ ys) e = ap suc (same_length xs ys (cc))
