-- ===== src/Management/Migration/Phase.antt =====
-- `delay`, `setPhase` and the refusal of a pass, of internal/management/migration.go.
use karmada_with_pvmigration.Prelude.{ℕ, String, none, if◌then◌else◌}
use karmada_with_pvmigration.Prelude.Int.{ℤ, pos, pos_part, leb_ℤ}
use karmada_with_pvmigration.Api.{PvMigration, PvMigrationStatus}
use karmada_with_pvmigration.Api.Equality.{PvMigrationStatus-discrete}
use karmada_with_pvmigration.Management.Server.{
  Server, Action, ◌>>=◌, ◌>>◌, return, must, write, patch_status, pure,
}
use mathlib.Core.Logic.{ite}

-- In nanoseconds; ten seconds where the interval is not positive.
unfoldable pub delay : ℤ → ℕ
delay d = if leb_ℤ d (pos 0) then 10000000000 else pos_part d

-- The migration with a phase, for the current generation.
abbrev pub with_phase : PvMigration → String → String → PvMigration
with_phase m phase message = record m {
  status = record (m.status) {
    phase = phase;
    message = message;
    observed_generation = m.meta.generation;
  };
}

module _ (server : Server) where
  -- `if !reflect.DeepEqual(base.Status, m.Status) { r.Status().Patch(m) }`
  unfoldable pub patch_changed : ℕ → PvMigrationStatus → PvMigration → Action (Unit {0})
  patch_changed interval base m =
      ite (PvMigrationStatus-discrete base m.status) (pure tt)
        (do answer ← write server (patch_status m); must interval answer)

  -- `return result, setPhase(…)`
  unfoldable pub set_phase : {A : Type 0} → ℕ → PvMigration → String → String → Action A
  unfolding patch_changed
  set_phase interval m phase message = do
    patch_changed interval m.status (with_phase m phase message)
    return interval none
