-- ===== src/Management/Migration/Refused.antt =====
-- Passes over a migration whose request is refused, or whose source has changed.
use mathlib.Core.Logic.{ite}
use karmada_with_pvmigration.Prelude.{
  ℕ, String, false, ◌==◌, ◌≡◌, ◌≢◌, refl, sym, ◌⊎◌, inl, inr, none, List, [], ◌∷◌, ok, err, found,
  is_empty, is_empty_lem, arith, eq_iff, subst, Bool-cases,
}
use karmada_with_pvmigration.Prelude.Int.{ℤ}
use karmada_with_pvmigration.Api.{PvMigration, PvMetadata, PvMigrationStatus}
use karmada_with_pvmigration.Api.Equality.{PvMigrationStatus-discrete}
use karmada_with_pvmigration.Machinery.{Machinery, Unstructured}
use karmada_with_pvmigration.Management.Binding.Gates.{validate_binding}
use karmada_with_pvmigration.Management.Works.Plan.{build_works}
use karmada_with_pvmigration.Management.Hash.{plan_hash}
use karmada_with_pvmigration.Management.Server.{
  Write, Server, Flow, go, halt, Action, after, ◌>>=◌, pure, return, try, ask, must, write,
  patch_status, writes_of,
}
use karmada_with_pvmigration.Management.Server.Rules.{end_writes}
use karmada_with_pvmigration.Management.Server.Intervals.{MustHalt}
use karmada_with_pvmigration.Management.Migration.Phase.{
  delay, patch_changed, set_phase, with_phase,
}
use karmada_with_pvmigration.Management.Migration.Repeated.{set_phase-Ends}
use karmada_with_pvmigration.Management.Migration.Pass.{
  is_over, or_pending, with_hash, advance, reconcile,
}

-- A status with this phase and message, for the current generation, and the recorded plan.
pub record IsPhase (m : PvMigration) (phase message : String) (s : PvMigrationStatus) : Type 0 where
  pub phase_is : s.phase ≡ phase
  pub message_is : s.message ≡ message
  pub generation : s.observed_generation ≡ m.meta.generation
  pub hash : s.plan_hash ≡ m.status.plan_hash
  pub works : s.works ≡ m.status.works

-- Nothing is written, since this is the status already, or it is written and differs from the status.
pub IsShown : PvMigration → String → String → List Write → Type 0
IsShown m phase message writes =
    (IsPhase m phase message m.status × (writes ≡ []))
    ⊎ ((m' : PvMigration) × (m'.meta ≡ m.meta)
        × (m'.spec ≡ m.spec)
        × IsPhase m phase message m'.status
        × (m.status ≢ m'.status)
        × (writes ≡ patch_status m' ∷ []))

with_phase-IsPhase :
    (m : PvMigration) (phase message : String)
    → IsPhase m phase message (with_phase m phase message).status
with_phase-IsPhase m phase message = record {
  phase_is = refl;
  message_is = refl;
  generation = refl;
  hash = refl;
  works = refl;
}

decided-IsShown :
    (A : Type 0) (server : Server) (i : ℕ) (m : PvMigration) (phase message : String)
    (d : Dec (m.status ≡ (with_phase m phase message).status))
    → IsShown m phase message
        (after
          (ite d (pure tt) (write server (patch_status (with_phase m phase message)) >>= must i) [])
          (λ u. return {A = A} i none)).1
unfolding IsShown pure ◌>>=◌ write
decided-IsShown A server i m phase message (yes same) = inl (
  subst (IsPhase m phase message) (sym same) (with_phase-IsPhase m phase message),
  unfold return in refl,
)
decided-IsShown A server i m phase message (no changed) = inr (
  with_phase m phase message,
  refl,
  refl,
  with_phase-IsPhase m phase message,
  changed,
  end_writes A i (server.answer [] (patch_status (with_phase m phase message))) _,
)

set_phase-IsShown :
    (A : Type 0) (server : Server) (i : ℕ) (m : PvMigration) (phase message : String)
    → IsShown m phase message (writes_of {A = A} (set_phase server i m phase message))
unfolding set_phase patch_changed
set_phase-IsShown A server i m phase message =
    unfold ◌>>=◌ in
    decided-IsShown A server i m phase message
      (PvMigrationStatus-discrete m.status (with_phase m phase message).status)

-- What follows a part that ends writes nothing.
after_end :
    (A B : Type 0) (i : ℕ) (x : Flow A × List Write) (rest : A → Action B)
    → MustHalt i x.0
    → (after x rest).1 ≡ x.1
after_end A B i (go a, written) rest h = absurd h
after_end A B i (halt j e, written) rest h = refl

IsShown-rest :
    (k : Machinery) (server : Server) (A : Type 0) (i : ℕ) (m : PvMigration) (e : String)
    (rest : A → Action (Unit {0}))
    → IsShown m "Pending" e (writes_of (or_pending k server i {A = A} m (err e) >>= rest))
unfolding ◌>>=◌
IsShown-rest k server A i m e rest =
    subst (IsShown m "Pending" e)
      (sym (
        after_end A (Unit {0}) i (set_phase server i m "Pending" e []) rest
          ((set_phase-Ends k server i m "Pending" e).at [])))
      (set_phase-IsShown A server i m "Pending" e)

module _ (k : Machinery) (server : Server) (poll_interval : ℤ) (namespace name : String)
    (m : PvMigration) (md : PvMetadata) (read : server.get_migration [] namespace name ≡ found m)
    (running : is_over m ≡ false)
    (read_md : server.get_metadata [] m.meta.namespace m.spec.metadata_ref ≡ found md) where
  -- Where a migration is not over and its request is refused, or no Works can be planned, the pass
  -- writes nothing if the status has the phase "Pending" with the error and this generation already.
  -- Otherwise it writes one patch alone, to a different status: this phase, error and generation, with
  -- metadata, spec and the recorded plan as they were.
  pub refused_pass :
      (e : String)
      → (validate_binding k (server.reads []) m md ≡ err e)
        ⊎ ((validate_binding k (server.reads []) m md ≡ ok tt) × (build_works k m md ≡ err e))
      → IsShown m "Pending" e (writes_of (reconcile k server poll_interval namespace name))
  unfolding reconcile ◌>>=◌ ask
  refused_pass e (inl invalid) =
      rw (read, running)
        (unfold advance ◌>>=◌ ask try pure in
          rw (read_md, invalid) (IsShown-rest k server (Unit {0}) (delay poll_interval) m e _))
  refused_pass e (inr (valid, unplanned)) =
      rw (read, running)
        (unfold advance ◌>>=◌ ask try pure in
          rw (read_md, valid, unplanned)
            (IsShown-rest k server (List Unstructured) (delay poll_interval) m e _))

  -- Where a migration is not over and has recorded Works, its request is accepted, and its plan does
  -- not have the recorded hash, the pass touches no Work. It writes nothing if the status has the phase "Pending" with the
  -- message on changed identities and this generation already, and otherwise one patch alone, to a
  -- different status: this phase, message and generation, with the rest as it was.
  pub changed_pass :
      (works : List Unstructured) (hash : String)
      → validate_binding k (server.reads []) m md ≡ ok tt
      → build_works k m md ≡ ok works
      → plan_hash k m md works ≡ ok hash
      → m.status.works ≢ []
      → m.status.plan_hash ≢ hash
      → IsShown m "Pending"
          "source snapshot identities/specs changed after planning; inspect existing Works before starting a new request"
          (writes_of (reconcile k server poll_interval namespace name))
  unfolding reconcile ◌>>=◌ ask
  changed_pass works hash valid built hashed planned differs =
      rw (read, running)
        (unfold advance with_hash ◌>>=◌ ask try pure in
          rw (read_md, valid, built, hashed, with_hash, is_planned, differ_test)
            (set_phase-IsShown (Unit {0}) server (delay poll_interval) m "Pending" _))
    where
      is_planned : is_empty m.status.works ≡ false
      is_planned = elim (Bool-cases (is_empty m.status.works)) [
        | inl empty ↦ absurd (planned (is_empty_lem m.status.works empty))
        | inr full ↦ full
      ]

      differ_test : (m.status.plan_hash == hash) ≡ false
      differ_test = ground (arith, eq_iff m.status.plan_hash hash, differs)
