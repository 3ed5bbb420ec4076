-- ===== src/Management/Server.antt =====
-- The calls of a controller to the Karmada API server, and a pass as a sequence of them. The server
-- is third-party code: its answers are a parameter, which may depend on all writes of the pass.
pub mod Rules
pub mod Intervals
use karmada_with_pvmigration.Prelude.{
  String, Bool, true, false, Option, none, some, List, [], ◌∷◌, ℕ, Result, ok, err, Reply, ApiError,
  not_found, already_exists, other, error_text,
}
use karmada_with_pvmigration.Api.{PvMigration, PvMetadata}
use karmada_with_pvmigration.Machinery.{Unstructured}
use karmada_with_pvmigration.Management.Binding.Gates.{Reads}

-- A write of a pass. The patches carry the object after the change and hold only for the version
-- that was read (`MergeFromWithOptimisticLock`); a deletion carries the object that was read, whose
-- UID and resource version are its preconditions.
pub data Write : Type 0 where
  patch_status : PvMigration → Write
  create_work : Unstructured → Write
  patch_work : Unstructured → Write
  delete_work : Unstructured → Write
  create_metadata : PvMetadata → Write
  create_policy : Unstructured → Write

-- The answers, by the writes of the pass so far (the latest first), and by namespace and name. Reads of
-- one key between two writes give one answer.
pub record Server : Type 0 where
  pub get_migration : List Write → String → String → Reply PvMigration
  pub get_metadata : List Write → String → String → Reply PvMetadata
  pub get_work : List Write → String → String → Reply Unstructured
  pub get_policy : List Write → String → String → Reply Unstructured
  pub reads : List Write → Reads
  pub answer : List Write → Write → Option ApiError

-- A part of a pass goes on with a value, or the pass returns: the interval after which it is
-- repeated (0 for none), and an error or none.
pub data Flow (A : Type 0) : Type 0 where
  go : A → Flow A
  halt : ℕ → Option String → Flow A

abbrev pub Action : Type 0 → Type 0
Action A = List Write → Flow A × List Write

module _ {A B : Type 0} where
  -- What comes after a part, unless that has returned.
  abbrev pub after : Flow A × List Write → (A → Action B) → Flow B × List Write
  after (go a, written) rest = rest a written
  after (halt interval e, written) rest = (halt interval e, written)

  infixl 5 ◌>>=◌
  unfoldable pub ◌>>=◌ : Action A → (A → Action B) → Action B
  ◌>>=◌ part rest written = after (part written) rest

infixl 5 ◌>>◌
abbrev pub ◌>>◌ : {B : Type 0} → Action (Unit {0}) → Action B → Action B
part >> rest = part >>= λ done. rest

module _ {A : Type 0} where
  unfoldable pub pure : A → Action A
  pure a written = (go a, written)

  -- `return ctrl.Result{RequeueAfter: interval}, e`
  unfoldable pub return : ℕ → Option String → Action A
  return interval e written = (halt interval e, written)

  -- A value or `return result, err`.
  unfoldable pub try : ℕ → Result A → Action A
  unfolding pure return
  try interval (ok a) = pure a
  try interval (err e) = return interval (some e)

  -- A read, by the writes so far.
  unfoldable pub ask : (List Write → A) → Action A
  ask read written = (go (read written), written)

-- The result of a write that may not fail.
unfoldable pub must : ℕ → Option ApiError → Action (Unit {0})
unfolding pure return
must interval none = pure tt
must interval (some e) = return interval (some (error_text e))

-- `err != nil && !apierrors.IsAlreadyExists(err)`
unfoldable pub must_or_exists : ℕ → Option ApiError → Action (Unit {0})
unfolding pure return
must_or_exists interval (some (already_exists e)) = pure tt
must_or_exists interval (some (not_found e)) = return interval (some e)
must_or_exists interval (some (other e)) = return interval (some e)
must_or_exists interval none = pure tt

-- `err != nil && !apierrors.IsNotFound(err)`
unfoldable pub must_or_missing : ℕ → Option ApiError → Action (Unit {0})
unfolding pure return
must_or_missing interval (some (not_found e)) = pure tt
must_or_missing interval (some (already_exists e)) = return interval (some e)
must_or_missing interval (some (other e)) = return interval (some e)
must_or_missing interval none = pure tt

unfoldable pub write : Server → Write → Action (Option ApiError)
write server w written = (go (server.answer written w), w ∷ written)

-- `if test { return result, fmt.Errorf(e) }`
unfoldable pub fail_if : ℕ → Bool → String → Action (Unit {0})
unfolding pure return
fail_if interval true e = return interval (some e)
fail_if interval false e = pure tt

-- The error of a read that is ignored where the object is missing: `client.IgnoreNotFound(err)`.
abbrev pub ignore_not_found : ApiError → Option String
ignore_not_found (not_found e) = none
ignore_not_found (already_exists e) = some e
ignore_not_found (other e) = some e

-- All writes of a pass, the latest first.
abbrev pub writes_of : {A : Type 0} → Action A → List Write
writes_of pass = (pass []).1
