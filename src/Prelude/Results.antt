-- ===== src/Prelude/Results.antt =====
-- Go's `(value, error)` pairs: a value or an error, in sequence by `do`.
use Prim.Native.String.{String}
use mathlib.Core.Path.{◌≡◌, refl}
use mathlib.Core.Bool.{Bool, true, false}
use package.karmada_with_pvmigration.Prelude.Texts.{◌<>◌}

-- What a call of the Kubernetes client can fail with, and the error's text. `IsNotFound` and
-- `IsAlreadyExists` of apimachinery tell the first two apart.
pub data ApiError : Type 0 where
  not_found already_exists other : String → ApiError

pub data Result {ℓ} (A : Type ℓ) : Type ℓ where
  ok : A → Result A
  err : String → Result A

-- The answer of a call of the client.
pub data Reply {ℓ} (A : Type ℓ) : Type ℓ where
  found : A → Reply A
  failed : ApiError → Reply A

abbrev pub error_text : ApiError → String
error_text (not_found s) = s
error_text (already_exists s) = s
error_text (other s) = s

infixl 5 ◌>>=◌ ◌>>◌
-- `x, err := m; if err != nil { return err }; rest(x)`
abbrev pub ◌>>=◌ {ℓ κ} : {A : Type ℓ} {B : Type κ} → Result A → (A → Result B) → Result B
err why >>= rest = err why
ok x >>= rest = rest x

-- `if err := check; err != nil { return err }; rest`
abbrev pub ◌>>◌ {ℓ} : {B : Type ℓ} → Result (Unit {0}) → Result B → Result B
check >> rest = check >>= λ done. rest

-- `if test { return err }`
abbrev pub reject : Bool → String → Result (Unit {0})
reject true e = err e
reject false e = ok tt

-- `if err := r.Get(...); err != nil { if IsNotFound(err) { return missing }; return ("prefix: %w", err) }`
abbrev pub fetched {ℓ} : {A : Type ℓ} → Reply A → String → String → Result A
fetched (found a) missing prefix = ok a
fetched (failed (not_found s)) missing prefix = err missing
fetched (failed (already_exists s)) missing prefix = err (prefix <> s)
fetched (failed (other s)) missing prefix = err (prefix <> s)

-- `if err := r.Get(...); err != nil { return err }`
abbrev pub got {ℓ} : {A : Type ℓ} → Reply A → Result A
got (found a) = ok a
got (failed e) = err (error_text e)

-- What a sequence that succeeds has passed through.
module _ {ℓ κ} {A : Type ℓ} {B : Type κ} where
  pub >>=-eq-ok :
      (first : Result A) (rest : A → Result B) {y : B}
      → (first >>= rest) ≡ ok y
      → (x : A) × (first ≡ ok x) × (rest x ≡ ok y)
  >>=-eq-ok (err why) rest e = cc
  >>=-eq-ok (ok x) rest e = (x, refl, e)

pub fetched-eq-ok {ℓ} :
    {A : Type ℓ} (r : Reply A) (missing prefix : String) {a : A}
    → fetched r missing prefix ≡ ok a
    → r ≡ found a
fetched-eq-ok (found a) missing prefix h = cc
fetched-eq-ok (failed (not_found s)) missing prefix h = cc
fetched-eq-ok (failed (already_exists s)) missing prefix h = cc
fetched-eq-ok (failed (other s)) missing prefix h = cc

-- `err == nil`
abbrev pub is_ok {ℓ} : {A : Type ℓ} → Result A → Bool
is_ok (ok a) = true
is_ok (err e) = false

pub got-eq-ok {ℓ} : {A : Type ℓ} (r : Reply A) {a : A} → got r ≡ ok a → r ≡ found a
got-eq-ok (found a) h = cc
got-eq-ok (failed e) h = cc
