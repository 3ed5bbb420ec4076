-- ===== src/Management/Server/Rules.antt =====
-- Rules by which every write of a pass has a property, and every value that a part goes on with.
use karmada_with_pvmigration.Prelude.{
  String, Bool, true, false, Option, none, some, List, ◌∷◌, ◌≡◌, refl, ℕ, All, Result, ok, err,
  ApiError, not_found, already_exists, other,
}
use karmada_with_pvmigration.Management.Server.{
  Write, Server, Flow, go, halt, Action, after, ◌>>=◌, ◌>>◌, pure, return, try, ask, must,
  must_or_exists, must_or_missing, write, fail_if,
}

-- The value that a part goes on with has the property.
abbrev pub Passes : {A : Type 0} → (A → Type 0) → Flow A → Type 0
Passes Q (go a) = Q a
Passes Q (halt i e) = Unit

abbrev pub Any : {A : Type 0} → A → Type 0
Any a = Unit

-- If all writes so far have the property `P`, so have all after the part, and its value has `Q`.
pub record Ensures {A : Type 0} (P : Write → Type 0) (Q : A → Type 0) (part : Action A)
    : Type 0 where
  pub at :
      (written : List Write) → All P written → All P (part written).1 × Passes Q (part written).0

module _ {P : Write → Type 0} {A : Type 0} {Q : A → Type 0} where
  pub Ensures-return : (i : ℕ) (e : Option String) → Ensures P Q (return i e)
  unfolding return
  Ensures-return i e = record { at = λ written all. (all, tt) }

  pub Ensures-pure : (a : A) → Q a → Ensures P Q (pure a)
  unfolding pure
  Ensures-pure a q = record { at = λ written all. (all, q) }

  -- A value at the end.
  pub Ensures-value : (i : ℕ) (r : Result A) → ((a : A) → r ≡ ok a → Q a) → Ensures P Q (try i r)
  unfolding try pure return
  Ensures-value i (ok a) q = record { at = λ written all. (all, q a refl) }
  Ensures-value i (err e) q = record { at = λ written all. (all, tt) }

module _ {P : Write → Type 0} {A B : Type 0} {Q : A → Type 0} {R : B → Type 0} where
  Ensures-after :
      (x : Flow A × List Write) (rest : A → Action B)
      → All P x.1 × Passes Q x.0
      → ((a : A) → Q a → Ensures P R (rest a))
      → All P (after x rest).1 × Passes R (after x rest).0
  Ensures-after (go a, written) rest (h, q) k = (k a q).at written h
  Ensures-after (halt i e, written) rest (h, q) k = (h, tt)

  -- The rule of sequence.
  pub Ensures-then :
      (part : Action A) (rest : A → Action B)
      → Ensures P Q part
      → ((a : A) → Q a → Ensures P R (rest a))
      → Ensures P R (part >>= rest)
  unfolding ◌>>=◌
  Ensures-then part rest h k = record {
    at = λ written all. Ensures-after (part written) rest (h.at written all) k;
  }

module _ {P : Write → Type 0} {A B : Type 0} {R : B → Type 0} where
  -- After a value that can be missing, the rest has the equation of the value.
  pub Ensures-try :
      (i : ℕ) (r : Result A) (rest : A → Action B)
      → ((a : A) → r ≡ ok a → Ensures P R (rest a))
      → Ensures P R (try i r >>= rest)
  unfolding ◌>>=◌ try pure return
  Ensures-try i (ok a) rest k = record { at = (k a refl).at }
  Ensures-try i (err e) rest k = record { at = λ written all. (all, tt) }

  -- A read is answered after some writes.
  pub Ensures-ask :
      (read : List Write → A) (rest : A → Action B)
      → ((written : List Write) (a : A) → read written ≡ a → Ensures P R (rest a))
      → Ensures P R (ask read >>= rest)
  unfolding ◌>>=◌ ask
  Ensures-ask read rest k = record {
    at = λ written all. (k written (read written) refl).at written all;
  }

module _ {P : Write → Type 0} {B : Type 0} {R : B → Type 0} where
  -- After a guard, its test is false.
  pub Ensures-fail_if :
      (i : ℕ) (test : Bool) (e : String) (rest : Action B)
      → (test ≡ false → Ensures P R rest)
      → Ensures P R (fail_if i test e >> rest)
  unfolding ◌>>=◌ fail_if pure return
  Ensures-fail_if i true e rest k = record { at = λ written all. (all, tt) }
  Ensures-fail_if i false e rest k = record { at = (k refl).at }

  -- A write that has the property.
  pub Ensures-write :
      (server : Server) (w : Write) (rest : Option ApiError → Action B)
      → P w
      → ((a : Option ApiError) → Ensures P R (rest a))
      → Ensures P R (write server w >>= rest)
  unfolding ◌>>=◌ write
  Ensures-write server w rest p k = record {
    at = λ written all. (k (server.answer written w)).at (w ∷ written) (p, all);
  }

module _ {P : Write → Type 0} {R : Unit {0} → Type 0} where
  -- A guard at the end.
  pub Ensures-guard :
      (i : ℕ) (test : Bool) (e : String) → (test ≡ false → R tt) → Ensures P R (fail_if i test e)
  unfolding fail_if pure return
  Ensures-guard i true e k = record { at = λ written all. (all, tt) }
  Ensures-guard i false e k = record { at = λ written all. (all, k refl) }

module _ {P : Write → Type 0} {R : Unit {0} → Type 0} (q : R tt) where
  pub Ensures-must : (i : ℕ) (a : Option ApiError) → Ensures P R (must i a)
  unfolding must pure return
  Ensures-must i none = record { at = λ written all. (all, q) }
  Ensures-must i (some e) = record { at = λ written all. (all, tt) }

  pub Ensures-must_or_exists : (i : ℕ) (a : Option ApiError) → Ensures P R (must_or_exists i a)
  unfolding must_or_exists pure return
  Ensures-must_or_exists i none = record { at = λ written all. (all, q) }
  Ensures-must_or_exists i (some (already_exists e)) = record { at = λ written all. (all, q) }
  Ensures-must_or_exists i (some (not_found e)) = record { at = λ written all. (all, tt) }
  Ensures-must_or_exists i (some (other e)) = record { at = λ written all. (all, tt) }

  pub Ensures-must_or_missing : (i : ℕ) (a : Option ApiError) → Ensures P R (must_or_missing i a)
  unfolding must_or_missing pure return
  Ensures-must_or_missing i none = record { at = λ written all. (all, q) }
  Ensures-must_or_missing i (some (not_found e)) = record { at = λ written all. (all, q) }
  Ensures-must_or_missing i (some (already_exists e)) = record { at = λ written all. (all, tt) }
  Ensures-must_or_missing i (some (other e)) = record { at = λ written all. (all, tt) }

-- Whether the last write is taken or not, it is one of the pass.
pub end_writes :
    (A : Type 0) (i : ℕ) (a : Option ApiError) (written : List Write)
    → (after (must i a written) (λ u. return {A = A} i none)).1 ≡ written
unfolding must pure return
end_writes A i none written = refl
end_writes A i (some e) written = refl
