-- ===== src/Management/Server/Intervals.antt =====
-- Rules by which a part of a pass, where it returns, returns one interval.
use karmada_with_pvmigration.Prelude.{
  String, Bool, true, false, Option, none, some, List, ◌≡◌, refl, ℕ, ◌⊎◌, inl, inr, ◌≤◌, Result, ok,
  err, ApiError, not_found, already_exists, other,
}
use karmada_with_pvmigration.Prelude.Int.{ℤ, pos, negsuc}
use karmada_with_pvmigration.Management.Server.{
  Write, Server, Flow, go, halt, Action, after, ◌>>=◌, pure, return, try, ask, must, must_or_exists,
  must_or_missing, write, fail_if,
}

-- The part goes on, or returns the interval.
abbrev pub MayHalt : {A : Type 0} → ℕ → Flow A → Type 0
MayHalt i (go a) = Unit
MayHalt i (halt j e) = j ≡ i

-- The part returns the interval.
abbrev pub MustHalt : {A : Type 0} → ℕ → Flow A → Type 0
MustHalt i (go a) = ⊥
MustHalt i (halt j e) = j ≡ i

pub record Keeps {A : Type 0} (i : ℕ) (part : Action A) : Type 0 where
  pub at : (written : List Write) → MayHalt i (part written).0

pub record Ends {A : Type 0} (i : ℕ) (part : Action A) : Type 0 where
  pub at : (written : List Write) → MustHalt i (part written).0

-- The interval of the controller in nanoseconds, or the default where that is not positive.
abbrev pub IsInterval : ℕ → ℤ → ℕ → Type 0
IsInterval default d i =
    ((n : ℕ) × (d ≡ pos n) × (1 ≤ n) × (i ≡ n))
    ⊎ (((d ≡ pos 0) ⊎ ((n : ℕ) × (d ≡ negsuc n))) × (i ≡ default))

-- The result is an error, or asks for another pass after the interval.
abbrev pub IsRepeated : ℕ → ℤ → Flow (Unit {0}) → Type 0
IsRepeated default d x =
    ((i : ℕ) × (message : String) × (x ≡ halt i (some message)))
    ⊎ ((i : ℕ) × (x ≡ halt i none) × IsInterval default d i)

pub MustHalt-IsRepeated :
    (default : ℕ) (d : ℤ) (i : ℕ) (x : Flow (Unit {0}))
    → IsInterval default d i
    → MustHalt i x
    → IsRepeated default d x
MustHalt-IsRepeated default d i (go a) interval h = absurd h
MustHalt-IsRepeated default d i (halt j (some message)) interval h = inl (j, message, refl)
MustHalt-IsRepeated default d i (halt j none) interval h = inr (i, rw (h) refl, interval)

module _ {A : Type 0} (i : ℕ) where
  pub Ends-return : (e : Option String) → Ends {A = A} i (return i e)
  unfolding return
  Ends-return e = record { at = λ written. refl }

  pub Keeps-Ends : (part : Action A) → Ends i part → Keeps i part
  Keeps-Ends part h = record { at = λ written. weaken (part written).0 (h.at written) }
    where
      weaken : (x : Flow A) → MustHalt i x → MayHalt i x
      weaken (go a) h = tt
      weaken (halt j e) h = h

  pub Keeps-return : (e : Option String) → Keeps {A = A} i (return i e)
  unfolding return
  Keeps-return e = record { at = λ written. refl }

  pub Keeps-pure : (a : A) → Keeps i (pure a)
  unfolding pure
  Keeps-pure a = record { at = λ written. tt }

  pub Keeps-try : (r : Result A) → Keeps i (try i r)
  unfolding try pure return
  Keeps-try (ok a) = record { at = λ written. tt }
  Keeps-try (err e) = record { at = λ written. refl }

  pub Keeps-ask : (read : List Write → A) → Keeps i (ask read)
  unfolding ask
  Keeps-ask read = record { at = λ written. tt }

module _ (i : ℕ) where
  pub Keeps-must : (a : Option ApiError) → Keeps i (must i a)
  unfolding must pure return
  Keeps-must none = record { at = λ written. tt }
  Keeps-must (some e) = record { at = λ written. refl }

  pub Keeps-must_or_exists : (a : Option ApiError) → Keeps i (must_or_exists i a)
  unfolding must_or_exists pure return
  Keeps-must_or_exists none = record { at = λ written. tt }
  Keeps-must_or_exists (some (already_exists e)) = record { at = λ written. tt }
  Keeps-must_or_exists (some (not_found e)) = record { at = λ written. refl }
  Keeps-must_or_exists (some (other e)) = record { at = λ written. refl }

  pub Keeps-must_or_missing : (a : Option ApiError) → Keeps i (must_or_missing i a)
  unfolding must_or_missing pure return
  Keeps-must_or_missing none = record { at = λ written. tt }
  Keeps-must_or_missing (some (not_found e)) = record { at = λ written. tt }
  Keeps-must_or_missing (some (already_exists e)) = record { at = λ written. refl }
  Keeps-must_or_missing (some (other e)) = record { at = λ written. refl }

  pub Keeps-write : (server : Server) (w : Write) → Keeps i (write server w)
  unfolding write
  Keeps-write server w = record { at = λ written. tt }

  pub Keeps-fail_if : (test : Bool) (e : String) → Keeps i (fail_if i test e)
  unfolding fail_if pure return
  Keeps-fail_if true e = record { at = λ written. refl }
  Keeps-fail_if false e = record { at = λ written. tt }

module _ {A B : Type 0} (i : ℕ) where
  -- The rules of sequence.
  pub Keeps-then :
      (part : Action A) (rest : A → Action B)
      → Keeps i part
      → ((a : A) → Keeps i (rest a))
      → Keeps i (part >>= rest)
  unfolding ◌>>=◌
  Keeps-then part rest h k = record { at = λ written. go_on (part written) (h.at written) }
    where
      go_on : (x : Flow A × List Write) → MayHalt i x.0 → MayHalt i (after x rest).0
      go_on (go a, written) h = (k a).at written
      go_on (halt j e, written) h = h

  pub Ends-then :
      (part : Action A) (rest : A → Action B)
      → Keeps i part
      → ((a : A) → Ends i (rest a))
      → Ends i (part >>= rest)
  unfolding ◌>>=◌
  Ends-then part rest h k = record { at = λ written. go_on (part written) (h.at written) }
    where
      go_on : (x : Flow A × List Write) → MayHalt i x.0 → MustHalt i (after x rest).0
      go_on (go a, written) h = (k a).at written
      go_on (halt j e, written) h = h
