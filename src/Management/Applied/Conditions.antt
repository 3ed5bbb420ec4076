-- ===== src/Management/Applied/Conditions.antt =====
-- Which conditions count as an application: the loop of workApplied in
-- internal/management/migration.go.
use karmada_with_pvmigration.Prelude.{
  ℕ, ◌≡◌, refl, Bool, true, false, not, ◌&&◌, ◌||◌, List, [], ◌∷◌, any, arith,
}
use karmada_with_pvmigration.Prelude.Int.{ℤ, pos, same_ℤ}
use karmada_with_pvmigration.Machinery.{
  Machinery, Value, null, truth, number, text, slice, object, index, is_text, Nested, present,
  absent, mistyped,
}
use karmada_with_pvmigration.Management.Applied.Evidence.{is_stale, observed, conditions_applied}

-- A generation that is read, is not 0, and is not the current one.
abbrev pub names_another : ℕ → Nested ℤ → Bool
names_another current (present g) = not (same_ℤ g (pos 0) || same_ℤ g (pos current))
names_another current absent = false
names_another current mistyped = false

is_stale-names_another : (current : ℕ) (n : Nested ℤ) → is_stale current n ≡ names_another current n
is_stale-names_another current (present g) = ground arith
is_stale-names_another current absent = refl
is_stale-names_another current mistyped = refl

module _ (k : Machinery) where
  -- A condition of type "Applied" with the status "True".
  abbrev pub applied_entry : Value → Bool
  applied_entry (object c) = is_text (index c "type") "Applied" && is_text (index c "status") "True"
  applied_entry _ = false

  -- One that names another generation than the current one, which is not 0.
  abbrev pub stale_entry : ℕ → Value → Bool
  stale_entry current (object c) =
      (is_text (index c "type") "Applied" && is_text (index c "status") "True")
      && names_another current (k.nested_int64 (object c) ("observedGeneration" ∷ []))
  stale_entry current _ = false

  -- The conditions show an application exactly when one of them has the type "Applied" and the status
  -- "True" (or one before them has), and none that has them names a generation other than 0 and the
  -- current one. So a condition that names no generation, or 0, counts at every generation.
  pub conditions_applied_iff :
      (current : ℕ) (conditions : List Value) (applied : Bool)
      → conditions_applied k current conditions applied
        ≡ ((applied || any applied_entry conditions) && not (any (stale_entry current) conditions))
  unfolding conditions_applied
  conditions_applied_iff current [] applied = ground arith
  conditions_applied_iff current (object c ∷ cs) applied = ground (
    arith,
    is_stale-names_another current (observed k c),
    conditions_applied_iff current cs applied,
    conditions_applied_iff current cs true,
  )
  conditions_applied_iff current (null ∷ cs) applied = conditions_applied_iff current cs applied
  conditions_applied_iff current (truth b ∷ cs) applied = conditions_applied_iff current cs applied
  conditions_applied_iff current (number n ∷ cs) applied = conditions_applied_iff current cs applied
  conditions_applied_iff current (text s ∷ cs) applied = conditions_applied_iff current cs applied
  conditions_applied_iff current (slice vs ∷ cs) applied = conditions_applied_iff current cs applied

  -- Conditions that show an application.
  pub conditions_applied-parts :
      (current : ℕ) (conditions : List Value)
      → conditions_applied k current conditions false ≡ true
      → (any applied_entry conditions ≡ true) × (any (stale_entry current) conditions ≡ false)
  conditions_applied-parts current conditions h =
      ground (arith, conditions_applied_iff current conditions false)
