-- ===== src/Management/Lifecycle/Durable.antt =====
-- A recorded plan is never changed again.
use karmada_with_pvmigration.Prelude.{
  true, List, [], ◌∷◌, map, ◌≡◌, ◌≢◌, refl, sym, ap, ◌∙◌, subst, inl, inr,
}
use karmada_with_pvmigration.Api.{PvMigrationStatus, WorkReference}
use karmada_with_pvmigration.Management.Migration.References.{identity}
use karmada_with_pvmigration.Management.Cleanup.References.{Detaches}
use karmada_with_pvmigration.Management.Lifecycle.{
  Steps, here, next, IsStep, by_migration, by_cleanup, Step-IsStep,
}

-- The same Works in the same order, of which none that was detached is attached again.
abbrev pub SameWorks : List WorkReference → List WorkReference → Type 0
SameWorks [] [] = Unit
SameWorks [] (y ∷ ys) = ⊥
SameWorks (x ∷ xs) [] = ⊥
SameWorks (x ∷ xs) (y ∷ ys) =
    (y.name ≡ x.name)
    × (y.namespace ≡ x.namespace)
    × (y.standalone ≡ x.standalone)
    × (x.detached ≡ true → y.detached ≡ true)
    × SameWorks xs ys

pub record IsDurable (s t : PvMigrationStatus) : Type 0 where
  pub hash : t.plan_hash ≡ s.plan_hash
  pub works : SameWorks s.works t.works

SameWorks-refl : (xs : List WorkReference) → SameWorks xs xs
SameWorks-refl [] = tt
SameWorks-refl (x ∷ xs) = (refl, refl, refl, λ h. h, SameWorks-refl xs)

SameWorks-trans :
    (xs ys zs : List WorkReference) → SameWorks xs ys → SameWorks ys zs → SameWorks xs zs
SameWorks-trans [] [] [] p q = tt
SameWorks-trans [] [] (z ∷ zs) p q = q
SameWorks-trans [] (y ∷ ys) zs p q = absurd p
SameWorks-trans (x ∷ xs) [] zs p q = absurd p
SameWorks-trans (x ∷ xs) (y ∷ ys) [] p q = q
SameWorks-trans (x ∷ xs) (y ∷ ys) (z ∷ zs) (a, b, c, d, p) (a', b', c', d', q) =
    (a' ∙ a, b' ∙ b, c' ∙ c, λ h. d' (d h), SameWorks-trans xs ys zs p q)

SameWorks-identity :
    (xs ys : List WorkReference) → map identity ys ≡ map identity xs → SameWorks xs ys
SameWorks-identity [] [] e = tt
SameWorks-identity [] (y ∷ ys) e = cc
SameWorks-identity (x ∷ xs) [] e = cc
SameWorks-identity (x ∷ xs) (y ∷ ys) e =
    let same : y.detached ≡ x.detached = cc in
    (cc, cc, cc, λ h. same ∙ h, SameWorks-identity xs ys (cc))

SameWorks-Detaches : (xs ys : List WorkReference) → Detaches xs ys → SameWorks xs ys
SameWorks-Detaches [] [] d = tt
SameWorks-Detaches [] (y ∷ ys) d = d
SameWorks-Detaches (x ∷ xs) [] d = d
SameWorks-Detaches (x ∷ xs) (y ∷ ys) (same, mark, d) = (
  ap (λ (r : WorkReference). r.name) same,
  ap (λ (r : WorkReference). r.namespace) same,
  ap (λ (r : WorkReference). r.standalone) same,
  mark,
  SameWorks-Detaches xs ys d,
)

not_empty : (xs ys : List WorkReference) → SameWorks xs ys → xs ≢ [] → ys ≢ []
not_empty [] ys p h e = h refl
not_empty (x ∷ xs) [] p h e = p
not_empty (x ∷ xs) (y ∷ ys) p h e = cc

step-IsDurable : {s t : PvMigrationStatus} → IsStep s t → s.works ≢ [] → IsDurable s t
step-IsDurable {t = t} (by_migration m m' es et no_completed no_ready p) h =
    subst (λ s. IsDurable s t) es
      (subst (IsDurable m.status) et (elim p.plan [
        | inl none ↦ absurd (h (ap (λ (x : PvMigrationStatus). x.works) (sym es) ∙ none))
        | inr (kept, hash) ↦ record {
          hash = hash;
          works = SameWorks-identity m.status.works m'.status.works kept;
        }
      ]))
step-IsDurable {t = t} (by_cleanup m m' es et ready p) h =
    subst (λ s. IsDurable s t) es
      (subst (IsDurable m.status) et (record {
        hash = p.hash;
        works = SameWorks-Detaches m.status.works m'.status.works p.works;
      }))

-- Once Works are recorded, no pass of either controller changes the plan's hash, or which Works are
-- recorded and in which order, and a detached Work stays detached.
pub Steps-IsDurable : {s t : PvMigrationStatus} → s.works ≢ [] → Steps s t → IsDurable s t
Steps-IsDurable {s} h here = record { hash = refl; works = SameWorks-refl s.works }
Steps-IsDurable {s} {t} h (next {t = u} steps step) =
    let before = Steps-IsDurable h steps in
    let after = step-IsDurable (Step-IsStep step) (not_empty s.works u.works before.works h) in
    record {
      hash = after.hash ∙ before.hash;
      works = SameWorks-trans s.works u.works t.works before.works after.works;
    }
