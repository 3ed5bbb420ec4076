-- ===== src/Management/Cleanup/References.antt =====
-- What the cleanup leaves in the recorded references: it only marks some of them as detached.
use karmada_with_pvmigration.Prelude.{
  ℕ, zero, suc, ◌≤◌, Bool, true, false, ◌&&◌, some, List, [], ◌∷◌, length, ◌≡◌, refl, ap, arith,
}
use karmada_with_pvmigration.Api.{WorkReference}
use karmada_with_pvmigration.Management.Routing.Repair.{ref_at}
use karmada_with_pvmigration.Management.Migration.References.{every}
use karmada_with_pvmigration.Management.Cleanup.Detach.{set_detached}

-- All but the mark.
abbrev pub unmarked : WorkReference → WorkReference
unmarked ref = record ref { detached = false }

-- The second list is the first, with more of it marked as detached.
abbrev pub Detaches : List WorkReference → List WorkReference → Type 0
Detaches [] [] = Unit
Detaches [] (y ∷ ys) = ⊥
Detaches (x ∷ xs) [] = ⊥
Detaches (x ∷ xs) (y ∷ ys) =
    (unmarked y ≡ unmarked x) × (x.detached ≡ true → y.detached ≡ true) × Detaches xs ys

pub Detaches-refl : (xs : List WorkReference) → Detaches xs xs
Detaches-refl [] = tt
Detaches-refl (x ∷ xs) = (refl, λ h. h, Detaches-refl xs)

pub Detaches-set_detached :
    (xs ys : List WorkReference) (i : ℕ) → Detaches xs ys → Detaches xs (set_detached ys i)
unfolding set_detached
Detaches-set_detached [] [] i d = tt
Detaches-set_detached [] (y ∷ ys) i d = absurd d
Detaches-set_detached (x ∷ xs) [] i d = absurd d
Detaches-set_detached (x ∷ xs) (y ∷ ys) zero (same, mark, d) = (same, λ h. refl, d)
Detaches-set_detached (x ∷ xs) (y ∷ ys) (suc i) (same, mark, d) =
    (same, mark, Detaches-set_detached xs ys i d)

-- What holds of each reference but for its mark holds in the marked list too.
pub every-Detaches :
    (xs ys : List WorkReference)
    → Detaches xs ys
    → every (λ ref. ref.applied) xs ≡ true
    → every (λ ref. ref.applied) ys ≡ true
every-Detaches [] [] d h = refl
every-Detaches [] (y ∷ ys) d h = absurd d
every-Detaches (x ∷ xs) [] d h = absurd d
every-Detaches (x ∷ xs) (y ∷ ys) (same, mark, d) h =
    let e : y.applied ≡ x.applied = ap (λ ref. ref.applied) same in
    ground (arith, every-Detaches xs ys d)

-- The references before an index are applied and detached.
abbrev pub is_gone : WorkReference → Bool
is_gone ref = ref.applied && ref.detached

abbrev pub gone_upto : ℕ → List WorkReference → Bool
gone_upto zero refs = true
gone_upto (suc i) [] = true
gone_upto (suc i) (ref ∷ refs) = is_gone ref && gone_upto i refs

pub ref_at-set_detached :
    (refs : List WorkReference) (i j : ℕ)
    → suc i ≤ j
    → ref_at (set_detached refs i) j ≡ ref_at refs j
unfolding set_detached ref_at
ref_at-set_detached [] i j h = refl
ref_at-set_detached (ref ∷ refs) i zero h = absurd (omega arith)
ref_at-set_detached (ref ∷ refs) zero (suc j) h = refl
ref_at-set_detached (ref ∷ refs) (suc i) (suc j) h = ref_at-set_detached refs i j (omega arith)

pub gone_upto-suc :
    (refs : List WorkReference) (i : ℕ) {ref : WorkReference}
    → ref_at refs i ≡ some ref
    → is_gone ref ≡ true
    → gone_upto i refs ≡ true
    → gone_upto (suc i) refs ≡ true
unfolding ref_at
gone_upto-suc [] i e h s = refl
gone_upto-suc (r ∷ refs) zero e h s = ground arith
gone_upto-suc (r ∷ refs) (suc i) e h s = ground (arith, gone_upto-suc refs i e h)

pub gone_upto-set_detached :
    (refs : List WorkReference) (i : ℕ) {ref : WorkReference}
    → ref_at refs i ≡ some ref
    → ref.applied ≡ true
    → gone_upto i refs ≡ true
    → gone_upto (suc i) (set_detached refs i) ≡ true
unfolding set_detached ref_at
gone_upto-set_detached [] i e h s = refl
gone_upto-set_detached (r ∷ refs) zero e h s = ground arith
gone_upto-set_detached (r ∷ refs) (suc i) e h s = ground (arith, gone_upto-set_detached refs i e h)

pub gone_upto-length :
    (refs : List WorkReference) → gone_upto (length refs) refs ≡ every is_gone refs
gone_upto-length [] = refl
gone_upto-length (r ∷ refs) = ap (λ b. is_gone r && b) (gone_upto-length refs)

pub length-Detaches : (xs ys : List WorkReference) → Detaches xs ys → length xs ≡ length ys
length-Detaches [] [] d = refl
length-Detaches [] (y ∷ ys) d = absurd d
length-Detaches (x ∷ xs) [] d = absurd d
length-Detaches (x ∷ xs) (y ∷ ys) (same, mark, d) = ap suc (length-Detaches xs ys d)
