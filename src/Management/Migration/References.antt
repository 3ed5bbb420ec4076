-- ===== src/Management/Migration/References.antt =====
-- What the loops of the PVMigration controller leave in the recorded references.
use karmada_with_pvmigration.Prelude.{
  ℕ, zero, suc, ◌≤◌, String, Bool, true, not, ◌&&◌, ◌||◌, some, none, Option, is_some, subst, List,
  [], ◌∷◌, map, ◌≡◌, refl, ap, arith, length, Result, ok, >>=-eq-ok, Bool-cases, inl, inr,
}
use karmada_with_pvmigration.Api.{WorkReference}
use karmada_with_pvmigration.Machinery.{Machinery, Unstructured}
use karmada_with_pvmigration.Management.Routing.Repair.{ref_at, set_routing}
use karmada_with_pvmigration.Management.Migration.Sync.{set_applied}
use karmada_with_pvmigration.Management.Migration.Receipts.{
  with_receipt, receipt_for, record_receipts,
}

-- What is recorded of a Work before it is made, and whether it has been detached.
abbrev pub identity : WorkReference → String × String × Bool × Bool
identity ref = (ref.name, ref.namespace, ref.standalone, ref.detached)

abbrev pub is_settled : WorkReference → Bool
is_settled ref = ref.applied || ref.detached

abbrev pub every : (WorkReference → Bool) → List WorkReference → Bool
every p [] = true
every p (ref ∷ refs) = p ref && every p refs

-- The references before an index are settled.
abbrev pub settled_upto : ℕ → List WorkReference → Bool
settled_upto zero refs = true
settled_upto (suc i) [] = true
settled_upto (suc i) (ref ∷ refs) = is_settled ref && settled_upto i refs

abbrev pub is_attached : WorkReference → Bool
is_attached ref = not ref.detached

-- Whether references are attached is part of their identities.
pub every_attached-identity :
    (xs ys : List WorkReference)
    → map identity xs ≡ map identity ys
    → every is_attached xs ≡ every is_attached ys
every_attached-identity [] [] e = refl
every_attached-identity [] (y ∷ ys) e = cc
every_attached-identity (x ∷ xs) [] e = cc
every_attached-identity (x ∷ xs) (y ∷ ys) e =
    let rest = every_attached-identity xs ys (cc) in
    let same : x.detached ≡ y.detached = cc in rw (rest, same)

pub identity-set_applied :
    (refs : List WorkReference) (i : ℕ) (b : Bool)
    → map identity (set_applied refs i b) ≡ map identity refs
unfolding set_applied
identity-set_applied [] i b = refl
identity-set_applied (ref ∷ refs) zero b = refl
identity-set_applied (ref ∷ refs) (suc i) b =
    ap (λ ids. identity ref ∷ ids) (identity-set_applied refs i b)

pub identity-set_routing :
    (refs : List WorkReference) (i : ℕ) (uid : String) (g : ℕ)
    → map identity (set_routing refs i uid g) ≡ map identity refs
unfolding set_routing
identity-set_routing [] i uid g = refl
identity-set_routing (ref ∷ refs) zero uid g = refl
identity-set_routing (ref ∷ refs) (suc i) uid g =
    ap (λ ids. identity ref ∷ ids) (identity-set_routing refs i uid g)

pub ref_at-set_applied :
    (refs : List WorkReference) (i j : ℕ) (b : Bool)
    → suc i ≤ j
    → ref_at (set_applied refs i b) j ≡ ref_at refs j
unfolding set_applied ref_at
ref_at-set_applied [] i j b h = refl
ref_at-set_applied (ref ∷ refs) i zero b h = absurd (omega arith)
ref_at-set_applied (ref ∷ refs) zero (suc j) b h = refl
ref_at-set_applied (ref ∷ refs) (suc i) (suc j) b h = ref_at-set_applied refs i j b (omega arith)

-- One more reference is settled.
pub settled_upto-suc :
    (refs : List WorkReference) (i : ℕ) {ref : WorkReference}
    → ref_at refs i ≡ some ref
    → is_settled ref ≡ true
    → settled_upto i refs ≡ true
    → settled_upto (suc i) refs ≡ true
unfolding ref_at
settled_upto-suc [] i e h s = refl
settled_upto-suc (r ∷ refs) zero e h s = ground arith
settled_upto-suc (r ∷ refs) (suc i) e h s = ground (arith, settled_upto-suc refs i e h)

pub settled_upto-set_applied :
    (refs : List WorkReference) (i : ℕ)
    → settled_upto i refs ≡ true
    → settled_upto (suc i) (set_applied refs i true) ≡ true
unfolding set_applied
settled_upto-set_applied [] i s = refl
settled_upto-set_applied (r ∷ refs) zero s = refl
settled_upto-set_applied (r ∷ refs) (suc i) s = ground (arith, settled_upto-set_applied refs i)

pub settled_upto-length :
    (refs : List WorkReference) → settled_upto (length refs) refs ≡ every is_settled refs
settled_upto-length [] = refl
settled_upto-length (r ∷ refs) = ap (λ b. is_settled r && b) (settled_upto-length refs)

-- The receipts keep the identities, and `all` stays true only where it was and each reference is left
-- settled that was.
pub record IsRecorded (refs refs' : List WorkReference) (all all' : Bool) : Type 0 where
  pub kept : map identity refs' ≡ map identity refs
  pub still_all : all' ≡ true → all ≡ true
  pub settled : all' ≡ true → every is_settled refs ≡ true → every is_settled refs' ≡ true

IsRecorded-skip :
    (ref : WorkReference) {refs refs' : List WorkReference} {all all' : Bool}
    → IsRecorded refs refs' all all'
    → IsRecorded (ref ∷ refs) (ref ∷ refs') all all'
IsRecorded-skip ref r = record {
  kept = ap (λ ids. identity ref ∷ ids) r.kept;
  still_all = r.still_all;
  settled = λ h s. ground (arith, r.settled h);
}

IsRecorded-pair :
    (ref : WorkReference) (receipt : Option (String × String)) {refs refs' : List WorkReference}
    {all all' : Bool}
    → IsRecorded refs refs' (all && is_some receipt) all'
    → IsRecorded (ref ∷ refs) (with_receipt ref receipt ∷ refs') all all'
IsRecorded-pair ref none r = record {
  kept = ap (λ ids. identity ref ∷ ids) r.kept;
  still_all = λ h. ground (arith, r.still_all h);
  settled = λ h s. ground (arith, r.still_all h);
}
IsRecorded-pair ref (some (u, c)) r = record {
  kept = ap (λ ids. identity ref ∷ ids) r.kept;
  still_all = λ h. ground (arith, r.still_all h);
  settled = λ h s. ground (arith, r.settled h);
}

IsRecorded-as :
    {refs refs' done : List WorkReference} {all all' flag : Bool}
    → ◌≡◌ {A = Result (List WorkReference × Bool)} (ok (done, flag)) (ok (refs', all'))
    → IsRecorded refs done all flag
    → IsRecorded refs refs' all all'
IsRecorded-as {refs} {all = all} e r =
    subst (λ (x : List WorkReference × Bool). IsRecorded refs x.0 all x.1) (cc) r

module _ (k : Machinery) where
  pub record_receipts-IsRecorded :
      (observed : List (String × Unstructured)) (refs : List WorkReference)
      (works : List Unstructured) (all : Bool) (refs' : List WorkReference) (all' : Bool)
      → record_receipts k observed refs works all ≡ ok (refs', all')
      → IsRecorded refs refs' all all'
  unfolding record_receipts
  record_receipts-IsRecorded observed [] works all refs' all' h =
      IsRecorded-as h (record { kept = refl; still_all = λ h. h; settled = λ h s. s })
  record_receipts-IsRecorded observed (ref ∷ refs) [] all refs' all' h = cc
  record_receipts-IsRecorded observed (ref ∷ refs) (w ∷ works) all refs' all' h =
      elim (Bool-cases (not ref.standalone || ref.detached)) [
        | inl skipped ↦
            let (x, e, h₁) =
              >>=-eq-ok (record_receipts k observed refs works all) _
                (rw (skipped, record_receipts) at h) in
            IsRecorded-as h₁
              (IsRecorded-skip ref (record_receipts-IsRecorded observed refs works all x.0 x.1 e))
        | inr paired ↦
            let receipt = receipt_for k observed w in
            let (x, e, h₁) =
              >>=-eq-ok (record_receipts k observed refs works (all && is_some receipt)) _
                (rw (paired, record_receipts) at h) in
            IsRecorded-as h₁ (
              IsRecorded-pair ref receipt
                (record_receipts-IsRecorded observed refs works (all && is_some receipt) x.0 x.1 e))
      ]
