-- ===== src/Management/Cleanup/Planned.antt =====
-- What the comparison of a Work with the plan shows.
use karmada_with_pvmigration.Prelude.{
  ℕ, zero, suc, Bool, true, some, List, [], ◌∷◌, ◌≡◌, refl, ◌⊎◌, inl, inr, arith, Result, ok, err,
  Bool-cases,
}
use karmada_with_pvmigration.Api.{PvMigration, WorkReference}
use karmada_with_pvmigration.Machinery.{Machinery, Unstructured}
use karmada_with_pvmigration.Management.Applied.Receipt.{same_truth, standalone_work}
use karmada_with_pvmigration.Management.Routing.Repair.{validate_work}
use karmada_with_pvmigration.Management.Migration.Allowed.{work_at}
use karmada_with_pvmigration.Management.Cleanup.Detach.{is_same_work, find_planned}

same_truth-eq : (a b : Bool) → same_truth a b ≡ true → a ≡ b
same_truth-eq a b h = ground arith

module _ (k : Machinery) (m : PvMigration) (ref : WorkReference) (w : Unstructured) where
  -- One of the planned Works is that Work, of the recorded kind, and valid.
  pub record IsFound (works : List Unstructured) : Type 0 where
    pub i : ℕ
    pub expected : Unstructured
    pub planned : work_at works i ≡ some expected
    pub same : is_same_work expected w ≡ true
    pub kind : ref.standalone ≡ standalone_work expected
    pub valid : validate_work k w expected m ≡ ok tt

  IsFound-later :
      (e : Unstructured) (works : List Unstructured) → IsFound works → IsFound (e ∷ works)
  IsFound-later e works f = record {
    i = suc f.i;
    expected = f.expected;
    planned = f.planned;
    same = f.same;
    kind = f.kind;
    valid = f.valid;
  }

  pub find_planned-IsFound :
      (works : List Unstructured) (matched : Bool)
      → find_planned k m ref w works matched ≡ ok true
      → (matched ≡ true) ⊎ IsFound works
  unfolding find_planned
  find_planned-IsFound [] matched h = inl (cc)
  find_planned-IsFound (e ∷ works) matched h = elim (Bool-cases (is_same_work e w)) [
    | inr other_work ↦
        later (find_planned-IsFound works matched (rw (other_work, find_planned) at h))
    | inl same ↦ elim (Bool-cases (same_truth ref.standalone (standalone_work e))) [
      | inr kind ↦ absurd (cc (rw (same, find_planned, kind) at h))
      | inl kind ↦ inr (
          here same (same_truth-eq ref.standalone (standalone_work e) kind) (validate_work k w e m)
            refl (rw (same, find_planned, kind) at h))
    ]
  ]
    where
      later : (matched ≡ true) ⊎ IsFound works → (matched ≡ true) ⊎ IsFound (e ∷ works)
      later (inl p) = inl p
      later (inr f) = inr (IsFound-later e works f)

      here :
          is_same_work e w ≡ true
          → ref.standalone ≡ standalone_work e
          → (v : Result (Unit {0})) → validate_work k w e m ≡ v
          → elim v [ err x ↦ err x | ok valid ↦ find_planned k m ref w works true ] ≡ ok true
          → IsFound (e ∷ works)
      here same kind (ok valid) v h' = record {
        i = zero;
        expected = e;
        planned = refl;
        same = same;
        kind = kind;
        valid = v;
      }
      here same kind (err x) v h' = cc
