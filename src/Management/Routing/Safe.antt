-- ===== src/Management/Routing/Safe.antt =====
-- When ensureWorkRouting of internal/management/work_routing.go touches anything.
use karmada_with_pvmigration.Prelude.{
  ℕ, zero, suc, String, ap, ◌≡◌, ◌≢◌, ◌⊎◌, inl, inr, refl, true, false, not, ◌||◌, some, List, [],
  ◌∷◌, arith, eq_iff, is_empty, eqb, ok, >>=-eq-ok, reject, Bool-cases, Option-cases, ◌==◌,
}
use karmada_with_pvmigration.Api.{PvMigration, WorkReference}
use karmada_with_pvmigration.Api.Core.{label}
use karmada_with_pvmigration.Machinery.{Machinery, Unstructured, Value}
use karmada_with_pvmigration.Management.Naming.{owner_label, managed_label, manager_name}
use karmada_with_pvmigration.Management.Works.Manifests.{set_work_routing}
use karmada_with_pvmigration.Management.Applied.Receipt.{pair_of, statuses_of}
use karmada_with_pvmigration.Management.Routing.Repair.{
  ref_at, set_routing, with_routing, Repair, unchanged, record_intent, rewrite, same_spec,
  validate_work, remove_work_routing, intend_or_rewrite, repair, ensure_work_routing,
}

ref_at-set_routing_same :
    (refs : List WorkReference) (i : ℕ) (uid : String) (generation : ℕ) (ref : WorkReference)
    → ref_at refs i ≡ some ref
    → ref_at (set_routing refs i uid generation) i
      ≡ some (record ref { routing_work_uid = uid; routing_generation = generation })
unfolding ref_at set_routing
ref_at-set_routing_same [] i uid generation ref e = absurd cc
ref_at-set_routing_same (x ∷ xs) zero uid generation ref e =
    let same : x ≡ ref = cc in
    ap
      (λ (y : WorkReference).
        some (record y { routing_work_uid = uid; routing_generation = generation }))
      same
ref_at-set_routing_same (x ∷ xs) (suc i) uid generation ref e =
    ref_at-set_routing_same xs i uid generation ref e

ref_at-set_routing_other :
    (refs : List WorkReference) (i j : ℕ) (uid : String) (generation : ℕ)
    → j ≢ i
    → ref_at (set_routing refs i uid generation) j ≡ ref_at refs j
unfolding ref_at set_routing
ref_at-set_routing_other [] i j uid generation ne = refl
ref_at-set_routing_other (x ∷ xs) zero zero uid generation ne = absurd (ne refl)
ref_at-set_routing_other (x ∷ xs) zero (suc j) uid generation ne = refl
ref_at-set_routing_other (x ∷ xs) (suc i) zero uid generation ne = refl
ref_at-set_routing_other (x ∷ xs) (suc i) (suc j) uid generation ne =
    ref_at-set_routing_other xs i j uid generation (λ e. ne (ap suc e))

module _ (k : Machinery) (m : PvMigration) (i : ℕ) (actual expected : Unstructured) where
  -- The Work is new, unapplied and the migration's own, and is the expected one but for the routing.
  pub record IsLegacy (ref : WorkReference) : Type 0 where
    pub legacy : Unstructured
    pub without_routing : remove_work_routing k expected ≡ ok legacy
    pub same : same_spec k actual legacy ≡ true
    pub pair : pair_of actual ≡ pair_of legacy
    pub owner : label actual.meta.labels owner_label ≡ m.meta.uid
    pub manager : label actual.meta.labels managed_label ≡ manager_name
    pub first_generation : actual.meta.generation ≡ 1
    pub has_uid : actual.meta.uid ≢ ""
    pub unapplied : ref.applied ≡ false
    pub attached : ref.detached ≡ false
    pub unreflected : statuses_of k actual ≡ []

  -- The migration differs from `m` in one reference alone, which now names the UID of the Work and
  -- the generation that the rewritten Work will have.
  pub record RecordsIntent (ref : WorkReference) (m' : PvMigration) : Type 0 where
    pub meta : m'.meta ≡ m.meta
    pub spec : m'.spec ≡ m.spec
    pub phase : m'.status.phase ≡ m.status.phase
    pub hash : m'.status.plan_hash ≡ m.status.plan_hash
    pub generation : m'.status.observed_generation ≡ m.status.observed_generation
    pub intent :
        (ref' : WorkReference) × (ref_at m'.status.works i ≡ some ref')
        × (ref'.routing_work_uid ≡ actual.meta.uid)
        × (ref'.routing_generation ≡ 2)
        × (ref'.name ≡ ref.name)
        × (ref'.namespace ≡ ref.namespace)
        × (ref'.standalone ≡ ref.standalone)
        × (ref'.applied ≡ ref.applied)
        × (ref'.detached ≡ ref.detached)
    pub others : (j : ℕ) → j ≢ i → ref_at m'.status.works j ≡ ref_at m.status.works j

  with_routing-RecordsIntent :
      (ref : WorkReference)
      → ref_at m.status.works i ≡ some ref
      → RecordsIntent ref (with_routing m i actual.meta.uid 2)
  with_routing-RecordsIntent ref e = record {
    meta = refl;
    spec = refl;
    phase = refl;
    hash = refl;
    generation = refl;
    intent = (
      _,
      ref_at-set_routing_same m.status.works i actual.meta.uid 2 ref e,
      refl,
      refl,
      refl,
      refl,
      refl,
      refl,
      refl,
    );
    others = λ j ne. ref_at-set_routing_other m.status.works i j actual.meta.uid 2 ne;
  }

  -- First the intent is recorded; the Work is rewritten under the recorded intent for its UID.
  abbrev pub IsStep : WorkReference → Repair → Type 0
  IsStep ref r =
      ((ref.routing_work_uid ≡ "")
        × ((m' : PvMigration) × (r ≡ record_intent m')
            × (m' ≡ with_routing m i actual.meta.uid 2)
            × RecordsIntent ref m'))
      ⊎ ((ref.routing_work_uid ≡ actual.meta.uid)
          × (ref.routing_generation ≡ 2)
          × ((w : Unstructured) × (set_work_routing k actual ≡ ok w) × (r ≡ rewrite w)))

  abbrev pub IsSafe : Repair → Type 0
  IsSafe r =
      ((r ≡ unchanged) × (same_spec k actual expected ≡ true))
      ⊎ ((ref : WorkReference) × (ref_at m.status.works i ≡ some ref) × IsLegacy ref × IsStep ref r)

  is_empty-eq : (vs : List Value) → not (not (is_empty vs)) ≡ true → vs ≡ []
  is_empty-eq [] h = refl
  is_empty-eq (v ∷ vs) h = cc

  intend_or_rewrite-IsStep :
      (ref : WorkReference) (r : Repair)
      → ref_at m.status.works i ≡ some ref
      → intend_or_rewrite k m i ref actual ≡ ok r
      → IsStep ref r
  unfolding intend_or_rewrite
  intend_or_rewrite-IsStep ref r at_i h = elim (Bool-cases (ref.routing_work_uid == "")) [
    | inl fresh ↦ inl (
      (eq_iff ref.routing_work_uid "").0 fresh,
      (
        with_routing m i actual.meta.uid 2,
        cc (rw fresh at h),
        refl,
        with_routing-RecordsIntent ref at_i,
      ),
    )
    | inr intended ↦
        let (_, same, h₁) =
          >>=-eq-ok
            (reject
              (not (ref.routing_work_uid == actual.meta.uid) || not (eqb ref.routing_generation 2))
              _)
            _ (rw intended at h) in
        let (w, set, h₂) = >>=-eq-ok (set_work_routing k actual) _ h₁ in
        inr
          (ground (arith, eq_iff ref.routing_work_uid actual.meta.uid), ground arith, (w, set, cc))
  ]

  repair-IsSafe :
      (ref : WorkReference) (r : Repair)
      → ref_at m.status.works i ≡ some ref
      → repair k m i ref actual expected ≡ ok r
      → IsLegacy ref × IsStep ref r
  unfolding repair validate_work
  repair-IsSafe ref r at_i h =
      let (legacy, without, h₁) = >>=-eq-ok (remove_work_routing k expected) _ h in
      let (_, fresh, h₂) =
        >>=-eq-ok
          (reject
            (not (eqb actual.meta.generation 1)
              || actual.meta.uid == ""
              || ref.applied
              || ref.detached)
            _)
          _ h₁ in
      let (_, valid, h₃) =
        >>=-eq-ok (validate_work k actual legacy (with_routing m i "" ref.routing_generation)) _
          h₂ in
      let (_, own, h₄) =
        >>=-eq-ok
          (reject
            (not (pair_of actual == pair_of legacy)
              || not (label actual.meta.labels owner_label == m.meta.uid)
              || not (label actual.meta.labels managed_label == manager_name)
              || not (same_spec k actual legacy))
            _)
          _ valid in
      let (_, bare, h₅) = >>=-eq-ok (reject (not (is_empty (statuses_of k actual))) _) _ h₃ in
      (
        record {
          legacy = legacy;
          without_routing = without;
          same = ground arith;
          pair = ground (arith, eq_iff (pair_of actual) (pair_of legacy));
          owner = ground (arith, eq_iff (label actual.meta.labels owner_label) m.meta.uid);
          manager = ground (arith, eq_iff (label actual.meta.labels managed_label) manager_name);
          first_generation = ground arith;
          has_uid = ground (arith, eq_iff actual.meta.uid "");
          unapplied = ground arith;
          attached = ground arith;
          unreflected = is_empty-eq (statuses_of k actual) (ground arith);
        },
        intend_or_rewrite-IsStep ref r at_i h₅,
      )

  pub ensure_work_routing-IsSafe :
      (r : Repair)
      → ensure_work_routing k m i actual expected ≡ ok r
      → (actual.meta.deleting ≡ false) × IsSafe r
  unfolding ensure_work_routing
  ensure_work_routing-IsSafe r h = elim (Option-cases (ref_at m.status.works i)) [
    | inl n ↦ absurd (cc (rw n at h))
    | inr (ref, e) ↦
        let (_, live, h₁) = >>=-eq-ok (reject actual.meta.deleting _) _ (rw e at h) in
        (
          ground arith,
          elim (Bool-cases (same_spec k actual expected)) [
            | inl same ↦ inl (cc (rw same at h₁), same)
            | inr differ ↦
                let (old, step) = repair-IsSafe ref r e (rw differ at h₁) in inr (ref, e, old, step)
          ],
        )
  ]
