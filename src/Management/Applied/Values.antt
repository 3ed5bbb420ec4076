-- ===== src/Management/Applied/Values.antt =====
-- What the tests on untyped data show.
use karmada_with_pvmigration.Prelude.{
  String, ◌≡◌, refl, ap, ◌≢◌, Bool, true, not, Option, none, some, List, [], ◌∷◌, eq_iff, arith,
}
use karmada_with_pvmigration.Api.Core.{NfsVolumeSource}
use karmada_with_pvmigration.Machinery.{
  Value, Fields, Nested, present, absent, mistyped, null, truth, number, text, slice, object,
  text_or_empty, nested_differs, is_text, is_null,
}
use karmada_with_pvmigration.Management.Applied.Receipt.{single, same_truth, same_nfs}

pub is_text-eq : (v : Value) (t : String) → is_text v t ≡ true → v ≡ text t
is_text-eq (text s) t h = ap text ((eq_iff s t).0 h)
is_text-eq null t h = cc
is_text-eq (truth b) t h = cc
is_text-eq (number n) t h = cc
is_text-eq (slice vs) t h = cc
is_text-eq (object fs) t h = cc

pub is_null-eq : (v : Value) → is_null v ≡ true → v ≡ null
is_null-eq null h = refl
is_null-eq (text s) h = cc
is_null-eq (truth b) h = cc
is_null-eq (number n) h = cc
is_null-eq (slice vs) h = cc
is_null-eq (object fs) h = cc

pub not-nested_differs :
    (n : Nested String) (want : String)
    → not (nested_differs n want) ≡ true
    → text_or_empty n ≡ want
not-nested_differs (present s) want h = ground (arith, eq_iff s want)
not-nested_differs absent want h = ground (arith, eq_iff "" want)
not-nested_differs mistyped want h = cc

-- The two sources are one, with a server and a path.
pub record IsNfs (expected actual : Option NfsVolumeSource) : Type 0 where
  pub nfs : NfsVolumeSource
  pub planned : expected ≡ some nfs
  pub reflected : actual ≡ some nfs
  pub has_server : nfs.server ≢ ""
  pub has_path : nfs.path ≢ ""

pub same_nfs-IsNfs :
    (expected actual : Option NfsVolumeSource)
    → same_nfs expected actual ≡ true
    → IsNfs expected actual
unfolding same_nfs
same_nfs-IsNfs (some e) (some a) h =
    let same : e ≡ a =
      same_fields (ground (arith, eq_iff e.server a.server)) (ground (arith, eq_iff e.path a.path))
        (same_truth-eq e.read_only a.read_only (ground arith)) in
    record {
      nfs = a;
      planned = ap some same;
      reflected = refl;
      has_server = ground (arith, eq_iff e.server "", same);
      has_path = ground (arith, eq_iff e.path "", same);
    }
  where
    same_fields :
        {e a : NfsVolumeSource}
        → e.server ≡ a.server
        → e.path ≡ a.path
        → e.read_only ≡ a.read_only
        → e ≡ a
    same_fields p q r = cc

    same_truth-eq : (x y : Bool) → same_truth x y ≡ true → x ≡ y
    same_truth-eq x y h = ground arith
same_nfs-IsNfs none _ h = cc
same_nfs-IsNfs (some e) none h = cc

pub single-eq : (vs : List Value) {fs : Fields} → single vs ≡ some fs → vs ≡ object fs ∷ []
single-eq (object fs ∷ []) h = cc
single-eq [] h = cc
single-eq (null ∷ []) h = cc
single-eq (truth b ∷ []) h = cc
single-eq (number n ∷ []) h = cc
single-eq (text s ∷ []) h = cc
single-eq (slice vs ∷ []) h = cc
single-eq (object fs ∷ v ∷ vs) h = cc
single-eq (null ∷ v ∷ vs) h = cc
single-eq (truth b ∷ v ∷ vs) h = cc
single-eq (number n ∷ v ∷ vs) h = cc
single-eq (text s ∷ v ∷ vs) h = cc
single-eq (slice ws ∷ v ∷ vs) h = cc
