-- ===== src/Management/Discovery/Repeated.antt =====
-- The intervals that the discovery controller returns.
use karmada_with_pvmigration.Prelude.{
  ℕ, zero, suc, refl, inl, inr, eq_iff, String, Bool, true, false, ◌==◌, ◌≡◌, List, [], ◌∷◌, none,
  arith, Reply, found, failed, not_found, already_exists, other,
}
use karmada_with_pvmigration.Prelude.Int.{ℤ, pos, negsuc}
use karmada_with_pvmigration.Api.{PvMetadata}
use karmada_with_pvmigration.Api.Core.{StatefulSet, label}
use karmada_with_pvmigration.Machinery.{
  Machinery, Unstructured, Value, null, truth, number, text, slice, object, index, text_or_empty,
}
use karmada_with_pvmigration.Management.Naming.{opt_in_label}
use karmada_with_pvmigration.Management.Server.{
  Server, ◌>>=◌, ◌>>◌, pure, return, try, ask, ignore_not_found,
}
use karmada_with_pvmigration.Management.Server.Intervals.{
  Keeps, Ends, IsInterval, IsRepeated, MustHalt-IsRepeated, Ends-return, Ends-then, Keeps-then,
  Keeps-return, Keeps-pure, Keeps-try, Keeps-ask, Keeps-must_or_exists, Keeps-write, Keeps-fail_if,
}
use karmada_with_pvmigration.Management.Discovery.{
  interval_or_default, is_ignored, listed_clusters, text_of, metadata_by_answer, policy_by_answer,
  discover, metadata_name, discover_entry, discover_entries, discover_all, follow_binding,
  reconcile,
}

module _ (k : Machinery) (server : Server) (i : ℕ) (sts : StatefulSet) where
  metadata-Keeps :
      (cluster name : String) (r : Reply PvMetadata)
      → Keeps i (metadata_by_answer k server i sts cluster name r)
  metadata-Keeps cluster name (found md) = Keeps-pure i md
  metadata-Keeps cluster name (failed (not_found e)) =
      Keeps-then i _ _ (Keeps-write i server _) (λ a.
        Keeps-then i _ _ (Keeps-must_or_exists i a)
          (λ u. Keeps-then i _ _ (Keeps-ask i _) (λ again. Keeps-try i _)))
  metadata-Keeps cluster name (failed (already_exists e)) = Keeps-return i _
  metadata-Keeps cluster name (failed (other e)) = Keeps-return i _

  policy-Keeps :
      (cluster name : String) (md : PvMetadata) (r : Reply Unstructured)
      → Keeps i (policy_by_answer k server i sts cluster name md r)
  policy-Keeps cluster name md (found pp) =
      Keeps-then i _ _ (Keeps-fail_if i _ _) (λ u. Keeps-fail_if i _ _)
  policy-Keeps cluster name md (failed (not_found e)) =
      Keeps-then i _ _ (Keeps-write i server _) (λ a. Keeps-must_or_exists i a)
  policy-Keeps cluster name md (failed (already_exists e)) = Keeps-return i _
  policy-Keeps cluster name md (failed (other e)) = Keeps-return i _

  discover-Keeps : (cluster name : String) → Keeps i (discover k server i sts cluster name)
  unfolding discover
  discover-Keeps cluster name = Keeps-then i _ _ (Keeps-ask i _) (λ r.
      Keeps-then i _ _ (metadata-Keeps cluster name r) (λ md.
        Keeps-then i _ _ (Keeps-fail_if i _ _)
          (λ u. Keeps-then i _ _ (Keeps-ask i _) (λ r. policy-Keeps cluster name md r))))

  entry-Keeps : (v : Value) → Keeps i (discover_entry k server i sts v)
  unfolding discover_entry
  entry-Keeps (object fs) = by_name (text_of (index fs "name") == "")
    where
      by_name :
          (unnamed : Bool)
          → Keeps {A = Unit {0}} i (elim unnamed [
            | true ↦ pure tt
            | false ↦
                discover k server i sts
                  (text_of (index fs "name"))
                  (metadata_name k server i sts (text_of (index fs "name")))
          ])
      by_name true = Keeps-pure i tt
      by_name false = discover-Keeps _ _
  entry-Keeps null = Keeps-return i _
  entry-Keeps (truth b) = Keeps-return i _
  entry-Keeps (number n) = Keeps-return i _
  entry-Keeps (text s) = Keeps-return i _
  entry-Keeps (slice vs) = Keeps-return i _

  entries-Keeps : (vs : List Value) → Keeps i (discover_entries k server i sts vs)
  unfolding discover_entries
  entries-Keeps [] = Keeps-pure i tt
  entries-Keeps (v ∷ vs) = Keeps-then i _ _ (entry-Keeps v) (λ u. entries-Keeps vs)

module _ (k : Machinery) (server : Server) (i : ℕ) where
  discover_all-Ends :
      (rb : Unstructured) (sts : StatefulSet) → Ends i (discover_all k server i rb sts)
  unfolding discover_all
  discover_all-Ends rb sts = by_label (label sts.meta.labels opt_in_label == "enabled")
    where
      by_label :
          (opted : Bool)
          → Ends {A = Unit {0}} i (elim opted [
            | false ↦ return i none
            | true ↦ do
              entries ← try i (listed_clusters k rb)
              discover_entries k server i sts entries
              return i none
          ])
      by_label false = Ends-return i none
      by_label true = Ends-then i _ _ (Keeps-try i _) (λ entries.
          Ends-then i _ _ (entries-Keeps k server i sts entries) (λ u. Ends-return i none))

  follow_binding-Ends :
      (namespace : String) (rb : Unstructured) → Ends i (follow_binding k server i namespace rb)
  unfolding follow_binding
  follow_binding-Ends namespace rb = Ends-then i _ _ (Keeps-ask i _) by_reply
    where
      by_reply :
          (r : Reply StatefulSet)
          → Ends {A = Unit {0}} i (elim r [
            | failed e ↦ return i (ignore_not_found e)
            | found sts ↦ discover_all k server i rb sts
          ])
      by_reply (failed e) = Ends-return i _
      by_reply (found sts) = discover_all-Ends rb sts

default-IsInterval : (d : ℤ) → IsInterval 30000000000 d (interval_or_default d)
unfolding interval_or_default
default-IsInterval (pos zero) = inr (inl refl, refl)
default-IsInterval (pos (suc n)) = inl (suc n, refl, omega arith, ground arith)
default-IsInterval (negsuc n) = inr (inr (n, refl), ground arith)

not_ignored :
    (k : Machinery) (rb : Unstructured)
    → text_or_empty (k.nested_string rb.spec ("resource" ∷ "kind" ∷ [])) ≡ "StatefulSet"
    → text_or_empty (k.nested_string rb.spec ("resource" ∷ "apiVersion" ∷ [])) ≡ "apps/v1"
    → rb.meta.deleting ≡ false
    → is_ignored k rb ≡ false
unfolding is_ignored
not_ignored k rb kind version live = ground (
  arith,
  eq_iff (text_or_empty (k.nested_string rb.spec ("resource" ∷ "kind" ∷ []))) "StatefulSet",
  eq_iff (text_or_empty (k.nested_string rb.spec ("resource" ∷ "apiVersion" ∷ []))) "apps/v1",
)

-- A pass over a binding of a StatefulSet of apps/v1 that is not being deleted returns an error, or
-- asks for another pass: after the interval of the controller, or after thirty seconds where that is
-- not positive.
pub discover_repeats :
    (k : Machinery) (server : Server) (poll_interval : ℤ) (namespace name : String)
    (rb : Unstructured)
    → (server.reads []).get_binding namespace name ≡ found rb
    → text_or_empty (k.nested_string rb.spec ("resource" ∷ "kind" ∷ [])) ≡ "StatefulSet"
    → text_or_empty (k.nested_string rb.spec ("resource" ∷ "apiVersion" ∷ [])) ≡ "apps/v1"
    → rb.meta.deleting ≡ false
    → IsRepeated 30000000000 poll_interval (reconcile k server poll_interval namespace name []).0
unfolding reconcile ◌>>=◌ ask
discover_repeats k server poll_interval namespace name rb read kind version live =
    let i = interval_or_default poll_interval in
    rw (read, not_ignored k rb kind version live)
      (MustHalt-IsRepeated 30000000000 poll_interval i _ (default-IsInterval poll_interval)
        ((follow_binding-Ends k server i namespace rb).at []))
