-- ===== src/Management/Discovery/Safe.antt =====
-- All writes of a pass of the discovery controller are allowed.
use karmada_with_pvmigration.Prelude.{
  ℕ, String, true, false, List, [], ◌∷◌, ◌==◌, ◌≡◌, refl, inl, inr, arith, eq_iff, ok, Reply, found,
  failed, Bool-cases, none,
}
use karmada_with_pvmigration.Prelude.Int.{ℤ}
use karmada_with_pvmigration.Api.Core.{StatefulSet, label}
use karmada_with_pvmigration.Machinery.{
  Machinery, Unstructured, Value, null, truth, number, text, slice, object, index, text_or_empty,
}
use karmada_with_pvmigration.Management.Naming.{opt_in_label}
use karmada_with_pvmigration.Management.Server.{Server, ◌>>=◌, ask, pure, return, writes_of}
use karmada_with_pvmigration.Management.Server.Rules.{
  Any, Ensures, Ensures-then, Ensures-try, Ensures-return, Ensures-pure,
}
use karmada_with_pvmigration.Management.Discovery.{
  interval_or_default, is_ignored, listed_clusters, text_of, discover, metadata_name,
  discover_entry, discover_entries, discover_all, follow_binding, reconcile,
}
use karmada_with_pvmigration.Management.Discovery.Allowed.{IsEntry, IsAllowed, IsDiscovery}
use karmada_with_pvmigration.Management.Discovery.Clusters.{discover-Ensures}

module _ (k : Machinery) (server : Server) (interval : ℕ) (rb : Unstructured) (sts : StatefulSet)
    (entries : List Value) (listed : listed_clusters k rb ≡ ok entries) where
  entry-Ensures :
      (v : Value)
      → IsEntry v entries
      → Ensures (IsAllowed k server rb sts) Any (discover_entry k server interval sts v)
  unfolding discover_entry
  entry-Ensures (object fs) is_entry = by_name (text_of (index fs "name")) refl
    where
      by_name :
          (cluster : String)
          → text_of (index fs "name") ≡ cluster
          → Ensures (IsAllowed k server rb sts) Any (elim (cluster == "") [
            | true ↦ pure tt
            | false ↦
                discover k server interval sts cluster (metadata_name k server interval sts cluster)
          ])
      by_name cluster named = elim (Bool-cases (cluster == "")) [
        | inl empty ↦ rw (empty) (Ensures-pure tt tt)
        | inr full ↦ rw (full) (
            discover-Ensures k server interval rb sts cluster
              (metadata_name k server interval sts cluster) refl
              (record {
                entries = entries;
                fs = fs;
                listed = listed;
                entry = is_entry;
                named = named;
                has_name = λ e. ground (arith, eq_iff cluster "");
              }))
      ]
  entry-Ensures null is_entry = Ensures-return interval _
  entry-Ensures (truth b) is_entry = Ensures-return interval _
  entry-Ensures (number n) is_entry = Ensures-return interval _
  entry-Ensures (text s) is_entry = Ensures-return interval _
  entry-Ensures (slice vs) is_entry = Ensures-return interval _

  entries-Ensures :
      (vs : List Value)
      → ((v : Value) → IsEntry v vs → IsEntry v entries)
      → Ensures (IsAllowed k server rb sts) Any (discover_entries k server interval sts vs)
  unfolding discover_entries
  entries-Ensures [] within = Ensures-pure tt tt
  entries-Ensures (v ∷ vs) within =
      Ensures-then _ _ (entry-Ensures v (within v (inl refl)))
        (λ done all_done. entries-Ensures vs (λ v' later. within v' (inr later)))

module _ (k : Machinery) (server : Server) (interval : ℕ) (rb : Unstructured)
    (sts : StatefulSet) where
  -- The rest of the pass, where the StatefulSet has opted in.
  all-Ensures :
      (label sts.meta.labels opt_in_label == "enabled") ≡ true
      → Ensures (IsAllowed k server rb sts) Any (discover_all k server interval rb sts)
  unfolding discover_all
  all-Ensures opted =
      rw (discover_all, opted)
        (Ensures-try interval (listed_clusters k rb) _ (λ entries listed.
          Ensures-then _ _
            (entries-Ensures k server interval rb sts entries listed entries (λ v in_all. in_all))
            (λ done all_done. Ensures-return interval none)))

unlabelled :
    (k : Machinery) (server : Server) (interval : ℕ) (rb : Unstructured) (sts : StatefulSet)
    → (label sts.meta.labels opt_in_label == "enabled") ≡ false
    → (discover_all k server interval rb sts []).1 ≡ []
unfolding discover_all return
unlabelled k server interval rb sts out = rw (discover_all, out) refl

-- A binding that is followed.
kept_parts :
    (k : Machinery) (rb : Unstructured)
    → is_ignored k rb ≡ false
    → (text_or_empty (k.nested_string rb.spec ("resource" ∷ "kind" ∷ [])) ≡ "StatefulSet")
      × (text_or_empty (k.nested_string rb.spec ("resource" ∷ "apiVersion" ∷ [])) ≡ "apps/v1")
      × (rb.meta.deleting ≡ false)
unfolding is_ignored
kept_parts k rb h = ground (
  arith,
  eq_iff (text_or_empty (k.nested_string rb.spec ("resource" ∷ "kind" ∷ []))) "StatefulSet",
  eq_iff (text_or_empty (k.nested_string rb.spec ("resource" ∷ "apiVersion" ∷ []))) "apps/v1",
)

-- A pass of the discovery controller writes nothing, or is about a binding that the server has, of a
-- StatefulSet of apps/v1, not being deleted, and a StatefulSet that has opted in. Then every write
-- makes metadata, or a policy, where the server has none. Both bear the name of the StatefulSet's UID
-- and a cluster that the binding lists. The metadata records the volumes of this StatefulSet in this
-- cluster; the policy selects only this StatefulSet's metadata for the cluster, as the server shows
-- it, is controlled by it, and places it in this cluster alone.
pub discover-IsDiscovery :
    (k : Machinery) (server : Server) (poll_interval : ℤ) (namespace name : String)
    → IsDiscovery k server namespace name
        (writes_of (reconcile k server poll_interval namespace name))
unfolding IsDiscovery reconcile follow_binding ◌>>=◌ ask return
discover-IsDiscovery k server poll_interval namespace name =
    by_binding ((server.reads []).get_binding namespace name) refl
  where
    Outcome : Type 0
    Outcome =
        IsDiscovery k server namespace name
          (writes_of (reconcile k server poll_interval namespace name))

    by_set :
        (rb : Unstructured) (answer : Reply StatefulSet)
        → (server.reads []).get_binding namespace name ≡ found rb
        → is_ignored k rb ≡ false
        → (server.reads []).get_stateful_set namespace
            (text_or_empty (k.nested_string rb.spec ("resource" ∷ "name" ∷ [])))
          ≡ answer
        → Outcome
    by_set rb (failed e) read kept read_set = inl (rw (read, kept, read_set) refl)
    by_set rb (found sts) read kept read_set =
        elim (Bool-cases (label sts.meta.labels opt_in_label == "enabled")) [
          | inl opted ↦ inr (
            rb,
            sts,
            read,
            (kept_parts k rb kept).0,
            (kept_parts k rb kept).1,
            (kept_parts k rb kept).2,
            read_set,
            (eq_iff (label sts.meta.labels opt_in_label) "enabled").0 opted,
            rw (read, kept, read_set)
                ((all-Ensures k server (interval_or_default poll_interval) rb sts opted).at []
                  tt).0,
          )
          | inr out ↦ inl (rw (read, kept, read_set) (unlabelled k server _ rb sts out))
        ]

    by_binding :
        (answer : Reply Unstructured)
        → (server.reads []).get_binding namespace name ≡ answer
        → Outcome
    by_binding (failed e) read = inl (rw (read) refl)
    by_binding (found rb) read = elim (Bool-cases (is_ignored k rb)) [
      | inl ignored ↦ inl (rw (read, ignored) refl)
      | inr kept ↦ by_set rb _ read kept refl
    ]
