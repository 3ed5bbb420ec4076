-- ===== src/Management/Discovery/Settled.antt =====
-- A pass of the discovery controller that finds everything in place.
use karmada_with_pvmigration.Prelude.{
  ℕ, String, true, false, ◌==◌, List, [], ◌∷◌, ◌≡◌, refl, ◌⊎◌, inl, inr, none, arith, eq_iff,
  eq_refl, All, ok, found, Bool-cases,
}
use karmada_with_pvmigration.Prelude.Int.{ℤ}
use karmada_with_pvmigration.Api.{PvMetadata}
use karmada_with_pvmigration.Api.Core.{StatefulSet, label}
use karmada_with_pvmigration.Machinery.{
  Machinery, Unstructured, Value, null, truth, number, text, slice, object, index, present,
  text_or_empty,
}
use karmada_with_pvmigration.Management.Naming.{
  opt_in_label, managed_label, manager_name, stable_name,
}
use karmada_with_pvmigration.Management.Server.{
  Server, go, halt, ◌>>=◌, ask, pure, return, try, fail_if,
}
use karmada_with_pvmigration.Management.Discovery.{
  interval_or_default, is_ignored, listed_clusters, text_of, conflicts, affinity_path, discover,
  metadata_name, discover_entry, discover_entries, discover_all, follow_binding, reconcile,
}

module _ (k : Machinery) (server : Server) (sts : StatefulSet) where
  -- The server has the metadata of the StatefulSet in the cluster, and its policy for the cluster.
  pub record InPlace (cluster : String) : Type 0 where
    pub md : PvMetadata
    pub pp : Unstructured
    pub read :
        server.get_metadata [] sts.meta.namespace
          (stable_name k "pvm" (sts.meta.uid ∷ cluster ∷ []))
        ≡ found md
    pub source : md.spec.source_cluster ≡ cluster
    pub workload : md.spec.workload_ref.name ≡ sts.meta.name
    pub workload_uid : md.spec.workload_ref.uid ≡ sts.meta.uid
    pub manager : label md.meta.labels managed_label ≡ manager_name
    pub read_policy :
        server.get_policy [] sts.meta.namespace (stable_name k "pvm" (sts.meta.uid ∷ cluster ∷ []))
        ≡ found pp
    pub owned : k.is_controlled_by pp.owners md.meta ≡ true
    pub placed : k.nested_string_slice pp.spec affinity_path ≡ present (cluster ∷ [])

  -- An entry that names no cluster, or one for which all is in place.
  abbrev pub IsSettled : Value → Type 0
  IsSettled (object fs) = (text_of (index fs "name") ≡ "") ⊎ InPlace (text_of (index fs "name"))
  IsSettled null = ⊥
  IsSettled (truth b) = ⊥
  IsSettled (number n) = ⊥
  IsSettled (text s) = ⊥
  IsSettled (slice vs) = ⊥

  conflicts_lem : (cluster : String) (p : InPlace cluster) → conflicts sts cluster p.md ≡ false
  unfolding conflicts
  conflicts_lem cluster p = ground (
    arith,
    eq_iff p.md.spec.source_cluster cluster,
    eq_iff p.md.spec.workload_ref.name sts.meta.name,
    eq_iff p.md.spec.workload_ref.uid sts.meta.uid,
    eq_iff (label p.md.meta.labels managed_label) manager_name,
    p.source,
    p.workload,
    p.workload_uid,
    p.manager,
  )

  module _ (interval : ℕ) where
    pub in_place :
        (cluster : String)
        → InPlace cluster
        → discover k server interval sts cluster (metadata_name k server interval sts cluster) []
          ≡ (go tt, [])
    unfolding discover ◌>>=◌ ask pure fail_if
    in_place cluster p =
        rw (p.read, conflicts_lem cluster p, p.read_policy)
          (unfold fail_if pure in rw (p.owned, p.placed, same_test) refl)
      where
        same_test : (cluster == cluster) ≡ true
        same_test = eq_refl cluster

    settled_entry :
        (v : Value) → IsSettled v → discover_entry k server interval sts v [] ≡ (go tt, [])
    unfolding discover_entry pure
    settled_entry (object fs) (inl empty) = rw (discover_entry, empty) refl
    settled_entry (object fs) (inr p) = elim (Bool-cases (text_of (index fs "name") == "")) [
      | inl unnamed ↦ rw (discover_entry, unnamed) refl
      | inr named ↦ rw (discover_entry, named) (in_place (text_of (index fs "name")) p)
    ]
    settled_entry null s = absurd s
    settled_entry (truth b) s = absurd s
    settled_entry (number n) s = absurd s
    settled_entry (text t) s = absurd s
    settled_entry (slice vs) s = absurd s

    settled_entries :
        (vs : List Value)
        → All IsSettled vs
        → discover_entries k server interval sts vs [] ≡ (go tt, [])
    unfolding discover_entries ◌>>=◌ pure
    settled_entries [] tt = refl
    settled_entries (v ∷ vs) (here, later) = rw (settled_entry v here) (settled_entries vs later)

-- If the server has a binding of a StatefulSet that has opted in, and for each cluster that it lists
-- the metadata of the StatefulSet and the policy that places it there alone, then a pass writes
-- nothing, has no error, and is repeated after the interval.
pub discover_settled :
    (k : Machinery) (server : Server) (poll_interval : ℤ) (namespace name : String)
    (rb : Unstructured) (sts : StatefulSet) (entries : List Value)
    → (server.reads []).get_binding namespace name ≡ found rb
    → is_ignored k rb ≡ false
    → (server.reads []).get_stateful_set namespace
        (text_or_empty (k.nested_string rb.spec ("resource" ∷ "name" ∷ [])))
      ≡ found sts
    → label sts.meta.labels opt_in_label ≡ "enabled"
    → listed_clusters k rb ≡ ok entries
    → All (IsSettled k server sts) entries
    → reconcile k server poll_interval namespace name []
      ≡ (halt (interval_or_default poll_interval) none, [])
unfolding reconcile follow_binding discover_all ◌>>=◌ ask
discover_settled k server poll_interval namespace name rb sts entries read kept read_set opted
      listed settled =
    rw (read, kept, read_set, discover_all, opted_test, listed)
      (unfold try pure ◌>>=◌ return in
        rw (settled_entries k server sts (interval_or_default poll_interval) entries settled) refl)
  where
    opted_test : (label sts.meta.labels opt_in_label == "enabled") ≡ true
    opted_test = ground (arith, eq_iff (label sts.meta.labels opt_in_label) "enabled", opted)
