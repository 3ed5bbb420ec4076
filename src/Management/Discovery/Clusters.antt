-- ===== src/Management/Discovery/Clusters.antt =====
-- What a round for one cluster may write.
use karmada_with_pvmigration.Prelude.{
  ℕ, String, false, not, List, [], ◌∷◌, ◌≡◌, refl, arith, eq_iff, ok, Reply, found, failed,
  not_found, already_exists, other, got, ◌∙◌,
}
use karmada_with_pvmigration.Api.{PvMetadata}
use karmada_with_pvmigration.Api.Core.{StatefulSet, label}
use karmada_with_pvmigration.Machinery.{Machinery, Unstructured}
use karmada_with_pvmigration.Management.Naming.{managed_label, manager_name, stable_name}
use karmada_with_pvmigration.Management.Server.{Write, Server, must_or_exists}
use karmada_with_pvmigration.Management.Server.Rules.{
  Any, Ensures, Ensures-then, Ensures-value, Ensures-ask, Ensures-fail_if, Ensures-write,
  Ensures-guard, Ensures-must_or_exists, Ensures-return, Ensures-pure,
}
use karmada_with_pvmigration.Management.Discovery.{
  new_metadata, conflicts, new_policy, differ, affinity_path, metadata_by_answer, policy_by_answer,
  discover,
}
use karmada_with_pvmigration.Management.Discovery.Allowed.{
  IsListed, IsNewMetadata, IsNewPolicy, IsAllowed,
}

got_found : {A : Type 0} (r : Reply A) (a : A) → got r ≡ ok a → r ≡ found a
got_found (found b) a e = cc
got_found (failed (not_found e')) a e = absurd cc
got_found (failed (already_exists e')) a e = absurd cc
got_found (failed (other e')) a e = absurd cc

-- Metadata without a conflict.
conflicts-false :
    (sts : StatefulSet) (cluster : String) (md : PvMetadata)
    → conflicts sts cluster md ≡ false
    → (md.spec.source_cluster ≡ cluster)
      × (md.spec.workload_ref.name ≡ sts.meta.name)
      × (md.spec.workload_ref.uid ≡ sts.meta.uid)
      × (label md.meta.labels managed_label ≡ manager_name)
unfolding conflicts
conflicts-false sts cluster md h = ground (
  arith,
  eq_iff md.spec.source_cluster cluster,
  eq_iff md.spec.workload_ref.name sts.meta.name,
  eq_iff md.spec.workload_ref.uid sts.meta.uid,
  eq_iff (label md.meta.labels managed_label) manager_name,
)

module _ (k : Machinery) (server : Server) (interval : ℕ) (rb : Unstructured) (sts : StatefulSet)
    (cluster name : String) (same_name : name ≡ stable_name k "pvm" (sts.meta.uid ∷ cluster ∷ []))
    (listed : IsListed k server rb sts cluster) where
  -- The server has shown the metadata.
  IsShown : PvMetadata → Type 0
  IsShown md =
      (written : List Write) × (server.get_metadata written sts.meta.namespace name ≡ found md)

  new_metadata-IsNewMetadata :
      (written : List Write) (message : String)
      → server.get_metadata written sts.meta.namespace name ≡ failed (not_found message)
      → IsNewMetadata k server rb sts (new_metadata sts cluster name)
  unfolding label
  new_metadata-IsNewMetadata written message e = record {
    cluster = cluster;
    listed = listed;
    name = same_name;
    namespace = refl;
    manager = refl;
    workload = refl;
    workload_uid = refl;
    source = refl;
    written = written;
    message = message;
    missing = e;
  }

  metadata-Ensures :
      (written : List Write) (answer : Reply PvMetadata)
      → server.get_metadata written sts.meta.namespace name ≡ answer
      → Ensures
          (IsAllowed k server rb sts)
          IsShown
          (metadata_by_answer k server interval sts cluster name answer)
  unfolding IsShown
  metadata-Ensures written (found md) e = Ensures-pure md (written, e)
  metadata-Ensures written (failed (not_found message)) e =
      Ensures-write server _ _ (new_metadata-IsNewMetadata written message e) (λ a.
        Ensures-then {Q = Any} (must_or_exists interval a) _ (Ensures-must_or_exists tt interval a)
          (λ done all_done. Ensures-ask _ _ (λ written' again e'.
            Ensures-value interval (got again)
              (λ md is_md. (written', e' ∙ got_found again md is_md)))))
  metadata-Ensures written (failed (already_exists e')) e = Ensures-return interval _
  metadata-Ensures written (failed (other e')) e = Ensures-return interval _

  new_policy-IsNewPolicy :
      (md : PvMetadata)
      → IsShown md
      → conflicts sts cluster md ≡ false
      → (written : List Write) (message : String)
      → server.get_policy written sts.meta.namespace name ≡ failed (not_found message)
      → IsNewPolicy k server rb sts (new_policy sts cluster name md)
  unfolding IsShown new_policy label
  new_policy-IsNewPolicy md (read_after, read) agrees written message e =
      let (source, workload, uid, manager) = conflicts-false sts cluster md agrees in
      record {
        cluster = cluster;
        listed = listed;
        name = same_name;
        namespace = refl;
        md = md;
        read_after = read_after;
        read = read;
        source = source;
        workload = workload;
        workload_uid = uid;
        manager = manager;
        owner = refl;
        policy_manager = refl;
        spec = refl;
        written = written;
        message = message;
        missing = e;
      }

  policy-Ensures :
      (md : PvMetadata)
      → IsShown md
      → conflicts sts cluster md ≡ false
      → (written : List Write) (answer : Reply Unstructured)
      → server.get_policy written sts.meta.namespace name ≡ answer
      → Ensures
          (IsAllowed k server rb sts)
          Any
          (policy_by_answer k server interval sts cluster name md answer)
  policy-Ensures md shown agrees written (found pp) e =
      Ensures-fail_if interval (not (k.is_controlled_by pp.owners md.meta)) _ _ (λ owned.
        Ensures-guard interval (differ (k.nested_string_slice pp.spec affinity_path) cluster) _
          (λ same. tt))
  policy-Ensures md shown agrees written (failed (not_found message)) e =
      Ensures-write server _ _ (new_policy-IsNewPolicy md shown agrees written message e)
        (λ a. Ensures-must_or_exists tt interval a)
  policy-Ensures md shown agrees written (failed (already_exists e')) e = Ensures-return interval _
  policy-Ensures md shown agrees written (failed (other e')) e = Ensures-return interval _

  pub discover-Ensures :
      Ensures (IsAllowed k server rb sts) Any (discover k server interval sts cluster name)
  unfolding discover
  discover-Ensures = Ensures-ask _ _ (λ written answer e.
      Ensures-then _ _ (metadata-Ensures written answer e) (λ md shown.
        Ensures-fail_if interval (conflicts sts cluster md) _ _ (λ agrees.
          Ensures-ask _ _
            (λ written' answer' e'. policy-Ensures md shown agrees written' answer' e'))))
