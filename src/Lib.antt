-- ===== src/Lib.antt =====
-- Verification of the PV migration controllers for Karmada (Go).
--
-- The program moves the persistent volumes of a StatefulSet between the member clusters of a Karmada
-- control plane. In each member, the PVSync controller (internal/member/pvsync_controller.go)
-- records the bound claims and volumes of a StatefulSet in the status of a PVMetadata object; Karmada
-- reflects these to the control plane. There a PVMigration object asks for a move. Its controller
-- (internal/management/migration.go) checks the request against the ResourceBinding, the StatefulSet
-- and the other migrations (validateBinding), plans one Work for each volume, with a second one for a
-- standalone claim (BuildWorks), creates them and waits for the evidence of their application.
--
-- Files:
--   Api.antt, Api/Core.antt: the custom resources of api/v1alpha1, and the Kubernetes objects that the
--     code reads, with the fields it uses. Api/Equality.antt is reflect.DeepEqual on the status.
--   VolumeClaims.antt: Standalone of internal/volumeclaims/standalone.go. Its set of names is a list
--     without order of meaning, and sort.Strings is an insertion sort (VolumeClaims/Sorting.antt).
--     VolumeClaims/Laws.antt describes the result.
--   Member.antt: collectVolume, collect, successfulStatus, failedStatus, pollInterval and Reconcile of
--     the member controller, as collect_volume, collect, successful_status, failed_status, interval
--     and reconcile. Member/Collected.antt, Names.antt and Passes.antt hold their laws.
--   Machinery.antt: the functions of k8s.io/apimachinery and of hashing that the management side calls.
--   Management/Naming.antt: internal/management/resources.go (object, stableName, labels) and
--     validOrdinalPVC. Management/Claims.antt: standaloneClaim of standalone.go.
--   Management/Works/: BuildWorks of migration.go, and setWorkRouting of work_routing.go. Snapshot,
--     Source, Manifests and Plan are its parts; Planned, Rounds, Sound and Identity their laws.
--   Management/Binding/: validateBinding and validateSelectedTargetHold of migration.go. Reserved is
--     the loop over the peers, Hold the restore operation's hold, Targets the mapped claims, and Gates
--     the whole sequence; Reserved/Winner.antt, Held.antt, Mapped.antt and Sound.antt hold their laws.
--   Prelude.antt and its children: shared names, Go's errors as results, texts and numbers.
--   Tests.antt and its children: concrete objects and runs.
--   Management/Applied/: workApplied of migration.go; standaloneStatus, pairedWorkApplied,
--     splitPairApplied and standaloneReceiptMatches of standalone.go. Receipt is the receipt of one
--     Work, Pair the test of two, Evidence the functions that combine them; the others hold laws.
--   Management/Routing/: comparableWorkSpec and validateWork of migration.go (Comparable, Repair), and
--     work_routing.go (Repair). A Repair is the patch that ensureWorkRouting asks for; Safe is its law.
--   Management/Server.antt: the calls of a pass, as the monad Action over a Server whose answers depend
--     on the writes so far. Rules.antt has the rules to prove a property of all writes of a pass,
--     and Intervals.antt those for the interval with which it returns.
--   Management/Hash.antt: planHash of plan.go. Hash/Stable.antt is about a source that is polled again.
--   Management/Migration/: delay, setPhase (Phase) and PVMigrationReconciler.Reconcile of migration.go.
--     Sync is its loop over the Works and Receipts that over the standalone references; Pass has the
--     rest. Allowed says what a pass may write; Progress, Rounds, Patches and Safe prove it. Plans,
--     Refused and Repeated are about single passes.
--   Management/Cleanup/: PVCleanupReconciler.Reconcile of cleanup.go. Detach is the body of its loop,
--     Pass the rest; Allowed, Planned, Marks, Sweeps, Safe, Completes and Repeated hold the laws.
--   Management/Discovery.antt: MetadataDiscovery.Reconcile of discovery.go. Discovery/Allowed.antt says
--     what a pass may write, Clusters.antt and Safe.antt prove it. Settled.antt is about a pass with
--     nothing to do, Created.antt about the pass after one that made objects, Repeated.antt about the
--     interval of a pass.
--   Management/Lifecycle.antt: any sequence of status patches of both controllers to one migration,
--     each by a pass that read the status before. Stages, Sound and Durable are about such sequences.
--
-- The model. An error is its text in Result; a read answers with Reply, and a missing object is told
-- from other failures as the code does. An int32 is a signed integer with its wrap-around written out
-- (wrap32); generations, which the API server counts up from 1, are natural numbers; a time is a
-- number of nanoseconds. A quantity is a signed number. A map with fixed keys is a list of entries, a
-- set of names a list; a nil slice is not told from an empty one. Data without a static type is a
-- Value. The parameter Machinery stands for apimachinery, the SHA-256 digest and the DNS-1123 test.
-- A failed type assertion, which panics, is an error. Where Go iterates over a map, an error names
-- the first recorded entry. All recursion is on lists and numbers; the numeral of n has fuel n + 1,
-- which is enough since each digit divides by ten.
-- A pass of the member controller and validateBinding read their clients through a record of answers.
-- A pass of the three other controllers is a sequence of calls, in the order of the code, that goes on
-- or returns; the answers are a parameter, and a Write holds the whole object that is sent. A patch
-- with an optimistic lock is taken only for the version that was read, so Lifecycle joins the passes
-- at the statuses they read. Reads of one key between two writes give one answer. json.Marshal is a field of
-- Machinery.
--
-- Not modelled: the start of the manager (cmd/manager), the generated deep copies of api/v1alpha1, the
-- registration of the controllers, and list of resources.go, which no code calls.
-- The resource interpreters and manifests under config are not Go.
pub mod Prelude
pub mod Api
pub mod VolumeClaims
pub mod Member
pub mod Machinery
pub mod Management
mod Tests
