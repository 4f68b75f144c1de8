-- ===== src/Lib.antt =====
-- autovpa, a Kubernetes operator that keeps a VerticalPodAutoscaler (VPA) for every workload that
-- asks for one: a Deployment, StatefulSet or DaemonSet opts in with an annotation that names a
-- profile, and the operator renders a VPA from the profile, applies it, and deletes it again.
--
-- The parts of the program and where they are modelled:
-- - internal/controller/base_reconciler.go, what the three workload controllers share. Its
--   ReconcileWorkload is Controller/Base (`reconcile_workload` and one definition per step); building,
--   fetching, merging and applying one VPA is Controller/Base/Desired, and the deletions are
--   Controller/Base/Delete. Base/Safety, Base/Built, Base/OwnWrites, Base/Writes, Base/OptIn, Base/Asks,
--   Base/Drift, Base/Settled, Base/Gauge, Base/Balance and Base/DefaultProfile hold proofs.
-- - internal/controller/{deployment,statefulset,daemonset}_reconciler.go: Controller/Workload,
--   with proofs in Workload/OptedIn, about metric labels in Controller/Labels, and about the number
--   of requests to the API server in Controller/Requests.
-- - internal/controller/vpa_reconciler.go, the controller that deletes managed VPAs without an owner:
--   Controller/Vpa, with proofs in Vpa/Decision, Vpa/Errors, Vpa/Gauge, Vpa/Labels and
--   Vpa/Requests.
-- - internal/controller/types.go and utils.go: Controller. The constants for events and reasons:
--   Controller/Events.
-- - internal/predicates: Predicates, with proofs in Predicates/Laws and Predicates/Updates.
-- - The four controllers on one cluster: System (`Step`, one reconciliation or a step of somebody else,
--   and what is assumed of an API server). What the actions keep, call by call, is in System/Calls,
--   System/Listed, System/Obsolete, System/Deletions, System/Applies, System/VpaCalls and
--   System/WorkloadCalls; what is read in an owner reference in System/Owned; what the actions
--   reach in System/Gone, System/Desired and System/VpaDeletes. Proofs are in System/Untouched, with
--   System/Unmanaged (VPAs without the managed label), System/Cleanups (deletions), System/Request, with
--   System/Elsewhere, System/Disowned and System/Reconciled (the whole effect of a request to a workload
--   controller on what is stored), System/Orphans (that of the VPA controller),
--   System/Again with System/Reads and System/Tidy (a second reconciliation of the same workload),
--   System/Agrees (the VPA controller beside the others), and System/Others with its children (one
--   workload beside the others). System/Memory and Memory/Server are a cluster in memory that meets the assumptions.
-- - internal/metrics: Metrics (the recording methods), Metrics/Registry (the instruments), with rules
--   for their labels in Metrics/Labels, and Metrics/Setup (NewRegistry), with its proof in
--   Metrics/Registered. A registerer of Prometheus is a parameter; where MustRegister panics the model
--   has `none`. App does not follow a panic of NewRegistry.
-- - internal/utils: Utils (maps and defaults, with proofs in Utils/Maps and Utils/Merged),
--   Utils/Names (names from templates, with proofs in Utils/Dns and Utils/Truncate), Utils/Keys (the
--   keys of labels and annotations, the namespaces of the cache and the check for the CRD, with proofs
--   in Keys/Nodup and Keys/Laws), Utils/Sort (sorting of texts) and Utils/Strings (what those use of
--   the package strings).
-- - internal/config: Config (normalizeUpdateMode and Validate), Config/Load (LoadFile) and
--   Config/Unmarshal (the UnmarshalJSON methods), with proofs in Config/Modes, Config/Valid,
--   Config/Decoded and Config/Inline.
-- - internal/flag: Flag. internal/logging: Logging, with proofs in Logging/Laws.
-- - SetupWithManager of the four reconcilers: Controller/Setup.
-- - internal/app/run.go and cmd/main.go: App (`run`, `main` and one definition per stage), over the
--   steps of App/Steps, with proofs in App/Ready, App/Follows, App/Order and App/Outcome.
--
-- A function of the program is a definition of the same name in this library's spelling: mergeVPA is
-- `merge_vpa`. Kube has the data of Kubernetes. What the program calls but does not contain is a
-- parameter: `Client` is controller-runtime's client over an unknown state of the cluster, `Platform`
-- the pure functions of apimachinery, `TemplateEngine` text/template and the validation of names.
-- Nothing is assumed of them unless a theorem names a record of laws among its hypotheses, which Flag,
-- Kube/Laws, System and Metrics/Registered declare.
--
-- Effect reads a method that calls the client, the event recorder or the metrics as an action: from
-- the state of the cluster to a result, a new state and the list of the calls made, each with what the
-- client answered. An early return with an error is `throw`, and the calls made before it stay.
-- Effect/Emits has the rules for a statement about every call that an action makes, Effect/Keeps those
-- for what it leaves true of the cluster, Effect/Ends those for what holds when it succeeds, and
-- Effect/Runs those for all of this from one state. Effect/Costs counts requests to the API server.
--
-- The controllers meet in the cluster: the workload controllers write VPAs with the managed label and
-- an owner reference, the VPA controller reads both, and the predicates decide which events reach
-- either. Run gives all of them the same keys and profiles, which it has checked before; App reads it
-- as a chain of steps that ends at the first error, over an `Environment` of what the libraries
-- answer. No fuel is used: all loops of the program go over lists that it has received.
--
-- Not modelled: log lines, the texts of the flags' help, and the test helpers. Numbers given to the
-- template function truncate are not negative. A map of Go is an association list, whose order only
-- the choice among several errors of Validate depends on. A JSON text is the value that it decodes to,
-- with every key once, and numbers are equal when they are printed alike, so that an int64 and a
-- float64 of the same value, which reflect.DeepEqual tells apart, are not told apart. The quotes that
-- %q puts around a text in an error are left out.
pub mod Common
pub mod Kube
pub mod Effect
pub mod Metrics
pub mod Utils
pub mod Config
pub mod Controller
pub mod Predicates
pub mod Flag
pub mod Logging
pub mod App
pub mod System
pub mod Samples
