-- ===== src/Lib.antt =====
-- Verification of solr-collections-operator, a Kubernetes operator that keeps the collections of a
-- Solr cluster as a SolrCollectionSet resource describes them.
--
-- The parts and their files:
--   Base       what the Go code uses of the language and its standard library: int32 arithmetic with
--              its wrap-around (Int), the functions of `strings` (Text), `%d` and `strconv.Atoi`
--              (Decimal; Decimal.RoundTrip reads back what was printed), maps (GoMap), errors and panics
--              (Outcome), effects (Exec).
--   Api        api/v1/solrcollectionset_types.go: the resource, `WithDefaults` (with_defaults),
--              `withDefaults` (spec_with_defaults), `SetCollectionDefaults` (set_collection_defaults).
--   Platform   what the operator is built on and does not implement, as parameters: HTTP, JSON, the
--              Kubernetes API, the embedded files, md5, base64, the zip writer, meta.SetStatusCondition,
--              DeepEqual, the sort of the status entries, and the order of loops over maps. `World` is
--              the state: the cluster outside, and the requests that were sent to Solr.
--   Solr       internal/controller/solr_api: `Json` has the dynamic values and the type assertions,
--              `Client` the sending of requests and `parseError`, `Client.Commands` the methods that
--              change the cluster, `Client.Queries` those that read it (GetClusterStatus is
--              get_cluster_status, and so on), `Client.Delivery`, `Client.Accepted` and `Client.Queried`
--              the laws of sending, `Client.Reported` what is read from the JSON of a collection,
--              `Client.ClusterReport` what is read from that of a cluster, with `Client.Entries`, and
--              `Client.WellFormed` what holds of all that is read.
--              `Cluster` has what the collections API promises to the client's requests (SolrCluster),
--              CREATE only of a stored config set: the hypothesis of the theorem on their convergence,
--              with what a request does to a cluster in `Cluster.Requests`; `ConfigStore` has the same
--              for the config sets and the checksums, and `Replicas` for the replicas and the nodes.
--              `Client.Preserved` has what a sequence of requests leaves as it is.
--   Controller internal/controller/solrcollectionset_controller.go: `Names` has mapCollections and the
--              small helpers, `Collections` ManageCollections (in its child modules `Effects` to
--              `Converged` the run on a cluster that keeps the promises), `ConfigSets` ManageConfigSets
--              (what it reads in `Queried`, the run on such a Solr in `Stored` and `Converged`, a refused
--              removal in `Refused`), `Replicas` AdjustReplicas (the same in `Filled` and `Converged`), `Status`
--              populateCollectionSetStatus (populate_collection_set_status; its ready ratio in
--              `Status.Ratio`), `Reconcile` the main loop Reconcile (reconcile), InitializeSolrCluster,
--              UpdateStatus and RequeueOnError (requeue_on_error); the run on a cluster that is as it
--              should be is in `Reconcile.Settled`, the making of the collection for the checksums in
--              `Reconcile.Initialized`, a run that a config set in use holds up in `Reconcile.Blocked`.
--              `Reconcile.Deployment` says what a cluster is on which only the operator changes something
--              (Deployment); a run on it is followed through the status (`Reconcile.Announced`), the config
--              sets (`Reconcile.Provided`), the collections and replicas (`Reconcile.Placed` and
--              `Reconcile.Scaled`) and their order (`Reconcile.Managed`) up to the end of a second run
--              (`Reconcile.Converged`). `Zip` has Zip of internal/controller/utils/zip_util.go.
--   Manager    cmd/main.go: the flags (parse_flags), the options of the servers and the manager, and the
--              calls of `main` with the status that the process ends with; SetupWithManager of the
--              controller (setup_with_manager). controller-runtime is the parameter `Runtime`. What the
--              options protect is in `Manager.Protected`, the run of the calls in `Manager.Started`.
--   Tests      the definitions and theorems at concrete data.
--
-- How the state corresponds to the code. A method of the client or the reconciler is a function of the
-- `World`; its outcome is a value, an error with its text, or a panic, and an error that the code only
-- logs is dropped by `log_error`. A Go map is a list of entries. A `range` loop over a map visits the
-- entries in the order that the platform's `Order` gives for that statement; `IsFair` says what the
-- language promises, that each entry is visited once. A loop is a recursion on the visited list, so no
-- fuel is needed; the only fuel is that of `%d`, which a number bounds itself.
--
-- A theorem about the reconciler may assume that the platform is civil: Solr's error answers carry the
-- message that `parseError` asserts to be there. Without it the client panics.
--
-- `Reconcile` runs on a `Process`, which is the world and the package's variable `solrClient`; a call of
-- the Kubernetes API changes the cluster outside, and is no request to Solr.
--
-- Not modelled: logging and seqToString, which only it uses, the times and generations of conditions,
-- the logger's flags, the registration of the API types, the generated deep copies. In
-- ManageCollections, AdjustReplicas and the status, a nil pointer in the spec is followed by the code
-- where it is used and by the model when the method begins. `Reconcile` comes there after `WithDefaults`
-- reports no change, and then no pointer is nil; this could differ only if a default is taken away in
-- Kubernetes before the resource is read again for its status. A name that Solr does not take for a
-- collection is written into the address of a request as it is; the theorems on convergence leave such
-- names out, since what a request with them does depends on how Solr reads the address.
pub mod Base
pub mod Api
pub mod Solr
pub mod Platform
pub mod Controller
pub mod Manager
mod Tests
