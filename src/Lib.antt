-- ===== src/Lib.antt =====
-- The Kamaji control plane provider for Cluster API: its two reconcilers' code as functions, with
-- theorems on what they send to the API servers.
--
-- A KamajiControlPlane asks for the control plane of a Cluster. `Reconcile`
-- (controllers/kamajicontrolplane_controller.go) makes a TenantControlPlane of the two, in the same
-- cluster or, by an ExternalClusterReference, in another one; it publishes the endpoint on the
-- KamajiControlPlane and on the infrastructure cluster, replicates two Secrets, and reports every
-- step as a condition. The client of another cluster comes from a store of running managers, by a
-- key made of the reference.
--
-- - Base: Boolean tests, Go maps with text keys, Go's integers. Maps/View has a map without the order
--   of its entries, as a quotient: Go meets the entries of a map in any order.
-- - GoNet: strings.Split, net.SplitHostPort and strconv.ParseInt, as the program calls them.
-- - Objects: the types of api/v1alpha2/kamajicontrolplane_types.go, and the fields that the program
--   names of the types of Cluster API, Kamaji and Kubernetes. Structs are records, a pointer is an
--   Option, a nil slice is an empty one but where the program tells them apart.
-- - Errors: the sentinels (controllers/errors.go and the var blocks of
--   kamajicontrolplane_controller_externalreference.go and kamajicontrolplane_controller_tcp.go) and
--   chains of wrapped errors, with errors.Is and errors.As.
-- - Kube: what the program uses of other projects, as a record `Kube` that every model takes:
--   clients, RetryOnConflict, CreateOrUpdate, status conditions, sets, untyped objects. A call of an
--   API server takes the state of the world and returns the next; others may act in between. The
--   laws that theorems rely on are hypotheses, in Kube/Laws; those on an index whose answers do not
--   change, and on calls that are answered, are in Controller/Managers/Calm and Success.
-- - ExternalCluster: pkg/externalclusterreference and the index functions of pkg/indexers.
--   Names has name_generator.go; Store has store.go, where the mutex makes each method one step and
--   a stop function is a number whose call is noted.
-- - Controller: the methods of KamajiControlPlaneReconciler in controllers/. Run has the variables
--   of one call and updateKamajiControlPlaneStatus; Conditions has TrackConditionType;
--   ExternalReference has extractRemoteClient; Finalizer has handleFinalizer and handleDeletion;
--   ClusterPatch has controlPlaneEndpoint, patchControlPlaneEndpoint and patchCluster; Tenant has
--   createOrUpdateTenantControlPlane; Resources has createRequiredResources; Reconcile has the
--   composition, as steps that each go on or return, and the deferred update of the conditions.
--   Reconcile/Reached relates the points of a pass to the variables that its steps lead to, and
--   Reconcile/Causes has the ways to return early from each of them. Finalizer/Removal has the calls
--   of the retry loop that takes the finalizer off, one by one.
--   Reconcile/Progress describes servers that answer every call of a pass, and follows the pass to
--   its end, alone and after a pass of the other controller, and a deletion to its.
--   Managers has ExternalClusterReferenceReconciler's Reconcile and startManager, and Push has
--   PushKamajiChange's Reconcile, both of controllers/externalclusterreference_controller.go.
--   Managers/References has the answers of the index to the first loop of the former.
--   Managers/System has the same worker with the goroutines of its managers, in any order of their
--   steps: each call of the store is one step; Invariant, Provenance and Simulation are about it.
-- - Startup: main.go, the SetupWithManager functions of the two controllers of the management
--   cluster, and pkg/indexers/setup.go. A controller is told of its sources by values that hold its
--   predicates and map functions; flags, gates and managers are a record `Host`.
--   Scheme has the registration of the types (api/v1alpha2/groupversion_info.go and the init
--   functions).
-- - Copies: api/v1alpha2/zz_generated.deepcopy.go, on values where a pointer, a slice or a map has an
--   address. The DeepCopyInto of another project's type, and the references in a value of it, are
--   parameters.
-- - Tests: a small Kubernetes in memory that has the laws, and the theorems at concrete objects.
--
-- The closure given to RetryOnConflict or to CreateOrUpdate is a function of the variables that it
-- assigns. No fuel is needed: the retry loop belongs to client-go, and the hypothesis on it is that
-- it runs the closure again only after a conflict and answers as its last run did.
--
-- Not modelled: logging, which has no effect on the rest; what the manager in a goroutine does while
-- it runs.
pub mod Base
pub mod GoNet
pub mod Objects
pub mod Errors
pub mod Kube
pub mod ExternalCluster
pub mod Controller
pub mod Startup
pub mod Copies
mod Tests
