-- ===== src/Lib.antt =====
-- reactivejob-operator: the Kubernetes operator that runs a job again whenever its template changes.
--
-- The program's parts and their modules:
-- - Api: api/v1alpha1. Api.Types has the types of reactivejob_types.go, Api.Meta the object metadata
--   that the operator reads or writes, Api.Condition the functions SetState (set_state), setCondition
--   (set_condition) and getCondition (get_condition) of reactivejob_utils.go. A pointer into the slice
--   of conditions is an index, and metav1.Now() is an argument.
-- - Api.Stored and Api.DeepCopy: the same types as they lie in memory, with pointers and slices, and the
--   functions DeepCopyInto (copy_reactive_job_into and its kin), DeepCopy (copy_reactive_job) and
--   DeepCopyObject (copy_reactive_job_object) of zz_generated.deepcopy.go. Memory has the heap: cells at
--   addresses, each with a value of one Go type, of which a program asks only at that type.
-- - Controller: internal/controllers. Controller.Hash has mustAtoi (must_atoi) and jsonHash (json_hash)
--   of utils.go. Controller.Reconcile has Reconcile (reconcile) and jobEnqueueMapper
--   (job_enqueue_mapper) of reactivejob_controller.go; its parts are in Controller.Steps, the objects
--   that it builds in Controller.Objects. A run is a function of a Frame (Controller.Monad): the object
--   that it holds in memory, the flag skipStatusUpdate and the calls made so far. It ends with a value,
--   an error or a panic; `finish` is the deferred function, which sends the status in all three cases.
--   Controller.Runs has theorems on whole runs (Runs.Rules gives a property of all steps from a rule for
--   each way to build a run; Runs.Keeps and Runs.Heeds are two such properties: what a run keeps, and that
--   it stops at the first refused call), Controller.Cluster an abstract machine of jobs that runs
--   over a server which stores jobs refine. Controller.Life has the runs after a ReactiveJob or a template
--   of it is new, over a server which stores the ReactiveJob as well and to which others make calls too
--   (Life.Lifetime lets the template change any number of times),
--   and Controller.Drain the runs that end a deletion. Controller.Watch has the controller that
--   SetupWithManager builds (setup_with_manager): which events lead to a run.
-- - Webhook: internal/webhooks/reactivejob_webhook.go, whose Default the reconciler calls as well.
-- - Main: main.go. Main.Address has parseAddress (parse_address), Main.Setup has main from the parsed
--   flags on, and the SetupWithManager of the reconciler and of the webhook, which it calls.
-- - Informers: pkg/client/informers/externalversions. Informers.Factory has the methods of
--   sharedInformerFactory of factory.go, Informers.ReactiveJobs the informer of ReactiveJobs of
--   batch.cs.sap.com/v1alpha1/reactivejob.go, and ForResource of generic.go. Informers.Channels has the
--   factory's methods that take a channel, Informers.Listers the listers of pkg/client/listers and the
--   ways to them, Informers.Adapter the conversion of an informer to a typed one. Informers.Interface has
--   the interfaces between these packages, as records of methods over any state: Meets fills that of the
--   factory with the struct's methods, Usage is a client of it (Tracking follows one type through
--   its calls), and Session puts the two together. Informers.Lifecycle has the calls of the methods in any
--   order, Informers.Sync what the wait for the caches reports.
-- - Clientset: pkg/client/clientset/versioned. Clientset.Versioned has the constructors of clientset.go,
--   Clientset.Batch those of the group's client. Making a client is a function of the state of the world.
--   Clientset.Fake has NewSimpleClientset of fake/clientset_generated.go, the clientset for tests, and
--   Clientset.FakeBatch the typed client that it hands out. Clientset.Schemes has the registration of the
--   types of the API with the schemes of main.go, scheme/register.go and fake/register.go.
-- - Kube: what comes from outside the repository. A Server answers the client's calls; an answer may
--   depend on all calls before it, so every server, with whatever else acts on it, is one. A Library is
--   go-generics, controllerutil, encoding/json and crypto/sha256; IsLibrary says what they document.
--   Informers.Factory.Cache, Informers.ReactiveJobs.ClientGo, Informers.Listers.ListerGo and
--   Clientset.Rest.ClientGo, Clientset.Fake.Testing and Clientset.FakeBatch.Pointing stand for client-go,
--   Main.Setup.Platform for controller-runtime, Controller.Watch.Watching for its predicates and
--   handlers, Clientset.Schemes.Runtime for schemes, and Api.DeepCopy.Apimachinery for the deep copies of
--   the types that the API embeds.
-- - Strconv: FormatInt and Atoi of Go's strconv, on 64 bits.
-- - Prelude: names, tests, lists, texts and signed integers that the other modules share.
-- - Tests: a library and servers on which the theorems are applied.
--
-- How the parts meet: the reconciler and the webhook share Api and Kube, and Main sets both up. It has
-- the client read both kinds past its cache, so the server that a run reads is the API server. The
-- informers, the listers and the clientset are a client library for other programs and are used by
-- neither.
--
-- Bounds and fuel: an int64 is a ℤ, and Atoi refuses what does not fit 64 bits, so the round trips ask
-- that a number be in range. The only function on fuel is `digits`, the digits of a number n with fuel
-- n + 1; every round trip through it shows that this is enough. All other loops go down a list, a
-- text or the length of a slice.
--
-- Reading the model: a Go map is a list of entries that is changed in place, nil is `none`; a `reflect.Type`
-- is the text of its name. The order of a `range` over a map is an unknown function, of which at most
-- the keys and values it visits are assumed. The methods of the factory read and write it under its lock,
-- so concurrent callers are a sequence of calls; Shutdown waits without the lock, and what it does before
-- that is a step of its own, as is the end of a goroutine. The wait group is the list of the goroutines
-- that have not ended; `shutdown` gives the state when the method returns, which it does when that list
-- is empty. The maps of labels and annotations that a new job takes over from
-- the template are shared with it in memory (shared_template).
--
-- Not modelled: log lines; the parsing of flags; the loading of the configuration of the cluster
-- (GetConfigOrDie); the requests of the typed clients, which are client-go's; the codecs of a scheme;
-- manifests and build tools.
pub mod Prelude
pub mod Strconv
pub mod Api
pub mod Kube
pub mod Webhook
pub mod Controller
pub mod Informers
pub mod Main
pub mod Clientset
pub mod Memory
pub mod Tests
