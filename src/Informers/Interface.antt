-- ===== src/Informers/Interface.antt =====
-- The interfaces between the informer packages under pkg/client/informers/externalversions: those of
-- factory.go, generic.go, internalinterfaces/factory_interfaces.go, batch.cs.sap.com/interface.go and
-- batch.cs.sap.com/v1alpha1/interface.go. A value of an interface is the record of its methods; one
-- whose methods change something has them over a state, that of the factory and the world.
pub mod Meets
pub mod Tracking
pub mod Usage
pub mod Session
use reactivejob_operator.Prelude.{
  ◌≤◌, List, [], length, ◌||◌, String, ◌≡◌, ◌≢◌, Bool, true, false, ◌&&◌, not, Option, none, some,
  str_eq, ltb, if◌then◌else◌,
}
use reactivejob_operator.Informers.Registry.{Registry, find, is_some}
use reactivejob_operator.Informers.Factory.{Cache, Goroutine, NewInformerFunc, SyncResult}
use reactivejob_operator.Informers.Lifecycle.{run_of}
use reactivejob_operator.Informers.Channels.{Channels}
use reactivejob_operator.Informers.ReactiveJobs.{
  GroupVersionResource, reactive_jobs, reactive_job_type, ClientGo,
}
use reactivejob_operator.Informers.Listers.{ListerGo, generic_lister, new_reactive_job_lister}

-- A method without arguments that gives an `A`.
abbrev pub Method : Type 0 → Type 0 → Type 0
Method State A = State → A × State

module _ (cache : Cache) (go : ClientGo cache) (lib : ListerGo cache go) where
  -- The interface `GenericInformer`
  pub record GenericInformer : Type 0 where
    pub informer : cache.Informer
    pub lister : lib.GenericLister

  -- The methods of a `genericInformer` for a resource
  abbrev pub generic_informer : GroupVersionResource → cache.Informer → GenericInformer
  generic_informer resource informer = record {
    informer = informer;
    lister = generic_lister cache go lib resource informer;
  }

  module _ (State : Type 0) where
    -- The interface `ReactiveJobInformer`. `typed_informer` is the method TypedInformer of a value
    -- that has it.
    pub record AnyInformer : Type 0 where
      pub informer : Method State cache.Informer
      pub lister : Method State lib.ResourceIndexer
      pub typed_informer : Option (Method State cache.Informer)

    -- The interface `TypedReactiveJobInformer`
    pub record TypedInformer : Type 0 where
      pub informer : Method State cache.Informer
      pub lister : Method State lib.ResourceIndexer
      pub typed_informer : Method State cache.Informer

    -- The interface that `V1alpha1` of a group returns
    pub record VersionInterface : Type 0 where
      pub reactivejobs : TypedInformer

    -- The interface that `Batch` of a factory returns
    pub record GroupInterface : Type 0 where
      pub v1alpha1 : VersionInterface

    module _ (channels : Channels cache) where
      -- `internalinterfaces.SharedInformerFactory`
      pub record InternalFactory : Type 0 where
        pub start : channels.Channel → State → State
        pub informer_for : String → NewInformerFunc cache → Method State cache.Informer
        pub informer_name : State → Option cache.Identity

      -- `SharedInformerFactory`; `none` is the error of `ForResource`.
      pub record SharedInformerFactory : Type 0 where
        pub internal : InternalFactory
        pub start_with_context : cache.Context → State → State
        pub shutdown : State → State
        pub wait_for_cache_sync : channels.Channel → Method State (Registry Bool)
        pub wait_for_cache_sync_with_context : cache.Context → Method State (SyncResult cache)
        pub for_resource : GroupVersionResource → Method State (Option GenericInformer)
        pub batch : State → GroupInterface

-- What a client may know of a factory's state: the informers that were requested, by their types,
-- whether the informer of a type was started, the goroutines that run for a type, and whether
-- `Shutdown` was called.
pub record View (cache : Cache) (State : Type 0) : Type 1 where
  pub IsValid : State → Type 0
  pub requested : String → State → Option cache.Informer
  pub started : String → State → Bool
  pub goroutines : String → State → List (Goroutine cache)
  pub closing : State → Bool

-- The state has the requested informers, the started types, the goroutines and the flag given.
abbrev pub Shows :
    {cache : Cache} {State : Type 0}
    → View cache State
    → State
    → (String → Option cache.Informer)
    → (String → Bool)
    → (String → List (Goroutine cache))
    → Bool
    → Type 0
Shows view s requested started goroutines closing =
    view.IsValid s
    × ((t : String) → view.requested t s ≡ requested t)
    × ((t : String) → view.started t s ≡ started t)
    × ((t : String) → view.goroutines t s ≡ goroutines t)
    × (view.closing s ≡ closing)

module _ {cache : Cache} {go : ClientGo cache} {lib : ListerGo cache go} {State : Type 0}
    {channels : Channels cache} where
  -- What the comments of the interface promise.
  pub record IsFactory (factory : SharedInformerFactory cache go lib State channels)
      (view : View cache State) : Type 0 where
    pub single : (t : String) (s : State) → view.IsValid s → length (view.goroutines t s) ≤ 1
    pub idle :
        (t : String) (s : State)
        → view.IsValid s
        → view.started t s ≡ false
        → view.goroutines t s ≡ []
    pub asked :
        (t : String) (new_func : NewInformerFunc cache) (s : State)
        → view.IsValid s
        → let (informer, s') = factory.internal.informer_for t new_func s in
          Shows view s'
            (λ r. if str_eq t r then some informer else view.requested r s)
            (λ r. view.started r s)
            (λ r. view.goroutines r s)
            (view.closing s)
    pub asked_again :
        (t : String) (new_func : NewInformerFunc cache) (s : State) (informer : cache.Informer)
        → view.requested t s ≡ some informer
        → factory.internal.informer_for t new_func s ≡ (informer, s)
    pub started :
        (ctx : cache.Context) (s : State)
        → view.IsValid s
        → Shows view
            (factory.start_with_context ctx s)
            (λ t. view.requested t s)
            (λ t. view.started t s || (is_some (view.requested t s) && not (view.closing s)))
            (λ t.
              if view.started t s || view.closing s
              then view.goroutines t s
              else run_of cache ctx t (view.requested t s))
            (view.closing s)
    pub started_late :
        (ctx : cache.Context) (s : State)
        → view.closing s ≡ true
        → factory.start_with_context ctx s ≡ s
    pub shut :
        (s : State)
        → view.IsValid s
        → Shows view
            (factory.shutdown s)
            (λ t. view.requested t s)
            (λ t. view.started t s)
            (λ t. [])
            true
    pub waited :
        (ctx : cache.Context) (s : State)
        → view.IsValid s
        → let (answer, s') = factory.wait_for_cache_sync_with_context ctx s in
          ((t : String)
            → is_some (find t answer.synced) ≡ (view.started t s && is_some (view.requested t s)))
          × Shows view s'
              (λ t. view.requested t s)
              (λ t. view.started t s)
              (λ t. view.goroutines t s)
              (view.closing s)
    -- the methods with a channel do what those with its context do
    pub start_context :
        (stop : channels.Channel) (s : State)
        → factory.internal.start stop s
          ≡ factory.start_with_context (channels.context_for_channel stop) s
    pub wait_context :
        (stop : channels.Channel) (s : State)
        → let (answer, s') =
            factory.wait_for_cache_sync_with_context (channels.context_for_channel stop) s in
          factory.wait_for_cache_sync stop s ≡ (answer.synced, s')
    -- the informer of ReactiveJobs, whenever the access to it was made
    pub reactive_jobs_informer :
        (s₀ s : State)
        → (new_func : NewInformerFunc cache) × (let (informer, s') =
              factory.internal.informer_for reactive_job_type new_func s in
            (factory.batch s₀).v1alpha1.reactivejobs.informer s ≡ (go.typed informer, s'))
    pub reactive_jobs_lister :
        (s₀ s : State)
        → let (informer, s') = (factory.batch s₀).v1alpha1.reactivejobs.informer s in
          (factory.batch s₀).v1alpha1.reactivejobs.lister s
          ≡ (new_reactive_job_lister cache go lib (lib.get_indexer informer), s')
    pub known_resource :
        (s : State)
        → let (informer, s') = (factory.batch s).v1alpha1.reactivejobs.informer s in
          factory.for_resource reactive_jobs s
          ≡ (some (generic_informer cache go lib reactive_jobs informer), s')
    pub other_resource :
        (resource : GroupVersionResource) (s : State)
        → resource ≢ reactive_jobs
        → factory.for_resource resource s ≡ (none, s)
