-- ===== src/Informers/ReactiveJobs.antt =====
-- The informer of ReactiveJobs: how a factory makes it, in
-- pkg/client/informers/externalversions/batch.cs.sap.com/v1alpha1/reactivejob.go, and how it is
-- reached by its resource, in pkg/client/informers/externalversions/generic.go.
pub mod Shared
use mathlib.Core.Bool.{false≢true}
use reactivejob_operator.Prelude.{
  String, ◌≡◌, ◌≢◌, ◌⊎◌, ap, Bool, Bool-cases, inl, inr, true, Option, none, some, ◌&&◌, str_eq,
  eq_iff, if◌then◌else◌, arith, sym, ◌∙◌,
}
use reactivejob_operator.Prelude.Int.{ℤ}
use reactivejob_operator.Informers.Factory.{Cache, Factory, NewInformerFunc, informer_for}

-- `schema.GroupVersionResource`
pub record GroupVersionResource : Type 0 where
  pub group : String
  pub version : String
  pub resource : String

abbrev pub reactive_jobs : GroupVersionResource
reactive_jobs = record {
  group = "batch.cs.sap.com";
  version = "v1alpha1";
  resource = "reactivejobs";
}

-- The name of the type `*ReactiveJob`, the key of its informer.
abbrev pub reactive_job_type : String
reactive_job_type = "*v1alpha1.ReactiveJob"

-- What the informer uses of client-go and of the clientset, beside the factory's part.
pub record ClientGo (cache : Cache) : Type 1 where
  pub ListOptions : Type 0
  pub Answer : Type 0
  pub Indexers : Type 0
  pub Identifier : Type 0
  pub ListWatch : Type 0
  pub background : cache.Context
  -- a call of the filter with a pointer to the options
  pub tweak : cache.Tweak → ListOptions → ListOptions
  -- `client.BatchV1alpha1().Reactivejobs(namespace).List(ctx, opts)`, and `Watch`
  pub list :
      cache.Client → String → cache.Context → ListOptions → cache.World → Answer × cache.World
  pub watch :
      cache.Client → String → cache.Context → ListOptions → cache.World → Answer × cache.World
  -- `cache.ListWatch` with its functions for lists and watches, without and with a context
  pub list_watch :
      (ListOptions → cache.World → Answer × cache.World)
      → (ListOptions → cache.World → Answer × cache.World)
      → (cache.Context → ListOptions → cache.World → Answer × cache.World)
      → (cache.Context → ListOptions → cache.World → Answer × cache.World)
      → ListWatch
  -- the indexers by namespace
  pub namespace_indexers : Indexers
  pub with_resource : Option cache.Identity → GroupVersionResource → Identifier
  -- `cache.NewSharedIndexInformerWithOptions` on the list and watch functions and the client, with
  -- the period, the indexers and the identifier
  pub new_shared_index_informer :
      ListWatch
      → cache.Client
      → ℤ
      → Indexers
      → Identifier
      → cache.World
      → cache.Informer × cache.World
  -- `cache.NewTypedSharedIndexInformer`, and whether an informer is one of ReactiveJobs already
  pub typed : cache.Informer → cache.Informer
  pub is_typed : cache.Informer → Bool

-- `internalinterfaces.InformerOptions`
pub record InformerOptions (cache : Cache) (go : ClientGo cache) : Type 0 where
  pub resync_period : ℤ
  pub indexers : go.Indexers
  pub informer_name : Option cache.Identity
  pub tweak_list_options : Option cache.Tweak

-- `reactiveJobInformer`; its factory is the one whose state is passed to its methods.
pub record ReactiveJobInformer (cache : Cache) : Type 0 where
  pub tweak_list_options : Option cache.Tweak
  pub namespace : String

module _ (cache : Cache) (go : ClientGo cache) where
  abbrev tweaked : Option cache.Tweak → go.ListOptions → go.ListOptions
  tweaked none opts = opts
  tweaked (some tweak_list_options) opts = go.tweak tweak_list_options opts

  unfoldable pub new_typed_reactive_job_informer_with_options :
      cache.Client → String → InformerOptions cache go → cache.World → cache.Informer × cache.World
  new_typed_reactive_job_informer_with_options client namespace options w =
      let identifier = go.with_resource options.informer_name reactive_jobs in
      let (informer, w') =
        go.new_shared_index_informer
          (go.list_watch
            (λ opts.
              go.list client namespace go.background (tweaked options.tweak_list_options opts))
            (λ opts.
              go.watch client namespace go.background (tweaked options.tweak_list_options opts))
            (λ ctx opts. go.list client namespace ctx (tweaked options.tweak_list_options opts))
            (λ ctx opts. go.watch client namespace ctx (tweaked options.tweak_list_options opts)))
          client options.resync_period options.indexers identifier w in
      (go.typed informer, w')

  unfoldable pub new_reactive_job_informer_with_options :
      cache.Client → String → InformerOptions cache go → cache.World → cache.Informer × cache.World
  unfolding new_typed_reactive_job_informer_with_options
  new_reactive_job_informer_with_options client namespace options w =
      new_typed_reactive_job_informer_with_options client namespace options w

  unfoldable pub new_filtered_reactive_job_informer :
      cache.Client
      → String
      → ℤ
      → go.Indexers
      → Option cache.Tweak
      → cache.World
      → cache.Informer × cache.World
  unfolding new_typed_reactive_job_informer_with_options
  new_filtered_reactive_job_informer client namespace resync_period indexers tweak_list_options w =
      new_typed_reactive_job_informer_with_options client namespace
        (record {
          resync_period = resync_period;
          indexers = indexers;
          informer_name = none;
          tweak_list_options = tweak_list_options;
        })
        w

  unfoldable pub new_reactive_job_informer :
      cache.Client → String → ℤ → go.Indexers → cache.World → cache.Informer × cache.World
  unfolding new_reactive_job_informer_with_options
  new_reactive_job_informer client namespace resync_period indexers w =
      new_reactive_job_informer_with_options client namespace
        (record {
          resync_period = resync_period;
          indexers = indexers;
          informer_name = none;
          tweak_list_options = none;
        })
        w

  unfoldable pub default_informer :
      ReactiveJobInformer cache → Factory cache → NewInformerFunc cache
  unfolding new_typed_reactive_job_informer_with_options
  default_informer i f client resync_period w =
      new_typed_reactive_job_informer_with_options client i.namespace
        (record {
          resync_period = resync_period;
          indexers = go.namespace_indexers;
          informer_name = f.informer_name;
          tweak_list_options = i.tweak_list_options;
        })
        w

  abbrev wrapped :
      cache.Informer × (Factory cache × cache.World)
      → cache.Informer × (Factory cache × cache.World)
  wrapped (informer, s) = (go.typed informer, s)

  unfoldable pub typed_informer :
      ReactiveJobInformer cache
      → Factory cache × cache.World
      → cache.Informer × (Factory cache × cache.World)
  typed_informer i (f, w) =
      wrapped (informer_for cache reactive_job_type (default_informer i f) (f, w))

  unfoldable pub informer :
      ReactiveJobInformer cache
      → Factory cache × cache.World
      → cache.Informer × (Factory cache × cache.World)
  unfolding typed_informer
  informer i s = typed_informer i s

  -- `ToReactiveJobIndexInformer`
  unfoldable pub to_reactive_job_index_informer : cache.Informer → cache.Informer
  to_reactive_job_index_informer informer =
      if go.is_typed informer then informer else go.typed informer

  -- `f.Batch().V1alpha1().Reactivejobs()`
  abbrev pub reactive_jobs_of : Factory cache → ReactiveJobInformer cache
  reactive_jobs_of f = record { tweak_list_options = f.tweak_list_options; namespace = f.namespace }

  abbrev is_reactive_jobs : GroupVersionResource → Bool
  is_reactive_jobs resource =
      str_eq resource.group "batch.cs.sap.com"
      && str_eq resource.version "v1alpha1"
      && str_eq resource.resource "reactivejobs"

  abbrev found :
      cache.Informer × (Factory cache × cache.World)
      → Option cache.Informer × (Factory cache × cache.World)
  found (informer, s) = (some informer, s)

  -- The informer of the generic one that is returned; `none` is the error.
  unfoldable pub for_resource :
      GroupVersionResource
      → Factory cache × cache.World
      → Option cache.Informer × (Factory cache × cache.World)
  for_resource resource (f, w) =
      let generic = found (informer (reactive_jobs_of f) (f, w)) in
      if is_reactive_jobs resource then generic else (none, (f, w))
