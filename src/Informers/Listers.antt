-- ===== src/Informers/Listers.antt =====
-- pkg/client/listers/batch.cs.sap.com/v1alpha1/reactivejob.go and the listers that an informer gives, with
-- the ways to the informer through a factory's group and version.
use reactivejob_operator.Prelude.{String, ◌≡◌, refl, ap, inl, inr, Option, none, some}
use reactivejob_operator.Prelude.Int.{ℤ}
use reactivejob_operator.Informers.Factory.{Cache, Factory}
use reactivejob_operator.Informers.Lifecycle.{Steps}
use reactivejob_operator.Informers.ReactiveJobs.{
  GroupVersionResource, reactive_jobs, ClientGo, ReactiveJobInformer,
  new_typed_reactive_job_informer_with_options, informer, for_resource,
}
use reactivejob_operator.Informers.ReactiveJobs.Shared.{informer-shared, for_resource-shared}

-- `schema.GroupResource`
pub record GroupResource : Type 0 where
  pub group : String
  pub resource : String

-- `Resource` of api/v1alpha1/groupversion_info.go
abbrev pub resource_of : String → GroupResource
resource_of resource = record { group = "batch.cs.sap.com"; resource = resource }

-- What the listers use of client-go: `Informer.GetIndexer`, `listers.New`, `listers.NewNamespaced`,
-- `cache.NewGenericLister` and `cache.TypedIndexersToIndexers`.
pub record ListerGo (cache : Cache) (go : ClientGo cache) : Type 1 where
  pub Indexer : Type 0
  pub ResourceIndexer : Type 0
  pub GenericLister : Type 0
  pub TypedIndexers : Type 0
  pub get_indexer : cache.Informer → Indexer
  pub new_lister : Indexer → GroupResource → ResourceIndexer
  pub new_namespaced : ResourceIndexer → String → ResourceIndexer
  pub new_generic_lister : Indexer → GroupResource → GenericLister
  pub to_indexers : TypedIndexers → go.Indexers

-- `group` and `version`, which hand the factory's namespace and filter on.
pub record Access (cache : Cache) : Type 0 where
  pub namespace : String
  pub tweak_list_options : Option cache.Tweak

module _ {cache : Cache} where
  -- `Batch`
  abbrev pub batch : Factory cache → Access cache
  batch f = record { namespace = f.namespace; tweak_list_options = f.tweak_list_options }

  -- `V1alpha1`
  abbrev pub v1alpha1 : Access cache → Access cache
  v1alpha1 g = record { namespace = g.namespace; tweak_list_options = g.tweak_list_options }

  -- `Reactivejobs`
  abbrev pub reactivejobs : Access cache → ReactiveJobInformer cache
  reactivejobs v = record { tweak_list_options = v.tweak_list_options; namespace = v.namespace }

module _ (cache : Cache) (go : ClientGo cache) (lib : ListerGo cache go) where
  unfoldable pub new_typed_filtered_reactive_job_informer :
      cache.Client
      → String
      → ℤ
      → lib.TypedIndexers
      → Option cache.Tweak
      → cache.World
      → cache.Informer × cache.World
  new_typed_filtered_reactive_job_informer client namespace resync_period indexers tweak w =
      new_typed_reactive_job_informer_with_options cache go client namespace
        (record {
          resync_period = resync_period;
          indexers = lib.to_indexers indexers;
          informer_name = none;
          tweak_list_options = tweak;
        })
        w

  unfoldable pub new_typed_reactive_job_informer :
      cache.Client → String → ℤ → lib.TypedIndexers → cache.World → cache.Informer × cache.World
  new_typed_reactive_job_informer client namespace resync_period indexers w =
      new_typed_reactive_job_informer_with_options cache go client namespace
        (record {
          resync_period = resync_period;
          indexers = lib.to_indexers indexers;
          informer_name = none;
          tweak_list_options = none;
        })
        w

  abbrev pub new_reactive_job_lister : lib.Indexer → lib.ResourceIndexer
  new_reactive_job_lister indexer = lib.new_lister indexer (resource_of "reactivejob")

  -- `Reactivejobs` of the lister
  abbrev pub namespaced : lib.ResourceIndexer → String → lib.ResourceIndexer
  namespaced lister namespace = lib.new_namespaced lister namespace

  abbrev lister_on :
      cache.Informer × (Factory cache × cache.World)
      → lib.ResourceIndexer × (Factory cache × cache.World)
  lister_on (informer, s) = (new_reactive_job_lister (lib.get_indexer informer), s)

  -- `Lister` of the informer
  unfoldable pub lister :
      ReactiveJobInformer cache
      → Factory cache × cache.World
      → lib.ResourceIndexer × (Factory cache × cache.World)
  lister i s = lister_on (informer cache go i s)

  -- `Lister` of the generic informer for a resource
  abbrev pub generic_lister : GroupVersionResource → cache.Informer → lib.GenericLister
  generic_lister resource informer =
      lib.new_generic_lister (lib.get_indexer informer)
        (record { group = resource.group; resource = resource.resource })

  abbrev pub generic_on :
      Option cache.Informer × (Factory cache × cache.World)
      → Option lib.GenericLister × (Factory cache × cache.World)
  generic_on (none, s) = (none, s)
  generic_on (some informer, s) = (some (generic_lister reactive_jobs informer), s)

  -- Once an informer of ReactiveJobs was asked for, and after any further calls of the factory, the lister
  -- through the factory's group and version and the generic lister through ForResource both read the
  -- index of that informer, and asking for them changes nothing.
  pub lister-shared :
      (i : ReactiveJobInformer cache) (s s' : Factory cache × cache.World)
      → Steps cache (informer cache go i s).1 s'
      → (lister (reactivejobs (v1alpha1 (batch s'.0))) s'
          ≡ (new_reactive_job_lister (lib.get_indexer (informer cache go i s).0), s'))
        × (generic_on (for_resource cache go reactive_jobs s')
            ≡ (some (generic_lister reactive_jobs (informer cache go i s).0), s'))
  unfolding lister
  lister-shared i s s' run = (
    ap lister_on (informer-shared cache go i _ s run),
    elim (for_resource-shared cache go i s reactive_jobs run) [
      | inl (_, e) ↦ ap generic_on e
      | inr (other, _) ↦ absurd (other refl)
    ],
  )
