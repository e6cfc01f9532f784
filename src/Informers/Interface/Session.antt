-- ===== src/Informers/Interface/Session.antt =====
-- The typical use of `sharedInformerFactory` of pkg/client/informers/externalversions/factory.go.
use reactivejob_operator.Prelude.{[], String, ◌≡◌, true, false, some}
use reactivejob_operator.Informers.Registry.{Registry, find, is_some, IsMap}
use reactivejob_operator.Informers.Factory.{
  Cache, Factory, NewInformerFunc, is_started, start_with_context,
}
use reactivejob_operator.Informers.Channels.{Channels}
use reactivejob_operator.Informers.ReactiveJobs.{reactive_jobs, reactive_job_type, ClientGo}
use reactivejob_operator.Informers.Lifecycle.{IsSound, goroutines_of, run_of}
use reactivejob_operator.Informers.Lifecycle.Starts.{Visits}
use reactivejob_operator.Informers.Listers.{ListerGo}
use reactivejob_operator.Informers.Interface.{generic_informer}
use reactivejob_operator.Informers.Interface.Meets.{
  shared_informer_factory, factory_view, shared_informer_factory-IsFactory,
}
use reactivejob_operator.Informers.Interface.Usage.{typical_use, typical_use-WellUsed}

-- A client asks a factory for the informer of ReactiveJobs, by its resource and by its type, starts the
-- factory, waits, asks for an informer of any type, starts again and shuts down. For a factory that is
-- not shutting down, has each type once and at most one goroutine for it, none if the type was not
-- started, and that has not started either of the two types, where a range over a map visits its keys
-- with their values, each once: both ways give one informer; the answer of the wait names its type; if
-- no goroutine ends before `Shutdown` is called, each of the two types then has exactly one goroutine,
-- which runs the registered informer, the one that the client holds, with the client's context; after
-- `Shutdown` there is no goroutine, and starting does nothing.
pub typical_use-served :
    (cache : Cache) (go : ClientGo cache) (lib : ListerGo cache go) (channels : Channels cache)
    (visits : Visits cache)
    → ((w : cache.World) (m : Registry cache.Informer) → IsMap m → IsMap (cache.order w m))
    → (ctx : cache.Context) (t : String) (new_func : NewInformerFunc cache) (f : Factory cache)
      (w : cache.World)
    → IsMap f.informers
    → IsSound cache f
    → f.shutting_down ≡ false
    → is_started cache f reactive_job_type ≡ false
    → is_started cache f t ≡ false
    → let u = typical_use (shared_informer_factory cache go lib channels) ctx t new_func (f, w) in
      (u.generic_informer ≡ some (generic_informer cache go lib reactive_jobs u.typed_informer))
      × (is_some (find reactive_job_type u.synced.synced) ≡ true)
      × ((raw : cache.Informer) × (u.typed_informer ≡ go.typed raw)
          × (find reactive_job_type u.used.0.informers ≡ some raw)
          × (goroutines_of cache reactive_job_type u.used.0.wg
              ≡ run_of cache ctx reactive_job_type (some raw)))
      × (find t u.used.0.informers ≡ some u.another)
      × (goroutines_of cache t u.used.0.wg ≡ run_of cache ctx t (some u.another))
      × ((r : String) → goroutines_of cache r u.closed.0.wg ≡ [])
      × ((ctx' : cache.Context) → start_with_context cache ctx' u.closed ≡ u.closed)
typical_use-served cache go lib channels visits distinct ctx t new_func f w map sound up jobs_idle
      idle =
    let served =
      typical_use-WellUsed (shared_informer_factory cache go lib channels)
        (factory_view cache go lib channels)
        (shared_informer_factory-IsFactory cache go lib channels visits distinct) ctx t new_func
        (f, w) (map, sound) up jobs_idle idle in
    (
      served.same_informer, served.awaited, served.reactive_jobs_run, served.another_requested,
      served.another_runs, served.closed_none, served.closed_final,
    )
