-- ===== src/Informers/Adapter.antt =====
-- `ToTypedReactiveJobInformer` of pkg/client/informers/externalversions/batch.cs.sap.com/v1alpha1/reactivejob.go,
-- and the adapter of an informer that is not typed. A value of an interface is the record of its methods.
use reactivejob_operator.Prelude.{◌≡◌, ap, Option, none, some}
use reactivejob_operator.Informers.Factory.{Cache, Factory}
use reactivejob_operator.Informers.ReactiveJobs.{
  ClientGo, ReactiveJobInformer, informer, typed_informer,
}
use reactivejob_operator.Informers.Lifecycle.{Steps}
use reactivejob_operator.Informers.ReactiveJobs.Shared.{informer-shared}
use reactivejob_operator.Informers.Listers.{ListerGo, lister}
use reactivejob_operator.Informers.Interface.{Method, AnyInformer, TypedInformer}

module _ (cache : Cache) (go : ClientGo cache) (lib : ListerGo cache go) where
  -- The two interfaces over the state of a factory and the world
  abbrev pub Untyped : Type 0
  Untyped = AnyInformer cache go lib (Factory cache × cache.World)

  abbrev pub Typed : Type 0
  Typed = TypedInformer cache go lib (Factory cache × cache.World)

  -- `TypedInformer` of the adapter
  abbrev pub adapted : Untyped → Method (Factory cache × cache.World) cache.Informer
  adapted a s = let (i, s') = a.informer s in (go.typed i, s')

  abbrev typed_method :
      Option (Method (Factory cache × cache.World) cache.Informer)
      → Untyped
      → Method (Factory cache × cache.World) cache.Informer
  typed_method (some method) a = method
  typed_method none a = adapted a

  unfoldable pub to_typed_reactive_job_informer : Untyped → Typed
  to_typed_reactive_job_informer a = record {
    informer = a.informer;
    lister = a.lister;
    typed_informer = typed_method a.typed_informer a;
  }

  -- The informer of a factory as a value of the interface, with its typed method and without.
  abbrev pub of_factory : ReactiveJobInformer cache → Untyped
  of_factory i = record {
    informer = informer cache go i;
    lister = lister cache go lib i;
    typed_informer = some (typed_informer cache go i);
  }

  abbrev pub untyped : Untyped → Untyped
  untyped a = record a { typed_informer = none }

  -- Once an informer of ReactiveJobs was asked for, and after any further calls of the factory, the
  -- conversion of an informer of the factory gives that one informer as its typed informer, and the
  -- conversion of one whose typed method is hidden gives the typed view of it; neither changes anything.
  pub to_typed_reactive_job_informer-shared :
      (i i' : ReactiveJobInformer cache) (s s' : Factory cache × cache.World)
      → Steps cache (informer cache go i s).1 s'
      → ((to_typed_reactive_job_informer (of_factory i')).typed_informer s'
          ≡ ((informer cache go i s).0, s'))
        × ((to_typed_reactive_job_informer (untyped (of_factory i'))).typed_informer s'
            ≡ (go.typed (informer cache go i s).0, s'))
  unfolding to_typed_reactive_job_informer informer
  to_typed_reactive_job_informer-shared i i' s s' run =
      let shared = informer-shared cache go i i' s run in
      (shared, ap (λ r. (go.typed r.0, r.1)) shared)
