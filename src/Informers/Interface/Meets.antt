-- ===== src/Informers/Interface/Meets.antt =====
-- `sharedInformerFactory` of pkg/client/informers/externalversions/factory.go as a value of the interface
-- `SharedInformerFactory`.
use reactivejob_operator.Prelude.{
  ℕ, ◌≤◌, List, [], ◌∷◌, length, String, ◌≡◌, refl, ap, sym, ◌∙◌, subst, Bool, true, false, ◌&&◌,
  ◌||◌, not, Option, none, some, str_eq, eq_iff, if◌then◌else◌, arith, Bool-cases, Option-cases,
  inl, inr,
}
use reactivejob_operator.Prelude.Int.{ℤ}
use reactivejob_operator.Informers.Registry.{Registry, find, is_some, IsMap, find-put, put-IsMap}
use reactivejob_operator.Informers.Factory.{
  Cache, Factory, NewInformerFunc, is_started, start_with_context, shutdown, informer_for,
  start_each, made_informer, wait_for_cache_sync_with_context, new_factory, new_with_options,
}
use reactivejob_operator.Informers.Channels.{Channels, start, wait_for_cache_sync}
use reactivejob_operator.Informers.ReactiveJobs.{
  GroupVersionResource, ClientGo, default_informer, typed_informer, informer, for_resource,
  ReactiveJobInformer,
}
use reactivejob_operator.Informers.Lifecycle.{
  IsSound, goroutines_of, run_of, Starts-of, start_each-Starts, start_each-informers,
  start_each-started, start_each-IsSound, start-down, start-up,
}
use reactivejob_operator.Informers.Lifecycle.Starts.{Visits}
use reactivejob_operator.Informers.Lifecycle.Shared.{informer_for-found}
use reactivejob_operator.Informers.ReactiveJobs.Shared.{for_resource-other}
use reactivejob_operator.Informers.Sync.{wait_for_cache_sync-answer}
use reactivejob_operator.Informers.Listers.{ListerGo, lister, batch, v1alpha1, reactivejobs}
use reactivejob_operator.Informers.Interface.{
  GenericInformer, generic_informer, TypedInformer, SharedInformerFactory, View, Shows, IsFactory,
}

module _ (cache : Cache) (go : ClientGo cache) (lib : ListerGo cache go)
    (channels : Channels cache) where
  abbrev pub State : Type 0
  State = Factory cache × cache.World

  -- `reactiveJobInformer` as a value of the interface `TypedReactiveJobInformer`
  abbrev reactive_job_informer : ReactiveJobInformer cache → TypedInformer cache go lib State
  reactive_job_informer i = record {
    informer = informer cache go i;
    lister = lister cache go lib i;
    typed_informer = typed_informer cache go i;
  }

  abbrev generic_of :
      GroupVersionResource
      → Option cache.Informer × State
      → Option (GenericInformer cache go lib) × State
  generic_of resource (none, s) = (none, s)
  generic_of resource (some informer, s) =
      (some (generic_informer cache go lib resource informer), s)

  abbrev pub shared_informer_factory : SharedInformerFactory cache go lib State channels
  shared_informer_factory = record {
    internal = record {
      start = start cache channels;
      informer_for = informer_for cache;
      informer_name = λ s. s.0.informer_name;
    };
    start_with_context = start_with_context cache;
    shutdown = shutdown cache;
    wait_for_cache_sync =
        λ stop s. let (synced, w) = wait_for_cache_sync cache channels stop s in (synced, (s.0, w));
    wait_for_cache_sync_with_context = λ ctx s.
        let (result, w) = wait_for_cache_sync_with_context cache ctx s in (result, (s.0, w));
    for_resource = λ resource s. generic_of resource (for_resource cache go resource s);
    batch = λ s. record {
      v1alpha1 = record {
        reactivejobs = reactive_job_informer (reactivejobs (v1alpha1 (batch s.0)));
      };
    };
  }

  -- What a client sees of the struct.
  abbrev pub factory_view : View cache State
  factory_view = record {
    IsValid = λ s. IsMap s.0.informers × IsSound cache s.0;
    requested = λ t s. find t s.0.informers;
    started = λ t s. is_started cache s.0 t;
    goroutines = λ t s. goroutines_of cache t s.0.wg;
    closing = λ s. s.0.shutting_down;
  }

  pub new_factory-IsValid :
      (client : cache.Client) (resync : ℤ) (w : cache.World)
      → factory_view.IsValid (new_factory cache client resync, w)
  unfolding new_factory new_with_options goroutines_of find
  new_factory-IsValid client resync w = (tt, λ t. omega arith)

  informer_for-Shows :
      (t : String) (new_func : NewInformerFunc cache) (s : State)
      → factory_view.IsValid s
      → let (informer, s') = informer_for cache t new_func s in
        Shows factory_view s'
          (λ r. if str_eq t r then some informer else find r s.0.informers)
          (λ r. is_started cache s.0 r)
          (λ r. goroutines_of cache r s.0.wg)
          s.0.shutting_down
  unfolding informer_for
  informer_for-Shows t new_func (f, w) (distinct, sound) =
      elim (Option-cases (find t f.informers)) [
        | inl e ↦
            let made = made_informer cache t new_func f w in
            rw e (
              (put-IsMap t made.0 f.informers distinct, sound),
              λ r. find-put r t made.0 f.informers,
              λ r. refl,
              λ r. refl,
              refl,
            )
        | inr (j, e) ↦
            rw e ((distinct, sound), λ r. ground (arith, eq_iff t r, e), λ r. refl, λ r. refl, refl)
      ]

  start-Shows :
      (visits : Visits cache)
      → (ctx : cache.Context) (s : State) → factory_view.IsValid s
      → Shows factory_view
          (start_with_context cache ctx s)
          (λ t. find t s.0.informers)
          (λ t. is_started cache s.0 t || (is_some (find t s.0.informers) && not s.0.shutting_down))
          (λ t.
            if is_started cache s.0 t || s.0.shutting_down
            then goroutines_of cache t s.0.wg
            else run_of cache ctx t (find t s.0.informers))
          s.0.shutting_down
  start-Shows visits ctx (f, w) (distinct, sound) = elim (Bool-cases f.shutting_down) [
    | inl down ↦
        rw (start-down cache ctx f w down)
          ((distinct, sound), λ t. refl, λ t. ground (arith, down), λ t. ground (arith, down), refl)
    | inr up ↦
        let es = cache.order w f.informers in
        let s' = start_each cache ctx es (f, w) in
        let (same, flag) = start_each-informers cache ctx es (f, w) in
        rw (start-up cache ctx f w up) (
          (subst IsMap (sym same) distinct, start_each-IsSound cache ctx es (f, w) sound),
          λ t. ap (find t) same,
          λ t.
              start_each-started cache ctx t es (f, w)
              ∙ ap (λ o. is_started cache f t || is_some o) (visits w f.informers t)
              ∙ ground (arith, up),
          λ t.
              Starts-of cache ctx (f, w) es s' sound (start_each-Starts cache ctx es (f, w)) t
              ∙ ap
                  (λ o.
                    if is_started cache f t
                    then goroutines_of cache t f.wg
                    else run_of cache ctx t o)
                  (visits w f.informers t)
              ∙ ap
                  (λ b.
                    if b
                    then goroutines_of cache t f.wg
                    else run_of cache ctx t (find t f.informers))
                  (still (is_started cache f t) f.shutting_down up),
          flag,
        )
  ]
    where
      still : (on down : Bool) → down ≡ false → on ≡ (on || down)
      still on down e = ground arith

  shutdown-Shows :
      (s : State)
      → factory_view.IsValid s
      → Shows factory_view
          (shutdown cache s)
          (λ t. find t s.0.informers)
          (λ t. is_started cache s.0 t)
          (λ t. [])
          true
  unfolding shutdown goroutines_of
  shutdown-Shows (f, w) (distinct, sound) =
      ((distinct, λ t. omega arith), λ t. refl, λ t. refl, λ t. refl, refl)

  at_most_one : (n : ℕ) (on : Bool) → n ≤ (if on then 1 else 0) → n ≤ 1
  at_most_one n on h = ground (arith, h)

  none_of :
      {A : Type 0} (l : List A) (on : Bool) → length l ≤ (if on then 1 else 0) → on ≡ false → l ≡ []
  none_of [] on h off = refl
  none_of (x ∷ l) on h off = absurd (few (subst (λ b. length (x ∷ l) ≤ (if b then 1 else 0)) off h))
    where
      few : length (x ∷ l) ≤ 0 → ⊥
      few h = omega (arith, h)

  -- The struct keeps the promises of the interface, where a range over
  -- a map visits the map's keys with their values, each once.
  pub shared_informer_factory-IsFactory :
      (visits : Visits cache)
      → ((w : cache.World) (m : Registry cache.Informer) → IsMap m → IsMap (cache.order w m))
      → IsFactory shared_informer_factory factory_view
  unfolding start wait_for_cache_sync informer typed_informer lister for_resource
  shared_informer_factory-IsFactory visits distinct = record {
    single = λ t s (_, sound). at_most_one _ (is_started cache s.0 t) (sound t);
    idle = λ t s (_, sound) off. none_of _ (is_started cache s.0 t) (sound t) off;
    asked = informer_for-Shows;
    asked_again = λ t new_func s i e. informer_for-found cache t new_func s i e;
    started = start-Shows visits;
    started_late = λ ctx s down. start-down cache ctx s.0 s.1 down;
    shut = shutdown-Shows;
    waited = λ ctx s (map, sound). (
      (wait_for_cache_sync-answer cache visits distinct ctx s.0 s.1 map).0,
      ((map, sound), λ t. refl, λ t. refl, λ t. refl, refl),
    );
    start_context = λ stop s. refl;
    wait_context = λ stop s. refl;
    reactive_jobs_informer =
        λ s₀ s. (default_informer cache go (reactivejobs (v1alpha1 (batch s₀.0))) s.0, refl);
    reactive_jobs_lister = λ s₀ s. refl;
    known_resource = λ s. refl;
    other_resource =
        λ resource s other. ap (generic_of resource) (for_resource-other cache go resource s other);
  }
