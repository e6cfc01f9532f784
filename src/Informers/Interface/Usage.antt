-- ===== src/Informers/Interface/Usage.antt =====
-- A client of a factory that uses it the way the comment of `SharedInformerFactory` in
-- pkg/client/informers/externalversions/factory.go shows.
use reactivejob_operator.Prelude.{
  [], String, ◌≡◌, refl, ap, sym, ◌∙◌, subst, true, false, Option, some, arith,
}
use reactivejob_operator.Informers.Registry.{find, is_some}
use reactivejob_operator.Informers.Factory.{Cache, NewInformerFunc, SyncResult}
use reactivejob_operator.Informers.Lifecycle.{run_of}
use reactivejob_operator.Informers.Channels.{Channels}
use reactivejob_operator.Informers.ReactiveJobs.{reactive_jobs, reactive_job_type, ClientGo}
use reactivejob_operator.Informers.Listers.{ListerGo}
use reactivejob_operator.Informers.Interface.Tracking.{
  Tracked, wait, idle-Tracked, informer_for-requested, informer_for-Tracked, start-Tracked,
  start-run, wait-Tracked, informer_for-asked,
}
use reactivejob_operator.Informers.Interface.{
  GenericInformer, generic_informer, SharedInformerFactory, View, IsFactory,
}

-- What the client holds: what the calls returned, and the state after each part.
pub record Session (cache : Cache) (go : ClientGo cache) (lib : ListerGo cache go) (State : Type 0)
    : Type 0 where
  pub generic_informer : Option (GenericInformer cache go lib)
  pub typed_informer : cache.Informer
  pub synced : SyncResult cache
  pub another : cache.Informer
  -- before `Shutdown`, and after it
  pub used : State
  pub closed : State

module _ {cache : Cache} {go : ClientGo cache} {lib : ListerGo cache go} {State : Type 0}
    {channels : Channels cache} where
  -- The factory is started and waited for; then another informer is made and the factory started again;
  -- at the end it is shut down.
  unfoldable run_use :
      SharedInformerFactory cache go lib State channels
      → cache.Context
      → String
      → NewInformerFunc cache
      → Option (GenericInformer cache go lib)
      → cache.Informer × State
      → Session cache go lib State
  run_use factory ctx t new_func generic (typed, s) =
      let (synced, s') =
        factory.wait_for_cache_sync_with_context ctx (factory.start_with_context ctx s) in
      let (another, s'') = factory.internal.informer_for t new_func s' in
      let used = factory.start_with_context ctx s'' in
      record {
        generic_informer = generic;
        typed_informer = typed;
        synced = synced;
        another = another;
        used = used;
        closed = factory.shutdown used;
      }

  -- A generic and a typed informer are asked for before all that.
  unfoldable pub typical_use :
      SharedInformerFactory cache go lib State channels
      → cache.Context
      → String
      → NewInformerFunc cache
      → State
      → Session cache go lib State
  unfolding run_use
  typical_use factory ctx t new_func s =
      let (generic, s') = factory.for_resource reactive_jobs s in
      run_use factory ctx t new_func generic ((factory.batch s').v1alpha1.reactivejobs.informer s')

  module _ (factory : SharedInformerFactory cache go lib State channels) (view : View cache State)
      (laws : IsFactory factory view) where
    abbrev typed : State → State → cache.Informer × State
    typed s₀ s = (factory.batch s₀).v1alpha1.reactivejobs.informer s

    typed-again : (s₀ s₁ s : State) → view.IsValid s → typed s₁ (typed s₀ s).1 ≡ typed s₀ s
    typed-again s₀ s₁ s valid =
        let (new_func, e) = laws.reactive_jobs_informer s₀ s in
        let (raw, s') = factory.internal.informer_for reactive_job_type new_func s in
        let (new_func', e') = laws.reactive_jobs_informer s₁ s' in
        ap (λ r. typed s₁ r.1) e
        ∙ e'
        ∙ ap (λ r. (go.typed r.0, r.1))
            (laws.asked_again reactive_job_type new_func' s' raw
              (informer_for-asked factory view laws reactive_job_type new_func s valid))
        ∙ sym e

    -- What a session of the typical use with a context shows.
    pub record WellUsed (ctx : cache.Context) (t : String) (u : Session cache go lib State)
        : Type 0 where
      -- the generic informer is the typed one, and it is waited for
      pub same_informer :
          u.generic_informer ≡ some (generic_informer cache go lib reactive_jobs u.typed_informer)
      pub awaited : is_some (find reactive_job_type u.synced.synced) ≡ true
      -- both informers are the registered ones and run, with the context, each once
      pub reactive_jobs_run :
          (raw : cache.Informer) × (u.typed_informer ≡ go.typed raw)
          × (view.requested reactive_job_type u.used ≡ some raw)
          × (view.goroutines reactive_job_type u.used
              ≡ run_of cache ctx reactive_job_type (some raw))
      pub another_requested : view.requested t u.used ≡ some u.another
      pub another_runs : view.goroutines t u.used ≡ run_of cache ctx t (some u.another)
      -- nothing runs after the shutdown, and nothing can be started any more
      pub closed_none : (r : String) → view.goroutines r u.closed ≡ []
      pub closed_final :
          (ctx' : cache.Context) → factory.start_with_context ctx' u.closed ≡ u.closed

    run_use-WellUsed :
        (ctx : cache.Context) (t : String) (new_func : NewInformerFunc cache)
        (raw typed : cache.Informer) (s : State)
        → typed ≡ go.typed raw
        → view.requested reactive_job_type s ≡ some raw
        → Tracked factory view laws ctx reactive_job_type s
        → Tracked factory view laws ctx t s
        → WellUsed ctx t (
            run_use factory ctx t new_func
              (some (generic_informer cache go lib reactive_jobs typed))
              (typed, s))
    unfolding run_use
    run_use-WellUsed ctx t new_func raw typed s same has jobs other =
        let s₁ = factory.start_with_context ctx s in
        let s₂ = (wait factory view laws ctx s₁).1 in
        let s₃ = (factory.internal.informer_for t new_func s₂).1 in
        let jobs₁ = start-Tracked factory view laws ctx reactive_job_type s jobs in
        let jobs₂ = wait-Tracked factory view laws ctx reactive_job_type s₁ jobs₁ in
        let jobs₃ =
          informer_for-Tracked factory view laws ctx t reactive_job_type new_func s₂ jobs₂ in
        let other₂ =
          wait-Tracked factory view laws ctx t s₁ (start-Tracked factory view laws ctx t s other) in
        let other₃ = informer_for-Tracked factory view laws ctx t t new_func s₂ other₂ in
        let (on, has₁, _) = start-run factory view laws ctx reactive_job_type s raw jobs has in
        let (answer, (_, waited, _, _, _)) = laws.waited ctx s₁ jobs₁.0 in
        let has₃ =
          informer_for-requested factory view laws t reactive_job_type new_func s₂ raw jobs₂.0
            (waited reactive_job_type ∙ has₁) in
        let (_, kept, runs) = start-run factory view laws ctx reactive_job_type s₃ raw jobs₃ has₃ in
        let (_, another, another_runs) =
          start-run factory view laws ctx t s₃ _ other₃
            (informer_for-asked factory view laws t new_func s₂ jobs₂.0) in
        let (_, _, _, ends, closes) =
          laws.shut (factory.start_with_context ctx s₃)
            (start-Tracked factory view laws ctx t s₃ other₃).0 in
        record {
          same_informer = refl;
          awaited = answer reactive_job_type ∙ ground (arith, on, has₁);
          reactive_jobs_run = (raw, same, kept, runs);
          another_requested = another;
          another_runs = another_runs;
          closed_none = ends;
          closed_final = λ ctx'. laws.started_late ctx' _ closes;
        }

    -- The typical use of anything that keeps the promises, where neither type was started before.
    pub typical_use-WellUsed :
        (ctx : cache.Context) (t : String) (new_func : NewInformerFunc cache) (s : State)
        → view.IsValid s
        → view.closing s ≡ false
        → view.started reactive_job_type s ≡ false
        → view.started t s ≡ false
        → WellUsed ctx t (typical_use factory ctx t new_func s)
    unfolding typical_use
    typical_use-WellUsed ctx t new_func s valid up jobs_idle idle =
        let generic = generic_informer cache go lib reactive_jobs (typed s s).0 in
        let (default, e) = laws.reactive_jobs_informer s s in
        let (raw, s') = factory.internal.informer_for reactive_job_type default s in
        let after : (r : String)
            → view.started r s ≡ false
            → Tracked factory view laws ctx r (typed s s).1 =
          λ r off.
            subst (λ x. Tracked factory view laws ctx r x.1) (sym e)
              (informer_for-Tracked factory view laws ctx reactive_job_type r default s
                (idle-Tracked factory view laws ctx r s valid up off)) in
        subst (WellUsed ctx t)
          (sym (
            ap (λ r. run_use factory ctx t new_func r.0 (typed r.1 r.1)) (laws.known_resource s)
            ∙ ap (run_use factory ctx t new_func (some generic))
                (typed-again s (typed s s).1 s valid)))
          (run_use-WellUsed ctx t new_func raw (typed s s).0 (typed s s).1 (ap (λ x. x.0) e)
            (subst (λ x. view.requested reactive_job_type x.1 ≡ some raw) (sym e)
              (informer_for-asked factory view laws reactive_job_type default s valid))
            (after reactive_job_type jobs_idle) (after t idle))
