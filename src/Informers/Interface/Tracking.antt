-- ===== src/Informers/Interface/Tracking.antt =====
-- What the calls of a factory, as its interface in factory.go of pkg/client/informers/externalversions
-- promises them, do to a type that is followed through them.
use mathlib.Core.Bool.{false≢true}
use reactivejob_operator.Prelude.{
  Bool, none, List, [], ◌&&◌, ◌||◌, not, eq_iff, Option-cases, inl, inr, if◌then◌else◌, String, ◌≡◌,
  refl, ap, sym, ◌∙◌, true, false, Option, some, eq_refl, arith,
}
use reactivejob_operator.Informers.Registry.{is_some}
use reactivejob_operator.Informers.Factory.{Cache, Goroutine, NewInformerFunc, SyncResult}
use reactivejob_operator.Informers.Lifecycle.{run_of}
use reactivejob_operator.Informers.Channels.{Channels}
use reactivejob_operator.Informers.ReactiveJobs.{ClientGo}
use reactivejob_operator.Informers.Listers.{ListerGo}
use reactivejob_operator.Informers.Interface.{SharedInformerFactory, View, IsFactory}

module _ {cache : Cache} {go : ClientGo cache} {lib : ListerGo cache go} {State : Type 0}
    {channels : Channels cache} (factory : SharedInformerFactory cache go lib State channels)
    (view : View cache State) (laws : IsFactory factory view) where
  -- Before `Shutdown`, where a type is started only with an informer, and its goroutines are the one
  -- that the context gave it, or none.
  abbrev pub Tracked : cache.Context → String → State → Type 0
  Tracked ctx t s =
      view.IsValid s
      × (view.closing s ≡ false)
      × (view.started t s ≡ true → is_some (view.requested t s) ≡ true)
      × (view.goroutines t s
          ≡ (if view.started t s then run_of cache ctx t (view.requested t s) else []))

  abbrev pub wait : cache.Context → State → SyncResult cache × State
  wait ctx s = factory.wait_for_cache_sync_with_context ctx s

  pub idle-Tracked :
      (ctx : cache.Context) (t : String) (s : State)
      → view.IsValid s
      → view.closing s ≡ false
      → view.started t s ≡ false
      → Tracked ctx t s
  idle-Tracked ctx t s valid up off = (
    valid,
    up,
    λ on. absurd (false≢true (sym off ∙ on)),
    laws.idle t s valid off
        ∙ ap (λ b. if b then run_of cache ctx t (view.requested t s) else []) (sym off),
  )

  -- A request changes what is requested of types without an informer only.
  pub informer_for-requested :
      (r t : String) (new_func : NewInformerFunc cache) (s : State) (i : cache.Informer)
      → view.IsValid s
      → view.requested t s ≡ some i
      → view.requested t (factory.internal.informer_for r new_func s).1 ≡ some i
  informer_for-requested r t new_func s i valid has = elim (Option-cases (view.requested r s)) [
    | inl none_yet ↦ (laws.asked r new_func s valid).1 t ∙ ground (arith, eq_iff r t, none_yet, has)
    | inr (j, e) ↦ ap (λ x. view.requested t x.1) (laws.asked_again r new_func s j e) ∙ has
  ]

  pub informer_for-Tracked :
      (ctx : cache.Context) (r t : String) (new_func : NewInformerFunc cache) (s : State)
      → Tracked ctx t s
      → Tracked ctx t (factory.internal.informer_for r new_func s).1
  informer_for-Tracked ctx r t new_func s (valid, up, asked, runs) =
      let s' = (factory.internal.informer_for r new_func s).1 in
      let (valid', now, on, same, flag) = laws.asked r new_func s valid in
      let keeps : view.started t s ≡ true → view.requested t s' ≡ view.requested t s = λ e.
        elim (Option-cases (view.requested t s)) [
          | inl nothing ↦ absurd (false≢true (sym (ap is_some nothing) ∙ asked e))
          | inr (i, has) ↦ informer_for-requested r t new_func s i valid has ∙ sym has
        ] in
      (
        valid',
        flag ∙ up,
        λ e. let e' = sym (on t) ∙ e in ap is_some (keeps e') ∙ asked e',
        same t
            ∙ runs
            ∙ kept (view.started t s) (view.requested t s) (view.requested t s') keeps
            ∙ ap (λ b. if b then run_of cache ctx t (view.requested t s') else []) (sym (on t)),
      )
    where
      kept :
          (on : Bool) (o o' : Option cache.Informer)
          → (on ≡ true → o' ≡ o)
          → ◌≡◌ {A = List (Goroutine cache)}
              (if on then run_of cache ctx t o else [])
              (if on then run_of cache ctx t o' else [])
      kept true o o' h = ap (run_of cache ctx t) (sym (h refl))
      kept false o o' h = refl

  pub start-Tracked :
      (ctx : cache.Context) (t : String) (s : State)
      → Tracked ctx t s
      → Tracked ctx t (factory.start_with_context ctx s)
  start-Tracked ctx t s (valid, up, asked, runs) =
      let s' = factory.start_with_context ctx s in
      let (valid', same, on, now, flag) = laws.started ctx s valid in
      (
        valid',
        flag ∙ up,
        λ e. ap is_some (same t) ∙ ground (arith, asked, on t, e),
        now t
            ∙ turn (view.started t s) (view.closing s) (view.requested t s) (view.goroutines t s) up
                runs
            ∙ ap (λ b. if b then run_of cache ctx t (view.requested t s) else []) (sym (on t))
            ∙ ap (λ o. if view.started t s' then run_of cache ctx t o else []) (sym (same t)),
      )
    where
      turn :
          (on down : Bool) (o : Option cache.Informer) (gs : List (Goroutine cache))
          → down ≡ false
          → gs ≡ (if on then run_of cache ctx t o else [])
          → (if on || down then gs else run_of cache ctx t o)
            ≡ (if on || (is_some o && not down) then run_of cache ctx t o else [])
      turn true down o gs e runs = runs
      turn false true o gs e runs = absurd (false≢true (sym e))
      turn false false none gs e runs = refl
      turn false false (some i) gs e runs = refl

  -- Starting runs an informer that was requested.
  pub start-run :
      (ctx : cache.Context) (t : String) (s : State) (i : cache.Informer)
      → Tracked ctx t s
      → view.requested t s ≡ some i
      → let s' = factory.start_with_context ctx s in
        (view.started t s' ≡ true)
        × (view.requested t s' ≡ some i)
        × (view.goroutines t s' ≡ run_of cache ctx t (some i))
  start-run ctx t s i tracked has =
      let s' = factory.start_with_context ctx s in
      let (_, same, on, _, _) = laws.started ctx s tracked.0 in
      let runs = start-Tracked ctx t s tracked in
      let started : view.started t s' ≡ true = on t ∙ ground (arith, has, tracked.1) in
      let has' : view.requested t s' ≡ some i = same t ∙ has in
      (
        started,
        has',
        runs.3
            ∙ ap (λ b. if b then run_of cache ctx t (view.requested t s') else []) started
            ∙ ap (run_of cache ctx t) has',
      )

  pub wait-Tracked :
      (ctx : cache.Context) (t : String) (s : State)
      → Tracked ctx t s
      → Tracked ctx t (wait ctx s).1
  wait-Tracked ctx t s (valid, up, asked, runs) =
      let s' = (wait ctx s).1 in
      let (_, (valid', same, on, now, flag)) = laws.waited ctx s valid in
      (
        valid',
        flag ∙ up,
        λ e. ap is_some (same t) ∙ asked (sym (on t) ∙ e),
        now t
            ∙ runs
            ∙ ap (λ b. if b then run_of cache ctx t (view.requested t s) else []) (sym (on t))
            ∙ ap (λ o. if view.started t s' then run_of cache ctx t o else []) (sym (same t)),
      )

  pub informer_for-asked :
      (t : String) (new_func : NewInformerFunc cache) (s : State)
      → view.IsValid s
      → let (informer, s') = factory.internal.informer_for t new_func s in
        view.requested t s' ≡ some informer
  informer_for-asked t new_func s valid =
      (laws.asked t new_func s valid).1 t ∙ ground (arith, eq_refl t)
