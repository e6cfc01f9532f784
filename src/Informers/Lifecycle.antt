-- ===== src/Informers/Lifecycle.antt =====
-- Calls of the factory's methods in any order, and what one start of the informers does.
pub mod Goroutines
pub mod Starts
pub mod Shared
use mathlib.Core.List.{append_assoc, append-nil}
use reactivejob_operator.Prelude.{
  ◌≤◌, String, ◌≡◌, refl, ap, sym, ◌∙◌, subst, Bool, true, false, ◌||◌, some, [], ◌∷◌, str_eq, ◌++◌,
  List, length, Option, none, eq_iff, eq_refl, if◌then◌else◌, arith, Bool-cases, Option-cases, inl,
  inr,
}
use reactivejob_operator.Prelude.Int.{ℤ}
use reactivejob_operator.Informers.Registry.{
  Registry, find, put, is_some, or_false, find-put, find-put_same,
}
unfoldable pub use reactivejob_operator.Informers.Lifecycle.Goroutines.{goroutines_of, run_all}
pub use reactivejob_operator.Informers.Lifecycle.Goroutines.{
  run_of, goroutines_of-append, run_all-append, goroutines_of-ended, IsAmong, IsAmong-refl,
  IsAmong-ended,
}
use reactivejob_operator.Informers.Factory.{
  new_factory, Cache, Goroutine, Factory, NewInformerFunc, is_started, start_one, start_each,
  start_with_context, shutdown, informer_for, made_informer, wait_for_cache_sync_with_context,
  new_with_options,
}

module _ (cache : Cache) where
  -- Each type has at most one goroutine if it is marked as started, and none otherwise.
  abbrev pub IsSound : Factory cache → Type 0
  IsSound f =
      (t : String) → length (goroutines_of cache t f.wg) ≤ (if is_started cache f t then 1 else 0)

  -- One call of a method, or what happens outside the factory.
  pub data Step : Factory cache × cache.World → Factory cache × cache.World → Type 0 where
    starting :
        (ctx : cache.Context) (s : Factory cache × cache.World)
        → Step s (start_with_context cache ctx s)
    stopping : (s : Factory cache × cache.World) → Step s (shutdown cache s)
    -- `Shutdown` up to where it unlocks, before its wait
    closing :
        (f : Factory cache) (w : cache.World) → Step (f, w) (record f { shutting_down = true }, w)
    asking :
        (t : String) (new_func : NewInformerFunc cache) (s : Factory cache × cache.World)
        → Step s (informer_for cache t new_func s).1
    waiting :
        (ctx : cache.Context) (s : Factory cache × cache.World)
        → Step s (s.0, (wait_for_cache_sync_with_context cache ctx s).1)
    -- a goroutine ends, whose context is done
    ending :
        (f : Factory cache) (w : cache.World) (newer older : List (Goroutine cache))
        (g : Goroutine cache)
        → f.wg ≡ newer ++ g ∷ older
        → Step (f, w) (record f { wg = newer ++ older }, w)
    elapsing : (f : Factory cache) (w w' : cache.World) → Step (f, w) (f, w')

  pub data Steps : Factory cache × cache.World → Factory cache × cache.World → Type 0 where
    stop : (s : Factory cache × cache.World) → Steps s s
    step : {s s' s'' : Factory cache × cache.World} → Step s s' → Steps s' s'' → Steps s s''

  or_false-put :
      (r t : String) (m : Registry Bool)
      → or_false (find r (put t true m)) ≡ (or_false (find r m) || str_eq t r)
  or_false-put r t m = ground (arith, find-put r t true m)

  start_one-started :
      (ctx : cache.Context) (t r : String) (i : cache.Informer) (s : Factory cache × cache.World)
      → is_started cache (start_one cache ctx t i s).0 r ≡ (is_started cache s.0 r || str_eq t r)
  unfolding start_one
  start_one-started ctx t r i (f, w) =
      ground (arith, or_false-put r t f.started_informers, eq_iff t r)

  start_one-IsSound :
      (ctx : cache.Context) (t : String) (i : cache.Informer) (s : Factory cache × cache.World)
      → IsSound s.0
      → IsSound (start_one cache ctx t i s).0
  unfolding start_one goroutines_of
  start_one-IsSound ctx t i (f, w) h r =
      ground (arith, or_false-put r t f.started_informers, eq_iff t r, h r, h t)

  start_one-idle :
      (ctx : cache.Context) (t : String) (i : cache.Informer) (s : Factory cache × cache.World)
      → is_started cache s.0 t ≡ true
      → start_one cache ctx t i s ≡ s
  unfolding start_one
  start_one-idle ctx t i (f, w) h = rw h refl

  start_one-informers :
      (ctx : cache.Context) (t : String) (i : cache.Informer) (s : Factory cache × cache.World)
      → ((start_one cache ctx t i s).0.informers ≡ s.0.informers)
        × ((start_one cache ctx t i s).0.shutting_down ≡ s.0.shutting_down)
  unfolding start_one
  start_one-informers ctx t i (f, w) = elim (Bool-cases (is_started cache f t)) [
    | inl h ↦ rw h (refl, refl)
    | inr h ↦ rw h (refl, refl)
  ]

  start_one-fresh :
      (ctx : cache.Context) (t : String) (i : cache.Informer) (s : Factory cache × cache.World)
      → is_started cache s.0 t ≡ false
      → ((start_one cache ctx t i s).0.wg ≡ run_of cache ctx t (some i) ++ s.0.wg)
        × ((start_one cache ctx t i s).1 ≡ run_all cache (run_of cache ctx t (some i)) s.1)
  unfolding start_one run_all
  start_one-fresh ctx t i (f, w) h = rw h (refl, refl)

  module _ (ctx : cache.Context) where
    -- What one start adds: the goroutines, in the wait group and running, of the types that were not
    -- started.
    abbrev pub Starts :
        (Factory cache × cache.World)
        → Registry cache.Informer
        → Factory cache × cache.World
        → Type 0
    Starts s es s' =
        (added : List (Goroutine cache)) × (s'.0.wg ≡ added ++ s.0.wg)
        × (s'.1 ≡ run_all cache added s.1)
        × ((t : String)
            → goroutines_of cache t added
              ≡ (if is_started cache s.0 t then [] else run_of cache ctx t (find t es)))

    started_turn :
        (t r : String) (i : cache.Informer) (es : Registry cache.Informer)
        (s : Factory cache × cache.World)
        → is_started cache s.0 r ≡ true
        → (if is_started cache s.0 t then [] else run_of cache ctx t (find t es))
          ≡ (if is_started cache s.0 t then [] else run_of cache ctx t (find t ((r, i) ∷ es)))
    unfolding find
    started_turn t r i es s on = elim (Bool-cases (str_eq r t)) [
      | inl same ↦
          let e = (eq_iff r t).0 same in rw (subst (λ t. is_started cache s.0 t ≡ true) e on) refl
      | inr other ↦ rw other refl
    ]

    start_turn :
        (t r : String) (i : cache.Informer) (es : Registry cache.Informer)
        (s : Factory cache × cache.World)
        → is_started cache s.0 r ≡ false
        → (if is_started cache (start_one cache ctx r i s).0 t
              then []
              else run_of cache ctx t (find t es))
            ++ goroutines_of cache t (run_of cache ctx r (some i))
          ≡ (if is_started cache s.0 t then [] else run_of cache ctx t (find t ((r, i) ∷ es)))
    unfolding find goroutines_of
    start_turn t r i es s off = elim (Bool-cases (str_eq r t)) [
      | inl same ↦
          let e = (eq_iff r t).0 same in
          subst
            (λ t.
              (if is_started cache (start_one cache ctx r i s).0 t
                  then []
                  else run_of cache ctx t (find t es))
                ++ goroutines_of cache t (run_of cache ctx r (some i))
              ≡ (if is_started cache s.0 t then [] else run_of cache ctx t (find t ((r, i) ∷ es))))
            e (rw (start_one-started ctx r r i s, off, eq_refl r) refl)
      | inr other ↦ elim (Bool-cases (is_started cache s.0 t)) [
        | inl on ↦ rw (start_one-started ctx r t i s, on, other) refl
        | inr idle ↦ rw (start_one-started ctx r t i s, idle, other) (append-nil _)
      ]
    ]

    pub start_each-Starts :
        (es : Registry cache.Informer) (s : Factory cache × cache.World)
        → Starts s es (start_each cache ctx es s)
    unfolding start_each find run_all goroutines_of
    start_each-Starts [] s = ([], refl, refl, λ t. ground arith)
    start_each-Starts ((r, i) ∷ es) s = elim (Bool-cases (is_started cache s.0 r)) [
      | inl on ↦
          let (added, grown, ran, which) = start_each-Starts es s in
          subst (λ s'. Starts s ((r, i) ∷ es) (start_each cache ctx es s'))
            (sym (start_one-idle ctx r i s on))
            (added, grown, ran, λ t. which t ∙ started_turn t r i es s on)
      | inr off ↦
          let s₁ = start_one cache ctx r i s in
          let (grown₁, ran₁) = start_one-fresh ctx r i s off in
          let (added, grown, ran, which) = start_each-Starts es s₁ in
          (
            added ++ run_of cache ctx r (some i),
            grown
                ∙ ap (λ l. added ++ l) grown₁
                ∙ sym (append_assoc added (run_of cache ctx r (some i)) s.0.wg),
            ran
                ∙ ap (run_all cache added) ran₁
                ∙ sym (run_all-append cache added (run_of cache ctx r (some i)) s.1),
            λ t.
                goroutines_of-append cache t added (run_of cache ctx r (some i))
                ∙ ap (λ l. l ++ goroutines_of cache t (run_of cache ctx r (some i))) (which t)
                ∙ start_turn t r i es s off,
          )
    ]

    -- The goroutines of a type afterwards.
    pub Starts-of :
        (s : Factory cache × cache.World) (es : Registry cache.Informer)
        (s' : Factory cache × cache.World)
        → IsSound s.0
        → Starts s es s'
        → (t : String)
        → goroutines_of cache t s'.0.wg ≡ (
            if is_started cache s.0 t
            then goroutines_of cache t s.0.wg
            else run_of cache ctx t (find t es))
    Starts-of s es s' sound (added, grown, ran, which) t =
        ap (goroutines_of cache t) grown
        ∙ goroutines_of-append cache t added s.0.wg
        ∙ ap (λ l. l ++ goroutines_of cache t s.0.wg) (which t)
        ∙ kept (is_started cache s.0 t) (run_of cache ctx t (find t es))
            (goroutines_of cache t s.0.wg) (sound t)
      where
        kept :
            (on : Bool) (new old : List (Goroutine cache))
            → length old ≤ (if on then 1 else 0)
            → ((if on then [] else new) ++ old) ≡ (if on then old else new)
        kept true new old h = refl
        kept false new [] h = append-nil new
        kept false new (g ∷ old) h = absurd (omega (arith, h))

    pub start_each-started :
        (r : String) (es : Registry cache.Informer) (s : Factory cache × cache.World)
        → is_started cache (start_each cache ctx es s).0 r
          ≡ (is_started cache s.0 r || is_some (find r es))
    unfolding start_each find
    start_each-started r [] s = ground arith
    start_each-started r ((t, i) ∷ es) s =
        ground (
          arith,
          start_each-started r es (start_one cache ctx t i s),
          start_one-started ctx t r i s,
        )

    pub start_each-IsSound :
        (es : Registry cache.Informer) (s : Factory cache × cache.World)
        → IsSound s.0
        → IsSound (start_each cache ctx es s).0
    unfolding start_each
    start_each-IsSound [] s h = h
    start_each-IsSound ((t, i) ∷ es) s h =
        start_each-IsSound es (start_one cache ctx t i s) (start_one-IsSound ctx t i s h)

    pub start_each-informers :
        (es : Registry cache.Informer) (s : Factory cache × cache.World)
        → ((start_each cache ctx es s).0.informers ≡ s.0.informers)
          × ((start_each cache ctx es s).0.shutting_down ≡ s.0.shutting_down)
    unfolding start_each
    start_each-informers [] s = (refl, refl)
    start_each-informers ((t, i) ∷ es) s =
        let (e, d) = start_each-informers es (start_one cache ctx t i s) in
        let (e', d') = start_one-informers ctx t i s in (e ∙ e', d ∙ d')

    pub start_each-idle :
        (es : Registry cache.Informer) (s : Factory cache × cache.World)
        → ((r : String) → is_some (find r es) ≡ true → is_started cache s.0 r ≡ true)
        → start_each cache ctx es s ≡ s
    unfolding start_each find
    start_each-idle [] s h = refl
    start_each-idle ((t, i) ∷ es) s h =
        let idle : start_one cache ctx t i s ≡ s =
          start_one-idle ctx t i s (h t (rw eq_refl refl)) in
        ap (start_each cache ctx es) idle ∙ start_each-idle es s (λ r m. h r (ground (arith, m)))

  pub start-down :
      (ctx : cache.Context) (f : Factory cache) (w : cache.World)
      → f.shutting_down ≡ true
      → start_with_context cache ctx (f, w) ≡ (f, w)
  unfolding start_with_context
  start-down ctx f w h =
      ap (λ b. if b then (f, w) else start_each cache ctx (cache.order w f.informers) (f, w)) h

  pub start-up :
      (ctx : cache.Context) (f : Factory cache) (w : cache.World)
      → f.shutting_down ≡ false
      → start_with_context cache ctx (f, w)
        ≡ start_each cache ctx (cache.order w f.informers) (f, w)
  unfolding start_with_context
  start-up ctx f w h =
      ap (λ b. if b then (f, w) else start_each cache ctx (cache.order w f.informers) (f, w)) h
