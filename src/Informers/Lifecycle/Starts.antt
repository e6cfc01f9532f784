-- ===== src/Informers/Lifecycle/Starts.antt =====
-- Which informers run after any calls of the factory's methods.
use reactivejob_operator.Prelude.{
  List, [], ◌∷◌, length, ◌≤◌, String, ◌≡◌, refl, ap, sym, ◌∙◌, subst, true, false, ◌||◌,
  if◌then◌else◌, arith, Bool-cases, Option-cases, inl, inr,
}
use reactivejob_operator.Prelude.Int.{ℤ}
use reactivejob_operator.Informers.Registry.{Registry, find, is_some}
use reactivejob_operator.Informers.Factory.{
  new_factory, Cache, Goroutine, Factory, is_started, start_each, start_with_context, shutdown,
  informer_for, new_with_options,
}
use reactivejob_operator.Informers.Lifecycle.{
  IsSound, Step, starting, stopping, closing, asking, waiting, ending, elapsing, goroutines_of,
  run_of, goroutines_of-ended, IsAmong, IsAmong-refl, IsAmong-ended, Starts, start_each-Starts,
  Starts-of, Steps, stop, step, start_each-started, start_each-IsSound, start_each-informers,
  start_each-idle, start-down, start-up,
}

module _ (cache : Cache) where
  new_with_options-IsSound :
      (client : cache.Client) (resync : ℤ) → IsSound cache (new_factory cache client resync)
  unfolding new_factory new_with_options goroutines_of find
  new_with_options-IsSound client resync t = omega arith

  Step-IsSound :
      {s s' : Factory cache × cache.World}
      → Step cache s s'
      → IsSound cache s.0
      → IsSound cache s'.0
  unfolding shutdown informer_for goroutines_of
  Step-IsSound (starting ctx (f, w)) h = elim (Bool-cases f.shutting_down) [
    | inl down ↦ subst (λ s. IsSound cache s.0) (sym (start-down cache ctx f w down)) h
    | inr up ↦
        subst (λ s. IsSound cache s.0) (sym (start-up cache ctx f w up))
          (start_each-IsSound cache ctx (cache.order w f.informers) (f, w) h)
  ]
  Step-IsSound (stopping (f, w)) h = λ t. omega arith
  Step-IsSound (closing f w) h = h
  Step-IsSound (asking t new_func (f, w)) h = elim (Option-cases (find t f.informers)) [
    | inl e ↦ rw e h
    | inr (i, e) ↦ rw e h
  ]
  Step-IsSound (waiting ctx s) h = h
  Step-IsSound (ending f w newer older g e) h = λ t.
      let fewer = goroutines_of-ended cache t newer older g in
      omega (arith, fewer, ap (λ l. length (goroutines_of cache t l)) e, h t)
  Step-IsSound (elapsing f w w') h = h

  Steps-IsSound :
      {s s' : Factory cache × cache.World}
      → Steps cache s s'
      → IsSound cache s.0
      → IsSound cache s'.0
  Steps-IsSound (stop s) h = h
  Steps-IsSound (step a rest) h = Steps-IsSound rest (Step-IsSound a h)

  -- From a new factory, whatever calls are made in whatever order and whichever goroutines end, no type
  -- of informer ever has more than one goroutine.
  pub at_most_one_run :
      (client : cache.Client) (resync : ℤ) (w : cache.World) {s : Factory cache × cache.World}
      → Steps cache (new_factory cache client resync, w) s
      → (t : String) → length (goroutines_of cache t s.0.wg) ≤ 1
  at_most_one_run client resync w {s} run t =
      let h = Steps-IsSound run (new_with_options-IsSound client resync) t in ground (arith, h)

  -- The flag is set and no goroutine has come to those given.
  abbrev IsClosing : List (Goroutine cache) → Factory cache × cache.World → Type 0
  IsClosing gs s = IsAmong cache s.0.wg gs × (s.0.shutting_down ≡ true)

  Step-IsClosing :
      (gs : List (Goroutine cache)) {s s' : Factory cache × cache.World}
      → Step cache s s'
      → IsClosing gs s
      → IsClosing gs s'
  unfolding shutdown informer_for
  Step-IsClosing gs (starting ctx (f, w)) (h, down) =
      subst (IsClosing gs) (sym (start-down cache ctx f w down)) (h, down)
  Step-IsClosing gs (stopping (f, w)) h = (tt, refl)
  Step-IsClosing gs (closing f w) (h, down) = (h, refl)
  Step-IsClosing gs (asking t new_func (f, w)) h = elim (Option-cases (find t f.informers)) [
    | inl e ↦ rw e h
    | inr (i, e) ↦ rw e h
  ]
  Step-IsClosing gs (waiting ctx s) h = h
  Step-IsClosing gs (ending f w newer older g e) (h, down) =
      (IsAmong-ended cache newer older gs g (subst (λ l. IsAmong cache l gs) e h), down)
  Step-IsClosing gs (elapsing f w w') h = h

  closing_stays :
      (gs : List (Goroutine cache)) {s s' : Factory cache × cache.World}
      → Steps cache s s'
      → IsClosing gs s
      → IsAmong cache s'.0.wg gs
  closing_stays gs (stop s) h = h.0
  closing_stays gs (step a rest) h = closing_stays gs rest (Step-IsClosing gs a h)

  none_among : (gs : List (Goroutine cache)) → IsAmong cache gs [] → gs ≡ []
  none_among [] h = refl
  none_among (g ∷ gs) (m, _) = elim m [ ]

  -- Once `Shutdown` has set its flag, whatever calls follow, every goroutine is one that ran before; and
  -- when it has returned, no goroutine runs, and whatever calls follow, none is started any more.
  pub shutdown-final :
      (s : Factory cache × cache.World) {s' s'' : Factory cache × cache.World}
      → Steps cache (record (s.0) { shutting_down = true }, s.1) s'
      → Steps cache (shutdown cache s) s''
      → IsAmong cache s'.0.wg s.0.wg × ((shutdown cache s).0.wg ≡ []) × (s''.0.wg ≡ [])
  unfolding shutdown
  shutdown-final (f, w) {s'' = s''} waiting_run run = (
    closing_stays f.wg waiting_run (IsAmong-refl cache f.wg, refl),
    refl,
    none_among s''.0.wg (closing_stays [] run (tt, refl)),
  )

  -- The entries of a map keep their keys and values in any order of the range.
  abbrev pub Visits : Type 0
  Visits =
      (w : cache.World) (m : Registry cache.Informer) (t : String)
      → find t (cache.order w m) ≡ find t m

  module _ (visits : Visits) where
    -- `Start` before `Shutdown`, where each type has at most one goroutine if it is marked as started and
    -- none otherwise: for every type that was not started and has an informer, one goroutine with the
    -- context and that informer is started, in the wait group and running outside, and no other; so such
    -- a type has exactly this goroutine, and a type that was started has the ones it had. Exactly the
    -- types that were started before or have an informer count as started afterwards, and starting again
    -- at once changes nothing, neither in the factory nor outside of it. A range over a map is assumed to
    -- visit the map's keys with their values.
    pub start-runs :
        (ctx ctx' : cache.Context) (s : Factory cache × cache.World)
        → IsSound cache s.0
        → s.0.shutting_down ≡ false
        → let s' = start_with_context cache ctx s in
          Starts cache ctx s s.0.informers s'
          × ((t : String)
              → goroutines_of cache t s'.0.wg ≡ (
                  if is_started cache s.0 t
                  then goroutines_of cache t s.0.wg
                  else run_of cache ctx t (find t s.0.informers)))
          × ((t : String)
              → is_started cache s'.0 t
                ≡ (is_started cache s.0 t || is_some (find t s.0.informers)))
          × (start_with_context cache ctx' s' ≡ s')
    start-runs ctx ctx' (f, w) sound up =
        let es = cache.order w f.informers in
        let s' = start_each cache ctx es (f, w) in
        let (same, flag) = start_each-informers cache ctx es (f, w) in
        let started : (t : String)
            → is_started cache s'.0 t ≡ (is_started cache f t || is_some (find t f.informers)) =
          λ t.
            start_each-started cache ctx t es (f, w)
            ∙ ap (λ o. is_started cache f t || is_some o) (visits w f.informers t) in
        let again : start_with_context cache ctx' s' ≡ s' =
          start-up cache ctx' s'.0 s'.1 (flag ∙ up)
          ∙ start_each-idle cache ctx' (cache.order s'.1 s'.0.informers) s' (λ r m.
            started r
            ∙ ground (
              arith,
              ap is_some (sym (visits s'.1 s'.0.informers r)) ∙ m,
              ap (λ i. is_some (find r i)) same,
            )) in
        let (added, grown, ran, which) = start_each-Starts cache ctx es (f, w) in
        let runs : Starts cache ctx (f, w) f.informers s' = (
          added,
          grown,
          ran,
          λ t.
              which t
              ∙ ap (λ o. if is_started cache f t then [] else run_of cache ctx t o)
                  (visits w f.informers t),
        ) in
        subst
          (λ s.
            Starts cache ctx (f, w) f.informers s
            × ((t : String)
                → goroutines_of cache t s.0.wg ≡ (
                    if is_started cache f t
                    then goroutines_of cache t f.wg
                    else run_of cache ctx t (find t f.informers)))
            × ((t : String)
                → is_started cache s.0 t ≡ (is_started cache f t || is_some (find t f.informers)))
            × (start_with_context cache ctx' s ≡ s))
          (sym (start-up cache ctx f w up))
          (runs, Starts-of cache ctx (f, w) f.informers s' sound runs, started, again)
