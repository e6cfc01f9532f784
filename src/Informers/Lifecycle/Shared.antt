-- ===== src/Informers/Lifecycle/Shared.antt =====
-- Which informers are handed out after any calls of the factory's methods.
use reactivejob_operator.Prelude.{
  String, ◌≡◌, refl, ap, sym, ◌∙◌, subst, some, eq_iff, arith, Bool-cases, Option-cases, inl, inr,
}
use reactivejob_operator.Informers.Registry.{find, find-put, find-put_same}
use reactivejob_operator.Informers.Factory.{
  Cache, Factory, NewInformerFunc, shutdown, informer_for, made_informer,
}
use reactivejob_operator.Informers.Lifecycle.{
  Step, starting, stopping, closing, asking, waiting, ending, elapsing, Steps, stop, step,
  start_each-informers, start-down, start-up,
}

module _ (cache : Cache) where
  Step-keeps :
      {s s' : Factory cache × cache.World} (t : String) (i : cache.Informer)
      → Step cache s s'
      → find t s.0.informers ≡ some i
      → find t s'.0.informers ≡ some i
  unfolding shutdown informer_for
  Step-keeps t i (starting ctx (f, w)) h = elim (Bool-cases f.shutting_down) [
    | inl down ↦ subst (λ s. find t s.0.informers ≡ some i) (sym (start-down cache ctx f w down)) h
    | inr up ↦
        subst (λ s. find t s.0.informers ≡ some i) (sym (start-up cache ctx f w up))
          (ap (find t) (start_each-informers cache ctx (cache.order w f.informers) (f, w)).0 ∙ h)
  ]
  Step-keeps t i (stopping (f, w)) h = h
  Step-keeps t i (closing f w) h = h
  Step-keeps t i (asking r new_func (f, w)) h = elim (Option-cases (find r f.informers)) [
    | inl e ↦
        let made = made_informer cache r new_func f w in
        rw e (find-put t r made.0 f.informers ∙ ground (arith, eq_iff r t, e, h))
    | inr (j, e) ↦ rw e h
  ]
  Step-keeps t i (waiting ctx s) h = h
  Step-keeps t i (ending f w newer older g _) h = h
  Step-keeps t i (elapsing f w w') h = h

  Steps-keeps :
      {s s' : Factory cache × cache.World} (t : String) (i : cache.Informer)
      → Steps cache s s'
      → find t s.0.informers ≡ some i
      → find t s'.0.informers ≡ some i
  Steps-keeps t i (stop s) h = h
  Steps-keeps t i (step a rest) h = Steps-keeps t i rest (Step-keeps t i a h)

  informer_for-registered :
      (t : String) (new_func : NewInformerFunc cache) (s : Factory cache × cache.World)
      → find t (informer_for cache t new_func s).1.0.informers
        ≡ some (informer_for cache t new_func s).0
  unfolding informer_for
  informer_for-registered t new_func (f, w) = elim (Option-cases (find t f.informers)) [
    | inl e ↦ rw e (find-put_same t (made_informer cache t new_func f w).0 f.informers)
    | inr (j, e) ↦ rw e e
  ]

  pub informer_for-found :
      (t : String) (new_func : NewInformerFunc cache) (s : Factory cache × cache.World)
      (i : cache.Informer)
      → find t s.0.informers ≡ some i
      → informer_for cache t new_func s ≡ (i, s)
  unfolding informer_for
  informer_for-found t new_func (f, w) i h = rw h refl

  -- The informer that `InformerFor` returns for a type is the one that every later call for the type
  -- returns, whatever calls come between, and such a call changes nothing.
  pub informer_for-shared :
      (t : String) (new_func new_func' : NewInformerFunc cache) (s : Factory cache × cache.World)
      {s' : Factory cache × cache.World}
      → Steps cache (informer_for cache t new_func s).1 s'
      → informer_for cache t new_func' s' ≡ ((informer_for cache t new_func s).0, s')
  informer_for-shared t new_func new_func' s {s'} run =
      informer_for-found t new_func' s' (informer_for cache t new_func s).0 (
        Steps-keeps t (informer_for cache t new_func s).0 run
          (informer_for-registered t new_func s))
