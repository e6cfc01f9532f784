-- ===== src/Clientset/Fake.antt =====
-- pkg/client/clientset/versioned/fake/clientset_generated.go: the clientset for tests. The object tracker is
-- a state that the clientset's reactions are passed.
use reactivejob_operator.Prelude.{
  String, ◌≡◌, refl, ap, ◌⊎◌, inl, inr, Bool, true, false, Option, none, some, List, [], ◌∷◌, ◌++◌,
}

-- What the fake clientset uses of client-go's package testing.
pub record Testing : Type 1 where
  pub Tracker : Type 0
  pub Object : Type 0
  pub Error : Type 0
  pub Action : Type 0
  pub Options : Type 0
  pub Resource : Type 0
  pub Watch : Type 0
  pub Answer : Type 0
  pub Fake : Type 0
  pub new_object_tracker : Tracker
  -- `o.Add(obj)`, with its error
  pub add : Object → Tracker → Option Error × Tracker
  -- `o.Watch(gvr, ns, opts)`
  pub watch : Resource → String → Options → Tracker → (Watch ⊎ Error) × Tracker
  -- the options of an action that is a `WatchActionImpl`
  pub watch_options : Action → Option Options
  pub zero_options : Options
  pub get_resource : Action → Resource
  pub get_namespace : Action → String
  pub object_reaction : Action → Tracker → Answer × Tracker
  pub zero_fake : Fake
  pub add_reactor : String → String → (Action → Tracker → Answer × Tracker) → Fake → Fake
  -- a reaction tells whether it handled the action, the watch and the error
  pub add_watch_reactor :
      String → (Action → Tracker → (Bool × (Option Watch × Option Error)) × Tracker) → Fake → Fake

module _ (T : Testing) where
  -- `Clientset`; its discovery client is a view of `fake`.
  pub record FakeClientset : Type 0 where
    pub fake : T.Fake
    pub tracker : T.Tracker

  pub data Simple : Type 0 where
    ready : FakeClientset → Simple
    panics : T.Error → Simple

  abbrev options_of : Option T.Options → T.Options
  options_of (some opts) = opts
  options_of none = T.zero_options

  abbrev watch_answer :
      (T.Watch ⊎ T.Error) × T.Tracker → (Bool × (Option T.Watch × Option T.Error)) × T.Tracker
  watch_answer (inl watch, t) = ((true, (some watch, none)), t)
  watch_answer (inr e, t) = ((false, (none, some e)), t)

  -- The function that is given to AddWatchReactor.
  unfoldable pub watch_reaction :
      T.Action → T.Tracker → (Bool × (Option T.Watch × Option T.Error)) × T.Tracker
  watch_reaction action t = watch_answer (
      T.watch (T.get_resource action) (T.get_namespace action) (options_of (T.watch_options action))
        t)

  abbrev pub clientset_of : T.Tracker → FakeClientset
  clientset_of t = record {
    fake =
        T.add_watch_reactor "*" watch_reaction
          (T.add_reactor "*" "*" T.object_reaction T.zero_fake);
    tracker = t;
  }

  -- `if err != nil { panic(err) }` in a turn of the loop
  abbrev unless_refused : Option T.Error → Simple → Simple
  unless_refused none rest = rest
  unless_refused (some e) rest = panics e

  -- The loop over the objects, and what follows it.
  unfoldable pub add_from : List T.Object → T.Tracker → Simple
  add_from [] t = ready (clientset_of t)
  add_from (obj ∷ objects) t = let (e, t') = T.add obj t in unless_refused e (add_from objects t')

  unfoldable pub new_simple_clientset : List T.Object → Simple
  unfolding add_from
  new_simple_clientset objects = add_from objects T.new_object_tracker

  -- The tracker accepts the objects one after the other.
  pub data Added : T.Tracker → List T.Object → T.Tracker → Type 0 where
    nothing : {t : T.Tracker} → Added t [] t
    one :
        {t t' t'' : T.Tracker} {obj : T.Object} {objects : List T.Object}
        → T.add obj t ≡ (none, t')
        → Added t' objects t''
        → Added t (obj ∷ objects) t''

  -- The loop started at `t` either ends with all objects added, or panics at the first that is refused.
  abbrev pub Tracks : List T.Object → T.Tracker → Simple → Type 0
  Tracks objects t result =
      ((t' : T.Tracker) × Added t objects t' × (result ≡ ready (clientset_of t')))
      ⊎ ((before : List T.Object) × (obj : T.Object) × (after : List T.Object) × (t' : T.Tracker)
          × (e : T.Error) × (t'' : T.Tracker) × (objects ≡ before ++ obj ∷ after)
          × Added t before t'
          × (T.add obj t' ≡ (some e, t''))
          × (result ≡ panics e))

  turn-Tracks :
      (obj : T.Object) (objects : List T.Object) (t t' : T.Tracker) (e : Option T.Error)
      (rest : Simple)
      → T.add obj t ≡ (e, t')
      → Tracks objects t' rest
      → Tracks (obj ∷ objects) t (unless_refused e rest)
  turn-Tracks obj objects t t' none rest accepted (inl (last, added, same)) =
      inl (last, one accepted added, same)
  turn-Tracks obj objects t t' none rest accepted
        (inr (before, bad, after, last, e, t'', split, added, refused, same)) =
      inr (
        obj ∷ before,
        bad,
        after,
        last,
        e,
        t'',
        ap (λ l. obj ∷ l) split,
        one accepted added,
        refused,
        same,
      )
  turn-Tracks obj objects t t' (some e) rest refused tracks =
      inr ([], obj, objects, t, e, t', refl, nothing, refused, refl)

  add_from-Tracks :
      (objects : List T.Object) (t : T.Tracker) → Tracks objects t (add_from objects t)
  unfolding add_from
  add_from-Tracks [] t = inl (t, nothing, refl)
  add_from-Tracks (obj ∷ objects) t =
      turn-Tracks obj objects t (T.add obj t).1 (T.add obj t).0 (add_from objects (T.add obj t).1)
        refl (add_from-Tracks objects (T.add obj t).1)

  -- NewSimpleClientset either returns a clientset whose tracker has accepted all objects in their order, or
  -- panics with the error of the first object that the tracker refused.
  pub new_simple_clientset-Tracks :
      (objects : List T.Object) → Tracks objects T.new_object_tracker (new_simple_clientset objects)
  unfolding new_simple_clientset
  new_simple_clientset-Tracks objects = add_from-Tracks objects T.new_object_tracker
