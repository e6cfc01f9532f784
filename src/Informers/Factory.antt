-- ===== src/Informers/Factory.antt =====
-- The state of `sharedInformerFactory` and its methods, each of which reads and writes the
-- factory under its lock; `Shutdown` and `WaitForCacheSync` then wait without the lock. Informers, clients, contexts and the other objects of client-go are values of a `Cache`.
use reactivejob_operator.Prelude.{
  String, Bool, true, false, Option, none, some, List, [], ◌∷◌, map, not, if◌then◌else◌,
}
use reactivejob_operator.Prelude.Int.{ℤ}
use reactivejob_operator.Informers.Registry.{Registry, find, put, or_false}

-- What the factory uses of client-go. `World` is the state of all that runs outside the factory.
pub record Cache : Type 1 where
  pub Client : Type 0
  pub Tweak : Type 0
  pub Transform : Type 0
  pub Identity : Type 0
  pub Context : Type 0
  pub Failure : Type 0
  pub Informer : Type 0
  pub World : Type 0
  -- `go informer.RunWithContext(ctx)`
  pub go_run : Context → Informer → World → World
  -- `informer.SetTransform(transform)`
  pub set_transform : Informer → Transform → World → World
  -- `cache.WaitFor` on the informers' checkers
  pub wait_for : Context → List Informer → World → World
  -- `informer.HasSynced()`; time may pass meanwhile
  pub has_synced : Informer → World → Bool × World
  -- `context.Cause(ctx)`
  pub cause : Context → World → Option Failure
  -- what happens outside while `Shutdown` waits for the goroutines of the wait group to end, and the
  -- release of the informers' name
  pub await : World → World
  pub release : Option Identity → World → World
  -- the order in which `range` visits the entries of a map
  pub order : World → Registry Informer → Registry Informer

-- A goroutine that `Start` makes: it runs the informer of a type until its context ends.
pub record Goroutine (cache : Cache) : Type 0 where
  pub type : String
  pub context : cache.Context
  pub informer : cache.Informer

pub record Factory (cache : Cache) : Type 0 where
  pub client : cache.Client
  pub namespace : String
  pub tweak_list_options : Option cache.Tweak
  pub default_resync : ℤ
  pub custom_resync : Registry ℤ
  pub transform : Option cache.Transform
  pub informer_name : Option cache.Identity
  pub informers : Registry cache.Informer
  pub started_informers : Registry Bool
  -- the goroutines that the wait group waits for: those that were started and have not ended, newest
  -- first
  pub wg : List (Goroutine cache)
  pub shutting_down : Bool

pub record SyncResult (cache : Cache) : Type 0 where
  pub synced : Registry Bool
  pub failure : Option cache.Failure

module _ (cache : Cache) where
  abbrev pub SharedInformerOption : Type 0
  SharedInformerOption = Factory cache → Factory cache

  put_all : Registry ℤ → Registry ℤ → Registry ℤ
  put_all [] m = m
  put_all ((t, d) ∷ config) m = put_all config (put t d m)

  unfoldable pub with_custom_resync_config : Registry ℤ → SharedInformerOption
  unfolding put_all
  with_custom_resync_config config f = record f { custom_resync = put_all config f.custom_resync }

  unfoldable pub with_tweak_list_options : Option cache.Tweak → SharedInformerOption
  with_tweak_list_options tweak f = record f { tweak_list_options = tweak }

  unfoldable pub with_namespace : String → SharedInformerOption
  with_namespace namespace f = record f { namespace = namespace }

  unfoldable pub with_transform : Option cache.Transform → SharedInformerOption
  with_transform transform f = record f { transform = transform }

  unfoldable pub with_informer_name : Option cache.Identity → SharedInformerOption
  with_informer_name informer_name f = record f { informer_name = informer_name }

  apply_all : List SharedInformerOption → Factory cache → Factory cache
  apply_all [] f = f
  apply_all (opt ∷ options) f = apply_all options (opt f)

  unfoldable pub new_with_options : cache.Client → ℤ → List SharedInformerOption → Factory cache
  unfolding apply_all
  new_with_options client default_resync options = apply_all options (record {
    client = client;
    namespace = "";
    tweak_list_options = none;
    default_resync = default_resync;
    custom_resync = [];
    transform = none;
    informer_name = none;
    informers = [];
    started_informers = [];
    wg = [];
    shutting_down = false;
  })

  unfoldable pub new_factory : cache.Client → ℤ → Factory cache
  new_factory client default_resync = new_with_options client default_resync []

  unfoldable pub new_filtered : cache.Client → ℤ → String → Option cache.Tweak → Factory cache
  new_filtered client default_resync namespace tweak =
      new_with_options client default_resync
        (with_namespace namespace ∷ with_tweak_list_options tweak ∷ [])

  abbrev pub is_started : Factory cache → String → Bool
  is_started f t = or_false (find t f.started_informers)

  -- One turn of the loop of `StartWithContext`.
  unfoldable pub start_one :
      cache.Context
      → String
      → cache.Informer
      → Factory cache × cache.World
      → Factory cache × cache.World
  start_one ctx t informer (f, w) =
      if not (is_started f t)
      then (
        record f {
          wg = record { type = t; context = ctx; informer = informer } ∷ f.wg;
          started_informers = put t true f.started_informers;
        },
        cache.go_run ctx informer w,
      )
      else (f, w)

  unfoldable pub start_each :
      cache.Context
      → Registry cache.Informer
      → Factory cache × cache.World
      → Factory cache × cache.World
  start_each ctx [] s = s
  start_each ctx ((t, informer) ∷ rest) s = start_each ctx rest (start_one ctx t informer s)

  unfoldable pub start_with_context :
      cache.Context → Factory cache × cache.World → Factory cache × cache.World
  start_with_context ctx (f, w) =
      if f.shutting_down then (f, w) else start_each ctx (cache.order w f.informers) (f, w)

  -- The state when it returns: the wait ends as soon as no goroutine is left.
  unfoldable pub shutdown : Factory cache × cache.World → Factory cache × cache.World
  shutdown (f, w) =
      (record f { wg = []; shutting_down = true }, cache.release f.informer_name (cache.await w))

  -- `internalinterfaces.NewInformerFunc`
  abbrev pub NewInformerFunc : Type 0
  NewInformerFunc = cache.Client → ℤ → cache.World → cache.Informer × cache.World

  abbrev pub resync_period : Option ℤ → ℤ → ℤ
  resync_period none default_resync = default_resync
  resync_period (some d) default_resync = d

  abbrev pub transformed :
      Option cache.Transform → cache.Informer × cache.World → cache.Informer × cache.World
  transformed none (informer, w) = (informer, w)
  transformed (some transform) (informer, w) = (informer, cache.set_transform informer transform w)

  -- The informer that `InformerFor` makes of a type which has none.
  unfoldable pub made_informer :
      String → NewInformerFunc → Factory cache → cache.World → cache.Informer × cache.World
  made_informer t new_func f w =
      transformed f.transform
        (new_func f.client (resync_period (find t f.custom_resync) f.default_resync) w)

  abbrev registered :
      Option cache.Informer
      → String
      → cache.Informer × cache.World
      → Factory cache
      → cache.World
      → cache.Informer × (Factory cache × cache.World)
  registered (some informer) t made f w = (informer, (f, w))
  registered none t (informer, w') f w =
      (informer, (record f { informers = put t informer f.informers }, w'))

  unfoldable pub informer_for :
      String
      → NewInformerFunc
      → Factory cache × cache.World
      → cache.Informer × (Factory cache × cache.World)
  informer_for t new_func (f, w) =
      registered (find t f.informers) t (made_informer t new_func f w) f w

  -- The entries of the started informers.
  unfoldable pub started_entries : Factory cache → Registry cache.Informer → Registry cache.Informer
  started_entries f [] = []
  started_entries f ((t, informer) ∷ rest) =
      let more = started_entries f rest in if is_started f t then (t, informer) ∷ more else more

  -- The loop that asks every informer, with `failed` and the world as it goes.
  unfoldable pub poll :
      Registry cache.Informer
      → Registry Bool
      → Bool
      → cache.World
      → Registry Bool × (Bool × cache.World)
  poll [] synced failed w = (synced, (failed, w))
  poll ((t, informer) ∷ rest) synced failed w =
      let (has_synced, w') = cache.has_synced informer w in
      poll rest (put t has_synced synced) (if not has_synced then true else failed) w'

  unfoldable pub wait_for_cache_sync_with_context :
      cache.Context → Factory cache × cache.World → SyncResult cache × cache.World
  wait_for_cache_sync_with_context ctx (f, w) =
      let informers = started_entries f (cache.order w f.informers) in
      let waited = cache.wait_for ctx (map (λ entry. entry.1) (cache.order w informers)) w in
      let (synced, (failed, w')) = poll (cache.order waited informers) [] false waited in
      (record { synced = synced; failure = (if failed then cache.cause ctx w' else none) }, w')
