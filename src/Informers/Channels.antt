-- ===== src/Informers/Channels.antt =====
-- The methods of factory.go of pkg/client/informers/externalversions that take a channel, and their use together.
use reactivejob_operator.Prelude.{String, ◌≡◌, ap, sym, ◌∙◌, subst, Bool, false, ◌||◌, ◌&&◌, arith}
use reactivejob_operator.Informers.Registry.{Registry, find, is_some, IsMap}
use reactivejob_operator.Informers.Factory.{
  Cache, Factory, is_started, start_each, start_with_context, wait_for_cache_sync_with_context,
}
use reactivejob_operator.Informers.Lifecycle.{start_each-informers, start_each-started, start-up}
use reactivejob_operator.Informers.Lifecycle.Starts.{Visits}
use reactivejob_operator.Informers.Sync.{wait_for_cache_sync-answer}

-- The channels of type `<-chan struct{}`, and `wait.ContextForChannel`.
pub record Channels (cache : Cache) : Type 1 where
  pub Channel : Type 0
  pub context_for_channel : Channel → cache.Context

module _ (cache : Cache) (channels : Channels cache) where
  absorb : (b c : Bool) → ((b || c) && c) ≡ c
  absorb b c = ground arith

  unfoldable pub start :
      channels.Channel → Factory cache × cache.World → Factory cache × cache.World
  start stop s = start_with_context cache (channels.context_for_channel stop) s

  unfoldable pub wait_for_cache_sync :
      channels.Channel → Factory cache × cache.World → Registry Bool × cache.World
  wait_for_cache_sync stop s =
      let (result, w) =
        wait_for_cache_sync_with_context cache (channels.context_for_channel stop) s in
      (result.synced, w)

  -- For a factory that is not shutting down and whose map of informers has each key once, where a range
  -- over a map visits the map's keys with their values, each once: WaitForCacheSync after Start reports
  -- on exactly the types that have an informer.
  pub start-wait_for_cache_sync :
      (visits : Visits cache)
      → ((w : cache.World) (m : Registry cache.Informer) → IsMap m → IsMap (cache.order w m))
      → (stop stop' : channels.Channel) (f : Factory cache) (w : cache.World) → IsMap f.informers
      → f.shutting_down ≡ false
      → (t : String)
      → is_some (find t (wait_for_cache_sync stop' (start stop (f, w))).0)
        ≡ is_some (find t f.informers)
  unfolding start wait_for_cache_sync
  start-wait_for_cache_sync visits distinct stop stop' f w h up t =
      let ctx = channels.context_for_channel stop in
      let es = cache.order w f.informers in
      let s' = start_each cache ctx es (f, w) in
      let (same, flag) = start_each-informers cache ctx es (f, w) in
      subst (λ s. is_some (find t (wait_for_cache_sync stop' s).0) ≡ is_some (find t f.informers))
        (sym (start-up cache ctx f w up))
        ((wait_for_cache_sync-answer cache visits distinct (channels.context_for_channel stop') s'.0
              s'.1 (subst IsMap (sym same) h)).0
            t
          ∙ ap (λ b. b && is_some (find t s'.0.informers))
              (start_each-started cache ctx t es (f, w)
                ∙ ap (λ o. is_started cache f t || is_some o) (visits w f.informers t))
          ∙ ap (λ m. (is_started cache f t || is_some (find t f.informers)) && is_some (find t m))
              same
          ∙ absorb (is_started cache f t) (is_some (find t f.informers)))
