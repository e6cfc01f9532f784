-- ===== src/Clientset/Laws.antt =====
-- What a clientset made of a configuration is, and which configurations are refused.
use reactivejob_operator.Prelude.{◌≡◌, ◌≢◌, refl, ap, ◌⊎◌, Bool, true, false, none, some, ◌&&◌}
use reactivejob_operator.Prelude.Int.{pos, ltb_ℤ}
use reactivejob_operator.Clientset.Rest.{
  Types, Config, made, failed, panic, ◌>>=◌, or_die, ClientGo,
}
use reactivejob_operator.Clientset.Batch.{BatchV1alpha1Client, set_config_defaults}
use reactivejob_operator.Clientset.Batch
use reactivejob_operator.Clientset.Versioned.{
  Clientset, is_nil, limited, named, new_for_config_and_client, new_for_config,
  new_for_config_or_die,
}

module _ {T : Types} (go : ClientGo T) where
  -- The limiter of the configuration that both clients are made of: the caller's, or a new one.
  abbrev pub IsLimited : Config T → Config T → T.World → T.World → Type 0
  IsLimited config shared w w' =
      (((config.rate_limiter ≢ none) ⊎ (go.is_positive config.qps ≡ false))
        × (shared.rate_limiter ≡ config.rate_limiter)
        × (w' ≡ w))
      ⊎ ((config.rate_limiter ≡ none)
          × (go.is_positive config.qps ≡ true)
          × (ltb_ℤ (pos 0) config.burst ≡ true)
          × (l : T.RateLimiter) × (go.new_token_bucket config.qps config.burst w ≡ (l, w'))
          × (shared.rate_limiter ≡ some l))

  limited-refused :
      (config : Config T) (w : T.World)
      → (is_nil config.rate_limiter && go.is_positive config.qps) ≡ true
      → ltb_ℤ (pos 0) config.burst ≡ false
      → limited go config w ≡ (failed go.burst_required, w)
  unfolding limited
  limited-refused config w e e' = rw (e, e') refl

  -- What the clientset `cs` is made of: one configuration `shared` and one HTTP client for both of its
  -- clients, at the states of the world between `w` and `w'`.
  abbrev pub IsMadeOf : Config T → T.World → Clientset T → T.World → Type 0
  IsMadeOf config w cs w' =
      (shared : Config T) × (h : T.HttpClient) × (w₁ w₂ w₃ : T.World) × (shared
        ≡ record (named go config) { rate_limiter = shared.rate_limiter })
      × IsLimited (named go config) shared w₁ w₂
      × (go.http_client_for (named go config) w ≡ (made h, w₁))
      × (go.rest_client_for (set_config_defaults go shared) h w₂
          ≡ (made cs.batch_v1alpha1.rest_client, w₃))
      × (go.discovery_client_for shared h w₃ ≡ (made cs.discovery_client, w'))
      × ((set_config_defaults go shared).user_agent ≡ shared.user_agent)

  burst_refused :
      (config : Config T) (w w' : T.World) (h : T.HttpClient)
      → go.http_client_for (named go config) w ≡ (made h, w')
      → (is_nil config.rate_limiter && go.is_positive config.qps) ≡ true
      → ltb_ℤ (pos 0) config.burst ≡ false
      → new_for_config go config w ≡ (failed go.burst_required, w')
  unfolding new_for_config new_for_config_and_client ◌>>=◌
  burst_refused config w w' h made_h limitless full =
      rw (made_h, limited-refused (named go config) w' limitless full) refl

  -- Where the configuration has no limiter and asks for a positive rate with a burst that is not
  -- positive, and the HTTP client is made, NewForConfig returns the error about the burst and makes nothing
  -- after the HTTP client, and NewForConfigOrDie panics with that error.
  pub new_for_config-refuses :
      (config : Config T) (w w' : T.World) (h : T.HttpClient)
      → go.http_client_for (named go config) w ≡ (made h, w')
      → (is_nil config.rate_limiter && go.is_positive config.qps) ≡ true
      → ltb_ℤ (pos 0) config.burst ≡ false
      → (new_for_config go config w ≡ (failed go.burst_required, w'))
        × (new_for_config_or_die go config w ≡ (panic go.burst_required, w'))
  unfolding new_for_config_or_die
  new_for_config-refuses config w w' h made_h limitless full =
      let e = burst_refused config w w' h made_h limitless full in
      (e, ap (λ r. (or_die r.0, r.1)) e)
