-- ===== src/Clientset/Versioned.antt =====
-- pkg/client/clientset/versioned/clientset.go: the clientset. A copy of a configuration is a value, so
-- the caller's one stays as it is.
use reactivejob_operator.Prelude.{◌&&◌, true, false, Bool, Option, none, some, if◌then◌else◌}
use reactivejob_operator.Prelude.Int.{pos, ltb_ℤ}
use reactivejob_operator.Clientset.Rest.{
  Types, Config, made, Make, pure, fail, ◌>>=◌, or_die, ClientGo,
}
use reactivejob_operator.Clientset.Batch.{BatchV1alpha1Client, agent_or_default}
use reactivejob_operator.Clientset.Batch

-- `Clientset`
pub record Clientset (T : Types) : Type 0 where
  pub discovery_client : T.DiscoveryClient
  pub batch_v1alpha1 : BatchV1alpha1Client T

abbrev pub is_nil : {A : Type 0} → Option A → Bool
is_nil none = true
is_nil (some _) = false

module _ {T : Types} (go : ClientGo T) where
  -- `configShallowCopy.RateLimiter = flowcontrol.NewTokenBucketRateLimiter(…)`
  abbrev pub with_bucket : Config T → Make T (Config T)
  with_bucket config w =
      let (limiter, w') = go.new_token_bucket config.qps config.burst w in
      (made (record config { rate_limiter = some limiter }), w')

  -- The configuration with a rate limiter of its own, where the caller gave a rate but no limiter.
  unfoldable pub limited : Config T → Make T (Config T)
  limited config =
      if is_nil config.rate_limiter && go.is_positive config.qps
      then (if ltb_ℤ (pos 0) config.burst then with_bucket config else fail go.burst_required)
      else pure config

  -- The clients of a clientset, both of one configuration.
  unfoldable pub clients : Config T → T.HttpClient → Make T (Clientset T)
  clients shared h = do
    batch ← Batch.new_for_config_and_client go shared h
    discovery ← go.discovery_client_for shared h
    pure (record { discovery_client = discovery; batch_v1alpha1 = batch })

  unfoldable pub new_for_config_and_client : Config T → T.HttpClient → Make T (Clientset T)
  new_for_config_and_client config h = do shared ← limited config; clients shared h

  abbrev pub named : Config T → Config T
  named config = record config { user_agent = agent_or_default go config.user_agent }

  unfoldable pub new_for_config : Config T → Make T (Clientset T)
  new_for_config config = do
    http_client ← go.http_client_for (named config)
    new_for_config_and_client (named config) http_client

  unfoldable pub new_for_config_or_die : Config T → Make T (Clientset T)
  new_for_config_or_die config w =
      let (outcome, w') = new_for_config config w in (or_die outcome, w')

  abbrev pub new : T.RestClient → Clientset T
  new c = record { discovery_client = go.discovery_client_of c; batch_v1alpha1 = Batch.new c }

module _ {T : Types} where
  abbrev pub discovery : Option (Clientset T) → Option T.DiscoveryClient
  discovery none = none
  discovery (some c) = some c.discovery_client

  abbrev pub batch_v1alpha1 : Clientset T → BatchV1alpha1Client T
  batch_v1alpha1 c = c.batch_v1alpha1
