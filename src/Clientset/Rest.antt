-- ===== src/Clientset/Rest.antt =====
-- What the clientset uses of client-go: the configuration of package rest, and the functions that make
-- clients of it.
use reactivejob_operator.Prelude.{String, Bool, Option}
use reactivejob_operator.Prelude.Int.{ℤ}

-- The types of client-go and of net/http. `World` is the state that making a client may change, such as
-- the cache of transports; `Qps` is a float32.
pub record Types : Type 1 where
  pub World : Type 0
  pub Error : Type 0
  pub Qps : Type 0
  pub RateLimiter : Type 0
  pub Serializer : Type 0
  pub HttpClient : Type 0
  pub RestClient : Type 0
  pub DiscoveryClient : Type 0
  pub Rest : Type 0

-- `schema.GroupVersion`
pub record GroupVersion : Type 0 where
  pub group : String
  pub version : String

-- `rest.Config`; what the clientset only passes on is `rest`.
pub record Config (T : Types) : Type 0 where
  pub user_agent : String
  pub rate_limiter : Option T.RateLimiter
  pub qps : T.Qps
  pub burst : ℤ
  pub group_version : Option GroupVersion
  pub api_path : String
  pub negotiated_serializer : Option T.Serializer
  pub rest : T.Rest

-- How a constructor ends: with a client and a nil error, with an error, or by a panic.
pub data Outcome (T : Types) (A : Type 0) : Type 0 where
  made : A → Outcome T A
  failed : T.Error → Outcome T A
  panic : T.Error → Outcome T A

abbrev pub Make : Types → Type 0 → Type 0
Make T A = T.World → Outcome T A × T.World

module _ {T : Types} where
  abbrev pub pure : {A : Type 0} → A → Make T A
  pure a w = (made a, w)

  -- `return nil, err`
  abbrev pub fail : {A : Type 0} → T.Error → Make T A
  fail e w = (failed e, w)

  abbrev pub continue : {A B : Type 0} → Outcome T A → (A → Make T B) → Make T B
  continue (made a) k = k a
  continue (failed e) k = λ w. (failed e, w)
  continue (panic e) k = λ w. (panic e, w)

  infixl 5 ◌>>=◌
  -- `if err != nil { return nil, err }`
  unfoldable pub ◌>>=◌ : {A B : Type 0} → Make T A → (A → Make T B) → Make T B
  ◌>>=◌ m k w = continue (m w).0 k (m w).1

  -- `if err != nil { panic(err) }`
  abbrev pub or_die : {A : Type 0} → Outcome T A → Outcome T A
  or_die (made a) = made a
  or_die (failed e) = panic e
  or_die (panic e) = panic e

pub record ClientGo (T : Types) : Type 0 where
  -- `c.QPS > 0`
  pub is_positive : T.Qps → Bool
  pub default_user_agent : String
  pub http_client_for : Config T → Make T T.HttpClient
  pub rest_client_for : Config T → T.HttpClient → Make T T.RestClient
  pub discovery_client_for : Config T → T.HttpClient → Make T T.DiscoveryClient
  pub discovery_client_of : T.RestClient → T.DiscoveryClient
  -- `flowcontrol.NewTokenBucketRateLimiter`
  pub new_token_bucket : T.Qps → ℤ → T.World → T.RateLimiter × T.World
  -- the serializer of this clientset's scheme, without conversion
  pub serializer : T.Serializer
  -- the error on a burst that is not positive
  pub burst_required : T.Error
