-- ===== src/Clientset/Batch.antt =====
-- pkg/client/clientset/versioned/typed/batch.cs.sap.com/v1alpha1/batch.cs.sap.com_client.go and reactivejob.go:
-- the client of the group batch.cs.sap.com. A receiver that may be nil is an Option.
use reactivejob_operator.Prelude.{String, Option, none, some, str_eq, if◌then◌else◌}
use reactivejob_operator.Clientset.Rest.{
  Types, GroupVersion, Config, Make, pure, ◌>>=◌, or_die, ClientGo,
}

-- `BatchV1alpha1Client`
pub record BatchV1alpha1Client (T : Types) : Type 0 where
  pub rest_client : T.RestClient

-- The arguments of `gentype.NewClientWithList` that are not fixed by the types; the nil client is `none`.
pub record ReactiveJobs (T : Types) : Type 0 where
  pub resource : String
  pub client : Option T.RestClient
  pub namespace : String

-- `batchcssapcomv1alpha1.SchemeGroupVersion`
abbrev pub scheme_group_version : GroupVersion
scheme_group_version = record { group = "batch.cs.sap.com"; version = "v1alpha1" }

module _ {T : Types} (go : ClientGo T) where
  abbrev pub agent_or_default : String → String
  agent_or_default agent = if str_eq agent "" then go.default_user_agent else agent

  unfoldable pub set_config_defaults : Config T → Config T
  set_config_defaults config = record config {
    group_version = some scheme_group_version;
    api_path = "/apis";
    negotiated_serializer = some go.serializer;
    user_agent = agent_or_default config.user_agent;
  }

  unfoldable pub new_for_config_and_client :
      Config T → T.HttpClient → Make T (BatchV1alpha1Client T)
  new_for_config_and_client config h = do
    client ← go.rest_client_for (set_config_defaults config) h
    pure (record { rest_client = client })

  unfoldable pub new_for_config : Config T → Make T (BatchV1alpha1Client T)
  unfolding new_for_config_and_client
  new_for_config config = do
    http_client ← go.http_client_for (set_config_defaults config)
    new_for_config_and_client (set_config_defaults config) http_client

  unfoldable pub new_for_config_or_die : Config T → Make T (BatchV1alpha1Client T)
  unfolding new_for_config
  new_for_config_or_die config w =
      let (outcome, w') = new_for_config config w in (or_die outcome, w')

module _ {T : Types} where
  abbrev pub new : T.RestClient → BatchV1alpha1Client T
  new c = record { rest_client = c }

  unfoldable pub rest_client : Option (BatchV1alpha1Client T) → Option T.RestClient
  rest_client none = none
  rest_client (some c) = some c.rest_client

  -- `Reactivejobs`, and `newReactivejobs`, which it calls
  unfoldable pub reactivejobs : Option (BatchV1alpha1Client T) → String → ReactiveJobs T
  unfolding rest_client
  reactivejobs c namespace = record {
    resource = "reactivejobs";
    client = rest_client c;
    namespace = namespace;
  }
