-- ===== src/Tests/Clients.antt =====
-- Clientsets of concrete configurations. The world counts the clients and limiters that were made.
use reactivejob_operator.Prelude.{
  ℕ, suc, ◌≡◌, refl, String, none, ltb, List, [], ◌∷◌, inr, str_eq, if◌then◌else◌, some,
}
use reactivejob_operator.Prelude.Int.{pos}
use reactivejob_operator.Clientset.Rest.{Types, Config, made, failed, panic, ClientGo}
use reactivejob_operator.Clientset.Batch.{BatchV1alpha1Client}
use reactivejob_operator.Clientset.Batch
use reactivejob_operator.Clientset.Versioned.{Clientset, new_for_config, new_for_config_or_die}
use reactivejob_operator.Clientset.Fake.{Testing, panics, add_from, new_simple_clientset}
use reactivejob_operator.Clientset.Laws.{new_for_config-refuses}

-- A client of the tests is the number that it was made under.
abbrev counted : Types
counted = record {
  World = ℕ;
  Error = String;
  Qps = ℕ;
  RateLimiter = ℕ;
  Serializer = String;
  HttpClient = ℕ;
  RestClient = ℕ × String;
  DiscoveryClient = ℕ × String;
  Rest = Unit {0};
}

abbrev go : ClientGo counted
go = record {
  is_positive = λ qps. ltb 0 qps;
  default_user_agent = "client/v1";
  http_client_for = λ config w. (made w, suc w);
  rest_client_for = λ config h w. (made (w, config.api_path), suc w);
  discovery_client_for = λ config h w. (made (w, config.user_agent), suc w);
  discovery_client_of = λ c. c;
  new_token_bucket = λ qps burst w. (w, suc w);
  serializer = "json";
  burst_required = "burst is required";
}

abbrev config : Config counted
config = record {
  user_agent = "";
  rate_limiter = none;
  qps = 5;
  burst = pos 10;
  group_version = none;
  api_path = "";
  negotiated_serializer = none;
  rest = tt;
}

-- HTTP client 7, limiter 8, REST client 9, discovery client 10.
abbrev clientset : Clientset counted
clientset = record {
  discovery_client = (10, "client/v1");
  batch_v1alpha1 = record { rest_client = (9, "/apis") };
}

abbrev burstless : Config counted
burstless = record config { burst = pos 0 }

new_for_config-refuses_example :
    (new_for_config go burstless 7 ≡ (failed "burst is required", 8))
    × (new_for_config_or_die go burstless 7 ≡ (panic "burst is required", 8))
new_for_config-refuses_example = new_for_config-refuses go burstless 7 8 7 refl refl refl

-- A tracker of names, which refuses the empty name.
abbrev names_only : Testing
names_only = record {
  Tracker = List String;
  Object = String;
  Error = String;
  Action = Unit {0};
  Options = Unit {0};
  Resource = Unit {0};
  Watch = Unit {0};
  Answer = Unit {0};
  Fake = ℕ;
  new_object_tracker = [];
  add = λ name t. if str_eq name "" then (some "no name", t) else (none, name ∷ t);
  watch = λ resource namespace opts t. (inr "no watch", t);
  watch_options = λ action. none;
  zero_options = tt;
  get_resource = λ action. tt;
  get_namespace = λ action. "";
  object_reaction = λ action t. (tt, t);
  zero_fake = 0;
  add_reactor = λ verb resource reaction fake. suc fake;
  add_watch_reactor = λ resource reaction fake. suc fake;
}

abbrev three_names : List String
three_names = "a" ∷ "" ∷ "b" ∷ []

three_names_refused : new_simple_clientset names_only three_names ≡ panics "no name"
unfolding new_simple_clientset add_from
three_names_refused = refl
