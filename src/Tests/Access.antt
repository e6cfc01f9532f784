-- ===== src/Tests/Access.antt =====
-- The channels and the listers of the factories of the tests.
use reactivejob_operator.Prelude.{ℕ, String, Option, none, some}
use reactivejob_operator.Informers.Channels.{Channels}
use reactivejob_operator.Informers.Listers.{GroupResource, ListerGo}
use reactivejob_operator.Tests.Factories.{counting, plain_go}

abbrev pub plain_channels : Channels counting
plain_channels = record { Channel = Unit {0}; context_for_channel = λ stop. stop }

abbrev pub plain_listers : ListerGo counting plain_go
plain_listers = record {
  Indexer = ℕ;
  ResourceIndexer = (ℕ × GroupResource) × Option String;
  GenericLister = ℕ × GroupResource;
  TypedIndexers = Unit {0};
  get_indexer = λ informer. informer;
  new_lister = λ indexer resource. ((indexer, resource), none);
  new_namespaced = λ l namespace. (l.0, some namespace);
  new_generic_lister = λ indexer resource. (indexer, resource);
  to_indexers = λ indexers. indexers;
}
