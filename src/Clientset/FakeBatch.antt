-- ===== src/Clientset/FakeBatch.antt =====
-- pkg/client/clientset/versioned/typed/batch.cs.sap.com/v1alpha1/fake: the client of the group for tests, and
-- the methods of the fake clientset that hand it out.
use reactivejob_operator.Prelude.{String, ◌≡◌, refl, ap, Bool, true, Option, none, some, List, []}
use reactivejob_operator.Prelude.Int.{pos}
use reactivejob_operator.Api.Meta.{ObjectMeta}
use reactivejob_operator.Api.Types.{ReactiveJob, ReactiveJobList}
use reactivejob_operator.Clientset.Rest.{Types, GroupVersion}
use reactivejob_operator.Clientset.Batch.{scheme_group_version, BatchV1alpha1Client}
use reactivejob_operator.Clientset.Batch
use reactivejob_operator.Clientset.Fake.{Testing, FakeClientset}

-- `schema.GroupVersionResource` and `schema.GroupVersionKind`
pub record GroupVersionResource : Type 0 where
  pub group_version : GroupVersion
  pub resource : String

pub record GroupVersionKind : Type 0 where
  pub group_version : GroupVersion
  pub kind : String

-- The pointers to the elements of a slice, as gentype makes them and reads them.
pub record Pointing (E : Type 0) : Type 1 where
  pub Pointers : Type 0
  pub to_pointer_slice : List (ReactiveJob E) → Pointers
  pub from_pointer_slice : Pointers → List (ReactiveJob E)

module _ {E : Type 0} (zero_content : E) where
  abbrev zero_meta : ObjectMeta E
  zero_meta = record {
    name = "";
    generate_name = "";
    namespace = "";
    uid = "";
    generation = pos 0;
    deletion_timestamp = none;
    labels = none;
    annotations = none;
    finalizers = [];
    rest = zero_content;
  }

  -- `&v1alpha1.ReactiveJob{}` and `&v1alpha1.ReactiveJobList{}`
  abbrev pub zero_reactive_job : ReactiveJob E
  zero_reactive_job = record {
    meta = zero_meta;
    spec = record { job_template = record { meta = zero_meta; spec = zero_content } };
    status = record {
      observed_generation = pos 0;
      conditions = [];
      state = "";
      current_job_name = "";
    };
  }

  abbrev pub zero_list : ReactiveJobList E
  zero_list = record { meta = zero_content; items = [] }

module _ (T : Testing) {E : Type 0} (P : Pointing E) where
  -- `FakeBatchV1alpha1`
  pub record FakeBatchV1alpha1 : Type 0 where
    pub fake : T.Fake

  -- The arguments of `gentype.NewFakeClientWithList`.
  pub record FakeReactiveJobs : Type 0 where
    pub fake : T.Fake
    pub namespace : String
    pub resource : GroupVersionResource
    pub kind : GroupVersionKind
    pub new_object : ReactiveJob E
    pub new_list : ReactiveJobList E
    pub copy_list_meta : ReactiveJobList E → ReactiveJobList E → ReactiveJobList E
    pub items_of : ReactiveJobList E → P.Pointers
    pub with_items : ReactiveJobList E → P.Pointers → ReactiveJobList E

  unfoldable pub new_fake_reactivejobs : E → FakeBatchV1alpha1 → String → FakeReactiveJobs
  new_fake_reactivejobs zero_content c namespace = record {
    fake = c.fake;
    namespace = namespace;
    resource = record { group_version = scheme_group_version; resource = "reactivejobs" };
    kind = record { group_version = scheme_group_version; kind = "ReactiveJob" };
    new_object = zero_reactive_job zero_content;
    new_list = zero_list zero_content;
    copy_list_meta = λ dst src. record dst { meta = src.meta };
    items_of = λ list. P.to_pointer_slice list.items;
    with_items = λ list items. record list { items = P.from_pointer_slice items };
  }

  unfoldable pub reactivejobs : E → FakeBatchV1alpha1 → String → FakeReactiveJobs
  unfolding new_fake_reactivejobs
  reactivejobs zero_content c namespace = new_fake_reactivejobs zero_content c namespace

  -- `RESTClient`: an interface that is not nil and holds a nil pointer.
  abbrev pub rest_client : {RestClient : Type 0} → FakeBatchV1alpha1 → Option (Option RestClient)
  rest_client c = some none

  -- `BatchV1alpha1`, `Tracker` and `IsWatchListSemanticsUnSupported` of the fake clientset.
  unfoldable pub batch_v1alpha1 : FakeClientset T → FakeBatchV1alpha1
  batch_v1alpha1 c = record { fake = c.fake }

  abbrev pub tracker : FakeClientset T → T.Tracker
  tracker c = c.tracker

  abbrev pub is_watch_list_semantics_un_supported : FakeClientset T → Bool
  is_watch_list_semantics_un_supported c = true

  -- The fake client of a namespace answers from the reactions of the clientset it came from, and it is asked
  -- for the same resource in the same namespace as the real client. Rebuilding a list from its metadata
  -- and the pointers to its items gives the list, if the pointers are read back to the items.
  pub reactivejobs-agrees :
      (U : Types) (zero_content : E) (c : FakeClientset T) (client : BatchV1alpha1Client U)
      (namespace : String)
      → ((items : List (ReactiveJob E)) → P.from_pointer_slice (P.to_pointer_slice items) ≡ items)
      → ((reactivejobs zero_content (batch_v1alpha1 c) namespace).fake ≡ c.fake)
        × ((reactivejobs zero_content (batch_v1alpha1 c) namespace).resource.resource
            ≡ (Batch.reactivejobs (some client) namespace).resource)
        × ((reactivejobs zero_content (batch_v1alpha1 c) namespace).namespace
            ≡ (Batch.reactivejobs (some client) namespace).namespace)
        × ((dst src : ReactiveJobList E)
            → (let fakes = reactivejobs zero_content (batch_v1alpha1 c) namespace in
                fakes.with_items (fakes.copy_list_meta dst src) (fakes.items_of src))
              ≡ src)
  unfolding reactivejobs new_fake_reactivejobs batch_v1alpha1 Batch.reactivejobs
  reactivejobs-agrees U zero_content c client namespace back = (
    refl,
    refl,
    refl,
    λ dst src. ap (λ l. record { meta = src.meta; items = l }) (back src.items),
  )
