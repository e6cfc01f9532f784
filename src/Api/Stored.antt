-- ===== src/Api/Stored.antt =====
-- The types of api/v1alpha1/reactivejob_types.go as they lie in memory, with pointers and slices.
use reactivejob_operator.Prelude.{ℕ, String, Option, none, refl}
use reactivejob_operator.Prelude.Int.{ℤ, pos}
use reactivejob_operator.Api.Meta.{Time}
use reactivejob_operator.Memory.{Kind, Slice}

-- `metav1.TypeMeta`
pub record TypeMeta : Type 0 where
  pub kind : String
  pub api_version : String

-- What the API types embed of apimachinery and batch/v1, as it lies in memory: `metav1.ObjectMeta`,
-- `batchv1.JobTemplateSpec`, `metav1.ListMeta`, and the contents of the cells that those point to.
pub record Embedded : Type 1 where
  pub ObjectMeta : Type 0
  pub JobTemplateSpec : Type 0
  pub ListMeta : Type 0
  pub Other : Type 0
  pub zero_meta : ObjectMeta
  pub zero_template : JobTemplateSpec
  pub zero_list_meta : ListMeta

-- `ReactiveJobCondition`, with its two `*metav1.Time`.
pub record StoredCondition : Type 0 where
  pub type : String
  pub status : String
  pub last_update_time : Option ℕ
  pub last_transition_time : Option ℕ
  pub reason : String
  pub message : String

-- `ReactiveJobStatus`
pub record StoredStatus : Type 0 where
  pub observed_generation : ℤ
  pub conditions : Option Slice
  pub state : String
  pub current_job_name : String

-- `ReactiveJobSpec`
pub record StoredSpec (K : Embedded) : Type 0 where
  pub job_template : K.JobTemplateSpec

-- `ReactiveJob`
pub record StoredReactiveJob (K : Embedded) : Type 0 where
  pub type_meta : TypeMeta
  pub object_meta : K.ObjectMeta
  pub spec : StoredSpec K
  pub status : StoredStatus

-- `ReactiveJobList`
pub record StoredReactiveJobList (K : Embedded) : Type 0 where
  pub type_meta : TypeMeta
  pub list_meta : K.ListMeta
  pub items : Option Slice

-- A cell of the heap, by its Go type.
pub data Cell (K : Embedded) : Type 0 where
  free : Cell K
  time_cell : Time → Cell K
  condition_cell : StoredCondition → Cell K
  status_cell : StoredStatus → Cell K
  spec_cell : StoredSpec K → Cell K
  reactive_job_cell : StoredReactiveJob K → Cell K
  list_cell : StoredReactiveJobList K → Cell K
  other_cell : K.Other → Cell K

-- The zero values of the types.
abbrev pub zero_type_meta : TypeMeta
zero_type_meta = record { kind = ""; api_version = "" }

abbrev pub zero_condition : StoredCondition
zero_condition = record {
  type = "";
  status = "";
  last_update_time = none;
  last_transition_time = none;
  reason = "";
  message = "";
}

abbrev pub zero_status : StoredStatus
zero_status = record {
  observed_generation = pos 0;
  conditions = none;
  state = "";
  current_job_name = "";
}

module _ {K : Embedded} where
  abbrev pub zero_spec : StoredSpec K
  zero_spec = record { job_template = K.zero_template }

  abbrev pub zero_reactive_job : StoredReactiveJob K
  zero_reactive_job = record {
    type_meta = zero_type_meta;
    object_meta = K.zero_meta;
    spec = zero_spec;
    status = zero_status;
  }

  abbrev pub zero_list : StoredReactiveJobList K
  zero_list = record { type_meta = zero_type_meta; list_meta = K.zero_list_meta; items = none }

  abbrev pub content_time : Cell K → Time
  content_time (time_cell t) = t
  content_time _ = 0

  abbrev pub content_condition : Cell K → StoredCondition
  content_condition (condition_cell c) = c
  content_condition _ = zero_condition

  abbrev pub content_status : Cell K → StoredStatus
  content_status (status_cell s) = s
  content_status _ = zero_status

  abbrev pub content_spec : Cell K → StoredSpec K
  content_spec (spec_cell s) = s
  content_spec _ = zero_spec

  abbrev pub content_reactive_job : Cell K → StoredReactiveJob K
  content_reactive_job (reactive_job_cell r) = r
  content_reactive_job _ = zero_reactive_job

  abbrev pub content_list : Cell K → StoredReactiveJobList K
  content_list (list_cell l) = l
  content_list _ = zero_list

  abbrev pub time_kind : Kind (Cell K) Time
  time_kind = record {
    in_cell = time_cell;
    content = content_time;
    zero_value = 0;
    content-in_cell = λ v. refl;
  }

  abbrev pub condition_kind : Kind (Cell K) StoredCondition
  condition_kind = record {
    in_cell = condition_cell;
    content = content_condition;
    zero_value = zero_condition;
    content-in_cell = λ v. refl;
  }

  abbrev pub status_kind : Kind (Cell K) StoredStatus
  status_kind = record {
    in_cell = status_cell;
    content = content_status;
    zero_value = zero_status;
    content-in_cell = λ v. refl;
  }

  abbrev pub spec_kind : Kind (Cell K) (StoredSpec K)
  spec_kind = record {
    in_cell = spec_cell;
    content = content_spec;
    zero_value = zero_spec;
    content-in_cell = λ v. refl;
  }

  abbrev pub reactive_job_kind : Kind (Cell K) (StoredReactiveJob K)
  reactive_job_kind = record {
    in_cell = reactive_job_cell;
    content = content_reactive_job;
    zero_value = zero_reactive_job;
    content-in_cell = λ v. refl;
  }

  abbrev pub list_kind : Kind (Cell K) (StoredReactiveJobList K)
  list_kind = record {
    in_cell = list_cell;
    content = content_list;
    zero_value = zero_list;
    content-in_cell = λ v. refl;
  }
