-- ===== src/Api/Types.antt =====
-- api/v1alpha1/reactivejob_types.go, and what the operator uses of the batch/v1 types.
use reactivejob_operator.Prelude.{String, Option, List}
use reactivejob_operator.Prelude.Int.{ℤ}
use reactivejob_operator.Api.Meta.{ObjectMeta, Time}

-- `batchv1.JobTemplateSpec`; the job's specification is carried along unread.
pub record JobTemplateSpec (E : Type 0) : Type 0 where
  pub meta : ObjectMeta E
  pub spec : E

-- `batchv1.JobCondition`
pub record JobCondition : Type 0 where
  pub type : String
  pub status : String
  pub reason : String
  pub message : String

-- `batchv1.Job`
pub record Job (E : Type 0) : Type 0 where
  pub meta : ObjectMeta E
  pub spec : E
  pub conditions : List JobCondition

pub record ReactiveJobSpec (E : Type 0) : Type 0 where
  pub job_template : JobTemplateSpec E

pub record ReactiveJobCondition : Type 0 where
  pub type : String
  pub status : String
  pub last_update_time : Option Time
  pub last_transition_time : Option Time
  pub reason : String
  pub message : String

abbrev pub condition_type_ready : String
condition_type_ready = "Ready"

abbrev pub state_new : String
state_new = "New"

abbrev pub state_processing : String
state_processing = "Processing"

abbrev pub state_deletion_blocked : String
state_deletion_blocked = "DeletionBlocked"

abbrev pub state_deleting : String
state_deleting = "Deleting"

abbrev pub state_ready : String
state_ready = "Ready"

abbrev pub state_error : String
state_error = "Error"

pub record ReactiveJobStatus : Type 0 where
  pub observed_generation : ℤ
  pub conditions : List ReactiveJobCondition
  pub state : String
  pub current_job_name : String

pub record ReactiveJob (E : Type 0) : Type 0 where
  pub meta : ObjectMeta E
  pub spec : ReactiveJobSpec E
  pub status : ReactiveJobStatus

pub record ReactiveJobList (E : Type 0) : Type 0 where
  pub meta : E
  pub items : List (ReactiveJob E)

-- `corev1.ConditionStatus`
abbrev pub condition_true : String
condition_true = "True"

abbrev pub condition_false : String
condition_false = "False"

abbrev pub condition_unknown : String
condition_unknown = "Unknown"

-- `batchv1.JobFailed` and `batchv1.JobComplete`
abbrev pub job_failed : String
job_failed = "Failed"

abbrev pub job_complete : String
job_complete = "Complete"
