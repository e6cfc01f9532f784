-- ===== src/Controller/Objects.antt =====
-- The constants of reactivejob_controller.go, and the objects that `Reconcile` reads and builds: the
-- order of the jobs, the new job, and what the conditions of the current job say.
use reactivejob_operator.Prelude.{
  ℕ, ◌*◌, String, Bool, false, none, some, List, [], ◌∷◌, str_eq, ◌&&◌, if◌then◌else◌, concat,
}
use reactivejob_operator.Prelude.Int.{ℤ, ltb_ℤ}
use reactivejob_operator.Strconv.{format_int}
use reactivejob_operator.Api.Meta.{Entries, StringMap, insert, map_get}
use reactivejob_operator.Api.Types.{
  Job, JobCondition, ReactiveJob, job_failed, job_complete, condition_true, state_processing,
  state_ready, state_error,
}
use reactivejob_operator.Kube.Library.{Library, Outcome, ok, err, panic}
use reactivejob_operator.Controller.Hash.{must_atoi}

abbrev pub finalizer : String
finalizer = "batch.cs.sap.com/reactivejob-operator"

abbrev pub label_controller_uid : String
label_controller_uid = "batch.cs.sap.com/controller-uid"

abbrev pub label_controller_name : String
label_controller_name = "batch.cs.sap.com/controller-name"

abbrev pub annotation_controller_generation : String
annotation_controller_generation = "batch.cs.sap.com/controller-generation"

abbrev pub annotation_controller_hash : String
annotation_controller_hash = "batch.cs.sap.com/controller-hash"

-- `time.Second`, in the nanoseconds of a `time.Duration`.
abbrev pub second : ℕ
second = 1000000000

-- `ctrl.Result`
pub record ReconcileResult : Type 0 where
  pub requeue : Bool
  pub requeue_after : ℕ

abbrev pub no_result : ReconcileResult
no_result = record { requeue = false; requeue_after = 0 }

abbrev pub requeue_in : ℕ → ReconcileResult
requeue_in d = record { requeue = false; requeue_after = d }

-- What the current job's conditions say: the state, the message and the time of the next look.
pub record Report : Type 0 where
  pub state : String
  pub message : String
  pub requeue_after : ℕ

abbrev pub describe : JobCondition → String
describe c = concat c.reason (concat ": " c.message)

-- The loop over `job.Status.Conditions`.
unfoldable pub report : List JobCondition → Report
report [] = record {
  state = state_processing;
  message = "waiting for job to complete";
  requeue_after = 10 * second;
}
report (c ∷ cs) =
    if str_eq c.type job_failed && str_eq c.status condition_true
    then record { state = state_error; message = describe c; requeue_after = 60 * second }
    else if str_eq c.type job_complete && str_eq c.status condition_true
    then record { state = state_ready; message = describe c; requeue_after = 600 * second }
    else report cs

-- A nil map is made before it is written.
abbrev pub made : StringMap → Entries
made none = []
made (some m) = m

-- A write through the map that the job shares with the template: the template's own map changes
-- unless it was nil.
abbrev pub shared : StringMap → Entries → StringMap
shared none m = none
shared (some _) m = some m

abbrev pub compare_generations : Outcome ℤ → Outcome ℤ → Outcome Bool
compare_generations (ok a) (ok b) = ok (ltb_ℤ a b)
compare_generations (ok a) (err e) = err e
compare_generations (ok a) panic = panic
compare_generations (err e) b = err e
compare_generations panic b = panic

module _ {E : Type 0} where
  -- The annotation by which jobs are ordered.
  abbrev pub generation_of : Job E → String
  generation_of job = map_get job.meta.annotations annotation_controller_generation

  -- The comparison that is handed to `slices.SortBy`.
  unfoldable pub older : Job E → Job E → Outcome Bool
  older x y = compare_generations (must_atoi (generation_of x)) (must_atoi (generation_of y))

  abbrev pub job_labels : ReactiveJob E → Entries
  job_labels r =
      insert label_controller_name r.meta.name
        (insert label_controller_uid r.meta.uid (made r.spec.job_template.meta.labels))

  abbrev pub job_annotations : ReactiveJob E → String → Entries
  job_annotations r hash = insert annotation_controller_hash hash (
      insert annotation_controller_generation (format_int r.meta.generation)
        (made r.spec.job_template.meta.annotations))

  -- The job that is built from the template.
  unfoldable pub new_job : Library E → String → ReactiveJob E → String → Job E
  new_job lib namespace r hash = record {
    meta = record (r.spec.job_template.meta) {
      namespace = namespace;
      name = "";
      generate_name = concat r.meta.name "-";
      labels = some (job_labels r);
      annotations = some (job_annotations r hash);
      finalizers = lib.add_finalizer r.spec.job_template.meta.finalizers finalizer;
    };
    spec = r.spec.job_template.spec;
    conditions = [];
  }

  -- The object in memory after its template's maps were written through the new job.
  unfoldable pub shared_template : ReactiveJob E → String → ReactiveJob E
  shared_template r hash = record r {
    spec = record {
      job_template = record (r.spec.job_template) {
        meta = record (r.spec.job_template.meta) {
          labels = shared r.spec.job_template.meta.labels (job_labels r);
          annotations = shared r.spec.job_template.meta.annotations (job_annotations r hash);
        };
      };
    };
  }

  -- `controllerutil.AddFinalizer(reactiveJob, finalizer)` and its opposite
  abbrev pub with_finalizers : List String → ReactiveJob E → ReactiveJob E
  with_finalizers l r = record r { meta = record (r.meta) { finalizers = l } }

  abbrev pub release : Library E → Job E → Job E
  release lib job = record job {
    meta = record (job.meta) { finalizers = lib.remove_finalizer job.meta.finalizers finalizer };
  }
