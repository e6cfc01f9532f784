-- ===== src/Controller/Reconcile.antt =====
-- `Reconcile` as a whole: the read of the object, the body, and the deferred status update; and
-- `jobEnqueueMapper`.
use reactivejob_operator.Prelude.{String, true, false, List, [], ◌∷◌, str_eq, if◌then◌else◌}
use reactivejob_operator.Api.Meta.{NamespacedName, map_get, is_zero}
use reactivejob_operator.Api.Types.{Job, ReactiveJob, state_new, state_error}
use reactivejob_operator.Api.Condition.{set_state}
use reactivejob_operator.Kube.Server.{
  Server, Reply, done, failed, History, get, list, update_status,
}
use reactivejob_operator.Kube.Library.{
  Library, api, wrap, aggregate_one, aggregate, Outcome, ok, err, panic,
}
use reactivejob_operator.Webhook.{default}
use reactivejob_operator.Controller.Monad.{Frame, Exec, pure, perform, ◌>>=◌, ◌>>◌, get_job, lift}
use reactivejob_operator.Controller.Objects.{
  finalizer, label_controller_uid, label_controller_name, ReconcileResult, no_result, older,
}
use reactivejob_operator.Controller.Steps.{set_state_now, reconcile_present, reconcile_terminating}

module _ {E : Type 0} where
  -- The object in memory when the body begins: defaulted, its generation acknowledged.
  unfoldable pub acknowledged : ReactiveJob E → ReactiveJob E
  acknowledged r =
      let r' = default r in
      record r' { status = record (r'.status) { observed_generation = r'.meta.generation } }

  unfoldable pub start : ReactiveJob E → History E → Frame E
  start r h = record { reactive_job = acknowledged r; skip_status_update = false; history = h }

  -- `utilerrors.NewAggregate([]error{err, updateErr})`; a panic goes on.
  abbrev pub aggregated : Outcome ReconcileResult → Reply (ReactiveJob E) → Outcome ReconcileResult
  aggregated outcome (done _) = outcome
  aggregated (ok _) (failed e) = err (aggregate_one (api e))
  aggregated (err e) (failed e') = err (aggregate e (api e'))
  aggregated panic (failed e) = panic

module _ {E : Type 0} (server : Server E) (lib : Library E) where
  -- The first status, and another round at once.
  unfoldable pub first_seen : Exec E ReconcileResult
  first_seen = do
    set_state_now server lib state_new "First seen"
    pure (record { requeue = true; requeue_after = 0 })

  -- The jobs of the ReactiveJob, as `slices.SortBy` orders them.
  unfoldable pub list_jobs : String → Exec E (List (Job E))
  list_jobs namespace = do
    r ← get_job
    items ←
        perform (list namespace label_controller_uid r.meta.uid)
          (λ h. server.list h namespace label_controller_uid r.meta.uid)
          "failed to list dependent job resources"
    lift (lib.sort_by older items)

  -- The three cases on the deletion timestamp and the foreign finalizers.
  unfoldable pub reconcile_jobs : String → List (Job E) → Exec E ReconcileResult
  reconcile_jobs namespace jobs = do
    r ← get_job
    if is_zero r.meta.deletion_timestamp
        then reconcile_present server lib namespace jobs
        else reconcile_terminating server lib (lib.remove r.meta.finalizers finalizer) jobs

  unfoldable pub reconcile_body : String → Exec E ReconcileResult
  reconcile_body namespace = do
    r ← get_job
    if str_eq r.status.state ""
        then first_seen
        else list_jobs namespace >>= λ jobs. reconcile_jobs namespace jobs

  -- The object that is sent to the status update: an error is shown as the state.
  abbrev pub reported : Outcome ReconcileResult → Frame E → ReactiveJob E
  reported (err e) f =
      set_state (server.now f.history) f.reactive_job state_error (lib.error_text e)
  reported (ok _) f = f.reactive_job
  reported panic f = f.reactive_job

  -- The deferred function.
  unfoldable pub finish : Outcome ReconcileResult → Frame E → Outcome ReconcileResult × History E
  finish outcome f = if f.skip_status_update then (outcome, f.history) else (
    aggregated outcome (server.update_status f.history (reported outcome f)),
    update_status (reported outcome f) ∷ f.history,
  )

  unfoldable pub after_get :
      NamespacedName → Reply (ReactiveJob E) → History E → Outcome ReconcileResult × History E
  after_get request (failed e) h =
      if e.not_found then (ok no_result, h) else (err (wrap "unexpected get error" (api e)), h)
  after_get request (done r) h =
      let (outcome, f) = reconcile_body request.namespace (start r h) in finish outcome f

  unfoldable pub reconcile : NamespacedName → History E → Outcome ReconcileResult × History E
  reconcile request h = after_get request (server.get h request) (get request ∷ h)

module _ {E : Type 0} where
  unfoldable pub job_enqueue_mapper : Job E → List NamespacedName
  job_enqueue_mapper job =
      record {
        namespace = job.meta.namespace;
        name = map_get job.meta.labels label_controller_name;
      }
      ∷ []
