-- ===== src/Controller/Steps.antt =====
-- The steps of `Reconcile` after the status was first set: finalizers, the creation of a job, the
-- release of old jobs, the report of the current one and the deletion.
use reactivejob_operator.Prelude.{String, true, List, [], ◌∷◌, ◌*◌, str_eq, not, if◌then◌else◌}
use reactivejob_operator.Api.Meta.{map_get, is_zero}
use reactivejob_operator.Api.Types.{Job, state_processing, state_deleting, state_deletion_blocked}
use reactivejob_operator.Api.Condition.{set_state}
use reactivejob_operator.Kube.Server.{Server, update, create_job, update_job, delete_job}
use reactivejob_operator.Kube.Library.{Library, ok}
use reactivejob_operator.Controller.Monad.{
  Exec, pure, perform, ◌>>=◌, ◌>>◌, modify_job, get_job, lift,
}
use reactivejob_operator.Controller.Hash.{json_hash}
use reactivejob_operator.Controller.Objects.{
  finalizer, annotation_controller_hash, second, ReconcileResult, no_result, requeue_in, report,
  new_job, shared_template, with_finalizers, release,
}

module _ {E : Type 0} (server : Server E) (lib : Library E) where
  -- `reactiveJob.SetState(state, message)`
  unfoldable pub set_state_now : String → String → Exec E Unit
  set_state_now state message f =
      modify_job (λ r. set_state (server.now f.history) r state message) f

  -- `r.Update(ctx, reactiveJob)`: the server's object takes the place of the one in memory.
  unfoldable pub update_reactive_job : String → Exec E Unit
  update_reactive_job message = do
    r ← get_job
    stored ← perform (update r) (λ h. server.update h r) message
    modify_job (λ _. stored)

  unfoldable pub ensure_finalizer : Exec E Unit
  ensure_finalizer = do
    r ← get_job
    if lib.contains r.meta.finalizers finalizer then pure tt else do
      modify_job (λ r. with_finalizers (lib.add_finalizer r.meta.finalizers finalizer) r)
      update_reactive_job "error setting finalizer"

  unfoldable pub clear_finalizer : Exec E Unit
  clear_finalizer = do
    r ← get_job
    if not (lib.contains r.meta.finalizers finalizer) then pure tt else do
      modify_job (λ r. with_finalizers (lib.remove_finalizer r.meta.finalizers finalizer) r)
      update_reactive_job "error clearing finalizer"

  -- The branch that creates a job from the template.
  unfoldable pub create_from_template : String → String → Exec E ReconcileResult
  create_from_template namespace hash = do
    r ← get_job
    let job = new_job lib namespace r hash
    modify_job (λ r. shared_template r hash)
    created ←
        perform (create_job job) (λ h. server.create_job h job) "failed to create dependent job"
    set_state_now state_processing "job created"
    pure (requeue_in (1 * second))

  -- The finalizer of a job is removed, if it is there; what the server returns is the job from then on.
  unfoldable pub release_job : Job E → Exec E (Job E)
  release_job job =
      if lib.contains job.meta.finalizers finalizer
      then perform (update_job (release lib job)) (λ h. server.update_job h (release lib job))
          "error removing finalizer from previous dependent job"
      else pure job

  -- `for _, job := range jobs[1:]`
  unfoldable pub release_jobs : List (Job E) → Exec E Unit
  release_jobs [] = pure tt
  release_jobs (job ∷ jobs) = release_job job >>= λ _. release_jobs jobs

  unfoldable pub report_current : Job E → Exec E ReconcileResult
  report_current job = do
    modify_job (λ r. record r { status = record (r.status) { current_job_name = job.meta.name } })
    let said = report job.conditions
    set_state_now said.state said.message
    pure (requeue_in said.requeue_after)

  -- `len(jobs) == 0 || jobs[0].Annotations[annotationControllerHash] != jobTemplateHash`
  unfoldable pub create_or_report : String → String → List (Job E) → Exec E ReconcileResult
  create_or_report namespace hash [] = create_from_template namespace hash
  create_or_report namespace hash (current ∷ old) =
      if str_eq (map_get current.meta.annotations annotation_controller_hash) hash
      then release_jobs old >> report_current current
      else create_from_template namespace hash

  -- The create/update case.
  unfoldable pub reconcile_present : String → List (Job E) → Exec E ReconcileResult
  reconcile_present namespace jobs = do
    ensure_finalizer
    r ← get_job
    hash ← lift (json_hash lib r.spec.job_template)
    create_or_report namespace hash jobs

  -- The body of the loop of the deletion case.
  unfoldable pub delete_released : Job E → Exec E Unit
  delete_released job =
      if is_zero job.meta.deletion_timestamp
      then perform (delete_job job) (λ h. server.delete_job h job)
          "failed to delete dependent job resources"
      else pure tt

  unfoldable pub delete_jobs : List (Job E) → Exec E Unit
  delete_jobs [] = pure tt
  delete_jobs (job ∷ jobs) = (release_job job >>= λ j. delete_released j) >>= λ _. delete_jobs jobs

  unfoldable pub skip_status : Exec E Unit
  skip_status f = (ok tt, record f { skip_status_update = true })

  -- The deletion case, with no foreign finalizer left.
  unfoldable pub reconcile_deleting : List (Job E) → Exec E ReconcileResult
  reconcile_deleting [] = do clear_finalizer; skip_status; pure no_result
  reconcile_deleting (job ∷ jobs) = do
    delete_jobs (job ∷ jobs)
    set_state_now state_deleting "waiting for deletion of dependent jobs"
    pure (requeue_in (10 * second))

  unfoldable pub deletion_blocked : Exec E ReconcileResult
  deletion_blocked = do
    set_state_now state_deletion_blocked "Deletion blocked due to foreign finalizers"
    pure (requeue_in (10 * second))

  -- `len(slices.Remove(reactiveJob.Finalizers, finalizer)) > 0`
  unfoldable pub reconcile_terminating : List String → List (Job E) → Exec E ReconcileResult
  reconcile_terminating [] jobs = reconcile_deleting jobs
  reconcile_terminating (_ ∷ _) jobs = deletion_blocked
