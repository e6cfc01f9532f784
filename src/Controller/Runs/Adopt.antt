-- ===== src/Controller/Runs/Adopt.antt =====
-- The runs that come before a job is looked after: the first status, the finalizer, and a failed
-- creation.
use reactivejob_operator.Prelude.{◌*◌, String, true, false, ◌≡◌, refl, List, ◌∷◌, str_eq, ap, ◌∙◌}
use reactivejob_operator.Api.Meta.{NamespacedName, is_zero}
use reactivejob_operator.Api.Types.{Job, ReactiveJob, state_new, state_processing, state_error}
use reactivejob_operator.Api.Condition.{set_state}
use reactivejob_operator.Kube.Server.{
  Server, ApiError, History, done, failed, get, update, create_job, update_status,
}
use reactivejob_operator.Kube.Library.{Library, ok, err, wrap, api}
use reactivejob_operator.Webhook.{default}
use reactivejob_operator.Controller.Monad.{Frame, ◌>>=◌}
use reactivejob_operator.Controller.Hash.{json_hash}
use reactivejob_operator.Controller.Objects.{
  finalizer, label_controller_uid, requeue_in, second, older, new_job, shared_template,
  with_finalizers,
}
use reactivejob_operator.Controller.Steps.{
  set_state_now, update_reactive_job, ensure_finalizer, create_from_template, create_or_report,
  reconcile_present,
}
use reactivejob_operator.Controller.Reconcile.{
  first_seen, reconcile_body, after_get, start, finish, acknowledged, aggregated, reconcile,
}
use reactivejob_operator.Controller.Runs.{
  looked_up, listing, finished, reconcile-listed, reconcile_jobs-present,
}
use reactivejob_operator.Controller.Runs.Create.{
  NeedsJob, create_or_report-needed, create_from_template-done, reconcile_present-owned,
  created_calls,
}

module _ {E : Type 0} (server : Server E) (lib : Library E) where
  abbrev pub new_object : NamespacedName → ReactiveJob E → History E → ReactiveJob E
  new_object request r h =
      set_state (server.now (get request ∷ h)) (acknowledged r) state_new "First seen"

  -- A ReactiveJob without a state is touched in its status alone: the run sends the status New and
  -- asks for another run at once, whether or not the object is being deleted.
  pub reconcile-first_seen :
      (request : NamespacedName) (r : ReactiveJob E) (h : History E)
      → server.get h request ≡ done r
      → str_eq r.status.state "" ≡ true
      → reconcile server lib request h ≡ (
        aggregated
            (ok (record { requeue = true; requeue_after = 0 }))
            (server.update_status (get request ∷ h) (new_object request r h)),
        update_status (new_object request r h) ∷ get request ∷ h,
      )
  unfolding reconcile after_get reconcile_body first_seen set_state_now ◌>>=◌ start acknowledged
      default finish
  reconcile-first_seen request r h read unseen = rw (read, unseen) refl

  -- The object as it is sent to get the finalizer.
  abbrev pub with_finalizer : ReactiveJob E → ReactiveJob E
  with_finalizer r = with_finalizers (lib.add_finalizer r.meta.finalizers finalizer) r

  reconcile_present-adopts :
      (namespace hash : String) (jobs : List (Job E)) (f : Frame E) {stored : ReactiveJob E}
      → lib.contains f.reactive_job.meta.finalizers finalizer ≡ false
      → server.update f.history (with_finalizer f.reactive_job) ≡ done stored
      → json_hash lib stored.spec.job_template ≡ ok hash
      → reconcile_present server lib namespace jobs f
        ≡ create_or_report server lib namespace hash jobs (record f {
          reactive_job = stored;
          history = update (with_finalizer f.reactive_job) ∷ f.history;
        })
  unfolding reconcile_present ensure_finalizer update_reactive_job ◌>>=◌
  reconcile_present-adopts namespace hash jobs f missing accepted hashed =
      rw (missing, accepted, hashed) refl

  -- The calls of the run that sets the finalizer and creates a job, but for the status update.
  abbrev pub adopting_calls :
      NamespacedName → ReactiveJob E → ReactiveJob E → String → History E → History E
  adopting_calls request r stored hash h =
      create_job (new_job lib request.namespace stored hash)
      ∷ update (with_finalizer (acknowledged r))
      ∷ looked_up request r h

  -- The object in the status update of that run.
  abbrev pub adopted_object :
      NamespacedName → ReactiveJob E → ReactiveJob E → String → History E → ReactiveJob E
  adopted_object request r stored hash h =
      set_state (server.now (adopting_calls request r stored hash h)) (shared_template stored hash)
        state_processing "job created"

  -- For a ReactiveJob that is not being deleted, was seen before and lacks the operator's finalizer, and
  -- that needs a job: where the server accepts the finalizer and the job, the run goes on with the
  -- object that the server returned for the finalizer. The job is made from that object's template,
  -- and the status that is sent at the end has the observed generation of that object, whatever
  -- generation the run had acknowledged at its beginning.
  pub reconcile-adopts :
      (request : NamespacedName) (r stored : ReactiveJob E) (h : History E) {items : List (Job E)}
      (jobs : List (Job E)) (hash : String) {made : Job E}
      → server.get h request ≡ done r
      → str_eq r.status.state "" ≡ false
      → server.list (get request ∷ h) request.namespace label_controller_uid r.meta.uid ≡ done items
      → lib.sort_by older items ≡ ok jobs
      → is_zero r.meta.deletion_timestamp ≡ true
      → lib.contains r.meta.finalizers finalizer ≡ false
      → server.update (looked_up request r h) (with_finalizer (acknowledged r)) ≡ done stored
      → json_hash lib stored.spec.job_template ≡ ok hash
      → NeedsJob jobs hash
      → server.create_job
          (update (with_finalizer (acknowledged r)) ∷ looked_up request r h)
          (new_job lib request.namespace stored hash)
        ≡ done made
      → (reconcile server lib request h ≡ (
        aggregated (ok (requeue_in (1 * second))) (
            server.update_status
              (adopting_calls request r stored hash h)
              (adopted_object request r stored hash h)),
        update_status (adopted_object request r stored hash h)
            ∷ adopting_calls request r stored hash h,
      ))
        × ((adopted_object request r stored hash h).status.observed_generation
            ≡ stored.status.observed_generation)
  unfolding acknowledged default finish
  reconcile-adopts request r stored h jobs hash read seen listed sorted alive missing accepted
        hashed needed created =
      let f = listing request r h in
      let g : Frame E = record f {
        reactive_job = stored;
        history = update (with_finalizer f.reactive_job) ∷ f.history;
      } in
      (
        reconcile-listed server lib request r h read seen listed jobs sorted
            ∙ ap (finished server lib) (
                reconcile_jobs-present server lib request.namespace jobs f alive
                ∙ reconcile_present-adopts request.namespace hash jobs f missing accepted hashed
                ∙ ap (λ m. m g)
                    (create_or_report-needed server lib request.namespace hash jobs needed)
                ∙ create_from_template-done server lib request.namespace hash g created),
        unfold set_state shared_template in refl,
      )

  create_from_template-failed :
      (namespace hash : String) (f : Frame E) {e : ApiError}
      → server.create_job f.history (new_job lib namespace f.reactive_job hash) ≡ failed e
      → create_from_template server lib namespace hash f ≡ (
        err (wrap "failed to create dependent job" (api e)),
        record f {
          reactive_job = shared_template f.reactive_job hash;
          history = create_job (new_job lib namespace f.reactive_job hash) ∷ f.history;
        },
      )
  unfolding create_from_template ◌>>=◌
  create_from_template-failed namespace hash f refused = rw refused refl

  -- The object in the status update of a run whose creation of a job failed.
  abbrev pub failed_object :
      NamespacedName → ReactiveJob E → String → History E → ApiError → ReactiveJob E
  failed_object request r hash h e =
      set_state (server.now (created_calls server lib request r hash h))
        (shared_template (acknowledged r) hash) state_error
        (lib.error_text (wrap "failed to create dependent job" (api e)))

  -- For a ReactiveJob that is not being deleted, was seen before and has the operator's finalizer, and
  -- that needs a job: where the server refuses the new job, the run returns the wrapped error, and the
  -- status that is sent shows Error with the error's text.
  pub reconcile-create_fails :
      (request : NamespacedName) (r : ReactiveJob E) (h : History E) {items : List (Job E)}
      (jobs : List (Job E)) (hash : String) {e : ApiError}
      → server.get h request ≡ done r
      → str_eq r.status.state "" ≡ false
      → server.list (get request ∷ h) request.namespace label_controller_uid r.meta.uid ≡ done items
      → lib.sort_by older items ≡ ok jobs
      → is_zero r.meta.deletion_timestamp ≡ true
      → lib.contains r.meta.finalizers finalizer ≡ true
      → json_hash lib r.spec.job_template ≡ ok hash
      → NeedsJob jobs hash
      → server.create_job
          (looked_up request r h)
          (new_job lib request.namespace (acknowledged r) hash)
        ≡ failed e
      → reconcile server lib request h ≡ (
        aggregated (err (wrap "failed to create dependent job" (api e))) (
            server.update_status
              (created_calls server lib request r hash h)
              (failed_object request r hash h e)),
        update_status (failed_object request r hash h e)
            ∷ created_calls server lib request r hash h,
      )
  unfolding acknowledged default finish
  reconcile-create_fails request r h jobs hash read seen listed sorted alive own hashed needed
        refused =
      let f = listing request r h in
      reconcile-listed server lib request r h read seen listed jobs sorted
      ∙ ap (finished server lib) (
          reconcile_jobs-present server lib request.namespace jobs f alive
          ∙ reconcile_present-owned server lib request.namespace hash jobs f own hashed
          ∙ ap (λ m. m f) (create_or_report-needed server lib request.namespace hash jobs needed)
          ∙ create_from_template-failed request.namespace hash f refused)
