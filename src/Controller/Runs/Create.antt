-- ===== src/Controller/Runs/Create.antt =====
-- The run that creates a job.
use reactivejob_operator.Prelude.{
  ◌*◌, String, true, false, ◌≡◌, ◌≢◌, refl, List, [], ◌∷◌, str_eq, eq_iff, ap, ◌∙◌, Bool-cases, inl,
  inr,
}
use reactivejob_operator.Api.Meta.{NamespacedName, is_zero, map_get}
use reactivejob_operator.Api.Types.{Job, ReactiveJob, state_processing}
use reactivejob_operator.Api.Condition.{set_state}
use reactivejob_operator.Kube.Server.{Server, History, done, get, create_job, update_status}
use reactivejob_operator.Kube.Library.{Library, ok}
use reactivejob_operator.Webhook.{default}
use reactivejob_operator.Controller.Monad.{Frame, ◌>>=◌}
use reactivejob_operator.Controller.Hash.{json_hash}
use reactivejob_operator.Controller.Objects.{
  finalizer, label_controller_uid, annotation_controller_hash, requeue_in, second, older, new_job,
  shared_template,
}
use reactivejob_operator.Controller.Steps.{
  set_state_now, ensure_finalizer, create_from_template, create_or_report, reconcile_present,
}
use reactivejob_operator.Controller.Reconcile.{finish, acknowledged, aggregated, reconcile}
use reactivejob_operator.Controller.Runs.{
  looked_up, listing, finished, reconcile-listed, reconcile_jobs-present,
}

-- No job exists yet, or the newest was made for another hash.
abbrev pub NeedsJob : {E : Type 0} → List (Job E) → String → Type 0
NeedsJob [] hash = Unit
NeedsJob (current ∷ old) hash = map_get current.meta.annotations annotation_controller_hash ≢ hash

module _ {E : Type 0} (server : Server E) (lib : Library E) where
  pub create_or_report-needed :
      (namespace hash : String) (jobs : List (Job E))
      → NeedsJob jobs hash
      → create_or_report server lib namespace hash jobs
        ≡ create_from_template server lib namespace hash
  unfolding create_or_report
  create_or_report-needed namespace hash [] needed = refl
  create_or_report-needed namespace hash (current ∷ old) needed =
      elim (Bool-cases
        (str_eq (map_get current.meta.annotations annotation_controller_hash) hash)) [
          | inl same ↦ absurd (needed ((eq_iff _ _).0 same))
          | inr other ↦ rw other refl
        ]

  -- With its own finalizer in place, the present case goes straight to the jobs.
  pub reconcile_present-owned :
      (namespace hash : String) (jobs : List (Job E)) (f : Frame E)
      → lib.contains f.reactive_job.meta.finalizers finalizer ≡ true
      → json_hash lib f.reactive_job.spec.job_template ≡ ok hash
      → reconcile_present server lib namespace jobs f
        ≡ create_or_report server lib namespace hash jobs f
  unfolding reconcile_present ensure_finalizer ◌>>=◌
  reconcile_present-owned namespace hash jobs f own hashed = rw (own, hashed) refl

  pub create_from_template-done :
      (namespace hash : String) (f : Frame E) {made : Job E}
      → server.create_job f.history (new_job lib namespace f.reactive_job hash) ≡ done made
      → create_from_template server lib namespace hash f ≡ (
        ok (requeue_in (1 * second)),
        record f {
          reactive_job =
              set_state
                (server.now (create_job (new_job lib namespace f.reactive_job hash) ∷ f.history))
                (shared_template f.reactive_job hash)
                state_processing
                "job created";
          history = create_job (new_job lib namespace f.reactive_job hash) ∷ f.history;
        },
      )
  unfolding create_from_template ◌>>=◌ set_state_now
  create_from_template-done namespace hash f created = rw created refl

  -- The calls of the run, the newest first, but for the status update.
  abbrev pub created_calls : NamespacedName → ReactiveJob E → String → History E → History E
  created_calls request r hash h =
      create_job (new_job lib request.namespace (acknowledged r) hash) ∷ looked_up request r h

  abbrev pub created_object : NamespacedName → ReactiveJob E → String → History E → ReactiveJob E
  created_object request r hash h =
      set_state (server.now (created_calls request r hash h))
        (shared_template (acknowledged r) hash) state_processing "job created"

  -- For a ReactiveJob that is not being deleted, was seen before and has the operator's finalizer: if
  -- no job exists or the newest has another hash, the run creates exactly one job from the template
  -- with that hash, reports Processing and asks for another run in a second.
  pub reconcile-creates :
      (request : NamespacedName) (r : ReactiveJob E) (h : History E) {items : List (Job E)}
      (jobs : List (Job E)) (hash : String) {made : Job E}
      → server.get h request ≡ done r
      → str_eq r.status.state "" ≡ false
      → server.list (get request ∷ h) request.namespace label_controller_uid r.meta.uid ≡ done items
      → lib.sort_by older items ≡ ok jobs
      → is_zero r.meta.deletion_timestamp ≡ true
      → lib.contains r.meta.finalizers finalizer ≡ true
      → json_hash lib r.spec.job_template ≡ ok hash
      → NeedsJob jobs hash
      → server.create_job
          (looked_up request r h)
          (new_job lib request.namespace (acknowledged r) hash)
        ≡ done made
      → reconcile server lib request h ≡ (
        aggregated (ok (requeue_in (1 * second))) (
            server.update_status
              (created_calls request r hash h)
              (created_object request r hash h)),
        update_status (created_object request r hash h) ∷ created_calls request r hash h,
      )
  unfolding acknowledged default finish
  reconcile-creates request r h jobs hash read seen listed sorted alive own hashed needed created =
      let f = listing request r h in
      reconcile-listed server lib request r h read seen listed jobs sorted
      ∙ ap (finished server lib) (
          reconcile_jobs-present server lib request.namespace jobs f alive
          ∙ reconcile_present-owned request.namespace hash jobs f own hashed
          ∙ ap (λ m. m f) (create_or_report-needed request.namespace hash jobs needed)
          ∙ create_from_template-done request.namespace hash f created)
