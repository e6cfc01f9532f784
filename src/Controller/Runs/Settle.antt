-- ===== src/Controller/Runs/Settle.antt =====
-- The run that reports the current job and releases the older ones.
use reactivejob_operator.Prelude.{
  String, true, false, ◌≡◌, refl, ap, ◌∙◌, List, [], ◌∷◌, str_eq, eq_iff, Bool-cases, inl, inr,
  if◌then◌else◌,
}
use reactivejob_operator.Api.Meta.{NamespacedName, is_zero, map_get}
use reactivejob_operator.Api.Types.{Job, ReactiveJob}
use reactivejob_operator.Api.Condition.{set_state}
use reactivejob_operator.Kube.Server.{Server, Call, History, done, get, update_job, update_status}
use reactivejob_operator.Kube.Library.{Library, ok}
use reactivejob_operator.Webhook.{default}
use reactivejob_operator.Controller.Monad.{Frame, ◌>>=◌}
use reactivejob_operator.Controller.Hash.{json_hash}
use reactivejob_operator.Controller.Objects.{
  finalizer, label_controller_uid, annotation_controller_hash, requeue_in, older, release, report,
}
use reactivejob_operator.Controller.Steps.{
  set_state_now, release_job, release_jobs, report_current, create_or_report,
}
use reactivejob_operator.Controller.Reconcile.{finish, acknowledged, aggregated, reconcile}
use reactivejob_operator.Controller.Runs.{
  looked_up, listing, finished, reconcile-listed, reconcile_jobs-present,
}
use reactivejob_operator.Controller.Runs.Create.{reconcile_present-owned}

-- Calls made one after the other.
abbrev pub then_calls : {E : Type 0} → History E → List (Call E) → History E
then_calls h [] = h
then_calls h (c ∷ cs) = then_calls (c ∷ h) cs

module _ {E : Type 0} (lib : Library E) where
  -- Every job that has the operator's finalizer is written back without it.
  unfoldable pub releases : List (Job E) → List (Call E)
  releases [] = []
  releases (k ∷ ks) =
      let rest = releases ks in
      if lib.contains k.meta.finalizers finalizer then update_job (release lib k) ∷ rest else rest

module _ {E : Type 0} (server : Server E) (lib : Library E) (stored : History E → Job E → Job E)
    (accepts : (h : History E) (k : Job E) → server.update_job h k ≡ done (stored h k)) where
  release_jobs-accepted :
      (jobs : List (Job E)) (f : Frame E)
      → release_jobs server lib jobs f
        ≡ (ok tt, record f { history = then_calls f.history (releases lib jobs) })
  unfolding release_jobs release_job releases ◌>>=◌
  release_jobs-accepted [] f = refl
  release_jobs-accepted (job ∷ jobs) f =
      elim (Bool-cases (lib.contains job.meta.finalizers finalizer)) [
        | inl has ↦
            rw (has, accepts)
              (release_jobs-accepted jobs
                (record f { history = update_job (release lib job) ∷ f.history }))
        | inr hasnt ↦ rw hasnt (release_jobs-accepted jobs f)
      ]

  -- The object with the name of its current job.
  abbrev pub named : ReactiveJob E → Job E → ReactiveJob E
  named r job = record r { status = record (r.status) { current_job_name = job.meta.name } }

  report_current-done :
      (job : Job E) (f : Frame E)
      → report_current server lib job f ≡ (
        ok (requeue_in (report job.conditions).requeue_after),
        record f {
          reactive_job =
              set_state
                (server.now f.history)
                (named f.reactive_job job)
                (report job.conditions).state
                (report job.conditions).message;
        },
      )
  unfolding report_current set_state_now ◌>>=◌
  report_current-done job f = refl

  create_or_report-current :
      (namespace hash : String) (current : Job E) (old : List (Job E)) (f : Frame E)
      → map_get current.meta.annotations annotation_controller_hash ≡ hash
      → create_or_report server lib namespace hash (current ∷ old) f
        ≡ report_current server lib current
            (record f { history = then_calls f.history (releases lib old) })
  unfolding create_or_report ◌>>=◌
  create_or_report-current namespace hash current old f same =
      rw ((eq_iff _ _).1 same, release_jobs-accepted old f) refl

  abbrev pub settled_calls : NamespacedName → ReactiveJob E → List (Job E) → History E → History E
  settled_calls request r old h = then_calls (looked_up request r h) (releases lib old)

  abbrev pub settled_object :
      NamespacedName → ReactiveJob E → Job E → List (Job E) → History E → ReactiveJob E
  settled_object request r current old h =
      set_state (server.now (settled_calls request r old h)) (named (acknowledged r) current)
        (report current.conditions).state (report current.conditions).message

  -- For a ReactiveJob that is not being deleted, was seen before and has the operator's finalizer: if
  -- the newest job has the template's hash and the server accepts updates of jobs, the run releases
  -- exactly those older jobs that have the finalizer, one after the other, names the newest job in the
  -- status and reports what its conditions say.
  pub reconcile-settles :
      (request : NamespacedName) (r : ReactiveJob E) (h : History E) {items : List (Job E)}
      (current : Job E) (old : List (Job E)) (hash : String)
      → server.get h request ≡ done r
      → str_eq r.status.state "" ≡ false
      → server.list (get request ∷ h) request.namespace label_controller_uid r.meta.uid ≡ done items
      → lib.sort_by older items ≡ ok (current ∷ old)
      → is_zero r.meta.deletion_timestamp ≡ true
      → lib.contains r.meta.finalizers finalizer ≡ true
      → json_hash lib r.spec.job_template ≡ ok hash
      → map_get current.meta.annotations annotation_controller_hash ≡ hash
      → reconcile server lib request h ≡ (
        aggregated (ok (requeue_in (report current.conditions).requeue_after)) (
            server.update_status
              (settled_calls request r old h)
              (settled_object request r current old h)),
        update_status (settled_object request r current old h) ∷ settled_calls request r old h,
      )
  unfolding acknowledged default finish
  reconcile-settles request r h current old hash read seen listed sorted alive own hashed same =
      let f = listing request r h in
      let jobs = current ∷ old in
      reconcile-listed server lib request r h read seen listed jobs sorted
      ∙ ap (finished server lib) (
          reconcile_jobs-present server lib request.namespace jobs f alive
          ∙ reconcile_present-owned server lib request.namespace hash jobs f own hashed
          ∙ create_or_report-current request.namespace hash current old f same
          ∙ report_current-done current _)
