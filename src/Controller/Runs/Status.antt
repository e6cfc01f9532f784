-- ===== src/Controller/Runs/Status.antt =====
-- What a run that returns a result has written to the status, and that it asks for another run.
use reactivejob_operator.Prelude.{
  ◌<◌, String, true, ◌≡◌, refl, ◌⊎◌, inl, inr, List, [], ◌∷◌, arith, Bool-cases, str_eq, ◌&&◌,
}
use reactivejob_operator.Api.Meta.{Time, map_get, is_zero}
use reactivejob_operator.Api.Types.{
  Job, JobCondition, ReactiveJob, state_new, state_processing, state_deletion_blocked,
  state_deleting, state_ready, state_error, job_failed, job_complete, condition_true,
}
use reactivejob_operator.Api.Condition.{set_state}
use reactivejob_operator.Kube.Server.{Server}
use reactivejob_operator.Kube.Library.{Library, Outcome, ok, err, panic}
use reactivejob_operator.Controller.Monad.{Frame, Exec, ◌>>=◌, continue, pure}
use reactivejob_operator.Controller.Objects.{
  ReconcileResult, finalizer, annotation_controller_hash, report,
}
use reactivejob_operator.Controller.Steps.{
  set_state_now, create_from_template, report_current, create_or_report, reconcile_present,
  skip_status, reconcile_deleting, deletion_blocked, reconcile_terminating,
}
use reactivejob_operator.Controller.Reconcile.{first_seen, reconcile_jobs, reconcile_body}

-- The states of the enumeration that the API server validates.
pub data IsState : String → Type 0 where
  is_new : IsState state_new
  is_processing : IsState state_processing
  is_deletion_blocked : IsState state_deletion_blocked
  is_deleting : IsState state_deleting
  is_ready : IsState state_ready
  is_error : IsState state_error

-- The result asks for another run, at once or after a time.
abbrev pub AsksAgain : ReconcileResult → Type 0
AsksAgain result = (result.requeue ≡ true) ⊎ (0 < result.requeue_after)

pub report-IsState :
    (cs : List JobCondition) → IsState (report cs).state × (0 < (report cs).requeue_after)
unfolding report
report-IsState [] = (is_processing, omega arith)
report-IsState (c ∷ cs) =
    elim (Bool-cases (str_eq c.type job_failed && str_eq c.status condition_true)) [
      | inl fails ↦ rw fails (is_error, omega arith)
      | inr other ↦
          elim (Bool-cases (str_eq c.type job_complete && str_eq c.status condition_true)) [
            | inl ready ↦ rw (other, ready) (is_ready, omega arith)
            | inr waits ↦ rw (other, waits) (report-IsState cs)
          ]
    ]

module _ {E : Type 0} where
  -- The object is as `SetState` left it.
  abbrev pub IsStated : ReactiveJob E → Type 0
  IsStated r =
      (before : ReactiveJob E) × (now : Time) × (state : String) × (message : String) × IsState
        state
      × (r ≡ set_state now before state message)

  -- A run that returns a result has set the state and asks for another run, or skips the status.
  abbrev pub IsSettled : Outcome ReconcileResult × Frame E → Type 0
  IsSettled (ok result, f) =
      (IsStated f.reactive_job × AsksAgain result) ⊎ (f.skip_status_update ≡ true)
  IsSettled (err e, f) = Unit
  IsSettled (panic, f) = Unit

module _ {E : Type 0} (server : Server E) (lib : Library E) where
  abbrev Ends : Exec E ReconcileResult → Type 0
  Ends m = (f : Frame E) → IsSettled (m f)

  Ends-bind :
      {A : Type 0} (m : Exec E A) (k : A → Exec E ReconcileResult)
      → ((a : A) → Ends (k a))
      → Ends (m >>= k)
  unfolding ◌>>=◌
  Ends-bind m k rest f = go (m f).0 (m f).1
    where
      go : (r : Outcome _) (g : Frame E) → IsSettled (continue r k g)
      go (ok a) g = rest a g
      go (err x) g = tt
      go panic g = tt

  Ends-set_state_now :
      (state message : String) (result : ReconcileResult)
      → IsState state
      → AsksAgain result
      → Ends (set_state_now server lib state message >>= λ _. pure result)
  unfolding set_state_now ◌>>=◌
  Ends-set_state_now state message result valid again f =
      inl ((f.reactive_job, server.now f.history, state, message, valid, refl), again)

  Ends-first_seen : Ends (first_seen server lib)
  unfolding first_seen
  Ends-first_seen = Ends-set_state_now state_new "First seen" _ is_new (inl refl)

  Ends-create_from_template :
      (namespace hash : String) → Ends (create_from_template server lib namespace hash)
  unfolding create_from_template
  Ends-create_from_template namespace hash = Ends-bind _ _ (λ r. Ends-bind _ _ (λ _.
      Ends-bind _ _ (λ _.
        Ends-set_state_now state_processing "job created" _ is_processing (inr (omega arith)))))

  Ends-report_current : (job : Job E) → Ends (report_current server lib job)
  unfolding report_current
  Ends-report_current job =
      let (valid, again) = report-IsState job.conditions in
      Ends-bind _ _ (λ _. Ends-set_state_now _ _ _ valid (inr again))

  Ends-create_or_report :
      (namespace hash : String) (jobs : List (Job E))
      → Ends (create_or_report server lib namespace hash jobs)
  unfolding create_or_report
  Ends-create_or_report namespace hash [] = Ends-create_from_template namespace hash
  Ends-create_or_report namespace hash (current ∷ old) =
      elim (Bool-cases
        (str_eq (map_get current.meta.annotations annotation_controller_hash) hash)) [
          | inl same ↦ rw same (Ends-bind _ _ (λ _. Ends-report_current current))
          | inr other ↦ rw other (Ends-create_from_template namespace hash)
        ]

  Ends-reconcile_present :
      (namespace : String) (jobs : List (Job E))
      → Ends (reconcile_present server lib namespace jobs)
  unfolding reconcile_present
  Ends-reconcile_present namespace jobs =
      Ends-bind _ _ (λ _.
        Ends-bind _ _ (λ r. Ends-bind _ _ (λ hash. Ends-create_or_report namespace hash jobs)))

  Ends-reconcile_deleting : (jobs : List (Job E)) → Ends (reconcile_deleting server lib jobs)
  unfolding reconcile_deleting
  Ends-reconcile_deleting [] = Ends-bind _ _ (λ _. unfold skip_status ◌>>=◌ in (λ f. inr refl))
  Ends-reconcile_deleting (job ∷ jobs) =
      Ends-bind _ _ (λ _. Ends-set_state_now state_deleting _ _ is_deleting (inr (omega arith)))

  Ends-reconcile_terminating :
      (foreign : List String) (jobs : List (Job E))
      → Ends (reconcile_terminating server lib foreign jobs)
  unfolding reconcile_terminating deletion_blocked
  Ends-reconcile_terminating [] jobs = Ends-reconcile_deleting jobs
  Ends-reconcile_terminating (_ ∷ _) jobs =
      Ends-set_state_now state_deletion_blocked _ _ is_deletion_blocked (inr (omega arith))

  Ends-reconcile_jobs :
      (namespace : String) (jobs : List (Job E)) → Ends (reconcile_jobs server lib namespace jobs)
  unfolding reconcile_jobs
  Ends-reconcile_jobs namespace jobs = Ends-bind _ _ (λ r.
      elim (Bool-cases (is_zero r.meta.deletion_timestamp)) [
        | inl alive ↦ rw alive (Ends-reconcile_present namespace jobs)
        | inr dying ↦
            rw dying (Ends-reconcile_terminating (lib.remove r.meta.finalizers finalizer) jobs)
      ])

  pub Ends-reconcile_body : (namespace : String) → Ends (reconcile_body server lib namespace)
  unfolding reconcile_body
  Ends-reconcile_body namespace = Ends-bind _ _ (λ r. elim (Bool-cases (str_eq r.status.state "")) [
    | inl unseen ↦ rw unseen Ends-first_seen
    | inr seen ↦ rw seen (Ends-bind _ _ (λ jobs. Ends-reconcile_jobs namespace jobs))
  ])
