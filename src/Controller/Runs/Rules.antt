-- ===== src/Controller/Runs/Rules.antt =====
-- Properties of the steps of a run that follow from a rule for each way to build one: the rules, and what
-- they give for the steps of `Reconcile`.
use reactivejob_operator.Prelude.{
  String, Bool, true, false, ◌≡◌, ◌⊎◌, refl, inl, inr, List, [], ◌∷◌, if◌then◌else◌,
}
use reactivejob_operator.Api.Types.{Job, JobTemplateSpec, ReactiveJob}
use reactivejob_operator.Kube.Server.{Server, list, create_job, update_job, delete_job}
use reactivejob_operator.Kube.Library.{Library}
use reactivejob_operator.Controller.Monad.{Exec, ◌>>=◌, pure, modify_job, perform, get_job, lift}
use reactivejob_operator.Controller.Hash.{json_hash}
use reactivejob_operator.Controller.Objects.{
  label_controller_uid, older, with_finalizers, shared_template,
}
use reactivejob_operator.Controller.Steps.{
  set_state_now, update_reactive_job, ensure_finalizer, clear_finalizer, create_from_template,
  release_job, release_jobs, report_current, create_or_report, reconcile_present, delete_released,
  delete_jobs, skip_status, reconcile_deleting, deletion_blocked, reconcile_terminating,
}
use reactivejob_operator.Controller.Reconcile.{
  first_seen, list_jobs, reconcile_jobs, reconcile_body,
}

-- The object with the name of a current job.
abbrev pub named : {E : Type 0} → ReactiveJob E → String → ReactiveJob E
named r name = record r { status = record (r.status) { current_job_name = name } }

-- All rules but one for the flag that skips the status update.
pub record Rules {E : Type 0} (server : Server E) (lib : Library E)
    (Holds : (A : Type 0) → Exec E A → Type 0) : Type 1 where
  pub bind :
      (A B : Type 0) (m : Exec E A) (k : A → Exec E B)
      → Holds A m
      → ((a : A) → Holds B (k a))
      → Holds B (m >>= k)
  pub returns : (A : Type 0) (a : A) → Holds A (pure a)
  pub reads : Holds (ReactiveJob E) get_job
  pub states : (state message : String) → Holds Unit (set_state_now server lib state message)
  pub finalizes :
      (l : ReactiveJob E → List String) → Holds Unit (modify_job (λ r. with_finalizers (l r) r))
  pub shares : (hash : String) → Holds Unit (modify_job (λ r. shared_template r hash))
  pub names : (name : String) → Holds Unit (modify_job (λ r. named r name))
  pub updates :
      (message : String)
      → (message ≡ "error setting finalizer") ⊎ (message ≡ "error clearing finalizer")
      → Holds Unit (update_reactive_job server lib message)
  pub lists :
      (namespace uid : String)
      → Holds (List (Job E)) (
          perform
            (list namespace label_controller_uid uid)
            (λ h. server.list h namespace label_controller_uid uid)
            "failed to list dependent job resources")
  pub sorts : (items : List (Job E)) → Holds (List (Job E)) (lift (lib.sort_by older items))
  pub hashes : (template : JobTemplateSpec E) → Holds String (lift (json_hash lib template))
  pub creates :
      (job : Job E)
      → Holds
          (Job E)
          (perform (create_job job) (λ h. server.create_job h job) "failed to create dependent job")
  pub rewrites :
      (job : Job E)
      → Holds (Job E) (
          perform
            (update_job job)
            (λ h. server.update_job h job)
            "error removing finalizer from previous dependent job")
  pub deletes :
      (job : Job E)
      → Holds Unit (
          perform
            (delete_job job)
            (λ h. server.delete_job h job)
            "failed to delete dependent job resources")

module _ {E : Type 0} (server : Server E) (lib : Library E)
    {Holds : (A : Type 0) → Exec E A → Type 0} (rules : Rules server lib Holds) where
  abbrev Has : {A : Type 0} → Exec E A → Type 0
  Has {A} m = Holds A m

  Has-bind :
      {A B : Type 0} (m : Exec E A) (k : A → Exec E B)
      → Has m
      → ((a : A) → Has (k a))
      → Has (m >>= k)
  Has-bind {A} {B} m k first rest = rules.bind A B m k first rest

  Has-if : {A : Type 0} (b : Bool) (m n : Exec E A) → Has m → Has n → Has (if b then m else n)
  Has-if true m n hm hn = hm
  Has-if false m n hm hn = hn

  Has-ensure_finalizer : Has (ensure_finalizer server lib)
  unfolding ensure_finalizer
  Has-ensure_finalizer = Has-bind _ _ rules.reads (λ r.
      Has-if _ _ _ (rules.returns _ tt)
        (Has-bind _ _ (rules.finalizes _) (λ _. rules.updates _ (inl refl))))

  Has-clear_finalizer : Has (clear_finalizer server lib)
  unfolding clear_finalizer
  Has-clear_finalizer = Has-bind _ _ rules.reads (λ r.
      Has-if _ _ _ (rules.returns _ tt)
        (Has-bind _ _ (rules.finalizes _) (λ _. rules.updates _ (inr refl))))

  Has-report :
      {A : Type 0} (state message : String) (a : A)
      → Has (set_state_now server lib state message >>= λ _. pure a)
  Has-report state message a = Has-bind _ _ (rules.states state message) (λ _. rules.returns _ a)

  Has-create_from_template :
      (namespace hash : String) → Has (create_from_template server lib namespace hash)
  unfolding create_from_template
  Has-create_from_template namespace hash = Has-bind _ _ rules.reads (λ r.
      Has-bind _ _ (rules.shares hash)
        (λ _. Has-bind _ _ (rules.creates _) (λ _. Has-report _ _ _)))

  Has-release_job : (job : Job E) → Has (release_job server lib job)
  unfolding release_job
  Has-release_job job = Has-if _ _ _ (rules.rewrites _) (rules.returns _ job)

  Has-release_jobs : (jobs : List (Job E)) → Has (release_jobs server lib jobs)
  unfolding release_jobs
  Has-release_jobs [] = rules.returns _ tt
  Has-release_jobs (job ∷ jobs) = Has-bind _ _ (Has-release_job job) (λ _. Has-release_jobs jobs)

  Has-report_current : (job : Job E) → Has (report_current server lib job)
  unfolding report_current
  Has-report_current job = Has-bind _ _ (rules.names job.meta.name) (λ _. Has-report _ _ _)

  Has-create_or_report :
      (namespace hash : String) (jobs : List (Job E))
      → Has (create_or_report server lib namespace hash jobs)
  unfolding create_or_report
  Has-create_or_report namespace hash [] = Has-create_from_template namespace hash
  Has-create_or_report namespace hash (current ∷ old) =
      Has-if _ _ _ (Has-bind _ _ (Has-release_jobs old) (λ _. Has-report_current current))
        (Has-create_from_template namespace hash)

  pub Has-reconcile_present :
      (namespace : String) (jobs : List (Job E)) → Has (reconcile_present server lib namespace jobs)
  unfolding reconcile_present
  Has-reconcile_present namespace jobs = Has-bind _ _ Has-ensure_finalizer (λ _.
      Has-bind _ _ rules.reads
        (λ r. Has-bind _ _ (rules.hashes _) (λ hash. Has-create_or_report namespace hash jobs)))

  Has-delete_jobs : (jobs : List (Job E)) → Has (delete_jobs server lib jobs)
  unfolding delete_jobs delete_released
  Has-delete_jobs [] = rules.returns _ tt
  Has-delete_jobs (job ∷ jobs) =
      Has-bind _ _
        (Has-bind _ _ (Has-release_job job)
          (λ j. Has-if _ _ _ (rules.deletes j) (rules.returns _ tt)))
        (λ _. Has-delete_jobs jobs)

  -- The deletion case, where jobs are left.
  pub Has-some_left :
      (job : Job E) (jobs : List (Job E)) → Has (reconcile_deleting server lib (job ∷ jobs))
  unfolding reconcile_deleting
  Has-some_left job jobs = Has-bind _ _ (Has-delete_jobs (job ∷ jobs)) (λ _. Has-report _ _ _)

  pub Has-deletion_blocked : Has (deletion_blocked server lib)
  unfolding deletion_blocked
  Has-deletion_blocked = Has-report _ _ _

  pub Has-list_jobs : (namespace : String) → Has (list_jobs server lib namespace)
  unfolding list_jobs
  Has-list_jobs namespace =
      Has-bind _ _ rules.reads (λ r. Has-bind _ _ (rules.lists _ _) (λ items. rules.sorts items))

  -- With a rule for the flag, the whole body has the property.
  module _ (skips : Has (skip_status server lib)) where
    Has-none_left : Has (reconcile_deleting server lib [])
    unfolding reconcile_deleting
    Has-none_left =
        Has-bind _ _ Has-clear_finalizer (λ _. Has-bind _ _ skips (λ _. rules.returns _ _))

    Has-reconcile_terminating :
        (foreign : List String) (jobs : List (Job E))
        → Has (reconcile_terminating server lib foreign jobs)
    unfolding reconcile_terminating
    Has-reconcile_terminating [] [] = Has-none_left
    Has-reconcile_terminating [] (job ∷ jobs) = Has-some_left job jobs
    Has-reconcile_terminating (_ ∷ _) jobs = Has-deletion_blocked

    Has-reconcile_jobs :
        (namespace : String) (jobs : List (Job E)) → Has (reconcile_jobs server lib namespace jobs)
    unfolding reconcile_jobs
    Has-reconcile_jobs namespace jobs = Has-bind _ _ rules.reads (λ r.
        Has-if _ _ _ (Has-reconcile_present namespace jobs) (Has-reconcile_terminating _ jobs))

    pub Has-reconcile_body : (namespace : String) → Has (reconcile_body server lib namespace)
    unfolding reconcile_body first_seen
    Has-reconcile_body namespace = Has-bind _ _ rules.reads (λ r.
        Has-if _ _ _ (Has-report _ _ _)
          (Has-bind _ _ (Has-list_jobs namespace) (λ jobs. Has-reconcile_jobs namespace jobs)))
