-- ===== src/Controller/Runs/Flag.antt =====
-- What a run of the body does to the flag `skipStatusUpdate` of controllers/reactivejob_controller.go.
use reactivejob_operator.Prelude.{
  String, Bool, false, ◌≡◌, refl, ap, sym, ◌∙◌, ◌⊎◌, inl, inr, List, [], ◌∷◌, str_eq, arith,
  Bool-cases, subst,
}
use reactivejob_operator.Api.Meta.{is_zero}
use reactivejob_operator.Api.Types.{Job, ReactiveJob}
use reactivejob_operator.Kube.Server.{Server}
use reactivejob_operator.Kube.Library.{Library, Outcome, ok, err, panic}
use reactivejob_operator.Controller.Monad.{Frame, ◌>>=◌, continue}
use reactivejob_operator.Controller.Objects.{ReconcileResult, no_result, finalizer}
use reactivejob_operator.Controller.Steps.{
  set_state_now, update_reactive_job, clear_finalizer, skip_status, reconcile_deleting,
  reconcile_terminating,
}
use reactivejob_operator.Controller.Reconcile.{
  first_seen, list_jobs, reconcile_jobs, reconcile_body,
}
use reactivejob_operator.Controller.Safety.{reactive_job-list_jobs}
use reactivejob_operator.Controller.Runs.Rules.{
  Rules, Has-reconcile_present, Has-some_left, Has-deletion_blocked, Has-list_jobs,
}
use reactivejob_operator.Controller.Runs.Keeps.{IsKept, Keeps, Keeps-Rules}
use reactivejob_operator.Controller.Runs.{reconcile_jobs-present, reconcile_jobs-terminating}

module _ {E : Type 0} where
  -- The run lets the object go: it is being deleted and no job was found.
  abbrev pub LetsGo : Outcome (List (Job E)) → Outcome ReconcileResult → ReactiveJob E → Type 0
  LetsGo found outcome r =
      (is_zero r.meta.deletion_timestamp ≡ false) × (found ≡ ok []) × (outcome ≡ ok no_result)

module _ {E : Type 0} (server : Server E) (lib : Library E) where
  -- The flag has the value.
  abbrev HasFlag : Bool → Frame E → Type 0
  HasFlag b f = f.skip_status_update ≡ b

  HasFlag-IsKept : (b : Bool) → IsKept server (HasFlag b)
  HasFlag-IsKept b = record {
    called = λ f call p. p;
    stored = λ f s p e. p;
    with_state = λ f now state message p. p;
    with_finalizers = λ f l p. p;
    with_template = λ f hash p. p;
    with_name = λ f name p. p;
  }

  flag-Rules :
      (b : Bool) → Rules server lib (λ A m. Keeps server lib (HasFlag b) (HasFlag-IsKept b) m)
  flag-Rules b = Keeps-Rules server lib (HasFlag b) (HasFlag-IsKept b)

  -- With no job left the flag is set only by a run that returns an empty result.
  none_left-flag :
      (f : Frame E)
      → ((reconcile_deleting server lib [] f).1.skip_status_update ≡ f.skip_status_update)
        ⊎ ((reconcile_deleting server lib [] f).0 ≡ ok no_result)
  unfolding reconcile_deleting clear_finalizer update_reactive_job skip_status ◌>>=◌
  none_left-flag f = ground arith

  terminating-flag :
      (foreign : List String) (jobs : List (Job E)) (f : Frame E)
      → is_zero f.reactive_job.meta.deletion_timestamp ≡ false
      → ((reconcile_terminating server lib foreign jobs f).1.skip_status_update
          ≡ f.skip_status_update)
        ⊎ LetsGo (ok jobs) (reconcile_terminating server lib foreign jobs f).0 f.reactive_job
  unfolding reconcile_terminating
  terminating-flag (_ ∷ _) jobs f dying =
      inl (Has-deletion_blocked server lib (flag-Rules f.skip_status_update) f refl)
  terminating-flag [] (job ∷ jobs) f dying =
      inl (Has-some_left server lib (flag-Rules f.skip_status_update) job jobs f refl)
  terminating-flag [] [] f dying = elim (none_left-flag f) [
    | inl e ↦ inl e
    | inr e ↦ inr (dying, refl, e)
  ]

  reconcile_jobs-flag :
      (namespace : String) (jobs : List (Job E)) (f : Frame E)
      → ((reconcile_jobs server lib namespace jobs f).1.skip_status_update ≡ f.skip_status_update)
        ⊎ LetsGo (ok jobs) (reconcile_jobs server lib namespace jobs f).0 f.reactive_job
  reconcile_jobs-flag namespace jobs f =
      elim (Bool-cases (is_zero f.reactive_job.meta.deletion_timestamp)) [
        | inl alive ↦ inl (
            ap (λ r. r.1.skip_status_update)
              (reconcile_jobs-present server lib namespace jobs f alive)
            ∙ Has-reconcile_present server lib (flag-Rules f.skip_status_update) namespace jobs f
                refl)
        | inr dying ↦
            subst
              (λ r.
                (r.1.skip_status_update ≡ f.skip_status_update)
                ⊎ LetsGo (ok jobs) r.0 f.reactive_job)
              (sym (reconcile_jobs-terminating server lib namespace jobs f dying))
              (terminating-flag (lib.remove f.reactive_job.meta.finalizers finalizer) jobs f dying)
      ]

  -- What is left of the body after the listing.
  listed-flag :
      (namespace : String) (found : Outcome (List (Job E))) (f g : Frame E)
      → g.skip_status_update ≡ f.skip_status_update
      → g.reactive_job ≡ f.reactive_job
      → ((continue found (λ jobs. reconcile_jobs server lib namespace jobs) g).1.skip_status_update
          ≡ f.skip_status_update)
        ⊎ LetsGo found
            (continue found (λ jobs. reconcile_jobs server lib namespace jobs) g).0
            f.reactive_job
  listed-flag namespace (ok jobs) f g kept same = elim (reconcile_jobs-flag namespace jobs g) [
    | inl e ↦ inl (e ∙ kept)
    | inr (dying, none_left, e) ↦ inr (
      ap (λ (r : ReactiveJob E). is_zero r.meta.deletion_timestamp) (sym same) ∙ dying,
      none_left,
      e,
    )
  ]
  listed-flag namespace (err e) f g kept same = inl kept
  listed-flag namespace panic f g kept same = inl kept

  pub body-flag :
      (namespace : String) (f : Frame E)
      → ((reconcile_body server lib namespace f).1.skip_status_update ≡ f.skip_status_update)
        ⊎ LetsGo
            (list_jobs server lib namespace f).0
            (reconcile_body server lib namespace f).0
            f.reactive_job
  unfolding reconcile_body first_seen set_state_now ◌>>=◌
  body-flag namespace f = elim (Bool-cases (str_eq f.reactive_job.status.state "")) [
    | inl unseen ↦ rw unseen (inl refl)
    | inr seen ↦ rw seen (
        listed-flag namespace (list_jobs server lib namespace f).0 f
          (list_jobs server lib namespace f).1
          (Has-list_jobs server lib (flag-Rules f.skip_status_update) namespace f refl)
          (reactive_job-list_jobs server lib namespace f))
  ]
