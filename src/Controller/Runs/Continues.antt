-- ===== src/Controller/Runs/Continues.antt =====
-- What follows a run: it asks for another one, and the status that it sends is one that the API accepts.
use reactivejob_operator.Prelude.{
  String, false, ◌≡◌, refl, sym, ◌∙◌, ◌⊎◌, inl, inr, Option, none, some, ◌∷◌, subst,
}
use mathlib.Core.Bool.{false≢true}
use reactivejob_operator.Api.Meta.{NamespacedName, Time}
use reactivejob_operator.Api.Types.{ReactiveJob, ReactiveJobCondition, condition_type_ready}
use reactivejob_operator.Api.Condition.{set_state}
use reactivejob_operator.Api.Condition.Laws.{
  find_type, new_condition, set_state_lem, IsStatusOf, condition_status-IsStatusOf,
}
use reactivejob_operator.Kube.Server.{Server, Reply, History, done, failed, get, update_status}
use reactivejob_operator.Kube.Library.{Library, Outcome, ok, err, panic}
use reactivejob_operator.Controller.Monad.{Frame}
use reactivejob_operator.Controller.Objects.{ReconcileResult}
use reactivejob_operator.Controller.Reconcile.{reported, aggregated, start, reconcile}
use reactivejob_operator.Controller.Safety.{found_jobs}
use reactivejob_operator.Controller.Runs.Flag.{LetsGo}
use reactivejob_operator.Controller.Runs.Ending.{body_end, reconcile-sent}
use reactivejob_operator.Controller.Runs.Status.{
  IsState, is_error, AsksAgain, IsStated, IsSettled, Ends-reconcile_body,
}

-- What `SetState` leaves as the Ready condition.
ready-new_condition :
    (now : Time) (old : Option ReactiveJobCondition) (t status reason message : String)
    → ((new_condition now old t status reason message).status ≡ status)
      × ((new_condition now old t status reason message).reason ≡ reason)
ready-new_condition now none t status reason message = (refl, refl)
ready-new_condition now (some c) t status reason message = (refl, refl)

module _ {E : Type 0} where
  -- The state is one of the enumeration, and the Ready condition has the status and the reason that
  -- belong to it.
  abbrev pub IsAcceptable : ReactiveJob E → Type 0
  IsAcceptable r =
      IsState r.status.state
      × (c : ReactiveJobCondition) × (find_type condition_type_ready r.status.conditions ≡ some c)
      × IsStatusOf r.status.state c.status
      × (c.reason ≡ r.status.state)

  set_state-IsAcceptable :
      (now : Time) (r : ReactiveJob E) (state message : String)
      → IsState state
      → IsAcceptable (set_state now r state message)
  unfolding set_state
  set_state-IsAcceptable now r state message valid =
      let (status, reason) = ready-new_condition now _ _ _ _ _ in
      (
        valid,
        _,
        (set_state_lem now r state message).1,
        subst (IsStatusOf state) (sym status) (condition_status-IsStatusOf state),
        reason,
      )

  set-IsAcceptable : (r : ReactiveJob E) → IsStated r → IsAcceptable r
  set-IsAcceptable r (before, now, state, message, valid, e) =
      subst IsAcceptable (sym e) (set_state-IsAcceptable now before state message valid)

module _ {E : Type 0} (server : Server E) (lib : Library E) where
  -- The last call is a status update with an acceptable status.
  abbrev pub SendsAcceptable : History E → Type 0
  SendsAcceptable h =
      (r : ReactiveJob E) × (before : History E) × (h ≡ update_status r ∷ before) × IsAcceptable r

  abbrev pub Continues : Outcome ReconcileResult × History E → Type 0
  Continues (ok result, h) = AsksAgain result × SendsAcceptable h
  Continues (err e, h) = SendsAcceptable h
  Continues (panic, h) = Unit

  settled-Continues :
      (outcome : Outcome ReconcileResult) (f : Frame E)
      → IsSettled (outcome, f)
      → f.skip_status_update ≡ false
      → (reply : Reply (ReactiveJob E))
      → Continues
          (aggregated outcome reply, update_status (reported server lib outcome f) ∷ f.history)
  settled-Continues (ok result) f (inr skips) kept reply = absurd (false≢true (sym kept ∙ skips))
  settled-Continues (ok result) f (inl (set, again)) kept (done r) =
      (again, (f.reactive_job, f.history, refl, set-IsAcceptable f.reactive_job set))
  settled-Continues (ok result) f (inl (set, again)) kept (failed e) =
      (f.reactive_job, f.history, refl, set-IsAcceptable f.reactive_job set)
  settled-Continues (err e) f settled kept (done r) =
      (_, f.history, refl, set_state-IsAcceptable _ f.reactive_job _ _ is_error)
  settled-Continues (err e) f settled kept (failed e') =
      (_, f.history, refl, set_state-IsAcceptable _ f.reactive_job _ _ is_error)
  settled-Continues panic f settled kept (done r) = tt
  settled-Continues panic f settled kept (failed e) = tt

  -- Let the server return the object. A run that returns a result asks for another run, at once or
  -- after a time, and unless it panics its last call is a status update whose state is one of the
  -- enumeration and whose Ready condition names that state as the reason and has the status True for
  -- the state Ready, False for Error and Unknown for every other one; or
  -- else the object has a deletion timestamp, the listing found no job, and the run returns the empty
  -- result without an error.
  pub reconcile-Continues :
      (request : NamespacedName) (r : ReactiveJob E) (h : History E)
      → server.get h request ≡ done r
      → Continues (reconcile server lib request h)
        ⊎ LetsGo (found_jobs server lib request r h) (reconcile server lib request h).0 r
  reconcile-Continues request r h e =
      let (outcome, f) = body_end server lib request r h in
      reconcile-sent server lib Continues request r h e (λ kept.
        settled-Continues outcome f
          (Ends-reconcile_body server lib request.namespace (start r (get request ∷ h))) kept _)
