-- ===== src/Controller/Runs/Reports.antt =====
-- Every run that finds the object reports: what the last call of a run is, and what an error leads to.
use reactivejob_operator.Prelude.{◌≡◌, refl, ◌⊎◌, inl, inr, ◌∷◌}
use reactivejob_operator.Api.Meta.{NamespacedName}
use reactivejob_operator.Api.Types.{ReactiveJob, state_error}
use reactivejob_operator.Api.Condition.{set_state}
use reactivejob_operator.Kube.Server.{Server, ApiError, Reply, History, done, failed, update_status}
use reactivejob_operator.Kube.Library.{Library, Outcome, ok, err, panic}
use reactivejob_operator.Controller.Monad.{Frame}
use reactivejob_operator.Controller.Objects.{ReconcileResult}
use reactivejob_operator.Controller.Reconcile.{reported, aggregated, reconcile}
use reactivejob_operator.Controller.Safety.{found_jobs}
use reactivejob_operator.Controller.Runs.Flag.{LetsGo}
use reactivejob_operator.Controller.Runs.Ending.{body_end, reconcile-sent}

module _ {E : Type 0} (server : Server E) (lib : Library E) where
  -- An outcome that is an error is shown in the object of the status update, or that update failed.
  abbrev pub IsShown : Outcome ReconcileResult → ReactiveJob E → History E → Type 0
  IsShown (ok _) r before = Unit
  IsShown (err _) r before =
      (r.status.state ≡ state_error) ⊎ ((e : ApiError) × (server.update_status before r ≡ failed e))
  IsShown panic r before = Unit

  aggregated-IsShown :
      (outcome : Outcome ReconcileResult) (f : Frame E) (reply : Reply (ReactiveJob E))
      → server.update_status f.history (reported server lib outcome f) ≡ reply
      → IsShown (aggregated outcome reply) (reported server lib outcome f) f.history
  aggregated-IsShown (ok result) f (done r) e = tt
  aggregated-IsShown (ok result) f (failed why) e = inr (why, e)
  aggregated-IsShown (err why) f (done r) e = inl (unfold set_state in refl)
  aggregated-IsShown (err why) f (failed why') e = inl (unfold set_state in refl)
  aggregated-IsShown panic f (done r) e = tt
  aggregated-IsShown panic f (failed why) e = tt

  abbrev pub Reported : Outcome ReconcileResult × History E → Type 0
  Reported (outcome, h) =
      (r : ReactiveJob E) × (before : History E) × (h ≡ update_status r ∷ before)
      × IsShown outcome r before

  -- Let the server return the object. Then the last call of the run is a status update, and where the
  -- run ends in an error, the object of that update is in the state Error or the server refused it;
  -- or else the object has a deletion timestamp, the listing found no job, and the run returns the
  -- empty result without an error.
  pub reconcile-reports :
      (request : NamespacedName) (r : ReactiveJob E) (h : History E)
      → server.get h request ≡ done r
      → Reported (reconcile server lib request h)
        ⊎ LetsGo (found_jobs server lib request r h) (reconcile server lib request h).0 r
  reconcile-reports request r h e =
      let (outcome, f) = body_end server lib request r h in
      reconcile-sent server lib Reported request r h e (λ kept.
        (reported server lib outcome f, f.history, refl, aggregated-IsShown outcome f _ refl))
