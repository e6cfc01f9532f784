-- ===== src/Controller/Runs.antt =====
-- Whole runs of `Reconcile`, step by step: what is returned, and every call in its order.
pub mod Create
pub mod Adopt
pub mod Settle
pub mod Converge
pub mod Delete
pub mod Panic
pub mod Rules
pub mod Keeps
pub mod Flag
pub mod Ending
pub mod Heeds
pub mod Reports
pub mod Status
pub mod Continues
pub mod Conditions
use reactivejob_operator.Prelude.{String, Bool, true, false, ◌≡◌, refl, List, [], ◌∷◌, str_eq}
use reactivejob_operator.Api.Meta.{NamespacedName, is_zero}
use reactivejob_operator.Api.Types.{Job, ReactiveJob}
use reactivejob_operator.Kube.Server.{Server, History, done, get, list}
use reactivejob_operator.Kube.Library.{Library, Outcome, ok, panic}
use reactivejob_operator.Webhook.{default}
use reactivejob_operator.Controller.Monad.{Frame, ◌>>=◌}
use reactivejob_operator.Controller.Objects.{
  label_controller_uid, ReconcileResult, older, finalizer,
}
use reactivejob_operator.Controller.Steps.{reconcile_present, reconcile_terminating}
use reactivejob_operator.Controller.Reconcile.{
  list_jobs, reconcile_jobs, reconcile_body, finish, acknowledged, start, after_get, reconcile,
}

-- The calls of a run up to the listing of the jobs, the newest first.
abbrev pub looked_up : {E : Type 0} → NamespacedName → ReactiveJob E → History E → History E
looked_up request r h = list request.namespace label_controller_uid r.meta.uid ∷ get request ∷ h

-- The state of the run then.
abbrev pub listing : {E : Type 0} → NamespacedName → ReactiveJob E → History E → Frame E
listing request r h = record {
  reactive_job = acknowledged r;
  skip_status_update = false;
  history = looked_up request r h;
}

-- The end of a run.
abbrev pub finished :
    {E : Type 0}
    → Server E
    → Library E
    → Outcome ReconcileResult × Frame E
    → Outcome ReconcileResult × History E
finished server lib (outcome, f) = finish server lib outcome f

module _ {E : Type 0} (server : Server E) (lib : Library E) (request : NamespacedName)
    (r : ReactiveJob E) (h : History E) {items : List (Job E)}
    (read : server.get h request ≡ done r) (seen : str_eq r.status.state "" ≡ false)
    (listed : server.list (get request ∷ h) request.namespace label_controller_uid r.meta.uid
      ≡ done items) where
  -- A run that has seen the object before, and whose listing succeeds, goes on with the sorted jobs.
  pub reconcile-listed :
      (jobs : List (Job E))
      → lib.sort_by older items ≡ ok jobs
      → reconcile server lib request h
        ≡ finished server lib
            (reconcile_jobs server lib request.namespace jobs (listing request r h))
  unfolding reconcile after_get reconcile_body list_jobs ◌>>=◌ start acknowledged default
  reconcile-listed jobs sorted = rw (read, seen, listed, sorted) refl

  -- Where sorting panics, the run panics, and the status is still sent, with the generation
  -- acknowledged and nothing else changed.
  pub reconcile-panics :
      lib.sort_by older items ≡ panic
      → reconcile server lib request h ≡ finished server lib (panic, listing request r h)
  unfolding reconcile after_get reconcile_body list_jobs ◌>>=◌ start acknowledged default
  reconcile-panics panics = rw (read, seen, listed, panics) refl

module _ {E : Type 0} (server : Server E) (lib : Library E) (namespace : String)
    (jobs : List (Job E)) (f : Frame E) where
  pub reconcile_jobs-present :
      is_zero f.reactive_job.meta.deletion_timestamp ≡ true
      → reconcile_jobs server lib namespace jobs f ≡ reconcile_present server lib namespace jobs f
  unfolding reconcile_jobs ◌>>=◌
  reconcile_jobs-present alive = rw alive refl

  pub reconcile_jobs-terminating :
      is_zero f.reactive_job.meta.deletion_timestamp ≡ false
      → reconcile_jobs server lib namespace jobs f
        ≡ reconcile_terminating server lib
            (lib.remove f.reactive_job.meta.finalizers finalizer)
            jobs
            f
  unfolding reconcile_jobs ◌>>=◌
  reconcile_jobs-terminating dying = rw dying refl
