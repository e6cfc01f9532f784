-- ===== src/Controller/Safety.antt =====
-- From the calls of the body of `Reconcile` to those of a whole run.
pub mod Present
pub mod Terminating
use mathlib.Core.List.{Mem}
use mathlib.Core.Bool.{false≢true}
use reactivejob_operator.Prelude.{
  String, Bool, true, false, ◌≡◌, ◌≢◌, refl, ap, sym, ◌∙◌, ◌⊎◌, inl, inr, List, [], ◌∷◌, ◌++◌,
  str_eq, All, if◌then◌else◌, eq_iff, arith, Bool-cases,
}
use reactivejob_operator.Api.Meta.{NamespacedName, map_get, is_zero}
use reactivejob_operator.Api.Meta.Maps.{map_get-insert_self}
use reactivejob_operator.Api.Types.{Job, ReactiveJob}
use reactivejob_operator.Kube.Server.{
  Server, Call, History, Reply, done, failed, get, list, update, update_status, create_job,
  dry_run_create_job, update_job, delete_job,
}
use reactivejob_operator.Kube.Library.{Library, Outcome, ok, err, panic}
use reactivejob_operator.Webhook.{default}
use reactivejob_operator.Controller.Monad.{Frame, Exec, ◌>>=◌, get_job, lift, perform, pure}
use reactivejob_operator.Controller.Hash.{json_hash}
use reactivejob_operator.Controller.Objects.{
  finalizer, label_controller_uid, annotation_controller_hash, ReconcileResult, older, new_job,
  with_finalizers, release,
}
use reactivejob_operator.Controller.Emits.{
  Emits, Emits-pure, Emits-lift, Emits-perform, Emits-if, Emits-bind, Emits-get_job,
}
use reactivejob_operator.Controller.Steps.{
  create_or_report, reconcile_present, reconcile_deleting, deletion_blocked, reconcile_terminating,
  skip_status,
}
use reactivejob_operator.Controller.Reconcile.{
  first_seen, list_jobs, reconcile_jobs, reconcile_body, finish, acknowledged, start, after_get,
  reconcile,
}
use reactivejob_operator.Controller.Calls.{
  Emits-set_state_now, Emits-ensure_finalizer, Emits-clear_finalizer, Emits-create_from_template,
  Emits-release_jobs, Emits-report_current, Emits-delete_jobs,
}

module _ {E : Type 0} (server : Server E) (lib : Library E) where
  -- The jobs that the run finds, sorted: the answer to its first call after the read.
  abbrev pub found_jobs : NamespacedName → ReactiveJob E → History E → Outcome (List (Job E))
  found_jobs request r h = (list_jobs server lib request.namespace (start r (get request ∷ h))).0

  -- Listing leaves the object in memory as it is.
  pub reactive_job-list_jobs :
      (namespace : String) (f : Frame E)
      → (list_jobs server lib namespace f).1.reactive_job ≡ f.reactive_job
  unfolding list_jobs ◌>>=◌
  reactive_job-list_jobs namespace f = ground arith

  Emits-list_jobs :
      {P : Call E → Type 0} (namespace : String) (f : Frame E)
      → P (list namespace label_controller_uid f.reactive_job.meta.uid)
      → Emits P (list_jobs server lib namespace) f
  unfolding list_jobs
  Emits-list_jobs namespace f p =
      Emits-get_job _ f (Emits-bind _ _ f (Emits-perform _ _ _ f p) λ _ _. Emits-lift _ _)

  -- The body, from a rule for the part behind the listing.
  pub Emits-reconcile_body :
      {P : Call E → Type 0} (namespace : String) (f : Frame E)
      → P (list namespace label_controller_uid f.reactive_job.meta.uid)
      → ((jobs : List (Job E)) (g : Frame E)
          → (list_jobs server lib namespace f).0 ≡ ok jobs
          → g.reactive_job ≡ f.reactive_job
          → Emits P (reconcile_jobs server lib namespace jobs) g)
      → Emits P (reconcile_body server lib namespace) f
  unfolding reconcile_body
  Emits-reconcile_body namespace f p rest = Emits-get_job _ f (
      Emits-if (str_eq f.reactive_job.status.state "") _ _ f
        (λ _.
          unfold first_seen in
          Emits-bind _ _ f (Emits-set_state_now server lib _ _ f) λ _ _. Emits-pure _ _)
        λ _.
          Emits-bind _ _ f (Emits-list_jobs namespace f p)
            λ jobs e. rest jobs _ e (reactive_job-list_jobs namespace f))

  -- What a whole run adds to the history.
  abbrev pub Adds : (Call E → Type 0) → Outcome ReconcileResult × History E → History E → Type 0
  Adds P (outcome, h') h = (calls : History E) × (h' ≡ calls ++ h) × All P calls

  if-Adds :
      {P : Call E → Type 0} (b : Bool) (x y : Outcome ReconcileResult) (call : Call E)
      (g h : History E) (calls : History E)
      → g ≡ calls ++ h
      → All P calls
      → P call
      → Adds P (if b then (x, g) else (y, call ∷ g)) h
  if-Adds true x y call g h calls added all p = (calls, added, all)
  if-Adds false x y call g h calls added all p = (call ∷ calls, ap (λ l. call ∷ l) added, (p, all))

  pub finish-Adds :
      {P : Call E → Type 0} (m : Exec E ReconcileResult) (f : Frame E)
      → ((r : ReactiveJob E) → P (update_status r))
      → Emits P m f
      → Adds P (let (outcome, g) = m f in finish server lib outcome g) f.history
  unfolding finish
  finish-Adds m f p e =
      if-Adds (m f).1.skip_status_update _ _ _ _ f.history e.calls e.added e.all (p _)

  -- A run that has read `r` adds the calls of the body and of the status update.
  pub reconcile-Adds :
      {P : Call E → Type 0} (request : NamespacedName) (r : ReactiveJob E) (h : History E)
      → server.get h request ≡ done r
      → ((r' : ReactiveJob E) → P (update_status r'))
      → Emits P (reconcile_body server lib request.namespace) (start r (get request ∷ h))
      → Adds P (reconcile server lib request h) (get request ∷ h)
  unfolding reconcile after_get start
  reconcile-Adds request r h read p e = rw read (finish-Adds _ (start r (get request ∷ h)) p e)
