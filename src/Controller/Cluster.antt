-- ===== src/Controller/Cluster.antt =====
-- What runs of `Reconcile` do to the jobs that the server stores, as a machine on the annotations of
-- those jobs, in no order.
pub mod Machine
pub mod Refines
pub mod Bound
use mathlib.Core.List.{Perm}
use reactivejob_operator.Prelude.{String, ◌≡◌, true, false, List, [], ◌∷◌, map, str_eq}
use reactivejob_operator.Prelude.Int.{ℤ}
use reactivejob_operator.Api.Meta.{NamespacedName, StringMap, is_zero}
use reactivejob_operator.Api.Types.{Job, ReactiveJob}
use reactivejob_operator.Kube.Server.{
  Server, ApiError, Call, History, done, failed, get, list, update, update_status, create_job,
  dry_run_create_job, update_job, delete_job,
}
use reactivejob_operator.Kube.Library.{Library, ok}
use reactivejob_operator.Controller.Hash.{json_hash}
use reactivejob_operator.Controller.Objects.{finalizer, label_controller_uid}

module _ {E : Type 0} where
  -- The annotations of jobs, by which the operator knows them.
  abbrev pub views : List (Job E) → List StringMap
  views = map (λ job. job.meta.annotations)

  -- Calls that neither create nor delete a job.
  abbrev pub IsQuiet : Call E → Type 0
  IsQuiet (get _) = Unit
  IsQuiet (list _ _ _) = Unit
  IsQuiet (update _) = Unit
  IsQuiet (update_status _) = Unit
  IsQuiet (create_job _) = ⊥
  IsQuiet (dry_run_create_job _) = Unit
  IsQuiet (update_job _) = Unit
  IsQuiet (delete_job _) = ⊥

  -- A server that stores the jobs of one ReactiveJob, and on which nobody but the operator creates or
  -- deletes jobs or changes their annotations. The ReactiveJob is there, is not being deleted, was
  -- seen before, has the operator's finalizer, and keeps its generation and its template.
  pub record Serves (server : Server E) (lib : Library E) (request : NamespacedName)
      (uid hash : String) (generation : ℤ) (object : History E → ReactiveJob E)
      (jobs : History E → List (Job E)) : Type 0 where
    pub read : (h : History E) → server.get h request ≡ done (object h)
    pub same_uid : (h : History E) → (object h).meta.uid ≡ uid
    pub same_generation : (h : History E) → (object h).meta.generation ≡ generation
    pub same_template : (h : History E) → json_hash lib (object h).spec.job_template ≡ ok hash
    pub seen : (h : History E) → str_eq (object h).status.state "" ≡ false
    pub alive : (h : History E) → is_zero (object h).meta.deletion_timestamp ≡ true
    pub owned : (h : History E) → lib.contains (object h).meta.finalizers finalizer ≡ true
    pub listed :
        (h : History E) → server.list h request.namespace label_controller_uid uid ≡ done (jobs h)
    -- a job that was created is stored with its annotations
    pub created :
        (h : History E) (job : Job E) {made : Job E}
        → server.create_job h job ≡ done made
        → Perm (views (jobs (create_job job ∷ h))) (job.meta.annotations ∷ views (jobs h))
    pub refused :
        (h : History E) (job : Job E) {e : ApiError}
        → server.create_job h job ≡ failed e
        → Perm (views (jobs (create_job job ∷ h))) (views (jobs h))
    pub kept :
        (h : History E) (call : Call E)
        → IsQuiet call
        → Perm (views (jobs (call ∷ h))) (views (jobs h))
