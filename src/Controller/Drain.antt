-- ===== src/Controller/Drain.antt =====
-- The deletion of a ReactiveJob over several runs, against a server that carries deletions out.
pub mod Ends
use mathlib.Core.List.{
  Mem, Perm, mem-cons, mem-cons_self, mem-cons_of_mem, not-mem-nil, mem-map_of_mem,
  exists_of_mem-map,
}
use mathlib.Core.List.Perm
use mathlib.Core.Logic.Or
use mathlib.Core.Logic.{∥∥₁_elim}
use reactivejob_operator.Prelude.{
  String, ◌≡◌, ◌≢◌, refl, ap, sym, ◌∙◌, subst, ◌⊎◌, inl, inr, true, false, List, [], ◌∷◌, ◌++◌, map,
  All, str_eq, arith,
}
use reactivejob_operator.Api.Meta.{NamespacedName, is_zero}
use reactivejob_operator.Api.Types.{Job, ReactiveJob}
use reactivejob_operator.Kube.Server.{
  Server, Call, History, done, get, list, update, update_status, create_job, dry_run_create_job,
  update_job, delete_job,
}
use reactivejob_operator.Kube.Library.{Library, IsLibrary, Outcome, ok}
use reactivejob_operator.Controller.Objects.{
  ReconcileResult, no_result, finalizer, label_controller_uid, older, with_finalizers,
}
use reactivejob_operator.Controller.Newest.{is_readable, newest_first}
use reactivejob_operator.Controller.Reconcile.{acknowledged, reconcile}
use reactivejob_operator.Controller.Safety.{found_jobs}
use reactivejob_operator.Controller.Safety.Terminating.{
  TerminatingCall, reconcile-terminating_calls,
}
use reactivejob_operator.Controller.Runs.{looked_up}
use reactivejob_operator.Controller.Runs.Delete.{IsDrained, reconcile-lets_go, reconcile-drains}

module _ {E : Type 0} where
  abbrev pub names : List (Job E) → List String
  names jobs = map (λ k. k.meta.name) jobs

  abbrev pub MakesNoJob : Call E → Type 0
  MakesNoJob (create_job _) = ⊥
  MakesNoJob _ = Unit

  -- The server returns the object, which is being deleted with the operator's finalizer and no other, and
  -- lists the jobs, with readable generations. No job appears but by a creation, and a listed job whose
  -- release and deletion were asked for is gone by the next run.
  pub record Drains (server : Server E) (lib : Library E) (request : NamespacedName) (uid : String)
      (object : History E → ReactiveJob E) (jobs : History E → List (Job E)) : Type 0 where
    pub read : (h : History E) → server.get h request ≡ done (object h)
    pub same_uid : (h : History E) → (object h).meta.uid ≡ uid
    pub seen : (h : History E) → str_eq (object h).status.state "" ≡ false
    pub dying : (h : History E) → is_zero (object h).meta.deletion_timestamp ≡ false
    pub none_foreign : (h : History E) → lib.remove (object h).meta.finalizers finalizer ≡ []
    pub own : (h : History E) → lib.contains (object h).meta.finalizers finalizer ≡ true
    pub accepted : History E → ReactiveJob E → ReactiveJob E
    pub accepts_update :
        (h : History E) (r : ReactiveJob E) → server.update h r ≡ done (accepted h r)
    pub listed :
        (h : History E) → server.list h request.namespace label_controller_uid uid ≡ done (jobs h)
    pub readable : (h : History E) (k : Job E) → Mem k (jobs h) → is_readable k ≡ true
    pub none_new :
        (h : History E) (call : Call E)
        → MakesNoJob call
        → (n : String) → Mem n (names (jobs (call ∷ h)))
        → Mem n (names (jobs h))
    pub gone :
        (h calls : History E) (k : Job E)
        → Mem k (jobs h)
        → IsDrained lib (calls ++ h) k
        → Mem k.meta.name (names (jobs (get request ∷ calls ++ h)))
        → ⊥

  -- The run takes the operator's finalizer off the object, and ends.
  abbrev pub TakesOff : Server E → Library E → NamespacedName → ReactiveJob E → History E → Type 0
  TakesOff server lib request r h = reconcile server lib request h ≡ (
    ok no_result,
    update (with_finalizers (lib.remove_finalizer r.meta.finalizers finalizer) (acknowledged r))
        ∷ looked_up request r h,
  )
