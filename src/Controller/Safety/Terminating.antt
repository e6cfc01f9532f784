-- ===== src/Controller/Safety/Terminating.antt =====
-- The calls of a run for a ReactiveJob that is being deleted.
use mathlib.Core.List.{Mem}
use mathlib.Core.Bool.{false≢true}
use reactivejob_operator.Prelude.{String, true, false, ◌≡◌, ◌≢◌, refl, ap, sym, ◌∙◌, List, [], ◌∷◌}
use reactivejob_operator.Api.Meta.{NamespacedName, is_zero}
use reactivejob_operator.Api.Types.{Job, ReactiveJob}
use reactivejob_operator.Kube.Server.{
  Server, Call, History, done, get, list, update, update_status, create_job, dry_run_create_job,
  update_job, delete_job,
}
use reactivejob_operator.Kube.Library.{Library, Outcome, ok}
use reactivejob_operator.Webhook.{default}
use reactivejob_operator.Controller.Monad.{Frame}
use reactivejob_operator.Controller.Objects.{finalizer, label_controller_uid, release}
use reactivejob_operator.Controller.Emits.{Emits, Emits-pure, Emits-if, Emits-bind, Emits-get_job}
use reactivejob_operator.Controller.Steps.{
  reconcile_deleting, deletion_blocked, reconcile_terminating,
}
use reactivejob_operator.Controller.Reconcile.{
  reconcile_jobs, reconcile_body, acknowledged, start, reconcile,
}
use reactivejob_operator.Controller.Safety.{found_jobs, Emits-reconcile_body, Adds, reconcile-Adds}
use reactivejob_operator.Controller.Calls.{
  Emits-set_state_now, Emits-clear_finalizer, Emits-delete_jobs, Emits-skip_status,
}

module _ {E : Type 0} (server : Server E) (lib : Library E) where
  -- The calls of a run for a ReactiveJob `r` that is being deleted.
  abbrev pub TerminatingCall : ReactiveJob E → String → Outcome (List (Job E)) → Call E → Type 0
  TerminatingCall r namespace found (get _) = ⊥
  TerminatingCall r namespace found (list ns key value) =
      (ns ≡ namespace) × (key ≡ label_controller_uid) × (value ≡ r.meta.uid)
  TerminatingCall r namespace found (update r') =
      (lib.remove r.meta.finalizers finalizer ≡ [])
      × (found ≡ ok [])
      × (r'.meta.finalizers ≡ lib.remove_finalizer r.meta.finalizers finalizer)
  TerminatingCall r namespace found (update_status _) = Unit
  TerminatingCall r namespace found (create_job _) = ⊥
  TerminatingCall r namespace found (dry_run_create_job _) = ⊥
  TerminatingCall r namespace found (update_job job) =
      (lib.remove r.meta.finalizers finalizer ≡ [])
      × ((jobs : List (Job E)) × (k : Job E) × (found ≡ ok jobs)
          × Mem k jobs
          × (job ≡ release lib k))
  TerminatingCall r namespace found (delete_job job) =
      (lib.remove r.meta.finalizers finalizer ≡ [])
      × (found ≢ ok [])
      × (is_zero job.meta.deletion_timestamp ≡ true)

  Emits-reconcile_deleting :
      (r : ReactiveJob E) (namespace : String) (jobs : List (Job E)) (f : Frame E)
      → f.reactive_job.meta ≡ r.meta
      → lib.remove r.meta.finalizers finalizer ≡ []
      → Emits (TerminatingCall r namespace (ok jobs)) (reconcile_deleting server lib jobs) f
  unfolding reconcile_deleting
  Emits-reconcile_deleting r namespace [] f same none_foreign =
      Emits-bind _ _ f (Emits-clear_finalizer server lib f (none_foreign, refl, rw same refl))
        λ _ _. Emits-bind _ _ _ (Emits-skip_status server lib _) λ _ _. Emits-pure _ _
  Emits-reconcile_deleting r namespace (job ∷ jobs) f same none_foreign =
      Emits-bind _ _ f
        (Emits-delete_jobs server lib (job ∷ jobs) f
          (λ k m. (none_foreign, (job ∷ jobs, k, refl, m, refl)))
          λ k alive. (none_foreign, (λ e. cc e), alive))
        λ _ _. Emits-bind _ _ _ (Emits-set_state_now server lib _ _ _) λ _ _. Emits-pure _ _

  Emits-reconcile_terminating :
      (r : ReactiveJob E) (namespace : String) (foreign : List String) (jobs : List (Job E))
      (f : Frame E)
      → f.reactive_job.meta ≡ r.meta
      → lib.remove r.meta.finalizers finalizer ≡ foreign
      → Emits
          (TerminatingCall r namespace (ok jobs))
          (reconcile_terminating server lib foreign jobs)
          f
  unfolding reconcile_terminating deletion_blocked
  Emits-reconcile_terminating r namespace [] jobs f same e =
      Emits-reconcile_deleting r namespace jobs f same e
  Emits-reconcile_terminating r namespace (_ ∷ _) jobs f same e =
      Emits-bind _ _ f (Emits-set_state_now server lib _ _ f) λ _ _. Emits-pure _ _

  Emits-terminating :
      (request : NamespacedName) (r : ReactiveJob E) (h : History E)
      → is_zero r.meta.deletion_timestamp ≡ false
      → Emits
          (TerminatingCall r request.namespace (found_jobs server lib request r h))
          (reconcile_body server lib request.namespace)
          (start r (get request ∷ h))
  unfolding start acknowledged default
  Emits-terminating request r h dying =
      Emits-reconcile_body server lib request.namespace (start r (get request ∷ h))
        (refl, refl, refl)
        λ jobs g found same. rw found (
          unfold reconcile_jobs in
          Emits-get_job _ g (
            Emits-if (is_zero g.reactive_job.meta.deletion_timestamp) _ _ g
              (λ alive. absurd (
                false≢true (
                  sym dying
                  ∙ sym (ap (λ (x : ReactiveJob E). is_zero x.meta.deletion_timestamp) same)
                  ∙ alive)))
              (λ _.
                Emits-reconcile_terminating r request.namespace _ jobs g
                  (ap (λ (x : ReactiveJob E). x.meta) same)
                  (ap (λ (x : ReactiveJob E). lib.remove x.meta.finalizers finalizer) (sym same)))))

  -- A run for a ReactiveJob that is being deleted creates no job. It touches a job or the object only
  -- where no foreign finalizer is left; it then takes its finalizer off the object only where it found
  -- no job, and deletes a job only where it found some and the job is not being deleted yet.
  pub reconcile-terminating_calls :
      (request : NamespacedName) (r : ReactiveJob E) (h : History E)
      → server.get h request ≡ done r
      → is_zero r.meta.deletion_timestamp ≡ false
      → Adds server lib
          (TerminatingCall r request.namespace (found_jobs server lib request r h))
          (reconcile server lib request h)
          (get request ∷ h)
  reconcile-terminating_calls request r h read dying =
      reconcile-Adds server lib request r h read (λ _. tt) (Emits-terminating request r h dying)
