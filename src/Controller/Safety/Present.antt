-- ===== src/Controller/Safety/Present.antt =====
-- The calls of a run for a ReactiveJob that is not being deleted.
use mathlib.Core.List.{Mem}
use mathlib.Core.Bool.{false≢true}
use reactivejob_operator.Prelude.{
  String, true, ◌≡◌, ◌≢◌, refl, ap, sym, ◌∙◌, List, [], ◌∷◌, str_eq, eq_iff,
}
use reactivejob_operator.Api.Meta.{NamespacedName, map_get, is_zero}
use reactivejob_operator.Api.Meta.Maps.{map_get-insert_self}
use reactivejob_operator.Api.Types.{Job, ReactiveJob}
use reactivejob_operator.Kube.Server.{
  Server, Call, History, done, get, list, update, update_status, create_job, dry_run_create_job,
  update_job, delete_job,
}
use reactivejob_operator.Kube.Library.{Library, Outcome, ok, err, panic}
use reactivejob_operator.Webhook.{default}
use reactivejob_operator.Controller.Monad.{Frame}
use reactivejob_operator.Controller.Objects.{
  finalizer, label_controller_uid, annotation_controller_hash, new_job, release, with_finalizers,
}
use reactivejob_operator.Controller.Emits.{Emits, Emits-lift, Emits-if, Emits-bind, Emits-get_job}
use reactivejob_operator.Controller.Steps.{create_or_report, reconcile_present}
use reactivejob_operator.Controller.Reconcile.{
  reconcile_jobs, reconcile_body, acknowledged, start, reconcile,
}
use reactivejob_operator.Controller.Safety.{found_jobs, Emits-reconcile_body, Adds, reconcile-Adds}
use reactivejob_operator.Controller.Calls.{
  Emits-ensure_finalizer, Emits-create_from_template, Emits-release_jobs, Emits-report_current,
}

module _ {E : Type 0} (server : Server E) (lib : Library E) where
  -- A job may be created where there is none yet, or the newest was made for another hash than the
  -- one that the new job records.
  abbrev pub MayCreate : Outcome (List (Job E)) → Job E → Type 0
  MayCreate (ok []) job = Unit
  MayCreate (ok (current ∷ old)) job =
      map_get current.meta.annotations annotation_controller_hash
      ≢ map_get job.meta.annotations annotation_controller_hash
  MayCreate (err e) job = ⊥
  MayCreate panic job = ⊥

  -- A job may be released if it is not the newest.
  abbrev pub MayRelease : Outcome (List (Job E)) → Job E → Type 0
  MayRelease (ok []) job = ⊥
  MayRelease (ok (current ∷ old)) job = (k : Job E) × Mem k old × (job ≡ release lib k)
  MayRelease (err e) job = ⊥
  MayRelease panic job = ⊥

  -- The calls of a run for a ReactiveJob `r` that is not being deleted.
  abbrev pub PresentCall : ReactiveJob E → String → Outcome (List (Job E)) → Call E → Type 0
  PresentCall r namespace found (get _) = ⊥
  PresentCall r namespace found (list ns key value) =
      (ns ≡ namespace) × (key ≡ label_controller_uid) × (value ≡ r.meta.uid)
  PresentCall r namespace found (update r') =
      r' ≡ with_finalizers (lib.add_finalizer r.meta.finalizers finalizer) (acknowledged r)
  PresentCall r namespace found (update_status _) = Unit
  PresentCall r namespace found (create_job job) =
      MayCreate found job × (job.meta.namespace ≡ namespace)
  PresentCall r namespace found (dry_run_create_job _) = ⊥
  PresentCall r namespace found (update_job job) = MayRelease found job
  PresentCall r namespace found (delete_job _) = ⊥

  pub hash-new_job :
      (namespace : String) (r : ReactiveJob E) (hash : String)
      → map_get (new_job lib namespace r hash).meta.annotations annotation_controller_hash ≡ hash
  unfolding new_job
  hash-new_job namespace r hash = map_get-insert_self annotation_controller_hash hash _

  Emits-create_or_report :
      (r : ReactiveJob E) (namespace hash : String) (jobs : List (Job E)) (f : Frame E)
      → Emits
          (PresentCall r namespace (ok jobs))
          (create_or_report server lib namespace hash jobs)
          f
  unfolding create_or_report
  Emits-create_or_report r namespace hash [] f =
      Emits-create_from_template server lib namespace hash f (tt, unfold new_job in refl)
  Emits-create_or_report r namespace hash (current ∷ old) f =
      Emits-if (str_eq (map_get current.meta.annotations annotation_controller_hash) hash) _ _ f
        (λ _.
          Emits-bind _ _ f (Emits-release_jobs server lib old f (λ k m. (k, m, refl)))
            λ _ _. Emits-report_current server lib current _)
        (λ other. Emits-create_from_template server lib namespace hash f (
          rw hash-new_job (λ e. false≢true (sym other ∙ (eq_iff _ _).1 e)),
          unfold new_job in refl,
        ))

  Emits-reconcile_present :
      (r : ReactiveJob E) (namespace : String) (jobs : List (Job E)) (f : Frame E)
      → f.reactive_job ≡ acknowledged r
      → Emits (PresentCall r namespace (ok jobs)) (reconcile_present server lib namespace jobs) f
  unfolding reconcile_present acknowledged default
  Emits-reconcile_present r namespace jobs f same =
      Emits-bind _ _ f (Emits-ensure_finalizer server lib f (rw same refl)) λ _ _.
        Emits-get_job _ _ (
          Emits-bind _ _ _ (Emits-lift _ _)
            λ hash _. Emits-create_or_report r namespace hash jobs _)

  Emits-present :
      (request : NamespacedName) (r : ReactiveJob E) (h : History E)
      → is_zero r.meta.deletion_timestamp ≡ true
      → Emits
          (PresentCall r request.namespace (found_jobs server lib request r h))
          (reconcile_body server lib request.namespace)
          (start r (get request ∷ h))
  unfolding start acknowledged default
  Emits-present request r h alive =
      Emits-reconcile_body server lib request.namespace (start r (get request ∷ h))
        (refl, refl, refl)
        λ jobs g found same. rw found (
          unfold reconcile_jobs in
          Emits-get_job _ g (
            Emits-if (is_zero g.reactive_job.meta.deletion_timestamp) _ _ g
              (λ _. Emits-reconcile_present r request.namespace jobs g same)
              (λ dying. absurd (
                false≢true (
                  sym dying
                  ∙ ap (λ (x : ReactiveJob E). is_zero x.meta.deletion_timestamp) same
                  ∙ alive)))))

  -- A run for a ReactiveJob that is not being deleted lists the jobs with its UID; sends no
  -- update of the object but one as it was read, with its generation acknowledged in the status and the
  -- operator's finalizer added; releases none but older jobs; deletes no job; and creates one only
  -- if there is none yet or the newest records another hash than the new one.
  pub reconcile-present_calls :
      (request : NamespacedName) (r : ReactiveJob E) (h : History E)
      → server.get h request ≡ done r
      → is_zero r.meta.deletion_timestamp ≡ true
      → Adds server lib
          (PresentCall r request.namespace (found_jobs server lib request r h))
          (reconcile server lib request h)
          (get request ∷ h)
  reconcile-present_calls request r h read alive =
      reconcile-Adds server lib request r h read (λ _. tt) (Emits-present request r h alive)
