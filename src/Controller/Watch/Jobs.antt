-- ===== src/Controller/Watch/Jobs.antt =====
-- Which events of jobs lead to a run, and of which ReactiveJob.
use mathlib.Core.List.{Mem, Mem-prop, mem-cons_self, mem-cons_of_mem}
use mathlib.Core.Logic.{∥∥₁_elim}
use reactivejob_operator.Prelude.{
  String, ◌≡◌, ◌↔◌, refl, sym, ◌∙◌, Bool, true, false, some, [], ◌∷◌, subst,
}
use reactivejob_operator.Api.Meta.{NamespacedName}
use reactivejob_operator.Api.Meta.Maps.{lookup-insert}
use reactivejob_operator.Api.Types.{Job, ReactiveJob}
use reactivejob_operator.Kube.Library.{Library}
use reactivejob_operator.Controller.Objects.{label_controller_name, new_job}
use reactivejob_operator.Controller.NewJob.{label_name-new_job}
use reactivejob_operator.Controller.Reconcile.{job_enqueue_mapper}
use reactivejob_operator.Controller.Watch.{
  Watching, IsWatching, Event, created, updated, deleted, generic, subject, subjects, has_key,
  request_for, Controller, setup_with_manager,
}

subject-Mem : {A : Type 0} (e : Event A) → Mem (subject e) (subjects e)
subject-Mem (created x) = mem-cons_self
subject-Mem (updated old new) = mem-cons_of_mem old mem-cons_self
subject-Mem (deleted x) = mem-cons_self
subject-Mem (generic x) = mem-cons_self

module _ {E : Type 0} (lib : Library E) (r : ReactiveJob E) where
  -- The job has the namespace and the labels that it was created with for the ReactiveJob.
  abbrev pub IsLabelled : Job E → Type 0
  IsLabelled j =
      (j.meta.namespace ≡ r.meta.namespace)
      × (hash : String) × (j.meta.labels ≡ (new_job lib r.meta.namespace r hash).meta.labels)

  mapper-IsLabelled : (j : Job E) → IsLabelled j → job_enqueue_mapper j ≡ request_for r.meta ∷ []
  unfolding job_enqueue_mapper
  mapper-IsLabelled j (namespace, hash, labels) =
      rw (labels, namespace, label_name-new_job lib r.meta.namespace hash r) refl

  has_key-IsLabelled :
      (j : Job E) → IsLabelled j → has_key label_controller_name j.meta.labels ≡ true
  unfolding new_job
  has_key-IsLabelled j (namespace, hash, labels) = rw (labels, lookup-insert) refl

module _ {E : Type 0} where
  -- What the controller does with the events of jobs.
  abbrev pub Follows : Controller E → Type 0
  Follows c =
      ((lib : Library E) (r : ReactiveJob E) (e : Event (Job E)) (q : NamespacedName)
        → ((j : Job E) → Mem j (subjects e) → IsLabelled lib r j)
        → Mem q (c.job_requests e) ↔ Mem q (request_for r.meta ∷ []))
      × ((e : Event (Job E))
          → has_key label_controller_name (subject e).meta.labels ≡ false
          → c.job_requests e ≡ [])

module _ {E : Type 0} (w : Watching E) (laws : IsWatching w) where
  requests-labelled :
      (lib : Library E) (r : ReactiveJob E) (p : Event (Job E) → Bool) (e : Event (Job E))
      (q : NamespacedName)
      → p e ≡ true
      → ((j : Job E) → Mem j (subjects e) → IsLabelled lib r j)
      → Mem q (w.watch_requests job_enqueue_mapper p e) ↔ Mem q (request_for r.meta ∷ [])
  requests-labelled lib r p e q passes labelled =
      let (there, back) = laws.watch_mapped job_enqueue_mapper p e q passes in
      (
        λ m. ∥∥₁_elim (there m) Mem-prop (λ (x, member, found).
            subst (Mem q) (mapper-IsLabelled lib r x (labelled x member)) found),
        λ m. back ∣ (
          subject e,
          subject-Mem e,
          subst (Mem q)
              (sym (mapper-IsLabelled lib r (subject e) (labelled (subject e) (subject-Mem e)))) m,
        ) ∣₁,
      )

  -- The controller is set up. For every event whose jobs carry the namespace and the labels that were
  -- written for a ReactiveJob it requests that ReactiveJob and nothing else; for a job without the
  -- operator's label it requests nothing.
  pub setup_with_manager-Follows : (c : Controller E) × (setup_with_manager w ≡ some c) × Follows c
  unfolding setup_with_manager
  setup_with_manager-Follows =
      let (p, made, tested) = laws.label_exists in
      rw made (
        _,
        refl,
        (
          λ lib r e q labelled.
              requests-labelled lib r p e q
                (tested e
                  ∙ has_key-IsLabelled lib r (subject e) (labelled (subject e) (subject-Mem e)))
                labelled,
          λ e missing. laws.watch_filtered job_enqueue_mapper p e (tested e ∙ missing),
        ),
      )
