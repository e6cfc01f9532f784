-- ===== src/Controller/Watch/Events.antt =====
-- Which events lead to a run, and of which ReactiveJob.
use reactivejob_operator.Prelude.{
  String, ◌≡◌, ◌≢◌, refl, ◌∙◌, ap, true, some, [], ◌∷◌, if◌then◌else◌, ◌||◌, Bool-cases, inl, inr,
}
use reactivejob_operator.Api.Meta.{map_get}
use reactivejob_operator.Api.Types.{ReactiveJob, ReactiveJobStatus}
use reactivejob_operator.Controller.Watch.{
  Watching, IsWatching, Event, created, updated, deleted, subject, request_for, Controller,
  reactive_job_predicate, setup_with_manager,
}

module _ {E : Type 0} where
  -- What the controller does with the events of ReactiveJobs.
  abbrev pub Notices : Controller E → Type 0
  Notices c =
      ((old : ReactiveJob E) (status : ReactiveJobStatus)
        → c.reactive_job_requests (updated old (record old { status = status })) ≡ [])
      × ((old new : ReactiveJob E)
          → old.meta.generation ≢ new.meta.generation
          → c.reactive_job_requests (updated old new) ≡ request_for new.meta ∷ [])
      × ((old new : ReactiveJob E) (k : String)
          → map_get old.meta.annotations k ≢ map_get new.meta.annotations k
          → c.reactive_job_requests (updated old new) ≡ request_for new.meta ∷ [])
      × ((r : ReactiveJob E)
          → (c.reactive_job_requests (created r) ≡ request_for r.meta ∷ [])
            × (c.reactive_job_requests (deleted r) ≡ request_for r.meta ∷ []))

module _ {E : Type 0} (w : Watching E) (laws : IsWatching w) where
  -- Either predicate lets the event through.
  requests_if :
      (e : Event (ReactiveJob E))
      → w.for_requests (reactive_job_predicate w) e ≡ (
          if w.generation_changed e || w.annotation_changed e
          then request_for (subject e).meta ∷ []
          else [])
  requests_if e =
      laws.for_object (reactive_job_predicate w) e
      ∙ ap (λ b. if b then request_for (subject e).meta ∷ [] else [])
          (laws.or_either w.generation_changed w.annotation_changed e)

  requests-generation :
      (e : Event (ReactiveJob E))
      → w.generation_changed e ≡ true
      → w.for_requests (reactive_job_predicate w) e ≡ request_for (subject e).meta ∷ []
  requests-generation e passes = rw (requests_if e, passes) refl

  requests-annotation :
      (e : Event (ReactiveJob E))
      → w.annotation_changed e ≡ true
      → w.for_requests (reactive_job_predicate w) e ≡ request_for (subject e).meta ∷ []
  requests-annotation e passes = elim (Bool-cases (w.generation_changed e)) [
    | inl first ↦ requests-generation e first
    | inr other ↦ rw (requests_if e, other, passes) refl
  ]

  -- The generation of an update is unchanged, and its annotations are.
  requests-unchanged :
      (old new : ReactiveJob E)
      → old.meta.generation ≡ new.meta.generation
      → old.meta.annotations ≡ new.meta.annotations
      → w.for_requests (reactive_job_predicate w) (updated old new) ≡ []
  requests-unchanged old new same same' =
      elim (Bool-cases (w.generation_changed (updated old new))) [
        | inl passes ↦ absurd ((laws.generation_iff old new).0 passes same)
        | inr stays ↦
            rw (requests_if (updated old new), stays, laws.annotation_same old new same') refl
      ]

  -- The controller is set up. It does not run for an update of a ReactiveJob that changes the status
  -- alone; it runs for the ReactiveJob of an update in which the generation or the value of an
  -- annotation differs, and of a creation or a deletion.
  pub setup_with_manager-Notices : (c : Controller E) × (setup_with_manager w ≡ some c) × Notices c
  unfolding setup_with_manager
  setup_with_manager-Notices =
      let (p, made, tested) = laws.label_exists in
      rw made (
        _,
        refl,
        (
          λ old status. requests-unchanged old _ refl refl,
          λ old new differ.
              requests-generation (updated old new) ((laws.generation_iff old new).1 differ),
          λ old new k differ.
              requests-annotation (updated old new) (laws.annotation_differs old new k differ),
          λ r. (
            requests-generation (created r) (laws.generation_rest r).0,
            requests-generation (deleted r) (laws.generation_rest r).1,
          ),
        ),
      )
