-- ===== src/Controller/NewJob.antt =====
-- The job that `Reconcile` creates: it is found again by its labels, its annotation is read back, and
-- it is the one that the validation tried.
use mathlib.Core.List.{Mem}
use mathlib.Core.Logic.Or
use reactivejob_operator.Prelude.{str_eq, false, some, none, String, ◌≡◌, refl, ◌∙◌, [], ◌∷◌}
use reactivejob_operator.Strconv.{format_int}
use reactivejob_operator.Strconv.RoundTrip.{InRange, atoi-format_int}
use reactivejob_operator.Api.Meta.{StringMap, insert, lookup, map_get}
use reactivejob_operator.Api.Meta.Maps.{map_get-insert_self, map_get-insert_ne}
use reactivejob_operator.Api.Types.{ReactiveJob}
use reactivejob_operator.Kube.Library.{Library, IsLibrary, ok}
use reactivejob_operator.Webhook.{probe_job}
use reactivejob_operator.Controller.Hash.{must_atoi}
use reactivejob_operator.Controller.Objects.{
  finalizer, label_controller_uid, label_controller_name, annotation_controller_generation,
  annotation_controller_hash, generation_of, new_job, made,
}
use reactivejob_operator.Controller.Reconcile.{job_enqueue_mapper}

module _ {E : Type 0} (lib : Library E) (namespace hash : String) (r : ReactiveJob E) where
  -- The selector of `list_jobs` selects the job.
  label_uid-new_job :
      map_get (new_job lib namespace r hash).meta.labels label_controller_uid ≡ r.meta.uid
  unfolding new_job
  label_uid-new_job =
      map_get-insert_ne label_controller_name label_controller_uid r.meta.name _ refl
      ∙ map_get-insert_self label_controller_uid r.meta.uid _

  pub label_name-new_job :
      map_get (new_job lib namespace r hash).meta.labels label_controller_name ≡ r.meta.name
  unfolding new_job
  label_name-new_job = map_get-insert_self label_controller_name r.meta.name _

  generation-new_job : generation_of (new_job lib namespace r hash) ≡ format_int r.meta.generation
  unfolding new_job
  generation-new_job =
      map_get-insert_ne annotation_controller_hash annotation_controller_generation hash _ refl
      ∙ map_get-insert_self annotation_controller_generation (format_int r.meta.generation) _

  -- `mustAtoi` reads the generation of the ReactiveJob back from a job that was created for it, for
  -- every int64; and the event of such a job leads to the ReactiveJob, whose selector finds the job.
  pub new_job-found :
      InRange r.meta.generation
      → (must_atoi (generation_of (new_job lib namespace r hash)) ≡ ok r.meta.generation)
        × (job_enqueue_mapper (new_job lib namespace r hash)
            ≡ record { namespace = namespace; name = r.meta.name } ∷ [])
        × (map_get (new_job lib namespace r hash).meta.labels label_controller_uid ≡ r.meta.uid)
        × ((new_job lib namespace r hash).meta.namespace ≡ namespace)
  unfolding must_atoi job_enqueue_mapper
  new_job-found fits = (
    rw (generation-new_job) (rw (atoi-format_int r.meta.generation fits) refl),
    rw label_name-new_job (unfold new_job in refl),
    label_uid-new_job,
    unfold new_job in refl,
  )

  -- The job that is created carries the operator's finalizer.
  pub finalizer-new_job :
      IsLibrary lib → Mem finalizer (new_job lib namespace r hash).meta.finalizers
  unfolding new_job
  finalizer-new_job laws = (laws.mem-add_finalizer _ _ _).1 (Or.inr refl)

  map_get-made : (k : String) (m : StringMap) → map_get (some (made m)) k ≡ map_get m k
  unfolding lookup
  map_get-made k none = refl
  map_get-made k (some m) = refl

  map_get-two :
      (i v j w k : String) (m : StringMap)
      → str_eq i k ≡ false
      → str_eq j k ≡ false
      → map_get (some (insert i v (insert j w (made m)))) k ≡ map_get m k
  map_get-two i v j w k m other other' =
      map_get-insert_ne i k v _ other ∙ map_get-insert_ne j k w _ other' ∙ map_get-made k m

  -- The job that the validation tries is the one that is created later, in the namespace of the
  -- ReactiveJob: both have the same specification, and the same labels and annotations at every key
  -- that is not the operator's own.
  pub new_job-probe_job :
      (k : String)
      → str_eq label_controller_name k ≡ false
      → str_eq label_controller_uid k ≡ false
      → str_eq annotation_controller_hash k ≡ false
      → str_eq annotation_controller_generation k ≡ false
      → ((new_job lib r.meta.namespace r hash).spec ≡ (probe_job r).spec)
        × ((new_job lib r.meta.namespace r hash).meta.namespace ≡ (probe_job r).meta.namespace)
        × (map_get (new_job lib r.meta.namespace r hash).meta.labels k
            ≡ map_get (probe_job r).meta.labels k)
        × (map_get (new_job lib r.meta.namespace r hash).meta.annotations k
            ≡ map_get (probe_job r).meta.annotations k)
  unfolding new_job probe_job
  new_job-probe_job k not_name not_uid not_hash not_generation = (
    refl,
    refl,
    map_get-two label_controller_name r.meta.name label_controller_uid r.meta.uid k
        r.spec.job_template.meta.labels not_name not_uid,
    map_get-two annotation_controller_hash hash annotation_controller_generation
        (format_int r.meta.generation) k r.spec.job_template.meta.annotations not_hash
        not_generation,
  )
