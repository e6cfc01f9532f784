-- ===== src/Controller/Calls.antt =====
-- The calls that each step of `Reconcile` can make, for any predicate on calls.
use mathlib.Core.List.{Mem, mem-cons_self, mem-cons_of_mem}
use reactivejob_operator.Prelude.{String, true, ◌≡◌, refl, List, [], ◌∷◌, not}
use reactivejob_operator.Api.Meta.{is_zero}
use reactivejob_operator.Api.Types.{Job}
use reactivejob_operator.Kube.Server.{Server, Call, update, create_job, update_job, delete_job}
use reactivejob_operator.Kube.Library.{Library}
use reactivejob_operator.Controller.Monad.{Frame, modify_job}
use reactivejob_operator.Controller.Objects.{finalizer, new_job, with_finalizers, release}
use reactivejob_operator.Controller.Emits.{
  Emits, Emits-pure, Emits-perform, Emits-if, Emits-bind, Emits-get_job, Emits-modify,
  Emits-modify_job,
}
use reactivejob_operator.Controller.Steps.{
  set_state_now, update_reactive_job, ensure_finalizer, clear_finalizer, create_from_template,
  release_job, release_jobs, report_current, delete_released, delete_jobs, skip_status,
}

module _ {E : Type 0} (server : Server E) (lib : Library E) {P : Call E → Type 0} where
  pub Emits-set_state_now :
      (state message : String) (f : Frame E) → Emits P (set_state_now server lib state message) f
  unfolding set_state_now modify_job
  Emits-set_state_now state message f = record { calls = []; added = refl; all = tt }

  Emits-update_reactive_job :
      (message : String) (f : Frame E)
      → P (update f.reactive_job)
      → Emits P (update_reactive_job server lib message) f
  unfolding update_reactive_job
  Emits-update_reactive_job message f p =
      Emits-get_job _ f
        (Emits-bind _ _ f (Emits-perform _ _ message f p) (λ r e. Emits-modify_job _ _))

  pub Emits-ensure_finalizer :
      (f : Frame E)
      → P (
          update (
            with_finalizers
              (lib.add_finalizer f.reactive_job.meta.finalizers finalizer)
              f.reactive_job))
      → Emits P (ensure_finalizer server lib) f
  unfolding ensure_finalizer
  Emits-ensure_finalizer f p = Emits-get_job _ f (
      Emits-if (lib.contains f.reactive_job.meta.finalizers finalizer) _ _ f (λ _. Emits-pure tt f)
        (λ _. Emits-modify _ _ f (Emits-update_reactive_job _ _ p)))

  pub Emits-clear_finalizer :
      (f : Frame E)
      → P (
          update (
            with_finalizers
              (lib.remove_finalizer f.reactive_job.meta.finalizers finalizer)
              f.reactive_job))
      → Emits P (clear_finalizer server lib) f
  unfolding clear_finalizer
  Emits-clear_finalizer f p = Emits-get_job _ f (
      Emits-if (not (lib.contains f.reactive_job.meta.finalizers finalizer)) _ _ f
        (λ _. Emits-pure tt f) (λ _. Emits-modify _ _ f (Emits-update_reactive_job _ _ p)))

  pub Emits-create_from_template :
      (namespace hash : String) (f : Frame E)
      → P (create_job (new_job lib namespace f.reactive_job hash))
      → Emits P (create_from_template server lib namespace hash) f
  unfolding create_from_template
  Emits-create_from_template namespace hash f p = Emits-get_job _ f (
      Emits-modify _ _ f (
        Emits-bind _ _ _ (Emits-perform _ _ _ _ p)
          λ _ _. Emits-bind _ _ _ (Emits-set_state_now _ _ _) λ _ _. Emits-pure _ _))

  pub Emits-release_job :
      (job : Job E) (f : Frame E)
      → P (update_job (release lib job))
      → Emits P (release_job server lib job) f
  unfolding release_job
  Emits-release_job job f p =
      Emits-if (lib.contains job.meta.finalizers finalizer) _ _ f (λ _. Emits-perform _ _ _ f p)
        (λ _. Emits-pure job f)

  pub Emits-release_jobs :
      (jobs : List (Job E)) (f : Frame E)
      → ((k : Job E) → Mem k jobs → P (update_job (release lib k)))
      → Emits P (release_jobs server lib jobs) f
  unfolding release_jobs
  Emits-release_jobs [] f p = Emits-pure tt f
  Emits-release_jobs (job ∷ jobs) f p =
      Emits-bind _ _ f (Emits-release_job job f (p job (mem-cons_self)))
        λ _ _. Emits-release_jobs jobs _ (λ k m. p k (mem-cons_of_mem job m))

  pub Emits-report_current : (job : Job E) (f : Frame E) → Emits P (report_current server lib job) f
  unfolding report_current
  Emits-report_current job f =
      Emits-modify _ _ f (Emits-bind _ _ _ (Emits-set_state_now _ _ _) λ _ _. Emits-pure _ _)

  pub Emits-delete_released :
      (job : Job E) (f : Frame E)
      → (is_zero job.meta.deletion_timestamp ≡ true → P (delete_job job))
      → Emits P (delete_released server lib job) f
  unfolding delete_released
  Emits-delete_released job f p =
      Emits-if (is_zero job.meta.deletion_timestamp) _ _ f (λ e. Emits-perform _ _ _ f (p e))
        (λ _. Emits-pure tt f)

  pub Emits-delete_jobs :
      (jobs : List (Job E)) (f : Frame E)
      → ((k : Job E) → Mem k jobs → P (update_job (release lib k)))
      → ((k : Job E) → is_zero k.meta.deletion_timestamp ≡ true → P (delete_job k))
      → Emits P (delete_jobs server lib jobs) f
  unfolding delete_jobs
  Emits-delete_jobs [] f p q = Emits-pure tt f
  Emits-delete_jobs (job ∷ jobs) f p q =
      Emits-bind _ _ f
        (Emits-bind _ _ f (Emits-release_job job f (p job mem-cons_self))
          λ j _. Emits-delete_released j _ (q j))
        λ _ _. Emits-delete_jobs jobs _ (λ k m. p k (mem-cons_of_mem job m)) q

  pub Emits-skip_status : (f : Frame E) → Emits P (skip_status server lib) f
  unfolding skip_status
  Emits-skip_status f = record { calls = []; added = refl; all = tt }
