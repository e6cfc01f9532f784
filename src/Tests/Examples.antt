-- ===== src/Tests/Examples.antt =====
-- The theorems at concrete inputs.
use mathlib.Core.List.{Memᴰ, Mem, Perm}
use mathlib.Core.Bool.{false≢true}
use reactivejob_operator.Prelude.{◌*◌, ◌≡◌, ◌≢◌, refl, List, [], ◌∷◌, ◌++◌, All, arith, eq_iff}
use reactivejob_operator.Prelude.Int.{pos, ◌≤ℤ◌}
use reactivejob_operator.Strconv.{atoi}
use reactivejob_operator.Api.Meta.{map_get, lookup}
use reactivejob_operator.Api.Types.{Job}
use reactivejob_operator.Kube.Server.{Server, History, get, update, update_status}
use reactivejob_operator.Kube.Library.{ok, panic}
use reactivejob_operator.Webhook.{probe_job}
use reactivejob_operator.Controller.Hash.{must_atoi, json_hash}
use reactivejob_operator.Controller.Objects
use reactivejob_operator.Controller.Objects.{
  finalizer, label_controller_uid, label_controller_name, generation_of, older, new_job,
  shared_template, report, requeue_in, no_result, second, with_finalizers,
}
use reactivejob_operator.Controller.Reconcile.{acknowledged, reconcile, job_enqueue_mapper}
use reactivejob_operator.Controller.Safety.{found_jobs, Adds}
use reactivejob_operator.Controller.Safety.Present.{PresentCall, reconcile-present_calls}
use reactivejob_operator.Controller.Safety.Terminating.{
  TerminatingCall, reconcile-terminating_calls,
}
use reactivejob_operator.Controller.Runs.{looked_up}
use reactivejob_operator.Controller.Runs.Create.{created_calls, created_object, reconcile-creates}
use reactivejob_operator.Controller.Runs.Settle.{settled_calls, settled_object, reconcile-settles}
use reactivejob_operator.Controller.Runs.Delete.{
  IsDrained, DrainCall, deleting_object, reconcile-drains, reconcile-lets_go,
}
use reactivejob_operator.Controller.Runs.Panic.{reconcile-unreadable}
use reactivejob_operator.Controller.NewJob.{new_job-found, new_job-probe_job}
use reactivejob_operator.Controller.Newest.{newest_first, generation_number}
use reactivejob_operator.Tests.Sorting.{sort}
use reactivejob_operator.Tests.Strings.{contains, remove}
use reactivejob_operator.Tests.Convergence.{two_jobs, two_jobs-readable}
use reactivejob_operator.Tests.Sample.{
  Content, library, library-IsLibrary, sample, dying, job, current_job, old_job, sample_hash,
  server, request, template,
}

hash-template : json_hash library template ≡ ok sample_hash
unfolding json_hash
hash-template = refl

-- Two jobs, the older one listed first.
abbrev both : Server Content
both = server sample (old_job ∷ current_job ∷ [])

sorted_both : library.sort_by older (old_job ∷ current_job ∷ []) ≡ ok (current_job ∷ old_job ∷ [])
unfolding sort older must_atoi atoi lookup
sorted_both = refl

reconcile-present_calls_example :
    Adds both library
      (PresentCall both library sample "default" (found_jobs both library request sample []))
      (reconcile both library request [])
      (get request ∷ [])
reconcile-present_calls_example = reconcile-present_calls both library request sample [] refl refl

abbrev both_dying : Server Content
both_dying = server dying (old_job ∷ current_job ∷ [])

reconcile-terminating_calls_example :
    Adds both_dying library
      (TerminatingCall both_dying library dying "default"
        (found_jobs both_dying library request dying []))
      (reconcile both_dying library request [])
      (get request ∷ [])
reconcile-terminating_calls_example =
    reconcile-terminating_calls both_dying library request dying [] refl refl

old_hash_differs : map_get old_job.meta.annotations Objects.annotation_controller_hash ≢ sample_hash
unfolding lookup
old_hash_differs e = false≢true ((eq_iff "00" "7b7d").1 e)

abbrev only_old : Server Content
only_old = server sample (old_job ∷ [])

reconcile-creates_example : reconcile only_old library request [] ≡ (
  ok (requeue_in (1 * second)),
  update_status (created_object only_old library request sample sample_hash [])
      ∷ created_calls only_old library request sample sample_hash [],
)
unfolding sort contains lookup
reconcile-creates_example =
    reconcile-creates only_old library request sample [] {items = old_job ∷ []} (old_job ∷ [])
      sample_hash {made = new_job library "default" (acknowledged sample) sample_hash} refl refl
      refl refl refl refl hash-template old_hash_differs refl

reconcile-settles_example : reconcile both library request [] ≡ (
  ok (requeue_in (report current_job.conditions).requeue_after),
  update_status (
        settled_object both library
          (λ h k. k)
          (λ h k. refl)
          request
          sample
          current_job
          (old_job ∷ [])
          [])
      ∷ settled_calls both library (λ h k. k) (λ h k. refl) request sample (old_job ∷ []) [],
)
unfolding contains lookup
reconcile-settles_example =
    reconcile-settles both library (λ h k. k) (λ h k. refl) request sample []
      {items = old_job ∷ current_job ∷ []} current_job (old_job ∷ []) sample_hash refl refl refl
      sorted_both refl refl hash-template refl

reconcile-drains_example :
    (calls : History Content) × (reconcile both_dying library request [] ≡ (
      ok (requeue_in (10 * second)),
      update_status (
            deleting_object both_dying library
              (λ h k. k)
              (λ h k. refl)
              (λ h k. refl)
              (λ h k. refl)
              (λ h k. refl)
              (calls ++ looked_up request dying [])
              dying)
          ∷ (calls ++ looked_up request dying []),
    ))
    × All (IsDrained library (calls ++ looked_up request dying [])) (current_job ∷ old_job ∷ [])
    × All (DrainCall library (current_job ∷ old_job ∷ [])) calls
unfolding remove
reconcile-drains_example =
    reconcile-drains both_dying library (λ h k. k) (λ h k. refl) (λ h k. refl) (λ h k. refl)
      (λ h k. refl) request dying [] {items = old_job ∷ current_job ∷ []} current_job (old_job ∷ [])
      refl refl refl sorted_both refl refl

abbrev alone : Server Content
alone = server dying []

reconcile-lets_go_example : reconcile alone library request [] ≡ (
  ok no_result,
  update (with_finalizers (remove (finalizer ∷ []) finalizer) (acknowledged dying))
      ∷ looked_up request dying [],
)
unfolding sort contains remove
reconcile-lets_go_example =
    reconcile-lets_go alone library request dying [] {items = []}
      {stored = with_finalizers [] (acknowledged dying)} refl refl refl refl refl refl refl refl

new_job-found_example :
    (must_atoi (generation_of (new_job library "default" sample sample_hash)) ≡ ok (pos 3))
    × (job_enqueue_mapper (new_job library "default" sample sample_hash) ≡ request ∷ [])
    × (map_get (new_job library "default" sample sample_hash).meta.labels label_controller_uid
        ≡ "u-1")
    × ((new_job library "default" sample sample_hash).meta.namespace ≡ "default")
new_job-found_example = new_job-found library "default" sample_hash sample (omega arith)

-- A job that someone labelled by hand.
abbrev stray_job : Job Content
stray_job = job "stray" "x" "" []

abbrev strayed : Server Content
strayed = server sample (current_job ∷ stray_job ∷ [])

stray-unreadable : must_atoi (generation_of stray_job) ≡ panic
unfolding must_atoi atoi lookup
stray-unreadable = refl

reconcile-unreadable_example :
    reconcile strayed library request []
    ≡ (panic, update_status (acknowledged sample) ∷ looked_up request sample [])
reconcile-unreadable_example =
    reconcile-unreadable strayed library library-IsLibrary request sample []
      (current_job ∷ stray_job ∷ []) stray_job refl refl refl (Memᴰ.tail (Memᴰ.head refl))
      (omega arith) stray-unreadable

newest_first_example :
    (sorted : List (Job Content)) × (library.sort_by older two_jobs ≡ ok sorted)
    × Perm sorted two_jobs
    × ((current : Job Content) (old : List (Job Content))
        → sorted ≡ current ∷ old
        → (x : Job Content) → Mem x two_jobs
        → generation_number x ≤ℤ generation_number current)
newest_first_example = newest_first library library-IsLibrary two_jobs two_jobs-readable

new_job-probe_job_example :
    ((new_job library "default" sample sample_hash).spec ≡ (probe_job sample).spec)
    × ((new_job library "default" sample sample_hash).meta.namespace
        ≡ (probe_job sample).meta.namespace)
    × (map_get (new_job library "default" sample sample_hash).meta.labels "app"
        ≡ map_get (probe_job sample).meta.labels "app")
    × (map_get (new_job library "default" sample sample_hash).meta.annotations "app"
        ≡ map_get (probe_job sample).meta.annotations "app")
new_job-probe_job_example =
    new_job-probe_job library "default" sample_hash sample "app" refl refl refl refl
