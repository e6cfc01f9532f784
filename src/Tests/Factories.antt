-- ===== src/Tests/Factories.antt =====
-- The theorems on the informer factory at a cache that counts: the world is the number of informers
-- that were made, and an informer is the number it was made with.
use reactivejob_operator.Prelude.{
  List, inl, [], length, arith, ℕ, ◌+◌, ◌≤◌, ◌≡◌, ◌≢◌, ◌⊎◌, refl, String, false, ◌||◌, none, some,
  ltb, if◌then◌else◌, true,
}
use reactivejob_operator.Prelude.Int.{pos}
use reactivejob_operator.Informers.Registry.{find, put, is_some}
use reactivejob_operator.Informers.Factory.{
  Cache, Factory, new_factory, NewInformerFunc, is_started, informer_for, start_with_context,
  start_one, start_each, shutdown, wait_for_cache_sync_with_context, new_with_options,
}
use reactivejob_operator.Informers.Lifecycle.{
  step, stop, starting, asking, IsAmong, goroutines_of, run_of, Starts,
}
use reactivejob_operator.Informers.Lifecycle.Starts.{at_most_one_run, shutdown-final, start-runs}
use reactivejob_operator.Informers.Lifecycle.Shared.{informer_for-shared}
use reactivejob_operator.Informers.ReactiveJobs.{
  ClientGo, reactive_jobs, reactive_jobs_of, informer, for_resource,
}
use reactivejob_operator.Informers.ReactiveJobs.Shared.{for_resource-shared}
use reactivejob_operator.Informers.Sync.Reports.{IsReport, wait_for_cache_sync-IsReport}

abbrev pub counting : Cache
counting = record {
  Client = Unit {0};
  Tweak = Unit {0};
  Transform = Unit {0};
  Identity = Unit {0};
  Context = Unit {0};
  Failure = String;
  Informer = ℕ;
  World = ℕ;
  go_run = λ ctx informer w. w;
  set_transform = λ informer transform w. w;
  wait_for = λ ctx informers w. w;
  has_synced = λ informer w. (ltb informer 1, w);
  cause = λ ctx w. some "cancelled";
  await = λ w. w;
  release = λ identity w. w;
  order = λ w m. m;
}

abbrev pub counted : NewInformerFunc counting
counted client resync w = (w, w + 1)

abbrev pub new : Factory counting × ℕ
new = (new_factory counting tt (pos 30), 0)

-- Two informers, of which only the first has synced.
abbrev pub two : Factory counting × ℕ
two = (informer_for counting "Job" counted (informer_for counting "ReactiveJob" counted new).1).1

abbrev running : Factory counting × ℕ
running = start_with_context counting tt two

at_most_one_run_example :
    length (
      goroutines_of counting "Job"
        (start_with_context counting tt (start_with_context counting tt two)).0.wg)
    ≤ 1
at_most_one_run_example =
    at_most_one_run counting tt (pos 30) 0
      {s = start_with_context counting tt (start_with_context counting tt two)}
      (step (asking "ReactiveJob" counted new) (
        step (asking "Job" counted (informer_for counting "ReactiveJob" counted new).1) (
          step (starting tt two)
            (step (starting tt (start_with_context counting tt two)) (stop _)))))
      "Job"

abbrev closing_down : Factory counting × ℕ
closing_down = (record (running.0) { shutting_down = true }, running.1)

shutdown-final_example :
    IsAmong counting (start_with_context counting tt closing_down).0.wg running.0.wg
    × ((shutdown counting running).0.wg ≡ [])
    × ((start_with_context counting tt (shutdown counting running)).0.wg ≡ [])
shutdown-final_example =
    shutdown-final counting running {s' = start_with_context counting tt closing_down}
      {s'' = start_with_context counting tt (shutdown counting running)}
      (step (starting tt closing_down) (stop _))
      (step (starting tt (shutdown counting running)) (stop _))

start-runs_example :
    Starts counting tt two two.0.informers (start_with_context counting tt two)
    × ((t : String)
        → goroutines_of counting t (start_with_context counting tt two).0.wg ≡ (
            if is_started counting two.0 t
            then goroutines_of counting t two.0.wg
            else run_of counting tt t (find t two.0.informers)))
    × ((t : String)
        → is_started counting (start_with_context counting tt two).0 t
          ≡ (is_started counting two.0 t || is_some (find t two.0.informers)))
    × (start_with_context counting tt (start_with_context counting tt two)
        ≡ start_with_context counting tt two)
unfolding informer_for new_factory new_with_options goroutines_of find put
start-runs_example = start-runs counting (λ w m t. refl) tt tt two (λ t. omega arith) refl

informer_for-shared_example :
    informer_for counting "ReactiveJob" counted (start_with_context counting tt two)
    ≡ ((informer_for counting "ReactiveJob" counted new).0, start_with_context counting tt two)
informer_for-shared_example =
    informer_for-shared counting "ReactiveJob" counted counted new
      {s' = start_with_context counting tt two}
      (step (asking "Job" counted (informer_for counting "ReactiveJob" counted new).1)
        (step (starting tt two) (stop _)))

wait_for_cache_sync-IsReport_example :
    ((informers : List ℕ) × ((t : String)
        → IsReport counting tt running.0 running.1 informers
            (wait_for_cache_sync_with_context counting tt running).0.synced
            t))
    × ((((t : String) × (find t (wait_for_cache_sync_with_context counting tt running).0.synced
              ≡ some false))
          × ((wait_for_cache_sync_with_context counting tt running).0.failure ≡ some "cancelled")
          × (is_some (wait_for_cache_sync_with_context counting tt running).0.failure ≡ true))
        ⊎ (((t : String)
              → find t (wait_for_cache_sync_with_context counting tt running).0.synced ≢ some false)
            × ((wait_for_cache_sync_with_context counting tt running).0.failure ≡ none)))
unfolding informer_for new_factory new_with_options start_with_context start_each start_one find put
wait_for_cache_sync-IsReport_example =
    wait_for_cache_sync-IsReport counting (λ w m t. refl) (λ w m h. h)
      (λ ctx informers w. inl (λ v after. refl)) tt running.0 running.1 (refl, (refl, tt))

-- List and watch calls that answer with the namespace they ask for.
abbrev pub plain_go : ClientGo counting
plain_go = record {
  ListOptions = Unit {0};
  Answer = String;
  Indexers = Unit {0};
  Identifier = Unit {0};
  ListWatch = Unit {0};
  background = tt;
  tweak = λ tweak_list_options opts. opts;
  list = λ client namespace ctx opts w. (namespace, w);
  watch = λ client namespace ctx opts w. (namespace, w);
  list_watch = λ lists watches lists_in watches_in. tt;
  namespace_indexers = tt;
  with_resource = λ name resource. tt;
  new_shared_index_informer = λ lists client resync indexers identifier w. (w, w + 1);
  typed = λ informer. informer;
  is_typed = λ informer. true;
}

for_resource-shared_example :
    ((reactive_jobs ≡ reactive_jobs)
      × (for_resource counting plain_go reactive_jobs (
            start_with_context counting tt
              (informer counting plain_go (reactive_jobs_of counting plain_go new.0) new).1)
          ≡ (
            some (informer counting plain_go (reactive_jobs_of counting plain_go new.0) new).0,
            start_with_context counting tt
                (informer counting plain_go (reactive_jobs_of counting plain_go new.0) new).1,
          )))
    ⊎ ((reactive_jobs ≢ reactive_jobs)
        × (for_resource counting plain_go reactive_jobs (
              start_with_context counting tt
                (informer counting plain_go (reactive_jobs_of counting plain_go new.0) new).1)
            ≡ (
              none,
              start_with_context counting tt
                  (informer counting plain_go (reactive_jobs_of counting plain_go new.0) new).1,
            )))
for_resource-shared_example =
    for_resource-shared counting plain_go (reactive_jobs_of counting plain_go new.0) new
      {s' = start_with_context counting tt
        (informer counting plain_go (reactive_jobs_of counting plain_go new.0) new).1}
      reactive_jobs
      (step
        (starting tt (informer counting plain_go (reactive_jobs_of counting plain_go new.0) new).1)
        (stop _))
