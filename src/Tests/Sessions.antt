-- ===== src/Tests/Sessions.antt =====
-- The typical use of a factory, on the factories of the tests.
use reactivejob_operator.Prelude.{ℕ, [], arith, String, ◌≡◌, refl, true, some}
use reactivejob_operator.Informers.Registry.{find, is_some}
use reactivejob_operator.Informers.Factory.{new_factory, new_with_options, start_with_context}
use reactivejob_operator.Informers.Lifecycle.{goroutines_of, run_of}
use reactivejob_operator.Informers.ReactiveJobs.{reactive_jobs, reactive_job_type}
use reactivejob_operator.Informers.Interface.{generic_informer}
use reactivejob_operator.Informers.Interface.Meets.{State, shared_informer_factory}
use reactivejob_operator.Informers.Interface.Usage.{Session, typical_use}
use reactivejob_operator.Informers.Interface.Session.{typical_use-served}
use reactivejob_operator.Tests.Factories.{counting, counted, new, plain_go}
use reactivejob_operator.Tests.Access.{plain_channels, plain_listers}

abbrev session :
    Session counting plain_go plain_listers (State counting plain_go plain_listers plain_channels)
session =
    typical_use (shared_informer_factory counting plain_go plain_listers plain_channels) tt "Job"
      counted new

typical_use-served_example :
    (session.generic_informer
      ≡ some
          (generic_informer counting plain_go plain_listers reactive_jobs session.typed_informer))
    × (is_some (find reactive_job_type session.synced.synced) ≡ true)
    × ((raw : ℕ) × (session.typed_informer ≡ raw)
        × (find reactive_job_type session.used.0.informers ≡ some raw)
        × (goroutines_of counting reactive_job_type session.used.0.wg
            ≡ run_of counting tt reactive_job_type (some raw)))
    × (find "Job" session.used.0.informers ≡ some session.another)
    × (goroutines_of counting "Job" session.used.0.wg
        ≡ run_of counting tt "Job" (some session.another))
    × ((r : String) → goroutines_of counting r session.closed.0.wg ≡ [])
    × ((ctx : Unit) → start_with_context counting ctx session.closed ≡ session.closed)
unfolding new_factory new_with_options goroutines_of find
typical_use-served_example =
    typical_use-served counting plain_go plain_listers plain_channels (λ w m t. refl) (λ w m h. h)
      tt "Job" counted new.0 new.1 tt (λ t. omega arith) refl refl refl
