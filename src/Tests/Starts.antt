-- ===== src/Tests/Starts.antt =====
-- The first runs for a ReactiveJob at concrete inputs.
use reactivejob_operator.Prelude.{◌⊎◌, ◌*◌, ◌≡◌, refl, true, List, [], ◌∷◌, sym, ap, arith}
use reactivejob_operator.Prelude.Int.{pos}
use reactivejob_operator.Api.Meta.{lookup}
use reactivejob_operator.Api.Types.{ReactiveJob, ReactiveJobCondition}
use reactivejob_operator.Kube.Server.{Server, Reply, ApiError, failed, done, update_status}
use reactivejob_operator.Kube.Library.{ok}
use reactivejob_operator.Controller.Objects.{with_finalizers, requeue_in, second}
use reactivejob_operator.Webhook.{default}
use reactivejob_operator.Controller.Hash.{json_hash}
use reactivejob_operator.Api.Condition.Laws.{count_type, others}
use reactivejob_operator.Controller.Reconcile.{acknowledged, reconcile}
use reactivejob_operator.Controller.Safety.{found_jobs}
use reactivejob_operator.Controller.Runs.Flag.{LetsGo}
use reactivejob_operator.Controller.Runs.Heeds.Tells.{Tells, reconcile-Tells}
use reactivejob_operator.Controller.Runs.Reports.{Reported, reconcile-reports}
use reactivejob_operator.Controller.Runs.Conditions.{SendsWith, HasOthers, reconcile-HasOthers}
use reactivejob_operator.Controller.Runs.Continues.{Continues, reconcile-Continues}
use reactivejob_operator.Controller.Runs.Adopt.{adopting_calls, adopted_object, reconcile-adopts}
use reactivejob_operator.Tests.Sorting.{sort}
use reactivejob_operator.Tests.Strings.{contains, add}
use reactivejob_operator.Tests.Sample.{
  Content, library, library-IsLibrary, sample, sample_hash, template, server, request,
}

hash-template : json_hash library template ≡ ok sample_hash
unfolding json_hash
hash-template = refl

-- An object without the operator's finalizer, last observed at generation 2, now at 3.
abbrev bare : ReactiveJob Content
bare = with_finalizers [] sample

-- A server that, like one with a status subresource, keeps the stored status when an object is updated.
abbrev keeping : Server Content
keeping = record (server bare []) { update = λ h r. done (record r { status = sample.status }) }

reconcile-adopts_example :
    (reconcile keeping library request [] ≡ (
      ok (requeue_in (1 * second)),
      update_status (adopted_object keeping library request bare sample sample_hash [])
          ∷ adopting_calls keeping library request bare sample sample_hash [],
    ))
    × ((adopted_object keeping library request bare sample sample_hash
          []).status.observed_generation
        ≡ pos 2)
unfolding sort contains lookup acknowledged default add
reconcile-adopts_example =
    reconcile-adopts keeping library request bare sample [] {items = []} [] sample_hash refl refl
      refl refl refl refl refl hash-template tt refl

abbrev quota : ApiError
quota = record { not_found = true; text = "namespace gone" }

abbrev refusing : Server Content
refusing = record (server sample []) { create_job = λ h j. failed quota }

reconcile-reports_example :
    Reported (server sample []) library (reconcile (server sample []) library request [])
    ⊎ LetsGo
        (found_jobs (server sample []) library request sample [])
        (reconcile (server sample []) library request []).0
        sample
reconcile-reports_example = reconcile-reports (server sample []) library request sample [] refl

reconcile-Continues_example :
    Continues (server sample []) library (reconcile (server sample []) library request [])
    ⊎ LetsGo
        (found_jobs (server sample []) library request sample [])
        (reconcile (server sample []) library request []).0
        sample
reconcile-Continues_example = reconcile-Continues (server sample []) library request sample [] refl

abbrev conditions_of : Reply (ReactiveJob Content) → List ReactiveJobCondition
conditions_of (done r) = r.status.conditions
conditions_of (failed e) = []

reconcile-HasOthers_example :
    SendsWith (HasOthers []) (reconcile keeping library request []).1
    ⊎ LetsGo
        (found_jobs keeping library request bare [])
        (reconcile keeping library request []).0
        bare
unfolding count_type others
reconcile-HasOthers_example =
    reconcile-HasOthers keeping library request bare [] refl (omega arith)
      (λ h s s' e. sym (ap conditions_of e))

-- The creation is refused, and the run's error tells that.
reconcile-Tells_example : Tells refusing library request [] (reconcile refusing library request [])
reconcile-Tells_example = reconcile-Tells refusing library request [] library-IsLibrary
