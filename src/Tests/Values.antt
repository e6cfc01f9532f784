-- ===== src/Tests/Values.antt =====
-- The theorems on conditions and the webhook at concrete inputs.
use reactivejob_operator.Prelude.{◌≡◌, ◌↔◌, ◌⊎◌, false, none, some, List, [], ◌∷◌}
use reactivejob_operator.Api.Meta.{is_zero}
use reactivejob_operator.Api.Types.{
  JobCondition, ReactiveJob, ReactiveJobCondition, condition_type_ready, state_ready,
}
use reactivejob_operator.Api.Condition.{set_condition, condition_status, set_state}
use reactivejob_operator.Api.Condition.Upsert.{upsert, set_condition-upsert}
use reactivejob_operator.Api.Condition.Laws.{
  IsStatusOf, find_type, others, new_condition, set_state_lem,
}
use reactivejob_operator.Webhook.{validate}
use reactivejob_operator.Webhook.Laws.{IsUnnamed, IsAccepted, validate_iff}
use reactivejob_operator.Controller.Objects.{report}
use reactivejob_operator.Controller.Report.{Reports, report_iff}
use reactivejob_operator.Tests.Sample.{Content, sample, server, complete_condition}

abbrev suspended : JobCondition
suspended = record { type = "Suspended"; status = "True"; reason = "Hold"; message = "" }

report_iff_example :
    Reports (suspended ∷ complete_condition ∷ []) (report (suspended ∷ complete_condition ∷ []))
    ↔ (report (suspended ∷ complete_condition ∷ []) ≡ report (suspended ∷ complete_condition ∷ []))
report_iff_example =
    report_iff (suspended ∷ complete_condition ∷ []) (report (suspended ∷ complete_condition ∷ []))

abbrev old_conditions : List ReactiveJobCondition
old_conditions =
    record {
      type = "Ready";
      status = "Unknown";
      last_update_time = some 1;
      last_transition_time = some 1;
      reason = "Processing";
      message = "";
    }
    ∷ []

abbrev conditioned : ReactiveJob Content
conditioned = record sample { status = record (sample.status) { conditions = old_conditions } }

set_condition-upsert_example :
    set_condition 9 old_conditions "Ready" "True" "Ready" "done"
    ≡ upsert 9 old_conditions "Ready" "True" "Ready" "done"
set_condition-upsert_example = set_condition-upsert 9 "Ready" "True" "Ready" "done" old_conditions

set_state_lem_example :
    ((set_state 9 conditioned state_ready "done").status.state ≡ state_ready)
    × (find_type condition_type_ready (set_state 9 conditioned state_ready "done").status.conditions
        ≡ some (
            new_condition 9
              (find_type condition_type_ready conditioned.status.conditions)
              condition_type_ready
              (condition_status state_ready)
              state_ready
              "done"))
    × (others condition_type_ready (set_state 9 conditioned state_ready "done").status.conditions
        ≡ others condition_type_ready conditioned.status.conditions)
    × ((set_state 9 conditioned state_ready "done").meta ≡ conditioned.meta)
    × ((set_state 9 conditioned state_ready "done").spec ≡ conditioned.spec)
    × ((set_state 9 conditioned state_ready "done").status.observed_generation
        ≡ conditioned.status.observed_generation)
    × ((set_state 9 conditioned state_ready "done").status.current_job_name
        ≡ conditioned.status.current_job_name)
    × IsStatusOf state_ready (condition_status state_ready)
set_state_lem_example = set_state_lem 9 conditioned state_ready "done"

validate_iff_example : ((validate (server sample []) sample []).0 ≡ none) ↔ (
    (is_zero sample.meta.deletion_timestamp ≡ false)
    ⊎ (IsUnnamed (server sample []) sample [] × IsAccepted (server sample []) sample []))
validate_iff_example = validate_iff (server sample []) sample []
