-- ===== src/Api/Condition.antt =====
-- api/v1alpha1/reactivejob_utils.go: the Ready condition and the state of a ReactiveJob. A pointer
-- into the slice of conditions is an index; `metav1.Now()` is the argument `now`.
pub mod Upsert
pub mod Laws
use reactivejob_operator.Prelude.{
  ℕ, zero, suc, ◌-◌, String, Bool, true, false, Option, none, some, List, [], ◌∷◌, ◌++◌, str_eq,
  not, if◌then◌else◌, length, modify, ◌&&◌,
}
use reactivejob_operator.Api.Meta.{Time}
use reactivejob_operator.Api.Types.{
  ReactiveJob, ReactiveJobCondition, ReactiveJobStatus, condition_type_ready, condition_true,
  condition_false, condition_unknown, state_ready, state_error,
}

-- The loop of `getCondition`, from the index `i` on.
get_condition_from : ℕ → List ReactiveJobCondition → String → Option ℕ
get_condition_from i [] t = none
get_condition_from i (c ∷ cs) t =
    if str_eq c.type t then some i else get_condition_from (suc i) cs t

pub get_condition : List ReactiveJobCondition → String → Option ℕ
unfolding get_condition_from
get_condition = get_condition_from 0

-- The last four assignments of `setCondition`, and the one of the `else if` branch.
assign : Time → String → String → String → Bool → ReactiveJobCondition → ReactiveJobCondition
assign now status reason message existing c = record c {
  status = status;
  last_update_time = some now;
  last_transition_time =
      (if existing && not (str_eq c.status status) then some now else c.last_transition_time);
  reason = reason;
  message = message;
}

-- `ReactiveJobCondition{Type: conditionType, LastTransitionTime: &now}`
appended : Time → String → ReactiveJobCondition
appended now t = record {
  type = t;
  status = "";
  last_update_time = none;
  last_transition_time = some now;
  reason = "";
  message = "";
}

-- The rest of `setCondition`, where `getCondition` has returned `cond`.
assign_at :
    Time
    → List ReactiveJobCondition
    → String
    → String
    → String
    → String
    → Option ℕ
    → List ReactiveJobCondition
unfolding assign appended
assign_at now cs t status reason message none =
    let grown = cs ++ appended now t ∷ [] in
    modify grown (length grown - 1) (assign now status reason message false)
assign_at now cs t status reason message (some i) =
    modify cs i (assign now status reason message true)

pub set_condition :
    Time → List ReactiveJobCondition → String → String → String → String → List ReactiveJobCondition
set_condition now cs t status reason message =
    assign_at now cs t status reason message (get_condition cs t)

-- The `switch` of `SetState`.
pub condition_status : String → String
condition_status state =
    if str_eq state state_ready
    then condition_true
    else if str_eq state state_error
    then condition_false
    else condition_unknown

module _ {E : Type 0} where
  unfoldable pub set_state : Time → ReactiveJob E → String → String → ReactiveJob E
  unfolding condition_status
  set_state now r state message = record r {
    status = record (r.status) {
      conditions =
          set_condition now r.status.conditions condition_type_ready (condition_status state) state
            message;
      state = state;
    };
  }
