-- ===== src/Api/Condition/Laws.antt =====
-- What `SetState` does to a ReactiveJob: its state, the Ready condition, and all that it leaves.
use mathlib.Core.Bool.{false≢true}
use reactivejob_operator.Prelude.{
  ℕ, ◌+◌, ◌≤◌, String, ◌≡◌, ◌≢◌, ◌⊎◌, inl, inr, sym, ◌∙◌, Bool-cases, refl, Option, none, some,
  List, [], ◌∷◌, str_eq, if◌then◌else◌, arith, eq_iff, eq_refl,
}
use reactivejob_operator.Api.Meta.{Time}
use reactivejob_operator.Api.Types.{
  ReactiveJob, ReactiveJobCondition, condition_type_ready, state_ready, state_error,
}
use reactivejob_operator.Api.Condition.{condition_status, set_state}
use reactivejob_operator.Api.Condition.Upsert.{updated, fresh, upsert, set_condition-upsert}

-- The first condition of a type.
pub find_type : String → List ReactiveJobCondition → Option ReactiveJobCondition
find_type t [] = none
find_type t (c ∷ cs) = if str_eq c.type t then some c else find_type t cs

-- The conditions of other types, in their order.
unfoldable pub others : String → List ReactiveJobCondition → List ReactiveJobCondition
others t [] = []
others t (c ∷ cs) = let rest = others t cs in if str_eq c.type t then rest else c ∷ rest

unfoldable pub count_type : String → List ReactiveJobCondition → ℕ
count_type t [] = 0
count_type t (c ∷ cs) = let n = count_type t cs in if str_eq c.type t then n + 1 else n

-- No two conditions report readiness.
abbrev pub IsWellFormed : {E : Type 0} → ReactiveJob E → Type 0
IsWellFormed r = count_type condition_type_ready r.status.conditions ≤ 1

abbrev pub new_condition :
    Time → Option ReactiveJobCondition → String → String → String → String → ReactiveJobCondition
new_condition now none t status reason message = fresh now t status reason message
new_condition now (some c) t status reason message = updated now c status reason message

module _ (now : Time) (t status reason message : String) where
  find_type-upsert :
      (cs : List ReactiveJobCondition)
      → find_type t (upsert now cs t status reason message)
        ≡ some (new_condition now (find_type t cs) t status reason message)
  unfolding find_type upsert
  find_type-upsert [] = rw eq_refl
  find_type-upsert (c ∷ cs) = ground (arith, find_type-upsert cs)

  others-upsert :
      (cs : List ReactiveJobCondition)
      → others t (upsert now cs t status reason message) ≡ others t cs
  unfolding others upsert
  others-upsert [] = rw eq_refl
  others-upsert (c ∷ cs) = ground (arith, others-upsert cs)

  count_type-upsert :
      (cs : List ReactiveJobCondition)
      → count_type t cs ≤ 1
      → count_type t (upsert now cs t status reason message) ≡ 1
  unfolding count_type upsert
  count_type-upsert [] h = ground (arith, eq_refl t)
  count_type-upsert (c ∷ cs) h = ground (arith, count_type-upsert cs)

-- The status of the Ready condition that goes with a state: True for Ready, False for Error, and Unknown
-- for every other one.
abbrev pub IsStatusOf : String → String → Type 0
IsStatusOf state status =
    ((state ≡ "Ready") × (status ≡ "True"))
    ⊎ ((state ≡ "Error") × (status ≡ "False"))
    ⊎ ((state ≢ "Ready") × (state ≢ "Error") × (status ≡ "Unknown"))

pub condition_status-IsStatusOf : (state : String) → IsStatusOf state (condition_status state)
unfolding condition_status
condition_status-IsStatusOf state = elim (Bool-cases (str_eq state state_ready)) [
  | inl ready ↦ inl ((eq_iff state state_ready).0 ready, rw ready refl)
  | inr not_ready ↦ elim (Bool-cases (str_eq state state_error)) [
    | inl error ↦ inr (inl ((eq_iff state state_error).0 error, rw (not_ready, error) refl))
    | inr neither ↦ inr (
        inr (
          (λ e. false≢true (sym not_ready ∙ (eq_iff state state_ready).1 e)),
          (λ e. false≢true (sym neither ∙ (eq_iff state state_error).1 e)),
          rw (not_ready, neither) refl,
        ))
  ]
]

module _ {E : Type 0} (now : Time) (r : ReactiveJob E) (state message : String) where
  abbrev conditions_after : List ReactiveJobCondition
  conditions_after = (set_state now r state message).status.conditions

  pub conditions-set_state :
      conditions_after
      ≡ upsert now r.status.conditions condition_type_ready (condition_status state) state message
  unfolding set_state
  conditions-set_state =
      set_condition-upsert now condition_type_ready (condition_status state) state message
        r.status.conditions

  -- `SetState` sets the state; the first Ready condition is updated, or added where there was none; the
  -- conditions of other types, the rest of the status, the metadata and the specification stay as they were.
  -- The status of the Ready condition is True for the state Ready, False for Error and Unknown for others.
  pub set_state_lem :
      ((set_state now r state message).status.state ≡ state)
      × (find_type condition_type_ready conditions_after
          ≡ some (
              new_condition now
                (find_type condition_type_ready r.status.conditions)
                condition_type_ready
                (condition_status state)
                state
                message))
      × (others condition_type_ready conditions_after
          ≡ others condition_type_ready r.status.conditions)
      × ((set_state now r state message).meta ≡ r.meta)
      × ((set_state now r state message).spec ≡ r.spec)
      × ((set_state now r state message).status.observed_generation ≡ r.status.observed_generation)
      × ((set_state now r state message).status.current_job_name ≡ r.status.current_job_name)
      × IsStatusOf state (condition_status state)
  set_state_lem = (
    unfold set_state in refl,
    rw conditions-set_state (
        find_type-upsert now condition_type_ready (condition_status state) state message
          r.status.conditions),
    rw conditions-set_state (
        others-upsert now condition_type_ready (condition_status state) state message
          r.status.conditions),
    unfold set_state in refl,
    unfold set_state in refl,
    unfold set_state in refl,
    unfold set_state in refl,
    condition_status-IsStatusOf state,
  )

  -- From at most one Ready condition `SetState` makes exactly one.
  pub set_state-IsWellFormed : IsWellFormed r → count_type condition_type_ready conditions_after ≡ 1
  set_state-IsWellFormed h = rw conditions-set_state (
      count_type-upsert now condition_type_ready (condition_status state) state message
        r.status.conditions h)
