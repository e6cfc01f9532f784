-- ===== src/Api/Condition/Upsert.antt =====
-- `setCondition` against an independent description of it.
use reactivejob_operator.Prelude.{
  ℕ, suc, ◌-◌, String, ◌≡◌, refl, ap, true, false, Option, none, some, List, [], ◌∷◌, ◌++◌, str_eq,
  if◌then◌else◌, length, modify, modify_last, sym, ◌∙◌, arith, Bool-cases, inl, inr,
}
use reactivejob_operator.Api.Meta.{Time}
use reactivejob_operator.Api.Types.{ReactiveJobCondition}
use reactivejob_operator.Api.Condition.{
  get_condition_from, get_condition, assign, appended, assign_at, set_condition,
}

-- The new condition: the time of transition moves only with the status.
abbrev pub updated : Time → ReactiveJobCondition → String → String → String → ReactiveJobCondition
updated now c status reason message = record {
  type = c.type;
  status = status;
  last_update_time = some now;
  last_transition_time = (if str_eq c.status status then c.last_transition_time else some now);
  reason = reason;
  message = message;
}

abbrev pub fresh : Time → String → String → String → String → ReactiveJobCondition
fresh now t status reason message = record {
  type = t;
  status = status;
  last_update_time = some now;
  last_transition_time = some now;
  reason = reason;
  message = message;
}

-- The first condition of the type is updated in place; where there is none, one is added at the end.
unfoldable pub upsert :
    Time → List ReactiveJobCondition → String → String → String → String → List ReactiveJobCondition
upsert now [] t status reason message = fresh now t status reason message ∷ []
upsert now (c ∷ cs) t status reason message =
    if str_eq c.type t
    then updated now c status reason message ∷ cs
    else c ∷ upsert now cs t status reason message

module _ (now : Time) (t status reason message : String) where
  assign-updated :
      (c : ReactiveJobCondition)
      → assign now status reason message true c ≡ updated now c status reason message
  unfolding assign
  assign-updated c = ground arith

  -- the loop's result, shifted by the index at which it began
  get_condition_from-suc :
      (i : ℕ) (cs : List ReactiveJobCondition)
      → get_condition_from (suc i) cs t
        ≡ elim (get_condition_from i cs t) [ none ↦ none | some j ↦ some (suc j) ]
  unfolding get_condition_from
  get_condition_from-suc i [] = refl
  get_condition_from-suc i (c ∷ cs) = ground (arith, get_condition_from-suc (suc i) cs)

  append-fresh :
      (cs : List ReactiveJobCondition)
      → modify
          (cs ++ appended now t ∷ [])
          (length (cs ++ appended now t ∷ []) - 1)
          (assign now status reason message false)
        ≡ cs ++ fresh now t status reason message ∷ []
  unfolding assign appended
  append-fresh cs = modify_last cs (appended now t) (assign now status reason message false)

  get_condition-skip :
      (c : ReactiveJobCondition) (cs : List ReactiveJobCondition)
      → str_eq c.type t ≡ false
      → get_condition (c ∷ cs) t ≡ elim (get_condition cs t) [ none ↦ none | some j ↦ some (suc j) ]
  unfolding get_condition
  get_condition-skip c cs other = rw (other, get_condition_from) (get_condition_from-suc 0 cs)

  assign_at-skip :
      (c : ReactiveJobCondition) (cs : List ReactiveJobCondition) (cond : Option ℕ)
      → assign_at now
          (c ∷ cs)
          t
          status
          reason
          message
          (elim cond [ none ↦ none | some j ↦ some (suc j) ])
        ≡ c ∷ assign_at now cs t status reason message cond
  unfolding assign_at
  assign_at-skip c cs none = append-fresh (c ∷ cs) ∙ ap (λ l. c ∷ l) (sym (append-fresh cs))
  assign_at-skip c cs (some i) = refl

  get_condition-found :
      (c : ReactiveJobCondition) (cs : List ReactiveJobCondition)
      → str_eq c.type t ≡ true
      → get_condition (c ∷ cs) t ≡ some 0
  unfolding get_condition
  get_condition-found c cs same = rw (same, get_condition_from)

  -- `setCondition` updates the first condition of the type in place, or adds one at the end where there
  -- is none; the time of transition moves only if the status changes or the condition is new.
  pub set_condition-upsert :
      (cs : List ReactiveJobCondition)
      → set_condition now cs t status reason message ≡ upsert now cs t status reason message
  unfolding upsert set_condition
  set_condition-upsert [] = unfold assign_at get_condition in append-fresh []
  set_condition-upsert (c ∷ cs) = elim (Bool-cases (str_eq c.type t)) [
    | inl same ↦ rw same (
        ap (assign_at now (c ∷ cs) t status reason message) (get_condition-found c cs same)
        ∙ unfold assign_at in ap (λ x. x ∷ cs) (assign-updated c))
    | inr other ↦ rw other (
        ap (assign_at now (c ∷ cs) t status reason message) (get_condition-skip c cs other)
        ∙ assign_at-skip c cs (get_condition cs t)
        ∙ ap (λ l. c ∷ l) (set_condition-upsert cs))
  ]
