-- ===== src/Controller/Report.antt =====
-- What the conditions of the current job say, independently of the loop that reads them.
use reactivejob_operator.Prelude.{
  ◌*◌, true, false, ◌≡◌, refl, List, [], ◌∷◌, ◌++◌, str_eq, eq_iff, ◌&&◌, All, arith, Bool-cases,
  inl, inr, ap, sym, ◌∙◌, ◌↔◌, subst,
}
use reactivejob_operator.Api.Types.{
  JobCondition, job_failed, job_complete, condition_true, state_processing, state_ready,
  state_error,
}
use reactivejob_operator.Controller.Objects.{Report, report, describe, second}

abbrev pub IsFailed : JobCondition → Type 0
IsFailed c = (c.type ≡ job_failed) × (c.status ≡ condition_true)

abbrev pub IsComplete : JobCondition → Type 0
IsComplete c = (c.type ≡ job_complete) × (c.status ≡ condition_true)

abbrev pub IsPending : JobCondition → Type 0
IsPending c = (¬ IsFailed c) × (¬ IsComplete c)

-- The first condition that says how the job ended decides.
pub data Reports : List JobCondition → Report → Type 0 where
  pending :
      (cs : List JobCondition)
      → All IsPending cs
      → Reports cs (record {
        state = state_processing;
        message = "waiting for job to complete";
        requeue_after = 10 * second;
      })
  failed :
      (before after : List JobCondition) (c : JobCondition)
      → All IsPending before
      → IsFailed c
      → Reports
          (before ++ c ∷ after)
          (record { state = state_error; message = describe c; requeue_after = 60 * second })
  complete :
      (before after : List JobCondition) (c : JobCondition)
      → All IsPending before
      → IsComplete c
      → Reports
          (before ++ c ∷ after)
          (record { state = state_ready; message = describe c; requeue_after = 600 * second })

Reports-cons :
    (c : JobCondition) {cs : List JobCondition} {said : Report}
    → IsPending c
    → Reports cs said
    → Reports (c ∷ cs) said
Reports-cons c p (pending cs all) = pending (c ∷ cs) (p, all)
Reports-cons c p (failed before after d all f) = failed (c ∷ before) after d (p, all) f
Reports-cons c p (complete before after d all f) = complete (c ∷ before) after d (p, all) f

test-IsFailed :
    (c : JobCondition)
    → (str_eq c.type job_failed && str_eq c.status condition_true) ≡ true
    → IsFailed c
test-IsFailed c h = ground (arith, eq_iff c.type job_failed, eq_iff c.status condition_true)

test-IsComplete :
    (c : JobCondition)
    → (str_eq c.type job_complete && str_eq c.status condition_true) ≡ true
    → IsComplete c
test-IsComplete c h = ground (arith, eq_iff c.type job_complete, eq_iff c.status condition_true)

is_pending :
    (c : JobCondition)
    → (str_eq c.type job_failed && str_eq c.status condition_true) ≡ false
    → (str_eq c.type job_complete && str_eq c.status condition_true) ≡ false
    → IsPending c
is_pending c h k = (
  λ f. ground (arith, eq_iff c.type job_failed, eq_iff c.status condition_true),
  λ f. ground (arith, eq_iff c.type job_complete, eq_iff c.status condition_true),
)

-- The loop over the conditions reports what the first terminal condition says.
report-Reports : (cs : List JobCondition) → Reports cs (report cs)
unfolding report
report-Reports [] = pending [] tt
report-Reports (c ∷ cs) =
    elim (Bool-cases (str_eq c.type job_failed && str_eq c.status condition_true)) [
      | inl yes_failed ↦ rw yes_failed (failed [] cs c tt (test-IsFailed c yes_failed))
      | inr not_failed ↦
          elim (Bool-cases (str_eq c.type job_complete && str_eq c.status condition_true)) [
            | inl yes_complete ↦
                rw (not_failed, yes_complete) (complete [] cs c tt (test-IsComplete c yes_complete))
            | inr not_complete ↦
                rw (not_failed, not_complete)
                  (Reports-cons c (is_pending c not_failed not_complete) (report-Reports cs))
          ]
    ]

report-pending :
    (c : JobCondition) (cs : List JobCondition) → IsPending c → report (c ∷ cs) ≡ report cs
unfolding report
report-pending c cs p =
    grind
      (arith, eq_iff c.type job_failed, eq_iff c.type job_complete, eq_iff c.status condition_true)

report-skip :
    (before rest : List JobCondition) → All IsPending before → report (before ++ rest) ≡ report rest
report-skip [] rest all = refl
report-skip (c ∷ before) rest all =
    report-pending c (before ++ rest) all.0 ∙ report-skip before rest all.1

report-All_pending :
    (cs : List JobCondition)
    → All IsPending cs
    → report cs ≡ record {
      state = state_processing;
      message = "waiting for job to complete";
      requeue_after = 10 * second;
    }
unfolding report
report-All_pending [] all = refl
report-All_pending (c ∷ cs) all = report-pending c cs all.0 ∙ report-All_pending cs all.1

report-failed :
    (c : JobCondition) (cs : List JobCondition)
    → IsFailed c
    → report (c ∷ cs)
      ≡ record { state = state_error; message = describe c; requeue_after = 60 * second }
unfolding report
report-failed c cs f = rw ((eq_iff _ _).1 f.0, (eq_iff _ _).1 f.1) refl

report_complete :
    (c : JobCondition) (cs : List JobCondition)
    → IsComplete c
    → report (c ∷ cs)
      ≡ record { state = state_ready; message = describe c; requeue_after = 600 * second }
unfolding report
report_complete c cs f =
    let other : str_eq c.type job_failed ≡ false = ap (λ t. str_eq t job_failed) f.0 in
    rw (other, (eq_iff _ _).1 f.0, (eq_iff _ _).1 f.1) refl

Reports-unique : {cs : List JobCondition} {said : Report} → Reports cs said → said ≡ report cs
Reports-unique (pending cs all) = sym (report-All_pending cs all)
Reports-unique (failed before after c all f) =
    sym (report-skip before (c ∷ after) all ∙ report-failed c after f)
Reports-unique (complete before after c all f) =
    sym (report-skip before (c ∷ after) all ∙ report_complete c after f)

-- The loop over the conditions reports exactly what the first terminal condition says: Error with its
-- reason and message for Failed, Ready for Complete, and Processing where there is none.
pub report_iff : (cs : List JobCondition) (said : Report) → Reports cs said ↔ (said ≡ report cs)
report_iff cs said = (Reports-unique, λ e. subst (λ s. Reports cs s) (sym e) (report-Reports cs))
