-- ===== src/Eval/Metrics/Counts.antt =====
-- eval_service/app/aggregation.py: what one evaluation adds to the tally of `aggregate_evaluations`.
use codex_browser.Prelude.{
  ℕ, suc, ◌+◌, String, ◌≡◌, refl, ◌∙◌, ap, Bool, true, false, List, [], ◌∷◌, arith, ◌==◌,
  if◌then◌else◌, sum_of, eq_iff,
}
use codex_browser.Dict.{Dict, get, get-put}
use codex_browser.Eval.Metrics.Models.{
  CheckName, CheckStatus, EvaluationResult, EvaluationRecommendation, outcome_ok, safety_ok,
  payment_boundary_ok, evidence_ok, recommendations_ok, ok, not_ok, skipped, check_names,
  status_text,
}
use codex_browser.Eval.Metrics.Summary.{CaseRef, CheckSummary, at_check, counted, bump}
use codex_browser.Eval.Metrics.Aggregation.{
  Tally, count_status, note_status, count_checks, count_recommendations, count_evaluation, tally,
  case_ref,
}

abbrev pub status_is : CheckStatus → CheckStatus → Bool
status_is ok ok = true
status_is not_ok not_ok = true
status_is skipped skipped = true
status_is ok not_ok = false
status_is ok skipped = false
status_is not_ok ok = false
status_is not_ok skipped = false
status_is skipped ok = false
status_is skipped not_ok = false

-- The evaluation has this status in the check.
abbrev pub has : CheckStatus → CheckName → EvaluationResult → Bool
has status name e = status_is status (e.checks name).status

abbrev pub number_of : CheckStatus → CheckSummary → ℕ
number_of ok c = c.ok
number_of not_ok c = c.not_ok
number_of skipped c = c.skipped

abbrev pub one_if : Bool → ℕ
one_if b = if b then 1 else 0

pub number_of-count_status :
    (s status : CheckStatus) (ref : CaseRef) (c : CheckSummary)
    → number_of s (count_status status ref c) ≡ number_of s c + one_if (status_is s status)
number_of-count_status ok ok ref c = omega arith
number_of-count_status ok not_ok ref c = omega arith
number_of-count_status ok skipped ref c = omega arith
number_of-count_status not_ok ok ref c = omega arith
number_of-count_status not_ok not_ok ref c = omega arith
number_of-count_status not_ok skipped ref c = omega arith
number_of-count_status skipped ok ref c = omega arith
number_of-count_status skipped not_ok ref c = omega arith
number_of-count_status skipped skipped ref c = omega arith

pub note_status-checks :
    (status : CheckStatus) (ref : CaseRef) (t : Tally)
    → (note_status status ref t).checks ≡ t.checks
note_status-checks ok ref t = refl
note_status-checks not_ok ref t = refl
note_status-checks skipped ref t = refl

-- The inner loop, on the summaries of the checks alone.
abbrev checks_after :
    EvaluationResult → List CheckName → (CheckName → CheckSummary) → CheckName → CheckSummary
checks_after e [] checks = checks
checks_after e (name ∷ names) checks =
    checks_after e names
      (at_check name (count_status (e.checks name).status (case_ref e name)) checks)

count_checks-checks :
    (e : EvaluationResult) (names : List CheckName) (t : Tally)
    → (count_checks e names t).checks ≡ checks_after e names t.checks
unfolding count_checks
count_checks-checks e [] t = refl
count_checks-checks e (name ∷ names) t =
    count_checks-checks e names _
    ∙ ap (checks_after e names) (note_status-checks (e.checks name).status (case_ref e name) _)

-- The five turns of the inner loop each change the summary of their own check.
checks_after_all :
    (e : EvaluationResult) (checks : CheckName → CheckSummary) (name : CheckName)
    → checks_after e check_names checks name
      ≡ count_status (e.checks name).status (case_ref e name) (checks name)
checks_after_all e checks outcome_ok = refl
checks_after_all e checks safety_ok = refl
checks_after_all e checks payment_boundary_ok = refl
checks_after_all e checks evidence_ok = refl
checks_after_all e checks recommendations_ok = refl

pub count_recommendations-checks :
    (rs : List EvaluationRecommendation) (t : Tally)
    → (count_recommendations rs t).checks ≡ t.checks
unfolding count_recommendations
count_recommendations-checks [] t = refl
count_recommendations-checks (r ∷ rs) t = count_recommendations-checks rs _

-- What one evaluation does to the summary of a check.
pub count_evaluation-checks :
    (e : EvaluationResult) (t : Tally) (name : CheckName)
    → (count_evaluation e t).checks name
      ≡ count_status (e.checks name).status (case_ref e name) (t.checks name)
unfolding count_evaluation
count_evaluation-checks e t name =
    let marked : Tally = record t { statuses = bump t.statuses (status_text e.status) } in
    let noted : Tally = count_recommendations e.recommendations marked in
    ap (λ checks. checks name) (count_checks-checks e check_names noted)
    ∙ checks_after_all e noted.checks name
    ∙ ap (λ checks. count_status (e.checks name).status (case_ref e name) (checks name))
        (count_recommendations-checks e.recommendations marked)

pub number_of-tally :
    (s : CheckStatus) (name : CheckName) (es : List EvaluationResult) (t : Tally)
    → number_of s ((tally es t).checks name)
      ≡ number_of s (t.checks name) + sum_of (λ e. one_if (has s name e)) es
unfolding tally
number_of-tally s name [] t = omega arith
number_of-tally s name (e ∷ es) t = omega (
  arith,
  number_of-tally s name es (count_evaluation e t),
  ap (number_of s) (count_evaluation-checks e t name),
  number_of-count_status s (e.checks name).status (case_ref e name) (t.checks name),
)

counted-bump :
    (d : Dict ℕ) (k j : String) → counted (get (bump d k) j) ≡ counted (get d j) + one_if (k == j)
unfolding bump
counted-bump d k j = ground (arith, get-put d k (suc (counted (get d k))) j, eq_iff k j)

note_status-statuses :
    (status : CheckStatus) (ref : CaseRef) (t : Tally)
    → (note_status status ref t).statuses ≡ t.statuses
note_status-statuses ok ref t = refl
note_status-statuses not_ok ref t = refl
note_status-statuses skipped ref t = refl

count_checks-statuses :
    (e : EvaluationResult) (names : List CheckName) (t : Tally)
    → (count_checks e names t).statuses ≡ t.statuses
unfolding count_checks
count_checks-statuses e [] t = refl
count_checks-statuses e (name ∷ names) t =
    count_checks-statuses e names _ ∙ note_status-statuses (e.checks name).status _ _

count_recommendations-statuses :
    (rs : List EvaluationRecommendation) (t : Tally)
    → (count_recommendations rs t).statuses ≡ t.statuses
unfolding count_recommendations
count_recommendations-statuses [] t = refl
count_recommendations-statuses (r ∷ rs) t = count_recommendations-statuses rs _

count_evaluation-statuses :
    (e : EvaluationResult) (t : Tally)
    → (count_evaluation e t).statuses ≡ bump t.statuses (status_text e.status)
unfolding count_evaluation
count_evaluation-statuses e t =
    count_checks-statuses e check_names _ ∙ count_recommendations-statuses e.recommendations _

pub statuses-tally :
    (key : String) (es : List EvaluationResult) (t : Tally)
    → counted (get (tally es t).statuses key)
      ≡ counted (get t.statuses key) + sum_of (λ e. one_if (status_text e.status == key)) es
unfolding tally
statuses-tally key [] t = omega arith
statuses-tally key (e ∷ es) t = omega (
  arith,
  statuses-tally key es (count_evaluation e t),
  ap (λ d. counted (get d key)) (count_evaluation-statuses e t),
  counted-bump t.statuses (status_text e.status) key,
)
