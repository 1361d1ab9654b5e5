-- ===== src/Eval/Metrics/Aggregation.antt =====
-- eval_service/app/aggregation.py: `aggregate_evaluations` and `compute_baselines`, over evaluations
-- that are validated. A window of a baseline below one is 0. The files are outside.
use codex_browser.Prelude.{
  ℕ, suc, ◌-◌, Bool, true, false, Option, none, some, List, [], ◌∷◌, ◌++◌, if◌then◌else◌, map,
  filter, length, all, drop, sum_of, sort_by, ltb,
}
use codex_browser.Dict.{Dict, get, put, values}
use codex_browser.Eval.Models.{Result, err, value_error}
use codex_browser.Eval.Metrics.Models.{
  CheckName, CheckStatus, EvaluationRecommendation, EvaluationResult, outcome_ok, safety_ok,
  payment_boundary_ok, ok, not_ok, skipped, check_names, status_text, category_text, priority_text,
}
use codex_browser.Eval.Metrics.Numbers.{Number, median}
use codex_browser.Eval.Metrics.Summary.{
  MetricName, CaseRef, CheckSummary, ReasonSummary, Baseline, EvaluationRow, EvaluationSummary,
  at_check, counted, bump, sorted_items, group_onto, metric_of, evaluation_order, case_order,
}

-- What the loop of `aggregate_evaluations` changes.
pub record Tally : Type 0 where
  pub checks : CheckName → CheckSummary
  pub skipped_reasons : Dict ReasonSummary
  pub not_ok_cases : List CaseRef
  pub categories : Dict ℕ
  pub priorities : Dict ℕ
  pub statuses : Dict ℕ

abbrev pub empty_check : CheckSummary
empty_check = record { ok = 0; not_ok = 0; skipped = 0; skipped_reasons = []; not_ok_cases = [] }

-- `_empty_checks_summary` and the empty counters.
abbrev pub no_tally : Tally
no_tally = record {
  checks = λ name. empty_check;
  skipped_reasons = [];
  not_ok_cases = [];
  categories = [];
  priorities = [];
  statuses = [];
}

abbrev pub case_ref : EvaluationResult → CheckName → CaseRef
case_ref e name = record {
  eval_run_id = e.eval_run_id;
  eval_case_id = e.eval_case_id;
  host = e.host;
  check = name;
  reason = (e.checks name).reason;
}

abbrev pub reason_or_empty : Option ReasonSummary → ReasonSummary
reason_or_empty none = record { count = 0; cases = [] }
reason_or_empty (some summary) = summary

unfoldable pub add_skipped : CaseRef → Dict ReasonSummary → Dict ReasonSummary
add_skipped ref d =
    let old = reason_or_empty (get d ref.reason) in
    put d ref.reason (record { count = suc old.count; cases = old.cases ++ (ref ∷ []) })

abbrev pub count_status : CheckStatus → CaseRef → CheckSummary → CheckSummary
count_status ok ref s = record s { ok = suc s.ok }
count_status not_ok ref s = record s {
  not_ok = suc s.not_ok;
  not_ok_cases = s.not_ok_cases ++ (ref ∷ []);
}
count_status skipped ref s = record s {
  skipped = suc s.skipped;
  skipped_reasons = bump s.skipped_reasons ref.reason;
}

abbrev pub note_status : CheckStatus → CaseRef → Tally → Tally
note_status ok ref t = t
note_status not_ok ref t = record t { not_ok_cases = t.not_ok_cases ++ (ref ∷ []) }
note_status skipped ref t = record t { skipped_reasons = add_skipped ref t.skipped_reasons }

-- One check of one evaluation.
abbrev pub count_check : EvaluationResult → CheckName → Tally → Tally
count_check e name t =
    let status = (e.checks name).status in
    let ref = case_ref e name in
    note_status status ref (record t { checks = at_check name (count_status status ref) t.checks })

unfoldable pub count_checks : EvaluationResult → List CheckName → Tally → Tally
unfolding add_skipped bump
count_checks e [] t = t
count_checks e (name ∷ names) t = count_checks e names (count_check e name t)

unfoldable pub count_recommendations : List EvaluationRecommendation → Tally → Tally
unfolding bump
count_recommendations [] t = t
count_recommendations (r ∷ rs) t = count_recommendations rs (record t {
  categories = bump t.categories (category_text r.category);
  priorities = bump t.priorities (priority_text r.priority);
})

-- One evaluation.
unfoldable pub count_evaluation : EvaluationResult → Tally → Tally
unfolding bump count_checks count_recommendations
count_evaluation e t = count_checks e check_names (
    count_recommendations e.recommendations
      (record t { statuses = bump t.statuses (status_text e.status) }))

unfoldable pub tally : List EvaluationResult → Tally → Tally
unfolding count_evaluation
tally [] t = t
tally (e ∷ es) t = tally es (count_evaluation e t)

-- One entry of `_finalize_checks`.
unfoldable pub finalize_check : CheckSummary → CheckSummary
unfolding sorted_items
finalize_check s = record s { skipped_reasons = sorted_items s.skipped_reasons }

abbrev pub sorted_cases : ReasonSummary → ReasonSummary
sorted_cases r = record { count = r.count; cases = sort_by case_order r.cases }

-- `_finalize_reason_summary`
unfoldable pub finalize_reasons : Dict ReasonSummary → Dict ReasonSummary
unfolding sorted_items sort_by
finalize_reasons d = map (λ p. (p.0, sorted_cases p.1)) (sorted_items d)

abbrev pub baseline_checks : List CheckName
baseline_checks = outcome_ok ∷ safety_ok ∷ payment_boundary_ok ∷ []

abbrev pub is_ok : CheckStatus → Bool
is_ok ok = true
is_ok not_ok = false
is_ok skipped = false

-- `_is_baseline_eligible`
abbrev pub is_baseline_eligible : EvaluationResult → Bool
is_baseline_eligible e = all (λ name. is_ok (e.checks name).status) baseline_checks

-- `_median_metric`, for every name.
unfoldable pub median_metric : List EvaluationResult → MetricName → Option Number
unfolding median
median_metric evaluations name = median (map (λ e. metric_of e name) evaluations)

unfoldable pub sorted_evaluations : List EvaluationResult → List EvaluationResult
unfolding sort_by
sorted_evaluations evaluations = sort_by evaluation_order evaluations

-- `xs[-n:]`, for `n` above 0.
abbrev pub last_n {ℓ} : {A : Type ℓ} → ℕ → List A → List A
last_n n xs = drop (length xs - n) xs

-- One turn of the last loop of `compute_baselines`.
unfoldable pub baseline_of : ℕ → List EvaluationResult → Baseline
unfolding median_metric
baseline_of window group =
    let selected = last_n window group in
    record { sample_size = length selected; window = window; metrics = median_metric selected }

-- `compute_baselines` past its test of the window.
unfoldable pub baselines_for : List EvaluationResult → ℕ → Dict Baseline
unfolding baseline_of sorted_evaluations sorted_items group_onto
baselines_for evaluations window =
    let eligible = filter is_baseline_eligible (sorted_evaluations evaluations) in
    let by_case = group_onto (λ e. e.eval_case_id) [] eligible in
    map (λ p. (p.0, baseline_of window p.1)) (sorted_items by_case)

unfoldable pub compute_baselines : List EvaluationResult → ℕ → Result (Dict Baseline)
unfolding baselines_for
compute_baselines evaluations window =
    if ltb window 1 then err value_error else Result.ok (baselines_for evaluations window)

abbrev pub evaluation_row : EvaluationResult → EvaluationRow
evaluation_row e = record {
  eval_run_id = e.eval_run_id;
  eval_case_id = e.eval_case_id;
  case_version = e.case_version;
  session_id = e.session_id;
  host = e.host;
  status = status_text e.status;
  checks = λ name. (e.checks name).status;
  metrics = metric_of e;
  recommendations = length e.recommendations;
}

-- The result of `aggregate_evaluations`, once the baselines are there.
unfoldable pub summary_of : List EvaluationResult → Tally → Dict Baseline → EvaluationSummary
unfolding finalize_check finalize_reasons median_metric sorted_items
summary_of items t baseline = record {
  totals = record {
    evaluations = length items;
    judged = counted (get t.statuses "judged");
    judge_skipped = counted (get t.statuses "judge_skipped");
    judge_failed = counted (get t.statuses "judge_failed");
    recommendations = sum_of (λ e. length e.recommendations) items;
  };
  checks = λ name. finalize_check (t.checks name);
  skipped_reasons = finalize_reasons t.skipped_reasons;
  not_ok_cases = t.not_ok_cases;
  recommendation_total = sum_of (λ n. n) (values t.categories);
  by_category = sorted_items t.categories;
  by_priority = sorted_items t.priorities;
  metrics = median_metric items;
  baseline = baseline;
  evaluations = map evaluation_row items;
}

abbrev pub summarized : List EvaluationResult → Result (Dict Baseline) → Result EvaluationSummary
summarized items (err e) = err e
summarized items (Result.ok baseline) = Result.ok (summary_of items (tally items no_tally) baseline)

unfoldable pub aggregate_evaluations : List EvaluationResult → ℕ → Result EvaluationSummary
unfolding compute_baselines sorted_evaluations summary_of tally
aggregate_evaluations evaluations window =
    let items = sorted_evaluations evaluations in summarized items (compute_baselines items window)
