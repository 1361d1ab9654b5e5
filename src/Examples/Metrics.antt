-- ===== src/Examples/Metrics.antt =====
-- Three judged cases of two hosts: their summary and their dashboard.
use mathlib.Core.Quot
use codex_browser.Prelude.{ℕ, String, ◌≡◌, refl, some, none, List, [], ◌∷◌, arith}
use codex_browser.Dict.{Dict}
use codex_browser.Eval.Models.{Result, err, value_error}
use codex_browser.Eval.Metrics.Models.{
  CheckName, CheckStatus, EvaluationCheck, EvaluationResult, outcome_ok, ok, not_ok, skipped,
  judged,
}
use codex_browser.Eval.Metrics.Numbers.{Number, half, pos, known, median}
use codex_browser.Eval.Metrics.Summary.{Baseline, EvaluationSummary}
use codex_browser.Eval.Metrics.Aggregation.{
  aggregate_evaluations, compute_baselines, sorted_evaluations,
}
use codex_browser.Eval.Metrics.Dashboard.{DashboardPayload, evaluations, build_dashboard_payload}
use codex_browser.Eval.Metrics.Bag.{scores, view, view-aggregate_evaluations}
use codex_browser.Eval.Metrics.Median.{Halves, median-Halves}
use codex_browser.Eval.Metrics.Baselines.{AllSampled, compute_baselines-IsSampled}
use codex_browser.Eval.Metrics.Consistent.{IsConsistent, aggregate_evaluations-IsConsistent}
use codex_browser.Eval.Metrics.Groups.{AddsUp, build_dashboard_payload-AddsUp}

abbrev check_of : CheckStatus → String → EvaluationCheck
check_of status reason = record { status = status; reason = reason; evidence_refs = [] }

-- The first check has its own status, the others are ok.
abbrev checks_of : EvaluationCheck → CheckName → EvaluationCheck
checks_of first outcome_ok = first
checks_of first _ = check_of ok "seen"

abbrev result_of : String → String → ℕ → EvaluationCheck → EvaluationResult
result_of case host duration first = record {
  eval_run_id = "run1";
  eval_case_id = case;
  case_version = "1";
  session_id = "s1";
  host = host;
  status = judged;
  metrics = record {
    duration_ms = some duration;
    buyer_tokens_used = none;
    judge_tokens_used = none;
  };
  checks = checks_of first;
  evidence_refs = [];
  recommendations = [];
  judge_metadata = record { backend = "codex"; model = "m" };
}

abbrev three : List EvaluationResult
three =
    result_of "case2" "b.ru" 40 (check_of not_ok "wrong item")
    ∷ result_of "case1" "a.ru" 10 (check_of ok "seen")
    ∷ result_of "case3" "a.ru" 25 (check_of skipped "no trace")
    ∷ []

three_median : median (some 40 ∷ none ∷ some 10 ∷ some 25 ∷ some 26 ∷ []) ≡ some (half (pos 25))
unfolding median
three_median = refl

three_window : aggregate_evaluations three 0 ≡ err value_error
unfolding aggregate_evaluations
three_window = refl

median-Halves_example :
    (m : Number) × ((median (some 40 ∷ none ∷ some 10 ∷ []) ≡ some m)
      × Halves m (known (some 40 ∷ none ∷ some 10 ∷ [])))
unfolding known
median-Halves_example = median-Halves (some 40 ∷ none ∷ some 10 ∷ []) (omega arith)

view-aggregate_evaluations_example :
    (s : EvaluationSummary) × ((aggregate_evaluations three 5 ≡ Result.ok s)
      × (view s ≡ scores (Quot.mk three)))
view-aggregate_evaluations_example = view-aggregate_evaluations three 5 (omega arith)

aggregate_evaluations-IsConsistent_example :
    (s : EvaluationSummary) × ((aggregate_evaluations three 5 ≡ Result.ok s)
      × IsConsistent (sorted_evaluations three) s)
aggregate_evaluations-IsConsistent_example =
    aggregate_evaluations-IsConsistent three 5 (omega arith)

compute_baselines-IsSampled_example :
    (d : Dict Baseline) × ((compute_baselines three 5 ≡ Result.ok d) × AllSampled 5 d)
compute_baselines-IsSampled_example = compute_baselines-IsSampled three 5 (omega arith)

build_dashboard_payload-AddsUp_example :
    (p : DashboardPayload) × ((build_dashboard_payload (evaluations three) 5 ≡ Result.ok p)
      × AddsUp p (Quot.mk three))
build_dashboard_payload-AddsUp_example = build_dashboard_payload-AddsUp three 5 (omega arith)
