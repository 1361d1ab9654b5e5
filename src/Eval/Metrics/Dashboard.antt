-- ===== src/Eval/Metrics/Dashboard.antt =====
-- eval_service/app/dashboard.py: the cases and the hosts of a summary, from its rows.
use Prim.Native.Nat.{Ordering, compare as compare_nat}
use Prim.Native.String.{compare, then}
use codex_browser.Prelude.{
  ℕ, suc, String, Bool, Option, none, some, List, [], ◌∷◌, ◌||◌, map, filter, length, sum_of,
  sort_by, sorted_set, ltb,
}
use codex_browser.Dict.{Dict, get}
use codex_browser.Eval.Models.{Result, err}
use codex_browser.Eval.Metrics.Models.{
  CheckName, CheckStatus, EvaluationResult, ok, not_ok, skipped, check_names,
}
use codex_browser.Eval.Metrics.Numbers.{Number, median, metric_delta}
use codex_browser.Eval.Metrics.Summary.{
  MetricName, Baseline, EvaluationRow, EvaluationSummary, at_check, sorted_items, group_onto,
  by_texts,
}
use codex_browser.Eval.Metrics.Aggregation.{aggregate_evaluations}

pub record CheckCounts : Type 0 where
  pub ok : ℕ
  pub not_ok : ℕ
  pub skipped : ℕ

pub record DeltaRow : Type 0 where
  pub row : EvaluationRow
  pub baseline_delta : MetricName → Option Number

pub record CasePayload : Type 0 where
  pub eval_case_id : String
  pub total : ℕ
  pub hosts : List String
  pub checks : CheckName → CheckCounts
  pub metrics : MetricName → Option Number
  pub recommendations : ℕ
  pub baseline : Option Baseline
  pub evaluations : List DeltaRow

pub record WorstCase : Type 0 where
  pub eval_case_id : String
  pub not_ok : ℕ
  pub skipped : ℕ
  pub recommendations : ℕ

pub record HostPayload : Type 0 where
  pub host : String
  pub total : ℕ
  pub cases : List String
  pub checks : CheckName → CheckCounts
  pub metrics : MetricName → Option Number
  pub recommendations : ℕ
  pub worst_cases : List WorstCase
  pub evaluations : List EvaluationRow

pub record DashboardPayload : Type 0 where
  pub cases : List CasePayload
  pub hosts : List HostPayload

-- The first argument of `build_dashboard_payload`.
pub data DashboardInput : Type 0 where
  evaluations : List EvaluationResult → DashboardInput
  summary : EvaluationSummary → DashboardInput

abbrev pub no_counts : CheckCounts
no_counts = record { ok = 0; not_ok = 0; skipped = 0 }

abbrev pub add_status : CheckStatus → CheckCounts → CheckCounts
add_status ok c = record c { ok = suc c.ok }
add_status not_ok c = record c { not_ok = suc c.not_ok }
add_status skipped c = record c { skipped = suc c.skipped }

-- The checks of one row.
unfoldable pub count_row :
    EvaluationRow → List CheckName → (CheckName → CheckCounts) → CheckName → CheckCounts
count_row row [] counts = counts
count_row row (name ∷ names) counts =
    count_row row names (at_check name (add_status (row.checks name)) counts)

unfoldable pub count_rows : List EvaluationRow → (CheckName → CheckCounts) → CheckName → CheckCounts
unfolding count_row
count_rows [] counts = counts
count_rows (row ∷ rows) counts = count_rows rows (count_row row check_names counts)

-- `_check_counts`
unfoldable pub check_counts : List EvaluationRow → CheckName → CheckCounts
unfolding count_rows
check_counts rows = count_rows rows (λ name. no_counts)

-- `_metrics_summary`
unfoldable pub metrics_summary : List EvaluationRow → MetricName → Option Number
unfolding median
metrics_summary rows name = median (map (λ row. row.metrics name) rows)

-- `_sort_rows`
unfoldable pub sort_rows : List EvaluationRow → List EvaluationRow
unfolding sort_by
sort_rows rows =
    sort_by
      (λ a b.
        by_texts (a.eval_run_id ∷ a.eval_case_id ∷ a.session_id ∷ [])
          (b.eval_run_id ∷ b.eval_case_id ∷ b.session_id ∷ []))
      rows

-- `_group_rows`
unfoldable pub group_rows :
    (EvaluationRow → String) → List EvaluationRow → Dict (List EvaluationRow)
unfolding group_onto
group_rows key rows = group_onto key [] rows

abbrev pub baseline_metric : Option Baseline → MetricName → Option Number
baseline_metric none name = none
baseline_metric (some b) name = b.metrics name

-- `_row_with_baseline_delta`
unfoldable pub row_with_delta : Option Baseline → EvaluationRow → DeltaRow
unfolding metric_delta
row_with_delta baseline row = record {
  row = row;
  baseline_delta = λ name. metric_delta (row.metrics name) (baseline_metric baseline name);
}

abbrev pub recommendations_of : List EvaluationRow → ℕ
recommendations_of rows = sum_of (λ row. row.recommendations) rows

-- One turn of the loop of `build_cases_payload`.
unfoldable pub case_payload : Dict Baseline → String × List EvaluationRow → CasePayload
unfolding sorted_set check_counts metrics_summary sort_rows row_with_delta get
case_payload baselines (eval_case_id, rows) = record {
  eval_case_id = eval_case_id;
  total = length rows;
  hosts = sorted_set (map (λ row. row.host) rows);
  checks = check_counts rows;
  metrics = metrics_summary rows;
  recommendations = recommendations_of rows;
  baseline = get baselines eval_case_id;
  evaluations = map (row_with_delta (get baselines eval_case_id)) (sort_rows rows);
}

unfoldable pub build_cases_payload : EvaluationSummary → List CasePayload
unfolding case_payload sorted_items group_rows
build_cases_payload s =
    map (case_payload s.baseline)
      (sorted_items (group_rows (λ row. row.eval_case_id) s.evaluations))

-- `status_counter[status]` over all the checks of the rows.
abbrev pub total_of : (CheckCounts → ℕ) → List EvaluationRow → ℕ
unfolding check_counts
total_of f rows = sum_of (λ name. f (check_counts rows name)) check_names

abbrev pub worst_case : String × List EvaluationRow → WorstCase
worst_case (eval_case_id, rows) = record {
  eval_case_id = eval_case_id;
  not_ok = total_of (λ c. c.not_ok) rows;
  skipped = total_of (λ c. c.skipped) rows;
  recommendations = recommendations_of rows;
}

abbrev pub is_worst : WorstCase → Bool
is_worst item = ltb 0 item.not_ok || ltb 0 item.skipped || ltb 0 item.recommendations

-- The numbers are negated in the key: the larger goes first.
abbrev pub worst_order : WorstCase → WorstCase → Ordering
worst_order a b = (then) (compare_nat b.not_ok a.not_ok) (
    (then) (compare_nat b.skipped a.skipped) (
      (then) (compare_nat b.recommendations a.recommendations)
        (compare a.eval_case_id b.eval_case_id)))

unfoldable pub worst_cases : List EvaluationRow → List WorstCase
unfolding check_counts group_rows sort_by
worst_cases rows =
    sort_by worst_order
      (filter is_worst (map worst_case (group_rows (λ row. row.eval_case_id) rows)))

-- One turn of the loop of `build_hosts_payload`.
unfoldable pub host_payload : String × List EvaluationRow → HostPayload
unfolding sorted_set check_counts metrics_summary sort_rows worst_cases
host_payload (host, rows) = record {
  host = host;
  total = length rows;
  cases = sorted_set (map (λ row. row.eval_case_id) rows);
  checks = check_counts rows;
  metrics = metrics_summary rows;
  recommendations = recommendations_of rows;
  worst_cases = worst_cases rows;
  evaluations = sort_rows rows;
}

unfoldable pub build_hosts_payload : EvaluationSummary → List HostPayload
unfolding host_payload sorted_items group_rows
build_hosts_payload s = map host_payload (sorted_items (group_rows (λ row. row.host) s.evaluations))

-- `_as_summary`
unfoldable pub as_summary : DashboardInput → ℕ → Result EvaluationSummary
unfolding aggregate_evaluations
as_summary (evaluations es) window = aggregate_evaluations es window
as_summary (summary s) window = Result.ok s

abbrev pub payload_of : Result EvaluationSummary → Result DashboardPayload
unfolding build_cases_payload build_hosts_payload
payload_of (err e) = err e
payload_of (Result.ok s) =
    Result.ok (record { cases = build_cases_payload s; hosts = build_hosts_payload s })

unfoldable pub build_dashboard_payload : DashboardInput → ℕ → Result DashboardPayload
unfolding as_summary build_cases_payload build_hosts_payload
build_dashboard_payload input window = payload_of (as_summary input window)
