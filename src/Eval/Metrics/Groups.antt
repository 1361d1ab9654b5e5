-- ===== src/Eval/Metrics/Groups.antt =====
-- eval_service/app/dashboard.py: the numbers of the cases and of the hosts against those of all the
-- evaluations.
use Prim.Native.String.{compare}
use mathlib.Core.Quot
use codex_browser.Prelude.{
  ℕ, ◌+◌, ◌<◌, String, ◌≡◌, refl, ◌∙◌, ap, true, false, Option, none, some, List, [], ◌∷◌, ◌++◌,
  arith, map, length, length_sum, sum_of, sum_of-map, sum_of-append, sum_of_same, sum_of-sort_by,
  ltb,
}
use codex_browser.Dict.{Dict, get, put, sum_of-put, value_or_zero}
use codex_browser.Eval.Models.{Result}
use codex_browser.Eval.Metrics.Models.{
  CheckName, CheckStatus, EvaluationResult, outcome_ok, safety_ok, payment_boundary_ok, evidence_ok,
  recommendations_ok, ok, not_ok, skipped, check_names,
}
use codex_browser.Eval.Metrics.Summary.{
  EvaluationRow, EvaluationSummary, sorted_items, group_onto, list_at,
}
use codex_browser.Eval.Metrics.Aggregation.{
  aggregate_evaluations, evaluation_row, sorted_evaluations, summary_of, tally, no_tally,
  compute_baselines, baselines_for,
}
use codex_browser.Eval.Metrics.Dashboard.{
  CheckCounts, DashboardPayload, evaluations, add_status, count_row, count_rows, check_counts,
  group_rows, case_payload, build_cases_payload, host_payload, build_hosts_payload, as_summary,
  build_dashboard_payload, no_counts,
}
use codex_browser.Eval.Metrics.Counts.{status_is, has, one_if}
use codex_browser.Eval.Metrics.Bag.{Bag, occurrences, total, total-sorted}

module _ {ℓ} {A : Type ℓ} (f : A → ℕ) where
  sum_of-list_at : (o : Option (List A)) → sum_of f (list_at o) ≡ value_or_zero (sum_of f) o
  sum_of-list_at none = refl
  sum_of-list_at (some xs) = refl

  -- Grouping loses nothing and counts nothing twice.
  sum_of-group_onto :
      (key : A → String) (d : Dict (List A)) (xs : List A)
      → sum_of (λ e. sum_of f e.1) (group_onto key d xs)
        ≡ sum_of (λ e. sum_of f e.1) d + sum_of f xs
  unfolding group_onto
  sum_of-group_onto key d [] = omega arith
  sum_of-group_onto key d (x ∷ xs) =
      let old = get d (key x) in
      omega (
        arith,
        sum_of-group_onto key (put d (key x) (list_at old ++ (x ∷ []))) xs,
        sum_of-put (sum_of f) d (key x) (list_at old ++ (x ∷ [])),
        sum_of-append f (list_at old) (x ∷ []),
        sum_of-list_at old,
      )

abbrev pub counts_of : CheckStatus → CheckCounts → ℕ
counts_of ok c = c.ok
counts_of not_ok c = c.not_ok
counts_of skipped c = c.skipped

counts_of-add_status :
    (s status : CheckStatus) (c : CheckCounts)
    → counts_of s (add_status status c) ≡ counts_of s c + one_if (status_is s status)
counts_of-add_status ok ok c = omega arith
counts_of-add_status ok not_ok c = omega arith
counts_of-add_status ok skipped c = omega arith
counts_of-add_status not_ok ok c = omega arith
counts_of-add_status not_ok not_ok c = omega arith
counts_of-add_status not_ok skipped c = omega arith
counts_of-add_status skipped ok c = omega arith
counts_of-add_status skipped not_ok c = omega arith
counts_of-add_status skipped skipped c = omega arith

count_row_all :
    (row : EvaluationRow) (counts : CheckName → CheckCounts) (name : CheckName)
    → count_row row check_names counts name ≡ add_status (row.checks name) (counts name)
unfolding count_row
count_row_all row counts outcome_ok = refl
count_row_all row counts safety_ok = refl
count_row_all row counts payment_boundary_ok = refl
count_row_all row counts evidence_ok = refl
count_row_all row counts recommendations_ok = refl

abbrev row_has : CheckStatus → CheckName → EvaluationRow → ℕ
row_has s name row = one_if (status_is s (row.checks name))

counts_of-count_rows :
    (s : CheckStatus) (name : CheckName) (rows : List EvaluationRow)
    (counts : CheckName → CheckCounts)
    → counts_of s (count_rows rows counts name)
      ≡ counts_of s (counts name) + sum_of (row_has s name) rows
unfolding count_rows
counts_of-count_rows s name [] counts = omega arith
counts_of-count_rows s name (row ∷ rows) counts = omega (
  arith,
  counts_of-count_rows s name rows (count_row row check_names counts),
  ap (counts_of s) (count_row_all row counts name),
  counts_of-add_status s (row.checks name) (counts name),
)

none_counted : (s : CheckStatus) → counts_of s no_counts ≡ 0
none_counted ok = refl
none_counted not_ok = refl
none_counted skipped = refl

counts_of-check_counts :
    (s : CheckStatus) (name : CheckName) (rows : List EvaluationRow)
    → counts_of s (check_counts rows name) ≡ sum_of (row_has s name) rows
unfolding check_counts
counts_of-check_counts s name rows =
    omega (arith, counts_of-count_rows s name rows (λ other. no_counts), none_counted s)

-- The groups by one key, in the order of the keys, have the numbers of all the rows.
sum_of-sorted_groups :
    (key : EvaluationRow → String) (f : EvaluationRow → ℕ) (rows : List EvaluationRow)
    → sum_of (λ e. sum_of f e.1) (sorted_items (group_rows key rows)) ≡ sum_of f rows
unfolding sorted_items group_rows
sum_of-sorted_groups key f rows = omega (
  arith,
  sum_of-sort_by (λ a b. compare a.0 b.0) (λ e. sum_of f e.1) (group_onto key [] rows),
  sum_of-group_onto f key [] rows,
)

sum_of-rows :
    (f : EvaluationRow → ℕ) (es : List EvaluationResult)
    → sum_of f (map evaluation_row (sorted_evaluations es))
      ≡ total (λ e. f (evaluation_row e)) (Quot.mk es)
sum_of-rows f es = sum_of-map f evaluation_row _ ∙ total-sorted (λ e. f (evaluation_row e)) es

-- The parts of a dashboard have the numbers of the bag.
pub record AddsUp (p : DashboardPayload) (bag : Bag) : Type 0 where
  pub cases_checks :
      (name : CheckName) (status : CheckStatus)
      → sum_of (λ c. counts_of status (c.checks name)) p.cases ≡ occurrences (has status name) bag
  pub hosts_checks :
      (name : CheckName) (status : CheckStatus)
      → sum_of (λ h. counts_of status (h.checks name)) p.hosts ≡ occurrences (has status name) bag
  pub cases_total : sum_of (λ c. c.total) p.cases ≡ occurrences (λ e. true) bag
  pub hosts_total : sum_of (λ h. h.total) p.hosts ≡ occurrences (λ e. true) bag
  pub cases_recommendations :
      sum_of (λ c. c.recommendations) p.cases ≡ total (λ e. length e.recommendations) bag
  pub hosts_recommendations :
      sum_of (λ h. h.recommendations) p.hosts ≡ total (λ e. length e.recommendations) bag

module _ (es : List EvaluationResult) (s : EvaluationSummary)
    (rows : s.evaluations ≡ map evaluation_row (sorted_evaluations es)) where
  -- A number of the payloads of the groups, where it is that of the rows of a group.
  sum_of-payloads :
      {P : Type 0} (key : EvaluationRow → String) (payload : String × List EvaluationRow → P)
      (g : P → ℕ) (f : EvaluationRow → ℕ)
      → ((e : String × List EvaluationRow) → g (payload e) ≡ sum_of f e.1)
      → sum_of g (map payload (sorted_items (group_rows key s.evaluations)))
        ≡ total (λ e. f (evaluation_row e)) (Quot.mk es)
  sum_of-payloads key payload g f h =
      sum_of-map g payload _
      ∙ sum_of_same _ _ _ h
      ∙ sum_of-sorted_groups key f s.evaluations
      ∙ ap (sum_of f) rows
      ∙ sum_of-rows f es

  abbrev payload : DashboardPayload
  unfolding build_cases_payload build_hosts_payload
  payload = record { cases = build_cases_payload s; hosts = build_hosts_payload s }

  payload-AddsUp : AddsUp payload (Quot.mk es)
  unfolding build_cases_payload build_hosts_payload case_payload host_payload occurrences
  payload-AddsUp = record {
    cases_checks = λ name status.
        sum_of-payloads _ (case_payload s.baseline) _ (row_has status name)
          (λ e. counts_of-check_counts status name e.1);
    hosts_checks = λ name status.
        sum_of-payloads _ host_payload _ (row_has status name)
          (λ e. counts_of-check_counts status name e.1);
    cases_total = sum_of-payloads _ (case_payload s.baseline) _ (λ row. 1) (λ e. length_sum e.1);
    hosts_total = sum_of-payloads _ host_payload _ (λ row. 1) (λ e. length_sum e.1);
    cases_recommendations =
        sum_of-payloads _ (case_payload s.baseline) _ (λ row. row.recommendations) (λ e. refl);
    hosts_recommendations =
        sum_of-payloads _ host_payload _ (λ row. row.recommendations) (λ e. refl);
  }

-- A window of at least one has a dashboard. Over its cases, and over its hosts, the evaluations, the
-- statuses of each check and the recommendations add up to those of the evaluations given.
pub build_dashboard_payload-AddsUp :
    (es : List EvaluationResult) (window : ℕ)
    → 0 < window
    → (p : DashboardPayload) × ((build_dashboard_payload (evaluations es) window ≡ Result.ok p)
        × AddsUp p (Quot.mk es))
unfolding build_dashboard_payload as_summary aggregate_evaluations compute_baselines summary_of
build_dashboard_payload-AddsUp es window h =
    let positive : ltb window 1 ≡ false = ground arith in
    let items = sorted_evaluations es in
    let s = summary_of items (tally items no_tally) (baselines_for items window) in
    (payload es s refl, (rw positive refl, payload-AddsUp es s refl))
