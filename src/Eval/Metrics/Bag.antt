-- ===== src/Eval/Metrics/Bag.antt =====
-- eval_service/app/aggregation.py: the numbers of a summary against the evaluations seen as a bag,
-- without their order.
use mathlib.Core.Quot.{Quot}
use mathlib.Core.Quot
use mathlib.Core.List.{Perm, foldr}
use mathlib.Core.List.Perm
use native.Mathlib.Nat.{ℕ_set}
use codex_browser.Prelude.{
  String, ℕ, ◌+◌, ◌==◌, ◌<◌, ◌≡◌, refl, sym, ◌∙◌, ap, Bool, true, false, List, [], ◌∷◌, arith,
  length, sum_of, sum_of-sort_by, length_sum, ltb,
}
use codex_browser.Eval.Models.{Result}
use codex_browser.Eval.Metrics.Models.{
  CheckName, CheckStatus, EvaluationResult, ok, not_ok, skipped, status_text,
}
use codex_browser.Eval.Metrics.Summary.{
  CheckSummary, counted, EvaluationSummary, Baseline, evaluation_order,
}
use codex_browser.Dict.{Dict, get, get-empty}
use codex_browser.Eval.Metrics.Aggregation.{
  Tally, tally, no_tally, summary_of, sorted_evaluations, aggregate_evaluations, compute_baselines,
  baselines_for, finalize_check, empty_check,
}
use codex_browser.Eval.Metrics.Counts.{has, number_of, one_if, number_of-tally, statuses-tally}

-- A bag of evaluations: a list up to its order.
abbrev pub Bag : Type 0
Bag = Quot (Perm {A = EvaluationResult})

sum_of-foldr :
    (f : EvaluationResult → ℕ) (xs : List EvaluationResult)
    → sum_of f xs ≡ foldr (λ x n. f x + n) 0 xs
sum_of-foldr f [] = refl
sum_of-foldr f (x ∷ xs) = ap (λ n. f x + n) (sum_of-foldr f xs)

pub sum_of-perm :
    (f : EvaluationResult → ℕ) (xs ys : List EvaluationResult)
    → Perm xs ys
    → sum_of f xs ≡ sum_of f ys
sum_of-perm f xs ys p =
    sum_of-foldr f xs
    ∙ Perm.foldr-eq ℕ_set (λ x n. f x + n) (λ a b n. omega arith) p 0
    ∙ sym (sum_of-foldr f ys)

-- The sum of a number over the evaluations of a bag.
unfoldable pub total : (EvaluationResult → ℕ) → Bag → ℕ
total f = Quot.lift ℕ_set (sum_of f) (sum_of-perm f)

-- How many evaluations of the bag pass the test.
unfoldable pub occurrences : (EvaluationResult → Bool) → Bag → ℕ
unfolding total
occurrences p = total (λ e. one_if (p e))

-- What a summary promises, whatever the order of the evaluations.
pub record Scoreboard : Type 0 where
  pub evaluations : ℕ
  pub judged : ℕ
  pub judge_skipped : ℕ
  pub judge_failed : ℕ
  pub recommendations : ℕ
  pub checks : CheckName → CheckStatus → ℕ

unfoldable pub scores : Bag → Scoreboard
unfolding occurrences total
scores bag = record {
  evaluations = occurrences (λ e. true) bag;
  judged = occurrences (λ e. status_text e.status == "judged") bag;
  judge_skipped = occurrences (λ e. status_text e.status == "judge_skipped") bag;
  judge_failed = occurrences (λ e. status_text e.status == "judge_failed") bag;
  recommendations = total (λ e. length e.recommendations) bag;
  checks = λ name status. occurrences (has status name) bag;
}

-- The same numbers of a summary.
abbrev pub view : EvaluationSummary → Scoreboard
view s = record {
  evaluations = s.totals.evaluations;
  judged = s.totals.judged;
  judge_skipped = s.totals.judge_skipped;
  judge_failed = s.totals.judge_failed;
  recommendations = s.totals.recommendations;
  checks = λ name status. number_of status (s.checks name);
}

-- A number of the sorted evaluations is that of the bag.
pub total-sorted :
    (f : EvaluationResult → ℕ) (es : List EvaluationResult)
    → sum_of f (sorted_evaluations es) ≡ total f (Quot.mk es)
unfolding total sorted_evaluations
total-sorted f es = sum_of-sort_by evaluation_order f es

pub number_of-finalize_check :
    (status : CheckStatus) (c : CheckSummary)
    → number_of status (finalize_check c) ≡ number_of status c
unfolding finalize_check
number_of-finalize_check ok c = refl
number_of-finalize_check not_ok c = refl
number_of-finalize_check skipped c = refl

none_counted : (status : CheckStatus) → number_of status empty_check ≡ 0
none_counted ok = refl
none_counted not_ok = refl
none_counted skipped = refl

module _ (es : List EvaluationResult) where
  items : List EvaluationResult
  items = sorted_evaluations es

  done : Tally
  done = tally items no_tally

  check_counted :
      (name : CheckName) (status : CheckStatus)
      → number_of status (finalize_check (done.checks name))
        ≡ occurrences (has status name) (Quot.mk es)
  unfolding done items finalize_check occurrences
  check_counted name status = omega (
    arith,
    number_of-finalize_check status (done.checks name),
    number_of-tally status name items no_tally,
    none_counted status,
    total-sorted (λ e. one_if (has status name e)) es,
  )

  status_counted :
      (key : String)
      → counted (get done.statuses key)
        ≡ occurrences (λ e. status_text e.status == key) (Quot.mk es)
  unfolding done items occurrences
  status_counted key = omega (
    arith,
    statuses-tally key items no_tally,
    ap counted (get-empty {V = ℕ} key),
    total-sorted (λ e. one_if (status_text e.status == key)) es,
  )

  view-summary_of :
      (baseline : Dict Baseline) → view (summary_of items done baseline) ≡ scores (Quot.mk es)
  unfolding summary_of scores done items occurrences
  view-summary_of baseline i = record {
    evaluations = (length_sum items ∙ total-sorted (λ e. 1) es) i;
    judged = status_counted "judged" i;
    judge_skipped = status_counted "judge_skipped" i;
    judge_failed = status_counted "judge_failed" i;
    recommendations = total-sorted (λ e. length e.recommendations) es i;
    checks = λ name status. check_counted name status i;
  }

-- A window of at least one has a summary, and what it counts, each status of the evaluations and of
-- each check and the recommendations, is what the bag of the evaluations holds, whatever their order.
pub view-aggregate_evaluations :
    (es : List EvaluationResult) (window : ℕ)
    → 0 < window
    → (s : EvaluationSummary) × ((aggregate_evaluations es window ≡ Result.ok s)
        × (view s ≡ scores (Quot.mk es)))
unfolding aggregate_evaluations compute_baselines items done
view-aggregate_evaluations es window h =
    let positive : ltb window 1 ≡ false = ground arith in
    let baseline = baselines_for (items es) window in
    (summary_of (items es) (done es) baseline, (rw positive refl, view-summary_of es baseline))
