-- ===== src/Eval/Metrics/Consistent.antt =====
-- eval_service/app/aggregation.py: the numbers of one summary against each other.
use codex_browser.Prelude.{
  false, Bool, String, ap, ◌==◌, ◌&&◌, if◌then◌else◌, ℕ, ◌+◌, ◌<◌, ◌≡◌, refl, sym, ◌∙◌, List, [],
  ◌∷◌, arith, length, sum_of, All, ltb, map, sum_of-map, sum_of-sort_by, All-sort_by,
  length-sort_by,
}
use codex_browser.Dict.{Dict}
use codex_browser.Eval.Models.{Result}
use codex_browser.Eval.Metrics.Models.{
  CheckName, EvaluationResult, CheckStatus, ok, not_ok, skipped, check_names,
}
use codex_browser.Eval.Metrics.Summary.{
  CaseRef, CheckSummary, ReasonSummary, EvaluationSummary, Baseline, sorted_items, case_order,
}
use codex_browser.Eval.Metrics.Aggregation.{
  Tally, tally, no_tally, summary_of, sorted_evaluations, aggregate_evaluations, compute_baselines,
  baselines_for, finalize_check, finalize_reasons, sorted_cases,
}
use codex_browser.Eval.Metrics.Counts.{has, status_is, one_if, number_of-tally}
use codex_browser.Eval.Metrics.Listed.{
  refs, number, has_reason, under, cases_under, tally-failed, tally-skipped, check-failed,
  check-skipped,
}
use codex_browser.Eval.Metrics.Balance.{
  IsListed, IsCounted, IsBalanced, tally-IsBalanced, no_tally-IsBalanced,
}

pub record IsConsistent (es : List EvaluationResult) (s : EvaluationSummary) : Type 0 where
  pub complete :
      (name : CheckName)
      → (s.checks name).ok + (s.checks name).not_ok + (s.checks name).skipped ≡ s.totals.evaluations
  pub listed : (name : CheckName) → IsListed (s.checks name)
  pub failed : sum_of (λ name. (s.checks name).not_ok) check_names ≡ length s.not_ok_cases
  pub reasons :
      sum_of (λ name. (s.checks name).skipped) check_names
      ≡ sum_of (λ e. e.1.count) s.skipped_reasons
  pub cases : All (λ e. IsCounted e.1) s.skipped_reasons
  pub failed_cases : s.not_ok_cases ≡ refs not_ok check_names es
  pub failed_in : (name : CheckName) → (s.checks name).not_ok_cases ≡ refs not_ok (name ∷ []) es
  pub skipped_in :
      (name : CheckName) (key : String)
      → under key (s.checks name).skipped_reasons
        ≡ number (has_reason key) (refs skipped (name ∷ []) es)
  pub skipped_for :
      (p : CaseRef → Bool) (key : String)
      → cases_under p key s.skipped_reasons
        ≡ number (λ r. has_reason key r && p r) (refs skipped check_names es)

finalize_check-IsListed : (c : CheckSummary) → IsListed c → IsListed (finalize_check c)
unfolding finalize_check sorted_items
finalize_check-IsListed c (p, q) = (p, q ∙ sym (sum_of-sort_by _ (λ e. e.1) c.skipped_reasons))

sorted_cases-IsCounted : (r : ReasonSummary) → IsCounted r → IsCounted (sorted_cases r)
sorted_cases-IsCounted r h = h ∙ sym (length-sort_by case_order r.cases)

abbrev AllCounted : Dict ReasonSummary → Type 0
AllCounted d = All (λ e. IsCounted e.1) d

map-AllCounted :
    (d : Dict ReasonSummary) → AllCounted d → AllCounted (map (λ p. (p.0, sorted_cases p.1)) d)
map-AllCounted [] h = tt
map-AllCounted ((k, r) ∷ d) (p, h) = (sorted_cases-IsCounted r p, map-AllCounted d h)

finalize_reasons-IsCounted :
    (d : Dict ReasonSummary) → AllCounted d → AllCounted (finalize_reasons d)
unfolding finalize_reasons sorted_items
finalize_reasons-IsCounted d h = map-AllCounted _ (All-sort_by _ (λ e. IsCounted e.1) d h)

sum_of-finalize_reasons :
    (d : Dict ReasonSummary)
    → sum_of (λ e. e.1.count) (finalize_reasons d) ≡ sum_of (λ e. e.1.count) d
unfolding finalize_reasons sorted_items
sum_of-finalize_reasons d = sum_of-map _ _ _ ∙ sum_of-sort_by _ (λ e. e.1.count) d

under-finalize_check :
    (key : String) (c : CheckSummary)
    → under key (finalize_check c).skipped_reasons ≡ under key c.skipped_reasons
unfolding finalize_check sorted_items
under-finalize_check key c = sum_of-sort_by _ (λ e. if e.0 == key then e.1 else 0) c.skipped_reasons

failed-finalize_check : (c : CheckSummary) → (finalize_check c).not_ok_cases ≡ c.not_ok_cases
unfolding finalize_check
failed-finalize_check c = refl

-- Sorting the cases of each reason keeps them.
sorted_under :
    (p : CaseRef → Bool) (key : String) (d : Dict ReasonSummary)
    → cases_under p key (map (λ e. (e.0, sorted_cases e.1)) d) ≡ cases_under p key d
sorted_under p key [] = refl
sorted_under p key ((k, r) ∷ d) = omega (
  arith,
  sorted_under p key d,
  ap (λ n. if k == key then n else 0) (sum_of-sort_by case_order (λ c. one_if (p c)) r.cases),
)

cases_under-finalize_reasons :
    (p : CaseRef → Bool) (key : String) (d : Dict ReasonSummary)
    → cases_under p key (finalize_reasons d) ≡ cases_under p key d
unfolding finalize_reasons sorted_items
cases_under-finalize_reasons p key d =
    sorted_under p key _ ∙ sum_of-sort_by _ (λ e. if e.0 == key then number p e.1.cases else 0) d

one_of_three :
    (status : CheckStatus)
    → one_if (status_is ok status)
        + one_if (status_is not_ok status)
        + one_if (status_is skipped status)
      ≡ 1
one_of_three ok = refl
one_of_three not_ok = refl
one_of_three skipped = refl

one_status :
    (name : CheckName) (es : List EvaluationResult)
    → sum_of (λ e. one_if (has ok name e)) es
        + sum_of (λ e. one_if (has not_ok name e)) es
        + sum_of (λ e. one_if (has skipped name e)) es
      ≡ length es
one_status name [] = refl
one_status name (e ∷ es) = omega (arith, one_status name es, one_of_three (e.checks name).status)

module _ (es : List EvaluationResult) where
  done : Tally
  done = tally es no_tally

  done-IsBalanced : IsBalanced done
  unfolding done
  done-IsBalanced = tally-IsBalanced es no_tally no_tally-IsBalanced

  statuses_complete :
      (name : CheckName)
      → (done.checks name).ok + (done.checks name).not_ok + (done.checks name).skipped ≡ length es
  unfolding done
  statuses_complete name = omega (
    arith,
    number_of-tally ok name es no_tally,
    number_of-tally not_ok name es no_tally,
    number_of-tally skipped name es no_tally,
    one_status name es,
  )

  check_failed :
      (name : CheckName)
      → (finalize_check (done.checks name)).not_ok_cases ≡ refs not_ok (name ∷ []) es
  unfolding done
  check_failed name = failed-finalize_check (done.checks name) ∙ check-failed name es no_tally

  check_skipped :
      (name : CheckName) (key : String)
      → under key (finalize_check (done.checks name)).skipped_reasons
        ≡ number (has_reason key) (refs skipped (name ∷ []) es)
  unfolding done
  check_skipped name key =
      omega (arith, under-finalize_check key (done.checks name), check-skipped key name es no_tally)

  reason_skipped :
      (p : CaseRef → Bool) (key : String)
      → cases_under p key (finalize_reasons done.skipped_reasons)
        ≡ number (λ r. has_reason key r && p r) (refs skipped check_names es)
  unfolding done
  reason_skipped p key = omega (
    arith,
    cases_under-finalize_reasons p key done.skipped_reasons,
    tally-skipped p key es no_tally,
  )

  all_failed : done.not_ok_cases ≡ refs not_ok check_names es
  unfolding done
  all_failed = tally-failed es no_tally

  summary_of-IsConsistent :
      (baseline : Dict Baseline) → IsConsistent es (summary_of es done baseline)
  unfolding summary_of
  summary_of-IsConsistent baseline =
      let h = done-IsBalanced in
      record {
        complete = λ name. statuses_complete name;
        listed = λ name. finalize_check-IsListed (done.checks name) (h.listed name);
        failed = h.failed;
        reasons = h.reasons ∙ sym (sum_of-finalize_reasons done.skipped_reasons);
        cases = finalize_reasons-IsCounted done.skipped_reasons h.cases;
        failed_cases = all_failed;
        failed_in = check_failed;
        skipped_in = check_skipped;
        skipped_for = reason_skipped;
      }

-- A window of at least one has a summary. In it every evaluation has one status in each check; what
-- failed is listed with its check and with the run, in the order of the sorted evaluations, each with
-- its run, case, host, check and reason; and what was skipped is counted with its check under its
-- reason, and with the run under its reason, whose cases, by any test on their run, case, host, check and
-- reason, are those that were skipped for it.
pub aggregate_evaluations-IsConsistent :
    (es : List EvaluationResult) (window : ℕ)
    → 0 < window
    → (s : EvaluationSummary) × ((aggregate_evaluations es window ≡ Result.ok s)
        × IsConsistent (sorted_evaluations es) s)
unfolding aggregate_evaluations compute_baselines done
aggregate_evaluations-IsConsistent es window h =
    let positive : ltb window 1 ≡ false = ground arith in
    let items = sorted_evaluations es in
    let baseline = baselines_for items window in
    (
      summary_of items (done items) baseline,
      (rw positive refl, summary_of-IsConsistent items baseline),
    )
