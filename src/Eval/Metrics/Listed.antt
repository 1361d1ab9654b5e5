-- ===== src/Eval/Metrics/Listed.antt =====
-- eval_service/app/aggregation.py: which cases the loop of `aggregate_evaluations` lists, and under
-- which reasons it counts them.
use codex_browser.Prelude.{
  ℕ, suc, ◌+◌, String, ◌≡◌, refl, ◌∙◌, ap, sym, Bool, Option, none, some, List, [], ◌∷◌, ◌++◌,
  arith, ◌==◌, ◌&&◌, if◌then◌else◌, sum_of, eq_iff, Bool-cases, inl, inr, append_assoc, append-nil,
}
use codex_browser.Dict.{Dict, get, put, value_or_zero}
use codex_browser.Eval.Metrics.Models.{
  CheckName, CheckStatus, EvaluationResult, EvaluationRecommendation, ok, not_ok, skipped,
  check_names,
}
use codex_browser.Eval.Metrics.Summary.{CaseRef, CheckSummary, ReasonSummary, counted, bump}
use codex_browser.Eval.Metrics.Aggregation.{
  Tally, count_status, note_status, count_check, count_checks, count_recommendations,
  count_evaluation, tally, case_ref, add_skipped, reason_or_empty,
}
use codex_browser.Eval.Metrics.Counts.{has, one_if, count_evaluation-checks}

-- What a list of cases says of one check of an evaluation.
abbrev pub ref_of : EvaluationResult → CheckName → CaseRef
ref_of e name = record {
  eval_run_id = e.eval_run_id;
  eval_case_id = e.eval_case_id;
  host = e.host;
  check = name;
  reason = (e.checks name).reason;
}

-- The cases of one evaluation that have the status in one of the checks.
abbrev pub refs_in : CheckStatus → List CheckName → EvaluationResult → List CaseRef
refs_in status [] e = []
refs_in status (name ∷ names) e =
    (if has status name e then ref_of e name ∷ [] else []) ++ refs_in status names e

abbrev pub refs : CheckStatus → List CheckName → List EvaluationResult → List CaseRef
refs status names [] = []
refs status names (e ∷ es) = refs_in status names e ++ refs status names es

-- How many of the cases pass the test.
abbrev pub number : (CaseRef → Bool) → List CaseRef → ℕ
number p rs = sum_of (λ r. one_if (p r)) rs

abbrev pub has_reason : String → CaseRef → Bool
has_reason key r = r.reason == key

-- The number that stands under the key.
abbrev pub under : String → Dict ℕ → ℕ
under key d = sum_of (λ e. if e.0 == key then e.1 else 0) d

-- How many of the cases under the key pass the test.
abbrev pub cases_under : (CaseRef → Bool) → String → Dict ReasonSummary → ℕ
cases_under p key d = sum_of (λ e. if e.0 == key then number p e.1.cases else 0) d

number-append :
    (p : CaseRef → Bool) (xs ys : List CaseRef) → number p (xs ++ ys) ≡ number p xs + number p ys
number-append p [] ys = omega arith
number-append p (x ∷ xs) ys = omega (arith, number-append p xs ys)

-- What an assignment does to a sum over the entries of one key.
sum_under-put :
    {V : Type 0} (f : V → ℕ) (key : String) (d : Dict V) (k : String) (v : V)
    → sum_of (λ e. if e.0 == key then f e.1 else 0) (put d k v)
        + (if k == key then value_or_zero f (get d k) else 0)
      ≡ sum_of (λ e. if e.0 == key then f e.1 else 0) d + (if k == key then f v else 0)
unfolding get put
sum_under-put f key [] k v = ground arith
sum_under-put f key ((j, w) ∷ d) k v = ground (arith, sum_under-put f key d k v, eq_iff j k)

under-bump : (key k : String) (d : Dict ℕ) → under key (bump d k) ≡ under key d + one_if (k == key)
unfolding bump
under-bump key k d =
    let put_lem = sum_under-put (λ n. n) key d k (suc (counted (get d k))) in
    ground (arith, put_lem)

old_cases :
    (p : CaseRef → Bool) (o : Option ReasonSummary)
    → number p (reason_or_empty o).cases ≡ value_or_zero (λ r. number p r.cases) o
old_cases p none = refl
old_cases p (some r) = refl

cases_under-add_skipped :
    (p : CaseRef → Bool) (key : String) (ref : CaseRef) (d : Dict ReasonSummary)
    → cases_under p key (add_skipped ref d)
      ≡ cases_under p key d + one_if (has_reason key ref && p ref)
unfolding add_skipped
cases_under-add_skipped p key ref d =
    let old = reason_or_empty (get d ref.reason) in
    let put_lem =
      sum_under-put (λ r. number p r.cases) key d ref.reason
        (record { count = suc old.count; cases = old.cases ++ (ref ∷ []) }) in
    let more = number-append p old.cases (ref ∷ []) in
    let was = old_cases p (get d ref.reason) in
    elim (Bool-cases (ref.reason == key)) [
      | inl e ↦ ground (arith, put_lem, more, was, e)
      | inr e ↦ ground (arith, put_lem, e)
    ]

-- One check of one evaluation, on the list of all failures and on the reasons.
note_failed :
    (status : CheckStatus) (name : CheckName) (e : EvaluationResult) (t : Tally)
    → (e.checks name).status ≡ status
    → (note_status status (case_ref e name) t).not_ok_cases
      ≡ t.not_ok_cases ++ (if has not_ok name e then ref_of e name ∷ [] else [])
note_failed ok name e t h = rw h (sym (append-nil t.not_ok_cases))
note_failed not_ok name e t h = rw h refl
note_failed skipped name e t h = rw h (sym (append-nil t.not_ok_cases))

note_skipped :
    (p : CaseRef → Bool) (key : String) (status : CheckStatus) (name : CheckName)
    (e : EvaluationResult) (t : Tally)
    → (e.checks name).status ≡ status
    → cases_under p key (note_status status (case_ref e name) t).skipped_reasons
      ≡ cases_under p key t.skipped_reasons
        + number
            (λ r. has_reason key r && p r)
            (if has skipped name e then ref_of e name ∷ [] else [])
note_skipped p key ok name e t h = rw h (omega arith)
note_skipped p key not_ok name e t h = rw h (omega arith)
note_skipped p key skipped name e t h =
    rw h (omega (arith, cases_under-add_skipped p key (case_ref e name) t.skipped_reasons))

count_checks-failed :
    (e : EvaluationResult) (names : List CheckName) (t : Tally)
    → (count_checks e names t).not_ok_cases ≡ t.not_ok_cases ++ refs_in not_ok names e
unfolding count_checks
count_checks-failed e [] t = sym (append-nil t.not_ok_cases)
count_checks-failed e (name ∷ names) t =
    count_checks-failed e names (count_check e name t)
    ∙ ap (λ l. l ++ refs_in not_ok names e) (note_failed (e.checks name).status name e _ refl)
    ∙ append_assoc t.not_ok_cases _ (refs_in not_ok names e)

count_checks-skipped :
    (p : CaseRef → Bool) (key : String) (e : EvaluationResult) (names : List CheckName) (t : Tally)
    → cases_under p key (count_checks e names t).skipped_reasons
      ≡ cases_under p key t.skipped_reasons
        + number (λ r. has_reason key r && p r) (refs_in skipped names e)
unfolding count_checks
count_checks-skipped p key e [] t = omega arith
count_checks-skipped p key e (name ∷ names) t = omega (
  arith,
  count_checks-skipped p key e names (count_check e name t),
  note_skipped p key (e.checks name).status name e _ refl,
  number-append (λ r. has_reason key r && p r)
      (if has skipped name e then ref_of e name ∷ [] else []) (refs_in skipped names e),
)

count_recommendations-failed :
    (rs : List EvaluationRecommendation) (t : Tally)
    → (count_recommendations rs t).not_ok_cases ≡ t.not_ok_cases
unfolding count_recommendations
count_recommendations-failed [] t = refl
count_recommendations-failed (r ∷ rs) t = count_recommendations-failed rs _

count_recommendations-skipped :
    (rs : List EvaluationRecommendation) (t : Tally)
    → (count_recommendations rs t).skipped_reasons ≡ t.skipped_reasons
unfolding count_recommendations
count_recommendations-skipped [] t = refl
count_recommendations-skipped (r ∷ rs) t = count_recommendations-skipped rs _

count_evaluation-failed :
    (e : EvaluationResult) (t : Tally)
    → (count_evaluation e t).not_ok_cases ≡ t.not_ok_cases ++ refs_in not_ok check_names e
unfolding count_evaluation
count_evaluation-failed e t =
    count_checks-failed e check_names _
    ∙ ap (λ l. l ++ refs_in not_ok check_names e) (count_recommendations-failed e.recommendations _)

count_evaluation-skipped :
    (p : CaseRef → Bool) (key : String) (e : EvaluationResult) (t : Tally)
    → cases_under p key (count_evaluation e t).skipped_reasons
      ≡ cases_under p key t.skipped_reasons
        + number (λ r. has_reason key r && p r) (refs_in skipped check_names e)
unfolding count_evaluation
count_evaluation-skipped p key e t =
    count_checks-skipped p key e check_names _
    ∙ ap
        (λ d.
          cases_under p key d
          + number (λ r. has_reason key r && p r) (refs_in skipped check_names e))
        (count_recommendations-skipped e.recommendations _)

-- The failures of all checks, in the order of the evaluations and of their checks.
pub tally-failed :
    (es : List EvaluationResult) (t : Tally)
    → (tally es t).not_ok_cases ≡ t.not_ok_cases ++ refs not_ok check_names es
unfolding tally
tally-failed [] t = sym (append-nil t.not_ok_cases)
tally-failed (e ∷ es) t =
    tally-failed es (count_evaluation e t)
    ∙ ap (λ l. l ++ refs not_ok check_names es) (count_evaluation-failed e t)
    ∙ append_assoc t.not_ok_cases (refs_in not_ok check_names e) (refs not_ok check_names es)

-- The cases that were skipped for a reason, with any test on them.
pub tally-skipped :
    (p : CaseRef → Bool) (key : String) (es : List EvaluationResult) (t : Tally)
    → cases_under p key (tally es t).skipped_reasons
      ≡ cases_under p key t.skipped_reasons
        + number (λ r. has_reason key r && p r) (refs skipped check_names es)
unfolding tally
tally-skipped p key [] t = omega arith
tally-skipped p key (e ∷ es) t = omega (
  arith,
  tally-skipped p key es (count_evaluation e t),
  count_evaluation-skipped p key e t,
  number-append (λ r. has_reason key r && p r) (refs_in skipped check_names e)
      (refs skipped check_names es),
)

status_failed :
    (status : CheckStatus) (name : CheckName) (e : EvaluationResult) (c : CheckSummary)
    → (e.checks name).status ≡ status
    → (count_status status (case_ref e name) c).not_ok_cases
      ≡ c.not_ok_cases ++ refs_in not_ok (name ∷ []) e
status_failed ok name e c h = rw h (sym (append-nil c.not_ok_cases))
status_failed not_ok name e c h = rw h refl
status_failed skipped name e c h = rw h (sym (append-nil c.not_ok_cases))

status_skipped :
    (key : String) (status : CheckStatus) (name : CheckName) (e : EvaluationResult)
    (c : CheckSummary)
    → (e.checks name).status ≡ status
    → under key (count_status status (case_ref e name) c).skipped_reasons
      ≡ under key c.skipped_reasons + number (has_reason key) (refs_in skipped (name ∷ []) e)
status_skipped key ok name e c h = rw h (omega arith)
status_skipped key not_ok name e c h = rw h (omega arith)
status_skipped key skipped name e c h =
    rw h (omega (arith, under-bump key (e.checks name).reason c.skipped_reasons))

-- The failures of one check.
pub check-failed :
    (name : CheckName) (es : List EvaluationResult) (t : Tally)
    → ((tally es t).checks name).not_ok_cases
      ≡ (t.checks name).not_ok_cases ++ refs not_ok (name ∷ []) es
unfolding tally
check-failed name [] t = sym (append-nil (t.checks name).not_ok_cases)
check-failed name (e ∷ es) t =
    check-failed name es (count_evaluation e t)
    ∙ ap (λ l. l ++ refs not_ok (name ∷ []) es)
        (ap (λ c. c.not_ok_cases) (count_evaluation-checks e t name)
          ∙ status_failed (e.checks name).status name e (t.checks name) refl)
    ∙ append_assoc (t.checks name).not_ok_cases (refs_in not_ok (name ∷ []) e)
        (refs not_ok (name ∷ []) es)

-- How often one check was skipped for a reason.
pub check-skipped :
    (key : String) (name : CheckName) (es : List EvaluationResult) (t : Tally)
    → under key ((tally es t).checks name).skipped_reasons
      ≡ under key (t.checks name).skipped_reasons
        + number (has_reason key) (refs skipped (name ∷ []) es)
unfolding tally
check-skipped key name [] t = omega arith
check-skipped key name (e ∷ es) t = omega (
  arith,
  check-skipped key name es (count_evaluation e t),
  ap (λ c. under key c.skipped_reasons) (count_evaluation-checks e t name),
  status_skipped key (e.checks name).status name e (t.checks name) refl,
  number-append (has_reason key) (refs_in skipped (name ∷ []) e) (refs skipped (name ∷ []) es),
)
