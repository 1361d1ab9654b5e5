-- ===== src/Eval/Metrics/Balance.antt =====
-- eval_service/app/aggregation.py: the counters of the loop of `aggregate_evaluations` against the
-- lists of cases that it builds with them.
use codex_browser.Prelude.{
  ℕ, suc, ◌+◌, String, ◌≡◌, refl, Bool, true, false, Option, none, some, List, [], ◌∷◌, arith,
  length, sum_of, if◌then◌else◌, All, length-append, nat_eq,
}
use codex_browser.Dict.{Dict, get, sum_of-put, All-put, All-get, OrNone, value_or_zero}
use codex_browser.Eval.Metrics.Models.{
  CheckName, CheckStatus, EvaluationResult, EvaluationRecommendation, outcome_ok, safety_ok,
  payment_boundary_ok, evidence_ok, recommendations_ok, ok, not_ok, skipped, check_names,
}
use codex_browser.Eval.Metrics.Summary.{
  check_index, CaseRef, CheckSummary, ReasonSummary, at_check, counted, bump,
}
use codex_browser.Eval.Metrics.Aggregation.{
  Tally, no_tally, count_status, note_status, count_checks, count_recommendations, count_evaluation,
  tally, case_ref, add_skipped, reason_or_empty,
}

-- The counters of one check.
abbrev pub IsListed : CheckSummary → Type 0
IsListed c = (c.not_ok ≡ length c.not_ok_cases) × (c.skipped ≡ sum_of (λ e. e.1) c.skipped_reasons)

abbrev pub IsCounted : ReasonSummary → Type 0
IsCounted r = r.count ≡ length r.cases

pub record IsBalanced (t : Tally) : Type 0 where
  pub listed : (name : CheckName) → IsListed (t.checks name)
  pub failed : sum_of (λ name. (t.checks name).not_ok) check_names ≡ length t.not_ok_cases
  pub reasons :
      sum_of (λ name. (t.checks name).skipped) check_names
      ≡ sum_of (λ e. e.1.count) t.skipped_reasons
  pub cases : All (λ e. IsCounted e.1) t.skipped_reasons

pub sum_of-bump :
    (d : Dict ℕ) (k : String) → sum_of (λ e. e.1) (bump d k) ≡ suc (sum_of (λ e. e.1) d)
unfolding bump
sum_of-bump d k = ground (arith, sum_of-put (λ n. n) d k (suc (counted (get d k))))

old_count : (o : Option ReasonSummary) → (reason_or_empty o).count ≡ value_or_zero (λ r. r.count) o
old_count none = refl
old_count (some r) = refl

sum_of-add_skipped :
    (ref : CaseRef) (d : Dict ReasonSummary)
    → sum_of (λ e. e.1.count) (add_skipped ref d) ≡ suc (sum_of (λ e. e.1.count) d)
unfolding add_skipped
sum_of-add_skipped ref d =
    omega (arith, sum_of-put (λ r. r.count) d ref.reason _, old_count (get d ref.reason))

old-IsCounted : (o : Option ReasonSummary) → OrNone IsCounted o → IsCounted (reason_or_empty o)
old-IsCounted none h = refl
old-IsCounted (some r) h = h

All-add_skipped :
    (ref : CaseRef) (d : Dict ReasonSummary)
    → All (λ e. IsCounted e.1) d
    → All (λ e. IsCounted e.1) (add_skipped ref d)
unfolding add_skipped
All-add_skipped ref d h =
    let old = reason_or_empty (get d ref.reason) in
    All-put IsCounted d ref.reason _ h (
      omega (
        arith,
        old-IsCounted (get d ref.reason) (All-get IsCounted d ref.reason h),
        length-append old.cases (ref ∷ []),
      ))

count_status-IsListed :
    (status : CheckStatus) (ref : CaseRef) (c : CheckSummary)
    → IsListed c
    → IsListed (count_status status ref c)
count_status-IsListed ok ref c h = h
count_status-IsListed not_ok ref c (p, q) =
    (omega (arith, length-append c.not_ok_cases (ref ∷ [])), q)
count_status-IsListed skipped ref c (p, q) =
    (p, omega (arith, sum_of-bump c.skipped_reasons ref.reason))

either_way :
    (b : Bool) (c d : CheckSummary) → IsListed c → IsListed d → IsListed (if b then c else d)
either_way true c d h k = h
either_way false c d h k = k

-- A change of one check changes the sum over the checks by its own difference.
sum_of-at_check :
    (f : CheckSummary → ℕ) (name : CheckName) (g : CheckSummary → CheckSummary)
    (checks : CheckName → CheckSummary)
    → sum_of (λ other. f (at_check name g checks other)) check_names + f (checks name)
      ≡ sum_of (λ other. f (checks other)) check_names + f (g (checks name))
sum_of-at_check f outcome_ok g checks = omega arith
sum_of-at_check f safety_ok g checks = omega arith
sum_of-at_check f payment_boundary_ok g checks = omega arith
sum_of-at_check f evidence_ok g checks = omega arith
sum_of-at_check f recommendations_ok g checks = omega arith

at_check-IsListed :
    (status : CheckStatus) (ref : CaseRef) (name : CheckName) (t : Tally)
    → IsBalanced t
    → (other : CheckName) → IsListed (at_check name (count_status status ref) t.checks other)
at_check-IsListed status ref name t h other =
    either_way (nat_eq (check_index name) (check_index other))
      (count_status status ref (t.checks other)) (t.checks other)
      (count_status-IsListed status ref (t.checks other) (h.listed other)) (h.listed other)

-- One check of one evaluation.
step-IsBalanced :
    (status : CheckStatus) (ref : CaseRef) (name : CheckName) (t : Tally)
    → IsBalanced t
    → IsBalanced (
        note_status status ref
          (record t { checks = at_check name (count_status status ref) t.checks }))
step-IsBalanced ok ref name t h = record {
  listed = at_check-IsListed ok ref name t h;
  failed =
      omega (arith, h.failed, sum_of-at_check (λ c. c.not_ok) name (count_status ok ref) t.checks);
  reasons =
      omega
        (arith, h.reasons, sum_of-at_check (λ c. c.skipped) name (count_status ok ref) t.checks);
  cases = h.cases;
}
step-IsBalanced not_ok ref name t h = record {
  listed = at_check-IsListed not_ok ref name t h;
  failed = omega (
    arith,
    h.failed,
    sum_of-at_check (λ c. c.not_ok) name (count_status not_ok ref) t.checks,
    length-append t.not_ok_cases (ref ∷ []),
  );
  reasons =
      omega (
        arith,
        h.reasons,
        sum_of-at_check (λ c. c.skipped) name (count_status not_ok ref) t.checks,
      );
  cases = h.cases;
}
step-IsBalanced skipped ref name t h = record {
  listed = at_check-IsListed skipped ref name t h;
  failed =
      omega
        (arith, h.failed, sum_of-at_check (λ c. c.not_ok) name (count_status skipped ref) t.checks);
  reasons = omega (
    arith,
    h.reasons,
    sum_of-at_check (λ c. c.skipped) name (count_status skipped ref) t.checks,
    sum_of-add_skipped ref t.skipped_reasons,
  );
  cases = All-add_skipped ref t.skipped_reasons h.cases;
}

count_checks-IsBalanced :
    (e : EvaluationResult) (names : List CheckName) (t : Tally)
    → IsBalanced t
    → IsBalanced (count_checks e names t)
unfolding count_checks
count_checks-IsBalanced e [] t h = h
count_checks-IsBalanced e (name ∷ names) t h =
    count_checks-IsBalanced e names _
      (step-IsBalanced (e.checks name).status (case_ref e name) name t h)

count_recommendations-IsBalanced :
    (rs : List EvaluationRecommendation) (t : Tally)
    → IsBalanced t
    → IsBalanced (count_recommendations rs t)
unfolding count_recommendations
count_recommendations-IsBalanced [] t h = h
count_recommendations-IsBalanced (r ∷ rs) t h =
    count_recommendations-IsBalanced rs _
      (record { listed = h.listed; failed = h.failed; reasons = h.reasons; cases = h.cases })

pub tally-IsBalanced :
    (es : List EvaluationResult) (t : Tally) → IsBalanced t → IsBalanced (tally es t)
unfolding tally count_evaluation
tally-IsBalanced [] t h = h
tally-IsBalanced (e ∷ es) t h = tally-IsBalanced es _ (
    count_checks-IsBalanced e check_names _ (
      count_recommendations-IsBalanced e.recommendations _
        (record { listed = h.listed; failed = h.failed; reasons = h.reasons; cases = h.cases })))

pub no_tally-IsBalanced : IsBalanced no_tally
no_tally-IsBalanced = record {
  listed = λ name. (refl, refl);
  failed = refl;
  reasons = refl;
  cases = tt;
}
