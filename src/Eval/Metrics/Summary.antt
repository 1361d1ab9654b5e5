-- ===== src/Eval/Metrics/Summary.antt =====
-- The records that eval_service/app/aggregation.py builds, and the dictionaries it counts in.
use Prim.Native.Nat.{Ordering}
use Prim.Native.String.{compare, then}
use codex_browser.Prelude.{
  ℕ, suc, String, Option, none, some, List, [], ◌∷◌, ◌++◌, if◌then◌else◌, nat_eq, sort_by,
}
use codex_browser.Dict.{Dict, get, put}
use codex_browser.Eval.Metrics.Models.{
  CheckName, CheckStatus, EvaluationResult, outcome_ok, safety_ok, payment_boundary_ok, evidence_ok,
  recommendations_ok, check_text,
}
use codex_browser.Eval.Metrics.Numbers.{Number}

pub data MetricName : Type 0 where
  duration_ms buyer_tokens_used : MetricName

pub record CaseRef : Type 0 where
  pub eval_run_id : String
  pub eval_case_id : String
  pub host : String
  pub check : CheckName
  pub reason : String

-- One entry of `checks`.
pub record CheckSummary : Type 0 where
  pub ok : ℕ
  pub not_ok : ℕ
  pub skipped : ℕ
  pub skipped_reasons : Dict ℕ
  pub not_ok_cases : List CaseRef

pub record ReasonSummary : Type 0 where
  pub count : ℕ
  pub cases : List CaseRef

pub record Baseline : Type 0 where
  pub sample_size : ℕ
  pub window : ℕ
  pub metrics : MetricName → Option Number

pub record EvaluationRow : Type 0 where
  pub eval_run_id : String
  pub eval_case_id : String
  pub case_version : String
  pub session_id : String
  pub host : String
  pub status : String
  pub checks : CheckName → CheckStatus
  pub metrics : MetricName → Option ℕ
  pub recommendations : ℕ

pub record Totals : Type 0 where
  pub evaluations : ℕ
  pub judged : ℕ
  pub judge_skipped : ℕ
  pub judge_failed : ℕ
  pub recommendations : ℕ

pub record EvaluationSummary : Type 0 where
  pub totals : Totals
  pub checks : CheckName → CheckSummary
  pub skipped_reasons : Dict ReasonSummary
  pub not_ok_cases : List CaseRef
  pub recommendation_total : ℕ
  pub by_category : Dict ℕ
  pub by_priority : Dict ℕ
  pub metrics : MetricName → Option Number
  pub baseline : Dict Baseline
  pub evaluations : List EvaluationRow

abbrev pub check_index : CheckName → ℕ
check_index outcome_ok = 0
check_index safety_ok = 1
check_index payment_boundary_ok = 2
check_index evidence_ok = 3
check_index recommendations_ok = 4

-- `d[name] = f(d[name])` for a dictionary with all the names.
abbrev pub at_check {ℓ} : {A : Type ℓ} → CheckName → (A → A) → (CheckName → A) → CheckName → A
at_check name f d other =
    if nat_eq (check_index name) (check_index other) then f (d other) else d other

-- `counter[key]`
abbrev pub counted : Option ℕ → ℕ
counted none = 0
counted (some n) = n

-- `counter[key] += 1`
unfoldable pub bump : Dict ℕ → String → Dict ℕ
bump counter key = put counter key (suc (counted (get counter key)))

-- `dict(sorted(d.items()))`
unfoldable pub sorted_items {ℓ} : {V : Type ℓ} → Dict V → Dict V
unfolding sort_by
sorted_items d = sort_by (λ a b. compare a.0 b.0) d

abbrev pub list_at {ℓ} : {A : Type ℓ} → Option (List A) → List A
list_at none = []
list_at (some xs) = xs

-- The loops `groups[key(x)].append(x)` over a `defaultdict(list)`.
unfoldable pub group_onto {ℓ} : {A : Type ℓ} → (A → String) → Dict (List A) → List A → Dict (List A)
group_onto key groups [] = groups
group_onto key groups (x ∷ xs) =
    group_onto key (put groups (key x) (list_at (get groups (key x)) ++ (x ∷ []))) xs

abbrev pub metric_of : EvaluationResult → MetricName → Option ℕ
metric_of e duration_ms = e.metrics.duration_ms
metric_of e buyer_tokens_used = e.metrics.buyer_tokens_used

-- The order of texts, then that of the next parts of the keys.
abbrev pub by_texts : List String → List String → Ordering
by_texts (a ∷ xs) (b ∷ ys) = (then) (compare a b) (by_texts xs ys)
by_texts [] _ = Ordering.eq
by_texts (_ ∷ _) [] = Ordering.eq

abbrev pub evaluation_key : EvaluationResult → List String
evaluation_key e = e.eval_run_id ∷ e.eval_case_id ∷ e.case_version ∷ e.session_id ∷ []

-- The order of `_sorted_evaluations`.
abbrev pub evaluation_order : EvaluationResult → EvaluationResult → Ordering
evaluation_order a b = by_texts (evaluation_key a) (evaluation_key b)

abbrev pub case_order : CaseRef → CaseRef → Ordering
case_order a b =
    by_texts (a.eval_run_id ∷ a.eval_case_id ∷ check_text a.check ∷ [])
      (b.eval_run_id ∷ b.eval_case_id ∷ check_text b.check ∷ [])
