-- ===== src/Eval/Metrics/Models.antt =====
-- eval_service/app/models.py: what the judge says of a case. The mapping of checks, whose keys the
-- validator fixes, becomes a function of the name.
use codex_browser.Prelude.{
  ℕ, String, Option, none, some, List, [], ◌∷◌, map, if◌then◌else◌, one_of, all,
}
use codex_browser.Dict.{Dict, get, keys}
use codex_browser.Eval.Models.{Result, err, value_error}

pub data EvaluationStatus : Type 0 where
  judged judge_skipped judge_failed : EvaluationStatus

pub data CheckStatus : Type 0 where
  ok not_ok skipped : CheckStatus

pub data Category : Type 0 where
  prompt playbook site_profile script_candidate eval_case : Category

pub data Priority : Type 0 where
  low medium high : Priority

pub data CheckName : Type 0 where
  outcome_ok safety_ok payment_boundary_ok evidence_ok recommendations_ok : CheckName

-- `int | str`
pub data RecordIndex : Type 0 where
  at : ℕ → RecordIndex
  named : String → RecordIndex

pub record EvidenceRef : Type 0 where
  pub event_id : Option String
  pub trace_file : Option String
  pub browser_actions_file : Option String
  pub step_index : Option ℕ
  pub record_index : Option RecordIndex
  pub screenshot_path : Option String

pub record EvaluationMetrics : Type 0 where
  pub duration_ms : Option ℕ
  pub buyer_tokens_used : Option ℕ
  pub judge_tokens_used : Option ℕ

pub record EvaluationCheck : Type 0 where
  pub status : CheckStatus
  pub reason : String
  pub evidence_refs : List EvidenceRef

pub record EvaluationRecommendation : Type 0 where
  pub category : Category
  pub priority : Priority
  pub rationale : String
  pub evidence_refs : List EvidenceRef
  pub draft_text : String

pub record JudgeMetadata : Type 0 where
  pub backend : String
  pub model : String

pub record EvaluationResult : Type 0 where
  pub eval_run_id : String
  pub eval_case_id : String
  pub case_version : String
  pub session_id : String
  pub host : String
  pub status : EvaluationStatus
  pub metrics : EvaluationMetrics
  pub checks : CheckName → EvaluationCheck
  pub evidence_refs : List EvidenceRef
  pub recommendations : List EvaluationRecommendation
  pub judge_metadata : JudgeMetadata

abbrev pub check_names : List CheckName
check_names = outcome_ok ∷ safety_ok ∷ payment_boundary_ok ∷ evidence_ok ∷ recommendations_ok ∷ []

abbrev pub check_text : CheckName → String
check_text outcome_ok = "outcome_ok"
check_text safety_ok = "safety_ok"
check_text payment_boundary_ok = "payment_boundary_ok"
check_text evidence_ok = "evidence_ok"
check_text recommendations_ok = "recommendations_ok"

abbrev pub status_text : EvaluationStatus → String
status_text judged = "judged"
status_text judge_skipped = "judge_skipped"
status_text judge_failed = "judge_failed"

abbrev pub category_text : Category → String
category_text prompt = "prompt"
category_text playbook = "playbook"
category_text site_profile = "site_profile"
category_text script_candidate = "script_candidate"
category_text eval_case = "eval_case"

abbrev pub priority_text : Priority → String
priority_text low = "low"
priority_text medium = "medium"
priority_text high = "high"

infixl 5 ◌>>=◌
abbrev ◌>>=◌ {ℓ κ} : {A : Type ℓ} {B : Type κ} → Option A → (A → Option B) → Option B
none >>= f = none
some x >>= f = f x

abbrev chosen {ℓ} : {A : Type ℓ} → A → A → A → A → A → CheckName → A
chosen a b c d e outcome_ok = a
chosen a b c d e safety_ok = b
chosen a b c d e payment_boundary_ok = c
chosen a b c d e evidence_ok = d
chosen a b c d e recommendations_ok = e

-- One entry for each name, or nothing where a name has none.
unfoldable pub by_name {ℓ} : {A : Type ℓ} → (CheckName → Option A) → Option (CheckName → A)
by_name f = do
  outcome ← f outcome_ok
  safety ← f safety_ok
  boundary ← f payment_boundary_ok
  evidence ← f evidence_ok
  recommendations ← f recommendations_ok
  some (chosen outcome safety boundary evidence recommendations)

abbrev pub accept_checks :
    Option (CheckName → EvaluationCheck) → Result (CheckName → EvaluationCheck)
accept_checks none = err value_error
accept_checks (some checks) = Result.ok checks

-- `EvaluationResult.validate_required_checks`: no name is missing and none is unexpected.
unfoldable pub validate_required_checks :
    Dict EvaluationCheck → Result (CheckName → EvaluationCheck)
unfolding by_name
validate_required_checks checks =
    if all (λ name. one_of name (map check_text check_names)) (keys checks)
    then accept_checks (by_name λ name. get checks (check_text name))
    else err value_error
