-- ===== src/Eval/Models.antt =====
-- eval_service/app/models.py: runs, cases and the callbacks of the buyer. The errors that the
-- service raises are values of `EvalError`.
use codex_browser.Prelude.{
  ℕ, String, Bool, false, ◌||◌, ◌&&◌, Option, List, [], ◌∷◌, if◌then◌else◌, is_empty, one_of, leb,
  nat_eq, all_chars, contains,
}
use codex_browser.Dict.{Dict}
use codex_browser.Json.{Fields}

pub data EvalRunStatus : Type 0 where
  pending running finished failed canceled : EvalRunStatus

pub data CaseRunState : Type 0 where
  pending skipped_auth_missing starting running waiting_user payment_ready : CaseRunState
  unverified finished failed timeout judge_pending judged judge_failed : CaseRunState

pub data CallbackEventType : Type 0 where
  ask_user payment_ready payment_unverified scenario_finished session_started : CallbackEventType
  agent_step_started agent_step_finished agent_stream_event : CallbackEventType
  handoff_requested handoff_resumed : CallbackEventType

pub record BuyerCallbackEnvelope : Type 0 where
  pub event_id : String
  pub session_id : String
  pub event_type : CallbackEventType
  pub occurred_at : ℕ
  pub idempotency_key : String
  pub payload : Fields
  pub eval_run_id : Option String
  pub eval_case_id : Option String

pub record EvalRunCase : Type 0 where
  pub eval_case_id : String
  pub case_version : String
  pub state : CaseRunState
  pub session_id : Option String
  pub started_at : Option ℕ
  pub finished_at : Option ℕ
  pub waiting_reply_id : Option String
  pub error : Option String
  pub callback_events : List BuyerCallbackEnvelope
  pub artifact_paths : Dict String

pub record EvalRunManifest : Type 0 where
  pub eval_run_id : String
  pub status : EvalRunStatus
  pub created_at : ℕ
  pub updated_at : ℕ
  pub cases : List EvalRunCase
  pub summary_path : Option String

-- The exceptions that reach a caller: Python's, and `HTTPException` with its status.
pub data EvalError : Type 0 where
  value_error type_error file_not_found file_exists key_error : EvalError
  http : ℕ → EvalError

pub data Result {ℓ} (A : Type ℓ) : Type ℓ where
  ok : A → Result A
  err : EvalError → Result A

-- `[A-Za-z0-9_.-]`
abbrev is_path_char : ℕ → Bool
is_path_char c =
    (leb 65 c && leb c 90)
    || (leb 97 c && leb c 122)
    || (leb 48 c && leb c 57)
    || nat_eq c 95
    || nat_eq c 46
    || nat_eq c 45

-- `validate_path_segment_id`: the value is safe as the name of a directory.
unfoldable pub is_path_segment : String → Bool
unfolding all_chars contains
is_path_segment value =
    if is_empty value
    then false
    else if one_of value ("." ∷ ".." ∷ [])
    then false
    else if contains value "/" || contains value "\\" || contains value ".."
    then false
    else all_chars is_path_char value
