-- ===== src/Eval/Helpers.antt =====
-- eval_service/app/runtime_helpers.py: what the handlers share.
use codex_browser.Prelude.{
  String, Bool, true, false, Option, none, some, List, [], ◌∷◌, ◌==◌, if◌then◌else◌,
}
use codex_browser.Eval.Models.{CaseRunState, EvalRunCase}

unfoldable pub find_case : List EvalRunCase → String → Option EvalRunCase
find_case [] eval_case_id = none
find_case (case ∷ cases) eval_case_id =
    if case.eval_case_id == eval_case_id then some case else find_case cases eval_case_id

unfoldable pub is_terminal_case_state : CaseRunState → Bool
is_terminal_case_state CaseRunState.skipped_auth_missing = true
is_terminal_case_state CaseRunState.unverified = true
is_terminal_case_state CaseRunState.finished = true
is_terminal_case_state CaseRunState.failed = true
is_terminal_case_state CaseRunState.timeout = true
is_terminal_case_state CaseRunState.judged = true
is_terminal_case_state CaseRunState.judge_failed = true
is_terminal_case_state _ = false
