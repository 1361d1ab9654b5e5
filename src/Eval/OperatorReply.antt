-- ===== src/Eval/OperatorReply.antt =====
-- eval_service/app/callbacks.py: the two ends of `send_operator_reply` on the run store, around the
-- awaited call of the buyer: the claim of the case that waits, and the restore of its waiting.
pub mod Handler
pub mod Shown
pub mod Hanging
use codex_browser.Prelude.{
  ℕ, String, Bool, true, false, not, Option, none, some, ◌==◌, if◌then◌else◌, is_empty, is_some,
}
use codex_browser.Eval.Models.{
  CaseRunState, EvalRunCase, EvalRunManifest, key_error, http, Result, ok, err,
}
use codex_browser.Eval.Helpers.{find_case}
use codex_browser.Eval.RunStore.{RunLib, RunStore, set, no_update, read_manifest, update_case}
use codex_browser.Eval.Callbacks.{and_then, as_http}

-- `_require_case_value`
unfoldable pub require_case_value : Option String → Result String
require_case_value none = err (http 409)
require_case_value (some value) = if is_empty value then err (http 409) else ok value

abbrev pub is_waiting_user : CaseRunState → Bool
is_waiting_user CaseRunState.waiting_user = true
is_waiting_user _ = false

abbrev pub is_running : CaseRunState → Bool
is_running CaseRunState.running = true
is_running _ = false

-- The case of a run, or the exception of the one that is missing.
unfoldable pub read_case : RunStore → String → String → Result EvalRunCase
unfolding and_then find_case
read_case s eval_run_id eval_case_id = and_then (read_manifest s eval_run_id) (λ manifest.
    elim (find_case manifest.cases eval_case_id) [ none ↦ err key_error | some case ↦ ok case ])

-- `reply.reply_id or current_reply_id`, refused where the given id is another one.
unfoldable pub chosen_reply_id : Option String → String → Result String
chosen_reply_id none current = ok current
chosen_reply_id (some given) current =
    if given == current then ok (if is_empty given then current else given) else err (http 409)

-- The session and the reply of a case that may be answered.
unfoldable pub answerable : Option String → EvalRunCase → Result (String × String)
unfolding and_then require_case_value chosen_reply_id
answerable given case =
    if not (is_waiting_user case.state)
    then err (http 409)
    else and_then (require_case_value case.session_id) (λ session_id.
      and_then (require_case_value case.waiting_reply_id) (λ current.
        and_then (chosen_reply_id given current) (λ reply_id. ok (session_id, reply_id))))

module _ (L : RunLib) where
  -- Everything before the call of the buyer: the case is set to run, or the request is refused.
  unfoldable pub claim_reply :
      ℕ → String → String → Option String → RunStore → Result (String × String) × RunStore
  unfolding and_then as_http read_case answerable
  claim_reply now eval_run_id eval_case_id given s =
      elim (and_then (as_http (read_case s eval_run_id eval_case_id)) (answerable given)) [
        | err e ↦ (err e, s)
        | ok claimed ↦
            let (written, s') =
              update_case L now eval_run_id eval_case_id
                (record no_update { state = set CaseRunState.running; waiting_reply_id = set none })
                s in
            (and_then written (λ manifest. ok claimed), s')
      ]

  -- `_restore_operator_waiting_if_still_claimed`
  unfoldable pub restore_operator_waiting :
      ℕ → String → String → String → RunStore → Result EvalRunManifest × RunStore
  unfolding read_case
  restore_operator_waiting now eval_run_id eval_case_id reply_id s =
      elim (read_case s eval_run_id eval_case_id) [
        | err e ↦ (err e, s)
        | ok case ↦
            if not (is_running case.state)
            then (read_manifest s eval_run_id, s)
            else if is_some case.waiting_reply_id
            then (read_manifest s eval_run_id, s)
            else update_case L now eval_run_id eval_case_id
                (record no_update {
                  state = set CaseRunState.waiting_user;
                  waiting_reply_id = set (some reply_id);
                })
                s
      ]
