-- ===== src/Eval/OperatorReply/Handler.antt =====
-- eval_service/app/callbacks.py: `send_operator_reply` whole. While the buyer answers, callbacks and other
-- requests change the store: the handler goes on with the store as it then is.
use codex_browser.Prelude.{
  ℕ, String, Bool, true, false, not, Option, none, some, ◌==◌, if◌then◌else◌,
}
use codex_browser.Eval.Models.{
  CaseRunState, EvalRunStatus, EvalRunCase, EvalRunManifest, EvalError, key_error, Result, ok, err,
}
use codex_browser.Eval.Helpers.{find_case}
use codex_browser.Eval.RunStore.{
  RunLib, RunStore, CaseUpdate, set, no_update, update_case, update_run_status,
}
use codex_browser.Eval.OperatorReply.{
  is_waiting_user, read_case, claim_reply, restore_operator_waiting,
}

-- The answer of the buyer's client: it raises, or tells whether the reply was accepted, and a status.
pub data BuyerReply : Type 0 where
  failing : EvalError → BuyerReply
  answered : Bool → String → BuyerReply

pub record OperatorReplyResponse : Type 0 where
  pub session_id : String
  pub reply_id : String
  pub accepted : Bool
  pub buyer_status : String
  pub state : CaseRunState

-- What the handler leaves: its result, the store, and whether it asked for the resume of the orchestrator.
pub record Handled : Type 0 where
  pub result : Result OperatorReplyResponse
  pub store : RunStore
  pub resumes : Bool

abbrev pub running_update : CaseUpdate
running_update = record no_update { state = set CaseRunState.running; waiting_reply_id = set none }

abbrev pub stopped : EvalError → RunStore → Handled
stopped e s = record { result = err e; store = s; resumes = false }

-- `_find_case` in a manifest that was read or returned.
abbrev pub case_in : Result EvalRunManifest → String → Result EvalRunCase
case_in (err e) eval_case_id = err e
case_in (ok manifest) eval_case_id = elim (find_case manifest.cases eval_case_id) [
  | none ↦ err key_error
  | some case ↦ ok case
]

-- `waiting_reply_id == reply_id`
abbrev pub is_reply : Option String → String → Bool
is_reply none reply_id = false
is_reply (some waiting) reply_id = waiting == reply_id

module _ (L : RunLib) (now : ℕ) (run_id case_id session_id reply_id : String) where
  -- The response, after the resume was asked for or not; `resume` is what scheduling it raises.
  abbrev pub respond : Bool → String → Option EvalError → Bool → EvalRunCase → RunStore → Handled
  respond accepted buyer_status resume false case s = record {
    result = ok (record {
      session_id = session_id;
      reply_id = reply_id;
      accepted = accepted;
      buyer_status = buyer_status;
      state = case.state;
    });
    store = s;
    resumes = false;
  }
  respond accepted buyer_status none true case s = record {
    result = ok (record {
      session_id = session_id;
      reply_id = reply_id;
      accepted = accepted;
      buyer_status = buyer_status;
      state = case.state;
    });
    store = s;
    resumes = true;
  }
  respond accepted buyer_status (some e) true case s = record {
    result = err e;
    store = s;
    resumes = true;
  }

  -- A failure of the client: the wait is restored, and a case that has gone on is resumed; a failure of
  -- that marks the run.
  abbrev pub resumed_or_marked : EvalError → Option EvalError → RunStore → Handled
  resumed_or_marked e none s = record { result = err e; store = s; resumes = true }
  resumed_or_marked e (some _) s = record {
    result = err e;
    store = (update_run_status now run_id EvalRunStatus.failed s).1;
    resumes = true;
  }

  abbrev pub after_failure : EvalError → Option EvalError → Result EvalRunCase → RunStore → Handled
  after_failure e resume (err x) s = stopped x s
  after_failure e resume (ok case) s =
      if is_waiting_user case.state then stopped e s else resumed_or_marked e resume s

  abbrev pub after_refusal : String → Option EvalError → Result EvalRunCase → RunStore → Handled
  after_refusal buyer_status resume (err x) s = stopped x s
  after_refusal buyer_status resume (ok case) s =
      respond false buyer_status resume (not (is_waiting_user case.state)) case s

  -- An accepted reply: a case that waits for this very reply still is set to run.
  abbrev pub after_update : String → Option EvalError → Result EvalRunCase → RunStore → Handled
  after_update buyer_status resume (err x) s = stopped x s
  after_update buyer_status resume (ok case) s = respond true buyer_status resume true case s

  abbrev pub after_acceptance : String → Option EvalError → Result EvalRunCase → RunStore → Handled
  after_acceptance buyer_status resume (err x) s = stopped x s
  after_acceptance buyer_status resume (ok case) s =
      let updated = update_case L now run_id case_id running_update s in
      if is_waiting_user case.state
      then (if is_reply case.waiting_reply_id reply_id
          then after_update buyer_status resume (case_in updated.0 case_id) updated.1
          else respond true buyer_status resume false case s)
      else respond true buyer_status resume true case s

  -- The handler after the answer of the buyer.
  unfoldable pub finish_reply : BuyerReply → Option EvalError → RunStore → Handled
  unfolding restore_operator_waiting read_case
  finish_reply (failing e) resume s =
      let restored = restore_operator_waiting L now run_id case_id reply_id s in
      after_failure e resume (case_in restored.0 case_id) restored.1
  finish_reply (answered true buyer_status) resume s =
      after_acceptance buyer_status resume (read_case s run_id case_id) s
  finish_reply (answered false buyer_status) resume s =
      let restored = restore_operator_waiting L now run_id case_id reply_id s in
      after_refusal buyer_status resume (case_in restored.0 case_id) restored.1

-- `send_operator_reply`, with what the others make of the store meanwhile.
abbrev pub replying :
    RunLib
    → ℕ
    → String
    → String
    → (String → String → BuyerReply)
    → (RunStore → RunStore)
    → Option EvalError
    → Result (String × String) × RunStore
    → Handled
replying L now run_id case_id send others resume (err e, s) = stopped e s
replying L now run_id case_id send others resume (ok (session_id, reply_id), s) =
    finish_reply L now run_id case_id session_id reply_id (send session_id reply_id) resume
      (others s)

unfoldable pub send_operator_reply :
    RunLib
    → ℕ
    → String
    → String
    → Option String
    → (String → String → BuyerReply)
    → (RunStore → RunStore)
    → Option EvalError
    → RunStore
    → Handled
unfolding claim_reply finish_reply
send_operator_reply L now run_id case_id given send others resume s =
    replying L now run_id case_id send others resume (claim_reply L now run_id case_id given s)
