-- ===== src/Eval/Orchestrator/Wait.antt =====
-- eval_service/app/orchestrator.py: `_wait_for_case`, which polls the manifest for the state of a case.
pub mod Settled
pub mod Deadline
use codex_browser.Prelude.{
  ℕ, zero, suc, ◌+◌, String, Bool, true, false, Option, none, some, if◌then◌else◌, ◌||◌, leb,
}
use codex_browser.Eval.Models.{CaseRunState}
use codex_browser.Eval.Helpers.{is_terminal_case_state}
use codex_browser.Eval.RunStore.{RunLib, CaseUpdate, set, no_update}
use codex_browser.Eval.Orchestrator.World.{
  Outcome, done, raised, going_on, Outside, Settings, World, M, ◌>>=◌, ◌>>◌, pure, reading,
  read_case, sleep, change_state,
}

unfoldable pub is_wait_or_terminal : CaseRunState → Bool
unfolding is_terminal_case_state
is_wait_or_terminal CaseRunState.waiting_user = true
is_wait_or_terminal state = is_terminal_case_state state

abbrev pub finished_update : ℕ → CaseUpdate
finished_update now = record no_update {
  state = set CaseRunState.finished;
  finished_at = set (some now);
  waiting_reply_id = set none;
}

abbrev pub timeout_update : String → ℕ → CaseUpdate
timeout_update error now = record no_update {
  state = set CaseRunState.timeout;
  finished_at = set (some now);
  error = set (some error);
}

abbrev pub unended : M CaseRunState
unended w = (going_on, w)

module _ (L : RunLib) (O : Outside) where
  -- A poll that finds nothing to wait for ends the loop; else it times out, or sleeps and polls again.
  abbrev pub past_deadline : M CaseRunState → String → String → ℕ → M CaseRunState
  past_deadline rest eval_run_id eval_case_id deadline = reading >>= λ n.
      if leb deadline (O.monotonic n)
      then change_state L O eval_run_id eval_case_id (timeout_update O.timeout_error)
      else (sleep L O >> rest)

  -- After the time that a late callback is given: the payment is ready still, or the case has gone on.
  abbrev pub after_grace : M CaseRunState → String → String → CaseRunState → M CaseRunState
  after_grace rest eval_run_id eval_case_id CaseRunState.payment_ready =
      change_state L O eval_run_id eval_case_id finished_update
  after_grace rest eval_run_id eval_case_id state =
      if is_wait_or_terminal state then pure state else rest

  abbrev pub polled : M CaseRunState → String → String → ℕ → CaseRunState → M CaseRunState
  polled rest eval_run_id eval_case_id deadline CaseRunState.payment_ready =
      sleep L O >> read_case eval_run_id eval_case_id >>= λ latest.
      after_grace rest eval_run_id eval_case_id latest.state
  polled rest eval_run_id eval_case_id deadline state =
      if is_wait_or_terminal state
      then pure state
      else past_deadline rest eval_run_id eval_case_id deadline

  -- The loop, for at most so many polls.
  unfoldable pub poll : ℕ → String → String → ℕ → M CaseRunState
  unfolding is_wait_or_terminal
  poll zero eval_run_id eval_case_id deadline = unended
  poll (suc left) eval_run_id eval_case_id deadline = read_case eval_run_id eval_case_id >>= λ case.
      polled (poll left eval_run_id eval_case_id deadline) eval_run_id eval_case_id deadline
        case.state

  unfoldable pub wait_for_case : ℕ → Settings → String → String → M CaseRunState
  unfolding poll
  wait_for_case left S eval_run_id eval_case_id =
      reading >>= λ n. poll left eval_run_id eval_case_id (O.monotonic n + S.timeout)
