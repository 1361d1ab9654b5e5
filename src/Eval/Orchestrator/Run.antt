-- ===== src/Eval/Orchestrator/Run.antt =====
-- eval_service/app/orchestrator.py: the cases of a run, one after the other, until one waits for the user.
pub mod Submitted
use codex_browser.Prelude.{
  ℕ, String, Bool, true, false, not, Option, none, some, List, [], ◌∷◌, ◌++◌, if◌then◌else◌,
  is_empty, concat, map,
}
use codex_browser.Json.{Json, str, Fields, assign}
use codex_browser.Eval.Models.{
  CaseRunState, EvalRunStatus, running, value_error, EvalRunCase, EvalRunManifest, Result, ok, err,
}
use codex_browser.Eval.Helpers.{find_case, is_terminal_case_state}
use codex_browser.Eval.Cases.{
  EvalCase, buyer_metadata, AuthProfileSkipReason, AuthProfileLoadResult, no_profile,
}
use codex_browser.Eval.Selection.{select_cases, remaining_cases}
use codex_browser.Eval.RunStore.{RunLib, RunStore, CaseUpdate, set, no_update}
use codex_browser.Eval.RunStore as Runs
use codex_browser.Eval.Orchestrator.World.{
  Outcome, done, raised, going_on, TaskRequest, TaskAnswer, response, failure, Outside, Settings,
  World, M, ◌>>=◌, ◌>>◌, pure, raise, store_op, reading, reading_manifest, read_case, await, change,
  change_state,
}
use codex_browser.Eval.Orchestrator.Status.{write_run_status, refresh_run_status}
use codex_browser.Eval.Orchestrator.Wait.{wait_for_case}

abbrev pub is_waiting_user : CaseRunState → Bool
is_waiting_user CaseRunState.waiting_user = true
is_waiting_user _ = false

abbrev pub is_pending : CaseRunState → Bool
is_pending CaseRunState.pending = true
is_pending _ = false

abbrev pub starting_update : ℕ → CaseUpdate
starting_update now = record no_update {
  state = set CaseRunState.starting;
  started_at = set (some now);
  error = set none;
}

abbrev pub failed_update : String → ℕ → CaseUpdate
failed_update text now = record no_update {
  state = set CaseRunState.failed;
  finished_at = set (some now);
  waiting_reply_id = set none;
  error = set (some (concat "buyer runtime failure: " text));
}

abbrev pub skipped_update : String → ℕ → CaseUpdate
skipped_update text now = record no_update {
  state = set CaseRunState.skipped_auth_missing;
  finished_at = set (some now);
  error = set (some text);
}

-- The state of a case that has a session now: one that is not past its start runs.
abbrev pub has_started : CaseRunState → Bool
has_started CaseRunState.pending = false
has_started CaseRunState.starting = false
has_started CaseRunState.running = false
has_started _ = true

abbrev pub created_update : String → CaseRunState → ℕ → CaseUpdate
created_update session_id state now =
    if has_started state
    then record no_update { session_id = set (some session_id) }
    else record no_update { state = set CaseRunState.running; session_id = set (some session_id) }

-- `_required_response_string`: the text, or the error.
abbrev pub required_session : Option Json → Result String × String
required_session none = (err value_error, "ValueError: buyer response не содержит session_id")
required_session (some (str s)) =
    if is_empty s
    then (err value_error, "ValueError: buyer response.session_id должен быть непустой строкой")
    else (ok s, "")
required_session (some v) =
    (err value_error, "ValueError: buyer response.session_id должен быть непустой строкой")

abbrev pub note : TaskRequest → M (Unit {0})
note request w = (done tt, record w { submitted = w.submitted ++ request ∷ [] })

module _ (L : RunLib) (O : Outside) (S : Settings)
    (load : Option String → AuthProfileLoadResult) where
  -- `_record_created_task`
  unfoldable pub record_created_task : String → String → String → M EvalRunManifest
  record_created_task eval_run_id eval_case_id session_id =
      read_case eval_run_id eval_case_id >>= λ case.
      change L O eval_run_id eval_case_id (created_update session_id case.state)

  -- `_mark_case_runtime_failure`
  unfoldable pub mark_case_runtime_failure : String → String → String → M CaseRunState
  mark_case_runtime_failure eval_run_id eval_case_id text =
      change_state L O eval_run_id eval_case_id (failed_update text)

  abbrev pub after_create : ℕ → String → String → Result String × String → M CaseRunState
  after_create left eval_run_id eval_case_id (err e, text) =
      mark_case_runtime_failure eval_run_id eval_case_id text
  after_create left eval_run_id eval_case_id (ok session_id, text) =
      record_created_task eval_run_id eval_case_id session_id
      >> wait_for_case L O left S eval_run_id eval_case_id

  abbrev pub answered : ℕ → String → String → TaskAnswer → M CaseRunState
  answered left eval_run_id eval_case_id (failure text) =
      mark_case_runtime_failure eval_run_id eval_case_id text
  answered left eval_run_id eval_case_id (response session_id) =
      after_create left eval_run_id eval_case_id (required_session session_id)

  abbrev pub task_request : String → EvalCase → String → Option String → Option Fields → TaskRequest
  task_request eval_run_id case callback_url callback_token storage_state = record {
    eval_case_id = case.eval_case_id;
    task = case.task;
    start_url = case.start_url;
    metadata = assign (buyer_metadata case) "eval_run_id" (str eval_run_id);
    callback_url = callback_url;
    callback_token = callback_token;
    storage_state = storage_state;
  }

  -- `_run_case`
  unfoldable pub run_case :
      ℕ → String → EvalCase → String → Option String → Option Fields → M CaseRunState
  unfolding record_created_task mark_case_runtime_failure
  run_case left eval_run_id case callback_url callback_token storage_state = do
    let request = task_request eval_run_id case callback_url callback_token storage_state
    change L O eval_run_id case.eval_case_id starting_update
    note request
    answer ← await L O (λ n. O.create_task n request)
    answered left eval_run_id case.eval_case_id answer

  -- A pending case, with its login profile.
  abbrev pub with_profile :
      ℕ
      → String
      → EvalCase
      → String
      → Option String
      → Option Fields
      → Option AuthProfileSkipReason
      → M Bool
  with_profile left eval_run_id case callback_url callback_token storage_state (some skip) =
      change L O eval_run_id case.eval_case_id
        (skipped_update (O.skip_text skip.reason skip.auth_profile))
      >> pure false
  with_profile left eval_run_id case callback_url callback_token storage_state none =
      run_case left eval_run_id case callback_url callback_token storage_state >>= λ state.
      pure (is_waiting_user state)

  abbrev pub profile : EvalCase → AuthProfileLoadResult
  profile case = if S.is_buyer_runtime then no_profile else load case.auth_profile

  -- One round of the loop, by the state of the case: whether the loop stops here.
  unfoldable pub visit : ℕ → String → EvalCase → String → Option String → CaseRunState → M Bool
  unfolding run_case
  visit left eval_run_id case callback_url callback_token state =
      if is_waiting_user state
      then pure true
      else if is_terminal_case_state state
      then pure false
      else if not (is_pending state)
      then (wait_for_case L O left S eval_run_id case.eval_case_id >>= λ state'.
          pure (is_waiting_user state'))
      else with_profile left eval_run_id case callback_url callback_token
          (profile case).storage_state (profile case).skip_reason

  -- `_run_cases_until_waiting`, with at most so many polls for each case.
  unfoldable pub run_cases_until_waiting :
      ℕ → String → List EvalCase → String → Option String → M (Unit {0})
  unfolding visit
  run_cases_until_waiting left eval_run_id [] callback_url callback_token = pure tt
  run_cases_until_waiting left eval_run_id (case ∷ cases) callback_url callback_token =
      read_case eval_run_id case.eval_case_id >>= λ run_case.
      visit left eval_run_id case callback_url callback_token run_case.state >>= λ stops.
      if stops
      then pure tt
      else run_cases_until_waiting left eval_run_id cases callback_url callback_token

  -- `_run_cases_and_refresh`
  unfoldable pub run_cases_and_refresh :
      ℕ → String → List EvalCase → String → Option String → M EvalRunManifest
  unfolding run_cases_until_waiting
  run_cases_and_refresh left eval_run_id cases callback_url callback_token =
      run_cases_until_waiting left eval_run_id cases callback_url callback_token
      >> refresh_run_status L O eval_run_id

  -- A result, or its error.
  abbrev pub checked : {A : Type 0} → Result A → M A
  checked (ok a) = pure a
  checked (err e) = raise e

  -- The cases of the run after this one.
  abbrev pub remaining : List EvalCase → String → String → M (List EvalCase)
  remaining registry eval_run_id eval_case_id = reading_manifest eval_run_id >>= λ manifest.
      checked (remaining_cases registry manifest.cases eval_case_id)

  -- The case that got its reply waits again, or the run goes on with the cases after it.
  abbrev pub resumed :
      ℕ
      → List EvalCase
      → String
      → String
      → String
      → Option String
      → CaseRunState
      → M EvalRunManifest
  resumed left registry eval_run_id eval_case_id callback_url callback_token state =
      if is_waiting_user state
      then refresh_run_status L O eval_run_id
      else (remaining registry eval_run_id eval_case_id >>= λ cases.
          run_cases_and_refresh left eval_run_id cases callback_url callback_token)

  -- `resume_after_operator_reply`
  unfoldable pub resume_after_operator_reply :
      ℕ → List EvalCase → String → String → String → Option String → M EvalRunManifest
  unfolding run_cases_and_refresh
  resume_after_operator_reply left registry eval_run_id eval_case_id callback_url callback_token =
      write_run_status L O eval_run_id running
      >> wait_for_case L O left S eval_run_id eval_case_id
      >>= resumed left registry eval_run_id eval_case_id callback_url callback_token

  -- The cases of a run that is created, each as it is before it starts.
  abbrev pub as_run_case : EvalCase → EvalRunCase
  as_run_case case = record {
    eval_case_id = case.eval_case_id;
    case_version = case.case_version;
    state = CaseRunState.pending;
    session_id = none;
    started_at = none;
    finished_at = none;
    waiting_reply_id = none;
    error = none;
    callback_events = [];
    artifact_paths = [];
  }

  -- `create_run` up to the scheduling of `_run_cases_and_refresh`, which runs as a task of its own; it
  -- returns what is to be scheduled.
  unfoldable pub create_run : String → List EvalCase → List String → M (List EvalCase)
  create_run eval_run_id registry selected_case_ids =
      checked (select_cases registry selected_case_ids) >>= λ cases. reading >>= λ n.
      store_op
        (Runs.create_run (O.clock n) eval_run_id (map as_run_case cases) EvalRunStatus.pending)
      >> write_run_status L O eval_run_id running
      >> pure cases
