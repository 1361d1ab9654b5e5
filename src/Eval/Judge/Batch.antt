-- ===== src/Eval/Judge/Batch.antt =====
-- eval_service/app/api.py: the judge over the cases of a run, `_run_judge_batch` with what it calls, and
-- what is left of it when its task fails. The files of the judge and the disk are outside; what an
-- exception of the last fallback is, is not told apart.
use codex_browser.Prelude.{
  ℕ, String, Bool, true, false, not, Option, none, some, List, [], ◌∷◌, ◌&&◌, if◌then◌else◌, any,
  filter, concat,
}
use codex_browser.Dict.{Dict}
use codex_browser.Json.{Fields, member}
use codex_browser.Eval.Models.{
  CaseRunState, EvalRunCase, EvalRunManifest, EvalError, value_error, file_not_found, key_error,
  http, Result, ok, err,
}
use codex_browser.Eval.Metrics.Models.{EvaluationResult}
use codex_browser.Eval.Metrics.Summary.{EvaluationSummary}
use codex_browser.Eval.Metrics.Aggregation.{aggregate_evaluations}
use codex_browser.Eval.RunStore.{
  RunLib, CaseUpdate, no_update, set, read_manifest, update_case, write_summary,
}
use codex_browser.Eval.Orchestrator.World.{Outside, M, ◌>>=◌, pure, raise, store_op, reading, await}
use codex_browser.Eval.Judge.Runner.{
  JudgeLib, JudgeSettings, Completed, ReadBack, JudgeOutcome, evaluated, is_text, run,
  write_fallback,
}

-- What lies outside, by the number of the reading: the input that is written for a case and its path,
-- the process and its file, and the evaluations on disk.
pub record JudgeOutside : Type 0 where
  pub input : ℕ → EvalRunCase → Result (Fields × String)
  pub process : ℕ → Completed
  pub file : ℕ → ReadBack
  pub evaluation_path : Fields → String
  pub has_valid_evaluation : ℕ → String → Bool
  pub evaluations : ℕ → List EvaluationResult
  pub dump_summary : EvaluationSummary → Fields

abbrev pub is_incomplete : CaseRunState → Bool
is_incomplete CaseRunState.pending = true
is_incomplete CaseRunState.starting = true
is_incomplete CaseRunState.running = true
is_incomplete CaseRunState.waiting_user = true
is_incomplete CaseRunState.payment_ready = true
is_incomplete _ = false

abbrev pub is_skipped : CaseRunState → Bool
is_skipped CaseRunState.skipped_auth_missing = true
is_skipped _ = false

abbrev pub is_unverified : CaseRunState → Bool
is_unverified CaseRunState.unverified = true
is_unverified _ = false

abbrev pub is_judged : CaseRunState → Bool
is_judged CaseRunState.judged = true
is_judged _ = false

abbrev pub is_judge_pending : CaseRunState → Bool
is_judge_pending CaseRunState.judge_pending = true
is_judge_pending _ = false

-- `_read_manifest_or_raise`
abbrev pub manifest_error : EvalError → EvalError
manifest_error file_not_found = http 404
manifest_error (http code) = http code
manifest_error key_error = key_error
manifest_error _ = http 422

abbrev pub manifest_or_raise : Result EvalRunManifest → M EvalRunManifest
manifest_or_raise (ok manifest) = pure manifest
manifest_or_raise (err e) = raise (manifest_error e)

unfoldable pub read_manifest_or_raise : String → M EvalRunManifest
unfolding read_manifest
read_manifest_or_raise eval_run_id w = manifest_or_raise (read_manifest w.run_store eval_run_id) w

-- `_raise_if_incomplete_cases`
unfoldable pub raise_if_incomplete : List EvalRunCase → M (Unit {0})
raise_if_incomplete cases =
    if any (λ case. is_incomplete case.state) cases then raise (http 409) else pure tt

-- `_cases_requiring_judge`
abbrev pub requires_judge : (String → Bool) → EvalRunCase → Bool
requires_judge valid case =
    not (is_unverified case.state) && not (is_judged case.state && valid case.eval_case_id)

unfoldable pub cases_requiring_judge : (String → Bool) → List EvalRunCase → List EvalRunCase
cases_requiring_judge valid cases = filter (requires_judge valid) cases

abbrev pub judge_state : Bool → CaseRunState
judge_state judged = if judged then CaseRunState.judged else CaseRunState.judge_failed

-- `_judge_case_state`
unfoldable pub judge_case_state : CaseRunState → Fields → Option CaseRunState
unfolding member
judge_case_state state evaluation =
    if is_skipped state && is_text "judge_skipped" (member evaluation "status")
    then none
    else some (judge_state (is_text "judged" (member evaluation "status")))

abbrev pub pending_update : CaseUpdate
pending_update = record no_update { state = set CaseRunState.judge_pending }

abbrev pub paths_update : Dict String → CaseUpdate
paths_update paths = record no_update { artifact_paths = paths }

abbrev pub input_update : String → CaseUpdate
input_update path = paths_update (("judge_input", path) ∷ [])

abbrev pub result_update : Option CaseRunState → Dict String → CaseUpdate
result_update none paths = paths_update paths
result_update (some state) paths = record no_update { state = set state; artifact_paths = paths }

abbrev pub judge_paths : JudgeOutside → String → Fields → Dict String
judge_paths D path evaluation =
    ("judge_input", path) ∷ ("evaluation", D.evaluation_path evaluation) ∷ []

-- `_judge_response_status`
abbrev pub response_status : List EvalRunCase → List Fields → String
unfolding member
response_status cases evaluations =
    if any (λ e. is_text "judge_failed" (member e "status")) evaluations
    then "judge_failed"
    else if any (λ case. is_unverified case.state) cases
    then "unverified"
    else "judged"

module _ (L : RunLib) (O : Outside) (J : JudgeLib) (S : JudgeSettings) (D : JudgeOutside)
    (window : ℕ) where
  -- `store.update_case`, with its own reading of the clock.
  unfoldable pub update : String → String → CaseUpdate → M EvalRunManifest
  unfolding update_case
  update eval_run_id eval_case_id u = do
    n ← reading
    store_op (update_case L (O.clock n) eval_run_id eval_case_id u)

  unfoldable pub unless_skipped_case : EvalRunCase → M (Unit {0}) → M (Unit {0})
  unless_skipped_case case m = if is_skipped case.state then pure tt else m

  abbrev pub input_or_raise : Result (Fields × String) → M (Fields × String)
  input_or_raise (ok input) = pure input
  input_or_raise (err e) = raise e

  -- The runner in a thread, while other requests change the store.
  unfoldable pub run_judge : Fields → M JudgeOutcome
  unfolding run
  run_judge input = await L O λ n. run J S input (D.process n) (D.file n)

  abbrev pub evaluation_or_raise : JudgeOutcome → M Fields
  evaluation_or_raise (evaluated evaluation) = pure evaluation
  evaluation_or_raise (JudgeOutcome.raised error) = raise value_error

  -- The `except` around the runner.
  unfoldable pub result_or_fallback : Fields → JudgeOutcome → M Fields
  unfolding write_fallback
  result_or_fallback input (evaluated evaluation) = pure evaluation
  result_or_fallback input (JudgeOutcome.raised error) = evaluation_or_raise (
      write_fallback J input "judge_failed" (concat "judge runner failed: " error)
        S.eval_judge_model)

  -- `_persist_judge_result`
  unfoldable pub persist_judge_result : String → EvalRunCase → String → Fields → M EvalRunManifest
  unfolding judge_case_state update
  persist_judge_result eval_run_id case path evaluation =
      update eval_run_id case.eval_case_id
        (result_update (judge_case_state case.state evaluation) (judge_paths D path evaluation))

  -- One turn of the loop of `_run_judge_batch`.
  unfoldable pub judge_case : String → EvalRunCase → M (Unit {0})
  unfolding update unless_skipped_case run_judge result_or_fallback persist_judge_result
  judge_case eval_run_id case = do
    _ ←
        unless_skipped_case case
          (update eval_run_id case.eval_case_id pending_update >>= λ m. pure tt)
    n ← reading
    written ← input_or_raise (D.input n case)
    _ ←
        unless_skipped_case case
          (update eval_run_id case.eval_case_id (input_update written.1) >>= λ m. pure tt)
    outcome ← run_judge written.0
    evaluation ← result_or_fallback written.0 outcome
    _ ← persist_judge_result eval_run_id case written.1 evaluation
    pure tt

  unfoldable pub judge_cases : String → List EvalRunCase → M (Unit {0})
  unfolding judge_case
  judge_cases eval_run_id [] = pure tt
  judge_cases eval_run_id (case ∷ cases) =
      judge_case eval_run_id case >>= λ u. judge_cases eval_run_id cases

  abbrev pub summary_or_raise : Result EvaluationSummary → M EvaluationSummary
  summary_or_raise (ok summary) = pure summary
  summary_or_raise (err e) = raise e

  -- What follows the loop: the summary is written and the manifest read again.
  unfoldable pub summarize : String → M EvalRunManifest
  unfolding aggregate_evaluations write_summary read_manifest
  summarize eval_run_id = do
    n ← reading
    summary ← summary_or_raise (aggregate_evaluations (D.evaluations n) window)
    k ← reading
    _ ← store_op (write_summary (O.clock k) eval_run_id (D.dump_summary summary))
    store_op (λ s. (read_manifest s eval_run_id, s))

  -- `_run_judge_batch`, to the manifest of its response.
  unfoldable pub run_judge_batch : String → M EvalRunManifest
  unfolding read_manifest_or_raise raise_if_incomplete cases_requiring_judge judge_cases summarize
  run_judge_batch eval_run_id = do
    manifest ← read_manifest_or_raise eval_run_id
    _ ← raise_if_incomplete manifest.cases
    n ← reading
    _ ← judge_cases eval_run_id (cases_requiring_judge (D.has_valid_evaluation n) manifest.cases)
    summarize eval_run_id

  -- `_mark_cases_judge_pending`, on the cases that require the judge: their ids.
  unfoldable pub mark_cases_judge_pending : String → List EvalRunCase → M (List String)
  unfolding update unless_skipped_case
  mark_cases_judge_pending eval_run_id [] = pure []
  mark_cases_judge_pending eval_run_id (case ∷ cases) = do
    _ ←
        unless_skipped_case case
          (update eval_run_id case.eval_case_id pending_update >>= λ m. pure tt)
    ids ← mark_cases_judge_pending eval_run_id cases
    pure (case.eval_case_id ∷ ids)

  abbrev pub failed_update : String → CaseUpdate
  failed_update error = record no_update {
    state = set CaseRunState.judge_failed;
    error = set (some error);
  }

  unfoldable pub fail_if_pending : String → String → EvalRunCase → M (Unit {0})
  unfolding update
  fail_if_pending eval_run_id error case =
      if is_judge_pending case.state
      then (update eval_run_id case.eval_case_id (failed_update error) >>= λ m. pure tt)
      else pure tt

  unfoldable pub fail_pending : String → String → List EvalRunCase → M (Unit {0})
  unfolding fail_if_pending
  fail_pending eval_run_id error [] = pure tt
  fail_pending eval_run_id error (case ∷ cases) =
      fail_if_pending eval_run_id error case >>= λ u. fail_pending eval_run_id error cases

  abbrev pub pending_or_none : String → String → Result EvalRunManifest → M (Unit {0})
  unfolding fail_pending
  pending_or_none eval_run_id error (ok manifest) = fail_pending eval_run_id error manifest.cases
  pending_or_none eval_run_id error (err e) = pure tt

  -- `_mark_pending_judge_cases_failed`
  unfoldable pub mark_pending_failed : String → String → M (Unit {0})
  unfolding read_manifest fail_pending
  mark_pending_failed eval_run_id error w =
      pending_or_none eval_run_id (concat "judge background failure: " error)
        (read_manifest w.run_store eval_run_id) w
