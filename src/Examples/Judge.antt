-- ===== src/Examples/Judge.antt =====
-- A run with one finished case, judged by a process that leaves an evaluation of it.
use codex_browser.Prelude.{◌≡◌, refl, false, none, some, [], ◌∷◌, any, All}
use codex_browser.Dict.{get, put}
use codex_browser.Json.{Json, str, obj, Fields, end, field, member}
use codex_browser.Eval.Models.{CaseRunState, EvalRunCase, EvalRunManifest, ok, is_path_segment}
use codex_browser.Eval.RunStore.{read_manifest}
use codex_browser.Eval.Metrics.Numbers.{pos}
use codex_browser.Eval.Orchestrator.World.{done, response, Outside, World}
use codex_browser.Eval.Judge.Runner.{
  JudgeLib, JudgeSettings, exited, parsed, auth_skip_reason, unhashable, run, string_value,
}
use codex_browser.Eval.Judge.Identity.{OwnOutcome, run-OwnOutcome}
use codex_browser.Eval.Judge.Batch.{
  JudgeOutside, is_incomplete, cases_requiring_judge, run_judge_batch,
}
use codex_browser.Eval.Judge.Settled.{IsSettled}
use codex_browser.Eval.Judge.Ended.{judged_at_end}
use codex_browser.Examples.Eval.{run_lib, case_in, manifest_in, store_in, filed}

abbrev judge_lib : JudgeLib
judge_lib = record {
  show = λ v. "value";
  repr = λ s. s;
  show_int = λ n. "1";
  int_of = λ v. none;
  lower = λ s. s;
  schema_error = λ v. none;
}

abbrev judge_settings : JudgeSettings
judge_settings = record { eval_judge_model = "judge"; timeout_text = "600" }

abbrev identity : Fields
identity = field "eval_run_id" (str "run1") (
    field "eval_case_id" (str "case1") (
      field "case_version" (str "1")
        (field "session_id" (str "s1") (field "host" (str "litres.ru") end))))

abbrev verdict : Json
verdict = obj (field "status" (str "judged") identity)

abbrev alone : Outside
alone = record {
  clock = λ n. n;
  monotonic = λ n. n;
  others = λ n s. s;
  create_task = λ n request. response none;
  timeout_error = "timeout";
  skip_text = λ reason name. reason;
}

abbrev judge_outside : JudgeOutside
judge_outside = record {
  input = λ n case. ok (identity, "evaluations/case1.judge-input.json");
  process = λ n. exited (pos 0) "" "";
  file = λ n. parsed verdict;
  evaluation_path = λ e. "evaluations/case1.evaluation.json";
  has_valid_evaluation = λ n id. false;
  evaluations = λ n. [];
  dump_summary = λ s. end;
}

abbrev start : World
start = record { run_store = store_in CaseRunState.finished none; submitted = []; readings = 0 }

-- A reason to skip that is an object with another reason is hashed.
object_reason :
    auth_skip_reason (field "skip_reason" (obj (field "reason" (str "other") end)) end) ≡ unhashable
unfolding auth_skip_reason
object_reason = refl

run-OwnOutcome_example :
    OwnOutcome judge_lib judge_settings identity
      (run judge_lib judge_settings identity (exited (pos 0) "" "") (parsed verdict))
unfolding string_value member
run-OwnOutcome_example =
    run-OwnOutcome judge_lib judge_settings identity (refl, (refl, (refl, (refl, (refl, tt)))))
      (exited (pos 0) "" "") (parsed verdict)

abbrev judged_case : EvalRunCase
judged_case = record (case_in CaseRunState.judged none) {
  artifact_paths =
      ("judge_input", "evaluations/case1.judge-input.json")
      ∷ ("evaluation", "evaluations/case1.evaluation.json")
      ∷ [];
}

abbrev judged_manifest : EvalRunManifest
judged_manifest = record (manifest_in CaseRunState.finished none) {
  updated_at = 7;
  cases = judged_case ∷ [];
  summary_path = some "summary.json";
}

returned :
    (run_judge_batch run_lib alone judge_lib judge_settings judge_outside 5 "run1" start).0
    ≡ done judged_manifest
unfolding run_judge_batch is_path_segment get put
returned = refl

readable : read_manifest start.run_store "run1" ≡ ok (manifest_in CaseRunState.finished none)
unfolding read_manifest is_path_segment get
readable = refl

judged_at_end_example :
    (any (λ case. is_incomplete case.state) (manifest_in CaseRunState.finished none).cases ≡ false)
    × All
        (IsSettled run_lib alone "run1"
          (run_judge_batch run_lib alone judge_lib judge_settings judge_outside 5 "run1"
            start).1.run_store)
        (cases_requiring_judge
          (judge_outside.has_valid_evaluation 0)
          (manifest_in CaseRunState.finished none).cases)
judged_at_end_example =
    judged_at_end run_lib alone "run1" judge_lib judge_settings judge_outside 5 (λ n s h. h)
      (λ n s id h. h) start (manifest_in CaseRunState.finished none) judged_manifest
      (filed CaseRunState.finished none) readable returned
