-- ===== src/Examples/Orchestrator.antt =====
-- A run with one case that is taken to the buyer, and the theorems at it.
use codex_browser.Prelude.{
  String, ◌≡◌, ◌↔◌, refl, subst, true, none, some, List, [], ◌∷◌, ◌++◌, inr, All, arith,
}
use codex_browser.Dict.{get}
use codex_browser.Json.{str, end}
use codex_browser.Eval.Models.{CaseRunState, EvalRunStatus, EvalRunManifest, ok, is_path_segment}
use codex_browser.Eval.Helpers.{find_case, is_terminal_case_state}
use codex_browser.Eval.Cases.{EvalCase, no_profile}
use codex_browser.Eval.RunStore.{read_manifest}
use codex_browser.Eval.Orchestrator.World.{done, TaskRequest, response, Outside, Settings, World}
use codex_browser.Eval.Orchestrator.Status.{refresh_run_status, write_run_status, all_terminal}
use codex_browser.Eval.Orchestrator.Status.Finished.{HasEnded, refresh_iff}
use codex_browser.Eval.Orchestrator.Wait.{is_wait_or_terminal, wait_for_case}
use codex_browser.Eval.Orchestrator.Wait.Settled.{done_is}
use codex_browser.Eval.Orchestrator.Wait.Deadline.{IsOver, Settles, IsSteady, wait_for_case-IsOver}
use codex_browser.Eval.Orchestrator.Run.{run_cases_until_waiting}
use codex_browser.Eval.Orchestrator.Run.Submitted.{IsInOrder, submitted-IsInOrder}
use codex_browser.Examples.Eval.{run_lib, case_in, manifest_in, store_in}

abbrev case_named : String → EvalCase
case_named id = record {
  eval_case_id = id;
  case_version = "1";
  variant_id = "v";
  title = "a book";
  host = "litres.ru";
  task = "buy a book";
  start_url = "https://www.litres.ru/";
  metadata = end;
  auth_profile = none;
  expected_outcome = record {
    target = "a book";
    stop_condition = "paid";
    acceptable_variants = [];
  };
  forbidden_actions = [];
  rubric = end;
}

-- Callbacks that end the case while something is awaited.
abbrev outside : Outside
outside = record {
  clock = λ n. n;
  monotonic = λ n. n;
  others = λ n s. store_in CaseRunState.finished none;
  create_task = λ n request. response (some (str "s1"));
  timeout_error = "timeout after 5s";
  skip_text = λ reason name. reason;
}

abbrev settings : Settings
settings = record { is_buyer_runtime = true; timeout = 5 }

abbrev world_in : CaseRunState → World
world_in state = record { run_store = store_in state none; submitted = []; readings = 0 }

submitted-IsInOrder_example :
    (rs : List TaskRequest) × ((run_cases_until_waiting run_lib outside settings
        (λ p. no_profile)
        9
        "run1"
        (case_named "case1" ∷ [])
        "https://eval"
        none
        (world_in CaseRunState.pending)).1.submitted
      ≡ [] ++ rs)
    × IsInOrder rs (case_named "case1" ∷ [])
submitted-IsInOrder_example =
    submitted-IsInOrder run_lib outside settings (λ p. no_profile) 9 "run1" "https://eval" none
      (case_named "case1" ∷ []) (world_in CaseRunState.pending)

steady : IsSteady run_lib outside "run1" "case1"
unfolding IsSteady Settles read_manifest find_case is_path_segment is_wait_or_terminal get
steady w case case' at ready at' = inr (
    subst (λ q. is_wait_or_terminal q.state ≡ true)
      (done_is (case_in CaseRunState.finished none) case' at') refl)

wait_for_case-IsOver_example :
    IsOver
      (wait_for_case run_lib outside 9 settings "run1" "case1" (world_in CaseRunState.running)).0
    × ((state : CaseRunState)
        → (wait_for_case run_lib outside 9 settings "run1" "case1"
            (world_in CaseRunState.running)).0
          ≡ done state
        → is_wait_or_terminal state ≡ true)
wait_for_case-IsOver_example =
    wait_for_case-IsOver run_lib outside settings "run1" "case1" 9 5 (world_in CaseRunState.running)
      (λ n h. omega (arith, h)) steady (omega arith) (omega arith)

abbrev finished_manifest : EvalRunManifest
finished_manifest = record (manifest_in CaseRunState.finished none) {
  status = EvalRunStatus.finished;
  updated_at = 0;
}

refreshed_run :
    (refresh_run_status run_lib outside "run1" (world_in CaseRunState.finished)).0
    ≡ done finished_manifest
unfolding refresh_run_status write_run_status read_manifest is_path_segment all_terminal
    is_terminal_case_state get
refreshed_run = refl

refresh_iff_example :
    ((m : EvalRunManifest) × (read_manifest (store_in CaseRunState.finished none) "run1" ≡ ok m)
      × (finished_manifest.cases ≡ m.cases))
    × ((finished_manifest.status ≡ EvalRunStatus.finished) ↔ All HasEnded finished_manifest.cases)
    × (get
          (refresh_run_status run_lib outside "run1"
            (world_in CaseRunState.finished)).1.run_store.manifests
          finished_manifest.eval_run_id
        ≡ some finished_manifest)
refresh_iff_example =
    refresh_iff run_lib outside "run1" (world_in CaseRunState.finished) finished_manifest
      refreshed_run
