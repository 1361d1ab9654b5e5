-- ===== src/Eval/Orchestrator/Status.antt =====
-- eval_service/app/orchestrator.py: the status of a run, `_write_run_status` and `_refresh_run_status`.
pub mod Finished
use codex_browser.Prelude.{ℕ, String, Bool, ◌≡◌, ◌↔◌, true, false, List, if◌then◌else◌, all}
use codex_browser.Eval.Models.{
  EvalRunStatus, running, finished, EvalRunCase, EvalRunManifest, Result, ok, err,
}
use codex_browser.Eval.Helpers.{is_terminal_case_state}
use codex_browser.Eval.RunStore.{RunLib, RunStore, write_manifest}
use codex_browser.Eval.Orchestrator.World.{
  Outcome, done, raised, going_on, Outside, World, M, ◌>>=◌, ◌>>◌, pure, reading, reading_manifest,
}

-- Whether every case of a run has come to its end.
unfoldable pub all_terminal : List EvalRunCase → Bool
all_terminal cases = all (λ case. is_terminal_case_state case.state) cases

abbrev pub with_status : EvalRunStatus → ℕ → EvalRunManifest → EvalRunManifest
with_status status now manifest = record manifest { status = status; updated_at = now }

abbrev pub stored : EvalRunManifest → M EvalRunManifest
stored updated w = (done updated, record w { run_store = write_manifest w.run_store updated })

module _ (L : RunLib) (O : Outside) where
  unfoldable pub write_run_status : String → EvalRunStatus → M EvalRunManifest
  write_run_status eval_run_id status = do
    manifest ← reading_manifest eval_run_id
    n ← reading
    stored (with_status status (O.clock n) manifest)

  unfoldable pub refresh_run_status : String → M EvalRunManifest
  unfolding write_run_status all_terminal
  refresh_run_status eval_run_id = reading_manifest eval_run_id >>= λ manifest.
      write_run_status eval_run_id (if all_terminal manifest.cases then finished else running)
