-- ===== src/Eval/Orchestrator/Status/Finished.antt =====
-- When a run of eval_service/app/orchestrator.py is finished.
use codex_browser.Prelude.{
  suc, String, ◌≡◌, ◌↔◌, refl, sym, ap, ◌∙◌, subst, inl, inr, true, some, List, [], ◌∷◌,
  if◌then◌else◌, All, Bool-cases,
}
use codex_browser.Dict.{get, get-put_self}
use codex_browser.Eval.Models.{EvalRunStatus, EvalRunCase, EvalRunManifest, ok}
use codex_browser.Eval.Helpers.{is_terminal_case_state}
use codex_browser.Eval.RunStore.{RunLib, read_manifest, write_manifest}
use codex_browser.Eval.RunStore.Frame.{read-cases}
use codex_browser.Eval.Orchestrator.World.{done, raised, Outside, World}
use codex_browser.Eval.Orchestrator.Status.{
  all_terminal, with_status, stored, write_run_status, refresh_run_status,
}
use codex_browser.Eval.Orchestrator.Wait.Settled.{done_is}

pub HasEnded : EvalRunCase → Type 0
HasEnded case = is_terminal_case_state case.state ≡ true

All-HasEnded : (cases : List EvalRunCase) → (all_terminal cases ≡ true) ↔ All HasEnded cases
unfolding all_terminal HasEnded
All-HasEnded [] = ((λ h. tt), λ h. refl)
All-HasEnded (case ∷ cases) =
    let rest = All-HasEnded cases in
    elim (Bool-cases (is_terminal_case_state case.state)) [
      | inl e ↦ rw e ((λ h. (refl, rest.0 h)), λ h. rest.1 h.1)
      | inr e ↦ rw e ((λ h. absurd (cc h)), λ h. absurd (cc (h.0)))
    ]

module _ (L : RunLib) (O : Outside) (run : String) where
  abbrev outcome_of : EvalRunManifest → EvalRunStatus
  outcome_of m = if all_terminal m.cases then EvalRunStatus.finished else EvalRunStatus.running

  refreshed :
      (w : World) (m : EvalRunManifest)
      → read_manifest w.run_store run ≡ ok m
      → refresh_run_status L O run w
        ≡ stored
            (with_status (outcome_of m) (O.clock w.readings) m)
            (record w { readings = suc w.readings })
  unfolding refresh_run_status write_run_status
  refreshed w m f = rw (refresh_run_status, f, write_run_status, f) refl

  outcome_iff :
      (m : EvalRunManifest) → (outcome_of m ≡ EvalRunStatus.finished) ↔ All HasEnded m.cases
  outcome_iff m = elim (Bool-cases (all_terminal m.cases)) [
    | inl e ↦ rw e ((λ h. (All-HasEnded m.cases).0 e), λ h. refl)
    | inr e ↦ rw e ((λ h. absurd (cc h)), λ h. absurd (cc (e, (All-HasEnded m.cases).1 h)))
  ]

  -- A refresh of the status of a run that returns has found the manifest of the run, has left its cases as
  -- they were, has written the manifest that it returns under the id that the manifest has, and its status
  -- is finished exactly if every case has ended.
  pub refresh_iff :
      (w : World) (m' : EvalRunManifest)
      → (refresh_run_status L O run w).0 ≡ done m'
      → ((m : EvalRunManifest) × (read_manifest w.run_store run ≡ ok m) × (m'.cases ≡ m.cases))
        × ((m'.status ≡ EvalRunStatus.finished) ↔ All HasEnded m'.cases)
        × (get (refresh_run_status L O run w).1.run_store.manifests m'.eval_run_id ≡ some m')
  unfolding write_manifest refresh_run_status
  refresh_iff w m' h = elim (read-cases w.run_store run) [
    | inr (e, f) ↦
        let refused : (refresh_run_status L O run w).0 ≡ raised e =
          rw (refresh_run_status, f) refl in
        absurd (cc (refused, h))
    | inl (m, f, g) ↦
        let new = with_status (outcome_of m) (O.clock w.readings) m in
        let whole = refreshed w m f in
        let same : new ≡ m' = done_is new m' (sym (ap (λ t. t.0) whole) ∙ h) in
        subst
          (λ n.
            ((m₀ : EvalRunManifest) × (read_manifest w.run_store run ≡ ok m₀)
              × (n.cases ≡ m₀.cases))
            × ((n.status ≡ EvalRunStatus.finished) ↔ All HasEnded n.cases)
            × (get (refresh_run_status L O run w).1.run_store.manifests n.eval_run_id ≡ some n))
          same
          (
            (m, f, refl),
            outcome_iff m,
            ap (λ t. get t.1.run_store.manifests m.eval_run_id) whole
                ∙ get-put_self w.run_store.manifests m.eval_run_id new,
          )
  ]
