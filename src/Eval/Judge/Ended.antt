-- ===== src/Eval/Judge/Ended.antt =====
-- eval_service/app/api.py: a whole run of `_run_judge_batch`, while other requests change the store.
use codex_browser.Prelude.{
  ℕ, suc, String, ◌≡◌, refl, sym, subst, ◌∙◌, ap, true, false, none, some, List, [], All, All-map,
  Bool-cases, Option-cases, inl, inr,
}
use codex_browser.Json.{Fields}
use codex_browser.Eval.Models.{EvalRunCase, EvalRunManifest, value_error, Result, ok, err}
use codex_browser.Eval.RunStore.{RunLib, RunStore}
use codex_browser.Eval.RunStore.Frame.{IsFiled}
use codex_browser.Eval.Orchestrator.World.{Outcome, done, raised, Outside, World, M, ◌>>=◌}
use codex_browser.Eval.Judge.Runner.{JudgeLib, JudgeSettings}
use codex_browser.Eval.Judge.Batch.{JudgeOutside, judge_cases}
use codex_browser.Eval.Judge.Judged.{IsJudgedIn}
use codex_browser.Eval.Judge.Leads.{
  OnDone, Leads, bind-Leads, pure-Leads, raise-Leads, relax, reading-Leads, store_op-Leads,
}
use codex_browser.Eval.Judge.Settled.{IsSettled, AllSettled}
use codex_browser.Dict.{get, put, get-put}
use codex_browser.Prelude.{arith, eq_iff, any}
use codex_browser.Eval.RunStore.{write_manifest, write_summary, read_manifest, with_manifest}
use codex_browser.Eval.RunStore.Frame.{case_of, write-IsFiled}
use codex_browser.Eval.Models.{is_path_segment, http, file_not_found}
use codex_browser.Eval.Judge.Batch.{
  is_incomplete, read_manifest_or_raise, raise_if_incomplete, cases_requiring_judge,
  summary_or_raise, summarize, run_judge_batch,
}
use codex_browser.Eval.Metrics.Summary.{EvaluationSummary}
use codex_browser.Eval.Metrics.Aggregation.{aggregate_evaluations}
use codex_browser.Eval.Judge.Verdicts.{judge_cases-Leads}

on_done :
    {A : Type 0} (Q : RunStore → Type 0) (o : Outcome A) (w : World) (a : A)
    → o ≡ done a
    → OnDone Q o w
    → Q w.run_store
on_done Q o w a e h = subst (λ o'. OnDone Q o' w) e h

module _ (L : RunLib) (O : Outside) (run : String) where
  -- Writing a manifest with the same cases changes no case.
  same_cases :
      (s : RunStore) (m new : EvalRunManifest)
      → IsFiled s
      → get s.manifests run ≡ some m
      → new.eval_run_id ≡ m.eval_run_id
      → new.cases ≡ m.cases
      → (r c : String) → case_of (write_manifest s new) r c ≡ case_of s r c
  unfolding case_of write_manifest
  same_cases s m new filed found id cases r c =
      ground (arith, filed run m found, get-put s.manifests new.eval_run_id new r, eq_iff run r)

  abbrev with_summary : Fields → RunStore → RunStore
  with_summary d s = record s { summaries = put s.summaries run d }

  abbrev summarized_manifest : ℕ → EvalRunManifest → EvalRunManifest
  summarized_manifest now m = record m { updated_at = now; summary_path = some "summary.json" }

  written_by :
      (now : ℕ) (d : Fields) (s : RunStore) (m : EvalRunManifest)
      → is_path_segment run ≡ true
      → get s.manifests run ≡ some m
      → write_summary now run d s ≡ (
        ok (summarized_manifest now m),
        write_manifest (with_summary d s) (summarized_manifest now m),
      )
  unfolding write_summary read_manifest
  written_by now d s m e g = rw (write_summary, e, g, with_manifest) refl

  no_segment :
      (now : ℕ) (d : Fields) (s : RunStore)
      → is_path_segment run ≡ false
      → write_summary now run d s ≡ (err value_error, s)
  unfolding write_summary
  no_segment now d s e = rw (write_summary, e) refl

  refused_by :
      (now : ℕ) (d : Fields) (s : RunStore)
      → is_path_segment run ≡ true
      → get s.manifests run ≡ none
      → write_summary now run d s ≡ (err file_not_found, with_summary d s)
  unfolding write_summary read_manifest
  refused_by now d s e g = rw (write_summary, e, g, with_manifest) refl

  write_summary-IsSettled :
      (now : ℕ) (d : Fields) (cases : List EvalRunCase) (s : RunStore)
      → AllSettled L O run cases s
      → AllSettled L O run cases (write_summary now run d s).1
  unfolding IsSettled IsJudgedIn case_of
  write_summary-IsSettled now d cases s (filed, h) = elim (Bool-cases (is_path_segment run)) [
    | inr e ↦ rw (no_segment now d s e) (filed, h)
    | inl e ↦ elim (Option-cases (get s.manifests run)) [
      | inl g ↦ rw (refused_by now d s e g) (filed, h)
      | inr (m, g) ↦
          let t = with_summary d s in
          let new = summarized_manifest now m in
          rw (written_by now d s m e g) (
            write-IsFiled t new filed,
            All-map _ _
                (λ case p open_ found is_there.
                  p open_ found
                    (sym (same_cases t m new filed g refl refl run case.eval_case_id) ∙ is_there))
                cases h,
          )
    ]
  ]

  module _ (J : JudgeLib) (S : JudgeSettings) (D : JudgeOutside) (window : ℕ) where
    summary-Leads :
        (P : RunStore → Type 0) (r : Result EvaluationSummary)
        → Leads P (summary_or_raise L O J S D window r) P
    summary-Leads P (ok s) = pure-Leads P s
    summary-Leads P (err e) = raise-Leads _ P P e

    summarize-Leads :
        (cases : List EvalRunCase)
        → Leads
            (AllSettled L O run cases)
            (summarize L O J S D window run)
            (AllSettled L O run cases)
    unfolding summarize
    summarize-Leads cases =
        let P : RunStore → Type 0 = AllSettled L O run cases in
        bind-Leads P P P _ _ (reading-Leads P) λ n.
          bind-Leads P P P _ _ (summary-Leads P (aggregate_evaluations (D.evaluations n) window))
            λ summary. bind-Leads P P P _ _ (reading-Leads P) λ k.
              bind-Leads P P P _ _
                (store_op-Leads P P (write_summary (O.clock k) run (D.dump_summary summary))
                  λ s p m e. write_summary-IsSettled (O.clock k) (D.dump_summary summary) cases s p)
                λ m. store_op-Leads P P _ λ s p m e. p

    module _ (others_filed : (n : ℕ) (s : RunStore) → IsFiled s → IsFiled (O.others n s))
        (others_keep : (n : ℕ) (s : RunStore) (id : String)
          → IsJudgedIn L run s id
          → IsJudgedIn L run (O.others n s) id) where
      -- What follows the reading of the manifest.
      judged_from :
          (cases : List EvalRunCase)
          → Leads IsFiled
              (judge_cases L O J S D window run cases >>= λ u. summarize L O J S D window run)
              (AllSettled L O run cases)
      judged_from cases =
          let P : RunStore → Type 0 = AllSettled L O run cases in
          bind-Leads IsFiled P P _ _
            (relax IsFiled (AllSettled L O run [])
              (λ s. AllSettled L O run [] s × All (IsSettled L O run s) cases) P _
              (λ s filed. (filed, tt)) (λ s q. (q.0.0, q.1))
              (judge_cases-Leads L O run J S D window others_filed others_keep cases []))
            λ u. summarize-Leads cases

      -- While other requests keep the store in its files and the verdicts that are there: when the judge
      -- returns from a run whose manifest was there, no case of the manifest was incomplete, and each that
      -- required the judge, and was not skipped for its login, has a verdict in the store, `judged` or
      -- `judge_failed`.
      pub judged_at_end :
          (w : World) (m m' : EvalRunManifest)
          → IsFiled w.run_store
          → read_manifest w.run_store run ≡ ok m
          → (run_judge_batch L O J S D window run w).0 ≡ done m'
          → (any (λ case. is_incomplete case.state) m.cases ≡ false)
            × All
                (IsSettled L O run (run_judge_batch L O J S D window run w).1.run_store)
                (cases_requiring_judge (D.has_valid_evaluation w.readings) m.cases)
      unfolding Leads run_judge_batch read_manifest_or_raise raise_if_incomplete
      judged_at_end w m m' filed f e =
          elim (Bool-cases (any (λ case. is_incomplete case.state) m.cases)) [
            | inl i ↦
                let refused : (run_judge_batch L O J S D window run w).0 ≡ raised (http 409) =
                  rw (run_judge_batch, read_manifest_or_raise, f, raise_if_incomplete, i) refl in
                absurd (cc (refused, e))
            | inr i ↦
                let cases = cases_requiring_judge (D.has_valid_evaluation w.readings) m.cases in
                let next : World = record w { readings = suc w.readings } in
                let rest : M EvalRunManifest =
                  judge_cases L O J S D window run cases >>= λ u. summarize L O J S D window run in
                let same : run_judge_batch L O J S D window run w ≡ rest next =
                  rw (run_judge_batch, read_manifest_or_raise, f, raise_if_incomplete, i) refl in
                (
                  i,
                  rw same
                      (on_done (AllSettled L O run cases) (rest next).0 (rest next).1 m'
                        (ap (λ t. t.0) (sym same) ∙ e) (judged_from cases next filed)).1,
                )
          ]
