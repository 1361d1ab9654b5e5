-- ===== src/Eval/Judge/Judged.antt =====
-- eval_service/app/api.py: the states of the cases when the judge has gone over a run.
use codex_browser.Prelude.{
  ℕ, String, ◌≡◌, refl, sym, ◌∙◌, ap, subst, Bool, true, false, none, some, ◌==◌, eq_iff, eq_refl,
  Bool-cases, inl, inr,
}
use codex_browser.Eval.Models.{CaseRunState, EvalRunCase, EvalRunManifest, ok}
use codex_browser.Eval.RunStore.{
  RunLib, RunStore, CaseUpdate, unset, set, set_if_present, updated_case, update_case,
}
use codex_browser.Eval.RunStore.Frame.{case_of, IsFiled, change-Rewrites, is_some-injective}
use codex_browser.Eval.RunStore.Changed.{changed}

abbrev pub has_verdict : CaseRunState → Bool
has_verdict CaseRunState.judged = true
has_verdict CaseRunState.judge_failed = true
has_verdict _ = false

module _ (L : RunLib) (run : String) where
  -- The case has its verdict in the store.
  unfoldable pub IsJudgedIn : RunStore → String → Type 0
  unfolding case_of
  IsJudgedIn s id =
      (case : EvalRunCase) → case_of s run id ≡ some case → has_verdict case.state ≡ true

  pub update-other :
      (now : ℕ) (id c : String) (u : CaseUpdate) (s : RunStore)
      → IsFiled s
      → (id == c) ≡ false
      → IsJudgedIn s c
      → IsJudgedIn (update_case L now run id u s).1 c
  unfolding update_case IsJudgedIn
  update-other now id c u s filed ne h case found =
      elim (change-Rewrites L now run id u none s filed) [
        | inl e ↦ h case (ap (λ t. case_of t run c) (sym e) ∙ found)
        | inr (old, was, new, eff) ↦ h case (sym (eff run c ∙ rw (eq_refl run, ne) refl) ∙ found)
      ]

  pub update-unset :
      (now : ℕ) (id c : String) (u : CaseUpdate) (s : RunStore)
      → IsFiled s
      → u.state ≡ unset
      → IsJudgedIn s c
      → IsJudgedIn (update_case L now run id u s).1 c
  unfolding update_case IsJudgedIn updated_case set_if_present
  update-unset now id c u s filed none_set h case found =
      elim (change-Rewrites L now run id u none s filed) [
        | inl e ↦ h case (ap (λ t. case_of t run c) (sym e) ∙ found)
        | inr (old, was, new, eff) ↦ elim (Bool-cases (id == c)) [
          | inr ne ↦ h case (sym (eff run c ∙ rw (eq_refl run, ne) refl) ∙ found)
          | inl same ↦
              let is : updated_case L u none old ≡ case =
                is_some-injective _ _ (sym (eff run c ∙ rw (eq_refl run, same) refl) ∙ found) in
              let kept : (updated_case L u none old).state ≡ old.state =
                rw (updated_case, none_set, set_if_present) refl in
              let old_found : case_of s run c ≡ some old =
                subst (λ k. case_of s run k ≡ some old) ((eq_iff id c).0 same) was in
              ap (λ k. has_verdict k.state) (sym is) ∙ ap has_verdict kept ∙ h old old_found
        ]
      ]

  -- An update that returns and sets a verdict has given it to the case.
  pub update-verdict :
      (now : ℕ) (id c : String) (u : CaseUpdate) (state : CaseRunState) (s : RunStore)
      (m : EvalRunManifest)
      → IsFiled s
      → (id == c) ≡ true
      → u.state ≡ set state
      → has_verdict state ≡ true
      → (update_case L now run id u s).0 ≡ ok m
      → IsJudgedIn (update_case L now run id u s).1 c
  unfolding IsJudgedIn updated_case set_if_present
  update-verdict now id c u state s m filed same given verdict h case found =
      let (old, eff) = changed L run now id u s m filed h in
      let here : case_of (update_case L now run id u s).1 run id ≡ some case =
        subst (λ k. case_of (update_case L now run id u s).1 run k ≡ some case)
          (sym ((eq_iff id c).0 same)) found in
      let is : updated_case L u none old ≡ case = is_some-injective _ _ (sym eff ∙ here) in
      let now_set : (updated_case L u none old).state ≡ state =
        rw (updated_case, given, set_if_present) refl in
      ap (λ k. has_verdict k.state) (sym is) ∙ ap has_verdict now_set ∙ verdict
