-- ===== src/Eval/Judge/Settled.antt =====
-- Which cases of a run have their verdict in the store, and what an update of one of them does to that.
use codex_browser.Prelude.{
  ℕ, String, ◌≡◌, refl, sym, ◌∙◌, ap, Bool, true, false, none, some, List, [], ◌∷◌, ◌==◌,
  if◌then◌else◌, All, All-map, Bool-cases, inl, inr,
}
use codex_browser.Eval.Models.{CaseRunState, EvalRunCase, ok}
use codex_browser.Eval.RunStore.{RunLib, RunStore, CaseUpdate, unset, set, update_case}
use codex_browser.Eval.RunStore.Frame.{IsFiled, change-IsFiled, is_some-injective}
use codex_browser.Eval.Orchestrator.World.{Outside}
use codex_browser.Eval.Judge.Batch.{is_skipped, judge_state}
use codex_browser.Eval.Judge.Judged.{
  has_verdict, IsJudgedIn, update-other, update-unset, update-verdict,
}

pub verdict_given : (b : Bool) → has_verdict (judge_state b) ≡ true
verdict_given true = refl
verdict_given false = refl

pub chosen_verdict :
    (b judged : Bool) (state : CaseRunState)
    → (if b then none else some (judge_state judged)) ≡ some state
    → has_verdict state ≡ true
chosen_verdict true judged state h = absurd (cc h)
chosen_verdict false judged state h =
    ap has_verdict (sym (is_some-injective _ _ h)) ∙ verdict_given judged

module _ (L : RunLib) (O : Outside) (run : String) where
  -- A case that the run of the judge does not skip has its verdict in the store.
  unfoldable pub IsSettled : RunStore → EvalRunCase → Type 0
  unfolding IsJudgedIn
  IsSettled s case = is_skipped case.state ≡ false → IsJudgedIn L run s case.eval_case_id

  abbrev pub AllSettled : List EvalRunCase → RunStore → Type 0
  AllSettled cases s = IsFiled s × All (IsSettled s) cases

  -- The same but for the case with this id.
  abbrev pub OthersSettled : String → List EvalRunCase → RunStore → Type 0
  OthersSettled id cases s =
      IsFiled s × All (λ case. (id == case.eval_case_id) ≡ false → IsSettled s case) cases

  pub update-IsFiled :
      (now : ℕ) (id : String) (u : CaseUpdate) (s : RunStore)
      → IsFiled s
      → IsFiled (update_case L now run id u s).1
  unfolding update_case
  update-IsFiled now id u s filed = change-IsFiled L now run id u none s filed

  pub others_of :
      (id : String) (cases : List EvalRunCase) (s : RunStore)
      → AllSettled cases s
      → OthersSettled id cases s
  others_of id cases s (filed, h) = (filed, All-map _ _ (λ case p ne. p) cases h)

  pub kept_others :
      (now : ℕ) (id : String) (u : CaseUpdate) (cases : List EvalRunCase) (s : RunStore)
      → OthersSettled id cases s
      → OthersSettled id cases (update_case L now run id u s).1
  unfolding IsSettled
  kept_others now id u [] s (filed, h) = (update-IsFiled now id u s filed, tt)
  kept_others now id u (case ∷ cases) s (filed, (p, h)) =
      let (filed', rest) = kept_others now id u cases s (filed, h) in
      (
        filed',
        ((λ ne open_. update-other L run now id case.eval_case_id u s filed ne (p ne open_)), rest),
      )

  pub kept_all :
      (now : ℕ) (id : String) (u : CaseUpdate) (cases : List EvalRunCase) (s : RunStore)
      → u.state ≡ unset
      → AllSettled cases s
      → AllSettled cases (update_case L now run id u s).1
  unfolding IsSettled
  kept_all now id u [] s e (filed, h) = (update-IsFiled now id u s filed, tt)
  kept_all now id u (case ∷ cases) s e (filed, (p, h)) =
      let (filed', rest) = kept_all now id u cases s e (filed, h) in
      (filed', ((λ open_. update-unset L run now id case.eval_case_id u s filed e (p open_)), rest))

  module _ (now : ℕ) (u : CaseUpdate) (state : CaseRunState) (given : u.state ≡ set state)
      (verdict : has_verdict state ≡ true) where
    pub gained :
        (id : String) (cases : List EvalRunCase) (s : RunStore) (m : _)
        → (update_case L now run id u s).0 ≡ ok m
        → OthersSettled id cases s
        → AllSettled cases (update_case L now run id u s).1
    unfolding IsSettled
    gained id [] s m e (filed, h) = (update-IsFiled now id u s filed, tt)
    gained id (case ∷ cases) s m e (filed, (p, h)) =
        let (filed', rest) = gained id cases s m e (filed, h) in
        (
          filed',
          (
            (λ open_. elim (Bool-cases (id == case.eval_case_id)) [
              | inl same ↦
                  update-verdict L run now id case.eval_case_id u state s m filed same given verdict
                    e
              | inr ne ↦ update-other L run now id case.eval_case_id u s filed ne (p ne open_)
            ]),
            rest,
          ),
        )
