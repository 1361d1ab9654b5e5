-- ===== src/Eval/Judge/Verdicts.antt =====
-- eval_service/app/api.py: the loop of `_run_judge_batch`, while other requests change the store.
use codex_browser.Prelude.{
  ℕ, String, ◌≡◌, refl, ap, true, false, some, List, [], ◌∷◌, eq_refl, All, All-map, ◌&&◌,
  Bool-cases, Option-cases, inl, inr,
}
use codex_browser.Json.{Fields, member}
use codex_browser.Eval.Models.{EvalRunCase, EvalRunManifest, value_error, Result, ok, err}
use codex_browser.Eval.RunStore.{RunLib, RunStore, CaseUpdate, update_case}
use codex_browser.Eval.RunStore.Frame.{IsFiled}
use codex_browser.Eval.Orchestrator.World.{Outside, M, ◌>>=◌, pure, await}
use codex_browser.Eval.Judge.Runner.{JudgeLib, JudgeSettings, JudgeOutcome, evaluated, is_text}
use codex_browser.Eval.Judge.Batch.{
  JudgeOutside, update, is_skipped, judge_state, judge_case_state, pending_update, input_update,
  result_update, judge_paths, unless_skipped_case, input_or_raise, run_judge, evaluation_or_raise,
  result_or_fallback, persist_judge_result, judge_case, judge_cases,
}
use codex_browser.Eval.Judge.Judged.{IsJudgedIn}
use codex_browser.Eval.Judge.Leads.{
  Leads, bind-Leads, pure-Leads, raise-Leads, relax, reading-Leads, store_op-Leads,
}
use codex_browser.Eval.Judge.Settled.{
  verdict_given, chosen_verdict, IsSettled, AllSettled, OthersSettled, others_of, kept_others,
  kept_all, gained,
}

module _ (L : RunLib) (O : Outside) (run : String) (J : JudgeLib) (S : JudgeSettings)
    (D : JudgeOutside) (window : ℕ)
    (others_filed : (n : ℕ) (s : RunStore) → IsFiled s → IsFiled (O.others n s))
    (others_keep : (n : ℕ) (s : RunStore) (id : String)
      → IsJudgedIn L run s id
      → IsJudgedIn L run (O.others n s) id) where
  update-Leads :
      (P Q : RunStore → Type 0) (id : String) (u : CaseUpdate)
      → ((now : ℕ) (s : RunStore)
          → P s
          → (m : EvalRunManifest) → (update_case L now run id u s).0 ≡ ok m
          → Q (update_case L now run id u s).1)
      → Leads P (update L O J S D window run id u) Q
  unfolding update
  update-Leads P Q id u k =
      bind-Leads P P Q _ _ (reading-Leads P) λ n. store_op-Leads P Q _ (k (O.clock n))

  await-Leads :
      {A : Type 0} (f : ℕ → A) (id : String) (cases : List EvalRunCase)
      → Leads (OthersSettled L O run id cases) (await L O f) (OthersSettled L O run id cases)
  unfolding Leads IsSettled
  await-Leads f id cases w (filed, h) = (
    others_filed w.readings w.run_store filed,
    All-map _ _
        (λ case p ne open_. others_keep w.readings w.run_store case.eval_case_id (p ne open_)) cases
        h,
  )

  await_all-Leads :
      {A : Type 0} (f : ℕ → A) (cases : List EvalRunCase)
      → Leads (AllSettled L O run cases) (await L O f) (AllSettled L O run cases)
  unfolding Leads IsSettled
  await_all-Leads f cases w (filed, h) = (
    others_filed w.readings w.run_store filed,
    All-map _ _ (λ case p open_. others_keep w.readings w.run_store case.eval_case_id (p open_))
        cases h,
  )

  input-Leads :
      (P : RunStore → Type 0) (r : Result (Fields × String))
      → Leads P (input_or_raise L O J S D window r) P
  input-Leads P (ok input) = pure-Leads P input
  input-Leads P (err e) = raise-Leads _ P P e

  evaluation-Leads :
      (P : RunStore → Type 0) (o : JudgeOutcome)
      → Leads P (evaluation_or_raise L O J S D window o) P
  evaluation-Leads P (evaluated e) = pure-Leads P e
  evaluation-Leads P (JudgeOutcome.raised e) = raise-Leads _ P P value_error

  fallback-Leads :
      (P : RunStore → Type 0) (input : Fields) (o : JudgeOutcome)
      → Leads P (result_or_fallback L O J S D window input o) P
  unfolding result_or_fallback
  fallback-Leads P input (evaluated e) = pure-Leads P e
  fallback-Leads P input (JudgeOutcome.raised e) = evaluation-Leads P _

  module _ (case : EvalRunCase) (done_cases : List EvalRunCase) where
    abbrev id : String
    id = case.eval_case_id

    abbrev Before : RunStore → Type 0
    Before = AllSettled L O run done_cases

    abbrev During : RunStore → Type 0
    During = OthersSettled L O run id done_cases

    abbrev Now : RunStore → Type 0
    Now = AllSettled L O run (case ∷ done_cases)

    unless_open :
        (P Q : RunStore → Type 0) (m : M (Unit {0}))
        → is_skipped case.state ≡ false
        → Leads P m Q
        → Leads P (unless_skipped_case L O J S D window case m) Q
    unfolding unless_skipped_case
    unless_open P Q m e k = rw (unless_skipped_case, e) k

    unless_closed :
        (P : RunStore → Type 0) (m : M (Unit {0}))
        → is_skipped case.state ≡ true
        → Leads P (unless_skipped_case L O J S D window case m) P
    unfolding unless_skipped_case
    unless_closed P m e = rw (unless_skipped_case, e) (pure-Leads P tt)

    -- The case that is being judged has not to be settled before.
    with_case : (s : RunStore) → During s → OthersSettled L O run id (case ∷ done_cases) s
    with_case s (filed, h) = (filed, ((λ ne. absurd (cc (eq_refl id, ne))), h))

    closed : is_skipped case.state ≡ true → (s : RunStore) → Before s → Now s
    unfolding IsSettled
    closed e s (filed, h) = (filed, ((λ open_. absurd (cc (e, open_))), h))

    quiet_update :
        (u : CaseUpdate) → Leads During (update L O J S D window run id u >>= λ m. pure tt) During
    quiet_update u =
        bind-Leads During During During _ _
          (update-Leads During During id u
            λ now s p m e. kept_others L O run now id u done_cases s p)
          λ m. pure-Leads During tt

    persist_open :
        (path : String) (evaluation : Fields)
        → is_skipped case.state ≡ false
        → Leads During (persist_judge_result L O J S D window run case path evaluation) Now
    unfolding persist_judge_result
    persist_open path evaluation e =
        let state = judge_state (is_text "judged" (member evaluation "status")) in
        let next : judge_case_state case.state evaluation ≡ some state =
          rw (judge_case_state, e) refl in
        let u =
          result_update (judge_case_state case.state evaluation) (judge_paths D path evaluation) in
        update-Leads During Now id u λ now s p m ok_.
          gained L O run now u state
            (ap (λ o. (result_update o (judge_paths D path evaluation)).state) next)
            (verdict_given _) id (case ∷ done_cases) s m ok_ (with_case s p)

    persist_closed :
        (path : String) (evaluation : Fields)
        → is_skipped case.state ≡ true
        → Leads Before (persist_judge_result L O J S D window run case path evaluation) Now
    unfolding persist_judge_result judge_case_state
    persist_closed path evaluation e =
        let paths = judge_paths D path evaluation in
        let u = result_update (judge_case_state case.state evaluation) paths in
        update-Leads Before Now id u λ now s p m ok_.
          closed e _ (elim (Option-cases (judge_case_state case.state evaluation)) [
            | inl next ↦
                kept_all L O run now id u done_cases s
                  (ap (λ o. (result_update o paths).state) next) p
            | inr (state, next) ↦
                gained L O run now u state (ap (λ o. (result_update o paths).state) next)
                  (chosen_verdict
                    (is_skipped case.state && is_text "judge_skipped" (member evaluation "status"))
                    _ state next)
                  id done_cases s m ok_ (others_of L O run id done_cases s p)
          ])

    rest_open :
        (input : Fields) (path : String)
        → is_skipped case.state ≡ false
        → Leads During
            (run_judge L O J S D window input >>= λ outcome.
              result_or_fallback L O J S D window input outcome >>= λ evaluation.
              persist_judge_result L O J S D window run case path evaluation >>= λ m. pure tt)
            Now
    unfolding run_judge
    rest_open input path e =
        bind-Leads During During Now _ _ (await-Leads _ id done_cases) λ outcome.
          bind-Leads During During Now _ _ (fallback-Leads During input outcome) λ evaluation.
            bind-Leads During Now Now _ _ (persist_open path evaluation e) λ m. pure-Leads Now tt

    rest_closed :
        (input : Fields) (path : String)
        → is_skipped case.state ≡ true
        → Leads Before
            (run_judge L O J S D window input >>= λ outcome.
              result_or_fallback L O J S D window input outcome >>= λ evaluation.
              persist_judge_result L O J S D window run case path evaluation >>= λ m. pure tt)
            Now
    unfolding run_judge
    rest_closed input path e =
        bind-Leads Before Before Now _ _ (await_all-Leads _ done_cases) λ outcome.
          bind-Leads Before Before Now _ _ (fallback-Leads Before input outcome) λ evaluation.
            bind-Leads Before Now Now _ _ (persist_closed path evaluation e) λ m. pure-Leads Now tt

    judge_open-Leads :
        is_skipped case.state ≡ false → Leads Before (judge_case L O J S D window run case) Now
    unfolding judge_case
    judge_open-Leads e =
        relax Before During Now Now _ (others_of L O run id done_cases) (λ s q. q)
          (bind-Leads During During Now _ _
            (unless_open During During _ e (quiet_update pending_update))
            λ u. bind-Leads During During Now _ _ (reading-Leads During) λ n.
              bind-Leads During During Now _ _ (input-Leads During (D.input n case)) λ written.
                bind-Leads During During Now _ _
                  (unless_open During During _ e (quiet_update (input_update written.1)))
                  λ v. rest_open written.0 written.1 e)

    judge_closed-Leads :
        is_skipped case.state ≡ true → Leads Before (judge_case L O J S D window run case) Now
    unfolding judge_case
    judge_closed-Leads e = bind-Leads Before Before Now _ _ (unless_closed Before _ e) λ u.
        bind-Leads Before Before Now _ _ (reading-Leads Before) λ n.
          bind-Leads Before Before Now _ _ (input-Leads Before (D.input n case)) λ written.
            bind-Leads Before Before Now _ _ (unless_closed Before _ e)
              λ v. rest_closed written.0 written.1 e

    judge_case-Leads : Leads Before (judge_case L O J S D window run case) Now
    judge_case-Leads = elim (Bool-cases (is_skipped case.state)) [
      | inl e ↦ judge_closed-Leads e
      | inr e ↦ judge_open-Leads e
    ]

  pub judge_cases-Leads :
      (cases done_cases : List EvalRunCase)
      → Leads
          (AllSettled L O run done_cases)
          (judge_cases L O J S D window run cases)
          (λ s. AllSettled L O run done_cases s × All (IsSettled L O run s) cases)
  unfolding judge_cases Leads
  judge_cases-Leads [] done_cases = λ w p. (p, tt)
  judge_cases-Leads (case ∷ cases) done_cases =
      let Both : RunStore → Type 0 =
        λ s. AllSettled L O run (case ∷ done_cases) s × All (IsSettled L O run s) cases in
      let After : RunStore → Type 0 =
        λ s. AllSettled L O run done_cases s × All (IsSettled L O run s) (case ∷ cases) in
      let before = AllSettled L O run (case ∷ done_cases) in
      bind-Leads (AllSettled L O run done_cases) before After _ _ (judge_case-Leads case done_cases)
        λ u.
          relax before before Both After _ (λ s p. p) (λ s q. ((q.0.0, q.0.1.1), (q.0.1.0, q.1)))
            (judge_cases-Leads cases (case ∷ done_cases))
