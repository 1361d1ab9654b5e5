-- ===== src/Eval/Orchestrator/Run/Submitted.antt =====
-- Which tasks the loop of `_run_cases_until_waiting` submits to the buyer.
use codex_browser.Prelude.{
  ℕ, String, ◌≡◌, ◌⊎◌, refl, sym, ap, ◌∙◌, inl, inr, Bool, true, false, not, Option, none, some,
  List, [], ◌∷◌, ◌++◌, if◌then◌else◌, append_assoc, append-nil,
}
use codex_browser.Json.{Fields}
use codex_browser.Eval.Models.{CaseRunState, EvalRunCase, Result, ok, err}
use codex_browser.Eval.Helpers.{is_terminal_case_state}
use codex_browser.Eval.Cases.{EvalCase, AuthProfileSkipReason, AuthProfileLoadResult}
use codex_browser.Eval.RunStore.{RunLib}
use codex_browser.Eval.Orchestrator.World.{
  Outcome, done, raised, going_on, TaskRequest, TaskAnswer, response, failure, Outside, Settings,
  World, M, after, ◌>>=◌, pure, read_case,
}
use codex_browser.Eval.Orchestrator.Run.{
  is_waiting_user, is_pending, starting_update, created_update, failed_update, skipped_update,
  required_session, note, record_created_task, mark_case_runtime_failure, after_create, answered,
  task_request, run_case, with_profile, visit, run_cases_until_waiting,
}
use codex_browser.Eval.Orchestrator.Quiet.{
  IsQuiet, after-IsQuiet, bind-IsQuiet, pure-IsQuiet, read_case-IsQuiet, await-IsQuiet,
  change-IsQuiet, change_state-IsQuiet, wait-IsQuiet,
}

pub IsRequestOf : TaskRequest → EvalCase → Type 0
IsRequestOf r case =
    (r.eval_case_id ≡ case.eval_case_id) × (r.task ≡ case.task) × (r.start_url ≡ case.start_url)

-- One request at most for each case, in the order of the cases.
pub data IsInOrder : List TaskRequest → List EvalCase → Type 0 where
  nothing : (cases : List EvalCase) → IsInOrder [] cases
  passed :
      {rs : List TaskRequest} {cases : List EvalCase} (case : EvalCase)
      → IsInOrder rs cases
      → IsInOrder rs (case ∷ cases)
  sent :
      {rs : List TaskRequest} {cases : List EvalCase} (r : TaskRequest) (case : EvalCase)
      → IsRequestOf r case
      → IsInOrder rs cases
      → IsInOrder (r ∷ rs) (case ∷ cases)

-- At most one request, for this case.
Sends : {A : Type 0} → EvalCase → M A → Type 0
Sends case m =
    (w : World)
    → ((m w).1.submitted ≡ w.submitted)
      ⊎ ((r : TaskRequest) × ((m w).1.submitted ≡ w.submitted ++ r ∷ []) × IsRequestOf r case)

quiet-Sends : {A : Type 0} (case : EvalCase) (m : M A) → IsQuiet m → Sends case m
unfolding IsQuiet Sends
quiet-Sends case m q w = inl (q w)

quiet_then-Sends :
    {A B : Type 0} (case : EvalCase) (m : M A) (f : A → M B)
    → IsQuiet m
    → ((a : A) → Sends case (f a))
    → Sends case (m >>= f)
unfolding IsQuiet Sends
quiet_then-Sends {A} {B} case m f qm sf w = by_end (m w).0 (m w).1 (qm w)
  where
    by_end :
        (o : Outcome A) (w' : World)
        → w'.submitted ≡ w.submitted
        → ((after f o w').1.submitted ≡ w.submitted)
          ⊎ ((r : TaskRequest) × ((after f o w').1.submitted ≡ w.submitted ++ r ∷ [])
              × IsRequestOf r case)
    by_end (done a) w' e = rw (sym e) (sf a w')
    by_end (raised x) w' e = inl e
    by_end going_on w' e = inl e

then_quiet-Sends :
    {A B : Type 0} (case : EvalCase) (m : M A) (f : A → M B)
    → Sends case m
    → ((a : A) → IsQuiet (f a))
    → Sends case (m >>= f)
unfolding IsQuiet Sends
then_quiet-Sends case m f sm qf w =
    let same = after-IsQuiet f (m w).0 (m w).1 qf in
    elim (sm w) [ inl e ↦ inl (same ∙ e) | inr (r, e, fits) ↦ inr (r, same ∙ e, fits) ]

module _ (L : RunLib) (O : Outside) (S : Settings) (load : Option String → AuthProfileLoadResult)
    (left : ℕ) (run url : String) (token : Option String) where
  failure-IsQuiet : (id text : String) → IsQuiet (mark_case_runtime_failure L O S load run id text)
  unfolding mark_case_runtime_failure
  failure-IsQuiet id text = change_state-IsQuiet L O run id (failed_update text)

  after_create-IsQuiet :
      (id : String) (r : Result String × String) → IsQuiet (after_create L O S load left run id r)
  unfolding record_created_task
  after_create-IsQuiet id (err e, text) = failure-IsQuiet id text
  after_create-IsQuiet id (ok session_id, text) =
      bind-IsQuiet _ _
        (bind-IsQuiet _ _ (read_case-IsQuiet run id)
          λ case. change-IsQuiet L O run id (created_update session_id case.state))
        λ _. wait-IsQuiet L O left S run id

  answered-IsQuiet : (id : String) (a : TaskAnswer) → IsQuiet (answered L O S load left run id a)
  answered-IsQuiet id (failure text) = failure-IsQuiet id text
  answered-IsQuiet id (response session_id) = after_create-IsQuiet id (required_session session_id)

  module _ (case : EvalCase) where
    note-Sends :
        (storage : Option Fields)
        → Sends case (note (task_request L O S load run case url token storage))
    unfolding Sends IsRequestOf
    note-Sends storage w =
        inr (task_request L O S load run case url token storage, refl, (refl, refl, refl))

    run_case-Sends :
        (storage : Option Fields) → Sends case (run_case L O S load left run case url token storage)
    unfolding run_case
    run_case-Sends storage =
        let request = task_request L O S load run case url token storage in
        quiet_then-Sends case _ _ (change-IsQuiet L O run case.eval_case_id starting_update) λ _.
          then_quiet-Sends case (note request) _ (note-Sends storage) λ _.
            bind-IsQuiet _ _ (await-IsQuiet L O (λ n. O.create_task n request))
              λ answer. answered-IsQuiet case.eval_case_id answer

    with_profile-Sends :
        (storage : Option Fields) (skip : Option AuthProfileSkipReason)
        → Sends case (with_profile L O S load left run case url token storage skip)
    with_profile-Sends storage (some skip) = quiet-Sends case _ (
        bind-IsQuiet _ _
          (change-IsQuiet L O run case.eval_case_id
            (skipped_update (O.skip_text skip.reason skip.auth_profile)))
          λ _. pure-IsQuiet false)
    with_profile-Sends storage none =
        then_quiet-Sends case _ _ (run_case-Sends storage)
          λ state. pure-IsQuiet (is_waiting_user state)

    choice-Sends :
        (b : Bool) (m k : M Bool)
        → Sends case m
        → Sends case k
        → Sends case (if◌then◌else◌ {A = M Bool} b m k)
    choice-Sends true m k sm sk = sm
    choice-Sends false m k sm sk = sk

    visit-Sends :
        (state : CaseRunState) → Sends case (visit L O S load left run case url token state)
    unfolding visit
    visit-Sends state =
        choice-Sends (is_waiting_user state) _ _ (quiet-Sends case _ (pure-IsQuiet true)) (
          choice-Sends (is_terminal_case_state state) _ _ (quiet-Sends case _ (pure-IsQuiet false))
            (choice-Sends (not (is_pending state)) _ _
              (quiet-Sends case _ (
                bind-IsQuiet _ _ (wait-IsQuiet L O left S run case.eval_case_id)
                  λ s. pure-IsQuiet (is_waiting_user s)))
              (with_profile-Sends _ _)))

  -- The requests of a world that come after those of another.
  Follows : List EvalCase → World → World → Type 0
  Follows cases w w' =
      (rs : List TaskRequest) × (w'.submitted ≡ w.submitted ++ rs) × IsInOrder rs cases

  same-Follows :
      (cases : List EvalCase) (w w' : World) → w'.submitted ≡ w.submitted → Follows cases w w'
  unfolding Follows
  same-Follows cases w w' e = ([], e ∙ sym (append-nil w.submitted), nothing cases)

  one-Follows :
      (case : EvalCase) (cases : List EvalCase) (r : TaskRequest) (w w₁ : World)
      → w₁.submitted ≡ w.submitted ++ r ∷ []
      → IsRequestOf r case
      → Follows (case ∷ cases) w w₁
  unfolding Follows
  one-Follows case cases r w w₁ e fits = (r ∷ [], e, sent r case fits (nothing cases))

  pass-Follows :
      (case : EvalCase) (cases : List EvalCase) (w w₁ w₂ : World)
      → w₁.submitted ≡ w.submitted
      → Follows cases w₁ w₂
      → Follows (case ∷ cases) w w₂
  unfolding Follows
  pass-Follows case cases w w₁ w₂ e (rs, f, o) = (rs, f ∙ ap (λ l. l ++ rs) e, passed case o)

  sent-Follows :
      (case : EvalCase) (cases : List EvalCase) (r : TaskRequest) (w w₁ w₂ : World)
      → w₁.submitted ≡ w.submitted ++ r ∷ []
      → IsRequestOf r case
      → Follows cases w₁ w₂
      → Follows (case ∷ cases) w w₂
  unfolding Follows
  sent-Follows case cases r w w₁ w₂ e fits (rs, f, o) =
      (r ∷ rs, f ∙ ap (λ l. l ++ rs) e ∙ append_assoc w.submitted (r ∷ []) rs, sent r case fits o)

  abbrev rest_of : List EvalCase → Bool → M (Unit {0})
  rest_of cases stops =
      if stops then pure tt else run_cases_until_waiting L O S load left run cases url token

  -- After a round, and after the rest where the loop goes on.
  round-Follows :
      (case : EvalCase) (cases : List EvalCase) (w w₁ w₂ : World)
      → Follows cases w₁ w₂
      → (w₁.submitted ≡ w.submitted)
        ⊎ ((r : TaskRequest) × (w₁.submitted ≡ w.submitted ++ r ∷ []) × IsRequestOf r case)
      → Follows (case ∷ cases) w w₂
  round-Follows case cases w w₁ w₂ f (inl e) = pass-Follows case cases w w₁ w₂ e f
  round-Follows case cases w w₁ w₂ f (inr (r, e, fits)) = sent-Follows case cases r w w₁ w₂ e fits f

  rest-Follows :
      (cases : List EvalCase) (o : Outcome Bool) (w : World)
      → ((w' : World)
          → Follows cases w' (run_cases_until_waiting L O S load left run cases url token w').1)
      → Follows cases w (after (rest_of cases) o w).1
  rest-Follows cases (done true) w later = same-Follows cases w w refl
  rest-Follows cases (done false) w later = later w
  rest-Follows cases (raised e) w later = same-Follows cases w w refl
  rest-Follows cases going_on w later = same-Follows cases w w refl

  read-Follows :
      (case : EvalCase) (cases : List EvalCase) (o : Outcome EvalRunCase) (w w' : World)
      → w'.submitted ≡ w.submitted
      → ((v : World)
          → Follows cases v (run_cases_until_waiting L O S load left run cases url token v).1)
      → Follows
          (case ∷ cases)
          w
          (after (λ rc. visit L O S load left run case url token rc.state >>= rest_of cases) o w').1
  unfolding Sends
  read-Follows case cases (done rc) w w' e later =
      let visited = visit L O S load left run case url token rc.state w' in
      round-Follows case cases w visited.1 _ (rest-Follows cases visited.0 visited.1 later)
        (rw (sym e) (visit-Sends case rc.state w'))
  read-Follows case cases (raised x) w w' e later = same-Follows (case ∷ cases) w w' e
  read-Follows case cases going_on w w' e later = same-Follows (case ∷ cases) w w' e

  loop-Follows :
      (cases : List EvalCase) (w : World)
      → Follows cases w (run_cases_until_waiting L O S load left run cases url token w).1
  unfolding run_cases_until_waiting IsQuiet
  loop-Follows [] w = same-Follows [] w w refl
  loop-Follows (case ∷ cases) w =
      let opened = read_case run case.eval_case_id w in
      read-Follows case cases opened.0 w opened.1 (read_case-IsQuiet run case.eval_case_id w)
        (λ v. loop-Follows cases v)

  -- Whatever the buyer answers and however callbacks change the store meanwhile, the loop over the cases of
  -- a run submits tasks in the order of the cases, at most one for each of them, with the task and the start
  -- URL of its case; this holds at any number of polls of each wait.
  pub submitted-IsInOrder :
      (cases : List EvalCase) (w : World)
      → (rs : List TaskRequest) × ((run_cases_until_waiting L O S load left run cases url token
            w).1.submitted
          ≡ w.submitted ++ rs)
        × IsInOrder rs cases
  unfolding Follows
  submitted-IsInOrder cases w = loop-Follows cases w
