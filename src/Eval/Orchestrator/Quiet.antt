-- ===== src/Eval/Orchestrator/Quiet.antt =====
-- The parts of the orchestrator's task, and what they submit to the buyer.
use codex_browser.Prelude.{
  ℕ, zero, suc, ◌+◌, String, ◌≡◌, refl, ◌∙◌, Bool, true, false, Option, none, some, if◌then◌else◌,
  leb,
}
use codex_browser.Eval.Models.{CaseRunState, EvalRunCase, Result, ok, err}
use codex_browser.Eval.Helpers.{find_case}
use codex_browser.Eval.RunStore.{RunLib, RunStore, CaseUpdate, read_manifest, update_case}
use codex_browser.Eval.Orchestrator.World.{
  Outcome, done, raised, going_on, Outside, Settings, World, M, after, ◌>>=◌, pure, lifted,
  store_op, reading, found, read_case, await, change, change_state,
}
use codex_browser.Eval.Orchestrator.Wait.{
  is_wait_or_terminal, finished_update, timeout_update, unended, past_deadline, after_grace, polled,
  poll, wait_for_case,
}

unfoldable pub IsQuiet : {A : Type 0} → M A → Type 0
IsQuiet m = (w : World) → (m w).1.submitted ≡ w.submitted

pub after-IsQuiet :
    {A B : Type 0} (f : A → M B) (o : Outcome A) (w : World)
    → ((a : A) → IsQuiet (f a))
    → (after f o w).1.submitted ≡ w.submitted
unfolding IsQuiet
after-IsQuiet f (done a) w q = q a w
after-IsQuiet f (raised e) w q = refl
after-IsQuiet f going_on w q = refl

pub bind-IsQuiet :
    {A B : Type 0} (m : M A) (f : A → M B)
    → IsQuiet m
    → ((a : A) → IsQuiet (f a))
    → IsQuiet (m >>= f)
unfolding IsQuiet
bind-IsQuiet m f qm qf w = after-IsQuiet f (m w).0 (m w).1 qf ∙ qm w

pub choice-IsQuiet :
    {A : Type 0} (b : Bool) (m k : M A)
    → IsQuiet m
    → IsQuiet k
    → IsQuiet (if◌then◌else◌ {A = M A} b m k)
choice-IsQuiet true m k qm qk = qm
choice-IsQuiet false m k qm qk = qk

pub lifted-IsQuiet :
    {A : Type 0} (r : Result A × RunStore) (w : World) → (lifted r w).1.submitted ≡ w.submitted
lifted-IsQuiet (ok a, s) w = refl
lifted-IsQuiet (err e, s) w = refl

pub store_op-IsQuiet : {A : Type 0} (f : RunStore → Result A × RunStore) → IsQuiet (store_op f)
unfolding IsQuiet
store_op-IsQuiet f w = lifted-IsQuiet (f w.run_store) w

pub reading-IsQuiet : IsQuiet reading
unfolding IsQuiet
reading-IsQuiet w = refl

pub pure-IsQuiet : {A : Type 0} (a : A) → IsQuiet (pure a)
unfolding IsQuiet
pure-IsQuiet a w = refl

pub found-IsQuiet : (o : Option EvalRunCase) → IsQuiet (found o)
unfolding IsQuiet
found-IsQuiet none w = refl
found-IsQuiet (some case) w = refl

pub read_case-IsQuiet : (run id : String) → IsQuiet (read_case run id)
read_case-IsQuiet run id =
    bind-IsQuiet _ _ (store_op-IsQuiet (λ s. (read_manifest s run, s)))
      λ manifest. found-IsQuiet (find_case manifest.cases id)

module _ (L : RunLib) (O : Outside) where
  pub await-IsQuiet : {A : Type 0} (f : ℕ → A) → IsQuiet (await L O f)
  unfolding IsQuiet
  await-IsQuiet f w = refl

  pub change-IsQuiet : (run id : String) (u : ℕ → CaseUpdate) → IsQuiet (change L O run id u)
  change-IsQuiet run id u = bind-IsQuiet _ _ reading-IsQuiet λ n.
      bind-IsQuiet _ _ reading-IsQuiet
        λ k. store_op-IsQuiet (update_case L (O.clock k) run id (u (O.clock n)))

  pub change_state-IsQuiet :
      (run id : String) (u : ℕ → CaseUpdate) → IsQuiet (change_state L O run id u)
  change_state-IsQuiet run id u = bind-IsQuiet _ _ (change-IsQuiet run id u) λ manifest.
      bind-IsQuiet _ _ (found-IsQuiet (find_case manifest.cases id)) λ case. pure-IsQuiet case.state

  module _ (run id : String) (deadline : ℕ) (rest : M CaseRunState) (quiet : IsQuiet rest) where
    pub ended-IsQuiet :
        (state : CaseRunState) (go_on : M CaseRunState)
        → IsQuiet go_on
        → IsQuiet
            (if◌then◌else◌ {A = M CaseRunState} (is_wait_or_terminal state) (pure state) go_on)
    ended-IsQuiet state go_on q =
        choice-IsQuiet (is_wait_or_terminal state) (pure state) go_on (pure-IsQuiet state) q

    pub after_grace-IsQuiet : (state : CaseRunState) → IsQuiet (after_grace L O rest run id state)
    after_grace-IsQuiet CaseRunState.payment_ready = change_state-IsQuiet run id finished_update
    after_grace-IsQuiet state = ended-IsQuiet state rest quiet

    pub past_deadline-IsQuiet : IsQuiet (past_deadline L O rest run id deadline)
    past_deadline-IsQuiet = bind-IsQuiet _ _ reading-IsQuiet λ n.
        choice-IsQuiet (leb deadline (O.monotonic n)) _ _
          (change_state-IsQuiet run id (timeout_update O.timeout_error))
          (bind-IsQuiet _ _ (await-IsQuiet (λ n. tt)) λ _. quiet)

    pub polled-IsQuiet : (state : CaseRunState) → IsQuiet (polled L O rest run id deadline state)
    polled-IsQuiet CaseRunState.payment_ready =
        bind-IsQuiet _ _ (bind-IsQuiet _ _ (await-IsQuiet (λ n. tt)) λ _. read_case-IsQuiet run id)
          λ latest. after_grace-IsQuiet latest.state
    polled-IsQuiet state =
        ended-IsQuiet state (past_deadline L O rest run id deadline) past_deadline-IsQuiet

  pub unended-IsQuiet : IsQuiet unended
  unfolding IsQuiet
  unended-IsQuiet w = refl

  pub poll-IsQuiet :
      (left : ℕ) (run id : String) (deadline : ℕ) → IsQuiet (poll L O left run id deadline)
  unfolding poll
  poll-IsQuiet zero run id deadline = unended-IsQuiet
  poll-IsQuiet (suc left) run id deadline = bind-IsQuiet _ _ (read_case-IsQuiet run id) λ case.
      polled-IsQuiet run id deadline (poll L O left run id deadline)
        (poll-IsQuiet left run id deadline) case.state

  pub wait-IsQuiet :
      (left : ℕ) (S : Settings) (run id : String) → IsQuiet (wait_for_case L O left S run id)
  unfolding wait_for_case
  wait-IsQuiet left S run id =
      bind-IsQuiet _ _ reading-IsQuiet λ n. poll-IsQuiet left run id (O.monotonic n + S.timeout)
