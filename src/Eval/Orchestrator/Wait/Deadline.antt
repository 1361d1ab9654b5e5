-- ===== src/Eval/Orchestrator/Wait/Deadline.antt =====
-- The end of `_wait_for_case`, when the clock passes the deadline.
use codex_browser.Prelude.{
  ℕ, zero, suc, ◌+◌, ◌≤◌, ◌<◌, String, ◌≡◌, ◌≢◌, ◌⊎◌, refl, ◌∙◌, inl, inr, true, false, Option,
  none, some, if◌then◌else◌, leb, Bool-cases, arith,
}
use codex_browser.Eval.Models.{CaseRunState, EvalRunCase, EvalRunManifest, Result, ok, err}
use codex_browser.Eval.Helpers.{find_case}
use codex_browser.Eval.RunStore.{RunLib, RunStore, CaseUpdate, read_manifest}
use codex_browser.Eval.Orchestrator.World.{
  Outcome, done, raised, going_on, Outside, Settings, World, M, after, ◌>>=◌, pure, lifted, reading,
  reading_manifest, found, read_case, sleep, change, change_state,
}
use codex_browser.Eval.Orchestrator.Wait.{
  is_wait_or_terminal, finished_update, timeout_update, past_deadline, after_grace, polled, poll,
  wait_for_case,
}
use codex_browser.Eval.Orchestrator.Wait.Settled.{Yields, Ended, wait-Ended}

pub IsOver : {A : Type 0} → Outcome A → Type 0
IsOver o = o ≢ going_on

after-IsOver :
    {A B : Type 0} (f : A → M B) (o : Outcome A) (w : World)
    → IsOver o
    → ((a : A) → o ≡ done a → IsOver (f a w).0)
    → IsOver (after f o w).0
unfolding IsOver
after-IsOver f (done a) w over later = later a refl
after-IsOver f (raised e) w over later = λ h. absurd (cc h)
after-IsOver f going_on w over later = absurd (over refl)

done-IsOver : {A : Type 0} (a : A) → IsOver (done a)
unfolding IsOver
done-IsOver a h = absurd (cc h)

lifted-IsOver : {A : Type 0} (r : Result A × RunStore) (w : World) → IsOver (lifted r w).0
unfolding IsOver
lifted-IsOver (ok a, s) w h = absurd (cc h)
lifted-IsOver (err e, s) w h = absurd (cc h)

found-IsOver : (o : Option EvalRunCase) (w : World) → IsOver (found o w).0
unfolding IsOver
found-IsOver none w h = absurd (cc h)
found-IsOver (some case) w h = absurd (cc h)

-- Reading a case changes nothing.
lifted_same : {A : Type 0} (r : Result A) (w : World) → (lifted (r, w.run_store) w).1 ≡ w
lifted_same (ok a) w = refl
lifted_same (err e) w = refl

found_same : (o : Option EvalRunCase) (w : World) → (found o w).1 ≡ w
found_same none w = refl
found_same (some case) w = refl

after_same :
    (c : String) (o : Outcome EvalRunManifest) (w : World)
    → (after (λ m. found (find_case m.cases c)) o w).1 ≡ w
after_same c (done m) w = found_same (find_case m.cases c) w
after_same c (raised e) w = refl
after_same c going_on w = refl

module _ (L : RunLib) (O : Outside) (r c : String) where
  read_same : (w : World) → (read_case r c w).1 ≡ w
  read_same w =
      after_same c (reading_manifest r w).0 (reading_manifest r w).1
      ∙ lifted_same (read_manifest w.run_store r) w

  read-IsOver : (w : World) → IsOver (read_case r c w).0
  read-IsOver w =
      after-IsOver (λ m. found (find_case m.cases c)) (reading_manifest r w).0
        (reading_manifest r w).1 (lifted-IsOver (read_manifest w.run_store r, w.run_store) w)
        (λ m e. found-IsOver (find_case m.cases c) (reading_manifest r w).1)

  change_state-IsOver : (u : ℕ → CaseUpdate) (w : World) → IsOver (change_state L O r c u w).0
  change_state-IsOver u w =
      let changed = change L O r c u w in
      after-IsOver (λ m. found (find_case m.cases c) >>= λ case. pure case.state) changed.0
        changed.1 (lifted-IsOver _ _)
        (λ m e.
          after-IsOver (λ case. pure case.state) _ _ (found-IsOver (find_case m.cases c) changed.1)
            (λ case e'. done-IsOver case.state))

  unfoldable pub Settles : CaseRunState → Type 0
  Settles state = (state ≡ CaseRunState.payment_ready) ⊎ Ended state

  -- While a case whose payment is ready is given its time, it stays so, or ends, or waits for the user.
  unfoldable pub IsSteady : Type 0
  IsSteady =
      (w : World) (case case' : EvalRunCase)
      → (read_case r c w).0 ≡ done case
      → case.state ≡ CaseRunState.payment_ready
      → (read_case r c (sleep L O w).1).0 ≡ done case'
      → Settles case'.state

  ended-IsOver :
      (state : CaseRunState) (k : M CaseRunState) (w : World)
      → (is_wait_or_terminal state ≡ false → IsOver (k w).0)
      → IsOver (if◌then◌else◌ {A = M CaseRunState} (is_wait_or_terminal state) (pure state) k w).0
  ended-IsOver state k w later = elim (Bool-cases (is_wait_or_terminal state)) [
    | inl e ↦ rw e (done-IsOver state)
    | inr e ↦ rw e (later e)
  ]

  after_grace-IsOver :
      (state : CaseRunState) (rest : M CaseRunState) (w : World)
      → Settles state
      → IsOver (after_grace L O rest r c state w).0
  unfolding Settles
  after_grace-IsOver CaseRunState.payment_ready rest w s = change_state-IsOver finished_update w
  after_grace-IsOver state rest w (inl e) = absurd (cc e)
  after_grace-IsOver state rest w (inr e) = ended-IsOver state rest w (λ f. absurd (cc (e, f)))

  module _ (deadline N : ℕ) (passes : (n : ℕ) → N ≤ n → deadline ≤ O.monotonic n)
      (steady : IsSteady) where
    past_deadline-IsOver :
        (rest : M CaseRunState) (w : World)
        → ((v : World) → v.readings ≡ suc (suc w.readings) → w.readings < N → IsOver (rest v).0)
        → IsOver (past_deadline L O rest r c deadline w).0
    past_deadline-IsOver rest w later = elim (Bool-cases (leb deadline (O.monotonic w.readings))) [
      | inl e ↦ rw (past_deadline, e) (change_state-IsOver (timeout_update O.timeout_error) _)
      | inr e ↦ rw (past_deadline, e) (later _ refl (ground (arith, passes w.readings)))
    ]

    after_grace_of :
        (rest : M CaseRunState) (w : World) (case : EvalRunCase)
        → (read_case r c w).0 ≡ done case
        → case.state ≡ CaseRunState.payment_ready
        → (o : Outcome EvalRunCase) (v : World) → IsOver o
        → (read_case r c (sleep L O w).1).0 ≡ o
        → IsOver (after (λ latest. after_grace L O rest r c latest.state) o v).0
    unfolding IsSteady
    after_grace_of rest w case at ready o v over same =
        after-IsOver (λ latest. after_grace L O rest r c latest.state) o v over
          λ latest e.
            after_grace-IsOver latest.state rest v (steady w case latest at ready (same ∙ e))

    polled-IsOver :
        (state : CaseRunState) (rest : M CaseRunState) (w : World) (case : EvalRunCase)
        → (read_case r c w).0 ≡ done case
        → case.state ≡ state
        → ((v : World) → v.readings ≡ suc (suc w.readings) → w.readings < N → IsOver (rest v).0)
        → IsOver (polled L O rest r c deadline state w).0
    polled-IsOver CaseRunState.payment_ready rest w case at ready later =
        let latest = read_case r c (sleep L O w).1 in
        after_grace_of rest w case at ready latest.0 latest.1 (read-IsOver (sleep L O w).1) refl
    polled-IsOver state rest w case at here later =
        ended-IsOver state (past_deadline L O rest r c deadline) w
          λ e. past_deadline-IsOver rest w later

    pub poll-IsOver :
        (left : ℕ) (w : World)
        → 1 ≤ left
        → N < w.readings + left
        → IsOver (poll L O left r c deadline w).0
    unfolding poll
    poll-IsOver zero w some_left enough = absurd (omega arith)
    poll-IsOver (suc left) w some_left enough =
        let opened = read_case r c w in
        after-IsOver (λ case. polled L O (poll L O left r c deadline) r c deadline case.state)
          opened.0 opened.1 (read-IsOver w)
          λ case at. rw (read_same w) (
            polled-IsOver case.state (poll L O left r c deadline) w case at refl λ v reads before.
              poll-IsOver left v (omega (arith, before)) (omega (arith, reads, before)))

-- `_wait_for_case` comes to an end, by a return or by an error of the store, and returns only a state in
-- which the case waits for the user or has ended. Condition: from some reading of the clocks on the
-- monotonic clock has passed the deadline, the polls looked at reach beyond that reading, and a case
-- whose payment is ready does not go back to running while it is given its time.
pub wait_for_case-IsOver :
    (L : RunLib) (O : Outside) (S : Settings) (r c : String) (left N : ℕ) (w : World)
    → ((n : ℕ) → N ≤ n → O.monotonic w.readings + S.timeout ≤ O.monotonic n)
    → IsSteady L O r c
    → 1 ≤ left
    → N < suc w.readings + left
    → IsOver (wait_for_case L O left S r c w).0
      × ((state : CaseRunState)
          → (wait_for_case L O left S r c w).0 ≡ done state
          → is_wait_or_terminal state ≡ true)
unfolding wait_for_case Yields
wait_for_case-IsOver L O S r c left N w passes steady some_left enough = (
  poll-IsOver L O r c (O.monotonic w.readings + S.timeout) N passes steady left (reading w).1
      some_left enough,
  λ state h. wait-Ended L O r c left S w state h,
)
