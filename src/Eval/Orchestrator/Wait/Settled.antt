-- ===== src/Eval/Orchestrator/Wait/Settled.antt =====
-- The state with which `_wait_for_case` returns.
use codex_browser.Prelude.{
  ℕ, zero, suc, ◌+◌, String, ◌≡◌, refl, subst, sym, ap, ◌∙◌, inl, inr, Bool, true, false, Option,
  none, some, if◌then◌else◌, leb, Bool-cases, Option-cases, eq_refl,
}
use codex_browser.Eval.Models.{
  CaseRunState, EvalRunCase, EvalRunManifest, Result, ok, err, key_error, value_error,
  is_path_segment,
}
use codex_browser.Eval.Helpers.{find_case}
use codex_browser.Eval.RunStore.{
  RunLib, RunStore, CaseUpdate, set, set_if_present, find_case_index, set_elem, with_manifest,
  updated_case, update_manifest_case, change_case, update_case,
}
use codex_browser.Eval.RunStore.Frame.{
  index_found, find-set_elem, found_id, read-cases, is_some-injective,
}
use codex_browser.Eval.Orchestrator.World.{
  Outcome, done, raised, going_on, Outside, Settings, World, M, after, ◌>>=◌, ◌>>◌, pure, lifted,
  reading, found, read_case, sleep, change, change_state,
}
use codex_browser.Eval.Orchestrator.Wait.{
  is_wait_or_terminal, finished_update, timeout_update, unended, past_deadline, after_grace, polled,
  poll, wait_for_case,
}

from_ok : {A : Type 0} → A → Result A → A
from_ok d (ok a) = a
from_ok d (err e) = d

ok-injective : {A : Type 0} (a b : A) → ok a ≡ ok b → a ≡ b
unfolding from_ok
ok-injective a b h = ap (from_ok a) h

module _ (L : RunLib) (now : ℕ) (r c : String) (u : CaseUpdate) (st : CaseRunState)
    (sets : u.state ≡ set st) where
  -- A manifest that an update returns has the case in the state that the update sets.
  changed_state :
      (m : EvalRunManifest) (s : RunStore) (m' : EvalRunManifest) (case' : EvalRunCase)
      → (update_manifest_case L now c u none m s).0 ≡ ok m'
      → find_case m'.cases c ≡ some case'
      → case'.state ≡ st
  unfolding update_manifest_case updated_case set_if_present
  changed_state m s m' case' h at = elim (Option-cases (find_case_index m.cases c)) [
    | inl e ↦
        let none_found : (update_manifest_case L now c u none m s).0 ≡ err key_error =
          rw (update_manifest_case, e) refl in
        absurd (cc (none_found, h))
    | inr (i, e) ↦ elim (Option-cases (find_case m.cases c)) [
      | inl f ↦
          let none_found : (update_manifest_case L now c u none m s).0 ≡ err key_error =
            rw (update_manifest_case, e, index_found m.cases c i e ∙ f) refl in
          absurd (cc (none_found, h))
      | inr (case, f) ↦
          let new = updated_case L u none case in
          let updated : EvalRunManifest = record m {
            updated_at = now;
            cases = set_elem m.cases i new;
          } in
          let written : (update_manifest_case L now c u none m s).0 ≡ ok updated =
            rw (update_manifest_case, e, index_found m.cases c i e ∙ f) refl in
          let same : updated ≡ m' = ok-injective updated m' (sym written ∙ h) in
          let here : find_case updated.cases c ≡ some new =
            find-set_elem m.cases c i new c e (found_id m.cases c case f) ∙ rw (eq_refl c) refl in
          let met : new ≡ case' =
            is_some-injective new case' (sym here ∙ ap (λ q. find_case q.cases c) same ∙ at) in
          sym (ap (λ q. q.state) met) ∙ rw sets refl
    ]
  ]

  updated_state :
      (s : RunStore) (m' : EvalRunManifest) (case' : EvalRunCase)
      → (update_case L now r c u s).0 ≡ ok m'
      → find_case m'.cases c ≡ some case'
      → case'.state ≡ st
  unfolding update_case change_case
  updated_state s m' case' h at = elim (Bool-cases (is_path_segment c)) [
    | inr e ↦
        let refused : (update_case L now r c u s).0 ≡ err value_error =
          rw (update_case, change_case, e) refl in
        absurd (cc (refused, h))
    | inl e ↦ elim (read-cases s r) [
      | inr (x, f) ↦
          let refused : (update_case L now r c u s).0 ≡ err x =
            rw (update_case, change_case, e, with_manifest, f) refl in
          absurd (cc (refused, h))
      | inl (m, f, g) ↦
          let opened : update_case L now r c u s ≡ update_manifest_case L now c u none m s =
            rw (update_case, change_case, e, with_manifest, f) refl in
          changed_state m s m' case' (sym (ap (λ t. t.0) opened) ∙ h) at
    ]
  ]

-- What a part of the task returns, where it returns.
unfoldable pub Yields : {A : Type 0} → M A → (A → Type 0) → Type 0
Yields {A = A} m Q = (w : World) (a : A) → (m w).0 ≡ done a → Q a

after-Yields :
    {A B : Type 0} (f : A → M B) (Q : B → Type 0) (o : Outcome A) (w : World) (b : B)
    → ((a : A) → o ≡ done a → Yields (f a) Q)
    → (after f o w).0 ≡ done b
    → Q b
unfolding Yields
after-Yields f Q (done a) w b yf h = yf a refl w b h
after-Yields f Q (raised e) w b yf h = absurd (cc h)
after-Yields f Q going_on w b yf h = absurd (cc h)

bind-Yields :
    {A B : Type 0} (m : M A) (f : A → M B) (Q : B → Type 0)
    → ((a : A) → Yields (f a) Q)
    → Yields (m >>= f) Q
unfolding Yields
bind-Yields m f Q yf w b h = after-Yields f Q (m w).0 (m w).1 b (λ a e. yf a) h

choice-Yields :
    {A : Type 0} (Q : A → Type 0) (b : Bool) (m k : M A)
    → (b ≡ true → Yields m Q)
    → Yields k Q
    → Yields (if◌then◌else◌ {A = M A} b m k) Q
choice-Yields Q true m k ym yk = ym refl
choice-Yields Q false m k ym yk = yk

pub done_is : {A : Type 0} (a b : A) → done a ≡ done b → a ≡ b
done_is a b h = ap (from_done a) h
  where
    from_done : {A : Type 0} → A → Outcome A → A
    from_done d (done x) = x
    from_done d (raised e) = d
    from_done d going_on = d

pure-Yields : {A : Type 0} (Q : A → Type 0) (a : A) → Q a → Yields (pure a) Q
unfolding Yields
pure-Yields Q a q w b h = subst Q (done_is a b h) q

lifted_done :
    {A : Type 0} (r : Result A × RunStore) (w : World) (a : A)
    → (lifted r w).0 ≡ done a
    → r.0 ≡ ok a
lifted_done (ok x, s) w a h = ap ok (done_is x a h)
lifted_done (err e, s) w a h = absurd (cc h)

found_done :
    (o : Option EvalRunCase) (w : World) (case : EvalRunCase)
    → (found o w).0 ≡ done case
    → o ≡ some case
found_done none w case h = absurd (cc h)
found_done (some x) w case h = ap some (done_is x case h)

abbrev pub Ended : CaseRunState → Type 0
Ended state = is_wait_or_terminal state ≡ true

module _ (L : RunLib) (O : Outside) (r c : String) where
  change_state-Ended :
      (u : ℕ → CaseUpdate) (st : CaseRunState)
      → ((n : ℕ) → (u n).state ≡ set st)
      → Ended st
      → Yields (change_state L O r c u) Ended
  unfolding Yields
  change_state-Ended u st sets ended w state h =
      let changed = change L O r c u w in
      after-Yields (λ manifest. found (find_case manifest.cases c) >>= λ case. pure case.state)
        Ended changed.0 changed.1 state
        (λ m e w' state' h'.
          let at = find_case m.cases c in
          after-Yields (λ case. pure case.state) Ended (found at w').0 (found at w').1 state'
            (λ case e'. pure-Yields Ended case.state (
              rw
                (updated_state L (O.clock (suc w.readings)) r c (u (O.clock w.readings)) st
                  (sets (O.clock w.readings)) w.run_store m case (lifted_done _ _ m e)
                  (found_done at w' case e'))
                ended))
            h')
        h

  module _ (deadline : ℕ) (rest : M CaseRunState) (later : Yields rest Ended) where
    stopped-Ended :
        (state : CaseRunState) (go_on : M CaseRunState)
        → Yields go_on Ended
        → Yields
            (if◌then◌else◌ {A = M CaseRunState} (is_wait_or_terminal state) (pure state) go_on)
            Ended
    stopped-Ended state go_on y =
        choice-Yields Ended (is_wait_or_terminal state) (pure state) go_on (pure-Yields Ended state)
          y

    after_grace-Ended : (state : CaseRunState) → Yields (after_grace L O rest r c state) Ended
    unfolding is_wait_or_terminal
    after_grace-Ended CaseRunState.payment_ready =
        change_state-Ended finished_update CaseRunState.finished (λ n. refl) refl
    after_grace-Ended state = stopped-Ended state rest later

    past_deadline-Ended : Yields (past_deadline L O rest r c deadline) Ended
    unfolding is_wait_or_terminal
    past_deadline-Ended = bind-Yields reading _ Ended λ n.
        choice-Yields Ended (leb deadline (O.monotonic n)) _ _
          (λ e.
            change_state-Ended (timeout_update O.timeout_error) CaseRunState.timeout (λ k. refl)
              refl)
          (bind-Yields (sleep L O) _ Ended λ _. later)

    polled-Ended : (state : CaseRunState) → Yields (polled L O rest r c deadline state) Ended
    polled-Ended CaseRunState.payment_ready =
        bind-Yields (sleep L O >> read_case r c) _ Ended λ latest. after_grace-Ended latest.state
    polled-Ended state =
        stopped-Ended state (past_deadline L O rest r c deadline) past_deadline-Ended

  unstopped-Ended : Yields unended Ended
  unfolding Yields
  unstopped-Ended w a h = absurd (cc h)

  poll-Ended : (left deadline : ℕ) → Yields (poll L O left r c deadline) Ended
  unfolding poll
  poll-Ended zero deadline = unstopped-Ended
  poll-Ended (suc left) deadline = bind-Yields (read_case r c) _ Ended λ case.
      polled-Ended deadline (poll L O left r c deadline) (poll-Ended left deadline) case.state

  pub wait-Ended : (left : ℕ) (S : Settings) → Yields (wait_for_case L O left S r c) Ended
  unfolding wait_for_case
  wait-Ended left S = bind-Yields reading _ Ended λ n. poll-Ended left (O.monotonic n + S.timeout)
