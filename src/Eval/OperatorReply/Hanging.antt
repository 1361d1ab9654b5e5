-- ===== src/Eval/OperatorReply/Hanging.antt =====
-- What the handler of the operator's reply leaves of the case.
use codex_browser.Prelude.{
  ℕ, String, ◌≡◌, ◌⊎◌, refl, sym, ◌∙◌, inl, inr, Bool, true, false, Option, none, some, Bool-cases,
}
use codex_browser.Eval.Models.{
  CaseRunState, EvalRunCase, EvalError, value_error, Result, ok, err, is_path_segment,
}
use codex_browser.Eval.Callbacks.{and_then, as_http}
use codex_browser.Eval.Callbacks.Effect.{Result-cases}
use codex_browser.Eval.RunStore.{RunLib, RunStore, read_manifest, change_case, update_case}
use codex_browser.Eval.RunStore.Frame.{case_of, IsFiled, change-IsFiled, is_some-injective}
use codex_browser.Eval.OperatorReply.{is_waiting_user, read_case, answerable, claim_reply}
use codex_browser.Eval.OperatorReply.Handler.{
  BuyerReply, failing, answered, OperatorReplyResponse, Handled, running_update, stopped, is_reply,
  respond, resumed_or_marked, after_failure, after_refusal, after_update, after_acceptance,
  finish_reply, replying, send_operator_reply,
}
use codex_browser.Eval.OperatorReply.Shown.{Shows, update-Shows, read-Shows, restore-Shows}

module _ (r c : String) (seg_r : is_path_segment r ≡ true) (seg_c : is_path_segment c ≡ true) where
  -- What holds of the case in the store, if it is there.
  IsSafe : Handled → Type 0
  IsSafe h =
      (case' : EvalRunCase)
      → case_of h.store r c ≡ some case'
      → (is_waiting_user case'.state ≡ true) ⊎ (h.resumes ≡ true)

  stopped-IsSafe : (e : EvalError) (s : RunStore) → case_of s r c ≡ none → IsSafe (stopped e s)
  unfolding IsSafe
  stopped-IsSafe e s gone case' here = absurd (cc (gone, here))

  waiting-IsSafe :
      (res : Result OperatorReplyResponse) (b : Bool) (s : RunStore) (case : EvalRunCase)
      → case_of s r c ≡ some case
      → is_waiting_user case.state ≡ true
      → IsSafe (record { result = res; store = s; resumes = b })
  unfolding IsSafe
  waiting-IsSafe res b s case at waits case' here =
      inl (rw (is_some-injective case' case (sym here ∙ at)) waits)

  resumed-IsSafe :
      (res : Result OperatorReplyResponse) (s : RunStore)
      → IsSafe (record { result = res; store = s; resumes = true })
  unfolding IsSafe
  resumed-IsSafe res s case' here = inr refl

  module _ (L : RunLib) (now : ℕ) (sid rid : String) where
    marked-IsSafe :
        (e : EvalError) (resume : Option EvalError) (s : RunStore)
        → IsSafe (resumed_or_marked L now r c sid rid e resume s)
    marked-IsSafe e none s = resumed-IsSafe _ s
    marked-IsSafe e (some x) s = resumed-IsSafe _ _

    resumes-IsSafe :
        (accepted : Bool) (text : String) (resume : Option EvalError) (case : EvalRunCase)
        (s : RunStore)
        → IsSafe (respond L now r c sid rid accepted text resume true case s)
    resumes-IsSafe accepted text none case s = resumed-IsSafe _ s
    resumes-IsSafe accepted text (some e) case s = resumed-IsSafe _ s

    after_failure-IsSafe :
        (e : EvalError) (resume : Option EvalError) (x : Result EvalRunCase) (s : RunStore)
        → Shows r c seg_r seg_c x s
        → IsSafe (after_failure L now r c sid rid e resume x s)
    unfolding Shows
    after_failure-IsSafe e resume (err y) s shows = stopped-IsSafe y s shows
    after_failure-IsSafe e resume (ok case) s shows =
        elim (Bool-cases (is_waiting_user case.state)) [
          | inl w ↦ rw w (waiting-IsSafe (err e) false s case shows w)
          | inr w ↦ rw w (marked-IsSafe e resume s)
        ]

    after_refusal-IsSafe :
        (text : String) (resume : Option EvalError) (x : Result EvalRunCase) (s : RunStore)
        → Shows r c seg_r seg_c x s
        → IsSafe (after_refusal L now r c sid rid text resume x s)
    unfolding Shows
    after_refusal-IsSafe text resume (err y) s shows = stopped-IsSafe y s shows
    after_refusal-IsSafe text resume (ok case) s shows =
        elim (Bool-cases (is_waiting_user case.state)) [
          | inl w ↦ rw w (waiting-IsSafe _ false s case shows w)
          | inr w ↦ rw w (resumes-IsSafe false text resume case s)
        ]

    after_update-IsSafe :
        (text : String) (resume : Option EvalError) (x : Result EvalRunCase) (s : RunStore)
        → Shows r c seg_r seg_c x s
        → IsSafe (after_update L now r c sid rid text resume x s)
    unfolding Shows
    after_update-IsSafe text resume (err y) s shows = stopped-IsSafe y s shows
    after_update-IsSafe text resume (ok case) s shows = resumes-IsSafe true text resume case s

    after_acceptance-IsSafe :
        (text : String) (resume : Option EvalError) (x : Result EvalRunCase) (s : RunStore)
        → IsFiled s
        → Shows r c seg_r seg_c x s
        → IsSafe (after_acceptance L now r c sid rid text resume x s)
    unfolding Shows
    after_acceptance-IsSafe text resume (err y) s filed shows = stopped-IsSafe y s shows
    after_acceptance-IsSafe text resume (ok case) s filed shows =
        elim (Bool-cases (is_waiting_user case.state)) [
          | inl w ↦ elim (Bool-cases (is_reply case.waiting_reply_id rid)) [
            | inl v ↦
                rw (w, v)
                  (after_update-IsSafe text resume _ _
                    (update-Shows r c seg_r seg_c L now running_update s filed case shows))
            | inr v ↦ rw (w, v) (waiting-IsSafe _ false s case shows w)
          ]
          | inr w ↦ rw w (resumes-IsSafe true text resume case s)
        ]

    finish-IsSafe :
        (answer : BuyerReply) (resume : Option EvalError) (s : RunStore)
        → IsFiled s
        → IsSafe (finish_reply L now r c sid rid answer resume s)
    unfolding finish_reply
    finish-IsSafe (failing e) resume s filed =
        after_failure-IsSafe e resume _ _ (restore-Shows r c seg_r seg_c L now rid s filed)
    finish-IsSafe (answered true text) resume s filed =
        after_acceptance-IsSafe text resume (read_case s r c) s filed (read-Shows r c seg_r seg_c s)
    finish-IsSafe (answered false text) resume s filed =
        after_refusal-IsSafe text resume _ _ (restore-Shows r c seg_r seg_c L now rid s filed)

module _ (L : RunLib) (now : ℕ) (r c : String) (given : Option String) (s : RunStore) where
  -- What the claim does once the case is read and may be answered.
  abbrev checked_case : Result (String × String)
  checked_case = and_then (as_http (read_case s r c)) (answerable given)

  claim-IsFiled : IsFiled s → IsFiled (claim_reply L now r c given s).1
  unfolding claim_reply update_case
  claim-IsFiled filed = elim (Result-cases checked_case) [
    | inl (e, f) ↦ rw (claim_reply, f) filed
    | inr (p, f) ↦ rw (claim_reply, f) (change-IsFiled L now r c running_update none s filed)
  ]

  claimed_run :
      (p : String × String) → (claim_reply L now r c given s).0 ≡ ok p → is_path_segment r ≡ true
  unfolding claim_reply read_case read_manifest as_http and_then
  claimed_run p h = elim (Bool-cases (is_path_segment r)) [
    | inl e ↦ e
    | inr e ↦
        let refused : (claim_reply L now r c given s).0 ≡ err value_error =
          rw (claim_reply, read_case, read_manifest, e) refl in
        absurd (cc (refused, h))
  ]

  claimed_case :
      (p : String × String) → (claim_reply L now r c given s).0 ≡ ok p → is_path_segment c ≡ true
  unfolding claim_reply update_case change_case and_then
  claimed_case p h = elim (Bool-cases (is_path_segment c)) [
    | inl e ↦ e
    | inr e ↦ elim (Result-cases checked_case) [
      | inl (x, f) ↦
          let refused : (claim_reply L now r c given s).0 ≡ err x = rw (claim_reply, f) refl in
          absurd (cc (refused, h))
      | inr (q, f) ↦
          let refused : (claim_reply L now r c given s).0 ≡ err value_error =
            rw (claim_reply, f, update_case, change_case, e) refl in
          absurd (cc (refused, h))
    ]
  ]

  module _ (send : String → String → BuyerReply) (others : RunStore → RunStore)
      (resume : Option EvalError) (claimed : String × String) (seg_r : is_path_segment r ≡ true)
      (seg_c : is_path_segment c ≡ true) where
    replying-IsSafe :
        (x : Result (String × String) × RunStore)
        → x.0 ≡ ok claimed
        → IsFiled (others x.1)
        → IsSafe r c seg_r seg_c (replying L now r c send others resume x)
    replying-IsSafe (err e, t) h filed = absurd (cc h)
    replying-IsSafe (ok (sid, rid), t) h filed =
        finish-IsSafe r c seg_r seg_c L now sid rid (send sid rid) resume (others t) filed

  waiting_state :
      (state : CaseRunState) → is_waiting_user state ≡ true → state ≡ CaseRunState.waiting_user
  waiting_state CaseRunState.waiting_user h = refl
  waiting_state state h = absurd (cc h)

  -- Once the handler has claimed a case for the reply of the operator, it leaves no case hanging: when it
  -- returns or raises, however the buyer answers, whatever the others made of the store meanwhile (as long
  -- as each manifest keeps the id of its run), and whether scheduling the resume raises, the case is not
  -- in the store any more, or it waits for the operator, or the resume of its run was asked for.
  pub claimed-IsWaitingOrResumed :
      (send : String → String → BuyerReply) (others : RunStore → RunStore)
      (resume : Option EvalError) (claimed : String × String) (case' : EvalRunCase)
      → IsFiled s
      → ((t : RunStore) → IsFiled t → IsFiled (others t))
      → (claim_reply L now r c given s).0 ≡ ok claimed
      → case_of (send_operator_reply L now r c given send others resume s).store r c ≡ some case'
      → (case'.state ≡ CaseRunState.waiting_user)
        ⊎ ((send_operator_reply L now r c given send others resume s).resumes ≡ true)
  unfolding send_operator_reply IsSafe
  claimed-IsWaitingOrResumed send others resume claimed case' filed kept h here =
      let seg_r = claimed_run claimed h in
      let seg_c = claimed_case claimed h in
      let safe =
        replying-IsSafe send others resume claimed seg_r seg_c (claim_reply L now r c given s) h
          (kept (claim_reply L now r c given s).1 (claim-IsFiled filed)) in
      elim (safe case' here) [ inl w ↦ inl (waiting_state case'.state w) | inr w ↦ inr w ]
