-- ===== src/Eval/Callbacks/Terminal.antt =====
-- A case that has ended, and a case that waits for the operator, under the callbacks of the buyer.
use codex_browser.Prelude.{
  ℕ, String, true, ◌≡◌, refl, inl, inr, ap, sym, subst, ◌∙◌, some, ◌==◌, eq_iff, ◌&&◌, arith,
  Bool-cases,
}
use codex_browser.Eval.Models.{EvalRunCase, BuyerCallbackEnvelope, Result, ok, err}
use codex_browser.Eval.Helpers.{is_terminal_case_state}
use codex_browser.Eval.RunStore.{RunStore, CaseUpdate, set_if_present, no_update, set, updated_case}
use codex_browser.Eval.RunStore.Frame.{case_of, IsFiled, is_some-injective}
use codex_browser.Eval.Callbacks.{
  CallbackLib, CallbackRequest, state_updates_for_callback, receive_buyer_callback,
}
use codex_browser.Eval.Callbacks.Effect.{after_event, receive_effect}

-- What a callback may not touch in a case that has ended.
abbrev pub HasSameOutcome : EvalRunCase → EvalRunCase → Type 0
HasSameOutcome case case' =
    (case'.state ≡ case.state)
    × (case'.session_id ≡ case.session_id)
    × (case'.started_at ≡ case.started_at)
    × (case'.finished_at ≡ case.finished_at)
    × (case'.waiting_reply_id ≡ case.waiting_reply_id)
    × (case'.error ≡ case.error)

ok-injective : (x y : CaseUpdate) → ok x ≡ ok y → x ≡ y
ok-injective x y h = ap (from_ok x) h
  where
    from_ok : CaseUpdate → Result CaseUpdate → CaseUpdate
    from_ok d (err e) = d
    from_ok d (ok a) = a

-- One case under ids that are equal by test.
same_case :
    (s : RunStore) (r' c' r c : String) (old case : EvalRunCase)
    → case_of s r' c' ≡ some old
    → case_of s r c ≡ some case
    → ((r' == r) && (c' == c)) ≡ true
    → old ≡ case
same_case s r' c' r c old case was at e =
    let same_run : r' ≡ r = ground (arith, e, eq_iff r' r) in
    let same_id : c' ≡ c = ground (arith, e, eq_iff r' r, eq_iff c' c) in
    is_some-injective old case
      (sym was ∙ ap (λ k. case_of s k c') same_run ∙ ap (case_of s r) same_id ∙ at)

module _ (C : CallbackLib) where
  ended_same :
      (envelope : BuyerCallbackEnvelope) (r c : String) (case : EvalRunCase) (u : CaseUpdate)
      → is_terminal_case_state case.state ≡ true
      → state_updates_for_callback C envelope case ≡ ok u
      → HasSameOutcome case (after_event C envelope r c u case)
  unfolding state_updates_for_callback updated_case set_if_present
  ended_same envelope r c case u t h =
      let same =
        ok-injective (record no_update { session_id = set case.session_id }) u
          (sym (rw t refl) ∙ h) in
      rw (sym same) (refl, refl, refl, refl, refl, refl)

  -- No callback, of whatever kind and with whatever token, changes the state, the session, the
  -- times, the awaited reply or the error of a case that has ended; asked is that
  -- each manifest lies under the id of its run.
  pub terminal_stays :
      (now : ℕ) (q : CallbackRequest) (envelope : BuyerCallbackEnvelope) (s : RunStore)
      (r c : String) (case : EvalRunCase)
      → IsFiled s
      → case_of s r c ≡ some case
      → is_terminal_case_state case.state ≡ true
      → (case' : EvalRunCase) × (case_of (receive_buyer_callback C now q envelope s).1 r c
          ≡ some case')
        × HasSameOutcome case case'
  terminal_stays now q envelope s r c case filed at ended =
      elim (receive_effect C now q envelope s filed) [
        | inl e ↦ (case, ap (λ t. case_of t r c) e ∙ at, (refl, refl, refl, refl, refl, refl))
        | inr (r', c', u, old, was, upd, after) ↦ elim (Bool-cases ((r' == r) && (c' == c))) [
          | inr e ↦ (case, after r c ∙ rw e at, (refl, refl, refl, refl, refl, refl))
          | inl e ↦
              let same = same_case s r' c' r c old case was at e in
              (
                after_event C envelope r' c' u old,
                after r c ∙ rw e refl,
                subst (λ x. HasSameOutcome x (after_event C envelope r' c' u old)) same
                    (ended_same envelope r' c' old u
                      (ap (λ x. is_terminal_case_state x.state) same ∙ ended) upd),
              )
        ]
      ]
