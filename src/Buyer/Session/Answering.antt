-- ===== src/Buyer/Session/Answering.antt =====
-- buyer/app/state.py: an answered session, through each operation on one session.
use codex_browser.Prelude.{
  ℕ, String, ◌≡◌, ◌≢◌, refl, inl, inr, Bool, Option, none, some, [], ◌∷◌, ◌++◌, Bool-cases,
  is_empty,
}
use codex_browser.Buyer.Models.{
  SessionStatus, TaskAuthPayload, EventEnvelope, waiting_user, running,
}
use codex_browser.Buyer.Session.State.{SessionState, get_session}
use codex_browser.Buyer.Session.{SessionStore, StoreError, is_terminal, wake_for, save}
use codex_browser.Buyer.Session.Operations
use codex_browser.Buyer.Session.Operations.{
  register, active_sessions, attach_all, is_hook, remember_auth, reply_refusal, answer_reply,
  accept_reply, take_pending, with_error,
}
use codex_browser.Buyer.Session.Change.{wake_frame}
use codex_browser.Buyer.Session.Replies.{refusal_iff}
use codex_browser.Buyer.Session.Answered.{
  HasAnswered, IsAnswered, attached-HasAnswered, errors_id, errors_kept, old-IsAnswered,
  save-HasAnswered, terminal-repository, with-HasAnswered,
}

replaced_repository :
    (j : String) (auth : Option TaskAuthPayload) (s : SessionStore)
    → (Operations.replace_auth j auth s).repository ≡ s.repository
replaced_repository j none s = refl
replaced_repository j (some auth) s = refl

module _ (k : String) (taken : Bool) where
  pub set_auth-HasAnswered :
      (j : String) (auth : Option TaskAuthPayload) (now : ℕ) (s : SessionStore)
      → HasAnswered k taken s.repository
      → HasAnswered k taken (Operations.set_auth j auth now s).1.repository
  unfolding Operations.set_auth
  set_auth-HasAnswered j auth now s h = with-HasAnswered k taken j _ s h λ old e.
      attached-HasAnswered k taken (record old { auth = auth; updated_at = now }) _
        (save-HasAnswered k taken now j (Operations.replace_auth j auth s) old
          (record old { auth = auth; updated_at = now }) (rw (replaced_repository j auth s) h)
          (rw (replaced_repository j auth s) e) refl
          (old-IsAnswered k taken j s.repository old h e))

  pub set_status-HasAnswered :
      (j : String) (status : SessionStatus) (error : Option String) (now : ℕ) (s : SessionStore)
      → HasAnswered k taken s.repository
      → HasAnswered k taken (Operations.set_status j status error now s).1.repository
  unfolding Operations.set_status
  set_status-HasAnswered j status error now s h = with-HasAnswered k taken j _ s h λ old e.
      let new = with_error error (record old { status = status; updated_at = now }) in
      let kept =
        save-HasAnswered k taken now j s old new h e (errors_id k taken error _)
          (λ at. errors_kept k taken error _ (old-IsAnswered k taken j s.repository old h e at)) in
      terminal-repository k taken (is_terminal status) new _ (save now new s) kept kept

  pub set_waiting_question-HasAnswered :
      (j question reply_id : String) (now : ℕ) (s : SessionStore)
      → j ≢ k
      → HasAnswered k taken s.repository
      → HasAnswered k taken (Operations.set_waiting_question j question reply_id now s).1.repository
  unfolding Operations.set_waiting_question
  set_waiting_question-HasAnswered j question reply_id now s other h =
      with-HasAnswered k taken j _ s h λ old e.
        let frame = (wake_frame j s).0 in
        attached-HasAnswered k taken _ _ (
          save-HasAnswered k taken now j (wake_for j s).1 old
            (record old {
              waiting_reply_id = some reply_id;
              waiting_question = some question;
              pending_reply_text = none;
              status = waiting_user;
              updated_at = now;
            })
            (rw frame h) (rw frame e) refl (λ at. absurd (other at)))

  -- A reply to the session is refused; one to another is not its concern.
  accept_reply-HasAnswered :
      (j message : String) (now : ℕ) (old : SessionState) (s : SessionStore)
      → HasAnswered k taken s.repository
      → get_session s.repository j ≡ some old
      → j ≢ k
      → HasAnswered k taken (accept_reply j message now old s).1.repository
  unfolding accept_reply
  accept_reply-HasAnswered j message now old s h e other =
      let new : SessionState = record old {
        pending_reply_text = some message;
        waiting_reply_id = none;
        waiting_question = none;
        status = running;
        updated_at = now;
      } in
      attached-HasAnswered k taken new _ (
        rw (wake_frame j (save now new s)).0
          (save-HasAnswered k taken now j s old new h e refl (λ at. absurd (other at))))

  pub refused_here :
      (reply_id : String) (st : SessionState) (s : SessionStore)
      → IsAnswered taken st
      → reply_refusal reply_id st s ≢ none
  refused_here reply_id st s a fits = absurd (cc (((refusal_iff reply_id st s).0 fits).1, a.0))

  answer_reply-HasAnswered :
      (j message : String) (now : ℕ) (old : SessionState) (refusal : Option StoreError)
      (s : SessionStore)
      → HasAnswered k taken s.repository
      → get_session s.repository j ≡ some old
      → (j ≡ k → refusal ≢ none)
      → HasAnswered k taken (answer_reply j message now old refusal s).1.repository
  unfolding answer_reply
  answer_reply-HasAnswered j message now old (some e) s h found refused = h
  answer_reply-HasAnswered j message now old none s h found refused =
      accept_reply-HasAnswered j message now old s h found (λ at. refused at refl)

  pub apply_reply-HasAnswered :
      (j reply_id message : String) (now : ℕ) (s : SessionStore)
      → HasAnswered k taken s.repository
      → HasAnswered k taken (Operations.apply_reply j reply_id message now s).1.repository
  unfolding Operations.apply_reply
  apply_reply-HasAnswered j reply_id message now s h = with-HasAnswered k taken j _ s h λ old e.
      answer_reply-HasAnswered j message now old (reply_refusal reply_id old s) s h e
        λ at. refused_here reply_id old s (old-IsAnswered k taken j s.repository old h e at)

  take_pending-HasAnswered :
      (j : String) (now : ℕ) (old : SessionState) (pending : Option String) (s : SessionStore)
      → HasAnswered k taken s.repository
      → get_session s.repository j ≡ some old
      → HasAnswered k taken (take_pending now old pending s).1.repository
  unfolding take_pending
  take_pending-HasAnswered j now old none s h e = h
  take_pending-HasAnswered j now old (some value) s h e = elim (Bool-cases (is_empty value)) [
    | inl f ↦ rw (take_pending, f) h
    | inr f ↦
        rw (take_pending, f)
          (save-HasAnswered k taken now j s old (record old { pending_reply_text = none }) h e refl
            (λ at. ((old-IsAnswered k taken j s.repository old h e at).0, λ t. refl)))
  ]

  pub pop_reply-HasAnswered :
      (j : String) (now : ℕ) (s : SessionStore)
      → HasAnswered k taken s.repository
      → HasAnswered k taken (Operations.pop_reply j now s).1.repository
  unfolding Operations.pop_reply
  pop_reply-HasAnswered j now s h =
      with-HasAnswered k taken j _ s h
        λ old e. take_pending-HasAnswered j now old old.pending_reply_text s h e

  pub append_event-HasAnswered :
      (j : String) (event : EventEnvelope) (now : ℕ) (s : SessionStore)
      → HasAnswered k taken s.repository
      → HasAnswered k taken (Operations.append_event j event now s).1.repository
  unfolding Operations.append_event
  append_event-HasAnswered j event now s h = with-HasAnswered k taken j _ s h λ old e.
      let new : SessionState = record old { events = old.events ++ event ∷ []; updated_at = now } in
      attached-HasAnswered k taken new (save now new s) (
        save-HasAnswered k taken now j s old new h e refl
          (old-IsAnswered k taken j s.repository old h e))

  pub add_agent_memory-HasAnswered :
      (j role text : String) (now : ℕ) (s : SessionStore)
      → HasAnswered k taken s.repository
      → HasAnswered k taken (Operations.add_agent_memory j role text now s).1.repository
  unfolding Operations.add_agent_memory
  add_agent_memory-HasAnswered j role text now s h = with-HasAnswered k taken j _ s h λ old e.
      let new : SessionState = record old {
        agent_memory = old.agent_memory ++ (role, text) ∷ [];
        updated_at = now;
      } in
      attached-HasAnswered k taken new (save now new s) (
        save-HasAnswered k taken now j s old new h e refl
          (old-IsAnswered k taken j s.repository old h e))
