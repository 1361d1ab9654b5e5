-- ===== src/Buyer/Session/Replies.antt =====
-- The hand-over of a reply of the user: `set_waiting_question`, `apply_reply` and `pop_reply`.
use codex_browser.Prelude.{
  ℕ, String, ◌≡◌, ◌↔◌, refl, ◌∙◌, ap, inl, inr, true, false, none, some, arith, eq_iff,
  Option-cases, is_empty,
}
use codex_browser.Dict.{get, get-put}
use codex_browser.Buyer.Models.{running, waiting_user}
use codex_browser.Buyer.Session.State.{
  SessionState, InMemorySessionRepository, clone_state, update_session, get_session,
}
use codex_browser.Buyer.Session.{
  SessionStore, StoreError, Result, ok, err, set_flag, wake_for, attach_runtime, with_session, save,
  is_active_in_current_runtime,
}
use codex_browser.Buyer.Session.Operations.{
  reply_refusal, accept_reply, answer_reply, apply_reply, take_pending, pop_reply,
}
use codex_browser.Buyer.Session.Change.{wake_frame, attach_frame}

-- What is saved under an id is found under it.
pub saved_found :
    (r : InMemorySessionRepository) (new : SessionState) (k : String)
    → new.session_id ≡ k
    → get_session (update_session r new) k
      ≡ some (clone_state true (clone_state r.persist_auth_payload new))
unfolding get_session update_session
saved_found r new k id = ground (
  arith,
  get-put r.sessions new.session_id (clone_state r.persist_auth_payload new) k,
  eq_iff new.session_id k,
)

-- The event of a session, once made, stays, and attaching then changes nothing.
pub wake_for_lem :
    (k : String) (s : SessionStore) → get (wake_for k s).1.wake_events k ≡ some (wake_for k s).0
unfolding wake_for
wake_for_lem k s = ground (arith, get-put s.wake_events k s.next_event k, eq_iff k k)

pub wake_known :
    (k : String) (s : SessionStore) (e : ℕ) → get s.wake_events k ≡ some e → wake_for k s ≡ (e, s)
unfolding wake_for
wake_known k s e h = rw (h, wake_for)

pub attach_known :
    (st : SessionState) (s : SessionStore) (e : ℕ)
    → get s.wake_events st.session_id ≡ some e
    → ((attach_runtime st s).1 ≡ s) × ((attach_runtime st s).0.wake_event ≡ some e)
unfolding attach_runtime
attach_known st s e h = rw (wake_known st.session_id s e h) (refl, refl)

-- A session that is found, by its repository's copy.
pub found_with :
    {A : Type 0} (k : String) (s : SessionStore) (st : SessionState)
    (rest : SessionState → SessionStore → Result A × SessionStore)
    → get_session s.repository k ≡ some st
    → with_session k rest s ≡ rest st s
unfolding with_session
found_with k s st rest found = rw (found, with_session)

pub refusal_iff :
    (reply_id : String) (st : SessionState) (s : SessionStore)
    → (reply_refusal reply_id st s ≡ none) ↔ (
        (st.status ≡ waiting_user)
        × (st.waiting_reply_id ≡ some reply_id)
        × (is_active_in_current_runtime s st ≡ true))
unfolding reply_refusal
refusal_iff reply_id st s = (there, back)
  where
    there :
        reply_refusal reply_id st s ≡ none
        → (st.status ≡ waiting_user)
          × (st.waiting_reply_id ≡ some reply_id)
          × (is_active_in_current_runtime s st ≡ true)
    there h = elim (Option-cases st.waiting_reply_id) [
      | inl e ↦ absurd (ground arith)
      | inr (w, e) ↦ (ground arith, ground (arith, eq_iff w reply_id), ground arith)
    ]

    back :
        (st.status ≡ waiting_user)
          × (st.waiting_reply_id ≡ some reply_id)
          × (is_active_in_current_runtime s st ≡ true)
        → reply_refusal reply_id st s ≡ none
    back (a, b, c) = ground (arith, eq_iff reply_id reply_id)

-- A reply that is refused, for whatever reason, leaves the whole store as it was.
pub refused_unchanged :
    (k reply_id message : String) (now : ℕ) (s : SessionStore) (e : StoreError)
    → (apply_reply k reply_id message now s).0 ≡ err e
    → (apply_reply k reply_id message now s).1 ≡ s
unfolding apply_reply with_session accept_reply
refused_unchanged k reply_id message now s e h = elim (Option-cases (get_session s.repository k)) [
  | inl none_found ↦ ground arith
  | inr (st, found) ↦ elim (Option-cases (reply_refusal reply_id st s)) [
    | inl fits ↦ ground arith
    | inr (x, refused) ↦ ground arith
  ]
]

-- The state that an accepted reply saves, and the store before its runtime part is attached.
abbrev pub replied : String → ℕ → SessionState → SessionState
replied message now st = record st {
  pending_reply_text = some message;
  waiting_reply_id = none;
  waiting_question = none;
  status = running;
  updated_at = now;
}

abbrev pub woken : String → SessionStore → SessionStore
woken k s = let (event, s₁) = wake_for k s in record s₁ { flags = set_flag event true s₁.flags }

pub accept_reply_lem :
    (k message : String) (now : ℕ) (st : SessionState) (s : SessionStore)
    → let new = replied message now st in
      let t = woken k (save now new s) in
      accept_reply k message now st s ≡ (ok (attach_runtime new t).0, (attach_runtime new t).1)
unfolding accept_reply
accept_reply_lem k message now st s = refl

pub accepted :
    (k reply_id message : String) (now : ℕ) (s : SessionStore) (st : SessionState)
    → get_session s.repository k ≡ some st
    → reply_refusal reply_id st s ≡ none
    → apply_reply k reply_id message now s ≡ accept_reply k message now st s
unfolding apply_reply
accepted k reply_id message now s st found fits = found_with k s st _ found ∙ rw fits

-- The reply of a user to a session that is found is accepted exactly when the session waits for the
-- user, for a reply with this very id, and its runner is alive in this process.
pub reply_accepted_iff :
    (k reply_id message : String) (now : ℕ) (s : SessionStore) (st : SessionState)
    → get_session s.repository k ≡ some st
    → ((r : SessionState) × ((apply_reply k reply_id message now s).0 ≡ ok r)) ↔ (
        (st.status ≡ waiting_user)
        × (st.waiting_reply_id ≡ some reply_id)
        × (is_active_in_current_runtime s st ≡ true))
unfolding apply_reply
reply_accepted_iff k reply_id message now s st found = (there, back)
  where
    opened :
        apply_reply k reply_id message now s
        ≡ answer_reply k message now st (reply_refusal reply_id st s) s
    opened = found_with k s st _ found

    there :
        (r : SessionState) × ((apply_reply k reply_id message now s).0 ≡ ok r)
        → (st.status ≡ waiting_user)
          × (st.waiting_reply_id ≡ some reply_id)
          × (is_active_in_current_runtime s st ≡ true)
    there (r, h) = elim (Option-cases (reply_refusal reply_id st s)) [
      | inl fits ↦ (refusal_iff reply_id st s).0 fits
      | inr (x, refused) ↦ absurd (cc (ap (λ t. t.0) opened, h, refused))
    ]

    back :
        (st.status ≡ waiting_user)
          × (st.waiting_reply_id ≡ some reply_id)
          × (is_active_in_current_runtime s st ≡ true)
        → (r : SessionState) × ((apply_reply k reply_id message now s).0 ≡ ok r)
    back c =
        let whole =
          accepted k reply_id message now s st found ((refusal_iff reply_id st s).1 c)
          ∙ accept_reply_lem k message now st s in
        (_, ap (λ t. t.0) whole)

-- After an accepted reply the repository holds the answered state.
pub replied_found :
    (k message : String) (now : ℕ) (s : SessionStore) (st : SessionState)
    → st.session_id ≡ k
    → get_session (accept_reply k message now st s).1.repository k
      ≡ some (
          clone_state true (clone_state s.repository.persist_auth_payload (replied message now st)))
replied_found k message now s st id =
    let new = replied message now st in
    ap (λ t. get_session t.1.repository k) (accept_reply_lem k message now st s)
    ∙ ap (λ r. get_session r k)
        ((attach_frame new (woken k (save now new s))).0 ∙ (wake_frame k (save now new s)).0)
    ∙ saved_found s.repository new k id

pub pop_found :
    (k : String) (now : ℕ) (s : SessionStore) (st : SessionState)
    → get_session s.repository k ≡ some st
    → pop_reply k now s ≡ take_pending now st st.pending_reply_text s
unfolding pop_reply
pop_found k now s st found = found_with k s st _ found

module _ (k : String) (now : ℕ) (t : SessionStore) (x : SessionState)
    (at : get_session t.repository k ≡ some x) where
  pub pop_takes :
      (message : String)
      → x.pending_reply_text ≡ some message
      → is_empty message ≡ false
      → pop_reply k now t ≡ (ok message, save now (record x { pending_reply_text = none }) t)
  unfolding take_pending
  pop_takes message has filled = pop_found k now t x at ∙ rw (has, take_pending) (rw filled)
