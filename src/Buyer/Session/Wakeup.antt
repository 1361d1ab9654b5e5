-- ===== src/Buyer/Session/Wakeup.antt =====
-- No lost wake-up: the event that the runner waits on is the one that the reply sets.
use codex_browser.Prelude.{ℕ, String, ◌≡◌, refl, ◌∙◌, ap, Bool, true, false, none, some, arith}
use codex_browser.Dict.{get}
use codex_browser.Buyer.Models.{waiting_user}
use codex_browser.Buyer.Session.State.{SessionState, clone_state, get_session, update_session}
use codex_browser.Buyer.Session.{
  SessionStore, Result, ok, set_flag, wake_for, attach_runtime, save, is_open,
  is_active_in_current_runtime,
}
use codex_browser.Buyer.Session.Operations.{
  reply_refusal, apply_reply, set_waiting_question, get_state,
}
use codex_browser.Buyer.Session.Change.{wake_frame}
use codex_browser.Buyer.Session.Replies.{
  saved_found, wake_for_lem, wake_known, attach_known, found_with, refusal_iff, replied, woken,
  accept_reply_lem, accepted,
}

-- The state that a question saves, and the store before that.
abbrev asked : String → String → ℕ → SessionState → SessionState
asked question reply_id now st = record st {
  waiting_reply_id = some reply_id;
  waiting_question = some question;
  pending_reply_text = none;
  status = waiting_user;
  updated_at = now;
}

abbrev cleared : String → SessionStore → SessionStore
cleared k s = let (event, s₁) = wake_for k s in record s₁ { flags = set_flag event false s₁.flags }

module _ (k question reply_id : String) (now : ℕ) (s : SessionStore) (st : SessionState)
    (found : get_session s.repository k ≡ some st) (id : st.session_id ≡ k) where
  -- After a question the store is the cleared one, with the asked state saved.
  question_store :
      (set_waiting_question k question reply_id now s).1
      ≡ save now (asked question reply_id now st) (cleared k s)
  unfolding set_waiting_question
  question_store =
      ap (λ r. r.1) (found_with k s st _ found)
      ∙ (attach_known (asked question reply_id now st)
          (save now (asked question reply_id now st) (cleared k s)) (wake_for k s).0
          (rw id (wake_for_lem k s))).0

-- Setting a flag shows.
flag_set : (e : ℕ) (b : Bool) (f : ℕ → Bool) → set_flag e b f e ≡ b
flag_set e b f = ground arith

module _ (k reply_id message : String) (later e : ℕ) (t : SessionStore) (x : SessionState)
    (at : get_session t.repository k ≡ some x) (id : x.session_id ≡ k)
    (fits : reply_refusal reply_id x t ≡ none) (event : get t.wake_events k ≡ some e) where
  abbrev saved_reply : SessionStore
  saved_reply = save later (replied message later x) t

  woken_known : woken k saved_reply ≡ record saved_reply { flags = set_flag e true t.flags }
  woken_known = rw (wake_known k saved_reply e event) refl

  -- The store after an accepted reply, where the session already has its event.
  answered : apply_reply k reply_id message later t ≡ (
    ok (attach_runtime (replied message later x) (woken k saved_reply)).0,
    record saved_reply { flags = set_flag e true t.flags },
  )
  answered =
      accepted k reply_id message later t x at fits
      ∙ accept_reply_lem k message later x t
      ∙ ap
          (λ (u : SessionStore).
            (ok (attach_runtime (replied message later x) (woken k saved_reply)).0, u))
          ((attach_known (replied message later x) (woken k saved_reply) e
              (rw (woken_known, id) event)).0
            ∙ woken_known)

-- Whether a session is active is read from its id, its status and the runtime part.
still_active :
    (s t : SessionStore) (st x : SessionState)
    → is_open x.status ≡ true
    → x.session_id ≡ st.session_id
    → t.runtime_sessions ≡ s.runtime_sessions
    → t.task_refs ≡ s.task_refs
    → t.done ≡ s.done
    → is_active_in_current_runtime s st ≡ true
    → is_active_in_current_runtime t x ≡ true
unfolding is_active_in_current_runtime
still_active s t st x opened id run tasks done a =
    ground (arith, opened, ap (λ f. f x.session_id) run, tasks, done)

-- An active session is asked, and then answered: the reply is accepted, the event that `get` shows
-- to the runner after the question is not set before the reply and is set after it, and it is
-- still the session's event then, so a runner that looks only after the reply does not wait either.
pub no_lost_wakeup :
    (k question reply_id message : String) (now later : ℕ) (s : SessionStore) (st : SessionState)
    → get_session s.repository k ≡ some st
    → st.session_id ≡ k
    → is_active_in_current_runtime s st ≡ true
    → let t = (set_waiting_question k question reply_id now s).1 in
      let u = (apply_reply k reply_id message later t).1 in
      (e : ℕ) × ((r : SessionState) × ((get_state k t).0 ≡ ok r) × (r.wake_event ≡ some e))
      × (t.flags e ≡ false)
      × ((r : SessionState) × ((apply_reply k reply_id message later t).0 ≡ ok r))
      × (u.flags e ≡ true)
      × (get u.wake_events k ≡ some e)
unfolding clone_state get_state is_open
no_lost_wakeup k question reply_id message now later s st found id active =
    let e = (wake_for k s).0 in
    let new = asked question reply_id now st in
    let t = save now new (cleared k s) in
    let x = clone_state true (clone_state s.repository.persist_auth_payload new) in
    let frame = wake_frame k s in
    let event : get t.wake_events k ≡ some e = wake_for_lem k s in
    let at : get_session t.repository k ≡ some x =
      ap (λ r. get_session (update_session r new) k) frame.0 ∙ saved_found s.repository new k id in
    let runs : is_active_in_current_runtime t x ≡ true =
      still_active s t st x refl refl frame.1 frame.4 frame.5 active in
    let fits = (refusal_iff reply_id x t).1 (refl, refl, runs) in
    let done = answered k reply_id message later e t x at id fits event in
    rw (question_store k question reply_id now s st found id) (
      e,
      (_, ap (λ r. r.0) (found_with k t x _ at), (attach_known x t e (rw id event)).1),
      flag_set e false (wake_for k s).1.flags,
      (_, ap (λ r. r.0) done),
      ap (λ (r : Result SessionState × SessionStore). r.1.flags e) done ∙ flag_set e true t.flags,
      ap (λ (r : Result SessionState × SessionStore). get r.1.wake_events k) done ∙ event,
    )
