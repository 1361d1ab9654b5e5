-- ===== src/Buyer/Session/Change.antt =====
-- What an operation on one session may do to the store: save a new state of that session, and take
-- sessions out of the runtime set.
use codex_browser.Prelude.{
  ℕ, String, ◌≡◌, refl, ◌∙◌, ◌⊎◌, inl, inr, true, Option, none, some, arith, Option-cases, eq_iff,
  Bool-cases, is_empty,
}
use codex_browser.Dict.{get}
use codex_browser.Buyer.Models.{running, SessionStatus, TaskAuthPayload, EventEnvelope}
use codex_browser.Buyer.Session.State.{SessionState, update_session, get_session}
use codex_browser.Buyer.Session.{
  StoreError, Result, SessionStore, is_open, wake_for, attach_runtime, attached, with_session, save,
}
use codex_browser.Buyer.Session.Operations.{
  set_auth, get_state, set_status, set_waiting_question, accept_reply, answer_reply, reply_refusal,
  take_pending, apply_reply, pop_reply, append_event, add_agent_memory, get_agent_memory,
}

-- The parts of the store that no operation on one session touches.
pub record SameFrame (s s' : SessionStore) : Type 0 where
  pub limit : s'.max_active_sessions ≡ s.max_active_sessions
  pub ttl : s'.status_ttl_sec ≡ s.status_ttl_sec
  pub tasks : s'.task_refs ≡ s.task_refs
  pub done_tasks : s'.done ≡ s.done
  pub fewer : (j : String) → s'.runtime_sessions j ≡ true → s.runtime_sessions j ≡ true

pub data Change (s s' : SessionStore) : Type 0 where
  unchanged : SameFrame s s' → s'.repository ≡ s.repository → Change s s'
  saved :
      (k : String) (old new : SessionState)
      → SameFrame s s'
      → get_session s.repository k ≡ some old
      → new.session_id ≡ old.session_id
      → s'.repository ≡ update_session s.repository new
      → (s'.runtime_sessions k ≡ true → (is_open new.status ≡ true) ⊎ (new.status ≡ old.status))
      → Change s s'

SameFrame-refl : (s : SessionStore) → SameFrame s s
SameFrame-refl s = record {
  limit = refl;
  ttl = refl;
  tasks = refl;
  done_tasks = refl;
  fewer = λ j h. h;
}

-- Making an event, and attaching the runtime part, change nothing but the events.
pub wake_frame :
    (k : String) (s : SessionStore)
    → ((wake_for k s).1.repository ≡ s.repository)
      × ((wake_for k s).1.runtime_sessions ≡ s.runtime_sessions)
      × ((wake_for k s).1.max_active_sessions ≡ s.max_active_sessions)
      × ((wake_for k s).1.status_ttl_sec ≡ s.status_ttl_sec)
      × ((wake_for k s).1.task_refs ≡ s.task_refs)
      × ((wake_for k s).1.done ≡ s.done)
unfolding wake_for
wake_frame k s = elim (Option-cases (get s.wake_events k)) [
  | inl e ↦ rw (e, wake_for) (refl, refl, refl, refl, refl, refl)
  | inr (w, e) ↦ rw (e, wake_for) (refl, refl, refl, refl, refl, refl)
]

pub attach_frame :
    (st : SessionState) (s : SessionStore)
    → ((attach_runtime st s).1.repository ≡ s.repository)
      × ((attach_runtime st s).1.runtime_sessions ≡ s.runtime_sessions)
      × ((attach_runtime st s).1.max_active_sessions ≡ s.max_active_sessions)
      × ((attach_runtime st s).1.status_ttl_sec ≡ s.status_ttl_sec)
      × ((attach_runtime st s).1.task_refs ≡ s.task_refs)
      × ((attach_runtime st s).1.done ≡ s.done)
unfolding attach_runtime
attach_frame st s = wake_frame st.session_id s

module _ (k : String) (s : SessionStore) where
  -- The rule for `_get_locked`: a session that is not found changes nothing.
  pub with_session-Change :
      {A : Type 0} (rest : SessionState → SessionStore → Result A × SessionStore)
      → ((old : SessionState) → get_session s.repository k ≡ some old → Change s (rest old s).1)
      → Change s (with_session k rest s).1
  unfolding with_session
  with_session-Change rest each = elim (Option-cases (get_session s.repository k)) [
    | inl e ↦ rw (e, with_session) (unchanged (SameFrame-refl s) refl)
    | inr (old, e) ↦ rw (e, with_session) (each old e)
  ]

  -- A new state is saved and attached.
  module _ (old new : SessionState) (found : get_session s.repository k ≡ some old)
      (same_id : new.session_id ≡ old.session_id) (t : SessionStore) (frame : SameFrame s t)
      (repo : t.repository ≡ update_session s.repository new)
      (opened : t.runtime_sessions k ≡ true
        → (is_open new.status ≡ true) ⊎ (new.status ≡ old.status)) where
    attached-Change : Change s (attach_runtime new t).1
    attached-Change =
        let (r, run, lim, ttl, tasks, done) = attach_frame new t in
        saved k old new
          (record {
            limit = lim ∙ frame.limit;
            ttl = ttl ∙ frame.ttl;
            tasks = tasks ∙ frame.tasks;
            done_tasks = done ∙ frame.done_tasks;
            fewer = λ j h. frame.fewer j (rw run at h);
          })
          found same_id (r ∙ repo) (λ h. opened (rw run at h))

  -- A session that is only read.
  pub read-Change : (old : SessionState) → Change s (attached old s).1
  read-Change old =
      let (r, run, lim, ttl, tasks, done) = attach_frame old s in
      unchanged
        (record {
          limit = lim;
          ttl = ttl;
          tasks = tasks;
          done_tasks = done;
          fewer = λ j h. rw run at h;
        })
        r

  pub get_state-Change : Change s (get_state k s).1
  unfolding get_state
  get_state-Change = with_session-Change attached λ old e. read-Change old

  pub get_agent_memory-Change : Change s (get_agent_memory k s).1
  unfolding get_agent_memory
  get_agent_memory-Change = with_session-Change _ λ old e. unchanged (SameFrame-refl s) refl

  pub append_event-Change :
      (event : EventEnvelope) (now : ℕ) → Change s (append_event k event now s).1
  unfolding append_event
  append_event-Change event now =
      with_session-Change _
        λ old e. attached-Change old _ e refl _ (ground arith) (ground arith) (λ h. inr refl)

  pub add_agent_memory-Change :
      (role text : String) (now : ℕ) → Change s (add_agent_memory k role text now s).1
  unfolding add_agent_memory
  add_agent_memory-Change role text now =
      with_session-Change _
        λ old e. attached-Change old _ e refl _ (ground arith) (ground arith) (λ h. inr refl)

  pub set_auth-Change :
      (auth : Option TaskAuthPayload) (now : ℕ) → Change s (set_auth k auth now s).1
  unfolding set_auth
  set_auth-Change auth now =
      with_session-Change _
        λ old e. attached-Change old _ e refl _ (ground arith) (ground arith) (λ h. inr refl)

  pub set_status-Change :
      (status : SessionStatus) (error : Option String) (now : ℕ)
      → Change s (set_status k status error now s).1
  unfolding set_status is_open
  set_status-Change status error now = with_session-Change _ λ old e.
      attached-Change old _ e (ground arith) _ (ground arith) (ground arith)
        (λ h. ground (arith, eq_iff k k))

  pub set_waiting_question-Change :
      (question reply_id : String) (now : ℕ)
      → Change s (set_waiting_question k question reply_id now s).1
  unfolding set_waiting_question is_open
  set_waiting_question-Change question reply_id now = with_session-Change _ λ old e.
      let (r, run, lim, ttl, tasks, done) = wake_frame k s in
      attached-Change old _ e refl _ (ground (arith, r, run, lim, ttl, tasks, done))
        (ground (arith, r)) (λ h. inl refl)

  pub accept_reply-Change :
      (message : String) (now : ℕ) (old : SessionState)
      → get_session s.repository k ≡ some old
      → Change s (accept_reply k message now old s).1
  unfolding accept_reply is_open
  accept_reply-Change message now old e =
      let new = record old {
        pending_reply_text = some message;
        waiting_reply_id = none;
        waiting_question = none;
        status = running;
        updated_at = now;
      } in
      let (r, run, lim, ttl, tasks, done) = wake_frame k (save now new s) in
      attached-Change old new e refl _
        (record {
          limit = lim;
          ttl = ttl;
          tasks = tasks;
          done_tasks = done;
          fewer = λ j h. rw run at h;
        })
        r (λ h. inl refl)

  pub answer_reply-Change :
      (message : String) (now : ℕ) (old : SessionState)
      → get_session s.repository k ≡ some old
      → (refusal : Option StoreError) → Change s (answer_reply k message now old refusal s).1
  unfolding answer_reply
  answer_reply-Change message now old e none = accept_reply-Change message now old e
  answer_reply-Change message now old e (some refusal) = unchanged (SameFrame-refl s) refl

  pub apply_reply-Change :
      (reply_id message : String) (now : ℕ) → Change s (apply_reply k reply_id message now s).1
  unfolding apply_reply
  apply_reply-Change reply_id message now =
      with_session-Change _
        λ old e. answer_reply-Change message now old e (reply_refusal reply_id old s)

  pub take_pending-Change :
      (now : ℕ) (old : SessionState)
      → get_session s.repository k ≡ some old
      → (pending : Option String) → Change s (take_pending now old pending s).1
  unfolding take_pending
  take_pending-Change now old e none = unchanged (SameFrame-refl s) refl
  take_pending-Change now old e (some value) = elim (Bool-cases (is_empty value)) [
    | inl e' ↦ rw e' (unchanged (SameFrame-refl s) refl)
    | inr e' ↦ rw e' (saved k old _ (ground arith) e refl refl (λ h. inr refl))
  ]

  pub pop_reply-Change : (now : ℕ) → Change s (pop_reply k now s).1
  unfolding pop_reply
  pop_reply-Change now =
      with_session-Change _ λ old e. take_pending-Change now old e old.pending_reply_text
