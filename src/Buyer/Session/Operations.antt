-- ===== src/Buyer/Session/Operations.antt =====
-- buyer/app/state.py: the operations of `SessionStore` that the service calls, and the two steps by
-- which the event loop changes what the store can see of its tasks.
use codex_browser.Prelude.{
  ℕ, String, Bool, true, false, not, Option, none, some, List, [], ◌∷◌, ◌++◌, if◌then◌else◌, ◌&&◌,
  ◌==◌, leb, nat_eq, length, filter, any, is_empty,
}
use codex_browser.Dict.{put, remove}
use codex_browser.Json.{Fields}
use codex_browser.Buyer.Models.{
  SessionStatus, running, waiting_user, TaskAuthPayload, EventEnvelope,
}
use codex_browser.Buyer.Session.State.{SessionState, create_session}
use codex_browser.Buyer.Session.{
  StoreError, session_conflict, not_waiting, wrong_reply_id, no_runner, no_reply, Result, ok, err,
  SessionStore, add, discard, set_flag, is_terminal, wake_for, attach_runtime, attached,
  with_session, save, is_active_in_current_runtime, drop_finished_runtime_tasks, prune_and_list,
  CreateRequest, new_session,
}

abbrev pub remember_auth : String → Option TaskAuthPayload → SessionStore → SessionStore
remember_auth session_id none s = s
remember_auth session_id (some auth) s = record s {
  runtime_auth = put s.runtime_auth session_id auth;
}

-- What `create_session` does once the limit on active sessions leaves room.
unfoldable pub register :
    String → ℕ → CreateRequest → SessionStore → Result SessionState × SessionStore
unfolding new_session
register session_id now request s =
    let state = new_session session_id now request in
    let s₁ = remember_auth session_id request.auth s in
    let s₂ = record s₁ {
      repository = create_session s₁.repository state;
      runtime_sessions = add session_id s₁.runtime_sessions;
    } in
    attached state s₂

-- The sessions that count against the limit, after pruning and dropping finished tasks.
unfoldable pub active_sessions : SessionStore → List SessionState → List SessionState
active_sessions s sessions = filter (is_active_in_current_runtime s) sessions

unfoldable pub create :
    ℕ → String → ℕ → CreateRequest → SessionStore → Result SessionState × SessionStore
unfolding register active_sessions
create pruned_at session_id now request s =
    let (sessions, s₁) = prune_and_list pruned_at s in
    let s₂ = drop_finished_runtime_tasks s₁ in
    if leb s₂.max_active_sessions (length (active_sessions s₂ sessions))
    then (err session_conflict, s₂)
    else register session_id now request s₂

abbrev pub replace_auth : String → Option TaskAuthPayload → SessionStore → SessionStore
replace_auth session_id none s = record s { runtime_auth = remove s.runtime_auth session_id }
replace_auth session_id (some auth) s = record s {
  runtime_auth = put s.runtime_auth session_id auth;
}

unfoldable pub set_auth :
    String → Option TaskAuthPayload → ℕ → SessionStore → Result SessionState × SessionStore
set_auth session_id auth now = with_session session_id λ state s.
    let state' = record state { auth = auth; updated_at = now } in
    attached state' (save now state' (replace_auth session_id auth s))

unfoldable pub get_state : String → SessionStore → Result SessionState × SessionStore
get_state session_id = with_session session_id attached

abbrev pub with_error : Option String → SessionState → SessionState
with_error none state = state
with_error (some e) state = record state { last_error = some e }

unfoldable pub set_status :
    String → SessionStatus → Option String → ℕ → SessionStore → Result SessionState × SessionStore
unfolding is_terminal
set_status session_id status error now = with_session session_id λ state s.
    let state' = with_error error (record state { status = status; updated_at = now }) in
    let s₁ = save now state' s in
    let s₂ =
      if is_terminal status
      then record s₁ { runtime_sessions = discard session_id s₁.runtime_sessions }
      else s₁ in
    attached state' s₂

unfoldable pub set_waiting_question :
    String → String → String → ℕ → SessionStore → Result SessionState × SessionStore
set_waiting_question session_id question reply_id now = with_session session_id λ state s.
    let (event, s₁) = wake_for session_id s in
    let s₂ = record s₁ { flags = set_flag event false s₁.flags } in
    let state' = record state {
      waiting_reply_id = some reply_id;
      waiting_question = some question;
      pending_reply_text = none;
      status = waiting_user;
      updated_at = now;
    } in
    attached state' (save now state' s₂)

abbrev is_waiting : SessionStatus → Bool
is_waiting waiting_user = true
is_waiting _ = false

-- `state.waiting_reply_id != reply_id`, negated.
abbrev pub awaits_reply : Option String → String → Bool
awaits_reply none reply_id = false
awaits_reply (some w) reply_id = w == reply_id

unfoldable pub accept_reply :
    String → String → ℕ → SessionState → SessionStore → Result SessionState × SessionStore
accept_reply session_id message now state s =
    let state' = record state {
      pending_reply_text = some message;
      waiting_reply_id = none;
      waiting_question = none;
      status = running;
      updated_at = now;
    } in
    let (event, s₁) = wake_for session_id (save now state' s) in
    attached state' (record s₁ { flags = set_flag event true s₁.flags })

-- The three guards of `apply_reply`, in their order.
unfoldable pub reply_refusal : String → SessionState → SessionStore → Option StoreError
reply_refusal reply_id state s =
    if not (is_waiting state.status)
    then some not_waiting
    else if not (awaits_reply state.waiting_reply_id reply_id)
    then some wrong_reply_id
    else if not (is_active_in_current_runtime s state)
    then some no_runner
    else none

unfoldable pub answer_reply :
    String
    → String
    → ℕ
    → SessionState
    → Option StoreError
    → SessionStore
    → Result SessionState × SessionStore
answer_reply session_id message now state (some refusal) s = (err refusal, s)
answer_reply session_id message now state none s = accept_reply session_id message now state s

unfoldable pub apply_reply :
    String → String → String → ℕ → SessionStore → Result SessionState × SessionStore
unfolding answer_reply
apply_reply session_id reply_id message now =
    with_session session_id
      λ state s. answer_reply session_id message now state (reply_refusal reply_id state s) s

unfoldable pub take_pending :
    ℕ → SessionState → Option String → SessionStore → Result String × SessionStore
take_pending now state none s = (err no_reply, s)
take_pending now state (some value) s =
    if is_empty value
    then (err no_reply, s)
    else (ok value, save now (record state { pending_reply_text = none }) s)

unfoldable pub pop_reply : String → ℕ → SessionStore → Result String × SessionStore
unfolding take_pending
pop_reply session_id now =
    with_session session_id λ state s. take_pending now state state.pending_reply_text s

unfoldable pub append_event :
    String → EventEnvelope → ℕ → SessionStore → Result SessionState × SessionStore
append_event session_id event now = with_session session_id λ state s.
    let state' = record state { events = state.events ++ event ∷ []; updated_at = now } in
    attached state' (save now state' s)

unfoldable pub add_agent_memory :
    String → String → String → ℕ → SessionStore → Result SessionState × SessionStore
add_agent_memory session_id role text now = with_session session_id λ state s.
    let state' = record state {
      agent_memory = state.agent_memory ++ (role, text) ∷ [];
      updated_at = now;
    } in
    attached state' (save now state' s)

unfoldable pub get_agent_memory :
    String → SessionStore → Result (List (String × String)) × SessionStore
get_agent_memory session_id = with_session session_id λ state s. (ok state.agent_memory, s)

-- `set_auth_context`, `record_artifacts`: the session has to be there; the repository in memory keeps
-- nothing of what it is given.
unfoldable pub set_auth_context : String → Fields → SessionStore → Result (Unit {0}) × SessionStore
set_auth_context session_id context = with_session session_id λ state s. (ok tt, s)

unfoldable pub record_artifacts :
    String → List Fields → SessionStore → Result (Unit {0}) × SessionStore
record_artifacts session_id artifacts = with_session session_id λ state s. (ok tt, s)

unfoldable pub attach_all : List SessionState → SessionStore → List SessionState × SessionStore
attach_all [] s = ([], s)
attach_all (x ∷ xs) s =
    let (x', s₁) = attach_runtime x s in let (xs', s₂) = attach_all xs s₁ in (x' ∷ xs', s₂)

unfoldable pub list_states : ℕ → SessionStore → List SessionState × SessionStore
unfolding attach_all
list_states now s =
    let (sessions, s₁) = prune_and_list now s in
    attach_all sessions (drop_finished_runtime_tasks s₁)

-- `set_task_ref`, with the done callback that it registers.
unfoldable pub set_task_ref : String → ℕ → SessionStore → SessionStore
set_task_ref session_id task s = record s {
  task_refs = put s.task_refs session_id task;
  runtime_sessions = add session_id s.runtime_sessions;
  hooks = s.hooks ++ (task, session_id) ∷ [];
}

-- The event loop ends a task.
unfoldable pub finish_task : ℕ → SessionStore → SessionStore
finish_task task s = record s { done = set_flag task true s.done }

abbrev pub is_hook : ℕ → String → ℕ × String → Bool
is_hook task session_id (t, k) = nat_eq t task && (k == session_id)

-- The event loop then runs the done callbacks of that task and session: they discard the session.
unfoldable pub run_hook : ℕ → String → SessionStore → SessionStore
run_hook task session_id s =
    if s.done task && any (is_hook task session_id) s.hooks
    then record s {
      runtime_sessions = discard session_id s.runtime_sessions;
      hooks = filter (λ h. not (is_hook task session_id h)) s.hooks;
    }
    else s
