-- ===== src/Buyer/Session.antt =====
-- buyer/app/state.py: `SessionStore`. Every operation runs under the store's lock, so it is one
-- atomic function of the store. Readings of the clock and the new session's `uuid4` are arguments;
-- whether an asyncio task is done is part of the state, changed by the two steps of the event loop
-- at the end.
pub mod State
pub mod Operations
mod Change
pub mod Trace
pub mod Counting
pub mod Invariant
mod Pruning
pub mod Limit
pub mod Replies
pub mod Answered
mod Answering
pub mod Quiet
pub mod Once
pub mod Wakeup
pub mod Secrets
pub mod ReadBack
use codex_browser.Prelude.{
  ℕ, suc, ◌+◌, ◌*◌, String, Bool, true, false, not, Option, none, some, List, [], ◌∷◌, ◌++◌, map,
  if◌then◌else◌, ◌&&◌, ◌||◌, ◌==◌, ltb, leb, nat_eq, length, filter, one_of, is_empty,
}
use codex_browser.Dict.{Dict, get, put, remove}
use codex_browser.Json.{Fields}
use codex_browser.Buyer.Models.{
  SessionStatus, created, running, waiting_user, completed, failed, unverified, TaskAuthPayload,
  EventEnvelope,
}
use State.{
  SessionState, clone_state, InMemorySessionRepository, create_session, update_session, get_session,
  list_sessions, delete_sessions,
}

pub data StoreError : Type 0 where
  session_conflict session_not_found : StoreError
  not_waiting wrong_reply_id no_runner no_reply : StoreError

pub data Result {ℓ} (A : Type ℓ) : Type ℓ where
  ok : A → Result A
  err : StoreError → Result A

-- `flags` holds the state of each `asyncio.Event`, by its reference; `done` that of each task;
-- `hooks` the done callbacks that `set_task_ref` has registered.
pub record SessionStore : Type 0 where
  pub repository : InMemorySessionRepository
  pub max_active_sessions : ℕ
  pub status_ttl_sec : Option ℕ
  pub wake_events : Dict ℕ
  pub task_refs : Dict ℕ
  pub runtime_auth : Dict TaskAuthPayload
  pub runtime_sessions : String → Bool
  pub flags : ℕ → Bool
  pub next_event : ℕ
  pub done : ℕ → Bool
  pub hooks : List (ℕ × String)

-- `set.add` and `set.discard`, over the membership test of a set.
abbrev pub add : String → (String → Bool) → String → Bool
add k member j = (k == j) || member j

abbrev pub discard : String → (String → Bool) → String → Bool
discard k member j = not (k == j) && member j

abbrev pub set_flag : ℕ → Bool → (ℕ → Bool) → ℕ → Bool
set_flag e b flags j = if nat_eq e j then b else flags j

unfoldable pub is_terminal : SessionStatus → Bool
is_terminal completed = true
is_terminal failed = true
is_terminal unverified = true
is_terminal _ = false

unfoldable pub wake_for : String → SessionStore → ℕ × SessionStore
wake_for session_id s = elim (get s.wake_events session_id) [
  | some event ↦ (event, s)
  | none ↦ (
    s.next_event,
    record s {
      wake_events = put s.wake_events session_id s.next_event;
      flags = set_flag s.next_event false s.flags;
      next_event = suc s.next_event;
    },
  )
]

abbrev or_else {ℓ} : {A : Type ℓ} → Option A → Option A → Option A
or_else none other = other
or_else (some a) other = some a

unfoldable pub attach_runtime : SessionState → SessionStore → SessionState × SessionStore
attach_runtime state s =
    let (event, s') = wake_for state.session_id s in
    (
      record state {
        wake_event = some event;
        task_ref = get s'.task_refs state.session_id;
        auth = or_else (get s'.runtime_auth state.session_id) state.auth;
      },
      s',
    )

-- `return self._attach_runtime(state)`
abbrev pub attached : SessionState → SessionStore → Result SessionState × SessionStore
attached state s = let (state', s') = attach_runtime state s in (ok state', s')

-- `state = await self._get_locked(session_id)`, then the rest of the operation.
unfoldable pub with_session {ℓ} :
    {A : Type ℓ}
    → String
    → (SessionState → SessionStore → Result A × SessionStore)
    → SessionStore
    → Result A × SessionStore
with_session session_id rest s = elim (get_session s.repository session_id) [
  | none ↦ (err session_not_found, s)
  | some state ↦ rest state s
]

-- `_touch_locked` and `update_session`.
abbrev pub save : ℕ → SessionState → SessionStore → SessionStore
save now state s = record s {
  repository = update_session s.repository (record state { updated_at = now });
}

-- The three states in which a session may be active.
unfoldable pub is_open : SessionStatus → Bool
is_open created = true
is_open running = true
is_open waiting_user = true
is_open _ = false

unfoldable pub has_live_task : (ℕ → Bool) → Option ℕ → Bool
has_live_task done none = true
has_live_task done (some task) = not (done task)

unfoldable pub is_active_in_current_runtime : SessionStore → SessionState → Bool
unfolding has_live_task is_open
is_active_in_current_runtime s state =
    if not (is_open state.status)
    then false
    else if not (s.runtime_sessions state.session_id)
    then false
    else has_live_task s.done (get s.task_refs state.session_id)

-- The loop over `finished` of `_drop_finished_runtime_tasks_locked`.
unfoldable pub drop_tasks : List String → SessionStore → SessionStore
drop_tasks [] s = s
drop_tasks (session_id ∷ rest) s = drop_tasks rest (record s {
  task_refs = remove s.task_refs session_id;
  runtime_sessions = discard session_id s.runtime_sessions;
})

unfoldable pub drop_finished_runtime_tasks : SessionStore → SessionStore
unfolding drop_tasks
drop_finished_runtime_tasks s = drop_tasks (map (λ e. e.0) (filter (λ e. s.done e.1) s.task_refs)) s

-- The loop over `expired` of `_prune_and_list_locked`.
unfoldable pub forget_runtime : List String → SessionStore → SessionStore
forget_runtime [] s = s
forget_runtime (session_id ∷ rest) s = forget_runtime rest (record s {
  wake_events = remove s.wake_events session_id;
  task_refs = remove s.task_refs session_id;
  runtime_auth = remove s.runtime_auth session_id;
  runtime_sessions = discard session_id s.runtime_sessions;
})

-- Terminal, and last updated before `now - ttl`.
unfoldable pub is_expired : ℕ → ℕ → SessionState → Bool
unfolding is_terminal
is_expired now ttl state = is_terminal state.status && ltb (state.updated_at + ttl * 1000000) now

unfoldable pub prune_with_ttl : ℕ → Option ℕ → SessionStore → List SessionState × SessionStore
unfolding is_expired forget_runtime
prune_with_ttl now none s = (list_sessions s.repository, s)
prune_with_ttl now (some ttl) s =
    let sessions = list_sessions s.repository in
    let expired = map (λ state. state.session_id) (filter (is_expired now ttl) sessions) in
    let pruned = record s { repository = delete_sessions s.repository expired } in
    (
      filter (λ state. not (one_of state.session_id expired)) sessions,
      forget_runtime expired pruned,
    )

unfoldable pub prune_and_list : ℕ → SessionStore → List SessionState × SessionStore
unfolding prune_with_ttl
prune_and_list now s = prune_with_ttl now s.status_ttl_sec s

pub record CreateRequest : Type 0 where
  pub task : String
  pub start_url : String
  pub callback_url : String
  pub novnc_url : String
  pub metadata : Fields
  pub auth : Option TaskAuthPayload

unfoldable pub new_session : String → ℕ → CreateRequest → SessionState
new_session session_id now request = record {
  session_id = session_id;
  task = request.task;
  start_url = request.start_url;
  callback_url = request.callback_url;
  novnc_url = request.novnc_url;
  metadata = request.metadata;
  auth = request.auth;
  status = created;
  created_at = now;
  updated_at = now;
  waiting_reply_id = none;
  waiting_question = none;
  last_error = none;
  events = [];
  agent_memory = [];
  pending_reply_text = none;
  task_ref = none;
  wake_event = none;
}
