-- ===== src/Buyer/Session/State.antt =====
-- buyer/app/state.py: the session state, its clone, and the in-memory session repository.
use codex_browser.Prelude.{
  ℕ, String, Bool, true, Option, none, some, List, [], ◌∷◌, map, if◌then◌else◌, ◌&&◌, is_some,
}
use codex_browser.Dict.{Dict, get, put, remove, values}
use codex_browser.Json.{Fields}
use codex_browser.Buyer.Models.{SessionStatus, TaskAuthPayload, EventEnvelope}

-- Times are microseconds. `wake_event` and `task_ref` are references into the store's runtime part;
-- `none` in `wake_event` is the fresh `asyncio.Event` of a new object, which nobody else holds.
pub record SessionState : Type 0 where
  pub session_id : String
  pub task : String
  pub start_url : String
  pub callback_url : String
  pub novnc_url : String
  pub metadata : Fields
  pub auth : Option TaskAuthPayload
  pub status : SessionStatus
  pub created_at : ℕ
  pub updated_at : ℕ
  pub waiting_reply_id : Option String
  pub waiting_question : Option String
  pub last_error : Option String
  pub events : List EventEnvelope
  pub agent_memory : List (String × String)
  pub pending_reply_text : Option String
  pub task_ref : Option ℕ
  pub wake_event : Option ℕ

-- `_clone_state`: a copy without runtime references; the auth payload is copied only if it may be.
unfoldable pub clone_state : Bool → SessionState → SessionState
clone_state persist_auth state = record state {
  auth = if persist_auth && is_some state.auth then state.auth else none;
  task_ref = none;
  wake_event = none;
}

pub record InMemorySessionRepository : Type 0 where
  pub persist_auth_payload : Bool
  pub sessions : Dict SessionState

-- `create_session` and `update_session` are the same assignment.
unfoldable pub create_session : InMemorySessionRepository → SessionState → InMemorySessionRepository
create_session r state = record r {
  sessions = put r.sessions state.session_id (clone_state r.persist_auth_payload state);
}

unfoldable pub update_session : InMemorySessionRepository → SessionState → InMemorySessionRepository
update_session r state = record r {
  sessions = put r.sessions state.session_id (clone_state r.persist_auth_payload state);
}

unfoldable pub get_session : InMemorySessionRepository → String → Option SessionState
get_session r session_id = elim (get r.sessions session_id) [
  | none ↦ none
  | some state ↦ some (clone_state true state)
]

unfoldable pub list_sessions : InMemorySessionRepository → List SessionState
list_sessions r = map (clone_state true) (values r.sessions)

unfoldable pub delete_from : Dict SessionState → List String → Dict SessionState
delete_from sessions [] = sessions
delete_from sessions (session_id ∷ rest) = delete_from (remove sessions session_id) rest

unfoldable pub delete_sessions : InMemorySessionRepository → List String → InMemorySessionRepository
unfolding delete_from
delete_sessions r session_ids = record r { sessions = delete_from r.sessions session_ids }
