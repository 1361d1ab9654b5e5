-- ===== src/Buyer/Session/Trace.antt =====
-- Runs of the session store: any operations in any order, interleaved with the steps of the event
-- loop.
use codex_browser.Prelude.{ℕ, String, ◌≡◌, true, Option, none}
use codex_browser.Dict.{get}
use codex_browser.Buyer.Models.{SessionStatus, TaskAuthPayload, EventEnvelope}
use codex_browser.Buyer.Session.{SessionStore, CreateRequest}
use codex_browser.Buyer.Session.Operations

pub data Op : Type 0 where
  create : ℕ → String → ℕ → CreateRequest → Op
  set_auth : String → Option TaskAuthPayload → ℕ → Op
  get_state : String → Op
  set_status : String → SessionStatus → Option String → ℕ → Op
  set_waiting_question : String → String → String → ℕ → Op
  apply_reply : String → String → String → ℕ → Op
  pop_reply : String → ℕ → Op
  append_event : String → EventEnvelope → ℕ → Op
  add_agent_memory : String → String → String → ℕ → Op
  get_agent_memory : String → Op
  list_states : ℕ → Op
  set_task_ref : String → ℕ → Op
  finish_task : ℕ → Op
  run_hook : ℕ → String → Op

abbrev pub perform : Op → SessionStore → SessionStore
perform (create pruned_at k now request) s = (Operations.create pruned_at k now request s).1
perform (set_auth k auth now) s = (Operations.set_auth k auth now s).1
perform (get_state k) s = (Operations.get_state k s).1
perform (set_status k status error now) s = (Operations.set_status k status error now s).1
perform (set_waiting_question k question reply_id now) s =
    (Operations.set_waiting_question k question reply_id now s).1
perform (apply_reply k reply_id message now) s = (Operations.apply_reply k reply_id message now s).1
perform (pop_reply k now) s = (Operations.pop_reply k now s).1
perform (append_event k event now) s = (Operations.append_event k event now s).1
perform (add_agent_memory k role text now) s = (Operations.add_agent_memory k role text now s).1
perform (get_agent_memory k) s = (Operations.get_agent_memory k s).1
perform (list_states now) s = (Operations.list_states now s).1
perform (set_task_ref k task) s = Operations.set_task_ref k task s
perform (finish_task task) s = Operations.finish_task task s
perform (run_hook task k) s = Operations.run_hook task k s

-- `uuid4` gives an id that is not in use, and the service sets the task of a session once, right
-- after it has created it. Nothing is asked of the other operations.
abbrev pub Allowed : SessionStore → Op → Type 0
Allowed s (create pruned_at k now request) = get s.repository.sessions k ≡ none
Allowed s (set_task_ref k task) = (s.runtime_sessions k ≡ true) × (get s.task_refs k ≡ none)
Allowed s _ = Unit

pub data Reach (s : SessionStore) : SessionStore → Type 0 where
  here : Reach s s
  next : {t : SessionStore} → Reach s t → (op : Op) → Allowed t op → Reach s (perform op t)
