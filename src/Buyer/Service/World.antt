-- ===== src/Buyer/Service/World.antt =====
-- What the session task of buyer/app/service.py can see and change, and what is outside of it. The
-- other tasks of the process run while this one awaits something from outside (a delivery, a step of
-- the agent, a script, a sleep, an event): there `others` changes the store in any way. The operations
-- of the store itself do not give way to other tasks: the lock is free and the repository in memory.
use codex_browser.Prelude.{ℕ, suc, String, Bool, Option, List}
use codex_browser.Dict.{Dict}
use codex_browser.Json.{Fields}
use codex_browser.Buyer.Models.{TaskAuthPayload, EventEnvelope, AgentOutput}
use codex_browser.Buyer.Session.{SessionStore, StoreError, Result, ok, err}
use codex_browser.Buyer.ExternalAuth.{Response}

-- `SessionNotFoundError`, `SessionConflictError` or `ReplyValidationError`; `CallbackDeliveryError`
-- with its text; any other exception with its text.
pub data Failure : Type 0 where
  of_store : StoreError → Failure
  of_delivery : String → Failure
  unexpected : String → Failure

-- A part of the task returns, raises, or has not come to an end: it waits for its event, or it goes on
-- after the number of steps that is looked at.
pub data Outcome (A : Type 0) : Type 0 where
  done : A → Outcome A
  raised : Failure → Outcome A
  going_on : Outcome A

-- What `run_step` of the agent runner is called with.
pub record StepRequest : Type 0 where
  pub session_id : String
  pub step_index : ℕ
  pub task : String
  pub start_url : String
  pub metadata : Fields
  pub auth : Option TaskAuthPayload
  pub auth_context : Fields
  pub memory : List (String × String)
  pub latest_user_reply : Option String

-- A step of the agent ends with an output, or raises.
pub data StepAnswer : Type 0 where
  answered : AgentOutput → StepAnswer
  crashed : String → StepAnswer

pub record AuthScriptResult : Type 0 where
  pub status : String
  pub reason_code : String
  pub message : String
  pub artifacts : Fields

-- The script of the login ends with a result, or its runner raises.
pub data ScriptAnswer : Type 0 where
  finished : AuthScriptResult → ScriptAnswer
  script_crashed : String → ScriptAnswer

-- What lies outside, by the number of the reading: the clocks, new ids, the other tasks, the delivery
-- of an event to a URL with a token (`none`: delivered), the agent, which first streams some payloads,
-- the file of the user's profile (`none`: written, or an error that was logged), the script and the
-- service of cookies, by the attempt. Texts made by the Python runtime are functions too.
pub record Outside : Type 0 where
  pub now : ℕ → ℕ
  pub loop_time : ℕ → ℕ
  pub uuid : ℕ → String
  pub others : ℕ → SessionStore → SessionStore
  pub deliver : ℕ → String → EventEnvelope → Option String → Option String
  pub run_step : ℕ → StepRequest → List Fields × StepAnswer
  pub append_profile_updates : ℕ → List String → Option String
  pub run_auth_script : ℕ → String → String → String → Option Fields → ScriptAnswer
  pub respond : ℕ → ℕ → Response
  pub lower : String → String
  pub dumps : Fields → String
  pub stream_suffix : Fields → Option String

-- The settings that the service was made with; `window` is not negative, `window_text` its text in
-- seconds, `sberid_allowlist` sorted and without empty entries.
pub record Config : Type 0 where
  pub sberid_allowlist : List String
  pub has_external_auth : Bool
  pub cookies_url : String
  pub retries : ℕ
  pub window : ℕ
  pub window_text : String
  pub has_analyzer : Bool

pub record Snapshot : Type 0 where
  pub session_id : String
  pub task : String
  pub start_url : String
  pub metadata : Fields
  pub outcome : String
  pub message : String
  pub order_id : Option String
  pub artifacts : Fields
  pub events : List EventEnvelope

-- `emitted` are the events that this task has stored, in their order, `marks` what
-- `mark_event_delivery` was told, `recorded` what `record_artifacts` was, `analyses` the snapshots that
-- were scheduled, `readings` how often something outside was read.
pub record World : Type 0 where
  pub store : SessionStore
  pub callback_tokens : Dict String
  pub emitted : List EventEnvelope
  pub marks : List (String × Bool)
  pub recorded : List (String × Fields)
  pub analyses : List Snapshot
  pub readings : ℕ

abbrev pub M : Type 0 → Type 0
M A = World → Outcome A × World

abbrev pub after : {A B : Type 0} → (A → M B) → Outcome A → World → Outcome B × World
after f (done a) w = f a w
after f (raised e) w = (raised e, w)
after f going_on w = (going_on, w)

infixl 5 ◌>>=◌ ◌>>◌
abbrev pub ◌>>=◌ : {A B : Type 0} → M A → (A → M B) → M B
◌>>=◌ m f w = after f (m w).0 (m w).1

abbrev pub ◌>>◌ : {A B : Type 0} → M A → M B → M B
m >> k = m >>= λ _. k

abbrev pub pure : {A : Type 0} → A → M A
pure a w = (done a, w)

abbrev pub raise : {A : Type 0} → Failure → M A
raise e w = (raised e, w)

abbrev pub lifted : {A : Type 0} → Result A × SessionStore → World → Outcome A × World
lifted (ok a, s) w = (done a, record w { store = s })
lifted (err e, s) w = (raised (of_store e), record w { store = s })

-- An operation of the store.
abbrev pub store_op : {A : Type 0} → (SessionStore → Result A × SessionStore) → M A
store_op f w = lifted (f w.store) w

-- Count one more reading.
abbrev pub reading : M ℕ
reading w = (done w.readings, record w { readings = suc w.readings })

module _ (O : Outside) where
  -- An operation of the store that reads the clock.
  abbrev pub timed_op : {A : Type 0} → (ℕ → SessionStore → Result A × SessionStore) → M A
  timed_op f = reading >>= λ n. store_op (f (O.now n))

  -- Await something from outside: the other tasks run meanwhile.
  abbrev pub await : {A : Type 0} → (ℕ → A) → M A
  await f w = (
    done (f w.readings),
    record w { store = O.others w.readings w.store; readings = suc w.readings },
  )
