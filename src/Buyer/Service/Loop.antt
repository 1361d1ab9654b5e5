-- ===== src/Buyer/Service/Loop.antt =====
-- buyer/app/service.py: the `try` block of `_run_session`, the opening and the loop over the steps of the agent.
use codex_browser.Prelude.{
  ℕ, zero, suc, String, Option, none, some, List, if◌then◌else◌, concat, show_nat,
}
use codex_browser.Json.{num, str, Fields, end, field}
use codex_browser.Buyer.Domains.{UrlLib}
use codex_browser.Buyer.Text.{head_text}
use codex_browser.Buyer.Session.State.{SessionState}
use codex_browser.Buyer.Session.Operations.{get_state, get_agent_memory, set_auth_context}
use codex_browser.Buyer.Service.Payloads.{agent_step_payload, is_end}
use codex_browser.Buyer.Service.Auth.{run_auth_flow, runtime_summary}
use codex_browser.Buyer.Service.Events.{emit_event}
use codex_browser.Buyer.Service.World.{
  going_on, StepRequest, Outside, Config, M, ◌>>=◌, ◌>>◌, pure, store_op,
}
use codex_browser.Buyer.Service.Recovery.{Progress, Turn, again, over}
use codex_browser.Buyer.Service.Steps.{remember, run_agent, persist_updates, after_step}

abbrev step_suffix : ℕ → String → Option String
step_suffix n ending = some (concat "step-" (concat (show_nat n) ending))

abbrev started_payload : SessionState → Fields
started_payload state =
    field "message" (str (concat "Сессия buyer запущена. Задача: " (head_text state.task 180)))
      (field "start_url" (str state.start_url) (field "novnc_url" (str state.novnc_url) end))

abbrev step_payload : ℕ → Fields
step_payload n =
    field "step" (num n)
      (field "message" (str (concat "Запущен шаг " (concat (show_nat n) " через codex."))) end)

module _ (L : UrlLib) (O : Outside) (K : Config) where
  abbrev pub request_for : SessionState → List (String × String) → Fields → Progress → StepRequest
  request_for state memory auth_summary p = record {
    session_id = state.session_id;
    step_index = p.step_index;
    task = state.task;
    start_url = state.start_url;
    metadata = state.metadata;
    auth = state.auth;
    auth_context = auth_summary;
    memory = memory;
    latest_user_reply = p.latest_user_reply;
  }

  -- One turn of `while True`.
  unfoldable pub turn : String → Fields → Progress → M Turn
  unfolding run_agent after_step
  turn session_id auth_summary p₀ = do
    state ← store_op (get_state session_id)
    memory ← store_op (get_agent_memory session_id)
    let p = record p₀ { step_index = suc p₀.step_index }
    emit_event O state "agent_step_started" (step_payload p.step_index)
        (step_suffix p.step_index "-started")
    result ← run_agent L O K state (request_for state memory auth_summary p)
    persist_updates L O K result.profile_updates
    emit_event O state "agent_step_finished" (agent_step_payload p.step_index result)
        (step_suffix p.step_index "-finished")
    remember L O K session_id "assistant" result.message
    after_step L O K state result auth_summary (record p { latest_user_reply = none })

  abbrev pub unended : M (Unit {0})
  unended w = (going_on, w)

  abbrev pub onward : (Progress → M (Unit {0})) → Turn → M (Unit {0})
  onward rest over = pure tt
  onward rest (again p) = rest p

  -- The loop, for at most so many turns.
  unfoldable pub turns : ℕ → String → Fields → Progress → M (Unit {0})
  turns zero session_id auth_summary p = unended
  turns (suc left) session_id auth_summary p =
      turn session_id auth_summary p >>= onward (turns left session_id auth_summary)

  -- The login, with its summary told to the store and to the agent.
  abbrev pub told : SessionState → Fields → M Fields
  told state summary = if is_end summary then pure summary else do
    let safe = runtime_summary L O K summary
    store_op (set_auth_context state.session_id safe)
    remember L O K state.session_id "system" (concat "[SBERID_AUTH_SUMMARY] " (O.dumps safe))
    pure safe

  unfoldable pub prepare_auth : SessionState → M Fields
  prepare_auth state = run_auth_flow L O K state >>= told state

  -- The `try` block, before the loop. The summary of the login is kept for the handlers.
  unfoldable pub opening : String → M Fields
  unfolding prepare_auth
  opening session_id = do
    state ← store_op (get_state session_id)
    emit_event O state "session_started" (started_payload state) (some "start")
    remember L O K session_id "system" (concat "Start URL: " state.start_url)
    remember L O K session_id "user" state.task
    prepare_auth state
