-- ===== src/Buyer/Service/Run.antt =====
-- buyer/app/service.py: `_run_session`, with its `except` clauses and its `finally`.
use codex_browser.Prelude.{ℕ, String, some, concat}
use codex_browser.Dict.{remove}
use codex_browser.Json.{str, Fields, end, field}
use codex_browser.Buyer.Models.{failed}
use codex_browser.Buyer.Domains.{UrlLib}
use codex_browser.Buyer.Session.State.{SessionState}
use codex_browser.Buyer.Session.Operations.{get_state, set_status}
use codex_browser.Buyer.Service.Events.{session_envelope, store_event}
use codex_browser.Buyer.Service.Endings.{handle_failed}
use codex_browser.Buyer.Service.World.{
  Failure, of_store, of_delivery, unexpected, Outcome, done, raised, going_on, Outside, Config,
  World, M, ◌>>=◌, ◌>>◌, pure, store_op, reading, timed_op,
}
use codex_browser.Buyer.Service.Recovery.{at_start}
use codex_browser.Buyer.Service.Loop.{turns, opening}

-- The payload of the event that stands in for one that could not be delivered.
abbrev fallback_payload : String → Fields
fallback_payload text = field "status" (str "failed") (field "message" (str text) end)

module _ (L : UrlLib) (O : Outside) (K : Config) where
  -- The event that stands in for an end that could not be delivered: it is stored, and not sent.
  -- The state is that of the session, which the store keeps under its id.
  unfoldable pub fall_back : SessionState → String → String → M (Unit {0})
  fall_back state text suffix = do
    timed_op O (set_status state.session_id failed (some text))
    n ← reading
    store_event O state
        (session_envelope O state "scenario_finished" (fallback_payload text) (some suffix) n)

  abbrev pub unless_undelivered :
      SessionState → Outcome (Unit {0}) → World → Outcome (Unit {0}) × World
  unless_undelivered state (raised (of_delivery text)) w =
      fall_back state text "scenario-failed-unhandled" w
  unless_undelivered state o w = (o, w)

  -- The last protection of a session.
  unfoldable pub fail_unexpected : String → Fields → String → M (Unit {0})
  unfolding fall_back
  fail_unexpected session_id auth_summary text = store_op (get_state session_id) >>= λ state w.
      let ended =
        handle_failed O K state (concat "Непредвиденная ошибка: " text) end auth_summary w in
      unless_undelivered state ended.0 ended.1

  -- The `except` clauses.
  unfoldable pub on_failure : String → Fields → Failure → M (Unit {0})
  unfolding fail_unexpected fall_back
  on_failure session_id auth_summary (of_store e) = pure tt
  on_failure session_id auth_summary (of_delivery text) =
      store_op (get_state session_id) >>= λ state.
      fall_back state text "scenario-failed-callback-delivery"
  on_failure session_id auth_summary (unexpected text) =
      fail_unexpected session_id auth_summary text

  abbrev pub caught : String → Fields → Outcome (Unit {0}) → World → Outcome (Unit {0}) × World
  caught session_id auth_summary (raised e) w = on_failure session_id auth_summary e w
  caught session_id auth_summary o w = (o, w)

  -- `finally`: the token goes with the task, however it ends.
  abbrev pub released : String → Outcome (Unit {0}) → World → Outcome (Unit {0}) × World
  released session_id going_on w = (going_on, w)
  released session_id o w = (o, record w { callback_tokens = remove w.callback_tokens session_id })

  -- The loop after the opening, with the handlers.
  unfoldable pub looped : ℕ → String → Outcome Fields → World → Outcome (Unit {0}) × World
  unfolding turns on_failure
  looped n session_id going_on w = (going_on, w)
  looped n session_id (raised e) w = on_failure session_id end e w
  looped n session_id (done summary) w =
      let ran = turns L O K n session_id summary at_start w in caught session_id summary ran.0 ran.1

  -- `_run_session`, looked at for at most so many turns.
  unfoldable pub run_session : ℕ → String → M (Unit {0})
  unfolding opening looped
  run_session n session_id w =
      let opened = opening L O K session_id w in
      let ended = looped n session_id opened.0 opened.1 in released session_id ended.0 ended.1
