-- ===== src/Buyer/Service/Events.antt =====
-- buyer/app/service.py: the events of a session and their delivery.
use codex_browser.Prelude.{
  ℕ, String, Bool, true, false, Option, none, some, [], ◌∷◌, ◌++◌, if◌then◌else◌, is_empty,
}
use codex_browser.Dict.{get}
use codex_browser.Json.{Fields}
use codex_browser.Buyer.Models.{EventEnvelope}
use codex_browser.Buyer.Delivery.{build_envelope}
use codex_browser.Buyer.Session.State.{SessionState}
use codex_browser.Buyer.Session.Operations.{append_event}
use codex_browser.Buyer.Service.Payloads.{string_metadata_value}
use codex_browser.Buyer.Service.World.{
  of_delivery, Outcome, done, raised, going_on, Outside, World, M, ◌>>=◌, ◌>>◌, raise, reading,
  timed_op, await,
}

-- `_callback_headers_for_session`: a token that is not empty.
unfoldable pub callback_token : String → World → Option String
callback_token session_id w = elim (get w.callback_tokens session_id) [
  | none ↦ none
  | some token ↦ if is_empty token then none else some token
]

module _ (O : Outside) where
  -- `build_envelope` for a session, with the eval ids of its metadata.
  abbrev pub session_envelope : SessionState → String → Fields → Option String → ℕ → EventEnvelope
  session_envelope state event_type payload suffix n =
      build_envelope (O.uuid n) (O.now n) state.session_id event_type payload suffix
        (string_metadata_value state.metadata "eval_run_id")
        (string_metadata_value state.metadata "eval_case_id")

  -- An event is stored for its session.
  unfoldable pub store_event : SessionState → EventEnvelope → M (Unit {0})
  store_event state envelope = timed_op O (append_event state.session_id envelope) >> λ w.
      (done tt, record w { emitted = w.emitted ++ envelope ∷ [] })

  abbrev pub mark : String → Bool → M (Unit {0})
  mark event_id delivered w = (done tt, record w { marks = w.marks ++ (event_id, delivered) ∷ [] })

  abbrev pub current_token : String → M (Option String)
  current_token session_id w = (done (callback_token session_id w), w)

  -- The client's answer, with the token of the session: `none`, or the text of the failure.
  unfoldable pub deliver_event : SessionState → EventEnvelope → M (Option String)
  unfolding callback_token
  deliver_event state envelope = current_token state.session_id >>= λ token.
      await O (λ n. O.deliver n state.callback_url envelope token)

  -- What follows a delivery, by its failure: it is marked, and a failure is raised again.
  unfoldable pub settle : EventEnvelope → Option String → M (Unit {0})
  settle envelope none = mark envelope.event_id true
  settle envelope (some text) = mark envelope.event_id false >> raise (of_delivery text)

  -- `_emit_event`
  unfoldable pub emit_event : SessionState → String → Fields → Option String → M (Unit {0})
  unfolding store_event deliver_event settle build_envelope string_metadata_value
  emit_event state event_type payload suffix = do
    n ← reading
    let envelope = session_envelope state event_type payload suffix n
    store_event state envelope
    answer ← deliver_event state envelope
    settle envelope answer

  -- The `try` of a stream event: an event that is not stored or not delivered is marked and forgotten.
  abbrev pub forgive : EventEnvelope → Outcome (Option String) → World → Outcome (Unit {0}) × World
  forgive envelope (done none) w = mark envelope.event_id true w
  forgive envelope (done (some text)) w = mark envelope.event_id false w
  forgive envelope (raised e) w = mark envelope.event_id false w
  forgive envelope going_on w = (going_on, w)

  abbrev pub leniently : EventEnvelope → M (Option String) → M (Unit {0})
  leniently envelope m w = forgive envelope (m w).0 (m w).1

  -- `_emit_stream_event_best_effort`
  unfoldable pub emit_stream_event : SessionState → Fields → M (Unit {0})
  unfolding store_event deliver_event build_envelope string_metadata_value
  emit_stream_event state payload = do
    n ← reading
    let envelope = session_envelope state "agent_stream_event" payload (O.stream_suffix payload) n
    leniently envelope (store_event state envelope >> deliver_event state envelope)
