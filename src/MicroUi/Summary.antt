-- ===== src/MicroUi/Summary.antt =====
-- micro-ui/app/store.py: `CallbackStore.list_sessions`, the state of each session as its events tell
-- it. A JSON `null` is Python's `None`, as a missing key is.
pub mod Status
use codex_browser.Prelude.{
  ℕ, String, Bool, true, false, not, Option, none, some, List, [], ◌∷◌, ◌==◌, ◌&&◌, if◌then◌else◌,
  ltb, one_of, is_some,
}
use codex_browser.Dict.{Dict}
use codex_browser.Json.{
  Json, null, str, Items, nil, cons, Fields, member, nonempty_str, as_str, as_arr,
}
use codex_browser.MicroUi.Store.{EventEnvelope, CallbackStore, sort_onto}

pub record SessionSummary : Type 0 where
  pub session_id : String
  pub last_event_type : String
  pub last_message : Option String
  pub waiting_reply_id : Option String
  pub ask_question : Option String
  pub ask_options : List String
  pub ask_asked_at : Option ℕ
  pub order_id : Option String
  pub order_id_host : Option String
  pub payment_provider : Option String
  pub status : Option String
  pub novnc_url : Option String
  pub updated_at : ℕ

-- The local variables of the loop over a session's events.
pub record Progress : Type 0 where
  pub waiting_reply_id : Option Json
  pub ask_question : Option String
  pub ask_options : List String
  pub ask_asked_at : Option ℕ
  pub order_id : Option String
  pub order_id_host : Option String
  pub payment_provider : Option String
  pub status : Option Json
  pub novnc_url : Option Json

abbrev pub no_progress : Progress
no_progress = record {
  waiting_reply_id = none;
  ask_question = none;
  ask_options = [];
  ask_asked_at = none;
  order_id = none;
  order_id_host = none;
  payment_provider = none;
  status = none;
  novnc_url = none;
}

-- `payload.get(key)`
unfoldable pub value_of : Fields → String → Option Json
value_of payload key = elim (member payload key) [ some null ↦ none | v ↦ v ]

abbrev pub is_text : Option Json → String → Bool
is_text (some (str s)) t = s == t
is_text _ t = false

-- `[item for item in options if isinstance(item, str)]`
abbrev pub texts : Items → List String
texts nil = []
texts (cons (str s) l) = s ∷ texts l
texts (cons _ l) = texts l

abbrev pub options_of : Option Items → List String
options_of none = []
options_of (some l) = texts l

-- `message if isinstance(message, str) and message else payload.get('question')`, if it is a string.
unfoldable pub question_of : Fields → Option String
question_of payload = elim (nonempty_str (member payload "message")) [
  | some message ↦ some message
  | none ↦ as_str (member payload "question")
]

-- The question is over.
abbrev pub answered : Progress → Progress
answered p = record p {
  waiting_reply_id = none;
  ask_question = none;
  ask_options = [];
  ask_asked_at = none;
}

unfoldable pub on_ask : EventEnvelope → Progress → Progress
unfolding value_of question_of
on_ask event p =
    if event.event_type == "ask_user"
    then record p {
      waiting_reply_id = value_of event.payload "reply_id";
      ask_question = question_of event.payload;
      ask_options = options_of (as_arr (member event.payload "options"));
      ask_asked_at = some event.occurred_at;
    }
    else p

-- The events that end a question.
abbrev pub resuming : List String
resuming = "agent_step_started" ∷ "handoff_resumed" ∷ "payment_ready" ∷ "operator_reply" ∷ []

unfoldable pub on_resumed : EventEnvelope → Progress → Progress
on_resumed event p = if one_of event.event_type resuming then answered p else p

abbrev pub ordered : EventEnvelope → Progress → Progress
ordered event p = record p {
  order_id = nonempty_str (member event.payload "order_id");
  order_id_host = nonempty_str (member event.payload "order_id_host");
}

unfoldable pub on_payment_ready : EventEnvelope → Progress → Progress
on_payment_ready event p = if event.event_type == "payment_ready" then ordered event p else p

unfoldable pub on_payment_unverified : EventEnvelope → Progress → Progress
on_payment_unverified event p =
    if event.event_type == "payment_unverified"
    then answered (record (ordered event p) {
      payment_provider = nonempty_str (member event.payload "provider");
      status = some (str "unverified");
    })
    else p

-- An unverified payment is not made a completed one by the end of the scenario.
unfoldable pub on_finished : EventEnvelope → Progress → Progress
unfolding value_of
on_finished event p =
    let scenario_status = value_of event.payload "status" in
    if event.event_type == "scenario_finished"
    then answered (record p {
      status =
          if not (is_text p.status "unverified" && is_text scenario_status "completed")
          then scenario_status
          else p.status;
    })
    else p

unfoldable pub on_started : EventEnvelope → Progress → Progress
unfolding value_of
on_started event p =
    if event.event_type == "session_started"
    then record p { novnc_url = value_of event.payload "novnc_url" }
    else p

-- One turn of the loop, in the order of its tests.
unfoldable pub observe : Progress → EventEnvelope → Progress
unfolding on_ask on_resumed on_payment_ready on_payment_unverified on_finished on_started
observe p event = on_started event (
    on_finished event
      (on_payment_unverified event (on_payment_ready event (on_resumed event (on_ask event p)))))

unfoldable pub observe_all : Progress → List EventEnvelope → Progress
unfolding observe
observe_all p [] = p
observe_all p (event ∷ events) = observe_all (observe p event) events

-- `_extract_message`
unfoldable pub extract_message : List String → EventEnvelope → Option String
extract_message [] event = none
extract_message (key ∷ keys) event = elim (as_str (member event.payload key)) [
  | some message ↦ some message
  | none ↦ extract_message keys event
]

abbrev pub last_of : EventEnvelope → List EventEnvelope → EventEnvelope
last_of event [] = event
last_of event (next ∷ events) = last_of next events

-- A field of `SessionSummary` that takes a string or `None`: anything else is a `ValidationError`.
unfoldable pub text_field : Option Json → Option (Option String)
text_field none = some none
text_field (some (str s)) = some (some s)
text_field (some _) = none

-- The status that is shown where no event has set one.
unfoldable pub shown_status : Progress → Option Json
shown_status p = elim p.status [
  | some status ↦ some status
  | none ↦ some (str (if is_some p.waiting_reply_id then "waiting_user" else "running"))
]

unfoldable pub summary_of : String → EventEnvelope → List EventEnvelope → Option SessionSummary
unfolding observe_all text_field shown_status extract_message
summary_of session_id first events =
    let p = observe_all no_progress (first ∷ events) in
    let last = last_of first events in
    elim (text_field p.waiting_reply_id) [
      | none ↦ none
      | some waiting ↦ elim (text_field (shown_status p)) [
        | none ↦ none
        | some status ↦ elim (text_field p.novnc_url) [
          | none ↦ none
          | some novnc_url ↦ some (record {
            session_id = session_id;
            last_event_type = last.event_type;
            last_message = extract_message ("message" ∷ "question" ∷ "summary" ∷ []) last;
            waiting_reply_id = waiting;
            ask_question = p.ask_question;
            ask_options = p.ask_options;
            ask_asked_at = p.ask_asked_at;
            order_id = p.order_id;
            order_id_host = p.order_id_host;
            payment_provider = p.payment_provider;
            status = status;
            novnc_url = novnc_url;
            updated_at = last.occurred_at;
          })
        ]
      ]
    ]

unfoldable pub summaries_of : Dict (List EventEnvelope) → Option (List SessionSummary)
unfolding summary_of
summaries_of [] = some []
summaries_of ((session_id, []) ∷ rest) = summaries_of rest
summaries_of ((session_id, first ∷ events) ∷ rest) =
    let others = summaries_of rest in
    elim (summary_of session_id first events) [
      | none ↦ none
      | some summary ↦ elim others [ none ↦ none | some summaries ↦ some (summary ∷ summaries) ]
    ]

-- The newest session first, `none` for a `ValidationError`.
unfoldable pub list_sessions : CallbackStore → Option (List SessionSummary)
unfolding summaries_of sort_onto
list_sessions s = elim (summaries_of s.events_by_session) [
  | none ↦ none
  | some summaries ↦ some (sort_onto (λ y x. ltb y.updated_at x.updated_at) [] summaries)
]
