-- ===== src/Eval/Callbacks.antt =====
-- eval_service/app/callbacks.py: the callbacks of the buyer. The handler has no
-- `await`, so it is one atomic function of the run store.
pub mod Effect
pub mod Terminal
pub mod Waiting
pub mod Token
use codex_browser.Prelude.{
  ℕ, String, Bool, true, false, not, Option, none, some, List, [], ◌∷◌, ◌==◌, if◌then◌else◌, ◌&&◌,
  ◌||◌, is_some, is_empty, one_of, strip, concat,
}
use codex_browser.Json.{Json, Fields, member, nonempty_str}
use codex_browser.Eval.Models.{
  CaseRunState, CallbackEventType, EvalRunCase, EvalRunManifest, BuyerCallbackEnvelope, EvalError,
  value_error, type_error, file_not_found, key_error, http, Result, ok, err,
}
use codex_browser.Eval.Helpers.{find_case, is_terminal_case_state}
use codex_browser.Eval.RunStore.{
  RunLib, RunStore, set, CaseUpdate, no_update, read_manifest, find_case_by_session_id,
  append_callback_event,
}

-- `hmac.compare_digest` on two strings, `none` for its `TypeError`; `str` of a dictionary; and what
-- the run store takes.
pub record CallbackLib : Type 0 where
  pub compare_digest : String → String → Option Bool
  pub show_payload : Fields → String
  pub run_lib : RunLib

-- `eval_callback_secret`, the query parameter `token` and the header `X-Eval-Callback-Token`.
pub record CallbackRequest : Type 0 where
  pub eval_callback_secret : Option String
  pub query_token : Option String
  pub header_token : Option String

pub record CallbackAcceptedResponse : Type 0 where
  pub eval_run_id : String
  pub eval_case_id : String
  pub state : CaseRunState

unfoldable pub and_then {ℓ κ} : {A : Type ℓ} {B : Type κ} → Result A → (A → Result B) → Result B
and_then (err e) rest = err e
and_then (ok a) rest = rest a

-- `case.state == CaseRunState.WAITING_USER or case.waiting_reply_id is not None`
unfoldable pub is_waiting : EvalRunCase → Bool
is_waiting case = elim case.state [
  | CaseRunState.waiting_user ↦ true
  | _ ↦ is_some case.waiting_reply_id
]

-- `_payload_string`: a value that has to be there is a string with a character, or the answer is 422.
unfoldable pub payload_string : BuyerCallbackEnvelope → String → Result String
payload_string envelope key = elim (nonempty_str (member envelope.payload key)) [
  | some value ↦ ok value
  | none ↦ err (http 422)
]

unfoldable pub require_strings : BuyerCallbackEnvelope → List String → Result Bool
unfolding payload_string and_then
require_strings envelope [] = ok true
require_strings envelope (key ∷ keys) =
    and_then (payload_string envelope key) (λ value. require_strings envelope keys)

unfoldable pub resolve_eval_ids : RunStore → BuyerCallbackEnvelope → Result (String × String)
resolve_eval_ids s envelope = from_ids envelope.eval_run_id envelope.eval_case_id
  where
    by_session : Result (Option (String × String)) → Result (String × String)
    by_session (ok (some ids)) = ok ids
    by_session (ok none) = err (http 404)
    by_session (err value_error) = err (http 409)
    by_session (err e) = err e

    from_ids : Option String → Option String → Result (String × String)
    from_ids (some run) (some case) =
        if is_empty run || is_empty case
        then by_session (find_case_by_session_id s envelope.session_id)
        else ok (run, case)
    from_ids _ _ = by_session (find_case_by_session_id s envelope.session_id)

unfoldable pub validate_callback_session : EvalRunCase → BuyerCallbackEnvelope → Result Bool
validate_callback_session case envelope = elim case.session_id [
  | none ↦ ok true
  | some session_id ↦ if session_id == envelope.session_id then ok true else err (http 409)
]

-- The handler's two `except` clauses.
unfoldable pub as_http {ℓ} : {A : Type ℓ} → Result A → Result A
as_http (err file_not_found) = err (http 404)
as_http (err key_error) = err (http 404)
as_http r = r

-- `query_params.get('token') or headers.get('X-Eval-Callback-Token')`
unfoldable pub first_token : Option String → Option String → Option String
first_token none header = header
first_token (some token) header = if is_empty token then header else some token

module _ (C : CallbackLib) where
  -- `if token is None or not hmac.compare_digest(token, secret)`
  unfoldable pub check_token : Option String → String → Result Bool
  check_token none secret = err (http 401)
  check_token (some token) secret = elim (C.compare_digest token secret) [
    | none ↦ err type_error
    | some same ↦ if same then ok true else err (http 401)
  ]

  unfoldable pub validate_callback_token : CallbackRequest → Result Bool
  unfolding check_token
  validate_callback_token q = elim q.eval_callback_secret [
    | none ↦ ok true
    | some secret ↦
        if is_empty (strip secret)
        then ok true
        else check_token (first_token q.query_token q.header_token) secret
  ]

  unfoldable pub payload_status : BuyerCallbackEnvelope → Option String
  payload_status envelope = elim (nonempty_str (member envelope.payload "status")) [
    | none ↦ none
    | some value ↦ some (C.run_lib.lower (strip value))
  ]

  unfoldable pub is_scenario_status : Option String → Bool
  is_scenario_status none = false
  is_scenario_status (some t) = one_of t ("completed" ∷ "failed" ∷ "unverified" ∷ [])

  unfoldable pub validate_callback_payload : BuyerCallbackEnvelope → Result Bool
  unfolding payload_status is_scenario_status require_strings
  validate_callback_payload envelope = elim envelope.event_type [
    | CallbackEventType.payment_ready ↦
        require_strings envelope ("order_id" ∷ "order_id_host" ∷ "message" ∷ [])
    | CallbackEventType.payment_unverified ↦
        require_strings envelope
          ("order_id" ∷ "order_id_host" ∷ "provider" ∷ "message" ∷ "reason" ∷ [])
    | CallbackEventType.scenario_finished ↦
        if is_scenario_status (payload_status envelope)
        then require_strings envelope ("message" ∷ [])
        else err (http 422)
    | _ ↦ ok true
  ]

  unfoldable pub payment_unverified_error : BuyerCallbackEnvelope → String
  payment_unverified_error envelope = elim (nonempty_str (member envelope.payload "reason")) [
    | none ↦ concat "payment unverified: " (C.show_payload envelope.payload)
    | some reason ↦ elim (nonempty_str (member envelope.payload "message")) [
      | none ↦ concat "payment unverified: " reason
      | some message ↦ concat "payment unverified: " (concat reason (concat ": " message))
    ]
  ]

  unfoldable pub scenario_unverified_error : BuyerCallbackEnvelope → String
  scenario_unverified_error envelope = elim (nonempty_str (member envelope.payload "message")) [
    | none ↦ concat "payment unverified: " (C.show_payload envelope.payload)
    | some message ↦ concat "payment unverified: " message
  ]

  unfoldable pub scenario_failure_error : BuyerCallbackEnvelope → String
  scenario_failure_error envelope = elim (nonempty_str (member envelope.payload "message")) [
    | none ↦ concat "buyer scenario failed: " (C.show_payload envelope.payload)
    | some message ↦ message
  ]

  -- The end of a case: a state, the time of the event, and an error or none.
  abbrev pub ended : CaseRunState → BuyerCallbackEnvelope → Option String → CaseUpdate
  ended state envelope error = record no_update {
    state = set state;
    finished_at = set (some envelope.occurred_at);
    waiting_reply_id = set none;
    error = set error;
  }

  abbrev pub moved_to : CaseRunState → Option String → CaseUpdate
  moved_to state reply_id = record no_update { state = set state; waiting_reply_id = set reply_id }

  -- The outcome of a scenario, by its status.
  unfoldable pub scenario_updates : BuyerCallbackEnvelope → Option String → CaseUpdate
  unfolding scenario_failure_error scenario_unverified_error
  scenario_updates envelope none = ended CaseRunState.finished envelope none
  scenario_updates envelope (some t) =
      if t == "failed"
      then ended CaseRunState.failed envelope (some (scenario_failure_error envelope))
      else if t == "unverified"
      then ended CaseRunState.unverified envelope (some (scenario_unverified_error envelope))
      else ended CaseRunState.finished envelope none

  -- The updates for an event of a case that is not terminal.
  unfoldable pub open_updates : BuyerCallbackEnvelope → EvalRunCase → Result CaseUpdate
  unfolding payload_string and_then is_waiting payment_unverified_error scenario_updates
      payload_status
  open_updates envelope case = elim envelope.event_type [
    | CallbackEventType.ask_user ↦
        and_then (payload_string envelope "reply_id")
          (λ reply_id. ok (moved_to CaseRunState.waiting_user (some reply_id)))
    | CallbackEventType.agent_step_started ↦
        ok (if is_waiting case then moved_to CaseRunState.running none else no_update)
    | CallbackEventType.handoff_resumed ↦
        ok (if is_waiting case then moved_to CaseRunState.running none else no_update)
    | CallbackEventType.payment_ready ↦ ok (moved_to CaseRunState.payment_ready none)
    | CallbackEventType.payment_unverified ↦
        ok (ended CaseRunState.unverified envelope (some (payment_unverified_error envelope)))
    | CallbackEventType.scenario_finished ↦ ok (scenario_updates envelope (payload_status envelope))
    | _ ↦ ok no_update
  ]

  unfoldable pub state_updates_for_callback :
      BuyerCallbackEnvelope → EvalRunCase → Result CaseUpdate
  unfolding is_terminal_case_state open_updates
  state_updates_for_callback envelope case =
      if is_terminal_case_state case.state
      then ok (record no_update { session_id = set case.session_id })
      else open_updates envelope case

  -- What the handler reads before it writes: the updates for the event.
  unfoldable pub checked_updates :
      RunStore → BuyerCallbackEnvelope → String → String → Result CaseUpdate
  unfolding and_then find_case validate_callback_session validate_callback_payload
      state_updates_for_callback
  checked_updates s envelope eval_run_id eval_case_id =
      and_then (read_manifest s eval_run_id) (λ manifest.
        elim (find_case manifest.cases eval_case_id) [
          | none ↦ err key_error
          | some case ↦ and_then (validate_callback_session case envelope) (λ _.
              and_then (validate_callback_payload envelope)
                (λ _. state_updates_for_callback envelope case))
        ])

  -- The answer, from the manifest that was written.
  unfoldable pub accepted_response :
      String → String → Result EvalRunManifest → Result CallbackAcceptedResponse
  unfolding find_case
  accepted_response eval_run_id eval_case_id (err e) = as_http (err e)
  accepted_response eval_run_id eval_case_id (ok manifest) =
      elim (find_case manifest.cases eval_case_id) [
        | none ↦ err key_error
        | some case ↦
            ok (record {
              eval_run_id = eval_run_id;
              eval_case_id = eval_case_id;
              state = case.state;
            })
      ]

  -- The `try` block, for the ids of the event.
  unfoldable pub record_callback :
      ℕ
      → BuyerCallbackEnvelope
      → String
      → String
      → RunStore
      → Result CallbackAcceptedResponse × RunStore
  unfolding checked_updates accepted_response as_http
  record_callback now envelope eval_run_id eval_case_id s =
      elim (checked_updates s envelope eval_run_id eval_case_id) [
        | err e ↦ (as_http (err e), s)
        | ok u ↦
            let (written, s') =
              append_callback_event C.run_lib now eval_run_id eval_case_id
                (record envelope {
                  eval_run_id = some eval_run_id;
                  eval_case_id = some eval_case_id;
                })
                u s in
            (accepted_response eval_run_id eval_case_id written, s')
      ]

  unfoldable pub receive_buyer_callback :
      ℕ
      → CallbackRequest
      → BuyerCallbackEnvelope
      → RunStore
      → Result CallbackAcceptedResponse × RunStore
  unfolding validate_callback_token resolve_eval_ids record_callback
  receive_buyer_callback now q envelope s = elim (validate_callback_token q) [
    | err e ↦ (err e, s)
    | ok _ ↦ elim (resolve_eval_ids s envelope) [
      | err e ↦ (err e, s)
      | ok (eval_run_id, eval_case_id) ↦ record_callback now envelope eval_run_id eval_case_id s
    ]
  ]
