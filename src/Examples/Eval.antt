-- ===== src/Examples/Eval.antt =====
-- A run with one case, the callbacks of a buyer for it, and what they may not do.
use codex_browser.Prelude.{
  ℕ, ap, length, inl, inr, ◌≢◌, String, ◌≡◌, refl, none, some, [], ◌∷◌, ◌==◌, eq_iff, arith, Option,
  subst, strip,
}
use codex_browser.Dict.{get, put}
use codex_browser.Json.{end, field, str}
use codex_browser.Eval.Models.{
  CaseRunState, EvalRunStatus, CallbackEventType, BuyerCallbackEnvelope, EvalRunCase,
  EvalRunManifest, EvalError, err, is_path_segment,
}
use codex_browser.Eval.Helpers.{find_case, is_terminal_case_state}
use codex_browser.Eval.RunStore.{RunLib, RunStore, no_update, append_callback_event, change_case}
use codex_browser.Eval.RunStore.Frame.{case_of, IsFiled, HoldsOfCases}
use codex_browser.Eval.RunStore.Delivery.{
  HasDistinctEvents, append-distinct, change_all, redelivery_ignored,
}
use codex_browser.Eval.Callbacks.{CallbackLib, CallbackRequest, first_token, receive_buyer_callback}
use codex_browser.Eval.Callbacks.Terminal.{HasSameOutcome, terminal_stays}
use codex_browser.Eval.Callbacks.Waiting.{CaseKnowsReply, knows_reply, waiting_knows_reply}
use codex_browser.Eval.Callbacks.Token.{unauthorized_refused}

-- A digest that is 64 hexadecimal digits, and identities for the rest.
abbrev pub run_lib : RunLib
run_lib = record {
  sha256_hex = λ s. "0123456789abcdef0123456789abcdef0123456789abcdef0123456789abcdef";
  lower = λ s. s;
  sanitize_for_judge_input = λ d. d;
}

abbrev callback_lib : CallbackLib
callback_lib = record {
  compare_digest = λ a b. some (a == b);
  show_payload = λ d. "{}";
  run_lib = run_lib;
}

abbrev pub case_in : CaseRunState → Option String → EvalRunCase
case_in state waiting = record {
  eval_case_id = "case1";
  case_version = "1";
  state = state;
  session_id = some "s1";
  started_at = some 1;
  finished_at = none;
  waiting_reply_id = waiting;
  error = none;
  callback_events = [];
  artifact_paths = [];
}

abbrev pub manifest_in : CaseRunState → Option String → EvalRunManifest
manifest_in state waiting = record {
  eval_run_id = "run1";
  status = EvalRunStatus.running;
  created_at = 0;
  updated_at = 0;
  cases = case_in state waiting ∷ [];
  summary_path = none;
}

abbrev pub store_in : CaseRunState → Option String → RunStore
store_in state waiting = record {
  manifests = ("run1", manifest_in state waiting) ∷ [];
  summaries = [];
}

abbrev finished_event : BuyerCallbackEnvelope
finished_event = record {
  event_id = "e1";
  session_id = "s1";
  event_type = CallbackEventType.scenario_finished;
  occurred_at = 7;
  idempotency_key = "key1";
  payload = field "status" (str "failed") (field "message" (str "no card") end);
  eval_run_id = some "run1";
  eval_case_id = some "case1";
}

abbrev ask_event : BuyerCallbackEnvelope
ask_event = record finished_event {
  event_type = CallbackEventType.ask_user;
  payload = field "reply_id" (str "r1") end;
}

abbrev request : Option String → CallbackRequest
request token = record {
  eval_callback_secret = some "secret";
  query_token = none;
  header_token = token;
}

pub filed : (state : CaseRunState) (waiting : Option String) → IsFiled (store_in state waiting)
unfolding get
filed state waiting k m h = ground (arith, h, eq_iff "run1" k)

terminal_stays_example :
    (case' : EvalRunCase) × (case_of
        (receive_buyer_callback callback_lib 9
          (request (some "secret"))
          finished_event
          (store_in CaseRunState.finished none)).1
        "run1"
        "case1"
      ≡ some case')
    × HasSameOutcome (case_in CaseRunState.finished none) case'
unfolding case_of get find_case is_terminal_case_state
terminal_stays_example =
    terminal_stays callback_lib 9 (request (some "secret")) finished_event
      (store_in CaseRunState.finished none) "run1" "case1" (case_in CaseRunState.finished none)
      (filed CaseRunState.finished none) refl refl

unauthorized_refused_example :
    (e : EvalError) × (receive_buyer_callback callback_lib 9
        (request (some "guess"))
        finished_event
        (store_in CaseRunState.running none)
      ≡ (err e, store_in CaseRunState.running none))
unfolding first_token strip
unauthorized_refused_example =
    unauthorized_refused callback_lib 9 (request (some "guess")) finished_event
      (store_in CaseRunState.running none) "secret" (λ a b h. ground (arith, h, eq_iff a b)) refl
      refl (λ h. ground (arith, h, eq_iff "guess" "secret"))

abbrev appended_once : RunStore
appended_once =
    (append_callback_event run_lib 8 "run1" "case1" finished_event no_update
      (store_in CaseRunState.running none)).1

abbrev events_at : RunStore → ℕ
events_at s = elim (case_of s "run1" "case1") [ none ↦ 0 | some case ↦ length case.callback_events ]

counted_before : events_at (store_in CaseRunState.running none) ≡ 0
unfolding case_of get find_case
counted_before = refl

counted_after : events_at appended_once ≡ 1
unfolding case_of get find_case append_callback_event change_case is_path_segment put
counted_after = refl

something_written : appended_once ≢ store_in CaseRunState.running none
something_written e = absurd (omega (arith, ap events_at e, counted_before, counted_after))

-- Another update comes between, and the event comes again under a new id.
redelivery_ignored_example :
    let t = change_all run_lib ((9, "run1", "case1", no_update, none) ∷ []) appended_once in
    (append_callback_event run_lib 10 "run1" "case1"
      (record finished_event { event_id = "other"; payload = end })
      no_update
      t).1
    ≡ t
redelivery_ignored_example =
    redelivery_ignored run_lib 8 10 "run1" "case1" finished_event
      (record finished_event { event_id = "other"; payload = end }) no_update no_update
      ((9, "run1", "case1", no_update, none) ∷ []) (store_in CaseRunState.running none)
      (filed CaseRunState.running none) something_written (inr (inl refl))

only_case :
    (r c : String) (case : EvalRunCase)
    → case_of (store_in CaseRunState.running none) r c ≡ some case
    → case_in CaseRunState.running none ≡ case
unfolding case_of get find_case
only_case r c case h = ground (arith, h)

distinct_at_start : HoldsOfCases (HasDistinctEvents run_lib) (store_in CaseRunState.running none)
distinct_at_start r c case h = subst (HasDistinctEvents run_lib) (only_case r c case h) tt

append-distinct_example :
    HoldsOfCases
      (HasDistinctEvents run_lib)
      (append_callback_event run_lib 8 "run1" "case1" finished_event no_update
        (store_in CaseRunState.running none)).1
append-distinct_example =
    append-distinct run_lib 8 "run1" "case1" finished_event no_update
      (store_in CaseRunState.running none) (filed CaseRunState.running none) distinct_at_start

knows_at_start : HoldsOfCases CaseKnowsReply (store_in CaseRunState.running none)
unfolding case_of get find_case knows_reply
knows_at_start r c case h = ground (arith, h)

waiting_knows_reply_example :
    HoldsOfCases CaseKnowsReply
      (receive_buyer_callback callback_lib 9
        (request (some "secret"))
        ask_event
        (store_in CaseRunState.running none)).1
waiting_knows_reply_example =
    waiting_knows_reply callback_lib 9 (request (some "secret")) ask_event
      (store_in CaseRunState.running none) (filed CaseRunState.running none) knows_at_start
