-- ===== src/Examples/MicroUi.antt =====
-- A store of callbacks with one subscriber, and a session that ends unverified.
use codex_browser.Prelude.{ℕ, none, String, ◌≡◌, refl, false, some, [], ◌∷◌, arith}
use codex_browser.Json.{Fields, end, field, str, member}
use codex_browser.MicroUi.Store.{EventEnvelope, CallbackStore, add, seen}
use codex_browser.MicroUi.Store.Delivery.{
  HasBoundedQueues, times, subscribed, MakesRoom, add-HasBoundedQueues,
}
use codex_browser.MicroUi.Summary.{SessionSummary, summary_of, value_of}
use codex_browser.MicroUi.Summary.Status.{is_harmless, unverified_kept}

abbrev empty_store : CallbackStore
empty_store = record {
  events_by_session = [];
  seen_event_ids = [];
  seen_idempotency_keys = [];
  subscribers_by_session = [];
  global_subscribers = 0 ∷ [];
  queues = λ q. [];
  next_queue = 1;
}

abbrev event : String → String → Fields → EventEnvelope
event id event_type payload = record {
  event_id = id;
  session_id = "s1";
  event_type = event_type;
  occurred_at = 3;
  idempotency_key = "key";
  payload = payload;
}

add-HasBoundedQueues_example :
    let e = event "e1" "ask_user" end in
    HasBoundedQueues (add e empty_store).1
    × (seen empty_store e ≡ false
        → (q : ℕ)
        → (times q (subscribed e empty_store) ≡ 1
            → MakesRoom (empty_store.queues q) e ((add e empty_store).1.queues q))
          × (times q (subscribed e empty_store) ≡ 0
              → (add e empty_store).1.queues q ≡ empty_store.queues q))
add-HasBoundedQueues_example =
    add-HasBoundedQueues (event "e1" "ask_user" end) empty_store (λ q. omega arith)

abbrev paid_unverified : EventEnvelope
paid_unverified = event "e1" "payment_unverified" end

abbrev finished_after : EventEnvelope
finished_after = event "e2" "scenario_finished" (field "status" (str "completed") end)

abbrev shown : SessionSummary
shown = record {
  session_id = "s1";
  last_event_type = "scenario_finished";
  last_message = none;
  waiting_reply_id = none;
  ask_question = none;
  ask_options = [];
  ask_asked_at = none;
  order_id = none;
  order_id_host = none;
  payment_provider = none;
  status = some "unverified";
  novnc_url = none;
  updated_at = finished_after.occurred_at;
}

is_shown : summary_of "s1" paid_unverified (finished_after ∷ []) ≡ some shown
unfolding summary_of member
is_shown = refl

unverified_kept_example : shown.status ≡ some "unverified"
unfolding is_harmless value_of member
unverified_kept_example =
    unverified_kept "s1" paid_unverified paid_unverified (finished_after ∷ []) []
      (finished_after ∷ []) shown refl refl refl is_shown
