-- ===== src/Examples/Session.antt =====
-- A session store that creates a session, asks the user and takes the reply.
use codex_browser.Prelude.{
  ℕ, String, ◌≤◌, ◌≡◌, ◌≢◌, ◌↔◌, refl, true, false, none, some, [], ◌∷◌, ◌==◌, List, All, arith,
  eq_iff,
}
use codex_browser.Dict.{get, put}
use codex_browser.Json.{end}
use codex_browser.Buyer.Models.{waiting_user, failed}
use codex_browser.Buyer.Session.State.{
  SessionState, get_session, clone_state, create_session, list_sessions, delete_sessions,
}
use codex_browser.Buyer.Session.{
  SessionStore, StoreError, CreateRequest, ok, err, session_conflict, wrong_reply_id,
  attach_runtime, wake_for, with_session, is_active_in_current_runtime, drop_finished_runtime_tasks,
  prune_and_list,
}
use codex_browser.Buyer.Session.Operations
use codex_browser.Buyer.Session.Operations.{
  reply_refusal, apply_reply, pop_reply, set_waiting_question, get_state, set_status,
}
use codex_browser.Buyer.Session.Trace.{Op, create, here, next, perform}
use codex_browser.Buyer.Session.Invariant.{active_count}
use codex_browser.Buyer.Session.Limit.{active_limit}
use codex_browser.Buyer.Session.Replies.{refused_unchanged, reply_accepted_iff}
use codex_browser.Buyer.Session.Quiet.{IsQuiet, perform_all}
use codex_browser.Buyer.Session.Once.{IsKeyed, reply_consumed_once}
use codex_browser.Buyer.Session.ReadBack.{status_read_back}
use codex_browser.Buyer.Session.Wakeup.{no_lost_wakeup}
use codex_browser.Buyer.Session.Secrets.{HoldsNoAuth, never_persisted}

abbrev pub start : SessionStore
start = record {
  repository = record { persist_auth_payload = false; sessions = [] };
  max_active_sessions = 1;
  status_ttl_sec = some 60;
  wake_events = [];
  task_refs = [];
  runtime_auth = [];
  runtime_sessions = λ k. false;
  flags = λ e. false;
  next_event = 0;
  done = λ t. false;
  hooks = [];
}

abbrev request : CreateRequest
request = record {
  task = "book";
  start_url = "https://www.litres.ru/";
  callback_url = "https://eval.example/callbacks/buyer";
  novnc_url = "http://novnc";
  metadata = end;
  auth = some (record { provider = "sberid"; storage_state = none });
}

-- A session that is active and waits for the reply `r1`.
abbrev pub stored : SessionState
stored = record {
  session_id = "s1";
  task = "book";
  start_url = "https://www.litres.ru/";
  callback_url = "https://eval.example/callbacks/buyer";
  novnc_url = "http://novnc";
  metadata = end;
  auth = none;
  status = waiting_user;
  created_at = 5;
  updated_at = 7;
  waiting_reply_id = some "r1";
  waiting_question = some "which book?";
  last_error = none;
  events = [];
  agent_memory = [];
  pending_reply_text = none;
  task_ref = none;
  wake_event = none;
}

abbrev waiting : SessionStore
waiting = record start {
  repository = record { persist_auth_payload = false; sessions = ("s1", stored) ∷ [] };
  runtime_sessions = λ k. k == "s1";
  wake_events = ("s1", 0) ∷ [];
  next_event = 1;
}

created_then_full :
    (Operations.create 6 "s2" 6 request (Operations.create 5 "s1" 5 request start).1).0
    ≡ err session_conflict
unfolding Operations.create prune_and_list list_sessions drop_finished_runtime_tasks
    Operations.active_sessions Operations.register attach_runtime wake_for create_session
    clone_state is_active_in_current_runtime get put delete_sessions
created_then_full = refl

active_limit_example :
    active_count (perform (create 6 "s2" 6 request) (perform (create 5 "s1" 5 request) start)) ≤ 1
unfolding Operations.create prune_and_list list_sessions drop_finished_runtime_tasks
    Operations.active_sessions Operations.register attach_runtime wake_for create_session
    clone_state is_active_in_current_runtime get put delete_sessions
active_limit_example =
    active_limit start (perform (create 6 "s2" 6 request) (perform (create 5 "s1" 5 request) start))
      (record { keyed = tt; idle = λ k. refl })
      (next (next here (create 5 "s1" 5 request) refl) (create 6 "s2" 6 request) refl)

waiting_found : get_session waiting.repository "s1" ≡ some stored
unfolding get_session get clone_state
waiting_found = refl

waiting_fits : reply_refusal "r1" stored waiting ≡ none
unfolding reply_refusal is_active_in_current_runtime get
waiting_fits = refl

refused_unchanged_example : (apply_reply "s1" "r2" "no" 9 waiting).1 ≡ waiting
unfolding apply_reply with_session get_session get clone_state reply_refusal
refused_unchanged_example = refused_unchanged "s1" "r2" "no" 9 waiting wrong_reply_id refl

reply_accepted_iff_example :
    ((r : SessionState) × ((apply_reply "s1" "r1" "the first" 9 waiting).0 ≡ ok r)) ↔ (
      (stored.status ≡ waiting_user)
      × (stored.waiting_reply_id ≡ some "r1")
      × (is_active_in_current_runtime waiting stored ≡ true))
reply_accepted_iff_example = reply_accepted_iff "s1" "r1" "the first" 9 waiting stored waiting_found

waiting-IsKeyed : IsKeyed waiting.repository
unfolding get_session get clone_state
waiting-IsKeyed j x found = ground (arith, found, eq_iff "s1" j)

reply_consumed_once_example :
    let t = (apply_reply "s1" "r1" "the first" 9 waiting).1 in
    ((now' : ℕ) → (pop_reply "s1" now' t).0 ≡ ok "the first")
    × ((ops : List Op)
        → All (IsQuiet "s1") ops
        → (other_id other : String) (now' : ℕ)
        → (e : StoreError) × ((apply_reply "s1" other_id other now' (perform_all ops t)).0 ≡ err e))
    × ((ops : List Op)
        → All (IsQuiet "s1") ops
        → (now₁ now₂ : ℕ)
        → (e : StoreError) × ((pop_reply "s1" now₂ (perform_all ops (pop_reply "s1" now₁ t).1)).0
            ≡ err e))
reply_consumed_once_example =
    reply_consumed_once "s1" "r1" "the first" 9 waiting stored waiting-IsKeyed waiting_found
      waiting_fits refl

no_lost_wakeup_example :
    let t = (set_waiting_question "s1" "size?" "r2" 9 waiting).1 in
    let u = (apply_reply "s1" "r2" "XL" 10 t).1 in
    (e : ℕ) × ((r : SessionState) × ((get_state "s1" t).0 ≡ ok r) × (r.wake_event ≡ some e))
    × (t.flags e ≡ false)
    × ((r : SessionState) × ((apply_reply "s1" "r2" "XL" 10 t).0 ≡ ok r))
    × (u.flags e ≡ true)
    × (get u.wake_events "s1" ≡ some e)
unfolding is_active_in_current_runtime get
no_lost_wakeup_example =
    no_lost_wakeup "s1" "size?" "r2" "XL" 9 10 waiting stored waiting_found refl refl

never_persisted_example : HoldsNoAuth (perform (create 5 "s1" 5 request) start).repository
unfolding get
never_persisted_example =
    never_persisted start (perform (create 5 "s1" 5 request) start)
      (record { told = refl; clean = tt }) (next here (create 5 "s1" 5 request) refl)

status_read_back_example :
    let t = (set_status "s1" failed (some "lost") 9 waiting).1 in
    ((x : SessionState) × (get_session t.repository "s1" ≡ some x)
      × (x.status ≡ failed)
      × (x.updated_at ≡ 9)
      × (x.events ≡ stored.events))
    × ((j : String) → "s1" ≢ j → get_session t.repository j ≡ get_session waiting.repository j)
status_read_back_example =
    status_read_back "s1" failed (some "lost") 9 waiting stored waiting_found refl
