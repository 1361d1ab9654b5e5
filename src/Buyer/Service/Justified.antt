-- ===== src/Buyer/Service/Justified.antt =====
-- The whole session task of buyer/app/service.py: what it stores, and what stands behind `payment_ready`.
use codex_browser.Prelude.{
  ℕ, String, ◌≡◌, refl, subst, sym, ◌∙◌, ap, not, ◌&&◌, Option, none, some, [], All, ◌==◌, ◌≢◌,
}
use codex_browser.Dict.{Dict, get, get-remove_self, get-remove_ne}
use codex_browser.Json.{Fields, end}
use codex_browser.Buyer.Models.{failed, TaskAuthPayload}
use codex_browser.Buyer.Domains.{UrlLib}
use codex_browser.Buyer.Session.State.{SessionState}
use codex_browser.Buyer.Session.Operations.{
  get_state, set_status, add_agent_memory, set_auth_context, set_auth,
}
use codex_browser.Buyer.Service.Auth.{run_auth_flow}
use codex_browser.Buyer.Service.Recovery.{at_start}
use codex_browser.Buyer.Service.Loop.{turns, prepare_auth, opening}
use codex_browser.Buyer.Service.Run.{
  fall_back, unless_undelivered, fail_unexpected, on_failure, caught, released, looped, run_session,
}
use codex_browser.Buyer.Service.Keeps.{
  Holds, Keeps, reading-Keeps, await-Keeps, choice-Keeps, store_event-Keeps,
}
use codex_browser.Buyer.Service.Ready.{
  IsAllowed, other_type, Kept, other-Kept, bind, handle_failed-Kept,
}
use codex_browser.Buyer.Service.World.{
  of_store, of_delivery, unexpected, Failure, Outcome, done, raised, going_on, Outside, Config,
  World, M, raise,
}
use codex_browser.Buyer.Service.Turns.{plain-Kept, timed-Kept, op-Kept, remember-Kept, turns-Kept}
use codex_browser.Buyer.Service.Auth.{
  resolve_session_auth, answered_auth, after_script, script_answered, log_in, with_login,
  provider_of, heuristic_note, auth_ok, stored_auth, resolve_auth, trying, runtime_summary,
}
use codex_browser.Buyer.Service.Loop.{told}
use codex_browser.Buyer.Service.Payloads.{is_valid_storage_state, is_end}
use codex_browser.Buyer.Service.World.{AuthScriptResult, ScriptAnswer, finished, script_crashed}
use codex_browser.Buyer.ExternalAuth as ExternalAuth
use codex_browser.Buyer.ExternalAuth.{
  ExternalSberCookiesResult, returned, type_error, fetch_storage_state,
}
use codex_browser.Buyer.Domains.{domain_from_url, is_domain_in_allowlist}

module _ (L : UrlLib) (O : Outside) (K : Config) (c : Dict String) where
  stored-Kept :
      (state : SessionState) (summary : Fields) (o : Option Fields)
      → Kept L O K c (stored_auth L O K state summary o)
  stored-Kept state summary none = plain-Kept L O K c _
  stored-Kept state summary (some storage_state) =
      bind L O K c _ _ (timed-Kept L O K c (set_auth state.session_id _)) λ _. plain-Kept L O K c _

  raised-Kept : (A : Type 0) (e : Failure) → Kept L O K c (raise {A = A} e)
  unfolding Keeps
  raised-Kept A e w h = h

  answered-Kept :
      (state : SessionState) (summary : Fields) (r : ExternalAuth.Outcome ExternalSberCookiesResult)
      → Kept L O K c (answered_auth L O K state summary r)
  answered-Kept state summary type_error = raised-Kept _ (unexpected "TypeError")
  answered-Kept state summary (returned result) = stored-Kept state _ result.storage_state

  resolve-Kept :
      (state : SessionState) (summary : Fields) (o : Option TaskAuthPayload)
      → Kept L O K c (resolve_auth L O K state summary o)
  resolve-Kept state summary (some auth) = plain-Kept L O K c _
  resolve-Kept state summary none =
      choice-Keeps c (IsAllowed L O) (not K.has_external_auth) _ _ (plain-Kept L O K c _) (
        bind L O K c _ _
          (await-Keeps c (IsAllowed L O) O
            (λ n. fetch_storage_state K.cookies_url K.retries (O.respond n)))
          (answered-Kept state summary))

  after_script-Kept :
      (state : SessionState) (summary : Fields) (r : AuthScriptResult)
      → Kept L O K c (after_script L O K state summary r)
  unfolding after_script
  after_script-Kept state summary r =
      choice-Keeps c (IsAllowed L O) ((r.reason_code == auth_ok) && (r.status == "completed")) _ _
        (plain-Kept L O K c _)
        (bind L O K c _ _
          (timed-Kept L O K c (add_agent_memory state.session_id "system" heuristic_note))
          λ _. plain-Kept L O K c _)

  script_answered-Kept :
      (state : SessionState) (summary : Fields) (answer : ScriptAnswer)
      → Kept L O K c (script_answered L O K state summary answer)
  script_answered-Kept state summary (finished result) = after_script-Kept state summary result
  script_answered-Kept state summary (script_crashed text) = raised-Kept Fields (unexpected text)

  log_in-Kept :
      (state : SessionState) (domain : String) (auth : TaskAuthPayload) (summary : Fields)
      → Kept L O K c (log_in L O K state domain auth summary)
  unfolding log_in
  log_in-Kept state domain auth summary =
      choice-Keeps c (IsAllowed L O) (not (provider_of L O K auth == "sberid")) _ _
        (plain-Kept L O K c _)
        (choice-Keeps c (IsAllowed L O) (not (is_domain_in_allowlist L domain K.sberid_allowlist)) _
          _ (plain-Kept L O K c _)
          (choice-Keeps c (IsAllowed L O) (not (is_valid_storage_state auth.storage_state)) _ _
            (plain-Kept L O K c _)
            (bind L O K c _ _
              (await-Keeps c (IsAllowed L O) O (λ n.
                O.run_auth_script n state.session_id domain state.start_url auth.storage_state))
              λ r. script_answered-Kept state (trying L O K auth summary) r)))

  with_login-Kept :
      (state : SessionState) (domain : String) (r : Option TaskAuthPayload × Fields)
      → Kept L O K c (with_login L O K state domain r)
  with_login-Kept state domain (none, summary) = plain-Kept L O K c summary
  with_login-Kept state domain (some auth, summary) = log_in-Kept state domain auth summary

  run_auth_flow-Kept : (state : SessionState) → Kept L O K c (run_auth_flow L O K state)
  unfolding run_auth_flow resolve_session_auth
  run_auth_flow-Kept state =
      bind L O K c _ _ (resolve-Kept state _ state.auth)
        (with_login-Kept state (domain_from_url L state.start_url))

  told-Kept : (state : SessionState) (summary : Fields) → Kept L O K c (told L O K state summary)
  told-Kept state summary =
      let safe = runtime_summary L O K summary in
      choice-Keeps c (IsAllowed L O) (is_end summary) _ _ (plain-Kept L O K c summary) (
        bind L O K c _ _ (op-Kept L O K c (set_auth_context state.session_id safe)) λ _.
          bind L O K c _ _ (remember-Kept L O K c state.session_id "system" _)
            λ _. plain-Kept L O K c safe)

  opening-Kept : (session_id : String) → Kept L O K c (opening L O K session_id)
  unfolding opening prepare_auth
  opening-Kept session_id = bind L O K c _ _ (op-Kept L O K c (get_state session_id)) λ state.
      bind L O K c _ _ (other-Kept L O K c state "session_started" _ _ refl) λ _.
        bind L O K c _ _ (remember-Kept L O K c session_id "system" _) λ _.
          bind L O K c _ _ (remember-Kept L O K c session_id "user" state.task)
            λ _. bind L O K c _ _ (run_auth_flow-Kept state) (told-Kept state)

  fall_back-Kept :
      (state : SessionState) (text suffix : String)
      → Kept L O K c (fall_back L O K state text suffix)
  unfolding fall_back
  fall_back-Kept state text suffix =
      bind L O K c _ _ (timed-Kept L O K c (set_status state.session_id failed (some text))) λ _.
        bind L O K c _ _ (reading-Keeps c (IsAllowed L O)) λ n.
          store_event-Keeps c (IsAllowed L O) O state _
            (other_type L O state "scenario_finished" _ (some suffix) refl n)

  unless_undelivered-Kept :
      (state : SessionState) (o : Outcome (Unit {0})) (w : World)
      → Holds c (IsAllowed L O) w
      → Holds c (IsAllowed L O) (unless_undelivered L O K state o w).1
  unfolding Keeps
  unless_undelivered-Kept state (raised (of_delivery text)) w h =
      fall_back-Kept state text "scenario-failed-unhandled" w h
  unless_undelivered-Kept state (raised (of_store e)) w h = h
  unless_undelivered-Kept state (raised (unexpected text)) w h = h
  unless_undelivered-Kept state (done x) w h = h
  unless_undelivered-Kept state going_on w h = h

  guarded-Kept :
      (state : SessionState) (m : M (Unit {0}))
      → Kept L O K c m
      → Kept L O K c (λ w. unless_undelivered L O K state (m w).0 (m w).1)
  unfolding Keeps
  guarded-Kept state m km w h = unless_undelivered-Kept state (m w).0 (m w).1 (km w h)

  on_failure-Kept :
      (session_id : String) (auth_summary : Fields) (e : Failure)
      → Kept L O K c (on_failure L O K session_id auth_summary e)
  unfolding on_failure fail_unexpected
  on_failure-Kept session_id auth_summary (of_store e) = plain-Kept L O K c tt
  on_failure-Kept session_id auth_summary (of_delivery text) =
      bind L O K c _ _ (op-Kept L O K c (get_state session_id))
        λ state. fall_back-Kept state text "scenario-failed-callback-delivery"
  on_failure-Kept session_id auth_summary (unexpected text) =
      bind L O K c _ _ (op-Kept L O K c (get_state session_id))
        λ state. guarded-Kept state _ (handle_failed-Kept L O K c state _ end auth_summary)

  caught-Kept :
      (session_id : String) (auth_summary : Fields) (o : Outcome (Unit {0})) (w : World)
      → Holds c (IsAllowed L O) w
      → Holds c (IsAllowed L O) (caught L O K session_id auth_summary o w).1
  unfolding Keeps
  caught-Kept session_id auth_summary (done x) w h = h
  caught-Kept session_id auth_summary going_on w h = h
  caught-Kept session_id auth_summary (raised e) w h = on_failure-Kept session_id auth_summary e w h

  looped-Kept :
      (n : ℕ) (session_id : String) (o : Outcome Fields) (w : World)
      → Holds c (IsAllowed L O) w
      → Holds c (IsAllowed L O) (looped L O K n session_id o w).1
  unfolding looped Keeps
  looped-Kept n session_id going_on w h = h
  looped-Kept n session_id (raised e) w h = on_failure-Kept session_id end e w h
  looped-Kept n session_id (done summary) w h =
      let ran = turns L O K n session_id summary at_start w in
      caught-Kept session_id summary ran.0 ran.1
        (turns-Kept L O K c n session_id summary at_start w h)

-- The session task before its `finally`.
abbrev unreleased : UrlLib → Outside → Config → ℕ → String → M (Unit {0})
unreleased L O K n session_id w =
    let opened = opening L O K session_id w in looped L O K n session_id opened.0 opened.1

unreleased-Holds :
    (L : UrlLib) (O : Outside) (K : Config) (n : ℕ) (session_id : String) (w : World)
    → w.emitted ≡ []
    → Holds w.callback_tokens (IsAllowed L O) (unreleased L O K n session_id w).1
unfolding Keeps Holds
unreleased-Holds L O K n session_id w fresh =
    let opened = opening L O K session_id w in
    looped-Kept L O K w.callback_tokens n session_id opened.0 opened.1
      (opening-Kept L O K w.callback_tokens session_id w (refl, rw fresh tt))

released-emitted :
    (L : UrlLib) (O : Outside) (K : Config) (k : String) (o : Outcome (Unit {0})) (w : World)
    → (released L O K k o w).1.emitted ≡ w.emitted
released-emitted L O K k (done x) w = refl
released-emitted L O K k (raised e) w = refl
released-emitted L O K k going_on w = refl

-- Whatever the agent, the client, the scripts and the other tasks do, each `payment_ready` event that the
-- task of a session, from its start, stores (and then sends) stands for an answer of the agent to a request of a step: the
-- payment evidence of that answer is accepted for the start URL of the request, and the event carries the
-- order id of the answer and the host that the verification names.
pub payment_ready-IsAllowed :
    (L : UrlLib) (O : Outside) (K : Config) (n : ℕ) (session_id : String) (w : World)
    → w.emitted ≡ []
    → All (IsAllowed L O) (run_session L O K n session_id w).1.emitted
unfolding run_session Holds
payment_ready-IsAllowed L O K n session_id w fresh =
    let ended = unreleased L O K n session_id w in
    subst (All (IsAllowed L O)) (sym (released-emitted L O K session_id ended.0 ended.1))
      (unreleased-Holds L O K n session_id w fresh).1

-- The callback token of a session is kept while its task, looked at from its start, goes on, and goes with the task, whichever way
-- it ends; the tokens of other sessions are left as they are.
pub token_released :
    (L : UrlLib) (O : Outside) (K : Config) (n : ℕ) (session_id other : String) (w : World)
    → w.emitted ≡ []
    → let r = run_session L O K n session_id w in
      (r.0 ≡ going_on → r.1.callback_tokens ≡ w.callback_tokens)
      × (r.0 ≢ going_on → get r.1.callback_tokens session_id ≡ none)
      × (session_id ≢ other → get r.1.callback_tokens other ≡ get w.callback_tokens other)
unfolding run_session Holds
token_released L O K n session_id other w fresh =
    let ended = unreleased L O K n session_id w in
    by_end ended.0 ended.1 (unreleased-Holds L O K n session_id w fresh).0
  where
    by_end :
        (o : Outcome (Unit {0})) (w' : World)
        → w'.callback_tokens ≡ w.callback_tokens
        → let r = released L O K session_id o w' in
          (r.0 ≡ going_on → r.1.callback_tokens ≡ w.callback_tokens)
          × (r.0 ≢ going_on → get r.1.callback_tokens session_id ≡ none)
          × (session_id ≢ other → get r.1.callback_tokens other ≡ get w.callback_tokens other)
    by_end (done x) w' same = (
      (λ e. absurd (cc e)),
      (λ e. get-remove_self w'.callback_tokens session_id),
      λ e. get-remove_ne w'.callback_tokens session_id other e ∙ ap (λ d. get d other) same,
    )
    by_end (raised f) w' same = (
      (λ e. absurd (cc e)),
      (λ e. get-remove_self w'.callback_tokens session_id),
      λ e. get-remove_ne w'.callback_tokens session_id other e ∙ ap (λ d. get d other) same,
    )
    by_end going_on w' same = ((λ e. same), (λ e. absurd (e refl)), λ e. ap (λ d. get d other) same)
