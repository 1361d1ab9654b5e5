-- ===== src/Buyer/Service/Auth.antt =====
-- buyer/app/service.py: the login at the start of a session, and its summary.
use codex_browser.Prelude.{
  ℕ, String, Bool, true, false, not, ◌&&◌, Option, none, some, List, [], ◌∷◌, ◌==◌, if◌then◌else◌,
  is_empty, strip, nat_eq,
}
use codex_browser.Json.{
  Json, null, bool, num, str, arr, obj, Items, nil, cons, Fields, end, field, member, assign,
}
use codex_browser.Buyer.Models.{TaskAuthPayload}
use codex_browser.Buyer.Domains.{UrlLib, domain_from_url, is_domain_in_allowlist}
use codex_browser.Buyer.Sanitize.{sanitize_object}
use codex_browser.Buyer.ExternalAuth.{
  CookieMetadata, ExternalSberCookiesResult, returned, type_error, fetch_storage_state,
}
use codex_browser.Buyer.ExternalAuth as ExternalAuth
use codex_browser.Buyer.Session.State.{SessionState}
use codex_browser.Buyer.Session.Operations.{set_auth, add_agent_memory}
use codex_browser.Buyer.Service.Payloads.{is_valid_storage_state}
use codex_browser.Buyer.Service.World.{
  unexpected, Outside, Config, AuthScriptResult, ScriptAnswer, finished, script_crashed, M, ◌>>=◌,
  ◌>>◌, pure, raise, timed_op, await,
}

abbrev pub auth_ok : String
auth_ok = "auth_ok"

abbrev pub text_items : List String → Items
text_items [] = nil
text_items (x ∷ xs) = cons (str x) (text_items xs)

abbrev script_entry : String → String → Json
script_entry domain script = obj (
    field "domain" (str domain)
      (field "lifecycle" (str "publish") (field "script" (str script) end)))

-- `registry_snapshot()` of auth_scripts.py, in the order of the domains.
abbrev pub registry_snapshot : Items
registry_snapshot =
    cons (script_entry "brandshop.ru" "sberid/brandshop.ts")
      (cons (script_entry "litres.ru" "sberid/litres.ts") nil)

-- The summary of a guest, with which every login starts.
unfoldable pub guest_summary : String → List String → Fields
guest_summary domain allowlist = field "provider" null (
    field "domain" (str domain) (
      field "mode" (str "guest") (
        field "path" (str "guest") (
          field "reason_code" null (
            field "attempts" (num 0) (
              field "context_prepared" (bool false) (
                field "allowlist" (arr (text_items allowlist))
                  (field "script_registry" (arr registry_snapshot) end))))))))

abbrev pub optional_field : String → Option Json → Fields → Fields
optional_field key none d = d
optional_field key (some v) d = field key v d

abbrev pub as_num : Option ℕ → Option Json
as_num none = none
as_num (some n) = some (num n)

abbrev pub as_text : Option String → Option Json
as_text none = none
as_text (some s) = some (str s)

-- The metadata of external cookies; the domains go with the count.
unfoldable pub cookie_metadata : CookieMetadata → Fields
cookie_metadata m = elim m.cookie_count [
  | none ↦ optional_field "attempts" (as_num m.attempts) end
  | some count ↦ field "cookie_count" (num count) (
      field "domains" (arr (text_items m.domains)) (
        optional_field "updated_at" (as_text m.updated_at)
          (optional_field "attempts" (as_num m.attempts) end)))
]

abbrev set_text : String → String → Fields → Fields
set_text key text summary = assign summary key (str text)

-- `bool(artifacts.get('context_prepared_for_reuse'))`
abbrev pub is_truthy : Option Json → Bool
is_truthy none = false
is_truthy (some null) = false
is_truthy (some (bool b)) = b
is_truthy (some (num n)) = not (nat_eq n 0)
is_truthy (some (str s)) = not (is_empty s)
is_truthy (some (arr nil)) = false
is_truthy (some (arr (cons v l))) = true
is_truthy (some (obj end)) = false
is_truthy (some (obj (field k v d))) = true

abbrev pub heuristic_note : String
heuristic_note =
    "[SBERID_AUTH_HEURISTIC_REQUIRED] Скриптовая SberId-авторизация не завершилась успешно. Попробуй эвристический вход; если блокер сохраняется, запроси handoff."

-- The summary with the answer of the script.
unfoldable pub script_summary : AuthScriptResult → Fields → Fields
script_summary r summary =
    set_text "script_message" r.message
      (set_text "reason_code" r.reason_code (set_text "script_status" r.status summary))

module _ (L : UrlLib) (O : Outside) (K : Config) where
  -- Cookies that were fetched become the login of the session.
  abbrev pub stored_auth :
      SessionState → Fields → Option Fields → M (Option TaskAuthPayload × Fields)
  stored_auth state summary none = pure (none, summary)
  stored_auth state summary (some storage_state) =
      let auth : TaskAuthPayload = record {
        provider = "sberid";
        storage_state = some storage_state;
      } in
      timed_op O (set_auth state.session_id (some auth)) >> pure (some auth, summary)

  abbrev pub fetched_auth :
      SessionState → Fields → ExternalSberCookiesResult → M (Option TaskAuthPayload × Fields)
  fetched_auth state summary result =
      let summary' = set_text "reason_code" result.reason_code (
        assign (set_text "source" "external_cookies_api" summary) "external_auth"
          (obj (cookie_metadata result.metadata))) in
      stored_auth state summary' result.storage_state

  abbrev pub answered_auth :
      SessionState
      → Fields
      → ExternalAuth.Outcome ExternalSberCookiesResult
      → M (Option TaskAuthPayload × Fields)
  answered_auth state summary (returned result) = fetched_auth state summary result
  answered_auth state summary type_error = raise (unexpected "TypeError")

  -- `_resolve_session_auth`, with the summary that it changes.
  abbrev pub resolve_auth :
      SessionState → Fields → Option TaskAuthPayload → M (Option TaskAuthPayload × Fields)
  resolve_auth state summary (some auth) = pure (some auth, set_text "source" "inline" summary)
  resolve_auth state summary none =
      if not K.has_external_auth
      then pure
          (none, set_text "reason_code" "auth_not_provided" (set_text "source" "none" summary))
      else (await O (λ n. fetch_storage_state K.cookies_url K.retries (O.respond n))
          >>= answered_auth state summary)

  unfoldable pub resolve_session_auth : SessionState → Fields → M (Option TaskAuthPayload × Fields)
  unfolding cookie_metadata
  resolve_session_auth state summary = resolve_auth state summary state.auth

  -- The script's answer is used, or the agent is asked to log in by itself.
  unfoldable pub after_script : SessionState → Fields → AuthScriptResult → M Fields
  unfolding script_summary
  after_script state summary r =
      let summary' = script_summary r summary in
      let artifacts = obj r.artifacts in
      if (r.reason_code == auth_ok) && (r.status == "completed")
      then pure (
          assign (assign (set_text "path" "script" summary') "artifacts" artifacts)
            "context_prepared" (bool (is_truthy (member r.artifacts "context_prepared_for_reuse"))))
      else (timed_op O (add_agent_memory state.session_id "system" heuristic_note)
          >> pure (assign (set_text "path" "heuristic" summary') "artifacts" artifacts))

  -- The name of the provider, `sberid` where none is given.
  unfoldable pub provider_of : TaskAuthPayload → String
  provider_of auth =
      let provider = O.lower (strip auth.provider) in
      if is_empty provider then "sberid" else provider

  abbrev pub named : TaskAuthPayload → Fields → Fields
  named auth summary = set_text "provider" (provider_of auth) summary

  abbrev pub trying : TaskAuthPayload → Fields → Fields
  trying auth summary = assign (set_text "mode" "sberid" (named auth summary)) "attempts" (num 1)

  -- The result of the script, if its runner does not raise.
  abbrev pub script_answered : SessionState → Fields → ScriptAnswer → M Fields
  script_answered state summary (finished result) = after_script state summary result
  script_answered state summary (script_crashed text) = raise (unexpected text)

  -- What is done with a login that is there.
  unfoldable pub log_in : SessionState → String → TaskAuthPayload → Fields → M Fields
  unfolding provider_of after_script
  log_in state domain auth summary =
      if not (provider_of auth == "sberid")
      then pure (set_text "reason_code" "auth_provider_not_supported" (named auth summary))
      else if not (is_domain_in_allowlist L domain K.sberid_allowlist)
      then pure (set_text "reason_code" "auth_domain_not_in_allowlist" (named auth summary))
      else if not (is_valid_storage_state auth.storage_state)
      then pure (
          set_text "reason_code" "auth_inline_invalid_payload"
            (set_text "path" "guest" (set_text "mode" "guest" (trying auth summary))))
      else (await O
            (λ n. O.run_auth_script n state.session_id domain state.start_url auth.storage_state)
          >>= script_answered state (trying auth summary))

  abbrev pub with_login : SessionState → String → Option TaskAuthPayload × Fields → M Fields
  with_login state domain (none, summary) = pure summary
  with_login state domain (some auth, summary) = log_in state domain auth summary

  -- `_run_sberid_auth_flow`
  unfoldable pub run_auth_flow : SessionState → M Fields
  unfolding resolve_session_auth log_in guest_summary
  run_auth_flow state =
      let domain = domain_from_url L state.start_url in
      resolve_session_auth state (guest_summary domain K.sberid_allowlist)
      >>= with_login state domain

  -- `_sanitize_auth_summary_for_runtime`
  unfoldable pub runtime_summary : Fields → Fields
  runtime_summary summary = sanitize_object O.lower summary
