-- ===== src/Examples/Service.antt =====
-- A session task whose agent pays at the first step, and the theorems at it.
use codex_browser.Prelude.{String, ◌≡◌, ◌≢◌, refl, false, none, some, [], ◌∷◌, All, ◌==◌}
use codex_browser.Dict.{get}
use codex_browser.Json.{Json, str, obj, arr, nil, cons, end, field}
use codex_browser.Buyer.Models.{running}
use codex_browser.Buyer.ExternalAuth.{timeout}
use codex_browser.Buyer.Sanitize.{sanitize}
use codex_browser.Buyer.Sanitize.Clean.{HasNoBlockedKey, sanitize-HasNoBlockedKey}
use codex_browser.Buyer.Service.World.{
  Outside, Config, World, of_store, raised, finished, answered, going_on,
}
use codex_browser.Buyer.Service.Recovery.{Progress, at_start}
use codex_browser.Buyer.Service.Run.{run_session}
use codex_browser.Buyer.Service.Ready.{IsAllowed}
use codex_browser.Buyer.Service.Justified.{payment_ready-IsAllowed, token_released}
use codex_browser.Buyer.Service.Escaped.{run_session-raised}
use codex_browser.Buyer.Session.{session_not_found, with_session, attach_runtime, wake_for}
use codex_browser.Buyer.Session.State.{get_session, clone_state}
use codex_browser.Buyer.Session.Operations
use codex_browser.Buyer.Session.Operations.{get_state, append_event}
use codex_browser.Buyer.Service.Events.{emit_event}
use codex_browser.Examples.Payment.{lib, paid}
use codex_browser.Examples.Session.{start, stored}

abbrev outside : Outside
outside = record {
  now = λ n. n;
  loop_time = λ n. n;
  uuid = λ n. "id";
  others = λ n s. s;
  deliver = λ n url envelope token. none;
  run_step = λ n request. ([], answered paid);
  append_profile_updates = λ n updates. none;
  run_auth_script = λ n k domain url storage.
      finished
        (record { status = "failed"; reason_code = "auth_failed"; message = ""; artifacts = end });
  respond = λ n m. timeout "slow";
  lower = λ s. s;
  dumps = λ d. "{}";
  stream_suffix = λ d. none;
}

abbrev config : Config
config = record {
  sberid_allowlist = "litres.ru" ∷ [];
  has_external_auth = false;
  cookies_url = "";
  retries = 1;
  window = 20;
  window_text = "20";
  has_analyzer = false;
}

-- A store with one session that runs, and its token.
abbrev world : World
world = record {
  store = record start {
    repository = record {
      persist_auth_payload = false;
      sessions = ("s1", record stored { status = running; waiting_reply_id = none }) ∷ [];
    };
  };
  callback_tokens = ("s1", "token") ∷ ("s2", "other") ∷ [];
  emitted = [];
  marks = [];
  recorded = [];
  analyses = [];
  readings = 0;
}

payment_ready-IsAllowed_example :
    All (IsAllowed lib outside) (run_session lib outside config 2 "s1" world).1.emitted
payment_ready-IsAllowed_example = payment_ready-IsAllowed lib outside config 2 "s1" world refl

token_released_example :
    let r = run_session lib outside config 2 "s1" world in
    (r.0 ≡ going_on → r.1.callback_tokens ≡ world.callback_tokens)
    × (r.0 ≢ going_on → get r.1.callback_tokens "s1" ≡ none)
    × (◌≢◌ {A = String} "s1" "s2" → get r.1.callback_tokens "s2" ≡ get world.callback_tokens "s2")
token_released_example = token_released lib outside config 2 "s1" "s2" world refl

-- The delivery fails, and another task deletes the sessions meanwhile.
abbrev vanishing : Outside
vanishing = record outside {
  others = λ n s. record s { repository = record s.repository { sessions = [] } };
  deliver = λ n url envelope token. some "refused";
}

vanished : (run_session lib vanishing config 2 "s1" world).0 ≡ raised (of_store session_not_found)
unfolding run_session get_state with_session get_session get emit_event append_event attach_runtime
    wake_for clone_state
vanished = refl

run_session-raised_example : of_store session_not_found ≡ of_store session_not_found
run_session-raised_example =
    run_session-raised lib vanishing config 2 "s1" world (of_store session_not_found) vanished

-- The browser fails at each step.
abbrev flaky : Outside
flaky = record outside {
  run_step =
      λ n request. ([], answered (record paid { status = "failed"; message = "target closed" }));
  lower = λ s. s;
}

abbrev after_one : Progress
after_one = record at_start {
  step_index = 1;
  recovery_started_at = some 9;
  recovery_attempts = 1;
  last_error_tail = "target closed";
}

-- A cookie below a list.
abbrev nested : Json
nested = arr (cons (obj (field "cookie" (str "x") (field "path" (str "/") end))) nil)

sanitize-HasNoBlockedKey_example :
    HasNoBlockedKey (λ k. k == "cookie") (sanitize (λ k. k == "cookie") 0 nested)
    × (sanitize (λ k. k == "cookie") 0 (sanitize (λ k. k == "cookie") 0 nested)
        ≡ sanitize (λ k. k == "cookie") 0 nested)
sanitize-HasNoBlockedKey_example = sanitize-HasNoBlockedKey (λ k. k == "cookie") nested
