-- ===== src/Examples/Redaction.antt =====
-- A payload with a secret and a local storage, redacted for the judge.
use codex_browser.Prelude.{false, ◌≡◌, refl, none, keep_chars, ends_with}
use codex_browser.Json.{Json, str, arr, obj, nil, cons, end, field}
use codex_browser.Eval.Redaction.{is_sensitive_key, sanitize_for_judge_input}
use codex_browser.Eval.Redaction.Safe.{IsSafe, sanitized-IsSafe}

abbrev payload : Json
payload = obj (
    field "token" (str "t") (
      field "localStorage"
        (arr (cons (obj (field "name" (str "cart") (field "value" (str "secret text") end))) nil))
        end))

sanitized-IsSafe_example :
    IsSafe (λ s. s) (λ s. s) false none (sanitize_for_judge_input (λ s. s) (λ s. s) payload)
sanitized-IsSafe_example = sanitized-IsSafe (λ s. s) (λ s. s) payload

-- An object below `name` in a local storage is passed on as it is, with a token in it.
abbrev leaking : Json
leaking = obj (
    field "localstorage"
      (arr (cons (obj (field "name" (obj (field "token" (str "t") end)) end)) nil)) end)

leaks : sanitize_for_judge_input (λ s. s) (λ s. s) leaking ≡ leaking
unfolding sanitize_for_judge_input is_sensitive_key keep_chars ends_with
leaks = refl
