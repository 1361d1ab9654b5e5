-- ===== src/Eval/Redaction.antt =====
-- eval_service/app/redaction.py: what is left out of the values that the judge reads and that a run stores.
-- The redaction of one text, `_redact_text`, is an argument: it is made of regular expressions.
pub mod Safe
use codex_browser.Prelude.{
  ℕ, String, Bool, true, false, not, ◌&&◌, ◌||◌, Option, none, some, List, [], ◌∷◌, ◌++◌, ◌==◌,
  if◌then◌else◌, any, leb, one_of, contains, keep_chars, starts_with, ends_with,
}
use codex_browser.Json.{Json, null, bool, num, str, arr, obj, Items, nil, cons, Fields, end, field}

abbrev pub redacted_local_storage_value : String
redacted_local_storage_value = "[redacted-local-storage-value]"

abbrev pub sensitive_exact_keys : List String
sensitive_exact_keys =
    "apikey" ∷ "authorization" ∷ "clientsecret" ∷ "cookie" ∷ "cookies" ∷ "csrftoken"
    ∷ "idempotencykey" ∷ "openaiapikey" ∷ "orderid" ∷ "orderurl" ∷ "password" ∷ "paymentid"
    ∷ "paymentlink" ∷ "paymenttoken" ∷ "paymenturl" ∷ "refreshtoken" ∷ "secret" ∷ "setcookie"
    ∷ "storagestate" ∷ "token" ∷ "xapikey" ∷ "xidempotencykey" ∷ []

abbrev pub sensitive_token_keys : List String
sensitive_token_keys =
    "accesstoken" ∷ "authtoken" ∷ "csrftoken" ∷ "idtoken" ∷ "paymenttoken" ∷ "refreshtoken" ∷ []

abbrev pub payment_markers : List String
payment_markers = "order" ∷ "payment" ∷ "pay" ∷ "sberpay" ∷ []

abbrev is_plain : ℕ → Bool
is_plain c = (leb 97 c && leb c 122) || (leb 48 c && leb c 57)

abbrev pub or_empty : Option String → String
or_empty none = ""
or_empty (some s) = s

abbrev pub is_container : Json → Bool
is_container (obj d) = true
is_container (arr l) = true
is_container _ = false

module _ (lower : String → String) where
  -- `_normalize_key`
  unfoldable pub normalize_key : String → String
  normalize_key key = keep_chars is_plain (lower key)

  abbrev pub marks_payment : String → Bool
  marks_payment key = any (λ marker. contains key marker) payment_markers

  abbrev pub marks_id_or_url : String → Bool
  marks_id_or_url key =
      one_of key ("id" ∷ "url" ∷ "link" ∷ [])
      || any (λ ending. ends_with key ending) ("id" ∷ "url" ∷ "link" ∷ [])

  -- `_is_sensitive_key`
  unfoldable pub is_sensitive_key : String → Option String → Bool
  unfolding normalize_key
  is_sensitive_key key parent =
      let normalized = normalize_key key in
      one_of normalized (sensitive_exact_keys ++ sensitive_token_keys)
      || ends_with normalized "apikey"
      || ends_with normalized "secret"
      || (ends_with normalized "token"
          && not (one_of normalized ("buyertokensused" ∷ "judgetokensused" ∷ [])))
      || (starts_with normalized "cookie" && not (normalized == "cookiebanner"))
      || (marks_id_or_url normalized
          && (marks_payment (normalize_key (or_empty parent)) || marks_payment normalized))

  module _ (redact_text : String → String) where
    abbrev pub redacted_text : Json → Json
    redacted_text (str s) = str (redact_text s)
    redacted_text v = v

    -- The value of a key that is no secret, by whether it lies in a local storage, and by its key; `deep`
    -- is the value sanitized with its key as the parent.
    abbrev pub kept_value : Bool → String → Json → Json → Json
    kept_value false normalized v deep = deep
    kept_value true normalized v deep =
        if normalized == "value"
        then str redacted_local_storage_value
        else if normalized == "name"
        then redacted_text v
        else if not (is_container v)
        then str redacted_local_storage_value
        else deep

    -- `_sanitize`
    unfoldable mutual
      unfolding normalize_key is_sensitive_key

      pub sanitize_value : Bool → Option String → Json → Json
      sanitize_value inside parent (obj d) = obj (sanitize_members inside parent d)
      sanitize_value inside parent (arr l) = arr (sanitize_list inside parent l)
      sanitize_value inside parent (str s) =
          if inside then str redacted_local_storage_value else str (redact_text s)
      sanitize_value inside parent null = null
      sanitize_value inside parent (bool b) = bool b
      sanitize_value inside parent (num n) = num n

      pub sanitize_list : Bool → Option String → Items → Items
      sanitize_list inside parent nil = nil
      sanitize_list inside parent (cons v l) =
          cons (sanitize_value inside parent v) (sanitize_list inside parent l)

      pub sanitize_members : Bool → Option String → Fields → Fields
      sanitize_members inside parent end = end
      sanitize_members inside parent (field key v d) =
          let rest = sanitize_members inside parent d in
          let deep =
            sanitize_value (inside || (normalize_key key == "localstorage")) (some key) v in
          if is_sensitive_key key parent
          then rest
          else field key (kept_value inside (normalize_key key) v deep) rest

    -- `sanitize_for_judge_input`
    unfoldable pub sanitize_for_judge_input : Json → Json
    unfolding sanitize_value
    sanitize_for_judge_input v = sanitize_value false none v
