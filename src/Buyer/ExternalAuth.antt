-- ===== src/Buyer/ExternalAuth.antt =====
-- buyer/app/external_auth.py: the cookies of an external service. The HTTP client is the argument
-- `respond`, which tells what each attempt meets.
pub mod Loaded
use codex_browser.Prelude.{
  insert_text, ℕ, zero, suc, String, Bool, true, false, Option, none, some, List, [], ◌∷◌, ◌&&◌,
  if◌then◌else◌, is_empty, is_some, one_of, leb,
}
use codex_browser.Json.{
  Json, null, bool, num, str, arr, obj, Items, nil, cons, Fields, end, field, member, nonempty_str,
  as_str, is_number,
}

pub record CookieMetadata : Type 0 where
  pub cookie_count : Option ℕ
  pub domains : List String
  pub updated_at : Option String
  pub attempts : Option ℕ

pub record ExternalSberCookiesResult : Type 0 where
  pub reason_code : String
  pub storage_state : Option Fields
  pub metadata : CookieMetadata
  pub message : Option String

-- A function that may raise `TypeError`.
pub data Outcome {ℓ} (A : Type ℓ) : Type ℓ where
  returned : A → Outcome A
  type_error : Outcome A

abbrev pub no_metadata : CookieMetadata
no_metadata = record { cookie_count = none; domains = []; updated_at = none; attempts = none }

abbrev pub items_length : Items → ℕ
items_length nil = 0
items_length (cons x l) = suc (items_length l)

abbrev pub domain_of : Json → Option String
domain_of (obj cookie) = as_str (member cookie "domain")
domain_of _ = none

-- `sorted({…})`
unfoldable pub sorted_domains : Items → List String
unfolding insert_text
sorted_domains nil = []
sorted_domains (cons cookie l) =
    let rest = sorted_domains l in
    elim (domain_of cookie) [ none ↦ rest | some domain ↦ insert_text domain rest ]

unfoldable pub metadata_from_payload : Fields → Items → CookieMetadata
unfolding sorted_domains
metadata_from_payload payload cookies = record {
  cookie_count = some (items_length cookies);
  domains = sorted_domains cookies;
  updated_at = nonempty_str (member payload "updatedAt");
  attempts = none;
}

-- `isinstance(value, str) and value` for the four keys that a cookie must have.
unfoldable pub has_texts : Fields → List String → Bool
has_texts cookie [] = true
has_texts cookie (key ∷ keys) = is_some (nonempty_str (member cookie key)) && has_texts cookie keys

abbrev pub is_bool : Option Json → Bool
is_bool (some (bool b)) = true
is_bool _ = false

-- `same_site is not None and same_site not in {'Strict', 'Lax', 'None'}`, negated; a list or an object
-- cannot be looked for in a set.
unfoldable pub same_site_ok : Option Json → Outcome Bool
same_site_ok none = returned true
same_site_ok (some null) = returned true
same_site_ok (some (str s)) = returned (one_of s ("Strict" ∷ "Lax" ∷ "None" ∷ []))
same_site_ok (some (bool b)) = returned false
same_site_ok (some (num n)) = returned false
same_site_ok (some (arr l)) = type_error
same_site_ok (some (obj d)) = type_error

abbrev pub is_absent_or : (Json → Bool) → Option Json → Bool
is_absent_or p none = true
is_absent_or p (some null) = true
is_absent_or p (some v) = p v

abbrev pub is_bool_value : Json → Bool
is_bool_value (bool b) = true
is_bool_value _ = false

unfoldable pub is_valid_cookie : Json → Outcome Bool
unfolding has_texts same_site_ok
is_valid_cookie (obj cookie) =
    if has_texts cookie ("name" ∷ "value" ∷ "domain" ∷ "path" ∷ [])
      && is_bool (member cookie "secure")
    then elim (same_site_ok (member cookie "sameSite")) [
      | type_error ↦ type_error
      | returned same_site ↦ returned (
          same_site
          && is_absent_or is_bool_value (member cookie "httpOnly")
          && is_absent_or is_number (member cookie "expires"))
    ]
    else returned false
is_valid_cookie _ = returned false

-- The loop over the cookies: are all of them valid?
unfoldable pub all_valid : Items → Outcome Bool
unfolding is_valid_cookie
all_valid nil = returned true
all_valid (cons cookie l) =
    let rest = all_valid l in
    elim (is_valid_cookie cookie) [
      | type_error ↦ type_error
      | returned valid ↦ if valid then rest else returned false
    ]

abbrev pub failure : String → CookieMetadata → String → Outcome ExternalSberCookiesResult
failure reason_code metadata message = returned (record {
  reason_code = reason_code;
  storage_state = none;
  metadata = metadata;
  message = some message;
})

abbrev pub storage_state_of : Items → Fields
storage_state_of cookies = field "cookies" (arr cookies) (field "origins" (arr nil) end)

-- The answer for cookies that are a list.
unfoldable pub from_cookies : Fields → Items → Outcome ExternalSberCookiesResult
unfolding metadata_from_payload all_valid
from_cookies payload nil =
    failure "auth_external_empty_payload" (metadata_from_payload payload nil)
      "External cookies payload contains no cookies."
from_cookies payload (cons cookie l) = elim (all_valid (cons cookie l)) [
  | type_error ↦ type_error
  | returned valid ↦
      if valid
      then returned (record {
        reason_code = "auth_external_loaded";
        storage_state = some (storage_state_of (cons cookie l));
        metadata = metadata_from_payload payload (cons cookie l);
        message = none;
      })
      else failure "auth_external_invalid_payload" (metadata_from_payload payload nil)
          "External cookie shape is invalid."
]

abbrev pub invalid_cookies : Outcome ExternalSberCookiesResult
invalid_cookies =
    failure "auth_external_invalid_payload" no_metadata
      "External cookies payload must contain cookies array."

abbrev pub from_member : Fields → Option Json → Outcome ExternalSberCookiesResult
from_member payload (some (arr cookies)) = from_cookies payload cookies
from_member payload _ = invalid_cookies

unfoldable pub cookies_payload_to_storage_state : Json → Outcome ExternalSberCookiesResult
unfolding from_cookies
cookies_payload_to_storage_state (obj payload) = from_member payload (member payload "cookies")
cookies_payload_to_storage_state _ =
    failure "auth_external_invalid_payload" no_metadata
      "External cookies payload must be an object."

-- What an attempt meets: a timeout, another error of httpx or of the JSON parser, or a value.
pub data Response : Type 0 where
  timeout : String → Response
  http_error : String → Response
  answered : Json → Response

abbrev pub gave_up : String → ℕ → Option String → ExternalSberCookiesResult
gave_up reason_code attempts message = record {
  reason_code = reason_code;
  storage_state = none;
  metadata = record no_metadata { attempts = some attempts };
  message = message;
}

abbrev pub with_attempts : ℕ → ExternalSberCookiesResult → ExternalSberCookiesResult
with_attempts attempt r = record r { metadata = record r.metadata { attempts = some attempt } }

-- The attempts from number `attempt` on, of which `left` are left; `left` is 1 in the last one.
unfoldable pub fetch_from :
    (ℕ → Response) → ℕ → ℕ → ℕ → Option String → Outcome ExternalSberCookiesResult
unfolding cookies_payload_to_storage_state
fetch_from respond attempts attempt zero last_error =
    returned (gave_up "auth_external_unavailable" attempts last_error)
fetch_from respond attempts attempt (suc left) last_error =
    let after = fetch_from respond attempts (suc attempt) left in
    elim (respond attempt) [
      | timeout e ↦
          if leb attempts attempt
          then returned (gave_up "auth_external_timeout" attempt (some e))
          else after (some e)
      | http_error e ↦
          if leb attempts attempt
          then returned (gave_up "auth_external_unavailable" attempt (some e))
          else after (some e)
      | answered payload ↦ elim (cookies_payload_to_storage_state payload) [
        | type_error ↦ type_error
        | returned r ↦
            if is_some r.storage_state
            then returned (with_attempts attempt r)
            else if leb attempts attempt
            then returned (with_attempts attempt r)
            else after r.message
      ]
    ]

-- `retries` is the setting after `max(retries, 0)`, `cookies_url` the one after `strip`.
unfoldable pub fetch_storage_state : String → ℕ → (ℕ → Response) → Outcome ExternalSberCookiesResult
unfolding fetch_from
fetch_storage_state cookies_url retries respond =
    if is_empty cookies_url
    then returned (
        gave_up "auth_external_unavailable" 0
          (some "External Sber cookies API URL is not configured."))
    else fetch_from respond (suc retries) 1 (suc retries) none
