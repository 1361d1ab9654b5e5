-- ===== src/Examples/Buyer.antt =====
-- A delivery that succeeds in its second attempt, and a payload with one cookie.
use codex_browser.Prelude.{ℕ, ◌≡◌, refl, true, arith, nat_eq}
use codex_browser.Json.{Json, Fields, bool, str, arr, obj, nil, cons, end, field, member}
use codex_browser.Buyer.Delivery.{returned, deliver, IsFirstSuccess, deliver-IsFirstSuccess}
use codex_browser.Buyer.ExternalAuth.{
  storage_state_of, cookies_payload_to_storage_state, from_cookies, all_valid, is_valid_cookie,
  has_texts, same_site_ok,
}
use codex_browser.Buyer.ExternalAuth.Loaded.{HasValidCookies, state_from_valid_cookies}

deliver-IsFirstSuccess_example :
    (n : ℕ) × (deliver (λ k. nat_eq k 2) 3 ≡ returned n) × IsFirstSuccess (λ k. nat_eq k 2) 1 4 n
deliver-IsFirstSuccess_example =
    deliver-IsFirstSuccess (λ k. nat_eq k 2) 3 2 (omega arith) (omega arith) refl

abbrev cookie : Json
cookie = obj (
    field "name" (str "sid") (
      field "value" (str "1") (
        field "domain" (str ".sber.ru") (field "path" (str "/") (field "secure" (bool true) end)))))

abbrev payload : Fields
payload = field "cookies" (arr (cons cookie nil)) end

state_from_valid_cookies_example :
    (p : Fields) × (obj payload ≡ obj p) × HasValidCookies p (storage_state_of (cons cookie nil))
unfolding cookies_payload_to_storage_state from_cookies all_valid is_valid_cookie has_texts member
    same_site_ok
state_from_valid_cookies_example =
    state_from_valid_cookies (obj payload) (storage_state_of (cons cookie nil)) refl
