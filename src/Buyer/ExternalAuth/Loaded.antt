-- ===== src/Buyer/ExternalAuth/Loaded.antt =====
-- When a storage state is loaded.
use codex_browser.Prelude.{
  String, Bool, true, false, [], ◌∷◌, ◌⊎◌, inl, inr, is_empty, is_some, one_of, eq_iff,
  if◌then◌else◌, ◌&&◌, ◌≡◌, refl, ap, ◌∙◌, Option, none, some, arith,
}
use codex_browser.Json.{
  Json, null, bool, num, str, arr, obj, Items, nil, cons, Fields, member, nonempty_str, is_number,
}
use codex_browser.Buyer.ExternalAuth.{
  ExternalSberCookiesResult, Outcome, returned, type_error, all_valid, storage_state_of, has_texts,
  is_bool, is_absent_or, is_bool_value, same_site_ok, is_valid_cookie, from_cookies, from_member,
  cookies_payload_to_storage_state,
}

abbrev pub has_state : Outcome ExternalSberCookiesResult → Option Fields
has_state type_error = none
has_state (returned r) = r.storage_state

-- The key holds a text that is not empty.
abbrev pub HasText : Fields → String → Type 0
HasText cookie key = (s : String) × (member cookie key ≡ some (str s)) × (is_empty s ≡ false)

-- The key is missing or `None`, or it holds a value of this kind.
abbrev pub IsOptional : (Json → Type 0) → Fields → String → Type 0
IsOptional P cookie key =
    (member cookie key ≡ none)
    ⊎ (member cookie key ≡ some null)
    ⊎ ((v : Json) × (member cookie key ≡ some v) × P v)

abbrev pub IsBool : Json → Type 0
IsBool v = (b : Bool) × (v ≡ bool b)

abbrev pub IsNumber : Json → Type 0
IsNumber v = (is_number v ≡ true)

abbrev pub IsSameSite : Json → Type 0
IsSameSite v = (v ≡ str "Strict") ⊎ (v ≡ str "Lax") ⊎ (v ≡ str "None")

-- What a browser takes as a cookie.
pub record IsCookie (cookie : Fields) : Type 0 where
  pub name : HasText cookie "name"
  pub value : HasText cookie "value"
  pub domain : HasText cookie "domain"
  pub path : HasText cookie "path"
  pub secure : (b : Bool) × (member cookie "secure" ≡ some (bool b))
  pub same_site : IsOptional IsSameSite cookie "sameSite"
  pub http_only : IsOptional IsBool cookie "httpOnly"
  pub expires : IsOptional IsNumber cookie "expires"

unfoldable pub AllCookies : Items → Type 0
AllCookies nil = Unit
AllCookies (cons v l) = ((cookie : Fields) × (v ≡ obj cookie) × IsCookie cookie) × AllCookies l

-- The payload holds cookies, at least one, all of them valid, and they are the state.
abbrev pub HasValidCookies : Fields → Fields → Type 0
HasValidCookies payload state =
    (first : Json) × (more : Items) × (member payload "cookies" ≡ some (arr (cons first more)))
    × AllCookies (cons first more)
    × (state ≡ storage_state_of (cons first more))

nonempty_lem :
    (v : Option Json)
    → is_some (nonempty_str v) ≡ true
    → (s : String) × (v ≡ some (str s)) × (is_empty s ≡ false)
nonempty_lem none h = absurd (cc h)
nonempty_lem (some (str String.[])) h = absurd (cc h)
nonempty_lem (some (str (String.◌∷◌ c s))) h = (String.◌∷◌ c s, refl, refl)
nonempty_lem (some null) h = absurd (cc h)
nonempty_lem (some (bool b)) h = absurd (cc h)
nonempty_lem (some (num n)) h = absurd (cc h)
nonempty_lem (some (arr l)) h = absurd (cc h)
nonempty_lem (some (obj d)) h = absurd (cc h)

text_lem :
    (cookie : Fields) (key : String)
    → is_some (nonempty_str (member cookie key)) ≡ true
    → HasText cookie key
text_lem cookie key h = nonempty_lem (member cookie key) h

secure_lem : (v : Option Json) → is_bool v ≡ true → (b : Bool) × (v ≡ some (bool b))
secure_lem none h = absurd (cc h)
secure_lem (some (bool b)) h = (b, refl)
secure_lem (some null) h = absurd (cc h)
secure_lem (some (num n)) h = absurd (cc h)
secure_lem (some (str s)) h = absurd (cc h)
secure_lem (some (arr l)) h = absurd (cc h)
secure_lem (some (obj d)) h = absurd (cc h)

abbrev Allows : (Json → Type 0) → Option Json → Type 0
Allows P v = (v ≡ none) ⊎ (v ≡ some null) ⊎ ((x : Json) × (v ≡ some x) × P x)

bool_lem : (v : Option Json) → is_absent_or is_bool_value v ≡ true → Allows IsBool v
bool_lem none h = inl refl
bool_lem (some null) h = inr (inl refl)
bool_lem (some (bool b)) h = inr (inr (bool b, refl, (b, refl)))
bool_lem (some (num n)) h = absurd (cc h)
bool_lem (some (str s)) h = absurd (cc h)
bool_lem (some (arr l)) h = absurd (cc h)
bool_lem (some (obj d)) h = absurd (cc h)

number_lem : (v : Option Json) → is_absent_or is_number v ≡ true → Allows IsNumber v
number_lem none h = inl refl
number_lem (some null) h = inr (inl refl)
number_lem (some (bool b)) h = inr (inr (bool b, refl, h))
number_lem (some (num n)) h = inr (inr (num n, refl, h))
number_lem (some (str s)) h = inr (inr (str s, refl, h))
number_lem (some (arr l)) h = inr (inr (arr l, refl, h))
number_lem (some (obj d)) h = inr (inr (obj d, refl, h))

one_of_sites :
    (s : String)
    → one_of s ("Strict" ∷ "Lax" ∷ "None" ∷ []) ≡ true
    → (s ≡ "Strict") ⊎ (s ≡ "Lax") ⊎ (s ≡ "None")
one_of_sites s h = ground (
  arith,
  eq_iff s "Strict",
  eq_iff s "Lax",
  eq_iff s "None",
  eq_iff "Strict" s,
  eq_iff "Lax" s,
  eq_iff "None" s,
)

site_lem : (v : Option Json) → same_site_ok v ≡ returned true → Allows IsSameSite v
unfolding same_site_ok
site_lem none h = inl refl
site_lem (some null) h = inr (inl refl)
site_lem (some (str s)) h = inr (
    inr (
      str s,
      refl,
      elim (one_of_sites s (ground arith)) [
        | inl e ↦ inl (ap str e)
        | inr (inl e) ↦ inr (inl (ap str e))
        | inr (inr e) ↦ inr (inr (ap str e))
      ],
    ))
site_lem (some (bool b)) h = absurd (ground arith)
site_lem (some (num n)) h = absurd (ground arith)
site_lem (some (arr l)) h = absurd (cc h)
site_lem (some (obj d)) h = absurd (cc h)

abbrev on_site : Outcome Bool → Bool → Bool → Outcome Bool
on_site o h e = elim o [
  | type_error ↦ type_error
  | returned same_site ↦ returned (same_site && h && e)
]

guards_lem :
    (t s : Bool) (o : Outcome Bool) (h e : Bool)
    → (if t && s then on_site o h e else returned false) ≡ returned true
    → (t ≡ true) × (s ≡ true) × (o ≡ returned true) × (h ≡ true) × (e ≡ true)
guards_lem true true (returned true) true true g = (refl, refl, refl, refl, refl)
guards_lem false s o h e g = absurd (cc g)
guards_lem true false o h e g = absurd (cc g)
guards_lem true true type_error h e g = absurd (cc g)
guards_lem true true (returned false) h e g = absurd (cc g)
guards_lem true true (returned true) false e g = absurd (cc g)
guards_lem true true (returned true) true false g = absurd (cc g)

-- The tests of a cookie that is valid.
cookie_lem :
    (cookie : Fields)
    → is_valid_cookie (obj cookie) ≡ returned true
    → (has_texts cookie ("name" ∷ "value" ∷ "domain" ∷ "path" ∷ []) ≡ true)
      × (is_bool (member cookie "secure") ≡ true)
      × (same_site_ok (member cookie "sameSite") ≡ returned true)
      × (is_absent_or is_bool_value (member cookie "httpOnly") ≡ true)
      × (is_absent_or is_number (member cookie "expires") ≡ true)
unfolding is_valid_cookie
cookie_lem cookie h = guards_lem _ _ (same_site_ok (member cookie "sameSite")) _ _ h

valid-IsCookie :
    (v : Json)
    → is_valid_cookie v ≡ returned true
    → (cookie : Fields) × (v ≡ obj cookie) × IsCookie cookie
unfolding has_texts is_valid_cookie
valid-IsCookie (obj cookie) h =
    let (texts, secure, site, http, expires) = cookie_lem cookie h in
    (
      cookie,
      refl,
      record {
        name = text_lem cookie "name" (ground (arith, texts));
        value = text_lem cookie "value" (ground (arith, texts));
        domain = text_lem cookie "domain" (ground (arith, texts));
        path = text_lem cookie "path" (ground (arith, texts));
        secure = secure_lem (member cookie "secure") secure;
        same_site = site_lem (member cookie "sameSite") site;
        http_only = bool_lem (member cookie "httpOnly") http;
        expires = number_lem (member cookie "expires") expires;
      },
    )
valid-IsCookie null h = absurd (cc h)
valid-IsCookie (bool b) h = absurd (cc h)
valid-IsCookie (num n) h = absurd (cc h)
valid-IsCookie (str s) h = absurd (cc h)
valid-IsCookie (arr l) h = absurd (cc h)

all_valid-AllCookies : (l : Items) → all_valid l ≡ returned true → AllCookies l
unfolding all_valid AllCookies
all_valid-AllCookies nil h = tt
all_valid-AllCookies (cons v l) h = by_cookie (is_valid_cookie v) refl (all_valid-AllCookies l)
  where
    by_cookie :
        (o : Outcome Bool)
        → is_valid_cookie v ≡ o
        → (all_valid l ≡ returned true → AllCookies l)
        → AllCookies (cons v l)
    by_cookie (returned true) e rest = (valid-IsCookie v e, rest (ground (arith, h, e)))
    by_cookie (returned false) e rest = absurd (ground (arith, h, e))
    by_cookie type_error e rest = absurd (ground (arith, h, e))

from_lem :
    (payload : Fields) (cookies : Items) (state : Fields)
    → has_state (from_cookies payload cookies) ≡ some state
    → (first : Json) × (more : Items) × (cookies ≡ cons first more)
      × AllCookies (cons first more)
      × (state ≡ storage_state_of (cons first more))
unfolding from_cookies
from_lem payload nil state h = absurd (ground (arith, h))
from_lem payload (cons first more) state h = (
  first,
  more,
  refl,
  all_valid-AllCookies (cons first more) (ground (arith, h)),
  ground (arith, h),
)

-- A payload gives a storage state only if it is an object whose `cookies` are a list that is not empty
-- and of cookies throughout: objects with a name, a value, a domain and a path, and with the other
-- attributes of a cookie of their kinds where they are there; and then the state holds exactly these cookies.
pub state_from_valid_cookies :
    (json : Json) (state : Fields)
    → has_state (cookies_payload_to_storage_state json) ≡ some state
    → (payload : Fields) × (json ≡ obj payload) × HasValidCookies payload state
unfolding cookies_payload_to_storage_state
state_from_valid_cookies (obj payload) state h =
    (payload, refl, member_lem payload (member payload "cookies") refl h)
  where
    member_lem :
        (payload : Fields) (v : Option Json)
        → member payload "cookies" ≡ v
        → has_state (from_member payload v) ≡ some state
        → HasValidCookies payload state
    member_lem payload (some (arr cookies)) at h =
        let (first, more, same, valid, is_state) = from_lem payload cookies state h in
        (first, more, at ∙ ap (λ l. some (arr l)) same, valid, is_state)
    member_lem payload none at h = absurd (ground (arith, h))
    member_lem payload (some null) at h = absurd (ground (arith, h))
    member_lem payload (some (bool b)) at h = absurd (ground (arith, h))
    member_lem payload (some (num n)) at h = absurd (ground (arith, h))
    member_lem payload (some (str s)) at h = absurd (ground (arith, h))
    member_lem payload (some (obj d)) at h = absurd (ground (arith, h))
state_from_valid_cookies null state h = absurd (ground (arith, h))
state_from_valid_cookies (bool b) state h = absurd (ground (arith, h))
state_from_valid_cookies (num n) state h = absurd (ground (arith, h))
state_from_valid_cookies (str s) state h = absurd (ground (arith, h))
state_from_valid_cookies (arr l) state h = absurd (ground (arith, h))
