-- ===== src/Buyer/Sanitize.antt =====
-- buyer/app/persistence.py: what is kept of nested data before it is stored: `_sanitize` and the rules
-- of its two callers. `str.lower` is an argument.
pub mod Clean
use codex_browser.Prelude.{
  ℕ, zero, suc, String, Bool, not, ◌||◌, ◌&&◌, List, [], ◌∷◌, if◌then◌else◌, ltb, nat_eq, any,
  one_of, contains, keep_chars,
}
use codex_browser.Json.{Json, null, bool, num, str, arr, obj, Items, nil, cons, Fields, end, field}

abbrev pub auth_context_blocked : List String
auth_context_blocked =
    "storagestate" ∷ "storagestatepath" ∷ "cookies" ∷ "cookie" ∷ "origins" ∷ "localstorage"
    ∷ "authorization" ∷ []

abbrev pub auth_context_markers : List String
auth_context_markers = "token" ∷ "secret" ∷ "password" ∷ "apikey" ∷ "authorizationcode" ∷ []

abbrev pub persistent_metadata_blocked : List String
persistent_metadata_blocked =
    "storagestate" ∷ "storagestatepath" ∷ "cookies" ∷ "cookie" ∷ "origins" ∷ "localstorage"
    ∷ "authorization" ∷ "stdout" ∷ "stdouttail" ∷ "stderr" ∷ "stderrtail" ∷ "promptpreview" ∷ []

abbrev pub persistent_metadata_markers : List String
persistent_metadata_markers =
    "token" ∷ "secret" ∷ "password" ∷ "apikey" ∷ "authorizationcode" ∷ "stdout" ∷ "stderr" ∷ []

-- `_normalized_sensitive_key`: without `_`, `-` and spaces, in lower case.
unfoldable pub normalized_sensitive_key : (String → String) → String → String
normalized_sensitive_key lower key =
    lower (keep_chars (λ c. not (nat_eq c 95 || nat_eq c 45 || nat_eq c 32)) key)

unfoldable pub is_blocked_key : (String → String) → List String → List String → String → Bool
unfolding normalized_sensitive_key
is_blocked_key lower blocked_keys blocked_markers key =
    let compact = normalized_sensitive_key lower key in
    one_of compact blocked_keys || any (contains compact) blocked_markers

abbrev pub truncated : Json
truncated = str "[truncated]"

-- `_sanitize` of a value, of the first entries of a list (how many are still taken is counted down)
-- and of the items of an object.
module _ (is_blocked : String → Bool) where
  unfoldable mutual
    pub sanitize : ℕ → Json → Json
    sanitize depth (obj d) =
        let kept = sanitize_fields depth d in if ltb 8 depth then truncated else obj kept
    sanitize depth (arr l) =
        let kept = sanitize_items 100 depth l in if ltb 8 depth then truncated else arr kept
    sanitize depth null = if ltb 8 depth then truncated else null
    sanitize depth (bool b) = if ltb 8 depth then truncated else bool b
    sanitize depth (num n) = if ltb 8 depth then truncated else num n
    sanitize depth (str s) = if ltb 8 depth then truncated else str s

    pub sanitize_items : ℕ → ℕ → Items → Items
    sanitize_items count depth nil = nil
    sanitize_items zero depth (cons v l) = nil
    sanitize_items (suc count) depth (cons v l) =
        cons (sanitize (suc depth) v) (sanitize_items count depth l)

    pub sanitize_fields : ℕ → Fields → Fields
    sanitize_fields depth end = end
    sanitize_fields depth (field key v d) =
        let rest = sanitize_fields depth d in
        let kept = sanitize (suc depth) v in if is_blocked key then rest else field key kept rest

unfoldable pub sanitize_auth_context : (String → String) → Json → Json
unfolding is_blocked_key
sanitize_auth_context lower =
    sanitize (is_blocked_key lower auth_context_blocked auth_context_markers) 0

unfoldable pub sanitize_persistent_metadata : (String → String) → Json → Json
unfolding is_blocked_key
sanitize_persistent_metadata lower =
    sanitize (is_blocked_key lower persistent_metadata_blocked persistent_metadata_markers) 0

abbrev pub object_or_empty : Json → Fields
object_or_empty (obj d) = d
object_or_empty _ = end

-- `_serialize_event_payload_for_storage`, and `_sanitize_auth_summary_for_runtime` of service.py.
unfoldable pub sanitize_object : (String → String) → Fields → Fields
unfolding sanitize_persistent_metadata
sanitize_object lower d = object_or_empty (sanitize_persistent_metadata lower (obj d))
