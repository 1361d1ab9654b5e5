-- ===== src/Buyer/UrlPolicy.antt =====
-- buyer/app/url_policy.py: which URLs the service may be sent to. `urlsplit`, `ip_address` and the
-- resolver are the parameter `PolicyLib`; a raised `UrlPolicyError`, or the
-- `ValueError` of `urlsplit`, is `none`, whatever its text.
pub mod Public
use Prim.Native.Char.{code}
use codex_browser.Prelude.{
  ℕ, String, Bool, true, false, not, Option, none, some, List, [], ◌∷◌, ◌==◌, ◌&&◌, ◌||◌,
  if◌then◌else◌, is_empty, is_some, one_of, any, all, nat_eq, strip, rstrip_by, ends_with,
}

-- `SplitResult`: the hostname is in lower case, as `urllib` gives it; a port out of range raises.
pub record SplitResult : Type 0 where
  pub scheme : String
  pub hostname : Option String
  pub username : Option String
  pub password : Option String
  pub port : Option (Option ℕ)
  pub path : String
  pub query : String
  pub fragment : String

-- An address by what the policy asks of it.
pub record IpAddress : Type 0 where
  pub is_global : Bool
  pub ipv4_mapped : Option Bool

pub record PolicyLib : Type 0 where
  pub urlsplit : String → Option SplitResult
  pub lower : String → String
  pub ip_address : String → Option IpAddress

-- `resolver(hostname)`, `none` for an `OSError`: the texts of the addresses.
abbrev pub HostResolver : Type 0
HostResolver = String → Option (List String)

abbrev pub dangerous_hosts : List String
dangerous_hosts =
    "localhost" ∷ "metadata" ∷ "metadata.google.internal" ∷ "host.docker.internal" ∷ []

abbrev pub dangerous_host_suffixes : List String
dangerous_host_suffixes =
    ".localhost" ∷ ".local" ∷ ".localdomain" ∷ ".internal" ∷ ".lan" ∷ ".home" ∷ ".corp" ∷ ".docker"
    ∷ []

-- `'.' in hostname`
unfoldable pub has_dot : String → Bool
has_dot String.[] = false
has_dot (String.◌∷◌ c s) = nat_eq (code c) 46 || has_dot s

abbrev pub text_or_empty : Option String → String
text_or_empty none = ""
text_or_empty (some s) = s

-- `_ensure_public_ip`: an IPv4 address mapped into IPv6 is judged as itself.
unfoldable pub is_public_ip : IpAddress → Bool
is_public_ip address = elim address.ipv4_mapped [
  | some mapped_is_global ↦ mapped_is_global
  | none ↦ address.is_global
]

abbrev pub is_blank_or_no : Option String → Bool
is_blank_or_no none = true
is_blank_or_no (some s) = is_empty s

-- `_ensure_no_query_or_fragment`
unfoldable pub has_no_query_or_fragment : SplitResult → Bool
has_no_query_or_fragment parts = is_empty parts.query && is_empty parts.fragment

module _ (L : PolicyLib) where
  unfoldable pub normalize_hostname : String → String
  normalize_hostname hostname = L.lower (rstrip_by (λ c. nat_eq c 46) hostname)

  -- `_parse_http_url`, after `urlsplit`.
  unfoldable pub is_http_url : SplitResult → Bool
  is_http_url parts =
      one_of (L.lower parts.scheme) ("http" ∷ "https" ∷ [])
      && not (is_blank_or_no parts.hostname)
      && not (is_some parts.username || is_some parts.password)
      && is_some parts.port

  unfoldable pub parse_http_url : String → Option SplitResult
  unfolding is_http_url
  parse_http_url url =
      if is_empty url
      then none
      else if not (url == strip url)
      then none
      else elim (L.urlsplit url) [
        | none ↦ none
        | some parts ↦ if is_http_url parts then some parts else none
      ]

  unfoldable pub is_dangerous_hostname : String → Bool
  unfolding has_dot
  is_dangerous_hostname hostname =
      if one_of hostname dangerous_hosts
      then true
      else if any (ends_with hostname) dangerous_host_suffixes
      then true
      else not (has_dot hostname) && not (is_some (L.ip_address hostname))

  -- One answer of the resolver is an address, and a public one.
  unfoldable pub is_public_text : String → Bool
  unfolding is_public_ip
  is_public_text text = elim (L.ip_address text) [
    | none ↦ false
    | some address ↦ is_public_ip address
  ]

  -- `_resolved_ip_addresses` and the check of each address.
  unfoldable pub resolves_to_public : HostResolver → String → Bool
  unfolding is_public_text
  resolves_to_public resolver host = elim (resolver host) [
    | none ↦ false
    | some [] ↦ false
    | some (text ∷ texts) ↦ all is_public_text (text ∷ texts)
  ]

  -- `_ensure_public_host`
  unfoldable pub is_public_host : HostResolver → String → Bool
  unfolding normalize_hostname is_dangerous_hostname is_public_ip resolves_to_public
  is_public_host resolver hostname =
      let host = normalize_hostname hostname in
      if is_empty host
      then false
      else if is_dangerous_hostname host
      then false
      else elim (L.ip_address host) [
        | some address ↦ is_public_ip address
        | none ↦ resolves_to_public resolver host
      ]

  unfoldable pub validate_start_url : HostResolver → String → Option String
  unfolding parse_http_url is_public_host
  validate_start_url resolver url = elim (parse_http_url url) [
    | none ↦ none
    | some parts ↦ if is_public_host resolver (text_or_empty parts.hostname) then some url else none
  ]

  -- `_normalized_port` of a URL whose port was checked.
  unfoldable pub normalized_port : SplitResult → ℕ
  normalized_port parts = elim parts.port [
    | some (some port) ↦ port
    | _ ↦ if L.lower parts.scheme == "https" then 443 else 80
  ]

  -- `_trusted_callback_key(a) == _trusted_callback_key(b)`
  unfoldable pub same_callback_key : SplitResult → SplitResult → Bool
  unfolding normalize_hostname normalized_port
  same_callback_key a b =
      (L.lower a.scheme == L.lower b.scheme)
      && (normalize_hostname (text_or_empty a.hostname)
          == normalize_hostname (text_or_empty b.hostname))
      && nat_eq (normalized_port a) (normalized_port b)
      && (path_or_root a.path == path_or_root b.path)
    where
      path_or_root : String → String
      path_or_root path = if is_empty path then "/" else path

  -- `_is_trusted_callback_url` over the values that are left, `none` where one of them is refused.
  unfoldable pub is_trusted_callback_url : SplitResult → List String → Option Bool
  unfolding parse_http_url has_no_query_or_fragment same_callback_key
  is_trusted_callback_url parts [] = some false
  is_trusted_callback_url parts (raw_url ∷ raw_urls) =
      let rest = is_trusted_callback_url parts raw_urls in
      if is_empty raw_url then rest else elim (parse_http_url raw_url) [
        | none ↦ none
        | some trusted ↦
            if not (has_no_query_or_fragment trusted)
            then none
            else if same_callback_key parts trusted
            then some true
            else rest
      ]

  -- A callback that is not trusted is public and over https.
  unfoldable pub public_callback : HostResolver → String → SplitResult → Option String
  unfolding is_public_host
  public_callback resolver url parts =
      if not (L.lower parts.scheme == "https")
      then none
      else if is_public_host resolver (text_or_empty parts.hostname)
      then some url
      else none

  unfoldable pub validate_callback_url :
      HostResolver → String → List String → String → Option String
  unfolding parse_http_url is_trusted_callback_url has_no_query_or_fragment public_callback
  validate_callback_url resolver default_callback_url trusted_callback_urls url =
      elim (parse_http_url url) [
        | none ↦ none
        | some parts ↦
            if not (has_no_query_or_fragment parts)
            then none
            else elim (is_trusted_callback_url parts
                (default_callback_url ∷ trusted_callback_urls)) [
                  | none ↦ none
                  | some trusted ↦ if trusted then some url else public_callback resolver url parts
                ]
      ]
