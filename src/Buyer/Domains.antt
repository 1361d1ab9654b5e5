-- ===== src/Buyer/Domains.antt =====
-- buyer/app/auth_scripts.py: domains and the allowlist. The URL parser of Python's standard library
-- and its case mapping are a parameter, `UrlLib`.
use codex_browser.Prelude.{
  String, Bool, true, false, Option, none, some, List, if◌then◌else◌, any, is_empty, one_of, strip,
  ends_with, concat, drop_chars, starts_with,
}
use codex_browser.Dict.{Dict}

-- What `urllib.parse.urlparse` returns, as far as it is read.
pub record ParsedUrl : Type 0 where
  pub scheme : String
  pub netloc : String
  pub hostname : Option String
  pub path : String
  pub params : String
  pub query : String

-- `urlparse` is `none` where it raises; `parse_qs` keeps blank values; `lower` is `str.lower`.
pub record UrlLib : Type 0 where
  pub urlparse : String → Option ParsedUrl
  pub parse_qs : String → Dict (List String)
  pub lower : String → String

abbrev pub text_or_empty : Option String → String
text_or_empty none = ""
text_or_empty (some s) = s

module _ (L : UrlLib) where
  unfoldable pub normalize_domain : String → String
  normalize_domain value =
      let text = L.lower (strip value) in
      if starts_with text "www." then drop_chars 4 text else text

  unfoldable pub domain_from_url : String → String
  domain_from_url raw_url = elim (L.urlparse raw_url) [
    | none ↦ ""
    | some parsed ↦ normalize_domain (text_or_empty parsed.hostname)
  ]

  unfoldable pub is_domain_in_allowlist : String → List String → Bool
  is_domain_in_allowlist domain allowlist =
      let target = normalize_domain domain in
      if is_empty target
      then false
      else if one_of target allowlist
      then true
      else any (λ item. ends_with target (concat "." item)) allowlist
