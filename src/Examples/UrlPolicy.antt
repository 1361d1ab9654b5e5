-- ===== src/Examples/UrlPolicy.antt =====
-- A start URL whose host resolves to one public address.
use codex_browser.Prelude.{
  String, ◌≡◌, refl, true, none, some, [], ◌∷◌, ◌==◌, if◌then◌else◌, strip, rstrip_by, ends_with,
}
use codex_browser.Buyer.UrlPolicy.{
  SplitResult, PolicyLib, HostResolver, normalize_hostname, validate_start_url,
}
use codex_browser.Buyer.UrlPolicy.Public.{LeadsToPublic, IsHttp, IsOpenName, start_url_public}

abbrev policy_lib : PolicyLib
policy_lib = record {
  urlsplit = λ url. some (record {
    scheme = "https";
    hostname = some "shop.example";
    username = none;
    password = none;
    port = some none;
    path = "/";
    query = "";
    fragment = "";
  });
  lower = λ s. s;
  ip_address = λ s.
      if s == "93.184.216.34" then some (record { is_global = true; ipv4_mapped = none }) else none;
}

abbrev start_url : String
start_url = "https://shop.example/"

abbrev resolver : HostResolver
resolver = λ host. some ("93.184.216.34" ∷ [])

start_url_public_example :
    (parts : SplitResult) × (host : String) × IsHttp policy_lib start_url parts host
    × (start_url ≡ start_url)
    × IsOpenName policy_lib (normalize_hostname policy_lib host)
    × LeadsToPublic policy_lib resolver (normalize_hostname policy_lib host)
unfolding validate_start_url strip rstrip_by ends_with
start_url_public_example = start_url_public policy_lib resolver start_url start_url refl
