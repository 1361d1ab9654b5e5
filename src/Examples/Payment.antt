-- ===== src/Examples/Payment.antt =====
-- The payment verifier at a Litres order and at a shop without a policy.
use codex_browser.Prelude.{
  strip, ends_with, drop_chars, String, ◌≡◌, ◌↔◌, ◌⊎◌, ◌≢◌, refl, none, some, [], ◌∷◌, ◌==◌, false,
  if◌then◌else◌,
}
use codex_browser.Dict.{get}
use codex_browser.Json.{end, member}
use codex_browser.Buyer.Models.{AgentOutput, PaymentEvidence, litres_payecom_iframe}
use codex_browser.Buyer.Domains.{
  UrlLib, ParsedUrl, normalize_domain, domain_from_url, is_domain_in_allowlist,
}
use codex_browser.Buyer.Payment.{
  accepted, rejected, unverified, is_litres_url, is_brandshop_url, verify_completed_payment,
  verify_litres_payment, top_order_id, litres_payment_evidence, payment_evidence_to_dict,
  has_source, parse_payecom_payment_url, provider_order_id_from_url, single_order_id,
  verify_unknown_merchant_payment, first_matching, iter_provider_payment_evidence, leave_unverified,
}
use codex_browser.Buyer.Payment.Verdict.{
  MeetsPolicy, HasProviderEvidence, accepted_iff, unverified_iff, verdict_host, Announces,
  NamesNone,
}

abbrev url_of : String → String → String → ParsedUrl
url_of host path query = record {
  scheme = "https";
  netloc = host;
  hostname = some host;
  path = path;
  params = "";
  query = query;
}

-- A URL parser that knows three URLs.
abbrev pub lib : UrlLib
lib = record {
  urlparse = λ url.
      if url == "https://www.litres.ru/"
      then some (url_of "www.litres.ru" "/" "")
      else if url == "https://shop.example/"
      then some (url_of "shop.example" "/" "")
      else if url == "https://payecom.ru/pay_ru?orderId=77"
      then some (url_of "payecom.ru" "/pay_ru" "orderId=77")
      else none;
  parse_qs = λ query. if query == "orderId=77" then ("orderId", "77" ∷ []) ∷ [] else [];
  lower = λ s. s;
}

abbrev pub paid : AgentOutput
paid = record {
  status = "completed";
  message = "ok";
  order_id = some " 77 ";
  payment_evidence =
      some
        (record { source = litres_payecom_iframe; url = "https://payecom.ru/pay_ru?orderId=77" });
  profile_updates = [];
  artifacts = end;
}

litres_run : (verify_completed_payment lib "https://www.litres.ru/" paid).status ≡ accepted
unfolding verify_completed_payment is_litres_url is_domain_in_allowlist domain_from_url
    normalize_domain strip ends_with drop_chars verify_litres_payment top_order_id
    litres_payment_evidence payment_evidence_to_dict has_source member parse_payecom_payment_url
    provider_order_id_from_url single_order_id get
litres_run = refl

unknown_run : (verify_completed_payment lib "https://shop.example/" paid).status ≡ unverified
unfolding verify_completed_payment is_litres_url is_brandshop_url is_domain_in_allowlist
    domain_from_url normalize_domain strip ends_with drop_chars verify_unknown_merchant_payment
    top_order_id first_matching iter_provider_payment_evidence payment_evidence_to_dict member
    parse_payecom_payment_url provider_order_id_from_url single_order_id get leave_unverified
unknown_run = refl

accepted_iff_example :
    ((verify_completed_payment lib "https://www.litres.ru/" paid).status ≡ accepted)
    ↔ MeetsPolicy lib "https://www.litres.ru/" paid
accepted_iff_example = accepted_iff lib "https://www.litres.ru/" paid

unverified_iff_example :
    (((verify_completed_payment lib "https://shop.example/" paid).status ≡ unverified) ↔ (
      (is_litres_url lib "https://shop.example/" ≡ false)
      × (is_brandshop_url lib "https://shop.example/" ≡ false)
      × HasProviderEvidence lib paid))
    × (is_litres_url lib "https://shop.example/" ≡ false
        → is_brandshop_url lib "https://shop.example/" ≡ false
        → (HasProviderEvidence lib paid → ⊥)
        → (verify_completed_payment lib "https://shop.example/" paid).status ≡ rejected)
unverified_iff_example = unverified_iff lib "https://shop.example/" paid

verdict_host_example :
    let verdict = verify_completed_payment lib "https://shop.example/" paid in
    ((e : PaymentEvidence) × (paid.payment_evidence ≡ some e)
      × (verdict.status ≢ rejected)
      × Announces lib paid e verdict
      × (verdict.evidence_url ≡ some e.url))
    ⊎ NamesNone verdict
verdict_host_example = verdict_host lib "https://shop.example/" paid
