-- ===== src/Buyer/Payment.antt =====
-- buyer/app/payment_verifier.py: may a finished purchase be announced as ready for payment?
pub mod Laws
pub mod Verdict
use codex_browser.Prelude.{
  String, Bool, Option, none, some, List, [], ◌∷◌, ◌==◌, not, if◌then◌else◌, is_empty, strip,
  concat,
}
use codex_browser.Dict.{get}
use codex_browser.Json.{Fields, end, field, str, member, as_str}
use codex_browser.Buyer.Models.{AgentOutput, PaymentEvidence, source_text}
use codex_browser.Buyer.Domains.{
  UrlLib, ParsedUrl, text_or_empty, domain_from_url, is_domain_in_allowlist,
}

abbrev pub payecom_payment_host : String
payecom_payment_host = "payecom.ru"

abbrev pub yoomoney_payment_host : String
yoomoney_payment_host = "yoomoney.ru"

abbrev pub yoomoney_payment_path : String
yoomoney_payment_path = "/checkout/payments/v2/contract"

abbrev pub litres_domains : List String
litres_domains = "litres.ru" ∷ []

abbrev pub brandshop_domains : List String
brandshop_domains = "brandshop.ru" ∷ []

pub data PaymentVerificationStatus : Type 0 where
  accepted rejected unverified : PaymentVerificationStatus

pub record ProviderPaymentEvidence : Type 0 where
  pub provider : String
  pub host : String
  pub order_id : String
  pub url : String

pub record PaymentVerificationResult : Type 0 where
  pub status : PaymentVerificationStatus
  pub failure_reason : Option String
  pub order_id_host : Option String
  pub provider : Option String
  pub evidence_url : Option String

unfoldable pub accept : ProviderPaymentEvidence → PaymentVerificationResult
accept e = record {
  status = accepted;
  failure_reason = none;
  order_id_host = some e.host;
  provider = some e.provider;
  evidence_url = some e.url;
}

unfoldable pub reject : String → PaymentVerificationResult
reject reason = record {
  status = rejected;
  failure_reason = some reason;
  order_id_host = none;
  provider = none;
  evidence_url = none;
}

unfoldable pub leave_unverified : ProviderPaymentEvidence → String → PaymentVerificationResult
leave_unverified e reason = record {
  status = unverified;
  failure_reason = some reason;
  order_id_host = some e.host;
  provider = some e.provider;
  evidence_url = some e.url;
}

-- `str(result.order_id or '').strip()`
unfoldable pub top_order_id : AgentOutput → String
top_order_id result = strip (text_or_empty result.order_id)

-- `model_dump` of the evidence. The type of `AgentOutput.payment_evidence` leaves no plain dict.
unfoldable pub payment_evidence_to_dict : Option PaymentEvidence → Option Fields
payment_evidence_to_dict none = none
payment_evidence_to_dict (some e) =
    some (field "source" (str (source_text e.source)) (field "url" (str e.url) end))

-- `evidence.get('source') == wanted`
unfoldable pub has_source : Fields → String → Bool
has_source evidence wanted = text_or_empty (as_str (member evidence "source")) == wanted

-- `order_values[0].strip()` of a single value, `None` where there is no or more than one value,
-- or a blank one.
unfoldable pub single_order_id : Option (List String) → Option String
single_order_id (some (v ∷ [])) = if is_empty (strip v) then none else some (strip v)
single_order_id _ = none

module _ (L : UrlLib) where
  unfoldable pub is_litres_url : String → Bool
  is_litres_url raw_url = is_domain_in_allowlist L (domain_from_url L raw_url) litres_domains

  unfoldable pub is_brandshop_url : String → Bool
  is_brandshop_url raw_url = is_domain_in_allowlist L (domain_from_url L raw_url) brandshop_domains

  order_id_of_parsed : ParsedUrl → String → String → Option String
  order_id_of_parsed parsed host path =
      if not (parsed.scheme == "https")
      then none
      else if not (parsed.netloc == host)
      then none
      else if not (parsed.path == path)
      then none
      else if not (is_empty parsed.params)
      then none
      else single_order_id (get (L.parse_qs parsed.query) "orderId")

  unfoldable pub provider_order_id_from_url : String → String → String → Option String
  unfolding order_id_of_parsed
  provider_order_id_from_url raw_url host path = elim (L.urlparse raw_url) [
    | none ↦ none
    | some parsed ↦ order_id_of_parsed parsed host path
  ]

  unfoldable pub parse_payecom_payment_url : String → Option ProviderPaymentEvidence
  parse_payecom_payment_url raw_url =
      elim (provider_order_id_from_url raw_url payecom_payment_host "/pay_ru") [
        | none ↦ none
        | some order_id ↦ some (record {
          provider = "payecom";
          host = payecom_payment_host;
          order_id = order_id;
          url = raw_url;
        })
      ]

  unfoldable pub parse_yoomoney_payment_url : String → Option ProviderPaymentEvidence
  parse_yoomoney_payment_url raw_url =
      elim (provider_order_id_from_url raw_url yoomoney_payment_host yoomoney_payment_path) [
        | none ↦ none
        | some order_id ↦ some (record {
          provider = "yoomoney";
          host = yoomoney_payment_host;
          order_id = order_id;
          url = raw_url;
        })
      ]

  -- `evidence.get('url')`, parsed if it is a string.
  abbrev parse_evidence_url :
      (String → Option ProviderPaymentEvidence) → Fields → Option ProviderPaymentEvidence
  parse_evidence_url parse evidence = elim (as_str (member evidence "url")) [
    | none ↦ none
    | some url ↦ parse url
  ]

  -- `parsed is not None and parsed.order_id == order_id`
  abbrev matching : String → Option ProviderPaymentEvidence → Option ProviderPaymentEvidence
  matching order_id none = none
  matching order_id (some e) = if e.order_id == order_id then some e else none

  unfoldable pub litres_payment_evidence : AgentOutput → String → Option ProviderPaymentEvidence
  litres_payment_evidence result order_id =
      elim (payment_evidence_to_dict result.payment_evidence) [
        | none ↦ none
        | some evidence ↦
            if not (has_source evidence "litres_payecom_iframe")
            then none
            else matching order_id (parse_evidence_url parse_payecom_payment_url evidence)
      ]

  abbrev litres_decision : Option ProviderPaymentEvidence → PaymentVerificationResult
  litres_decision none =
      reject
        "Litres completed result rejected: order_id должен быть подтвержден payment_evidence из iframe https://payecom.ru/pay_ru?...orderId=..."
  litres_decision (some evidence) = accept evidence

  unfoldable pub verify_litres_payment : AgentOutput → PaymentVerificationResult
  unfolding accept reject
  verify_litres_payment result =
      let order_id = top_order_id result in
      if is_empty order_id
      then reject
          "Litres completed result rejected: order_id обязателен для подтвержденного шага SberPay."
      else litres_decision (litres_payment_evidence result order_id)

  abbrev brandshop_decision : Option ProviderPaymentEvidence → PaymentVerificationResult
  brandshop_decision none =
      reject
        "Brandshop completed result rejected: order_id должен совпадать с единственным непустым orderId из https://yoomoney.ru/checkout/payments/v2/contract?..."
  brandshop_decision (some evidence) = accept evidence

  abbrev wrong_brandshop_source : PaymentVerificationResult
  wrong_brandshop_source =
      reject
        "Brandshop completed result rejected: order_id должен быть подтвержден payment_evidence.source=brandshop_yoomoney_sberpay_redirect."

  brandshop_evidence : String → Option Fields → PaymentVerificationResult
  brandshop_evidence order_id none = wrong_brandshop_source
  brandshop_evidence order_id (some evidence) =
      if not (has_source evidence "brandshop_yoomoney_sberpay_redirect")
      then wrong_brandshop_source
      else brandshop_decision
          (matching order_id (parse_evidence_url parse_yoomoney_payment_url evidence))

  unfoldable pub verify_brandshop_payment : AgentOutput → PaymentVerificationResult
  unfolding accept reject brandshop_evidence
  verify_brandshop_payment result =
      let order_id = top_order_id result in
      if is_empty order_id
      then reject
          "Brandshop completed result rejected: order_id обязателен для подтвержденного шага SberPay."
      else brandshop_evidence order_id (payment_evidence_to_dict result.payment_evidence)

  -- `parse_payecom_payment_url(url) or parse_yoomoney_payment_url(url)`
  abbrev parse_any_provider : String → Option ProviderPaymentEvidence
  parse_any_provider url = elim (parse_payecom_payment_url url) [
    | some e ↦ some e
    | none ↦ parse_yoomoney_payment_url url
  ]

  unfoldable pub iter_provider_payment_evidence : AgentOutput → List ProviderPaymentEvidence
  iter_provider_payment_evidence result = elim (payment_evidence_to_dict result.payment_evidence) [
    | none ↦ []
    | some direct ↦ elim (parse_evidence_url parse_any_provider direct) [
      | none ↦ []
      | some parsed ↦ parsed ∷ []
    ]
  ]

  no_matching_evidence : String → PaymentVerificationResult
  no_matching_evidence domain = reject (
      concat "Completed result rejected: для домена " (
        concat domain
          " не поддерживается verifier SberPay; нет matching PayEcom/YooMoney payment_evidence для top-level order_id."))

  -- The loop over the provider evidence: the first entry with the order id of the result decides.
  unfoldable pub first_matching :
      String → String → List ProviderPaymentEvidence → PaymentVerificationResult
  unfolding leave_unverified no_matching_evidence
  first_matching domain order_id [] = no_matching_evidence domain
  first_matching domain order_id (e ∷ rest) =
      let next = first_matching domain order_id rest in
      if e.order_id == order_id
      then leave_unverified e (
          concat "Completed result unverified: для домена " (
            concat domain (
              concat " нет merchant verifier, но найден provider evidence "
                (concat e.provider " с совпадающим order_id."))))
      else next

  unfoldable pub verify_unknown_merchant_payment : AgentOutput → String → PaymentVerificationResult
  unfolding reject first_matching
  verify_unknown_merchant_payment result domain =
      let order_id = top_order_id result in
      if is_empty order_id
      then reject (
          concat "Completed result rejected: для домена "
            (concat domain " не поддерживается verifier SberPay, а order_id отсутствует."))
      else first_matching domain order_id (iter_provider_payment_evidence result)

  -- `domain_from_url(start_url) or '<unknown>'`
  abbrev merchant_domain : String → String
  merchant_domain start_url =
      if is_empty (domain_from_url L start_url) then "<unknown>" else domain_from_url L start_url

  unfoldable pub verify_completed_payment : String → AgentOutput → PaymentVerificationResult
  verify_completed_payment start_url result =
      if is_litres_url start_url
      then verify_litres_payment result
      else if is_brandshop_url start_url
      then verify_brandshop_payment result
      else verify_unknown_merchant_payment result (merchant_domain start_url)
