-- ===== src/Buyer/Payment/Laws.antt =====
-- What the payment verifier confirms: an independent description of a confirmed payment URL, and the
-- exact conditions under which a result is accepted, left unverified or rejected.
use codex_browser.Prelude.{
  String, ◌≡◌, ◌≢◌, inl, inr, refl, Bool, true, false, Option, none, some, List, [], ◌∷◌, arith,
  ◌==◌, eq_iff, is_empty, strip, Option-cases,
}
use codex_browser.Dict.{get}
use codex_browser.Json.{member}
use codex_browser.Buyer.Models.{
  AgentOutput, PaymentEvidence, EvidenceSource, litres_payecom_iframe,
  brandshop_yoomoney_sberpay_redirect, source_text,
}
use codex_browser.Buyer.Domains.{UrlLib, ParsedUrl}
use codex_browser.Buyer.Payment.{
  accepted, unverified, ProviderPaymentEvidence, payecom_payment_host, yoomoney_payment_host,
  yoomoney_payment_path, reject, top_order_id, payment_evidence_to_dict, has_source,
  single_order_id, order_id_of_parsed, provider_order_id_from_url, parse_payecom_payment_url,
  parse_yoomoney_payment_url, litres_payment_evidence, verify_litres_payment,
  verify_brandshop_payment, verify_unknown_merchant_payment, iter_provider_payment_evidence,
  first_matching,
}

-- A URL of the provider that carries exactly one order id, and that one is `order`.
pub record Confirms (L : UrlLib) (host path url order : String) : Type 0 where
  pub parsed : ParsedUrl
  pub parses : L.urlparse url ≡ some parsed
  pub is_https : parsed.scheme ≡ "https"
  pub at_host : parsed.netloc ≡ host
  pub at_path : parsed.path ≡ path
  pub no_params : is_empty parsed.params ≡ true
  pub raw : String
  pub single : get (L.parse_qs parsed.query) "orderId" ≡ some (raw ∷ [])
  pub stripped : strip raw ≡ order
  pub filled : is_empty order ≡ false

single_order_id-some :
    (o : Option (List String)) (order : String)
    → single_order_id o ≡ some order
    → (raw : String) × (o ≡ some (raw ∷ [])) × (strip raw ≡ order) × (is_empty order ≡ false)
unfolding single_order_id
single_order_id-some none order h = cc
single_order_id-some (some []) order h = cc
single_order_id-some (some (v ∷ [])) order h = (v, refl, ground arith, ground arith)
single_order_id-some (some (v ∷ w ∷ r)) order h = cc

module _ (L : UrlLib) (host path url order : String) where
  order_id_of_parsed-some :
      (p : ParsedUrl)
      → L.urlparse url ≡ some p
      → order_id_of_parsed L p host path ≡ some order
      → Confirms L host path url order
  unfolding order_id_of_parsed
  order_id_of_parsed-some p e h =
      let found : single_order_id (get (L.parse_qs p.query) "orderId") ≡ some order =
        ground arith in
      let (raw, one, s, f) =
        single_order_id-some (get (L.parse_qs p.query) "orderId") order found in
      record {
        parsed = p;
        parses = e;
        is_https = ground (arith, eq_iff p.scheme "https");
        at_host = ground (arith, eq_iff p.netloc host);
        at_path = ground (arith, eq_iff p.path path);
        no_params = ground arith;
        raw = raw;
        single = one;
        stripped = s;
        filled = f;
      }

  -- An order id is read from a URL only if the URL confirms it.
  pub provider_order_id-some :
      provider_order_id_from_url L url host path ≡ some order → Confirms L host path url order
  unfolding provider_order_id_from_url
  provider_order_id-some h = elim (Option-cases (L.urlparse url)) [
    | inl e ↦ absurd (ground arith)
    | inr (p, e) ↦ order_id_of_parsed-some p e (ground arith)
  ]

  -- A URL that confirms an order id has it read.
  pub provider_order_id-confirmed :
      Confirms L host path url order → provider_order_id_from_url L url host path ≡ some order
  unfolding provider_order_id_from_url single_order_id
  provider_order_id-confirmed c = ground (
    arith,
    eq_iff c.parsed.scheme "https",
    eq_iff c.parsed.netloc host,
    eq_iff c.parsed.path path,
  )

-- The result carries evidence of this source whose URL, at this provider, confirms its order id.
pub record Paid (L : UrlLib) (source : EvidenceSource) (host path : String) (result : AgentOutput)
    : Type 0 where
  pub evidence : PaymentEvidence
  pub given : result.payment_evidence ≡ some evidence
  pub sourced : evidence.source ≡ source
  pub confirmed : Confirms L host path evidence.url (top_order_id result)

-- The payment that the policy of the shop Litres asks for.
abbrev pub PaidAtLitres : UrlLib → AgentOutput → Type 0
PaidAtLitres L = Paid L litres_payecom_iframe payecom_payment_host "/pay_ru"

-- The payment that the policy of the shop Brandshop asks for.
abbrev pub PaidAtBrandshop : UrlLib → AgentOutput → Type 0
PaidAtBrandshop L =
    Paid L brandshop_yoomoney_sberpay_redirect yoomoney_payment_host yoomoney_payment_path

abbrev is_litres_source : EvidenceSource → Bool
is_litres_source litres_payecom_iframe = true
is_litres_source _ = false

source_is_litres :
    (s : EvidenceSource) → (source_text s == "litres_payecom_iframe") ≡ is_litres_source s
source_is_litres litres_payecom_iframe = refl
source_is_litres _ = refl

abbrev is_brandshop_source : EvidenceSource → Bool
is_brandshop_source brandshop_yoomoney_sberpay_redirect = true
is_brandshop_source _ = false

source_is_brandshop :
    (s : EvidenceSource)
    → (source_text s == "brandshop_yoomoney_sberpay_redirect") ≡ is_brandshop_source s
source_is_brandshop brandshop_yoomoney_sberpay_redirect = refl
source_is_brandshop _ = refl

module _ (L : UrlLib) (result : AgentOutput) where
  pub litres-accepted : (verify_litres_payment L result).status ≡ accepted → PaidAtLitres L result
  unfolding verify_litres_payment litres_payment_evidence payment_evidence_to_dict has_source member
      parse_payecom_payment_url
  litres-accepted h = elim (Option-cases result.payment_evidence) [
    | inl e ↦ absurd (ground arith)
    | inr (e, given) ↦
        elim (Option-cases (provider_order_id_from_url L e.url payecom_payment_host "/pay_ru")) [
          | inl no_order ↦ absurd (ground arith)
          | inr (order, found) ↦
              let same : order ≡ top_order_id result =
                ground (arith, eq_iff order (top_order_id result)) in
              record {
                evidence = e;
                given = given;
                sourced = ground (arith, source_is_litres e.source);
                confirmed = provider_order_id-some L _ _ _ _ (rw (← same) found);
              }
        ]
  ]

  pub litres-paid : PaidAtLitres L result → (verify_litres_payment L result).status ≡ accepted
  unfolding verify_litres_payment litres_payment_evidence payment_evidence_to_dict has_source member
      parse_payecom_payment_url
  litres-paid c = ground (
    arith,
    provider_order_id-confirmed L _ _ _ _ c.confirmed,
    eq_iff (top_order_id result) (top_order_id result),
    c.confirmed.filled,
    source_is_litres c.evidence.source,
  )

  pub brandshop-accepted :
      (verify_brandshop_payment L result).status ≡ accepted → PaidAtBrandshop L result
  unfolding verify_brandshop_payment payment_evidence_to_dict has_source member
      parse_yoomoney_payment_url
  brandshop-accepted h = elim (Option-cases result.payment_evidence) [
    | inl e ↦ absurd (ground arith)
    | inr (e, given) ↦
        elim (Option-cases
          (provider_order_id_from_url L e.url yoomoney_payment_host yoomoney_payment_path)) [
            | inl no_order ↦ absurd (ground arith)
            | inr (order, found) ↦
                let same : order ≡ top_order_id result =
                  ground (arith, eq_iff order (top_order_id result)) in
                record {
                  evidence = e;
                  given = given;
                  sourced = ground (arith, source_is_brandshop e.source);
                  confirmed = provider_order_id-some L _ _ _ _ (rw (← same) found);
                }
          ]
  ]

  pub brandshop-paid :
      PaidAtBrandshop L result → (verify_brandshop_payment L result).status ≡ accepted
  unfolding verify_brandshop_payment payment_evidence_to_dict has_source member
      parse_yoomoney_payment_url
  brandshop-paid c = ground (
    arith,
    provider_order_id-confirmed L _ _ _ _ c.confirmed,
    eq_iff (top_order_id result) (top_order_id result),
    c.confirmed.filled,
    source_is_brandshop c.evidence.source,
  )

  pub litres-ne-unverified : (verify_litres_payment L result).status ≢ unverified
  unfolding verify_litres_payment
  litres-ne-unverified h = ground arith

  pub brandshop-ne-unverified : (verify_brandshop_payment L result).status ≢ unverified
  unfolding verify_brandshop_payment
  brandshop-ne-unverified h = ground arith

  first_matching-ne-accepted :
      (domain order : String) (es : List ProviderPaymentEvidence)
      → (first_matching L domain order es).status ≢ accepted
  unfolding first_matching reject
  first_matching-ne-accepted domain order [] h = cc
  first_matching-ne-accepted domain order (e ∷ es) h =
      ground (arith, first_matching-ne-accepted domain order es)

  pub unknown-ne-accepted :
      (domain : String) → (verify_unknown_merchant_payment L result domain).status ≢ accepted
  unfolding verify_unknown_merchant_payment
  unknown-ne-accepted domain h = ground (
    arith,
    first_matching-ne-accepted domain (top_order_id result)
        (iter_provider_payment_evidence L result),
  )
