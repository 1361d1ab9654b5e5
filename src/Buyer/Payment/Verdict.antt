-- ===== src/Buyer/Payment/Verdict.antt =====
-- The three verdicts of `verify_completed_payment`, each with the exact condition for it.
use codex_browser.Prelude.{
  String, ◌≡◌, ◌≢◌, ◌↔◌, ◌⊎◌, inl, inr, true, false, none, some, arith, eq_iff, Bool-cases, ◌==◌,
  Option-cases, refl, sym, ◌∙◌,
}
use codex_browser.Json.{member}
use codex_browser.Buyer.Models.{AgentOutput, PaymentEvidence}
use codex_browser.Buyer.Domains.{UrlLib}
use codex_browser.Buyer.Payment.{
  PaymentVerificationStatus, accepted, rejected, unverified, PaymentVerificationResult,
  payecom_payment_host, yoomoney_payment_host, yoomoney_payment_path, leave_unverified,
  top_order_id, payment_evidence_to_dict, is_litres_url, is_brandshop_url,
  provider_order_id_from_url, parse_payecom_payment_url, parse_yoomoney_payment_url,
  merchant_domain, verify_litres_payment, verify_brandshop_payment, verify_unknown_merchant_payment,
  iter_provider_payment_evidence, litres_payment_evidence, verify_completed_payment,
}
use codex_browser.Buyer.Payment.Laws.{
  Confirms, provider_order_id-some, provider_order_id-confirmed, PaidAtLitres, PaidAtBrandshop,
  litres-accepted, litres-paid, brandshop-accepted, brandshop-paid, litres-ne-unverified,
  brandshop-ne-unverified, unknown-ne-accepted,
}

-- The shop has a policy of its own, and the payment meets it.
abbrev pub MeetsPolicy : UrlLib → String → AgentOutput → Type 0
MeetsPolicy L start_url result =
    ((is_litres_url L start_url ≡ true) × PaidAtLitres L result)
    ⊎ ((is_litres_url L start_url ≡ false)
        × (is_brandshop_url L start_url ≡ true)
        × PaidAtBrandshop L result)

-- The evidence of the result, of whatever source, is a payment URL of a known provider for its order.
abbrev pub HasProviderEvidence : UrlLib → AgentOutput → Type 0
HasProviderEvidence L result =
    (e : PaymentEvidence) × (result.payment_evidence ≡ some e)
    × (Confirms L payecom_payment_host "/pay_ru" e.url (top_order_id result)
        ⊎ Confirms L yoomoney_payment_host yoomoney_payment_path e.url (top_order_id result))

module _ (L : UrlLib) (start_url : String) (result : AgentOutput) where
  -- A completed result is accepted exactly when the start URL is of Litres and the result has PayEcom
  -- evidence for its order id, or the start URL is of Brandshop (and not of Litres) and the result
  -- has YooMoney evidence for its order id; evidence means the right source, and an https URL at the
  -- provider's host and path with exactly one order id, which is not blank and is that of the result.
  pub accepted_iff :
      ((verify_completed_payment L start_url result).status ≡ accepted)
      ↔ MeetsPolicy L start_url result
  unfolding verify_completed_payment
  accepted_iff = (there, back)
    where
      there :
          (verify_completed_payment L start_url result).status ≡ accepted
          → MeetsPolicy L start_url result
      there h = elim (Bool-cases (is_litres_url L start_url)) [
        | inl l ↦ inl (l, litres-accepted L result (ground arith))
        | inr l ↦ elim (Bool-cases (is_brandshop_url L start_url)) [
          | inl b ↦ inr (l, b, brandshop-accepted L result (ground arith))
          | inr b ↦
              absurd (unknown-ne-accepted L result (merchant_domain L start_url) (ground arith))
        ]
      ]

      back :
          MeetsPolicy L start_url result
          → (verify_completed_payment L start_url result).status ≡ accepted
      back (inl (l, p)) = rw l (litres-paid L result p)
      back (inr (l, b, p)) = rw (l, b) (brandshop-paid L result p)

one_of_three :
    (status : PaymentVerificationStatus)
    → status ≢ accepted
    → status ≢ unverified
    → status ≡ rejected
one_of_three accepted a u = absurd (a refl)
one_of_three rejected a u = refl
one_of_three unverified a u = absurd (u refl)

-- One URL is not a payment URL of both providers.
one_provider :
    (L : UrlLib) (url o₁ o₂ : String)
    → Confirms L payecom_payment_host "/pay_ru" url o₁
    → Confirms L yoomoney_payment_host yoomoney_payment_path url o₂
    → ⊥
one_provider L url o₁ o₂ a b =
    let same : some a.parsed ≡ some b.parsed = sym a.parses ∙ b.parses in
    let hosts : payecom_payment_host ≡ yoomoney_payment_host = cc (a.at_host, b.at_host, same) in
    ground (arith, eq_iff payecom_payment_host yoomoney_payment_host)

module _ (L : UrlLib) (result : AgentOutput) (domain : String) where
  unknown-unverified :
      (verify_unknown_merchant_payment L result domain).status ≡ unverified
      → HasProviderEvidence L result
  unfolding verify_unknown_merchant_payment leave_unverified iter_provider_payment_evidence member
      payment_evidence_to_dict parse_payecom_payment_url parse_yoomoney_payment_url
  unknown-unverified h = elim (Option-cases result.payment_evidence) [
    | inl e ↦ absurd (ground arith)
    | inr (e, given) ↦
        elim (Option-cases (provider_order_id_from_url L e.url payecom_payment_host "/pay_ru")) [
          | inr (order, found) ↦
              let same : order ≡ top_order_id result =
                ground (arith, eq_iff order (top_order_id result)) in
              (e, given, inl (provider_order_id-some L _ _ _ _ (rw (← same) found)))
          | inl no_payecom ↦
              elim (Option-cases
                (provider_order_id_from_url L e.url yoomoney_payment_host yoomoney_payment_path)) [
                  | inr (order, found) ↦
                      let same : order ≡ top_order_id result =
                        ground (arith, eq_iff order (top_order_id result)) in
                      (e, given, inr (provider_order_id-some L _ _ _ _ (rw (← same) found)))
                  | inl no_yoomoney ↦ absurd (ground arith)
                ]
        ]
  ]

  unknown-evidence :
      HasProviderEvidence L result
      → (verify_unknown_merchant_payment L result domain).status ≡ unverified
  unfolding verify_unknown_merchant_payment leave_unverified iter_provider_payment_evidence member
      payment_evidence_to_dict parse_payecom_payment_url parse_yoomoney_payment_url
  unknown-evidence (e, given, inl c) = ground (
    arith,
    provider_order_id-confirmed L _ _ _ _ c,
    eq_iff (top_order_id result) (top_order_id result),
    c.filled,
  )
  unknown-evidence (e, given, inr c) =
      elim (Option-cases (provider_order_id_from_url L e.url payecom_payment_host "/pay_ru")) [
        | inr (order, found) ↦
            absurd (one_provider L _ _ _ (provider_order_id-some L _ _ _ _ found) c)
        | inl no_payecom ↦ ground (
          arith,
          provider_order_id-confirmed L _ _ _ _ c,
          eq_iff (top_order_id result) (top_order_id result),
          c.filled,
        )
      ]

module _ (L : UrlLib) (start_url : String) (result : AgentOutput) where
  -- A completed result is left unverified exactly when the shop has no policy and the evidence of
  -- the result is a PayEcom or YooMoney payment URL for its order id: no shop with a policy is ever
  -- left unverified. Where the shop has no policy and the result no such evidence, it is rejected.
  pub unverified_iff :
      (((verify_completed_payment L start_url result).status ≡ unverified) ↔ (
        (is_litres_url L start_url ≡ false)
        × (is_brandshop_url L start_url ≡ false)
        × HasProviderEvidence L result))
      × (is_litres_url L start_url ≡ false
          → is_brandshop_url L start_url ≡ false
          → (HasProviderEvidence L result → ⊥)
          → (verify_completed_payment L start_url result).status ≡ rejected)
  unfolding verify_completed_payment
  unverified_iff = ((there, back), otherwise)
    where
      otherwise :
          is_litres_url L start_url ≡ false
          → is_brandshop_url L start_url ≡ false
          → (HasProviderEvidence L result → ⊥)
          → (verify_completed_payment L start_url result).status ≡ rejected
      otherwise l b without =
          rw (l, b)
            (one_of_three
              (verify_unknown_merchant_payment L result (merchant_domain L start_url)).status
              (unknown-ne-accepted L result (merchant_domain L start_url))
              λ h. without (unknown-unverified L result (merchant_domain L start_url) h))

      there :
          (verify_completed_payment L start_url result).status ≡ unverified
          → (is_litres_url L start_url ≡ false)
            × (is_brandshop_url L start_url ≡ false)
            × HasProviderEvidence L result
      there h = elim (Bool-cases (is_litres_url L start_url)) [
        | inl l ↦ absurd (litres-ne-unverified L result (ground arith))
        | inr l ↦ elim (Bool-cases (is_brandshop_url L start_url)) [
          | inl b ↦ absurd (brandshop-ne-unverified L result (ground arith))
          | inr b ↦ (l, b, unknown-unverified L result (merchant_domain L start_url) (ground arith))
        ]
      ]

      back :
          (is_litres_url L start_url ≡ false)
            × (is_brandshop_url L start_url ≡ false)
            × HasProviderEvidence L result
          → (verify_completed_payment L start_url result).status ≡ unverified
      back (l, b, p) = rw (l, b) (unknown-evidence L result (merchant_domain L start_url) p)

-- A verdict that is no rejection names the provider at which the URL of the evidence confirms the order.
abbrev pub Announces : UrlLib → AgentOutput → PaymentEvidence → PaymentVerificationResult → Type 0
Announces L result e verdict =
    ((verdict.order_id_host ≡ some payecom_payment_host)
      × (verdict.provider ≡ some "payecom")
      × Confirms L payecom_payment_host "/pay_ru" e.url (top_order_id result))
    ⊎ ((verdict.order_id_host ≡ some yoomoney_payment_host)
        × (verdict.provider ≡ some "yoomoney")
        × Confirms L yoomoney_payment_host yoomoney_payment_path e.url (top_order_id result))

abbrev pub NamesNone : PaymentVerificationResult → Type 0
NamesNone verdict =
    (verdict.status ≡ rejected)
    × (verdict.order_id_host ≡ none)
    × (verdict.evidence_url ≡ none)
    × (verdict.failure_reason ≢ none)

abbrev Hosted : UrlLib → AgentOutput → PaymentEvidence → PaymentVerificationResult → Type 0
Hosted L result e verdict =
    ((verdict.status ≢ rejected)
      × Announces L result e verdict
      × (verdict.evidence_url ≡ some e.url))
    ⊎ NamesNone verdict

module _ (L : UrlLib) (result : AgentOutput) {e : PaymentEvidence}
    (given : result.payment_evidence ≡ some e) where
  litres-Hosted : Hosted L result e (verify_litres_payment L result)
  unfolding verify_litres_payment litres_payment_evidence member payment_evidence_to_dict
      parse_payecom_payment_url
  litres-Hosted =
      elim (Option-cases (provider_order_id_from_url L e.url payecom_payment_host "/pay_ru")) [
        | inl no_order ↦ ground arith
        | inr (order, found) ↦ elim (Bool-cases (order == top_order_id result)) [
          | inr differs ↦ ground arith
          | inl same ↦
              let same' : order ≡ top_order_id result =
                ground (arith, eq_iff order (top_order_id result)) in
              let confirmed : Confirms L payecom_payment_host "/pay_ru" e.url
                  (top_order_id result) =
                provider_order_id-some L _ _ _ _ (rw (← same') found) in
              ground (arith, confirmed)
        ]
      ]

  brandshop-Hosted : Hosted L result e (verify_brandshop_payment L result)
  unfolding verify_brandshop_payment member payment_evidence_to_dict parse_yoomoney_payment_url
  brandshop-Hosted =
      elim (Option-cases
        (provider_order_id_from_url L e.url yoomoney_payment_host yoomoney_payment_path)) [
          | inl no_order ↦ ground arith
          | inr (order, found) ↦ elim (Bool-cases (order == top_order_id result)) [
            | inr differs ↦ ground arith
            | inl same ↦
                let same' : order ≡ top_order_id result =
                  ground (arith, eq_iff order (top_order_id result)) in
                let confirmed : Confirms L yoomoney_payment_host yoomoney_payment_path e.url
                    (top_order_id result) =
                  provider_order_id-some L _ _ _ _ (rw (← same') found) in
                ground (arith, confirmed)
          ]
        ]

  unknown-Hosted :
      (domain : String) → Hosted L result e (verify_unknown_merchant_payment L result domain)
  unfolding verify_unknown_merchant_payment leave_unverified iter_provider_payment_evidence member
      payment_evidence_to_dict parse_payecom_payment_url parse_yoomoney_payment_url
  unknown-Hosted domain =
      elim (Option-cases (provider_order_id_from_url L e.url payecom_payment_host "/pay_ru")) [
        | inr (order, found) ↦ elim (Bool-cases (order == top_order_id result)) [
          | inr differs ↦ ground arith
          | inl same ↦
              let same' : order ≡ top_order_id result =
                ground (arith, eq_iff order (top_order_id result)) in
              let confirmed : Confirms L payecom_payment_host "/pay_ru" e.url
                  (top_order_id result) =
                provider_order_id-some L _ _ _ _ (rw (← same') found) in
              ground (arith, confirmed)
        ]
        | inl no_payecom ↦
            elim (Option-cases
              (provider_order_id_from_url L e.url yoomoney_payment_host yoomoney_payment_path)) [
                | inl no_order ↦ ground arith
                | inr (order, found) ↦ elim (Bool-cases (order == top_order_id result)) [
                  | inr differs ↦ ground arith
                  | inl same ↦
                      let same' : order ≡ top_order_id result =
                        ground (arith, eq_iff order (top_order_id result)) in
                      let confirmed : Confirms L yoomoney_payment_host yoomoney_payment_path e.url
                          (top_order_id result) =
                        provider_order_id-some L _ _ _ _ (rw (← same') found) in
                      ground (arith, confirmed)
                ]
              ]
      ]

  verdict-Hosted :
      (start_url : String) → Hosted L result e (verify_completed_payment L start_url result)
  unfolding verify_completed_payment
  verdict-Hosted start_url = elim (Bool-cases (is_litres_url L start_url)) [
    | inl l ↦ rw l litres-Hosted
    | inr l ↦ elim (Bool-cases (is_brandshop_url L start_url)) [
      | inl b ↦ rw (l, b) brandshop-Hosted
      | inr b ↦ rw (l, b) (unknown-Hosted (merchant_domain L start_url))
    ]
  ]

module _ (L : UrlLib) (start_url : String) (result : AgentOutput) where
  without_evidence :
      result.payment_evidence ≡ none → NamesNone (verify_completed_payment L start_url result)
  unfolding verify_completed_payment verify_litres_payment litres_payment_evidence
      verify_brandshop_payment verify_unknown_merchant_payment iter_provider_payment_evidence
      payment_evidence_to_dict
  without_evidence given = ground arith

  -- The host that the events announce: a verdict that is no rejection names the URL of the evidence that
  -- the result carries and the provider, PayEcom or YooMoney, with its host, of which this very URL is a
  -- payment URL for the order id of the result; a rejection names no host and no URL, and always
  -- has a reason.
  pub verdict_host :
      let verdict = verify_completed_payment L start_url result in
      ((e : PaymentEvidence) × (result.payment_evidence ≡ some e)
        × (verdict.status ≢ rejected)
        × Announces L result e verdict
        × (verdict.evidence_url ≡ some e.url))
      ⊎ NamesNone verdict
  verdict_host = elim (Option-cases result.payment_evidence) [
    | inl missing ↦ inr (without_evidence missing)
    | inr (e, given) ↦ elim (verdict-Hosted L result given start_url) [
      | inl (kept, names, url) ↦ inl (e, given, kept, names, url)
      | inr r ↦ inr r
    ]
  ]
