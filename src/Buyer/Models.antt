-- ===== src/Buyer/Models.antt =====
-- buyer/app/models.py: the data that the components of buyer exchange.
use codex_browser.Prelude.{ℕ, String, Option, List}
use codex_browser.Json.{Fields}

pub data SessionStatus : Type 0 where
  created running waiting_user completed failed unverified : SessionStatus

-- `storage_state` is a Playwright storageState, kept as the JSON object that was sent.
pub record TaskAuthPayload : Type 0 where
  pub provider : String
  pub storage_state : Option Fields

pub record EventEnvelope : Type 0 where
  pub event_id : String
  pub session_id : String
  pub event_type : String
  pub occurred_at : ℕ
  pub idempotency_key : String
  pub payload : Fields
  pub eval_run_id : Option String
  pub eval_case_id : Option String

-- The four values of the `Literal` type of `PaymentEvidence.source`.
pub data EvidenceSource : Type 0 where
  litres_payecom_iframe brandshop_yoomoney_sberpay_redirect : EvidenceSource
  payecom_payment_url yoomoney_payment_url : EvidenceSource

pub record PaymentEvidence : Type 0 where
  pub source : EvidenceSource
  pub url : String

pub record AgentOutput : Type 0 where
  pub status : String
  pub message : String
  pub order_id : Option String
  pub payment_evidence : Option PaymentEvidence
  pub profile_updates : List String
  pub artifacts : Fields

abbrev pub source_text : EvidenceSource → String
source_text litres_payecom_iframe = "litres_payecom_iframe"
source_text brandshop_yoomoney_sberpay_redirect = "brandshop_yoomoney_sberpay_redirect"
source_text payecom_payment_url = "payecom_payment_url"
source_text yoomoney_payment_url = "yoomoney_payment_url"
