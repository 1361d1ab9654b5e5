-- ===== src/Buyer/Service/Endings.antt =====
-- buyer/app/service.py: the three ends of a session, `_handle_completed`, `_handle_unverified` and
-- `_handle_failed`, and the analysis that is scheduled after two of them.
use codex_browser.Prelude.{
  String, not, Option, none, some, [], ◌∷◌, ◌++◌, if◌then◌else◌, is_empty, strip,
}
use codex_browser.Json.{str, obj, Fields, end, field, assign}
use codex_browser.Buyer.Models.{SessionStatus, completed, failed, unverified, AgentOutput}
use codex_browser.Buyer.Payment.{PaymentVerificationResult}
use codex_browser.Buyer.Session.{session_not_found}
use codex_browser.Buyer.Session.State.{SessionState}
use codex_browser.Buyer.Session.Operations.{get_state, set_status, record_artifacts}
use codex_browser.Buyer.Service.Payloads.{
  text_or_null, terminal_callback_artifacts, artifacts_with_evidence, with_auth,
}
use codex_browser.Buyer.Service.Events.{emit_event}
use codex_browser.Buyer.Service.World.{
  of_store, Outcome, done, raised, Outside, Config, Snapshot, World, M, ◌>>=◌, ◌>>◌, pure, store_op,
  timed_op,
}

abbrev pub note_artifacts : String → Fields → M (Unit {0})
note_artifacts session_id artifacts w =
    (done tt, record w { recorded = w.recorded ++ (session_id, artifacts) ∷ [] })

abbrev pub note_analysis : Snapshot → M (Unit {0})
note_analysis snapshot w = (done tt, record w { analyses = w.analyses ++ snapshot ∷ [] })

abbrev pub or_text : Option String → String → String
or_text none other = other
or_text (some s) other = if is_empty s then other else s

-- The payload of `payment_ready`.
abbrev pub ready_payload : String → String → Fields
ready_payload order_id order_id_host = field "order_id" (str order_id) (
    field "order_id_host" (str order_id_host)
      (field "message" (str "Получен orderId, шаг оплаты готов.") end))

abbrev pub missing_host : String
missing_host =
    "Completed result rejected: accepted payment verification did not provide order_id_host."

abbrev status_text : SessionStatus → String
status_text completed = "completed"
status_text unverified = "unverified"
status_text _ = "failed"

-- The payload of `scenario_finished`, with the order id where the code puts one.
abbrev pub finished_payload : SessionStatus → String → Option (Option String) → Fields → Fields
finished_payload status message none artifacts = field "status" (str (status_text status)) (
    field "message" (str message)
      (field "artifacts" (obj (terminal_callback_artifacts artifacts)) end))
finished_payload status message (some order_id) artifacts =
    field "status" (str (status_text status)) (
      field "message" (str message) (
        field "order_id" (text_or_null order_id)
          (field "artifacts" (obj (terminal_callback_artifacts artifacts)) end)))

unverified_payload : AgentOutput → PaymentVerificationResult → String → Fields
unverified_payload result v reason = field "order_id" (text_or_null result.order_id) (
    field "order_id_host" (text_or_null v.order_id_host) (
      field "provider" (text_or_null v.provider) (
        field "evidence_url" (text_or_null v.evidence_url) (
          field "message" (str "Платежный шаг найден, но merchant verifier не подтвержден.") (
            field "reason" (str "merchant_policy_not_allowlisted")
              (field "failure_reason" (str reason) end))))))

-- `artifacts['payment_verification']`, where there is an evidence URL.
verification_artifacts : PaymentVerificationResult → Fields → Fields
verification_artifacts v artifacts = elim v.evidence_url [
  | none ↦ artifacts
  | some url ↦
      if is_empty url
      then artifacts
      else assign artifacts "payment_verification" (
          obj (
            field "status" (str "unverified") (
              field "provider" (text_or_null v.provider) (
                field "evidence_url" (str url) (
                  field "order_id_host" (text_or_null v.order_id_host)
                    (field "reason" (text_or_null v.failure_reason) end))))))
]

module _ (O : Outside) (K : Config) where
  abbrev pub snapshot_of : String → String → Option String → Fields → SessionState → Snapshot
  snapshot_of outcome message order_id artifacts refreshed = record {
    session_id = refreshed.session_id;
    task = refreshed.task;
    start_url = refreshed.start_url;
    metadata = refreshed.metadata;
    outcome = outcome;
    message = message;
    order_id = order_id;
    artifacts = artifacts;
    events = refreshed.events;
  }

  -- `SessionNotFoundError` ends the scheduling quietly; nothing else is raised by the store here.
  abbrev pub unless_gone : Outcome (Unit {0}) × World → Outcome (Unit {0}) × World
  unless_gone (raised (of_store session_not_found), w) = (done tt, w)
  unless_gone (o, w) = (o, w)

  -- `_schedule_post_session_analysis`
  unfoldable pub schedule_analysis :
      SessionState → String → String → Option String → Fields → M (Unit {0})
  schedule_analysis state outcome message order_id artifacts w =
      if not K.has_analyzer
      then (done tt, w)
      else unless_gone (
          (store_op (get_state state.session_id) >>= (λ refreshed.
              note_analysis (snapshot_of outcome message order_id artifacts refreshed)))
            w)

  -- The common end: the last event, the artifacts, and the status in the store.
  unfoldable pub finish :
      SessionState → SessionStatus → Option String → String → Fields → Fields → M (Unit {0})
  finish state status error suffix payload artifacts = do
    emit_event O state "scenario_finished" payload (some suffix)
    store_op (record_artifacts state.session_id (artifacts ∷ []))
    note_artifacts state.session_id artifacts
    timed_op O (set_status state.session_id status error)
    pure tt

  -- `_handle_failed`
  unfoldable pub handle_failed : SessionState → String → Fields → Fields → M (Unit {0})
  unfolding finish schedule_analysis
  handle_failed state reason artifacts auth_summary =
      let merged = with_auth auth_summary artifacts in
      finish state failed (some reason) "scenario-failed"
        (finished_payload failed reason none merged) merged
      >> schedule_analysis state "failed" reason none merged

  -- `payment_ready`, for an order id that is not empty.
  unfoldable pub emit_ready : SessionState → Option String → String → M (Unit {0})
  emit_ready state none order_id_host = pure tt
  emit_ready state (some order_id) order_id_host =
      if is_empty order_id
      then pure tt
      else (emit_event O state "payment_ready" (ready_payload order_id order_id_host)
            (some "payment-ready")
          >> pure tt)

  -- `_handle_completed`
  unfoldable pub handle_completed :
      SessionState → AgentOutput → Fields → PaymentVerificationResult → M (Unit {0})
  unfolding handle_failed emit_ready finish schedule_analysis
  handle_completed state result auth_summary v =
      let host = strip (or_text v.order_id_host "") in
      let artifacts = with_auth auth_summary (artifacts_with_evidence result) in
      if is_empty host
      then handle_failed state missing_host (artifacts_with_evidence result) auth_summary
      else (emit_ready state result.order_id host
          >> finish state completed none "scenario-finished"
              (finished_payload completed result.message (some result.order_id) artifacts) artifacts
          >> schedule_analysis state "completed" result.message result.order_id artifacts)

  -- `_handle_unverified`
  unfoldable pub handle_unverified :
      SessionState → AgentOutput → PaymentVerificationResult → Fields → M (Unit {0})
  unfolding unverified_payload verification_artifacts finish
  handle_unverified state result v auth_summary =
      let artifacts =
        verification_artifacts v (with_auth auth_summary (artifacts_with_evidence result)) in
      let reason =
        or_text v.failure_reason "Payment evidence found, but merchant policy is unverified." in
      emit_event O state "payment_unverified" (unverified_payload result v reason)
        (some "payment-unverified")
      >> finish state unverified (some reason) "scenario-unverified"
          (finished_payload unverified result.message (some result.order_id) artifacts) artifacts
