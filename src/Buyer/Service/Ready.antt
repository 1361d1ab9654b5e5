-- ===== src/Buyer/Service/Ready.antt =====
-- Which events a session stores, and what stands behind a `payment_ready` event.
use codex_browser.Prelude.{
  ℕ, String, ◌≡◌, refl, ap, false, not, Option, none, some, [], ◌∷◌, ◌==◌, eq_refl, strip, is_empty,
}
use codex_browser.Dict.{Dict}
use codex_browser.Json.{Fields}
use codex_browser.Buyer.Models.{SessionStatus, completed, EventEnvelope, AgentOutput}
use codex_browser.Buyer.Domains.{UrlLib}
use codex_browser.Buyer.Delivery.{build_envelope}
use codex_browser.Buyer.Payment.{accepted, PaymentVerificationResult, verify_completed_payment}
use codex_browser.Buyer.Session.{
  session_conflict, session_not_found, not_waiting, wrong_reply_id, no_runner, no_reply,
}
use codex_browser.Buyer.Session.State.{SessionState}
use codex_browser.Buyer.Session.Operations.{get_state, set_status, record_artifacts}
use codex_browser.Buyer.Service.Payloads.{artifacts_with_evidence}
use codex_browser.Buyer.Service.Events.{session_envelope, emit_event}
use codex_browser.Buyer.Service.Endings.{
  or_text, ready_payload, schedule_analysis, finish, handle_failed, emit_ready, handle_completed,
  handle_unverified, unless_gone, snapshot_of, note_artifacts, note_analysis, missing_host,
}
use codex_browser.Buyer.Service.Keeps.{
  Holds, Keeps, bind-Keeps, pure-Keeps, store-Keeps, timed-Keeps, conditional-Keeps, choice-Keeps,
  emit_event-Keeps,
}
use codex_browser.Buyer.Service.World.{
  of_store, of_delivery, unexpected, Outcome, done, raised, going_on, StepRequest, answered,
  Outside, Config, World, M, ◌>>=◌, pure, store_op,
}

module _ (L : UrlLib) (O : Outside) where
  -- A runner's answer to a request whose payment is accepted, with the order id.
  unfoldable pub IsPaid : StepRequest → AgentOutput → Type 0
  IsPaid request result = (n : ℕ) × ((O.run_step n request).1 ≡ answered result)

  unfoldable pub IsJustified : EventEnvelope → Type 0
  IsJustified e =
      (request : StepRequest) × (result : AgentOutput) × (order_id : String) × IsPaid request result
      × ((verify_completed_payment L request.start_url result).status ≡ accepted)
      × (result.order_id ≡ some order_id)
      × (e.payload
          ≡ ready_payload order_id (
              strip
                (or_text (verify_completed_payment L request.start_url result).order_id_host "")))

  unfoldable pub IsAllowed : EventEnvelope → Type 0
  IsAllowed e = e.event_type ≡ "payment_ready" → IsJustified e

  -- An event of another type needs no justification.
  pub other_type :
      (state : SessionState) (event_type : String) (payload : Fields) (suffix : Option String)
      → (event_type == "payment_ready") ≡ false
      → (n : ℕ) → IsAllowed (session_envelope O state event_type payload suffix n)
  unfolding IsAllowed build_envelope
  other_type state event_type payload suffix differs n same =
      absurd (cc (differs, eq_refl "payment_ready"))

module _ (L : UrlLib) (O : Outside) (K : Config) (c : Dict String) where
  abbrev pub Kept : {A : Type 0} → M A → Type 0
  Kept m = Keeps c (IsAllowed L O) m

  pub other-Kept :
      (state : SessionState) (event_type : String) (payload : Fields) (suffix : Option String)
      → (event_type == "payment_ready") ≡ false
      → Kept (emit_event O state event_type payload suffix)
  other-Kept state event_type payload suffix differs =
      emit_event-Keeps c (IsAllowed L O) O state event_type payload suffix
        (other_type L O state event_type payload suffix differs)

  pub bind :
      {A B : Type 0} (m : M A) (f : A → M B) → Kept m → ((a : A) → Kept (f a)) → Kept (m >>= f)
  bind m f km kf = bind-Keeps c (IsAllowed L O) m f km kf

  note-Kept :
      (session_id : String) (artifacts : Fields) → Kept (note_artifacts session_id artifacts)
  unfolding Keeps Holds
  note-Kept session_id artifacts w h = h

  unless_gone-Kept :
      (r : Outcome (Unit {0}) × World)
      → Holds c (IsAllowed L O) r.1
      → Holds c (IsAllowed L O) (unless_gone O K r).1
  unless_gone-Kept (raised (of_store session_not_found), w) h = h
  unless_gone-Kept (raised (of_store session_conflict), w) h = h
  unless_gone-Kept (raised (of_store not_waiting), w) h = h
  unless_gone-Kept (raised (of_store wrong_reply_id), w) h = h
  unless_gone-Kept (raised (of_store no_runner), w) h = h
  unless_gone-Kept (raised (of_store no_reply), w) h = h
  unless_gone-Kept (raised (of_delivery text), w) h = h
  unless_gone-Kept (raised (unexpected text), w) h = h
  unless_gone-Kept (done a, w) h = h
  unless_gone-Kept (going_on, w) h = h

  schedule-Kept :
      (state : SessionState) (outcome message : String) (order_id : Option String)
      (artifacts : Fields)
      → Kept (schedule_analysis O K state outcome message order_id artifacts)
  unfolding schedule_analysis Keeps Holds
  schedule-Kept state outcome message order_id artifacts w =
      conditional-Keeps c (IsAllowed L O) (not K.has_analyzer) (pure tt)
        (λ w'. unless_gone O K (scheduled w')) (λ w' h. h)
        (λ w' h. unless_gone-Kept (scheduled w') (kept w' h)) w
    where
      scheduled : M (Unit {0})
      scheduled = store_op (get_state state.session_id) >>= λ refreshed.
          note_analysis (snapshot_of O K outcome message order_id artifacts refreshed)

      kept : Kept scheduled
      kept =
          bind _ _ (store-Keeps c (IsAllowed L O) (get_state state.session_id)) λ refreshed w' h. h

  finish-Kept :
      (state : SessionState) (status : SessionStatus) (error : Option String) (suffix : String)
      (payload artifacts : Fields)
      → Kept (finish O K state status error suffix payload artifacts)
  unfolding finish
  finish-Kept state status error suffix payload artifacts =
      bind _ _ (other-Kept state "scenario_finished" payload (some suffix) refl) λ _.
        bind _ _
          (store-Keeps c (IsAllowed L O) (record_artifacts state.session_id (artifacts ∷ [])))
          λ _. bind _ _ (note-Kept state.session_id artifacts) λ _.
            bind _ _ (timed-Keeps c (IsAllowed L O) O (set_status state.session_id status error))
              λ _. pure-Keeps c (IsAllowed L O) tt

  pub handle_failed-Kept :
      (state : SessionState) (reason : String) (artifacts auth_summary : Fields)
      → Kept (handle_failed O K state reason artifacts auth_summary)
  unfolding handle_failed
  handle_failed-Kept state reason artifacts auth_summary =
      bind _ _ (finish-Kept state _ _ _ _ _) λ _. schedule-Kept state _ _ _ _

  -- The law is kept by `payment_ready` with a justification.
  emit_ready-Kept :
      (state : SessionState) (order_id : Option String) (host : String)
      → ((id : String)
          → order_id ≡ some id
          → (n : ℕ)
          → IsJustified L O (
              session_envelope O state "payment_ready"
                (ready_payload id host)
                (some "payment-ready")
                n))
      → Kept (emit_ready O K state order_id host)
  unfolding emit_ready IsAllowed
  emit_ready-Kept state none host why = pure-Keeps c (IsAllowed L O) tt
  emit_ready-Kept state (some id) host why =
      choice-Keeps c (IsAllowed L O) (is_empty id) (pure tt) _ (pure-Keeps c (IsAllowed L O) tt) (
        bind (emit_event O state "payment_ready" (ready_payload id host) (some "payment-ready")) _
          (emit_event-Keeps c (IsAllowed L O) O state "payment_ready" _ _ (λ n same. why id refl n))
          λ _. pure-Keeps c (IsAllowed L O) tt)

  module _ (state : SessionState) (result : AgentOutput) (auth_summary : Fields)
      (request : StepRequest) (paid : IsPaid L O request result) where
    pub completed-Kept :
        (verify_completed_payment L request.start_url result).status ≡ accepted
        → Kept (
            handle_completed O K state result auth_summary
              (verify_completed_payment L request.start_url result))
    unfolding handle_completed build_envelope IsJustified
    completed-Kept fits =
        let v = verify_completed_payment L request.start_url result in
        let host = strip (or_text v.order_id_host "") in
        choice-Keeps c (IsAllowed L O) (is_empty host)
          (handle_failed O K state missing_host (artifacts_with_evidence result) auth_summary) _
          (handle_failed-Kept state missing_host (artifacts_with_evidence result) auth_summary)
          (bind _ _ (bind _ _ (ready host fits refl) λ _. finish-Kept state completed none _ _ _)
            λ _. schedule-Kept state _ _ _ _)
      where
        ready :
            (host : String)
            → (verify_completed_payment L request.start_url result).status ≡ accepted
            → host
              ≡ strip
                  (or_text (verify_completed_payment L request.start_url result).order_id_host "")
            → Kept (emit_ready O K state result.order_id host)
        ready host fits' at =
            emit_ready-Kept state result.order_id host
              λ id has n. (request, result, id, paid, fits', has, ap (ready_payload id) at)

    pub unverified-Kept :
        (v : PaymentVerificationResult) → Kept (handle_unverified O K state result v auth_summary)
    unfolding handle_unverified
    unverified-Kept v =
        bind _ _ (other-Kept state "payment_unverified" _ _ refl) λ _. finish-Kept state _ _ _ _ _
