-- ===== src/Buyer/Service/Steps.antt =====
-- buyer/app/service.py: what a turn of the loop in `_run_session` calls: the agent, the question to the user,
-- and what follows an output.
use codex_browser.Prelude.{
  ℕ, String, Option, none, some, List, [], ◌∷◌, ◌==◌, if◌then◌else◌, is_empty, concat,
}
use codex_browser.Json.{num, str, obj, Fields, end, field}
use codex_browser.Buyer.Models.{AgentOutput}
use codex_browser.Buyer.Domains.{UrlLib}
use codex_browser.Buyer.Payment.{
  PaymentVerificationStatus, accepted, rejected, unverified, PaymentVerificationResult,
  verify_completed_payment,
}
use codex_browser.Buyer.Session.State.{SessionState}
use codex_browser.Buyer.Session.Operations.{
  get_state, set_waiting_question, pop_reply, add_agent_memory,
}
use codex_browser.Buyer.Service.Payloads.{artifacts_with_evidence, looks_like_transient}
use codex_browser.Buyer.Service.Events.{emit_event, emit_stream_event}
use codex_browser.Buyer.Service.Endings.{
  or_text, missing_host, handle_failed, handle_completed, handle_unverified,
}
use codex_browser.Buyer.Service.World.{
  unexpected, Outcome, done, going_on, StepRequest, StepAnswer, answered, crashed, Outside, Config,
  World, M, ◌>>=◌, ◌>>◌, pure, raise, store_op, reading, timed_op, await,
}
use codex_browser.Buyer.Service.Recovery.{
  Progress, recovered, Turn, again, over, retry, recovery_note, recovery_artifacts,
}

abbrev ask_payload : String → String → ℕ → Fields
ask_payload message reply_id step =
    field "message" (str message)
      (field "reply_id" (str reply_id) (field "context" (obj (field "step" (num step) end)) end))

module _ (L : UrlLib) (O : Outside) (K : Config) where
  abbrev pub remember : String → String → String → M (Unit {0})
  remember session_id role text = timed_op O (add_agent_memory session_id role text) >> pure tt

  -- The task sleeps until its event is set; then the store has a reply for it.
  abbrev pub when_set : Option ℕ → World → Outcome (Unit {0}) × World
  when_set none w = (going_on, w)
  when_set (some event) w = ((if w.store.flags event then done tt else going_on), w)

  abbrev pub wait_for_event : SessionState → M (Unit {0})
  wait_for_event state = await O (λ n. tt) >> when_set state.wake_event

  -- `_ask_user_for_reply`, as the loop calls it: with the step, and with no reason code.
  unfoldable pub ask_user : SessionState → String → ℕ → M String
  ask_user state message step = do
    n ← reading
    let reply_id = O.uuid n
    timed_op O (set_waiting_question state.session_id message reply_id)
    refreshed ← store_op (get_state state.session_id)
    emit_event O refreshed "ask_user" (ask_payload message reply_id step) (some reply_id)
    wait_for_event refreshed
    reply ← timed_op O (pop_reply state.session_id)
    remember state.session_id "user" reply
    pure reply

  unfoldable pub stream_events : SessionState → List Fields → M (Unit {0})
  stream_events state [] = pure tt
  stream_events state (payload ∷ rest) =
      emit_stream_event O state payload >> stream_events state rest

  abbrev pub written : Option String → M (Unit {0})
  written none = pure tt
  written (some text) = raise (unexpected text)

  abbrev pub persist_updates : List String → M (Unit {0})
  persist_updates updates = do n ← reading; written (O.append_profile_updates n updates)

  abbrev pub output_of : StepAnswer → M AgentOutput
  output_of (answered result) = pure result
  output_of (crashed text) = raise (unexpected text)

  -- The call of the runner, with the payloads that it streams.
  unfoldable pub run_agent : SessionState → StepRequest → M AgentOutput
  unfolding stream_events
  run_agent state request =
      await O (λ n. O.run_step n request) >>= λ r. stream_events state r.0 >> output_of r.1

  -- A completed step, by what its payment evidence says.
  abbrev pub judged :
      SessionState
      → AgentOutput
      → Fields
      → PaymentVerificationResult
      → PaymentVerificationStatus
      → M (Unit {0})
  judged state result auth_summary v unverified = handle_unverified O K state result v auth_summary
  judged state result auth_summary v rejected =
      handle_failed O K state
        (or_text v.failure_reason "Completed result rejected: payment verification failed.")
        (artifacts_with_evidence result) auth_summary
  judged state result auth_summary v accepted =
      if is_empty (or_text v.order_id_host "")
      then handle_failed O K state missing_host (artifacts_with_evidence result) auth_summary
      else handle_completed O K state result auth_summary v

  unfoldable pub judge :
      SessionState → AgentOutput → Fields → PaymentVerificationResult → M (Unit {0})
  judge state result auth_summary v = judged state result auth_summary v v.status

  -- A failure of the browser that may pass: the next step starts anew, or the window is over.
  abbrev pub recovering : SessionState → AgentOutput → Fields → Progress → Option Progress → M Turn
  recovering state result auth_summary p (some p') =
      remember state.session_id "system" (recovery_note p' state.start_url)
      >> await O (λ n. again p')
  recovering state result auth_summary p none =
      handle_failed O K state
        (concat "Transient CDP-сбой не восстановился за "
          (concat K.window_text (concat "с. Последняя ошибка: " p.last_error_tail)))
        (recovery_artifacts K.window p result.artifacts) auth_summary
      >> pure over

  unfoldable pub recover : SessionState → AgentOutput → Fields → Progress → ℕ → M Turn
  unfolding retry
  recover state result auth_summary p now =
      recovering state result auth_summary p (retry K.window now result.message p)

  -- What follows a step of the agent, by its status.
  unfoldable pub after_step : SessionState → AgentOutput → Fields → Progress → M Turn
  unfolding ask_user judge recover
  after_step state result auth_summary p =
      if result.status == "needs_user_input"
      then (ask_user state result.message p.step_index >>= λ reply.
          pure (again (record (recovered p) { latest_user_reply = some reply })))
      else if result.status == "completed"
      then (judge state result auth_summary (verify_completed_payment L state.start_url result)
          >> pure over)
      else if looks_like_transient O.lower result.message result.artifacts
      then (reading >>= λ n. recover state result auth_summary p (O.loop_time n))
      else (handle_failed O K state result.message result.artifacts auth_summary >> pure over)
