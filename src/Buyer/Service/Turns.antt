-- ===== src/Buyer/Service/Turns.antt =====
-- The turns of the session task in buyer/app/service.py, and the events that they store.
use codex_browser.Prelude.{
  ℕ, zero, suc, String, ◌≡◌, refl, subst, Option, none, some, List, [], ◌∷◌, ◌==◌, is_empty,
}
use codex_browser.Dict.{Dict}
use codex_browser.Json.{Fields}
use codex_browser.Buyer.Models.{AgentOutput}
use codex_browser.Buyer.Domains.{UrlLib}
use codex_browser.Buyer.Payment.{
  PaymentVerificationStatus, accepted, rejected, unverified, PaymentVerificationResult,
  verify_completed_payment,
}
use codex_browser.Buyer.Session.{SessionStore, Result}
use codex_browser.Buyer.Session.State.{SessionState}
use codex_browser.Buyer.Session.Operations.{
  get_state, set_waiting_question, pop_reply, add_agent_memory, get_agent_memory,
}
use codex_browser.Buyer.Service.Payloads.{looks_like_transient}
use codex_browser.Buyer.Service.Endings.{or_text}
use codex_browser.Buyer.Service.Recovery.{Progress, Turn, again, over, retry}
use codex_browser.Buyer.Service.Steps.{
  written, recovering, remember, when_set, wait_for_event, ask_user, stream_events, persist_updates,
  output_of, run_agent, judge, judged, recover, after_step,
}
use codex_browser.Buyer.Service.Loop.{request_for, turn, unended, onward, turns}
use codex_browser.Buyer.Service.Keeps.{
  Yields, after-done, Keeps, pure-Keeps, reading-Keeps, store-Keeps, timed-Keeps, await-Keeps,
  given-Keeps, choice-Keeps, emit_stream_event-Keeps,
}
use codex_browser.Buyer.Service.Ready.{
  IsPaid, IsAllowed, other_type, Kept, other-Kept, bind, handle_failed-Kept, completed-Kept,
  unverified-Kept,
}
use codex_browser.Buyer.Service.World.{
  done, StepRequest, StepAnswer, answered, crashed, Outside, Config, World, M, pure, store_op,
  timed_op, await,
}

module _ (L : UrlLib) (O : Outside) (K : Config) (c : Dict String) where
  module _ (state : SessionState) (result : AgentOutput) (auth_summary : Fields) where
    judge-Kept :
        (request : StepRequest)
        → IsPaid L O request result
        → Kept L O K c (
            judge L O K state result auth_summary
              (verify_completed_payment L request.start_url result))
    unfolding judge
    judge-Kept request paid =
        by_status (verify_completed_payment L request.start_url result).status refl
      where
        V : PaymentVerificationResult
        V = verify_completed_payment L request.start_url result

        by_status :
            (s : PaymentVerificationStatus)
            → (V.status ≡ s)
            → Kept L O K c (judged L O K state result auth_summary V s)
        by_status unverified e = unverified-Kept L O K c state result auth_summary request paid V
        by_status rejected e = handle_failed-Kept L O K c state _ _ auth_summary
        by_status accepted e =
            choice-Keeps c (IsAllowed L O) (is_empty (or_text V.order_id_host "")) _ _
              (handle_failed-Kept L O K c state _ _ auth_summary)
              (completed-Kept L O K c state result auth_summary request paid e)

  pub plain-Kept : {A : Type 0} (a : A) → Kept L O K c (pure a)
  plain-Kept a = pure-Keeps c (IsAllowed L O) a

  pub timed-Kept :
      {A : Type 0} (f : ℕ → SessionStore → Result A × SessionStore) → Kept L O K c (timed_op O f)
  timed-Kept f = timed-Keeps c (IsAllowed L O) O f

  pub op-Kept :
      {A : Type 0} (f : SessionStore → Result A × SessionStore) → Kept L O K c (store_op f)
  op-Kept f = store-Keeps c (IsAllowed L O) f

  pub remember-Kept : (k role text : String) → Kept L O K c (remember L O K k role text)
  remember-Kept k role text =
      bind L O K c _ _ (timed-Kept (add_agent_memory k role text)) λ _. plain-Kept tt

  when_set-Kept : (e : Option ℕ) → Kept L O K c (when_set L O K e)
  unfolding Keeps
  when_set-Kept none w h = h
  when_set-Kept (some e) w h = h

  wait-Kept : (state : SessionState) → Kept L O K c (wait_for_event L O K state)
  wait-Kept state =
      bind L O K c _ _ (await-Keeps c (IsAllowed L O) O (λ n. tt))
        λ _. when_set-Kept state.wake_event

  ask_user-Kept :
      (state : SessionState) (message : String) (step : ℕ)
      → Kept L O K c (ask_user L O K state message step)
  unfolding ask_user
  ask_user-Kept state message step = bind L O K c _ _ (reading-Keeps c (IsAllowed L O)) λ n.
      bind L O K c _ _ (timed-Kept (set_waiting_question state.session_id message (O.uuid n))) λ _.
        bind L O K c _ _ (op-Kept (get_state state.session_id)) λ refreshed.
          bind L O K c _ _ (other-Kept L O K c refreshed "ask_user" _ _ refl) λ _.
            bind L O K c _ _ (wait-Kept refreshed) λ _.
              bind L O K c _ _ (timed-Kept (pop_reply state.session_id)) λ reply.
                bind L O K c _ _ (remember-Kept state.session_id "user" reply) λ _. plain-Kept reply

  stream_events-Kept :
      (state : SessionState) (payloads : List Fields)
      → Kept L O K c (stream_events L O K state payloads)
  unfolding stream_events
  stream_events-Kept state [] = plain-Kept tt
  stream_events-Kept state (payload ∷ rest) =
      bind L O K c _ _
        (emit_stream_event-Keeps c (IsAllowed L O) O state payload
          λ suffix. other_type L O state "agent_stream_event" payload suffix refl)
        λ _. stream_events-Kept state rest

  written-Kept : (o : Option String) → Kept L O K c (written L O K o)
  unfolding Keeps
  written-Kept none w h = h
  written-Kept (some text) w h = h

  output_of-Kept : (answer : StepAnswer) → Kept L O K c (output_of L O K answer)
  unfolding Keeps
  output_of-Kept (answered result) w h = h
  output_of-Kept (crashed text) w h = h

  run_agent-Kept :
      (state : SessionState) (request : StepRequest) → Kept L O K c (run_agent L O K state request)
  unfolding run_agent
  run_agent-Kept state request =
      bind L O K c _ _ (await-Keeps c (IsAllowed L O) O (λ n. O.run_step n request))
        λ r. bind L O K c _ _ (stream_events-Kept state r.0) λ _. output_of-Kept r.1

  answer_of_output :
      (answer : StepAnswer) (w : World) (result : AgentOutput)
      → (output_of L O K answer w).0 ≡ done result
      → answer ≡ answered result
  answer_of_output (answered x) w result h = cc h
  answer_of_output (crashed text) w result h = absurd (cc h)

  -- What the call of the runner returns is an answer to the request.
  run_agent-IsPaid :
      (state : SessionState) (request : StepRequest)
      → Yields (run_agent L O K state request) (IsPaid L O request)
  unfolding run_agent Yields IsPaid
  run_agent-IsPaid state request w result h =
      let r = O.run_step w.readings request in
      let streamed = stream_events L O K state r.0 (await O (λ n. O.run_step n request) w).1 in
      let last = after-done (λ _. output_of L O K r.1) streamed.0 streamed.1 result h in
      (w.readings, answer_of_output r.1 streamed.1 result last.1.1)

  recover-Kept :
      (state : SessionState) (result : AgentOutput) (auth_summary : Fields) (p : Progress) (now : ℕ)
      → Kept L O K c (recover L O K state result auth_summary p now)
  unfolding recover
  recover-Kept state result auth_summary p now = by_retry (retry K.window now result.message p)
    where
      by_retry :
          (o : Option Progress) → Kept L O K c (recovering L O K state result auth_summary p o)
      by_retry (some p') =
          bind L O K c _ _ (remember-Kept state.session_id "system" _)
            λ _. await-Keeps c (IsAllowed L O) O (λ n. again p')
      by_retry none =
          bind L O K c _ _ (handle_failed-Kept L O K c state _ _ auth_summary) λ _. plain-Kept over

  after_step-Kept :
      (state : SessionState) (result : AgentOutput) (auth_summary : Fields) (p : Progress)
      (request : StepRequest)
      → IsPaid L O request result
      → request.start_url ≡ state.start_url
      → Kept L O K c (after_step L O K state result auth_summary p)
  unfolding after_step
  after_step-Kept state result auth_summary p request paid same =
      choice-Keeps c (IsAllowed L O) (result.status == "needs_user_input") _ _
        (bind L O K c _ _ (ask_user-Kept state result.message p.step_index) λ reply. plain-Kept _)
        (choice-Keeps c (IsAllowed L O) (result.status == "completed") _ _
          (bind L O K c _ _ (judged_well same) λ _. plain-Kept over)
          (choice-Keeps c (IsAllowed L O)
            (looks_like_transient O.lower result.message result.artifacts) _ _
            (bind L O K c _ _ (reading-Keeps c (IsAllowed L O))
              λ n. recover-Kept state result auth_summary p (O.loop_time n))
            (bind L O K c _ _ (handle_failed-Kept L O K c state _ _ auth_summary)
              λ _. plain-Kept over)))
    where
      judged_well :
          request.start_url ≡ state.start_url
          → Kept L O K c (
              judge L O K state result auth_summary
                (verify_completed_payment L state.start_url result))
      judged_well e =
          subst
            (λ url.
              Kept L O K c
                (judge L O K state result auth_summary (verify_completed_payment L url result)))
            e (judge-Kept state result auth_summary request paid)

  persist-Kept : (updates : List String) → Kept L O K c (persist_updates L O K updates)
  persist-Kept updates =
      bind L O K c _ _ (reading-Keeps c (IsAllowed L O))
        λ n. written-Kept (O.append_profile_updates n updates)

  turn-Kept :
      (session_id : String) (auth_summary : Fields) (p : Progress)
      → Kept L O K c (turn L O K session_id auth_summary p)
  unfolding turn
  turn-Kept session_id auth_summary p₀ =
      let p = record p₀ { step_index = suc p₀.step_index } in
      bind L O K c _ _ (op-Kept (get_state session_id)) λ state.
        bind L O K c _ _ (op-Kept (get_agent_memory session_id)) λ memory.
          let request = request_for L O K state memory auth_summary p in
          bind L O K c _ _ (other-Kept L O K c state "agent_step_started" _ _ refl) λ _.
            given-Keeps c (IsAllowed L O) (IsPaid L O request) (run_agent L O K state request) _
              (run_agent-Kept state request) (run_agent-IsPaid state request)
              λ result paid. bind L O K c _ _ (persist-Kept result.profile_updates) λ _.
                bind L O K c _ _ (other-Kept L O K c state "agent_step_finished" _ _ refl) λ _.
                  bind L O K c _ _ (remember-Kept session_id "assistant" result.message) λ _.
                    after_step-Kept state result auth_summary
                      (record p { latest_user_reply = none }) request paid refl

  onward-Kept :
      (rest : Progress → M (Unit {0})) (next : Turn)
      → ((p : Progress) → Kept L O K c (rest p))
      → Kept L O K c (onward L O K rest next)
  onward-Kept rest over k = plain-Kept tt
  onward-Kept rest (again p) k = k p

  unended-Kept : Kept L O K c (unended L O K)
  unfolding Keeps
  unended-Kept w h = h

  pub turns-Kept :
      (n : ℕ) (session_id : String) (auth_summary : Fields) (p : Progress)
      → Kept L O K c (turns L O K n session_id auth_summary p)
  unfolding turns
  turns-Kept zero session_id auth_summary p = unended-Kept
  turns-Kept (suc n) session_id auth_summary p =
      bind L O K c (turn L O K session_id auth_summary p) _ (turn-Kept session_id auth_summary p)
        λ next.
          onward-Kept (turns L O K n session_id auth_summary) next
            (turns-Kept n session_id auth_summary)
