-- ===== src/Buyer/Service/Escaped.antt =====
-- buyer/app/service.py: what an exception that leaves the session task can be.
use codex_browser.Prelude.{
  ℕ, Bool, true, false, if◌then◌else◌, not, String, ◌≡◌, refl, Option, some, ◌∷◌, [],
}
use codex_browser.Json.{Fields, end}
use codex_browser.Buyer.Models.{SessionStatus, failed}
use codex_browser.Buyer.Domains.{UrlLib}
use codex_browser.Buyer.Session.{session_not_found}
use codex_browser.Buyer.Session.State.{SessionState}
use codex_browser.Buyer.Session.Operations.{get_state, set_status}
use codex_browser.Buyer.Service.Endings.{
  schedule_analysis, finish, handle_failed, note_artifacts, note_analysis, snapshot_of, unless_gone,
}
use codex_browser.Buyer.Service.Run.{
  fall_back, unless_undelivered, fail_unexpected, on_failure, caught, released, looped, run_session,
}
use codex_browser.Buyer.Service.Loop.{turns, opening}
use codex_browser.Buyer.Service.Recovery.{at_start}
use codex_browser.Buyer.Service.World.{
  Failure, of_store, of_delivery, unexpected, Outcome, done, raised, going_on, Outside, Config,
  Snapshot, World, M, store_op, ◌>>=◌,
}
use codex_browser.Buyer.Service.Raising.{
  OnRaise, Raises, bind-Raises, pure-Raises, reading-Raises, store-Raises, timed-Raises,
  get_state-NeedsSession, set_status-NeedsSession, record_artifacts-NeedsSession,
  store_event-Raises, emit_event-Raises, unless_gone-OnRaise,
}

-- `SessionNotFoundError`
unfoldable IsGone : Failure → Type 0
IsGone (of_store e) = e ≡ session_not_found
IsGone _ = ⊥

-- `SessionNotFoundError` or `CallbackDeliveryError`
unfoldable IsGoneOrUndelivered : Failure → Type 0
IsGoneOrUndelivered (of_store e) = e ≡ session_not_found
IsGoneOrUndelivered (of_delivery text) = Unit
IsGoneOrUndelivered (unexpected text) = ⊥

gone : IsGone (of_store session_not_found)
unfolding IsGone
gone = refl

gone_too : IsGoneOrUndelivered (of_store session_not_found)
unfolding IsGoneOrUndelivered
gone_too = refl

undelivered : (text : String) → IsGoneOrUndelivered (of_delivery text)
unfolding IsGoneOrUndelivered
undelivered text = tt

module _ (O : Outside) (K : Config) where
  note_artifacts-Raises :
      (id : String) (artifacts : Fields) → Raises IsGoneOrUndelivered (note_artifacts id artifacts)
  unfolding Raises OnRaise
  note_artifacts-Raises id artifacts w = tt

  finish-Raises :
      (state : SessionState) (status : SessionStatus) (error : Option String) (suffix : String)
      (payload artifacts : Fields)
      → Raises IsGoneOrUndelivered (finish O K state status error suffix payload artifacts)
  unfolding finish
  finish-Raises state status error suffix payload artifacts =
      bind-Raises IsGoneOrUndelivered _ _
        (emit_event-Raises O IsGoneOrUndelivered gone_too undelivered state "scenario_finished"
          payload (some suffix))
        λ _.
          bind-Raises IsGoneOrUndelivered _ _
            (store-Raises IsGoneOrUndelivered gone_too _
              (record_artifacts-NeedsSession state.session_id (artifacts ∷ [])))
            λ _.
              bind-Raises IsGoneOrUndelivered _ _ (note_artifacts-Raises state.session_id artifacts)
                λ _.
                  bind-Raises IsGoneOrUndelivered _ _
                    (timed-Raises IsGoneOrUndelivered gone_too O
                      (set_status state.session_id status error)
                      (set_status-NeedsSession state.session_id status error))
                    λ _. pure-Raises IsGoneOrUndelivered tt

  note_analysis-Raises : (snapshot : Snapshot) → Raises IsGoneOrUndelivered (note_analysis snapshot)
  unfolding Raises OnRaise
  note_analysis-Raises snapshot w = tt

  if_analyzed :
      (b : Bool) (m : M (Unit {0})) (w : World)
      → OnRaise IsGoneOrUndelivered (m w).0
      → OnRaise IsGoneOrUndelivered (if not b then (done tt, w) else unless_gone O K (m w)).0
  unfolding OnRaise
  if_analyzed true m w h = unless_gone-OnRaise O IsGoneOrUndelivered K (m w).0 (m w).1 h
  if_analyzed false m w h = tt

  -- The snapshot of the state that is read again.
  abbrev noted : SessionState → String → String → Option String → Fields → M (Unit {0})
  noted state outcome message order_id artifacts =
      store_op (get_state state.session_id) >>= λ refreshed.
      note_analysis (snapshot_of O K outcome message order_id artifacts refreshed)

  noted-Raises :
      (state : SessionState) (outcome message : String) (order_id : Option String)
      (artifacts : Fields)
      → Raises IsGoneOrUndelivered (noted state outcome message order_id artifacts)
  noted-Raises state outcome message order_id artifacts =
      bind-Raises IsGoneOrUndelivered _ _
        (store-Raises IsGoneOrUndelivered gone_too _ (get_state-NeedsSession state.session_id))
        λ refreshed.
          note_analysis-Raises (snapshot_of O K outcome message order_id artifacts refreshed)

  schedule_analysis-Raises :
      (state : SessionState) (outcome message : String) (order_id : Option String)
      (artifacts : Fields)
      → Raises IsGoneOrUndelivered (schedule_analysis O K state outcome message order_id artifacts)
  unfolding schedule_analysis Raises
  schedule_analysis-Raises state outcome message order_id artifacts w =
      if_analyzed K.has_analyzer (noted state outcome message order_id artifacts) w
        (noted-Raises state outcome message order_id artifacts w)

  handle_failed-Raises :
      (state : SessionState) (reason : String) (artifacts auth_summary : Fields)
      → Raises IsGoneOrUndelivered (handle_failed O K state reason artifacts auth_summary)
  unfolding handle_failed
  handle_failed-Raises state reason artifacts auth_summary =
      bind-Raises IsGoneOrUndelivered _ _ (finish-Raises state _ _ _ _ _)
        λ _. schedule_analysis-Raises state _ _ _ _

module _ (L : UrlLib) (O : Outside) (K : Config) where
  fall_back-Raises :
      (state : SessionState) (text suffix : String)
      → Raises IsGone (fall_back L O K state text suffix)
  unfolding fall_back
  fall_back-Raises state text suffix =
      bind-Raises IsGone _ _
        (timed-Raises IsGone gone O (set_status state.session_id failed (some text))
          (set_status-NeedsSession state.session_id failed (some text)))
        λ _.
          bind-Raises IsGone _ _ (reading-Raises IsGone)
            λ n. store_event-Raises O IsGone gone state _

  unless_undelivered-OnRaise :
      (state : SessionState) (o : Outcome (Unit {0})) (w : World)
      → OnRaise IsGoneOrUndelivered o
      → OnRaise IsGone (unless_undelivered L O K state o w).0
  unfolding OnRaise Raises IsGone IsGoneOrUndelivered
  unless_undelivered-OnRaise state (done a) w h = tt
  unless_undelivered-OnRaise state going_on w h = tt
  unless_undelivered-OnRaise state (raised (of_store e)) w h = h
  unless_undelivered-OnRaise state (raised (of_delivery text)) w h = fall_back-Raises state text _ w
  unless_undelivered-OnRaise state (raised (unexpected text)) w h = absurd h

  fail_unexpected-Raises :
      (session_id : String) (auth_summary : Fields) (text : String)
      → Raises IsGone (fail_unexpected L O K session_id auth_summary text)
  unfolding fail_unexpected Raises
  fail_unexpected-Raises session_id auth_summary text =
      bind-Raises IsGone _ _ (store-Raises IsGone gone _ (get_state-NeedsSession session_id))
        λ state w.
          unless_undelivered-OnRaise state _ _ (handle_failed-Raises O K state _ end auth_summary w)

  on_failure-Raises :
      (session_id : String) (auth_summary : Fields) (e : Failure)
      → Raises IsGone (on_failure L O K session_id auth_summary e)
  unfolding on_failure
  on_failure-Raises session_id auth_summary (of_store e) = pure-Raises IsGone tt
  on_failure-Raises session_id auth_summary (of_delivery text) =
      bind-Raises IsGone _ _ (store-Raises IsGone gone _ (get_state-NeedsSession session_id))
        λ state. fall_back-Raises state text _
  on_failure-Raises session_id auth_summary (unexpected text) =
      fail_unexpected-Raises session_id auth_summary text

  caught-OnRaise :
      (session_id : String) (auth_summary : Fields) (o : Outcome (Unit {0})) (w : World)
      → OnRaise IsGone (caught L O K session_id auth_summary o w).0
  unfolding OnRaise Raises
  caught-OnRaise session_id auth_summary (done a) w = tt
  caught-OnRaise session_id auth_summary going_on w = tt
  caught-OnRaise session_id auth_summary (raised e) w =
      on_failure-Raises session_id auth_summary e w

  looped-OnRaise :
      (n : ℕ) (session_id : String) (o : Outcome Fields) (w : World)
      → OnRaise IsGone (looped L O K n session_id o w).0
  unfolding looped OnRaise Raises
  looped-OnRaise n session_id going_on w = tt
  looped-OnRaise n session_id (raised e) w = on_failure-Raises session_id end e w
  looped-OnRaise n session_id (done summary) w =
      let ran = turns L O K n session_id summary at_start w in
      caught-OnRaise session_id summary ran.0 ran.1

  released-raised :
      (session_id : String) (o : Outcome (Unit {0})) (w : World) (e : Failure)
      → (released L O K session_id o w).0 ≡ raised e
      → OnRaise IsGone o
      → e ≡ of_store session_not_found
  unfolding OnRaise IsGone
  released-raised session_id (done a) w e h g = absurd (cc h)
  released-raised session_id going_on w e h g = absurd (cc h)
  released-raised session_id (raised (of_store x)) w e h g = cc (h, g)
  released-raised session_id (raised (of_delivery text)) w e h g = absurd g
  released-raised session_id (raised (unexpected text)) w e h g = absurd g

  -- Whatever the agent, the client, the scripts and the other tasks do, the only exception that leaves the
  -- task of a session is `SessionNotFoundError`: every other one is caught, also where the handler of
  -- another exception fails in its turn. Cancellation of the task is outside.
  pub run_session-raised :
      (n : ℕ) (session_id : String) (w : World) (e : Failure)
      → (run_session L O K n session_id w).0 ≡ raised e
      → e ≡ of_store session_not_found
  unfolding run_session
  run_session-raised n session_id w e h =
      let opened = opening L O K session_id w in
      let ended = looped L O K n session_id opened.0 opened.1 in
      released-raised session_id ended.0 ended.1 e h (looped-OnRaise n session_id opened.0 opened.1)
