-- ===== src/Buyer/Service/Raising.antt =====
-- buyer/app/service.py: what the parts of the session task can raise.
use codex_browser.Prelude.{
  ℕ, List, String, ◌≡◌, refl, ap, Option, none, some, ◌∷◌, ◌++◌, [], Option-cases, inl, inr,
}
use codex_browser.Json.{Fields}
use codex_browser.Buyer.Models.{SessionStatus, EventEnvelope}
use codex_browser.Buyer.Session.{
  SessionStore, StoreError, session_conflict, session_not_found, not_waiting, wrong_reply_id,
  no_runner, no_reply, Result, ok, err, with_session,
}
use codex_browser.Buyer.Session.State.{SessionState, get_session}
use codex_browser.Buyer.Session.Operations.{get_state, set_status, append_event, record_artifacts}
use codex_browser.Buyer.Service.Events.{
  store_event, deliver_event, settle, emit_event, session_envelope,
}
use codex_browser.Buyer.Service.Endings.{unless_gone}
use codex_browser.Buyer.Service.World.{
  Failure, of_store, of_delivery, unexpected, Outcome, done, raised, going_on, Outside, Config,
  World, M, after, pure, ◌>>=◌, lifted, store_op, reading, timed_op,
}

-- What holds of an exception that is raised.
unfoldable pub OnRaise : {A : Type 0} → (Failure → Type 0) → Outcome A → Type 0
OnRaise P (raised e) = P e
OnRaise P _ = Unit

unfoldable pub Raises : {A : Type 0} → (Failure → Type 0) → M A → Type 0
Raises P m = (w : World) → OnRaise P (m w).0

-- An operation of the store that fails for a missing session only.
unfoldable pub NeedsSession : {A : Type 0} → (SessionStore → Result A × SessionStore) → Type 0
NeedsSession f = (s : SessionStore) → (e : StoreError) → (f s).0 ≡ err e → e ≡ session_not_found

module _ (P : Failure → Type 0) where
  pub after-OnRaise :
      {A B : Type 0} (f : A → M B) (o : Outcome A) (w : World)
      → ((a : A) → Raises P (f a))
      → OnRaise P o
      → OnRaise P (after f o w).0
  unfolding OnRaise Raises
  after-OnRaise f (done a) w k h = k a w
  after-OnRaise f (raised e) w k h = h
  after-OnRaise f going_on w k h = tt

  pub bind-Raises :
      {A B : Type 0} (m : M A) (f : A → M B)
      → Raises P m
      → ((a : A) → Raises P (f a))
      → Raises P (m >>= f)
  unfolding Raises
  bind-Raises m f h k w = after-OnRaise f (m w).0 (m w).1 k (h w)

  pub pure-Raises : {A : Type 0} (a : A) → Raises P (pure a)
  unfolding Raises OnRaise
  pure-Raises a w = tt

  pub reading-Raises : Raises P reading
  unfolding Raises OnRaise
  reading-Raises w = tt

-- The store may lack the session.
module _ (P : Failure → Type 0) (gone : P (of_store session_not_found)) where
  lifted-OnRaise :
      {A : Type 0} (r : Result A × SessionStore) (w : World)
      → ((e : StoreError) → r.0 ≡ err e → e ≡ session_not_found)
      → OnRaise P (lifted r w).0
  unfolding OnRaise
  lifted-OnRaise (ok a, s) w h = tt
  lifted-OnRaise (err e, s) w h = rw (h e refl) gone

  pub store-Raises :
      {A : Type 0} (f : SessionStore → Result A × SessionStore)
      → NeedsSession f
      → Raises P (store_op f)
  unfolding Raises NeedsSession
  store-Raises f h w = lifted-OnRaise (f w.store) w (h w.store)

  pub timed-Raises :
      {A : Type 0} (O : Outside) (f : ℕ → SessionStore → Result A × SessionStore)
      → ((now : ℕ) → NeedsSession (f now))
      → Raises P (timed_op O f)
  timed-Raises O f h =
      bind-Raises P _ _ (reading-Raises P) λ n. store-Raises (f (O.now n)) (h (O.now n))

with_session-missing :
    {A : Type 0} (session_id : String)
    (rest : SessionState → SessionStore → Result A × SessionStore) (s : SessionStore)
    → get_session s.repository session_id ≡ none
    → with_session session_id rest s ≡ (err session_not_found, s)
unfolding with_session
with_session-missing session_id rest s h = rw (with_session, h) refl

with_session-found :
    {A : Type 0} (session_id : String)
    (rest : SessionState → SessionStore → Result A × SessionStore) (s : SessionStore)
    (x : SessionState)
    → get_session s.repository session_id ≡ some x
    → with_session session_id rest s ≡ rest x s
unfolding with_session
with_session-found session_id rest s x h = rw (with_session, h) refl

with_session-NeedsSession :
    {A : Type 0} (session_id : String)
    (rest : SessionState → SessionStore → Result A × SessionStore)
    → ((x : SessionState) (s : SessionStore) → (a : A) × ((rest x s).0 ≡ ok a))
    → NeedsSession (with_session session_id rest)
unfolding NeedsSession
with_session-NeedsSession session_id rest k s e h =
    elim (Option-cases (get_session s.repository session_id)) [
      | inl missing ↦ cc (ap (λ r. r.0) (with_session-missing session_id rest s missing), h)
      | inr (x, found) ↦
          absurd (cc (ap (λ r. r.0) (with_session-found session_id rest s x found), h, (k x s).1))
    ]

pub get_state-NeedsSession : (session_id : String) → NeedsSession (get_state session_id)
unfolding get_state
get_state-NeedsSession session_id = with_session-NeedsSession session_id _ λ x s. (_, refl)

pub set_status-NeedsSession :
    (session_id : String) (status : SessionStatus) (error : Option String) (now : ℕ)
    → NeedsSession (set_status session_id status error now)
unfolding set_status
set_status-NeedsSession session_id status error now =
    with_session-NeedsSession session_id _ λ x s. (_, refl)

append_event-NeedsSession :
    (session_id : String) (event : EventEnvelope) (now : ℕ)
    → NeedsSession (append_event session_id event now)
unfolding append_event
append_event-NeedsSession session_id event now =
    with_session-NeedsSession session_id _ λ x s. (_, refl)

pub record_artifacts-NeedsSession :
    (session_id : String) (artifacts : List Fields)
    → NeedsSession (record_artifacts session_id artifacts)
unfolding record_artifacts
record_artifacts-NeedsSession session_id artifacts =
    with_session-NeedsSession session_id _ λ x s. (_, refl)

module _ (O : Outside) (P : Failure → Type 0) where
  emitted-Raises :
      (envelope : EventEnvelope)
      → Raises P (λ w. (done tt, record w { emitted = w.emitted ++ envelope ∷ [] }))
  unfolding Raises OnRaise
  emitted-Raises envelope w = tt

  deliver_event-Raises :
      (state : SessionState) (envelope : EventEnvelope) → Raises P (deliver_event O state envelope)
  unfolding deliver_event Raises OnRaise
  deliver_event-Raises state envelope w = tt

  settle-Raises :
      ((text : String) → P (of_delivery text))
      → (envelope : EventEnvelope) (answer : Option String) → Raises P (settle O envelope answer)
  unfolding settle Raises OnRaise
  settle-Raises undelivered envelope none w = tt
  settle-Raises undelivered envelope (some text) w = undelivered text

  pub store_event-Raises :
      P (of_store session_not_found)
      → (state : SessionState) (envelope : EventEnvelope) → Raises P (store_event O state envelope)
  unfolding store_event
  store_event-Raises gone state envelope =
      bind-Raises P _ _
        (timed-Raises P gone O _ (append_event-NeedsSession state.session_id envelope))
        λ _. emitted-Raises envelope

  pub emit_event-Raises :
      P (of_store session_not_found)
      → ((text : String) → P (of_delivery text))
      → (state : SessionState) (event_type : String) (payload : Fields) (suffix : Option String)
      → Raises P (emit_event O state event_type payload suffix)
  unfolding emit_event
  emit_event-Raises gone undelivered state event_type payload suffix =
      bind-Raises P _ _ (reading-Raises P) λ n.
        let envelope = session_envelope O state event_type payload suffix n in
        bind-Raises P _ _ (store_event-Raises gone state envelope) λ _.
          bind-Raises P _ _ (deliver_event-Raises state envelope)
            λ answer. settle-Raises undelivered envelope answer

  pub unless_gone-OnRaise :
      (K : Config) (o : Outcome (Unit {0})) (w : World)
      → OnRaise P o
      → OnRaise P (unless_gone O K (o, w)).0
  unfolding OnRaise
  unless_gone-OnRaise K (done a) w h = tt
  unless_gone-OnRaise K going_on w h = tt
  unless_gone-OnRaise K (raised (of_store session_not_found)) w h = tt
  unless_gone-OnRaise K (raised (of_store session_conflict)) w h = h
  unless_gone-OnRaise K (raised (of_store not_waiting)) w h = h
  unless_gone-OnRaise K (raised (of_store wrong_reply_id)) w h = h
  unless_gone-OnRaise K (raised (of_store no_runner)) w h = h
  unless_gone-OnRaise K (raised (of_store no_reply)) w h = h
  unless_gone-OnRaise K (raised (of_delivery text)) w h = h
  unless_gone-OnRaise K (raised (unexpected text)) w h = h
