-- ===== src/Buyer/Service/Keeps.antt =====
-- A law of a world that a part of the session task keeps, put together from its parts.
use codex_browser.Prelude.{
  Bool, true, false, if◌then◌else◌, ℕ, String, ◌≡◌, refl, List, [], ◌∷◌, ◌++◌, Option, none, some,
  All,
}
use codex_browser.Dict.{Dict}
use codex_browser.Json.{Fields}
use codex_browser.Buyer.Models.{EventEnvelope}
use codex_browser.Buyer.Session.{SessionStore, Result, ok, err}
use codex_browser.Buyer.Session.State.{SessionState}
use codex_browser.Buyer.Session.Operations.{append_event}
use codex_browser.Buyer.Service.Events.{
  session_envelope, store_event, deliver_event, settle, forgive, leniently, emit_event,
  emit_stream_event,
}
use codex_browser.Buyer.Service.World.{
  Outcome, done, raised, going_on, Outside, World, M, after, ◌>>=◌, pure, lifted, store_op, reading,
  timed_op, await,
}

-- What a part of the task returns, where it returns.
unfoldable pub Yields : {A : Type 0} → M A → (A → Type 0) → Type 0
Yields {A = A} m Q = (w : World) (a : A) → (m w).0 ≡ done a → Q a

-- What returns after another part has an answer of that part.
pub after-done :
    {A B : Type 0} (f : A → M B) (o : Outcome A) (w : World) (b : B)
    → (after f o w).0 ≡ done b
    → (a : A) × ((o ≡ done a) × ((f a w).0 ≡ done b))
after-done f (done a) w b h = (a, (refl, h))
after-done f (raised e) w b h = absurd (cc h)
after-done f going_on w b h = absurd (cc h)

module _ (c : Dict String) (Allowed : EventEnvelope → Type 0) where
  -- The tokens are those at the start, and every event stored so far is an allowed one.
  unfoldable pub Holds : World → Type 0
  Holds w = (w.callback_tokens ≡ c) × All Allowed w.emitted

  unfoldable pub Keeps : {A : Type 0} → M A → Type 0
  Keeps m = (w : World) → Holds w → Holds (m w).1

  pub after-Keeps :
      {A B : Type 0} (f : A → M B) (o : Outcome A) (w : World)
      → ((a : A) → Keeps (f a))
      → Holds w
      → Holds (after f o w).1
  unfolding Keeps
  after-Keeps f (done a) w kf h = kf a w h
  after-Keeps f (raised e) w kf h = h
  after-Keeps f going_on w kf h = h

  pub bind-Keeps :
      {A B : Type 0} (m : M A) (f : A → M B) → Keeps m → ((a : A) → Keeps (f a)) → Keeps (m >>= f)
  unfolding Keeps
  bind-Keeps m f km kf w h = after-Keeps f (m w).0 (m w).1 kf (km w h)

  pub pure-Keeps : {A : Type 0} (a : A) → Keeps (pure a)
  unfolding Keeps
  pure-Keeps a w h = h

  pub reading-Keeps : Keeps reading
  unfolding Keeps Holds
  reading-Keeps w h = h

  lifted-Keeps :
      {A : Type 0} (r : Result A × SessionStore) (w : World) → Holds w → Holds (lifted r w).1
  unfolding Holds
  lifted-Keeps (ok a, s) w h = h
  lifted-Keeps (err e, s) w h = h

  pub store-Keeps : {A : Type 0} (f : SessionStore → Result A × SessionStore) → Keeps (store_op f)
  unfolding Keeps
  store-Keeps f w h = lifted-Keeps (f w.store) w h

  pub timed-Keeps :
      {A : Type 0} (O : Outside) (f : ℕ → SessionStore → Result A × SessionStore)
      → Keeps (timed_op O f)
  timed-Keeps O f = bind-Keeps _ _ reading-Keeps λ n. store-Keeps (f (O.now n))

  pub await-Keeps : {A : Type 0} (O : Outside) (f : ℕ → A) → Keeps (await O f)
  unfolding Keeps Holds
  await-Keeps O f w h = h

  -- A part whose answer is known to fulfil `Q` goes on with what keeps the law of such an answer.
  pub given-Keeps :
      {A B : Type 0} (Q : A → Type 0) (m : M A) (f : A → M B)
      → Keeps m
      → Yields m Q
      → ((a : A) → Q a → Keeps (f a))
      → Keeps (m >>= f)
  unfolding Keeps Yields
  given-Keeps {A} {B} Q m f km ym kf w h = by_case (m w).0 (ym w) (km w h)
    where
      by_case :
          (o : Outcome A)
          → ((a : A) → o ≡ done a → Q a)
          → Holds (m w).1
          → Holds (after f o (m w).1).1
      by_case (done a) q h' = kf a (q a refl) (m w).1 h'
      by_case (raised e) q h' = h'
      by_case going_on q h' = h'

  All-snoc :
      (xs : List EventEnvelope) (e : EventEnvelope)
      → All Allowed xs
      → Allowed e
      → All Allowed (xs ++ e ∷ [])
  All-snoc [] e h a = (a, tt)
  All-snoc (x ∷ xs) e (p, h) a = (p, All-snoc xs e h a)

  module _ (O : Outside) (state : SessionState) where
    settle-Keeps :
        (envelope : EventEnvelope) (answer : Option String) → Keeps (settle O envelope answer)
    unfolding Keeps Holds settle
    settle-Keeps envelope none w h = h
    settle-Keeps envelope (some text) w h = h

    stored :
        (envelope : EventEnvelope)
        → Allowed envelope
        → Keeps (λ w. (done tt, record w { emitted = w.emitted ++ envelope ∷ [] }))
    unfolding Keeps Holds
    stored envelope a w (t, es) = (t, All-snoc w.emitted envelope es a)

    pub store_event-Keeps :
        (envelope : EventEnvelope) → Allowed envelope → Keeps (store_event O state envelope)
    unfolding store_event
    store_event-Keeps envelope a =
        bind-Keeps _ _ (timed-Keeps O (append_event state.session_id envelope))
          λ _. stored envelope a

    deliver_event-Keeps : (envelope : EventEnvelope) → Keeps (deliver_event O state envelope)
    unfolding deliver_event Keeps Holds
    deliver_event-Keeps envelope w h = h

    -- The law is kept by an event of a kind and payload that are allowed.
    pub emit_event-Keeps :
        (event_type : String) (payload : Fields) (suffix : Option String)
        → ((n : ℕ) → Allowed (session_envelope O state event_type payload suffix n))
        → Keeps (emit_event O state event_type payload suffix)
    unfolding emit_event
    emit_event-Keeps event_type payload suffix allowed = bind-Keeps _ _ reading-Keeps λ n.
        let envelope = session_envelope O state event_type payload suffix n in
        bind-Keeps _ _ (store_event-Keeps envelope (allowed n))
          λ _. bind-Keeps _ _ (deliver_event-Keeps envelope) λ answer. settle-Keeps envelope answer

    forgive-Keeps :
        (envelope : EventEnvelope) (o : Outcome (Option String)) (w : World)
        → Holds w
        → Holds (forgive O envelope o w).1
    unfolding Holds
    forgive-Keeps envelope (done none) w h = h
    forgive-Keeps envelope (done (some text)) w h = h
    forgive-Keeps envelope (raised e) w h = h
    forgive-Keeps envelope going_on w h = h

    leniently-Keeps :
        (envelope : EventEnvelope) (m : M (Option String))
        → Keeps m
        → Keeps (leniently O envelope m)
    unfolding Keeps
    leniently-Keeps envelope m km w h = forgive-Keeps envelope (m w).0 (m w).1 (km w h)

    pub emit_stream_event-Keeps :
        (payload : Fields)
        → ((suffix : Option String) (n : ℕ)
            → Allowed (session_envelope O state "agent_stream_event" payload suffix n))
        → Keeps (emit_stream_event O state payload)
    unfolding emit_stream_event
    emit_stream_event-Keeps payload allowed = bind-Keeps _ _ reading-Keeps λ n.
        let suffix = O.stream_suffix payload in
        let envelope = session_envelope O state "agent_stream_event" payload suffix n in
        leniently-Keeps envelope _ (
          bind-Keeps _ _ (store_event-Keeps envelope (allowed suffix n))
            λ _. deliver_event-Keeps envelope)

  pub conditional-Keeps :
      {A : Type 0} (b : Bool) (m k : M A) → Keeps m → Keeps k → Keeps (λ w. if b then m w else k w)
  unfolding Keeps
  conditional-Keeps true m k km kk w h = km w h
  conditional-Keeps false m k km kk w h = kk w h

  pub choice-Keeps :
      {A : Type 0} (b : Bool) (m k : M A)
      → Keeps m
      → Keeps k
      → Keeps (if◌then◌else◌ {A = M A} b m k)
  choice-Keeps true m k km kk = km
  choice-Keeps false m k km kk = kk
