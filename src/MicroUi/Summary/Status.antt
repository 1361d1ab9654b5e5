-- ===== src/MicroUi/Summary/Status.antt =====
-- The status that a session shows after an unverified payment.
use codex_browser.Prelude.{
  String, Option-cases, ap, ◌++◌, inl, inr, ◌∙◌, Bool-cases, one_of, Bool, true, not, ◌≡◌, refl,
  some, List, [], ◌∷◌, ◌==◌, arith, ◌||◌, all,
}
use codex_browser.Json.{str}
use codex_browser.MicroUi.Store.{EventEnvelope}
use codex_browser.MicroUi.Summary.{
  SessionSummary, no_progress, summary_of, shown_status, text_field, resuming, Progress, is_text,
  value_of, on_ask, on_resumed, on_payment_ready, on_payment_unverified, on_finished, on_started,
  observe, observe_all,
}

-- The event does not end the scenario with a status other than `completed`.
unfoldable pub is_harmless : EventEnvelope → Bool
unfolding value_of
is_harmless event =
    not (event.event_type == "scenario_finished")
    || is_text (value_of event.payload "status") "completed"

-- What each test of the loop does to the status.
ask_lem : (event : EventEnvelope) (p : Progress) → (on_ask event p).status ≡ p.status
unfolding on_ask
ask_lem event p = elim (Bool-cases (event.event_type == "ask_user")) [
  | inl e ↦ rw (on_ask, e) refl
  | inr e ↦ rw (on_ask, e) refl
]

resumed_lem : (event : EventEnvelope) (p : Progress) → (on_resumed event p).status ≡ p.status
unfolding on_resumed
resumed_lem event p = elim (Bool-cases (one_of event.event_type resuming)) [
  | inl e ↦ rw (on_resumed, e) refl
  | inr e ↦ rw (on_resumed, e) refl
]

ready_lem : (event : EventEnvelope) (p : Progress) → (on_payment_ready event p).status ≡ p.status
unfolding on_payment_ready
ready_lem event p = elim (Bool-cases (event.event_type == "payment_ready")) [
  | inl e ↦ rw (on_payment_ready, e) refl
  | inr e ↦ rw (on_payment_ready, e) refl
]

unverified_lem :
    (event : EventEnvelope) (p : Progress)
    → p.status ≡ some (str "unverified")
    → (on_payment_unverified event p).status ≡ some (str "unverified")
unfolding on_payment_unverified
unverified_lem event p u = elim (Bool-cases (event.event_type == "payment_unverified")) [
  | inl e ↦ rw (on_payment_unverified, e) refl
  | inr e ↦ rw (on_payment_unverified, e) u
]

kept_when_finished :
    (event : EventEnvelope) (p : Progress)
    → (event.event_type == "scenario_finished") ≡ true
    → is_harmless event ≡ true
    → p.status ≡ some (str "unverified")
    → (on_finished event p).status ≡ some (str "unverified")
unfolding on_finished is_harmless
kept_when_finished event p e h u =
    let done : is_text (value_of event.payload "status") "completed" ≡ true =
      ground (arith, h, e) in
    rw (on_finished, e, done, u) refl

finished_lem :
    (event : EventEnvelope) (p : Progress)
    → is_harmless event ≡ true
    → p.status ≡ some (str "unverified")
    → (on_finished event p).status ≡ some (str "unverified")
unfolding on_finished is_harmless value_of
finished_lem event p h u = elim (Bool-cases (event.event_type == "scenario_finished")) [
  | inl e ↦ kept_when_finished event p e h u
  | inr e ↦ rw (on_finished, e) u
]

started_lem : (event : EventEnvelope) (p : Progress) → (on_started event p).status ≡ p.status
unfolding on_started
started_lem event p = elim (Bool-cases (event.event_type == "session_started")) [
  | inl e ↦ rw (on_started, e) refl
  | inr e ↦ rw (on_started, e) refl
]

step_lem :
    (p : Progress) (event : EventEnvelope)
    → is_harmless event ≡ true
    → p.status ≡ some (str "unverified")
    → (observe p event).status ≡ some (str "unverified")
unfolding observe
step_lem p event h u =
    let asked = on_ask event p in
    let resumed = on_resumed event asked in
    let ready = on_payment_ready event resumed in
    let unverified = on_payment_unverified event ready in
    started_lem event (on_finished event unverified)
    ∙ finished_lem event unverified h (
        unverified_lem event ready
          (ready_lem event resumed ∙ resumed_lem event asked ∙ ask_lem event p ∙ u))

first_lem :
    (p : Progress) (event : EventEnvelope)
    → event.event_type ≡ "payment_unverified"
    → (observe p event).status ≡ some (str "unverified")
unfolding observe on_payment_unverified on_finished on_started
first_lem p event t = rw (on_started, on_finished, on_payment_unverified, t) refl

kept_lem :
    (p : Progress) (events : List EventEnvelope)
    → all is_harmless events ≡ true
    → p.status ≡ some (str "unverified")
    → (observe_all p events).status ≡ some (str "unverified")
unfolding observe_all
kept_lem p [] h u = u
kept_lem p (event ∷ events) h u =
    kept_lem (observe p event) events (ground (arith, h)) (step_lem p event (ground (arith, h)) u)

observe_all-append :
    (p : Progress) (xs ys : List EventEnvelope)
    → observe_all p (xs ++ ys) ≡ observe_all (observe_all p xs) ys
unfolding observe_all
observe_all-append p [] ys = refl
observe_all-append p (x ∷ xs) ys = observe_all-append (observe p x) xs ys

unverified_progress :
    (before after : List EventEnvelope) (event : EventEnvelope)
    → event.event_type ≡ "payment_unverified"
    → all is_harmless after ≡ true
    → (observe_all no_progress (before ++ (event ∷ after))).status ≡ some (str "unverified")
unfolding observe_all
unverified_progress before after event t h =
    ap (λ p. p.status) (observe_all-append no_progress before (event ∷ after))
    ∙ kept_lem (observe (observe_all no_progress before) event) after h
        (first_lem (observe_all no_progress before) event t)

shown_lem :
    (session_id : String) (first : EventEnvelope) (events : List EventEnvelope)
    (summary : SessionSummary)
    → (observe_all no_progress (first ∷ events)).status ≡ some (str "unverified")
    → summary_of session_id first events ≡ some summary
    → summary.status ≡ some "unverified"
unfolding summary_of shown_status text_field
shown_lem session_id first events summary u h =
    let p = observe_all no_progress (first ∷ events) in
    elim (Option-cases (text_field p.waiting_reply_id)) [
      | inl e ↦ absurd (ground (arith, h, e))
      | inr (w, e) ↦ elim (Option-cases (text_field p.novnc_url)) [
        | inl f ↦ absurd (ground (arith, h, e, f, u))
        | inr (n, f) ↦ ground (arith, h, e, f, u)
      ]
    ]

-- A session that has an unverified payment among its events, and after it none that ends the
-- scenario with a status other than `completed`, has a summary with the status `unverified`, where the
-- fields of a summary are texts or `None` so that it has one: whatever came before, and through an end with `completed`, further questions, steps
-- and payments.
pub unverified_kept :
    (session_id : String) (first event : EventEnvelope) (events before after : List EventEnvelope)
    (summary : SessionSummary)
    → first ∷ events ≡ before ++ (event ∷ after)
    → event.event_type ≡ "payment_unverified"
    → all is_harmless after ≡ true
    → summary_of session_id first events ≡ some summary
    → summary.status ≡ some "unverified"
unverified_kept session_id first event events before after summary split t h shown =
    shown_lem session_id first events summary
      (ap (λ es. (observe_all no_progress es).status) split
        ∙ unverified_progress before after event t h)
      shown
