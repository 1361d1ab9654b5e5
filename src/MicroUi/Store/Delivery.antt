-- ===== src/MicroUi/Store/Delivery.antt =====
-- Each event is taken once, and no subscriber's queue grows past its size.
use codex_browser.Prelude.{
  ℕ, suc, ◌<◌, ◌++◌, ◌∙◌, ap, sym, subst, ltb, if◌then◌else◌, false, ◌≡◌, ◌⊎◌, ◌≤◌, refl, inl, inr,
  List, [], ◌∷◌, arith, length, length-append, nat_eq, Bool-cases,
}
use codex_browser.Dict.{get}
use codex_browser.MicroUi.Store.{
  EventEnvelope, CallbackStore, put_nowait, offer, offer_all, publish, seen, add, set_queue,
  list_of,
}

length-offer :
    (q : List EventEnvelope) (e : EventEnvelope) → length q ≤ 200 → length (offer q e) ≤ 200
unfolding offer put_nowait
length-offer [] e h = omega arith
length-offer (x ∷ q) e h =
    ground (arith, h, length-append (x ∷ q) (e ∷ []), length-append q (e ∷ []))

-- No queue holds more than it may.
abbrev pub HasBoundedQueues : CallbackStore → Type 0
HasBoundedQueues s = (q : ℕ) → length (s.queues q) ≤ 200

length-offer_all :
    (qs : List ℕ) (e : EventEnvelope) (queues : ℕ → List EventEnvelope)
    → ((q : ℕ) → length (queues q) ≤ 200)
    → (q : ℕ) → length (offer_all qs e queues q) ≤ 200
unfolding offer_all
length-offer_all [] e queues h q = h q
length-offer_all (r ∷ qs) e queues h q =
    length-offer_all qs e (set_queue r (offer (queues r) e) queues) set_bounded q
  where
    set_bounded : (k : ℕ) → length (set_queue r (offer (queues r) e) queues k) ≤ 200
    set_bounded k = elim (Bool-cases (nat_eq r k)) [
      | inl f ↦ rw f (length-offer (queues r) e (h r))
      | inr f ↦ rw f (h k)
    ]

-- How often a queue stands among subscribers.
abbrev pub times : ℕ → List ℕ → ℕ
times q [] = 0
times q (r ∷ rs) = if nat_eq r q then suc (times q rs) else times q rs

-- The event comes last; where 200 events are waiting, the oldest of them goes.
abbrev pub MakesRoom : List EventEnvelope → EventEnvelope → List EventEnvelope → Type 0
MakesRoom before e after =
    ((length before < 200) × (after ≡ before ++ (e ∷ [])))
    ⊎ ((oldest : EventEnvelope) × (rest : List EventEnvelope) × (before ≡ oldest ∷ rest)
        × (length before ≡ 200)
        × (after ≡ rest ++ (e ∷ [])))

offer-MakesRoom :
    (q : List EventEnvelope) (e : EventEnvelope) → length q ≤ 200 → MakesRoom q e (offer q e)
unfolding offer put_nowait
offer-MakesRoom [] e h = inl (omega arith, refl)
offer-MakesRoom (x ∷ q) e h = elim (Bool-cases (ltb (length (x ∷ q)) 200)) [
  | inl f ↦ inl (ground arith, ground (arith, f))
  | inr f ↦ inr (x, q, refl, ground arith, ground (arith, h, f))
]

-- Offers to other queues leave a queue as it is.
offer_all-none :
    (qs : List ℕ) (e : EventEnvelope) (queues : ℕ → List EventEnvelope) (q : ℕ)
    → times q qs ≡ 0
    → offer_all qs e queues q ≡ queues q
unfolding offer_all
offer_all-none [] e queues q h = refl
offer_all-none (r ∷ qs) e queues q h = elim (Bool-cases (nat_eq r q)) [
  | inl f ↦ absurd (ground (arith, h, f))
  | inr f ↦
      offer_all-none qs e (set_queue r (offer (queues r) e) queues) q (ground (arith, h, f))
      ∙ rw f refl
]

offer_all-once :
    (qs : List ℕ) (e : EventEnvelope) (queues : ℕ → List EventEnvelope) (q : ℕ)
    → times q qs ≡ 1
    → offer_all qs e queues q ≡ offer (queues q) e
unfolding offer_all
offer_all-once [] e queues q h = absurd (omega (arith, h))
offer_all-once (r ∷ qs) e queues q h = elim (Bool-cases (nat_eq r q)) [
  | inl f ↦
      let same : r ≡ q = ground (arith, f) in
      offer_all-none qs e (set_queue r (offer (queues r) e) queues) q (ground (arith, h, f))
      ∙ rw f (ap (λ k. offer (queues k) e) same)
  | inr f ↦
      offer_all-once qs e (set_queue r (offer (queues r) e) queues) q (ground (arith, h, f))
      ∙ rw f refl
]

offer_all-append :
    (qs rs : List ℕ) (e : EventEnvelope) (queues : ℕ → List EventEnvelope)
    → offer_all rs e (offer_all qs e queues) ≡ offer_all (qs ++ rs) e queues
unfolding offer_all
offer_all-append [] rs e queues = refl
offer_all-append (q ∷ qs) rs e queues =
    offer_all-append qs rs e (set_queue q (offer (queues q) e) queues)

-- The queues that are to get an event: those of its session, and those of all sessions.
abbrev pub subscribed : EventEnvelope → CallbackStore → List ℕ
subscribed e s = list_of (get s.subscribers_by_session e.session_id) ++ s.global_subscribers

new_queues :
    (e : EventEnvelope) (s : CallbackStore)
    → seen s e ≡ false
    → (add e s).1.queues ≡ offer_all (subscribed e s) e s.queues
unfolding add publish
new_queues e s f =
    rw (add, f)
      (offer_all-append (list_of (get s.subscribers_by_session e.session_id)) s.global_subscribers e
        s.queues)

-- If every queue holds at most 200 events, then so it does after any event is added. An event that is
-- new comes last in the queue of each subscriber of its session and of all sessions, as one that
-- subscribes once; a queue that is full loses its oldest event for it, and nothing else is lost; all other
-- queues stay as they are.
pub add-HasBoundedQueues :
    (e : EventEnvelope) (s : CallbackStore)
    → HasBoundedQueues s
    → HasBoundedQueues (add e s).1
      × (seen s e ≡ false
          → (q : ℕ)
          → (times q (subscribed e s) ≡ 1 → MakesRoom (s.queues q) e ((add e s).1.queues q))
            × (times q (subscribed e s) ≡ 0 → (add e s).1.queues q ≡ s.queues q))
unfolding add publish
add-HasBoundedQueues e s h = (bounded, delivered)
  where
    bounded : HasBoundedQueues (add e s).1
    bounded q = elim (Bool-cases (seen s e)) [
      | inl f ↦ rw (add, f) (h q)
      | inr f ↦ rw (new_queues e s f) (length-offer_all (subscribed e s) e s.queues h q)
    ]

    delivered :
        seen s e ≡ false
        → (q : ℕ)
        → (times q (subscribed e s) ≡ 1 → MakesRoom (s.queues q) e ((add e s).1.queues q))
          × (times q (subscribed e s) ≡ 0 → (add e s).1.queues q ≡ s.queues q)
    delivered f q = (
      (λ once.
          subst (MakesRoom (s.queues q) e)
            (sym (
              ap (λ k. k q) (new_queues e s f) ∙ offer_all-once (subscribed e s) e s.queues q once))
            (offer-MakesRoom (s.queues q) e (h q))),
      λ never.
          ap (λ k. k q) (new_queues e s f) ∙ offer_all-none (subscribed e s) e s.queues q never,
    )
