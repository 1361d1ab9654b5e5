-- ===== src/Eval/RunStore/Delivery.antt =====
-- The events of a case: each is recorded once, whatever the buyer sends again, and no key in the clear.
use codex_browser.Prelude.{
  ℕ, String, ◌≢◌, ◌⊎◌, ◌&&◌, ◌==◌, subst, one_of, true, false, ◌≡◌, refl, inl, inr, ap, sym, ◌∙◌,
  Option, none, some, List, [], ◌∷◌, ◌++◌, eq_iff, arith, Bool-cases, any, All,
}
use mathlib.Core.Bool.{true≢false}
use codex_browser.Eval.Models.{EvalRunCase, BuyerCallbackEnvelope}
use codex_browser.Eval.RunStore.{
  RunLib, RunStore, CaseUpdate, same_event, has_callback_event, redact_callback_event, updated_case,
  change_case, append_callback_event, append_update, redacted_idempotency_key,
  idempotency_key_aliases, is_known,
}
use codex_browser.Eval.RunStore.Frame.{
  case_of, is_some-injective, change-IsFiled, IsFiled, change-Rewrites, HoldsOfCases, preserved,
}

module _ (L : RunLib) where
  -- The two events differ in their ids, and in their keys, whichever form of each is taken: as it is,
  -- or redacted.
  abbrev pub Different : BuyerCallbackEnvelope → BuyerCallbackEnvelope → Type 0
  Different a b =
      let digest = redacted_idempotency_key L in
      (a.event_id ≢ b.event_id)
      × (a.idempotency_key ≢ b.idempotency_key)
      × (digest a.idempotency_key ≢ b.idempotency_key)
      × (a.idempotency_key ≢ digest b.idempotency_key)
      × (digest a.idempotency_key ≢ digest b.idempotency_key)

  -- Every event of the list is different from each later one.
  abbrev pub Distinct : List BuyerCallbackEnvelope → Type 0
  Distinct [] = Unit
  Distinct (e ∷ es) = All (λ later. Different later e) es × Distinct es

  abbrev pub HasDistinctEvents : EvalRunCase → Type 0
  HasDistinctEvents case = Distinct case.callback_events

  -- What the test of an append compares.
  no_common_alias :
      (a a' b b' : String)
      → any (λ key. one_of key (a ∷ a' ∷ [])) (b ∷ b' ∷ []) ≡ false
      → (a ≢ b) × (a' ≢ b) × (a ≢ b') × (a' ≢ b')
  no_common_alias a a' b b' h = (
    (λ e. ground (arith, h, eq_iff a b, eq_iff b a)),
    (λ e. ground (arith, h, eq_iff a' b, eq_iff b a')),
    (λ e. ground (arith, h, eq_iff a b', eq_iff b' a)),
    λ e. ground (arith, h, eq_iff a' b', eq_iff b' a'),
  )

  common_alias :
      (a a' b b' : String)
      → (a ≡ b) ⊎ (a' ≡ b) ⊎ (a ≡ b') ⊎ (a' ≡ b')
      → any (λ key. one_of key (a ∷ a' ∷ [])) (b ∷ b' ∷ []) ≡ true
  common_alias a a' b b' (inl e) = ground (arith, e, eq_iff a b, eq_iff b a)
  common_alias a a' b b' (inr (inl e)) = ground (arith, e, eq_iff a' b, eq_iff b a')
  common_alias a a' b b' (inr (inr (inl e))) = ground (arith, e, eq_iff a b', eq_iff b' a)
  common_alias a a' b b' (inr (inr (inr e))) = ground (arith, e, eq_iff a' b', eq_iff b' a')

  new-Different : (a b : BuyerCallbackEnvelope) → same_event L a b ≡ false → Different a b
  unfolding same_event idempotency_key_aliases
  new-Different a b h =
      let keys =
        no_common_alias a.idempotency_key (redacted_idempotency_key L a.idempotency_key)
          b.idempotency_key (redacted_idempotency_key L b.idempotency_key) (ground (arith, h)) in
      ((λ e. ground (arith, h, eq_iff b.event_id a.event_id)), keys.0, keys.1, keys.2, keys.3)

  pub All-snoc {ℓ} :
      {A : Type ℓ} (P : A → Type 0) (xs : List A) (x : A) → All P xs → P x → All P (xs ++ (x ∷ []))
  All-snoc P [] x h p = (p, tt)
  All-snoc P (y ∷ ys) x h p = (h.0, All-snoc P ys x h.1 p)

  pub Distinct-snoc :
      (es : List BuyerCallbackEnvelope) (e : BuyerCallbackEnvelope)
      → Distinct es
      → any (same_event L e) es ≡ false
      → Distinct (es ++ (e ∷ []))
  Distinct-snoc [] e h new = (tt, tt)
  Distinct-snoc (x ∷ es) e h new = elim (Bool-cases (same_event L e x)) [
    | inl f ↦ absurd (ground arith)
    | inr f ↦ (
      All-snoc (λ later. Different later x) es e h.0 (new-Different e x f),
      Distinct-snoc es e h.1 (ground arith),
    )
  ]

  -- An update of a case, with or without an event.
  after-Distinct :
      (u : CaseUpdate) (event : Option BuyerCallbackEnvelope) (old : EvalRunCase)
      → is_known L event old ≡ false
      → Distinct old.callback_events
      → Distinct (updated_case L u event old).callback_events
  unfolding updated_case has_callback_event
  after-Distinct u none old new h = h
  after-Distinct u (some e) old new h = Distinct-snoc old.callback_events e h new

  change-distinct :
      (now : ℕ) (r c : String) (u : CaseUpdate) (event : Option BuyerCallbackEnvelope)
      (s : RunStore)
      → IsFiled s
      → HoldsOfCases HasDistinctEvents s
      → HoldsOfCases HasDistinctEvents (change_case L now r c u event s).1
  change-distinct now r c u event s filed h =
      preserved L HasDistinctEvents r c u event s (change_case L now r c u event s).1
        (change-Rewrites L now r c u event s filed) h (λ old was. after-Distinct u event old)

  -- If no case holds two events with the same id, or with the same key in any of its forms, then so it
  -- is after any event is appended.
  pub append-distinct :
      (now : ℕ) (r c : String) (event : BuyerCallbackEnvelope) (u : CaseUpdate) (s : RunStore)
      → IsFiled s
      → HoldsOfCases HasDistinctEvents s
      → HoldsOfCases HasDistinctEvents (append_callback_event L now r c event u s).1
  unfolding append_callback_event
  append-distinct now r c event u s =
      change-distinct now r c (append_update L event u) (some (redact_callback_event L event)) s

  -- The event lies in the list, with its id and the redacted form of its key.
  unfoldable Stored : BuyerCallbackEnvelope → List BuyerCallbackEnvelope → Type 0
  Stored event [] = ⊥
  Stored event (x ∷ xs) =
      ((x.event_id ≡ event.event_id)
        × (x.idempotency_key ≡ redacted_idempotency_key L event.idempotency_key))
      ⊎ Stored event xs

  abbrev IsStoredAt : BuyerCallbackEnvelope → String → String → RunStore → Type 0
  IsStoredAt event r c s =
      (case : EvalRunCase) × (case_of s r c ≡ some case) × Stored event case.callback_events

  Stored-snoc :
      (event : BuyerCallbackEnvelope) (xs : List BuyerCallbackEnvelope)
      → Stored event (xs ++ (redact_callback_event L event ∷ []))
  unfolding Stored redact_callback_event
  Stored-snoc event [] = inl (refl, refl)
  Stored-snoc event (x ∷ xs) = inr (Stored-snoc event xs)

  Stored-append :
      (event : BuyerCallbackEnvelope) (xs ys : List BuyerCallbackEnvelope)
      → Stored event xs
      → Stored event (xs ++ ys)
  unfolding Stored
  Stored-append event [] ys h = absurd h
  Stored-append event (x ∷ xs) ys (inl h) = inl h
  Stored-append event (x ∷ xs) ys (inr h) = inr (Stored-append event xs ys h)

  -- An update keeps the events that are there.
  update-Stored :
      (event : BuyerCallbackEnvelope) (u : CaseUpdate) (more : Option BuyerCallbackEnvelope)
      (old : EvalRunCase)
      → Stored event old.callback_events
      → Stored event (updated_case L u more old).callback_events
  unfolding updated_case
  update-Stored event u none old h = h
  update-Stored event u (some e) old h = Stored-append event old.callback_events (e ∷ []) h

  change-IsStoredAt :
      (event : BuyerCallbackEnvelope) (r c : String) (now : ℕ) (r' c' : String) (u : CaseUpdate)
      (more : Option BuyerCallbackEnvelope) (s : RunStore)
      → IsFiled s
      → IsStoredAt event r c s
      → IsStoredAt event r c (change_case L now r' c' u more s).1
  change-IsStoredAt event r c now r' c' u more s filed (case, at, stored) =
      elim (change-Rewrites L now r' c' u more s filed) [
        | inl e ↦ (case, ap (λ t. case_of t r c) e ∙ at, stored)
        | inr (old, was, new, after) ↦ elim (Bool-cases ((r' == r) && (c' == c))) [
          | inr e ↦ (case, after r c ∙ rw e at, stored)
          | inl e ↦
              let one : r' ≡ r = ground (arith, e, eq_iff r' r) in
              let two : c' ≡ c = ground (arith, e, eq_iff c' c) in
              let same : old ≡ case =
                is_some-injective old case
                  (sym was ∙ ap (λ k. case_of s k c') one ∙ ap (λ k. case_of s r k) two ∙ at) in
              (
                updated_case L u more old,
                after r c ∙ rw e refl,
                update-Stored event u more old
                    (subst (λ x. Stored event x.callback_events) (sym same) stored),
              )
        ]
      ]

  -- Any updates of cases, with or without events, one after another.
  abbrev pub Change : Type 0
  Change = ℕ × String × String × CaseUpdate × Option BuyerCallbackEnvelope

  abbrev pub change_all : List Change → RunStore → RunStore
  change_all [] s = s
  change_all ((now, r, c, u, event) ∷ changes) s =
      change_all changes (change_case L now r c u event s).1

  change_all-IsFiled :
      (changes : List Change) (s : RunStore) → IsFiled s → IsFiled (change_all changes s)
  change_all-IsFiled [] s filed = filed
  change_all-IsFiled ((now, r, c, u, event) ∷ changes) s filed =
      change_all-IsFiled changes (change_case L now r c u event s).1
        (change-IsFiled L now r c u event s filed)

  change_all-IsStoredAt :
      (event : BuyerCallbackEnvelope) (r c : String) (changes : List Change) (s : RunStore)
      → IsFiled s
      → IsStoredAt event r c s
      → IsStoredAt event r c (change_all changes s)
  change_all-IsStoredAt event r c [] s filed h = h
  change_all-IsStoredAt event r c ((now, r', c', u, more) ∷ changes) s filed h =
      change_all-IsStoredAt event r c changes (change_case L now r' c' u more s).1
        (change-IsFiled L now r' c' u more s filed)
        (change-IsStoredAt event r c now r' c' u more s filed h)

  -- An append that writes anything stores the event.
  append-IsStoredAt :
      (now : ℕ) (r c : String) (event : BuyerCallbackEnvelope) (u : CaseUpdate) (s : RunStore)
      → IsFiled s
      → (append_callback_event L now r c event u s).1 ≢ s
      → IsStoredAt event r c (append_callback_event L now r c event u s).1
  unfolding append_callback_event updated_case
  append-IsStoredAt now r c event u s filed written =
      elim (change-Rewrites L now r c (append_update L event u)
        (some (redact_callback_event L event)) s filed) [
          | inl e ↦ absurd (written e)
          | inr (old, was, new, after) ↦ (
            updated_case L (append_update L event u) (some (redact_callback_event L event)) old,
            after r c ∙ ground (arith, eq_iff r r, eq_iff c c),
            Stored-snoc event old.callback_events,
          )
        ]

  -- The buyer sends the event again: with its id, or with its key as it was or in its redacted form.
  abbrev pub IsResent : BuyerCallbackEnvelope → BuyerCallbackEnvelope → Type 0
  IsResent event' event =
      (event'.event_id ≡ event.event_id)
      ⊎ (event'.idempotency_key ≡ event.idempotency_key)
      ⊎ (event'.idempotency_key ≡ redacted_idempotency_key L event.idempotency_key)

  resent_same :
      (event event' x : BuyerCallbackEnvelope)
      → IsResent event' event
      → x.event_id ≡ event.event_id
      → x.idempotency_key ≡ redacted_idempotency_key L event.idempotency_key
      → same_event L (redact_callback_event L event') x ≡ true
  unfolding same_event redact_callback_event idempotency_key_aliases
  resent_same event event' x (inl e) id key =
      rw (id, e) (ground (arith, eq_iff event.event_id event.event_id))
  resent_same event event' x (inr (inl e)) id key =
      let found =
        common_alias (redacted_idempotency_key L event'.idempotency_key)
          (redacted_idempotency_key L (redacted_idempotency_key L event'.idempotency_key))
          x.idempotency_key (redacted_idempotency_key L x.idempotency_key)
          (inl (ap (redacted_idempotency_key L) e ∙ sym key)) in
      ground (arith, found)
  resent_same event event' x (inr (inr e)) id key =
      let found =
        common_alias (redacted_idempotency_key L event'.idempotency_key)
          (redacted_idempotency_key L (redacted_idempotency_key L event'.idempotency_key))
          x.idempotency_key (redacted_idempotency_key L x.idempotency_key)
          (inr (inr (inl (ap (redacted_idempotency_key L) (e ∙ sym key))))) in
      ground (arith, found)

  resent_known :
      (event event' : BuyerCallbackEnvelope) (xs : List BuyerCallbackEnvelope)
      → IsResent event' event
      → Stored event xs
      → any (same_event L (redact_callback_event L event')) xs ≡ true
  unfolding Stored
  resent_known event event' [] again h = absurd h
  resent_known event event' (x ∷ xs) again (inl (id, key)) =
      ground (arith, resent_same event event' x again id key)
  resent_known event event' (x ∷ xs) again (inr h) =
      ground (arith, resent_known event event' xs again h)

  -- A known event changes nothing.
  known_ignored :
      (now : ℕ) (r c : String) (u : CaseUpdate) (event : BuyerCallbackEnvelope) (s : RunStore)
      (case : EvalRunCase)
      → IsFiled s
      → case_of s r c ≡ some case
      → has_callback_event L case event ≡ true
      → (change_case L now r c u (some event) s).1 ≡ s
  known_ignored now r c u event s case filed at known =
      elim (change-Rewrites L now r c u (some event) s filed) [
        | inl e ↦ e
        | inr (old, was, new, after) ↦ absurd (
            true≢false (
              sym known
              ∙ ap (λ x. has_callback_event L x event) (is_some-injective case old (sym at ∙ was))
              ∙ new))
      ]

  -- An event is appended to a case, and something is written; then any updates of cases follow, with
  -- other events or without; then an event comes for the same case with the same id, or with the same
  -- key, in the clear or redacted. Whatever else it carries, and whatever updates come with it,
  -- nothing is written.
  pub redelivery_ignored :
      (now now' : ℕ) (r c : String) (event event' : BuyerCallbackEnvelope) (u u' : CaseUpdate)
      (changes : List Change) (s : RunStore)
      → IsFiled s
      → (append_callback_event L now r c event u s).1 ≢ s
      → IsResent event' event
      → let t = change_all changes (append_callback_event L now r c event u s).1 in
        (append_callback_event L now' r c event' u' t).1 ≡ t
  unfolding append_callback_event has_callback_event
  redelivery_ignored now now' r c event event' u u' changes s filed written again =
      let first = (append_callback_event L now r c event u s).1 in
      let filed' : IsFiled first =
        change-IsFiled L now r c (append_update L event u) (some (redact_callback_event L event)) s
          filed in
      let (case, at, stored) =
        change_all-IsStoredAt event r c changes first filed'
          (append-IsStoredAt now r c event u s filed written) in
      known_ignored now' r c (append_update L event' u') (redact_callback_event L event')
        (change_all changes first) case (change_all-IsFiled changes first filed') at
        (resent_known event event' case.callback_events again stored)
