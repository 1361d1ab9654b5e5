-- ===== src/Eval/Callbacks/Effect.antt =====
-- What a callback does to the run store.
use codex_browser.Prelude.{
  ℕ, String, ◌≡◌, refl, ◌⊎◌, inl, inr, ap, sym, ◌∙◌, some, ◌==◌, ◌&&◌, arith, if◌then◌else◌,
  Option-cases,
}
use codex_browser.Eval.Models.{EvalRunCase, BuyerCallbackEnvelope, EvalError, Result, ok, err}
use codex_browser.Eval.Helpers.{find_case}
use codex_browser.Eval.RunStore.{
  RunStore, CaseUpdate, redact_callback_event, updated_case, append_update, append_callback_event,
}
use codex_browser.Eval.RunStore.Frame.{
  case_of, IsFiled, change-Rewrites, read-cases, is_some-injective,
}
use codex_browser.Eval.Callbacks.{
  CallbackLib, CallbackRequest, and_then, state_updates_for_callback, checked_updates,
  validate_callback_token, resolve_eval_ids, record_callback, receive_buyer_callback,
}

pub Result-cases :
    {A : Type 0} (x : Result A) → ((e : EvalError) × (x ≡ err e)) ⊎ ((a : A) × (x ≡ ok a))
Result-cases (err e) = inl (e, refl)
Result-cases (ok a) = inr (a, refl)

-- The event that is recorded, with the ids of its case.
abbrev pub addressed : String → String → BuyerCallbackEnvelope → BuyerCallbackEnvelope
addressed r c envelope = record envelope { eval_run_id = some r; eval_case_id = some c }

module _ (C : CallbackLib) where
  -- The updates that are written are those for the case that is there.
  checked-updates :
      (s : RunStore) (envelope : BuyerCallbackEnvelope) (r c : String) (u : CaseUpdate)
      → checked_updates C s envelope r c ≡ ok u
      → (case : EvalRunCase) × (case_of s r c ≡ some case)
        × (state_updates_for_callback C envelope case ≡ ok u)
  unfolding checked_updates case_of and_then
  checked-updates s envelope r c u h = elim (read-cases s r) [
    | inr (e, f) ↦ absurd (ground (arith, h, f))
    | inl (m, f, g) ↦ elim (Option-cases (find_case m.cases c)) [
      | inl k ↦ absurd (ground (arith, h, f, k))
      | inr (case, k) ↦ (case, rw (case_of, g) k, ground (arith, h, f, k))
    ]
  ]

  -- The case with the updates for an event, and the event itself.
  abbrev pub after_event :
      BuyerCallbackEnvelope → String → String → CaseUpdate → EvalRunCase → EvalRunCase
  after_event envelope r c u old =
      let event = addressed r c envelope in
      updated_case C.run_lib (append_update C.run_lib event u)
        (some (redact_callback_event C.run_lib event)) old

  -- The store is as it was, or the one case of the event has the updates for it, and the event.
  abbrev pub HasEffect : BuyerCallbackEnvelope → RunStore → RunStore → Type 0
  HasEffect envelope s s' =
      (s' ≡ s)
      ⊎ ((r c : String) × (u : CaseUpdate) × (old : EvalRunCase) × (case_of s r c ≡ some old)
          × (state_updates_for_callback C envelope old ≡ ok u)
          × ((r' c' : String)
              → case_of s' r' c' ≡ (
                  if (r == r') && (c == c')
                  then some (after_event envelope r c u old)
                  else case_of s r' c')))

  append-HasEffect :
      (now : ℕ) (envelope : BuyerCallbackEnvelope) (s : RunStore) (r c : String) (u : CaseUpdate)
      → IsFiled s
      → checked_updates C s envelope r c ≡ ok u
      → HasEffect envelope s
          (append_callback_event C.run_lib now r c (addressed r c envelope) u s).1
  unfolding append_callback_event
  append-HasEffect now envelope s r c u filed h =
      let event = addressed r c envelope in
      elim (change-Rewrites C.run_lib now r c (append_update C.run_lib event u)
        (some (redact_callback_event C.run_lib event)) s filed) [
          | inl e ↦ inl e
          | inr (old, was, new, after) ↦
              let found = checked-updates s envelope r c u h in
              inr (
                r,
                c,
                u,
                old,
                was,
                ap (state_updates_for_callback C envelope)
                      (is_some-injective old found.0 (sym was ∙ found.1))
                    ∙ found.2,
                after,
              )
        ]

  pub receive_effect :
      (now : ℕ) (q : CallbackRequest) (envelope : BuyerCallbackEnvelope) (s : RunStore)
      → IsFiled s
      → HasEffect envelope s (receive_buyer_callback C now q envelope s).1
  unfolding receive_buyer_callback record_callback
  receive_effect now q envelope s filed = elim (Result-cases (validate_callback_token C q)) [
    | inl (e, f) ↦ inl (rw (f, receive_buyer_callback) refl)
    | inr (b, f) ↦ elim (Result-cases (resolve_eval_ids s envelope)) [
      | inl (e, g) ↦ inl (rw (f, g, receive_buyer_callback) refl)
      | inr ((r, c), g) ↦ elim (Result-cases (checked_updates C s envelope r c)) [
        | inl (e, k) ↦ inl (rw (receive_buyer_callback, f, g, record_callback, k) refl)
        | inr (u, k) ↦
            rw (receive_buyer_callback, f, g, record_callback, k)
              (append-HasEffect now envelope s r c u filed k)
      ]
    ]
  ]
