-- ===== src/Eval/Callbacks/Waiting.antt =====
-- A case that waits for the operator knows which reply it waits for.
use codex_browser.Prelude.{
  ℕ, String, Bool, true, false, not, ◌≡◌, refl, inl, inr, ap, sym, subst, ◌∙◌, Option, none, some,
  ◌==◌, ◌&&◌, arith, Option-cases, Bool-cases, is_empty,
}
use codex_browser.Json.{Json, null, bool, num, str, arr, obj, member, nonempty_str}
use codex_browser.Eval.Models.{CaseRunState, EvalRunCase, BuyerCallbackEnvelope, ok}
use codex_browser.Eval.RunStore.{RunStore, CaseUpdate, set_if_present, updated_case}
use codex_browser.Eval.RunStore.Frame.{case_of, IsFiled, is_some-injective, HoldsOfCases}
use codex_browser.Eval.Callbacks.{
  CallbackLib, CallbackRequest, payload_string, and_then, is_waiting, open_updates,
  scenario_updates, state_updates_for_callback, receive_buyer_callback,
}
use codex_browser.Eval.Callbacks.Effect.{after_event, receive_effect}

-- A state and the reply that is waited for fit: the reply id is there, and not empty.
unfoldable pub knows_reply : CaseRunState → Option String → Bool
knows_reply CaseRunState.waiting_user none = false
knows_reply CaseRunState.waiting_user (some reply_id) = not (is_empty reply_id)
knows_reply _ waiting = true

abbrev pub CaseKnowsReply : EvalRunCase → Type 0
CaseKnowsReply case = knows_reply case.state case.waiting_reply_id ≡ true

nonempty_lem : (v : Option Json) (x : String) → nonempty_str v ≡ some x → is_empty x ≡ false
nonempty_lem (some (str (String.◌∷◌ c s))) x h =
    ap is_empty (sym (is_some-injective (String.◌∷◌ c s) x h))
nonempty_lem (some (str String.[])) x h = ground arith
nonempty_lem (some null) x h = ground arith
nonempty_lem (some (bool b)) x h = ground arith
nonempty_lem (some (num n)) x h = ground arith
nonempty_lem (some (arr l)) x h = ground arith
nonempty_lem (some (obj d)) x h = ground arith
nonempty_lem none x h = ground arith

module _ (C : CallbackLib) where
  open_lem :
      (envelope : BuyerCallbackEnvelope) (case : EvalRunCase) (u : CaseUpdate)
      → open_updates C envelope case ≡ ok u
      → CaseKnowsReply case
      → knows_reply
          (set_if_present case.state u.state)
          (set_if_present case.waiting_reply_id u.waiting_reply_id)
        ≡ true
  unfolding open_updates payload_string and_then is_waiting scenario_updates set_if_present
      knows_reply
  open_lem envelope case u h k =
      let v = member envelope.payload "reply_id" in
      elim (Option-cases (nonempty_str v)) [
        | inl e ↦ ground (arith, h, k, e)
        | inr (x, e) ↦ ground (arith, h, k, e, nonempty_lem v x e)
      ]

  updates_lem :
      (envelope : BuyerCallbackEnvelope) (case : EvalRunCase) (u : CaseUpdate)
      → state_updates_for_callback C envelope case ≡ ok u
      → CaseKnowsReply case
      → knows_reply
          (set_if_present case.state u.state)
          (set_if_present case.waiting_reply_id u.waiting_reply_id)
        ≡ true
  unfolding state_updates_for_callback set_if_present
  updates_lem envelope case u h k = ground (arith, h, k, open_lem envelope case u)

  -- If every case that waits for the operator has the id of a reply, not empty, in a store whose
  -- manifests lie in the directories of their own runs, then so it is after any callback.
  pub waiting_knows_reply :
      (now : ℕ) (q : CallbackRequest) (envelope : BuyerCallbackEnvelope) (s : RunStore)
      → IsFiled s
      → HoldsOfCases CaseKnowsReply s
      → HoldsOfCases CaseKnowsReply (receive_buyer_callback C now q envelope s).1
  unfolding updated_case
  waiting_knows_reply now q envelope s filed h r c case found =
      elim (receive_effect C now q envelope s filed) [
        | inl e ↦ h r c case (ap (λ t. case_of t r c) (sym e) ∙ found)
        | inr (r', c', u, old, was, upd, after) ↦ elim (Bool-cases ((r' == r) && (c' == c))) [
          | inr e ↦ h r c case (sym (after r c ∙ rw e refl) ∙ found)
          | inl e ↦
              subst CaseKnowsReply
                (is_some-injective (after_event C envelope r' c' u old) case
                  (sym (after r c ∙ rw e refl) ∙ found))
                (updates_lem envelope old u upd (h r' c' old was))
        ]
      ]
