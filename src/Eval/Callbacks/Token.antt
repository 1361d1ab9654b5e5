-- ===== src/Eval/Callbacks/Token.antt =====
-- The shared secret of the callbacks.
use codex_browser.Prelude.{
  ℕ, String, Bool, true, false, ◌≡◌, ◌≢◌, refl, inl, inr, ap, ◌∙◌, some, arith, Option-cases,
  is_empty, strip,
}
use codex_browser.Eval.Models.{BuyerCallbackEnvelope, EvalError, ok, err}
use codex_browser.Eval.RunStore.{RunStore}
use codex_browser.Eval.Callbacks.{
  CallbackLib, CallbackRequest, first_token, check_token, validate_callback_token,
  receive_buyer_callback,
}
use codex_browser.Eval.Callbacks.Effect.{Result-cases}

module _ (C : CallbackLib) where
  token_lem :
      (q : CallbackRequest) (secret : String)
      → ((a b : String) → C.compare_digest a b ≡ some true → a ≡ b)
      → q.eval_callback_secret ≡ some secret
      → is_empty (strip secret) ≡ false
      → (b : Bool) → validate_callback_token C q ≡ ok b
      → first_token q.query_token q.header_token ≡ some secret
  unfolding validate_callback_token check_token
  token_lem q secret safe given blank b h =
      elim (Option-cases (first_token q.query_token q.header_token)) [
        | inl e ↦ absurd (ground (arith, h, e, given, blank))
        | inr (t, e) ↦ e ∙ ap some (safe t secret (ground (arith, h, e, given, blank)))
      ]

  -- With a secret that is not blank, a callback whose token (of the query or else the header) is not
  -- the secret leaves the store as it was and is answered by an error; asked is that `compare_digest`
  -- holds of equal strings only.
  pub unauthorized_refused :
      (now : ℕ) (q : CallbackRequest) (envelope : BuyerCallbackEnvelope) (s : RunStore)
      (secret : String)
      → ((a b : String) → C.compare_digest a b ≡ some true → a ≡ b)
      → q.eval_callback_secret ≡ some secret
      → is_empty (strip secret) ≡ false
      → first_token q.query_token q.header_token ≢ some secret
      → (e : EvalError) × (receive_buyer_callback C now q envelope s ≡ (err e, s))
  unfolding receive_buyer_callback
  unauthorized_refused now q envelope s secret safe given blank wrong =
      elim (Result-cases (validate_callback_token C q)) [
        | inl (e, f) ↦ (e, rw (receive_buyer_callback, f) refl)
        | inr (b, f) ↦ absurd (wrong (token_lem q secret safe given blank b f))
      ]
