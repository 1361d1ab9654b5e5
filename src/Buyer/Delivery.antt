-- ===== src/Buyer/Delivery.antt =====
-- buyer/app/callback.py: the envelope of an event and its delivery. The HTTP client is the argument
-- `post`, which tells of each attempt whether it was answered without an error; the delays between the
-- attempts are not modelled.
use codex_browser.Prelude.{
  ℕ, zero, suc, ◌<◌, ◌≤◌, String, Bool, true, false, ◌≡◌, ◌⊎◌, inl, inr, refl, ap, sym, ◌∙◌, Option,
  none, some, if◌then◌else◌, is_empty, concat, arith, Bool-cases, ◌+◌,
}
use codex_browser.Json.{Fields}
use codex_browser.Buyer.Models.{EventEnvelope}

-- `idempotency_suffix or event_id`
unfoldable pub suffix_or : Option String → String → String
suffix_or none event_id = event_id
suffix_or (some suffix) event_id = if is_empty suffix then event_id else suffix

unfoldable pub build_envelope :
    String
    → ℕ
    → String
    → String
    → Fields
    → Option String
    → Option String
    → Option String
    → EventEnvelope
unfolding suffix_or
build_envelope event_id now session_id event_type payload suffix eval_run_id eval_case_id = record {
  event_id = event_id;
  session_id = session_id;
  event_type = event_type;
  occurred_at = now;
  idempotency_key =
      concat session_id (concat ":" (concat event_type (concat ":" (suffix_or suffix event_id))));
  payload = payload;
  eval_run_id = eval_run_id;
  eval_case_id = eval_case_id;
}

-- What `deliver` does: it returns after so many attempts, or raises `CallbackDeliveryError`.
pub data Delivered : Type 0 where
  returned : ℕ → Delivered
  delivery_error : Delivered

-- The attempts from number `attempt` on, of which `left` are left.
unfoldable pub attempts_from : (ℕ → Bool) → ℕ → ℕ → Delivered
attempts_from post attempt zero = delivery_error
attempts_from post attempt (suc left) =
    let rest = attempts_from post (suc attempt) left in
    if post attempt then returned attempt else rest

-- `for attempt in range(1, attempts + 1)`
unfoldable pub deliver : (ℕ → Bool) → ℕ → Delivered
unfolding attempts_from
deliver post callback_retries = attempts_from post 1 callback_retries

-- What the loop promises of the attempt that it returns after.
abbrev pub IsFirstSuccess : (ℕ → Bool) → ℕ → ℕ → ℕ → Type 0
IsFirstSuccess post attempt end n =
    (post n ≡ true) × (attempt ≤ n) × (n < end) × ((k : ℕ) → attempt ≤ k → k < n → post k ≡ false)

Nat-cases : (a k : ℕ) → a ≤ k → (a ≡ k) ⊎ (suc a ≤ k)
Nat-cases a k h = omega (arith, h)

returned-injective : (m n : ℕ) → returned m ≡ returned n → m ≡ n
returned-injective m n h = ap number h
  where
    number : Delivered → ℕ
    number (returned k) = k
    number delivery_error = m

attempts_lem :
    (post : ℕ → Bool) (attempt left n : ℕ)
    → attempts_from post attempt left ≡ returned n
    → IsFirstSuccess post attempt (attempt + left) n
unfolding attempts_from
attempts_lem post attempt zero n h = absurd (ground (arith, h))
attempts_lem post attempt (suc left) n h = elim (Bool-cases (post attempt)) [
  | inl e ↦
      let same = returned-injective attempt n (sym (rw e refl) ∙ h) in
      (
        ap post (sym same) ∙ e,
        omega (arith, same),
        omega (arith, same),
        λ k low high. absurd (omega (arith, same, low, high)),
      )
  | inr e ↦
      let (good, low, high, before) =
        attempts_lem post (suc attempt) left n (sym (rw e refl) ∙ h) in
      (
        good,
        omega (arith, low),
        omega (arith, high),
        λ k from to. elim (Nat-cases attempt k from) [
          | inl same ↦ ap post (sym same) ∙ e
          | inr later ↦ before k later to
        ],
      )
]

failed_lem :
    (post : ℕ → Bool) (attempt left : ℕ)
    → attempts_from post attempt left ≡ delivery_error
    → (k : ℕ) → attempt ≤ k
    → k < attempt + left
    → post k ≡ false
unfolding attempts_from
failed_lem post attempt zero h k from to = absurd (omega (arith, from, to))
failed_lem post attempt (suc left) h k from to = elim (Bool-cases (post attempt)) [
  | inl e ↦ absurd (ground (arith, h, e))
  | inr e ↦ elim (Nat-cases attempt k from) [
    | inl same ↦ ap post (sym same) ∙ e
    | inr later ↦
        failed_lem post (suc attempt) left (sym (rw e refl) ∙ h) k later (omega (arith, to))
  ]
]

Delivered-cases : (d : Delivered) → (d ≡ delivery_error) ⊎ ((n : ℕ) × (d ≡ returned n))
Delivered-cases delivery_error = inl refl
Delivered-cases (returned n) = inr (n, refl)

-- If one of the `callback_retries` attempts would be answered without an error, then `deliver` returns,
-- after the first such attempt: every attempt before it failed, and none is made after it.
pub deliver-IsFirstSuccess :
    (post : ℕ → Bool) (callback_retries k : ℕ)
    → 1 ≤ k
    → k ≤ callback_retries
    → post k ≡ true
    → (n : ℕ) × (deliver post callback_retries ≡ returned n)
      × IsFirstSuccess post 1 (1 + callback_retries) n
unfolding deliver
deliver-IsFirstSuccess post callback_retries k from to good =
    elim (Delivered-cases (attempts_from post 1 callback_retries)) [
      | inl e ↦
          absurd
            (ground (arith, good, failed_lem post 1 callback_retries e k from (omega (arith, to))))
      | inr (n, e) ↦ (n, e, attempts_lem post 1 callback_retries n e)
    ]
