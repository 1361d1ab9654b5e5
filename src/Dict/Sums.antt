-- ===== src/Dict/Sums.antt =====
-- Sums over the values of a dictionary, and predicates that hold of all of them.
use codex_browser.Prelude.{
  String, ℕ, ◌+◌, ◌≡◌, Option, none, some, [], ◌∷◌, arith, ◌==◌, sum_of, All, Bool-cases, inl, inr,
}
use codex_browser.Dict.Defs.{Dict, get, put}

abbrev pub value_or_zero {ℓ} : {V : Type ℓ} → (V → ℕ) → Option V → ℕ
value_or_zero f none = 0
value_or_zero f (some v) = f v

abbrev pub OrNone {ℓ κ} : {V : Type ℓ} → (V → Type κ) → Option V → Type κ
OrNone Q none = Unit
OrNone Q (some v) = Q v

module _ {ℓ} {V : Type ℓ} where
  pub sum_of-put :
      (f : V → ℕ) (d : Dict V) (k : String) (v : V)
      → sum_of (λ e. f e.1) (put d k v) + value_or_zero f (get d k) ≡ sum_of (λ e. f e.1) d + f v
  unfolding get put
  sum_of-put f [] k v = omega arith
  sum_of-put f ((j, w) ∷ d) k v = ground (arith, sum_of-put f d k v)

  pub All-put {κ} :
      (Q : V → Type κ) (d : Dict V) (k : String) (v : V)
      → All (λ e. Q e.1) d
      → Q v
      → All (λ e. Q e.1) (put d k v)
  unfolding put
  All-put Q [] k v h q = (q, tt)
  All-put Q ((j, w) ∷ d) k v (p, h) q = elim (Bool-cases (j == k)) [
    | inl e ↦ rw (put, e) (q, h)
    | inr e ↦ rw (put, e) (p, All-put Q d k v h q)
  ]

  pub All-get {κ} :
      (Q : V → Type κ) (d : Dict V) (k : String) → All (λ e. Q e.1) d → OrNone Q (get d k)
  unfolding get
  All-get Q [] k h = tt
  All-get Q ((j, w) ∷ d) k (p, h) = elim (Bool-cases (j == k)) [
    | inl e ↦ rw (get, e) p
    | inr e ↦ rw (get, e) (All-get Q d k h)
  ]
