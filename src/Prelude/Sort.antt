-- ===== src/Prelude/Sort.antt =====
-- Python's `sorted`, which is stable, over a comparison of the keys.
use Prim.Native.Nat.{ℕ, Ordering, ◌+◌}
use Prim.Native.String.{String, compare as compare_text}
use mathlib.Core.Path.{◌≡◌, refl, sym, ◌∙◌}
use mathlib.Core.Logic.{◌⊎◌, inl, inr}
use mathlib.Core.Bool.{Bool}
use mathlib.Core.List.{List, [], ◌∷◌}
use native.Mathlib.Omega.{arith}
use codex_browser.Prelude.Tests.{if◌then◌else◌}
use codex_browser.Prelude.Lists.{All, length, count, sum_of}

-- An item goes before the first one that is not below it, so that equal items keep their order.
unfoldable pub insert_by {ℓ} : {A : Type ℓ} → (A → A → Ordering) → A → List A → List A
insert_by order x [] = x ∷ []
insert_by order x (y ∷ ys) =
    let rest = insert_by order x ys in
    elim (order x y) [
      | Ordering.lt ↦ x ∷ y ∷ ys
      | Ordering.eq ↦ x ∷ y ∷ ys
      | Ordering.gt ↦ y ∷ rest
    ]

-- `sorted(xs, key=…)`
unfoldable pub sort_by {ℓ} : {A : Type ℓ} → (A → A → Ordering) → List A → List A
unfolding insert_by
sort_by order [] = []
sort_by order (x ∷ xs) = insert_by order x (sort_by order xs)

-- `sorted(set(texts))`: the next text goes to its place, once.
unfoldable pub insert_text : String → List String → List String
insert_text x [] = x ∷ []
insert_text x (y ∷ ys) =
    let rest = insert_text x ys in
    elim (compare_text x y) [
      | Ordering.lt ↦ x ∷ y ∷ ys
      | Ordering.eq ↦ y ∷ ys
      | Ordering.gt ↦ y ∷ rest
    ]

unfoldable pub sorted_set : List String → List String
unfolding insert_text
sorted_set [] = []
sorted_set (x ∷ xs) = insert_text x (sorted_set xs)

pub Ordering-cases : (o : Ordering) → (o ≡ Ordering.lt) ⊎ ((o ≡ Ordering.eq) ⊎ (o ≡ Ordering.gt))
Ordering-cases Ordering.lt = inl refl
Ordering-cases Ordering.eq = inr (inl refl)
Ordering-cases Ordering.gt = inr (inr refl)

module _ {ℓ} {A : Type ℓ} (order : A → A → Ordering) where
  sum_of-insert_by :
      (f : A → ℕ) (x : A) (xs : List A) → sum_of f (insert_by order x xs) ≡ f x + sum_of f xs
  unfolding insert_by
  sum_of-insert_by f x [] = refl
  sum_of-insert_by f x (y ∷ ys) = ground (arith, sum_of-insert_by f x ys)

  pub sum_of-sort_by : (f : A → ℕ) (xs : List A) → sum_of f (sort_by order xs) ≡ sum_of f xs
  unfolding sort_by
  sum_of-sort_by f [] = refl
  sum_of-sort_by f (x ∷ xs) =
      omega (arith, sum_of-insert_by f x (sort_by order xs), sum_of-sort_by f xs)

  All-insert_by {κ} :
      (P : A → Type κ) (x : A) (xs : List A) → P x → All P xs → All P (insert_by order x xs)
  unfolding insert_by
  All-insert_by P x [] p h = (p, tt)
  All-insert_by P x (y ∷ ys) p (q, h) = elim (Ordering-cases (order x y)) [
    | inl e ↦ rw (e, insert_by) (p, (q, h))
    | inr (inl e) ↦ rw (e, insert_by) (p, (q, h))
    | inr (inr e) ↦ rw (e, insert_by) (q, All-insert_by P x ys p h)
  ]

  pub All-sort_by {κ} : (P : A → Type κ) (xs : List A) → All P xs → All P (sort_by order xs)
  unfolding sort_by
  All-sort_by P [] h = h
  All-sort_by P (x ∷ xs) (p, h) = All-insert_by P x (sort_by order xs) p (All-sort_by P xs h)

module _ {ℓ} {A : Type ℓ} where
  pub length_sum : (xs : List A) → length xs ≡ sum_of (λ _. 1) xs
  length_sum [] = refl
  length_sum (x ∷ xs) = omega (arith, length_sum xs)

  pub count_sum : (p : A → Bool) (xs : List A) → count p xs ≡ sum_of (λ x. if p x then 1 else 0) xs
  count_sum p [] = refl
  count_sum p (x ∷ xs) = ground (arith, count_sum p xs)

  pub length-sort_by :
      (order : A → A → Ordering) (xs : List A) → length (sort_by order xs) ≡ length xs
  length-sort_by order xs =
      omega (arith, length_sum xs, length_sum (sort_by order xs), sum_of-sort_by order (λ _. 1) xs)

  pub count-sort_by :
      (order : A → A → Ordering) (p : A → Bool) (xs : List A)
      → count p (sort_by order xs) ≡ count p xs
  count-sort_by order p xs = count_sum p _ ∙ sum_of-sort_by order _ xs ∙ sym (count_sum p xs)
