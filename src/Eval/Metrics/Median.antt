-- ===== src/Eval/Metrics/Median.antt =====
-- The median of eval_service/app/aggregation.py and eval_service/app/dashboard.py, on the values that
-- it splits.
use Prim.Native.Nat.{compare, ◌/◌, ◌%◌, Ordering}
use codex_browser.Prelude.{
  ℕ, zero, suc, ◌+◌, ◌-◌, ◌*◌, ◌≤◌, ◌<◌, ◌≡◌, refl, inl, inr, Bool, true, false, Option, some, List,
  [], ◌∷◌, arith, All, length, count, nth, ltb, leb, nat_eq, insert_by, sort_by, length-sort_by,
  count-sort_by, Bool-cases, Ordering-cases,
}
use codex_browser.Eval.Metrics.Numbers.{
  pos, negsuc, Number, whole, half, known, halved, median_sorted, median,
}

-- `value < number` and `value > number`
abbrev pub is_below : Number → ℕ → Bool
is_below (whole (pos n)) value = ltb value n
is_below (half (pos n)) value = leb value n
is_below (whole (negsuc n)) value = false
is_below (half (negsuc n)) value = false

abbrev pub is_above : Number → ℕ → Bool
is_above (whole (pos n)) value = ltb n value
is_above (half (pos n)) value = ltb n value
is_above (whole (negsuc n)) value = true
is_above (half (negsuc n)) value = true

abbrev IsAscending : List ℕ → Type 0
IsAscending [] = Unit
IsAscending (x ∷ xs) = All (λ y. x ≤ y) xs × IsAscending xs

All-above : (x y : ℕ) (xs : List ℕ) → x ≤ y → All (λ z. y ≤ z) xs → All (λ z. x ≤ z) xs
All-above x y [] h all = tt
All-above x y (z ∷ xs) h (p, all) = (omega arith, All-above x y xs h all)

All-insert :
    (a x : ℕ) (xs : List ℕ)
    → a ≤ x
    → All (λ z. a ≤ z) xs
    → All (λ z. a ≤ z) (insert_by compare x xs)
unfolding insert_by
All-insert a x [] h all = (h, tt)
All-insert a x (y ∷ xs) h (p, all) = ground (arith, All-insert a x xs h all)

le_of_lt : (x y : ℕ) → compare x y ≡ Ordering.lt → x ≤ y
le_of_lt x y e = ground arith

le_of_eq : (x y : ℕ) → compare x y ≡ Ordering.eq → x ≤ y
le_of_eq x y e = ground arith

ge_of_gt : (x y : ℕ) → compare x y ≡ Ordering.gt → y ≤ x
ge_of_gt x y e = ground arith

insert-IsAscending : (x : ℕ) (xs : List ℕ) → IsAscending xs → IsAscending (insert_by compare x xs)
unfolding insert_by
insert-IsAscending x [] h = (tt, tt)
insert-IsAscending x (y ∷ xs) (all, h) =
    let front : x ≤ y → IsAscending (x ∷ y ∷ xs) =
      λ le. ((le, All-above x y xs le all), (all, h)) in
    elim (Ordering-cases (compare x y)) [
      | inl e ↦ rw (e, insert_by) (front (le_of_lt x y e))
      | inr (inl e) ↦ rw (e, insert_by) (front (le_of_eq x y e))
      | inr (inr e) ↦
          rw (e, insert_by) (All-insert y x xs (ge_of_gt x y e) all, insert-IsAscending x xs h)
    ]

sort-IsAscending : (xs : List ℕ) → IsAscending (sort_by compare xs)
unfolding sort_by
sort-IsAscending [] = tt
sort-IsAscending (x ∷ xs) = insert-IsAscending x (sort_by compare xs) (sort-IsAscending xs)

has_nth : (xs : List ℕ) (i : ℕ) → i < length xs → (v : ℕ) × (nth xs i ≡ some v)
has_nth [] i h = absurd (omega arith)
has_nth (x ∷ xs) zero h = (x, refl)
has_nth (x ∷ xs) (suc i) h = has_nth xs i (omega arith)

count_none : (v : ℕ) (xs : List ℕ) → All (λ z. v ≤ z) xs → count (λ z. ltb z v) xs ≡ 0
count_none v [] h = refl
count_none v (x ∷ xs) (p, h) = ground (arith, count_none v xs h)

count-le-length : (p : ℕ → Bool) (xs : List ℕ) → count p xs ≤ length xs
count-le-length p [] = omega arith
count-le-length p (x ∷ xs) = ground (arith, count-le-length p xs)

count_mono :
    (p q : ℕ → Bool) → ((x : ℕ) → p x ≡ true → q x ≡ true) → (xs : List ℕ) → count p xs ≤ count q xs
count_mono p q h [] = omega arith
count_mono p q h (x ∷ xs) = ground (arith, count_mono p q h xs, h x)

-- In an ascending list at most i items are below the one at i …
few_below :
    (xs : List ℕ) (i v : ℕ) → IsAscending xs → nth xs i ≡ some v → count (λ z. ltb z v) xs ≤ i
few_below [] i v h e = ground arith
few_below (x ∷ xs) zero v (all, h) e =
    let same : x ≡ v = ground arith in
    ground (arith, count_none v xs (All-above v x xs (omega arith) all))
few_below (x ∷ xs) (suc i) v (all, h) e = ground (arith, few_below xs i v h e)

nth_above : (x : ℕ) (xs : List ℕ) (i v : ℕ) → All (λ z. x ≤ z) xs → nth xs i ≡ some v → x ≤ v
nth_above x [] i v all e = ground arith
nth_above x (y ∷ xs) zero v (p, all) e = ground arith
nth_above x (y ∷ xs) (suc i) v (p, all) e = nth_above x xs i v all e

-- … and the items up to it are not above it.
few_above :
    (xs : List ℕ) (i v : ℕ)
    → IsAscending xs
    → nth xs i ≡ some v
    → count (λ z. ltb v z) xs + i < length xs
few_above [] i v h e = ground arith
few_above (x ∷ xs) zero v (all, h) e = ground (arith, count-le-length (λ z. ltb v z) xs)
few_above (x ∷ xs) (suc i) v (all, h) e =
    ground (arith, few_above xs i v h e, nth_above x xs i v all e)

-- At most half of the items are below the number, and at most half are above it.
abbrev pub Halves : Number → List ℕ → Type 0
Halves m xs = (2 * count (is_below m) xs ≤ length xs) × (2 * count (is_above m) xs ≤ length xs)

odd_Halves :
    (xs : List ℕ) (v : ℕ)
    → IsAscending xs
    → nth xs (length xs / 2) ≡ some v
    → Halves (whole (pos v)) xs
odd_Halves xs v h e = (omega (arith, few_below xs _ v h e), omega (arith, few_above xs _ v h e))

-- The mean of two numbers is not above the larger and not below the smaller.
halved_below : (a b : ℕ) → a ≤ b → (x : ℕ) → is_below (halved (a + b)) x ≡ true → ltb x b ≡ true
halved_below a b h x e = ground arith

halved_above : (a b : ℕ) → a ≤ b → (x : ℕ) → is_above (halved (a + b)) x ≡ true → ltb a x ≡ true
halved_above a b h x e = ground arith

nth_step :
    (xs : List ℕ) (k a b : ℕ) → IsAscending xs → nth xs k ≡ some a → nth xs (suc k) ≡ some b → a ≤ b
nth_step [] k a b h ea eb = ground arith
nth_step (x ∷ xs) zero a b (all, h) ea eb = ground (arith, nth_above x xs 0 b all eb)
nth_step (x ∷ xs) (suc k) a b (all, h) ea eb = nth_step xs k a b h ea eb

even_Halves :
    (xs : List ℕ) (k a b : ℕ)
    → IsAscending xs
    → length xs ≡ 2 * suc k
    → nth xs k ≡ some a
    → nth xs (suc k) ≡ some b
    → Halves (halved (a + b)) xs
even_Halves xs k a b h n ea eb =
    let le = nth_step xs k a b h ea eb in
    (
      omega (
        arith,
        few_below xs (suc k) b h eb,
        count_mono (is_below (halved (a + b))) (λ z. ltb z b) (halved_below a b le) xs,
      ),
      omega (
        arith,
        few_above xs k a h ea,
        count_mono (is_above (halved (a + b))) (λ z. ltb a z) (halved_above a b le) xs,
      ),
    )

even_length :
    (n : ℕ) → 0 < n → nat_eq (n % 2) 0 ≡ true → (k : ℕ) × ((n ≡ 2 * suc k) × (n / 2 ≡ suc k))
even_length n h e = (n / 2 - 1, (ground arith, ground arith))

median_even :
    (x : ℕ) (xs : List ℕ) (k a b : ℕ)
    → nat_eq (suc (length xs) % 2) 0 ≡ true
    → suc (length xs) / 2 ≡ suc k
    → nth (x ∷ xs) k ≡ some a
    → nth (x ∷ xs) (suc k) ≡ some b
    → median_sorted (x ∷ xs) ≡ some (halved (a + b))
unfolding median_sorted
median_even x xs k a b even mid ea eb =
    let pred : suc k - 1 ≡ k = omega arith in rw (even, mid, pred, ea, eb) refl

median_odd :
    (x : ℕ) (xs : List ℕ) (v : ℕ)
    → nat_eq (suc (length xs) % 2) 0 ≡ false
    → nth (x ∷ xs) (suc (length xs) / 2) ≡ some v
    → median_sorted (x ∷ xs) ≡ some (whole (pos v))
unfolding median_sorted
median_odd x xs v odd e = rw (odd, e) refl

sorted_Halves :
    (xs : List ℕ)
    → IsAscending xs
    → 0 < length xs
    → (m : Number) × ((median_sorted xs ≡ some m) × Halves m xs)
sorted_Halves [] h n = absurd (omega arith)
sorted_Halves (x ∷ xs) h n =
    let values = x ∷ xs in
    elim (Bool-cases (nat_eq (length values % 2) 0)) [
      | inr odd ↦
          let (v, e) = has_nth values (length values / 2) (omega arith) in
          (whole (pos v), (median_odd x xs v odd e, odd_Halves values v h e))
      | inl even ↦
          let (k, (len, mid)) = even_length (length values) n even in
          let (a, ea) = has_nth values k (omega arith) in
          let (b, eb) = has_nth values (suc k) (omega arith) in
          (
            halved (a + b),
            (median_even x xs k a b even mid ea eb, even_Halves values k a b h len ea eb),
          )
    ]

-- Where a value is known there is a median, and of the values known at most half are below it and
-- at most half are above it.
pub median-Halves :
    (values : List (Option ℕ))
    → 0 < length (known values)
    → (m : Number) × ((median values ≡ some m) × Halves m (known values))
unfolding median
median-Halves values n =
    let sorted = sort_by compare (known values) in
    let same = length-sort_by compare (known values) in
    let (m, (e, (below, above))) =
      sorted_Halves sorted (sort-IsAscending (known values)) (omega arith) in
    (
      m,
      (
        e,
        (
          omega (arith, count-sort_by compare (is_below m) (known values)),
          omega (arith, count-sort_by compare (is_above m) (known values)),
        ),
      ),
    )
