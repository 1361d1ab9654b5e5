-- ===== src/Eval/Metrics/Numbers.antt =====
-- The numbers of eval_service/app/aggregation.py and eval_service/app/dashboard.py: the median of
-- the values that are known, and its distance from a value. Python's `int | float` is here a whole
-- number or a whole number and a half, which floats hold below 2 ** 52.
use Prim.Native.Nat.{◌/◌, ◌%◌, compare}
use codex_browser.Prelude.{
  ℕ, zero, suc, ◌+◌, ◌-◌, Option, none, some, List, [], ◌∷◌, if◌then◌else◌, length, nth, sort_by,
  nat_eq,
}

pub data ℤ : Type 0 where
  pos : ℕ → ℤ
  negsuc : ℕ → ℤ

pub data Number : Type 0 where
  whole : ℤ → Number
  half : ℤ → Number

-- `a - b` on Python's integers.
unfoldable pub minus : ℕ → ℕ → ℤ
minus a zero = pos a
minus zero (suc b) = negsuc b
minus (suc a) (suc b) = minus a b

-- `[value for value in values if value is not None]`
unfoldable pub known : List (Option ℕ) → List ℕ
known [] = []
known (none ∷ values) = known values
known (some x ∷ values) = x ∷ known values

-- `a / 2`, an `int` where it is whole.
abbrev pub halved : ℕ → Number
halved a = if nat_eq (a % 2) 0 then whole (pos (a / 2)) else half (pos (a / 2))

abbrev pub mean_of : Option ℕ → Option ℕ → Option Number
mean_of (some a) (some b) = some (halved (a + b))
mean_of _ _ = none

abbrev pub whole_of : Option ℕ → Option Number
whole_of none = none
whole_of (some a) = some (whole (pos a))

-- `_median` of sorted values: the middle one, or the mean of the two in the middle.
unfoldable pub median_sorted : List ℕ → Option Number
median_sorted [] = none
median_sorted (x ∷ xs) =
    let values = x ∷ xs in
    let middle = length values / 2 in
    if nat_eq (length values % 2) 0
    then mean_of (nth values (middle - 1)) (nth values middle)
    else whole_of (nth values middle)

unfoldable pub median : List (Option ℕ) → Option Number
unfolding known median_sorted sort_by
median values = median_sorted (sort_by compare (known values))

-- `value - baseline`; the half of a baseline is below it.
unfoldable pub difference : ℕ → Number → Number
unfolding minus
difference value (whole (pos b)) = whole (minus value b)
difference value (whole (negsuc b)) = whole (pos (value + suc b))
difference value (half (pos b)) = half (minus value (suc b))
difference value (half (negsuc b)) = half (pos (value + b))

-- `_metric_delta`
unfoldable pub metric_delta : Option ℕ → Option Number → Option Number
unfolding difference
metric_delta (some value) (some baseline) = some (difference value baseline)
metric_delta none _ = none
metric_delta (some _) none = none
