-- ===== src/Eval/Metrics/Baselines.antt =====
-- eval_service/app/aggregation.py: the samples of `compute_baselines`.
use codex_browser.Prelude.{
  ℕ, zero, suc, ◌-◌, ◌≤◌, ◌<◌, false, ◌≡◌, refl, String, List, [], ◌∷◌, ◌++◌, arith, length, drop,
  map, filter, All, All-sort_by, length-append, ltb,
}
use codex_browser.Dict.{Dict, get, put, All-put}
use codex_browser.Eval.Models.{Result}
use codex_browser.Eval.Metrics.Models.{EvaluationResult}
use codex_browser.Eval.Metrics.Summary.{Baseline, group_onto, list_at, sorted_items}
use codex_browser.Eval.Metrics.Aggregation.{
  compute_baselines, baselines_for, baseline_of, is_baseline_eligible, sorted_evaluations,
}

abbrev IsFull {ℓ} : {A : Type ℓ} → List A → Type 0
IsFull xs = 0 < length xs

abbrev AllFull : Dict (List EvaluationResult) → Type 0
AllFull d = All (λ e. IsFull e.1) d

group_onto-AllFull :
    (key : EvaluationResult → String) (d : Dict (List EvaluationResult))
    (es : List EvaluationResult)
    → AllFull d
    → AllFull (group_onto key d es)
unfolding group_onto
group_onto-AllFull key d [] h = h
group_onto-AllFull key d (e ∷ es) h =
    let old = list_at (get d (key e)) in
    group_onto-AllFull key (put d (key e) (old ++ (e ∷ []))) es (
      All-put (λ xs. IsFull xs) d (key e) (old ++ (e ∷ [])) h
        (omega (arith, length-append old (e ∷ []))))

length-drop {ℓ} : {A : Type ℓ} (n : ℕ) (xs : List A) → length (drop n xs) ≡ length xs - n
length-drop zero xs = omega arith
length-drop (suc n) [] = omega arith
length-drop (suc n) (x ∷ xs) = omega (arith, length-drop n xs)

-- The sample of a baseline is not empty and within the window, which it names.
abbrev pub IsSampled : ℕ → Baseline → Type 0
IsSampled window b = (b.window ≡ window) × ((0 < b.sample_size) × (b.sample_size ≤ window))

baseline_of-IsSampled :
    (window : ℕ) (group : List EvaluationResult)
    → 0 < window
    → IsFull group
    → IsSampled window (baseline_of window group)
unfolding baseline_of
baseline_of-IsSampled window group w h =
    let len = length-drop (length group - window) group in
    (refl, (omega (arith, len), omega (arith, len)))

abbrev pub AllSampled : ℕ → Dict Baseline → Type 0
AllSampled window d = All (λ e. IsSampled window e.1) d

map-IsSampled :
    (window : ℕ) (d : Dict (List EvaluationResult))
    → 0 < window
    → AllFull d
    → AllSampled window (map (λ p. (p.0, baseline_of window p.1)) d)
map-IsSampled window [] w h = tt
map-IsSampled window ((k, group) ∷ d) w (p, h) =
    (baseline_of-IsSampled window group w p, map-IsSampled window d w h)

baselines_for-IsSampled :
    (es : List EvaluationResult) (window : ℕ)
    → 0 < window
    → AllSampled window (baselines_for es window)
unfolding baselines_for sorted_items
baselines_for-IsSampled es window w =
    let key : EvaluationResult → String = λ e. e.eval_case_id in
    let eligible = filter is_baseline_eligible (sorted_evaluations es) in
    map-IsSampled window _ w (
      All-sort_by _ (λ e. IsFull e.1) (group_onto key [] eligible)
        (group_onto-AllFull key [] eligible tt))

-- A window of at least one has baselines. Each has a sample of one evaluation at least and of no more
-- than the window.
pub compute_baselines-IsSampled :
    (es : List EvaluationResult) (window : ℕ)
    → 0 < window
    → (d : Dict Baseline) × ((compute_baselines es window ≡ Result.ok d) × AllSampled window d)
unfolding compute_baselines
compute_baselines-IsSampled es window w =
    let positive : ltb window 1 ≡ false = ground arith in
    (baselines_for es window, (rw positive refl, baselines_for-IsSampled es window w))
