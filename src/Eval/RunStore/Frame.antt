-- ===== src/Eval/RunStore/Frame.antt =====
-- What an update of one case changes: that case of that run, and nothing else.
use codex_browser.Prelude.{
  ℕ, zero, suc, String, false, ◌≡◌, refl, ◌⊎◌, inl, inr, ◌∙◌, Option, none, some, List, [], ◌∷◌,
  ◌&&◌, ◌==◌, eq_iff, arith, sym, ap, subst, if◌then◌else◌, Option-cases, Bool-cases,
}
use codex_browser.Dict.{get, get-put}
use codex_browser.Eval.Models.{
  EvalRunCase, EvalRunManifest, BuyerCallbackEnvelope, EvalError, value_error, file_not_found, ok,
  err, is_path_segment,
}
use codex_browser.Eval.Helpers.{find_case}
use codex_browser.Eval.RunStore.{
  RunLib, RunStore, CaseUpdate, find_case_index, get_elem?, set_elem, read_manifest, write_manifest,
  is_known, with_manifest, updated_case, update_manifest_case, change_case,
}

-- A case of a run, if both are there.
unfoldable pub case_of : RunStore → String → String → Option EvalRunCase
unfolding find_case
case_of s eval_run_id eval_case_id = elim (get s.manifests eval_run_id) [
  | none ↦ none
  | some manifest ↦ find_case manifest.cases eval_case_id
]

-- Every manifest lies in the directory of its own run.
abbrev pub IsFiled : RunStore → Type 0
IsFiled s = (k : String) (m : EvalRunManifest) → get s.manifests k ≡ some m → m.eval_run_id ≡ k

pub index_found :
    (cases : List EvalRunCase) (c : String) (i : ℕ)
    → find_case_index cases c ≡ some i
    → get_elem? cases i ≡ find_case cases c
unfolding find_case_index get_elem? find_case
index_found [] c i h = ground arith
index_found (case ∷ cases) c zero h = ground arith
index_found (case ∷ cases) c (suc i) h = ground (arith, index_found cases c i)

pub find-set_elem :
    (cases : List EvalRunCase) (c : String) (i : ℕ) (new : EvalRunCase) (j : String)
    → find_case_index cases c ≡ some i
    → new.eval_case_id ≡ c
    → find_case (set_elem cases i new) j ≡ (if c == j then some new else find_case cases j)
unfolding find_case_index set_elem find_case
find-set_elem [] c i new j h id = ground arith
find-set_elem (case ∷ cases) c zero new j h id =
    ground (arith, eq_iff case.eval_case_id c, eq_iff case.eval_case_id j, eq_iff c j)
find-set_elem (case ∷ cases) c (suc i) new j h id = ground (
  arith,
  find-set_elem cases c i new j,
  eq_iff case.eval_case_id c,
  eq_iff case.eval_case_id j,
  eq_iff c j,
)

pub found_id :
    (cases : List EvalRunCase) (c : String) (case : EvalRunCase)
    → find_case cases c ≡ some case
    → case.eval_case_id ≡ c
unfolding find_case
found_id [] c case h = ground arith
found_id (x ∷ cases) c case h = ground (arith, found_id cases c case, eq_iff x.eval_case_id c)

-- Writing a manifest with one case replaced.
pub case-of-write :
    (s : RunStore) (m : EvalRunManifest) (r c : String) (i : ℕ) (now : ℕ) (new : EvalRunCase)
    → IsFiled s
    → get s.manifests r ≡ some m
    → find_case_index m.cases c ≡ some i
    → new.eval_case_id ≡ c
    → (r' c' : String)
    → case_of
        (write_manifest s (record m { updated_at = now; cases = set_elem m.cases i new }))
        r'
        c'
      ≡ (if (r == r') && (c == c') then some new else case_of s r' c')
unfolding case_of write_manifest
case-of-write s m r c i now new filed found index id r' c' = ground (
  arith,
  filed r m found,
  get-put s.manifests m.eval_run_id (record m { updated_at = now; cases = set_elem m.cases i new })
      r',
  find-set_elem m.cases c i new c' index id,
  eq_iff r r',
)

pub write-IsFiled : (s : RunStore) (m : EvalRunManifest) → IsFiled s → IsFiled (write_manifest s m)
unfolding write_manifest
write-IsFiled s m filed k m' h =
    ground (arith, filed k m', get-put s.manifests m.eval_run_id m k, eq_iff m.eval_run_id k)

pub read-cases :
    (s : RunStore) (r : String)
    → ((m : EvalRunManifest) × (read_manifest s r ≡ ok m) × (get s.manifests r ≡ some m))
      ⊎ ((e : EvalError) × (read_manifest s r ≡ err e))
unfolding read_manifest
read-cases s r = elim (Bool-cases (is_path_segment r)) [
  | inr f ↦ inr (value_error, rw f refl)
  | inl f ↦ elim (Option-cases (get s.manifests r)) [
    | inl g ↦ inr (file_not_found, rw (f, g) refl)
    | inr (m, g) ↦ inl (m, rw (f, g) refl, g)
  ]
]

module _ (L : RunLib) where
  -- The update has no effect, or it changes the one case, to which the event is new.
  abbrev pub Rewrites :
      String → String → CaseUpdate → Option BuyerCallbackEnvelope → RunStore → RunStore → Type 0
  Rewrites r c u event s s' =
      (s' ≡ s)
      ⊎ ((case : EvalRunCase) × (case_of s r c ≡ some case)
          × (is_known L event case ≡ false)
          × ((r' c' : String)
              → case_of s' r' c' ≡ (
                  if (r == r') && (c == c')
                  then some (updated_case L u event case)
                  else case_of s r' c')))

  pub update-Rewrites :
      (now : ℕ) (r c : String) (u : CaseUpdate) (event : Option BuyerCallbackEnvelope)
      (m : EvalRunManifest) (s : RunStore)
      → IsFiled s
      → get s.manifests r ≡ some m
      → Rewrites r c u event s (update_manifest_case L now c u event m s).1
  unfolding update_manifest_case case_of updated_case
  update-Rewrites now r c u event m s filed found =
      elim (Option-cases (find_case_index m.cases c)) [
        | inl e ↦ inl (rw (e, update_manifest_case) refl)
        | inr (i, e) ↦ elim (Option-cases (find_case m.cases c)) [
          | inl f ↦ inl (rw (e, index_found m.cases c i e ∙ f, update_manifest_case) refl)
          | inr (case, f) ↦ elim (Bool-cases (is_known L event case)) [
            | inl g ↦ inl (rw (e, index_found m.cases c i e ∙ f, g, update_manifest_case) refl)
            | inr g ↦ inr (
              case,
              rw (found, case_of) f,
              g,
              λ r' c'.
                  rw (e, index_found m.cases c i e ∙ f, g, update_manifest_case)
                    (case-of-write s m r c i now (updated_case L u event case) filed found e
                      (found_id m.cases c case f) r' c'),
            )
          ]
        ]
      ]

  pub change-Rewrites :
      (now : ℕ) (r c : String) (u : CaseUpdate) (event : Option BuyerCallbackEnvelope)
      (s : RunStore)
      → IsFiled s
      → Rewrites r c u event s (change_case L now r c u event s).1
  unfolding change_case
  change-Rewrites now r c u event s filed = elim (Bool-cases (is_path_segment c)) [
    | inr e ↦ inl (rw (e, change_case) refl)
    | inl e ↦ elim (read-cases s r) [
      | inr (x, f) ↦ inl (rw (change_case, e, with_manifest, f) refl)
      | inl (m, f, g) ↦
          rw (change_case, e, with_manifest, f) (update-Rewrites now r c u event m s filed g)
    ]
  ]

  pub update-IsFiled :
      (now : ℕ) (c : String) (u : CaseUpdate) (event : Option BuyerCallbackEnvelope)
      (m : EvalRunManifest) (s : RunStore)
      → IsFiled s
      → IsFiled (update_manifest_case L now c u event m s).1
  unfolding update_manifest_case
  update-IsFiled now c u event m s filed = elim (Option-cases (find_case_index m.cases c)) [
    | inl e ↦ rw (update_manifest_case, e) filed
    | inr (i, e) ↦ elim (Option-cases (get_elem? m.cases i)) [
      | inl f ↦ rw (update_manifest_case, e, f) filed
      | inr (case, f) ↦ elim (Bool-cases (is_known L event case)) [
        | inl g ↦ rw (update_manifest_case, e, f, g) filed
        | inr g ↦ rw (update_manifest_case, e, f, g) (write-IsFiled s _ filed)
      ]
    ]
  ]

  pub change-IsFiled :
      (now : ℕ) (r c : String) (u : CaseUpdate) (event : Option BuyerCallbackEnvelope)
      (s : RunStore)
      → IsFiled s
      → IsFiled (change_case L now r c u event s).1
  unfolding change_case
  change-IsFiled now r c u event s filed = elim (Bool-cases (is_path_segment c)) [
    | inr e ↦ rw (change_case, e) filed
    | inl e ↦ elim (read-cases s r) [
      | inr (x, f) ↦ rw (change_case, e, with_manifest, f) filed
      | inl (m, f, g) ↦
          rw (change_case, e, with_manifest, f) (update-IsFiled now c u event m s filed)
    ]
  ]

-- What holds of every case of every run.
abbrev pub HoldsOfCases : (EvalRunCase → Type 0) → RunStore → Type 0
HoldsOfCases P s = (r c : String) (case : EvalRunCase) → case_of s r c ≡ some case → P case

pub is_some-injective {ℓ} : {A : Type ℓ} (x y : A) → some x ≡ some y → x ≡ y
is_some-injective x y h = ap (from_some x) h
  where
    from_some : {A : Type ℓ} → A → Option A → A
    from_some d none = d
    from_some d (some a) = a

module _ (L : RunLib) (P : EvalRunCase → Type 0) where
  pub preserved :
      (r c : String) (u : CaseUpdate) (event : Option BuyerCallbackEnvelope) (s s' : RunStore)
      → Rewrites L r c u event s s'
      → HoldsOfCases P s
      → ((old : EvalRunCase)
          → case_of s r c ≡ some old
          → is_known L event old ≡ false
          → P old
          → P (updated_case L u event old))
      → HoldsOfCases P s'
  preserved r c u event s s' (inl e) h step r' c' case found =
      h r' c' case (ap (λ t. case_of t r' c') (sym e) ∙ found)
  preserved r c u event s s' (inr (old, was, new, after)) h step r' c' case found =
      elim (Bool-cases ((r == r') && (c == c'))) [
        | inl e ↦
            subst P (is_some-injective _ _ (sym (after r' c' ∙ rw e refl) ∙ found))
              (step old was new (h r c old was))
        | inr e ↦ h r' c' case (sym (after r' c' ∙ rw e refl) ∙ found)
      ]
