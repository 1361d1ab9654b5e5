-- ===== src/Eval/RunStore/Changed.antt =====
-- What an update of one case that returns has done: the case is there, and changed.
use codex_browser.Prelude.{
  ℕ, String, ◌≡◌, refl, sym, ◌∙◌, ap, subst, none, some, inl, inr, eq_refl, Bool-cases,
  Option-cases,
}
use codex_browser.Dict.{get}
use codex_browser.Eval.Models.{
  EvalRunCase, EvalRunManifest, ok, err, value_error, key_error, is_path_segment,
}
use codex_browser.Eval.Helpers.{find_case}
use codex_browser.Eval.RunStore.{
  RunLib, RunStore, CaseUpdate, updated_case, update_case, change_case, with_manifest,
  update_manifest_case, find_case_index,
}
use codex_browser.Eval.RunStore.Frame.{
  case_of, IsFiled, read-cases, case-of-write, index_found, found_id,
}

module _ (L : RunLib) (run : String) where
  found_and_changed :
      (now : ℕ) (id : String) (u : CaseUpdate) (s : RunStore) (m m₀ : EvalRunManifest)
      → IsFiled s
      → get s.manifests run ≡ some m₀
      → (update_manifest_case L now id u none m₀ s).0 ≡ ok m
      → (old : EvalRunCase) × (case_of (update_manifest_case L now id u none m₀ s).1 run id
          ≡ some (updated_case L u none old))
  unfolding update_manifest_case
  found_and_changed now id u s m m₀ filed g h = elim (Option-cases (find_case_index m₀.cases id)) [
    | inl e ↦
        let refused : (update_manifest_case L now id u none m₀ s).0 ≡ err key_error =
          rw (e, update_manifest_case) refl in
        absurd (cc (refused, h))
    | inr (i, e) ↦ elim (Option-cases (find_case m₀.cases id)) [
      | inl f ↦
          let refused : (update_manifest_case L now id u none m₀ s).0 ≡ err key_error =
            rw (e, index_found m₀.cases id i e ∙ f, update_manifest_case) refl in
          absurd (cc (refused, h))
      | inr (old, f) ↦ (
        old,
        rw (e, index_found m₀.cases id i e ∙ f, update_manifest_case)
            (case-of-write s m₀ run id i now (updated_case L u none old) filed g e
                (found_id m₀.cases id old f) run id
              ∙ rw (eq_refl run, eq_refl id) refl),
      )
    ]
  ]

  -- An update of one case that returns has found it and has changed it.
  pub changed :
      (now : ℕ) (id : String) (u : CaseUpdate) (s : RunStore) (m : EvalRunManifest)
      → IsFiled s
      → (update_case L now run id u s).0 ≡ ok m
      → (old : EvalRunCase) × (case_of (update_case L now run id u s).1 run id
          ≡ some (updated_case L u none old))
  unfolding update_case change_case
  changed now id u s m filed h = elim (Bool-cases (is_path_segment id)) [
    | inr e ↦
        let refused : (change_case L now run id u none s).0 ≡ err value_error =
          rw (change_case, e) refl in
        absurd (cc (refused, h))
    | inl e ↦ elim (read-cases s run) [
      | inr (x, f) ↦
          let refused : (change_case L now run id u none s).0 ≡ err x =
            rw (change_case, e, with_manifest, f) refl in
          absurd (cc (refused, h))
      | inl (m₀, f, g) ↦
          let same : change_case L now run id u none s ≡ update_manifest_case L now id u none m₀ s =
            rw (change_case, e, with_manifest, f) refl in
          subst (λ t. (old : EvalRunCase) × (case_of t.1 run id ≡ some (updated_case L u none old)))
            (sym same) (found_and_changed now id u s m m₀ filed g (ap (λ t. t.0) (sym same) ∙ h))
    ]
  ]
