-- ===== src/Eval/OperatorReply/Shown.antt =====
-- What the parts of the handler of an operator's reply read or return, beside what the store has.
use codex_browser.Prelude.{
  ℕ, String, ◌≡◌, refl, subst, sym, ap, ◌∙◌, inl, inr, true, none, some, List, [], ◌∷◌, is_some,
  Bool-cases, Option-cases, eq_refl, arith,
}
use codex_browser.Dict.{get}
use codex_browser.Eval.Models.{
  EvalRunCase, EvalRunManifest, EvalError, file_not_found, key_error, Result, ok, err,
  is_path_segment,
}
use codex_browser.Eval.Helpers.{find_case}
use codex_browser.Eval.Callbacks.{and_then}
use codex_browser.Eval.Callbacks.Effect.{Result-cases}
use codex_browser.Eval.RunStore.{
  RunLib, RunStore, CaseUpdate, find_case_index, set_elem, read_manifest, write_manifest,
  updated_case, with_manifest, update_manifest_case, change_case, update_case,
}
use codex_browser.Eval.RunStore.Frame.{
  case_of, IsFiled, index_found, find-set_elem, found_id, case-of-write,
}
use codex_browser.Eval.OperatorReply.{is_running, read_case, restore_operator_waiting}
use codex_browser.Eval.OperatorReply.Handler.{case_in}

index_none :
    (cases : List EvalRunCase) (c : String)
    → find_case_index cases c ≡ none
    → find_case cases c ≡ none
unfolding find_case_index find_case
index_none [] c h = refl
index_none (x ∷ cases) c h = ground (arith, index_none cases c)

module _ (r c : String) (seg_r : is_path_segment r ≡ true) (seg_c : is_path_segment c ≡ true) where
  -- What was read or returned is the case in the store, and it is missing exactly there.
  unfoldable pub Shows : Result EvalRunCase → RunStore → Type 0
  Shows (err e) s = case_of s r c ≡ none
  Shows (ok case) s = case_of s r c ≡ some case

  none-Shows :
      (x : Result EvalRunCase) (e : EvalError) (s : RunStore)
      → x ≡ err e
      → case_of s r c ≡ none
      → Shows x s
  unfolding Shows
  none-Shows x e s at gone = rw at gone

  some-Shows :
      (x : Result EvalRunCase) (case : EvalRunCase) (s : RunStore)
      → x ≡ ok case
      → case_of s r c ≡ some case
      → Shows x s
  unfolding Shows
  some-Shows x case s at here = rw at here

  manifest-Shows : (s : RunStore) → Shows (case_in (read_manifest s r) c) s
  unfolding read_manifest case_of
  manifest-Shows s = elim (Option-cases (get s.manifests r)) [
    | inl g ↦
        none-Shows _ file_not_found s (rw (read_manifest, seg_r, g) refl) (rw (case_of, g) refl)
    | inr (m, g) ↦ elim (Option-cases (find_case m.cases c)) [
      | inl f ↦
          none-Shows _ key_error s (rw (case_in, read_manifest, seg_r, g, f) refl)
            (rw (case_of, g) f)
      | inr (case, f) ↦
          some-Shows _ case s (rw (case_in, read_manifest, seg_r, g, f) refl) (rw (case_of, g) f)
    ]
  ]

  pub read-Shows : (s : RunStore) → Shows (read_case s r c) s
  unfolding read_case and_then read_manifest case_of
  read-Shows s = elim (Option-cases (get s.manifests r)) [
    | inl g ↦
        none-Shows _ file_not_found s (rw (read_case, read_manifest, seg_r, g) refl)
          (rw (case_of, g) refl)
    | inr (m, g) ↦ elim (Option-cases (find_case m.cases c)) [
      | inl f ↦
          none-Shows _ key_error s (rw (read_case, read_manifest, seg_r, g, and_then, f) refl)
            (rw (case_of, g) f)
      | inr (case, f) ↦
          some-Shows _ case s (rw (read_case, read_manifest, seg_r, g, and_then, f) refl)
            (rw (case_of, g) f)
    ]
  ]

  module _ (L : RunLib) (now : ℕ) (u : CaseUpdate) (s : RunStore) (filed : IsFiled s)
      (case : EvalRunCase) where
    -- An update of a case that is there shows the case that it writes.
    pub update-Shows :
        case_of s r c ≡ some case
        → Shows (case_in (update_case L now r c u s).0 c) (update_case L now r c u s).1
    unfolding case_of update_case change_case update_manifest_case
    update-Shows here = elim (Option-cases (get s.manifests r)) [
      | inl g ↦ let gone : case_of s r c ≡ none = rw (case_of, g) refl in absurd (cc (here, gone))
      | inr (m, g) ↦
          let f : find_case m.cases c ≡ some case = sym (rw (case_of, g) refl) ∙ here in
          elim (Option-cases (find_case_index m.cases c)) [
            | inl e ↦ absurd (cc (f, index_none m.cases c e))
            | inr (i, e) ↦
                let new = updated_case L u none case in
                let written : EvalRunManifest = record m {
                  updated_at = now;
                  cases = set_elem m.cases i new;
                } in
                let whole : update_case L now r c u s ≡ (ok written, write_manifest s written) =
                  rw
                    (
                      update_case,
                      change_case,
                      seg_c,
                      with_manifest,
                      read_manifest,
                      seg_r,
                      g,
                      update_manifest_case,
                      e,
                      index_found m.cases c i e ∙ f,
                    )
                    refl in
                let id = found_id m.cases c case f in
                let at : find_case written.cases c ≡ some new =
                  find-set_elem m.cases c i new c e id ∙ rw (eq_refl c) refl in
                let returned : case_in (ok written) c ≡ ok new = rw (case_in, at) refl in
                some-Shows _ new _ (ap (λ t. case_in t.0 c) whole ∙ returned) (
                  ap (λ t. case_of t.1 r c) whole
                  ∙ case-of-write s m r c i now new filed g e id r c
                  ∙ rw (eq_refl r, eq_refl c) refl)
          ]
    ]

  module _ (L : RunLib) (now : ℕ) (rid : String) where
    pub restore-Shows :
        (s : RunStore)
        → IsFiled s
        → Shows
            (case_in (restore_operator_waiting L now r c rid s).0 c)
            (restore_operator_waiting L now r c rid s).1
    unfolding restore_operator_waiting Shows
    restore-Shows s filed = elim (Result-cases (read_case s r c)) [
      | inl (e, f) ↦
          let shown : Shows (err e) s = subst (λ x. Shows x s) f (read-Shows s) in
          rw (restore_operator_waiting, f) shown
      | inr (case, f) ↦
          let shown : Shows (ok case) s = subst (λ x. Shows x s) f (read-Shows s) in
          elim (Bool-cases (is_running case.state)) [
            | inr g ↦ rw (restore_operator_waiting, f, g) (manifest-Shows s)
            | inl g ↦ elim (Bool-cases (is_some case.waiting_reply_id)) [
              | inl k ↦ rw (restore_operator_waiting, f, g, k) (manifest-Shows s)
              | inr k ↦
                  rw (restore_operator_waiting, f, g, k) (update-Shows L now _ s filed case shown)
            ]
          ]
    ]
