-- ===== src/Eval/CaseRegistry/Distinct.antt =====
-- eval_service/app/case_registry.py: the ids of the cases that are loaded.
use codex_browser.Prelude.{
  String, ◌≡◌, subst, Option, none, some, Bool, true, false, List, [], ◌∷◌, ◌++◌, if◌then◌else◌,
  one_of, All, Bool-cases, inl, inr,
}
use codex_browser.Json.{Json, null, bool, num, str, arr, obj, Items, nil, cons, Fields, member}
use codex_browser.Eval.Models.{Result, ok, err, is_path_segment}
use codex_browser.Eval.Cases.{EvalCase}
use codex_browser.Eval.CaseRegistry.{
  ◌>>=◌, path_segment, build_case_from, build_case, build_cases, build_variants, load_template,
  see_cases, load_files, load_cases,
}

-- What holds of the value that is returned.
unfoldable pub OnOk : {A : Type 0} → (A → Type 0) → Result A → Type 0
OnOk Q (ok a) = Q a
OnOk Q (err e) = Unit

bind-OnOk :
    {A B : Type 0} (P : A → Type 0) (Q : B → Type 0) (m : Result A) (f : A → Result B)
    → OnOk P m
    → ((a : A) → P a → OnOk Q (f a))
    → OnOk Q (m >>= f)
unfolding OnOk ◌>>=◌
bind-OnOk P Q (ok a) f p k = k a p
bind-OnOk P Q (err e) f p k = tt

through :
    {A B : Type 0} (Q : B → Type 0) (m : Result A) (f : A → Result B)
    → ((a : A) → OnOk Q (f a))
    → OnOk Q (m >>= f)
unfolding OnOk ◌>>=◌
through Q (ok a) f k = k a
through Q (err e) f k = tt

returned : {A : Type 0} (Q : A → Type 0) (a : A) → Q a → OnOk Q (ok a)
unfolding OnOk
returned Q a q = q

weaker :
    {A : Type 0} (P Q : A → Type 0) (m : Result A) → ((a : A) → P a → Q a) → OnOk P m → OnOk Q m
unfolding OnOk
weaker P Q (ok a) k p = k a p
weaker P Q (err e) k p = tt

-- No case has an id that is seen before it.
abbrev pub IsFresh : List String → List EvalCase → Type 0
IsFresh seen [] = Unit
IsFresh seen (case ∷ cases) =
    (one_of case.eval_case_id seen ≡ false) × IsFresh (case.eval_case_id ∷ seen) cases

-- The id is a name of a file.
abbrev pub IsNamed : EvalCase → Type 0
IsNamed case = is_path_segment case.eval_case_id ≡ true

-- The cases are new, and others that are new after them can follow.
abbrev Extends : List String → List EvalCase → List String → Type 0
Extends seen cases now_seen =
    (rest : List EvalCase) → IsFresh now_seen rest → IsFresh seen (cases ++ rest)

All-append : (xs ys : List EvalCase) → All IsNamed xs → All IsNamed ys → All IsNamed (xs ++ ys)
All-append [] ys h k = k
All-append (x ∷ xs) ys (p, h) k = (p, All-append xs ys h k)

path_segment-IsNamed : (s : String) → OnOk (λ t. is_path_segment t ≡ true) (path_segment s)
unfolding OnOk
path_segment-IsNamed s = elim (Bool-cases (is_path_segment s)) [
  | inl e ↦ rw (path_segment, e) e
  | inr e ↦ rw (path_segment, e) tt
]

module _ (show : Json → String) where
  see_cases-Extends :
      (seen : List String) (cases : List EvalCase)
      → OnOk (Extends seen cases) (see_cases show seen cases)
  unfolding see_cases OnOk
  see_cases-Extends seen [] = λ rest h. h
  see_cases-Extends seen (case ∷ cases) = elim (Bool-cases (one_of case.eval_case_id seen)) [
    | inl e ↦ rw (see_cases, e) tt
    | inr e ↦
        rw (see_cases, e)
          (weaker (Extends (case.eval_case_id ∷ seen) cases) (Extends seen (case ∷ cases))
            (see_cases show (case.eval_case_id ∷ seen) cases) (λ now_seen k rest h. (e, k rest h))
            (see_cases-Extends (case.eval_case_id ∷ seen) cases))
  ]

  build_case_from-IsNamed :
      (template variant : Fields) → OnOk IsNamed (build_case_from show template variant)
  unfolding build_case_from
  build_case_from-IsNamed template variant = through _ _ _ λ variables.
      through _ _ _ λ default_metadata. through _ _ _ λ variant_metadata. through _ _ _ λ id.
        through _ _ _ λ version. through _ _ _ λ variant_id. through _ _ _ λ task.
          through _ _ _ λ start_url. through _ _ _ λ outcome. through _ _ _ λ expected_outcome.
            through _ _ _ λ actions. through _ _ _ λ forbidden_actions.
              through _ _ _ λ rubric_value. through _ _ _ λ rubric. through _ _ _ λ title.
                through _ _ _ λ host. through _ _ _ λ auth_profile.
                  bind-OnOk (λ s. is_path_segment s ≡ true) _ _ _ (path_segment-IsNamed id)
                    λ eval_case_id e. returned IsNamed _ e

  build_case-IsNamed :
      (template : Fields) (variant : Json) → OnOk IsNamed (build_case show template variant)
  unfolding build_case OnOk
  build_case-IsNamed template (obj d) = build_case_from-IsNamed template d
  build_case-IsNamed template null = tt
  build_case-IsNamed template (bool b) = tt
  build_case-IsNamed template (num n) = tt
  build_case-IsNamed template (str s) = tt
  build_case-IsNamed template (arr l) = tt

  build_cases-IsNamed :
      (template : Fields) (l : Items) → OnOk (All IsNamed) (build_cases show template l)
  unfolding build_cases OnOk
  build_cases-IsNamed template nil = tt
  build_cases-IsNamed template (cons v l) =
      bind-OnOk IsNamed _ _ _ (build_case-IsNamed template v) λ case named.
        bind-OnOk (All IsNamed) _ _ _ (build_cases-IsNamed template l)
          λ cases rest. returned (All IsNamed) (case ∷ cases) (named, rest)

  build_variants-IsNamed :
      (template : Fields) (o : Option Json) → OnOk (All IsNamed) (build_variants show template o)
  unfolding build_variants OnOk
  build_variants-IsNamed template none = tt
  build_variants-IsNamed template (some (arr (cons v l))) = build_cases-IsNamed template (cons v l)
  build_variants-IsNamed template (some (arr nil)) = tt
  build_variants-IsNamed template (some (obj d)) = tt
  build_variants-IsNamed template (some null) = tt
  build_variants-IsNamed template (some (bool b)) = tt
  build_variants-IsNamed template (some (num n)) = tt
  build_variants-IsNamed template (some (str s)) = tt

  either :
      {A : Type 0} (Q : A → Type 0) (b : Bool) (m k : Result A)
      → OnOk Q m
      → OnOk Q k
      → OnOk Q (if b then m else k)
  either Q true m k p q = p
  either Q false m k p q = q

  load_template-IsNamed : (template : Fields) → OnOk (All IsNamed) (load_template show template)
  unfolding load_template OnOk
  load_template-IsNamed template =
      either (All IsNamed) _ (ok []) _ tt
        (build_variants-IsNamed template (member template "variants"))

  abbrev pub IsLoaded : List String → List EvalCase → Type 0
  IsLoaded seen cases = IsFresh seen cases × All IsNamed cases

  load_files-IsLoaded :
      (seen : List String) (files : List (List Json))
      → OnOk (IsLoaded seen) (load_files show seen files)
  unfolding load_files
  load_files-IsLoaded seen [] = returned (IsLoaded seen) [] (tt, tt)
  load_files-IsLoaded seen (file ∷ files) = through _ _ _ λ template.
      bind-OnOk (All IsNamed) _ _ _ (load_template-IsNamed template) λ cases named.
        bind-OnOk (Extends seen cases) _ _ _ (see_cases-Extends seen cases) λ now_seen extends.
          bind-OnOk (IsLoaded now_seen) _ _ _ (load_files-IsLoaded now_seen files) λ rest loaded.
            returned (IsLoaded seen) _ (extends rest loaded.0, All-append cases rest named loaded.1)

  -- Where the registry loads, the ids of its cases are names of files, and no id occurs twice, in one
  -- file or in two.
  pub load_cases-IsLoaded :
      (files : List (List Json)) (cases : List EvalCase)
      → load_cases show files ≡ ok cases
      → IsFresh [] cases × All IsNamed cases
  unfolding load_cases OnOk
  load_cases-IsLoaded files cases e = subst (OnOk (IsLoaded [])) e (load_files-IsLoaded [] files)
