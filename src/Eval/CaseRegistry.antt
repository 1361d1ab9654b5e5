-- ===== src/Eval/CaseRegistry.antt =====
-- eval_service/app/case_registry.py: the cases of the templates. A `CaseRegistryError` and pydantic's
-- `ValidationError` are both a `ValueError`. The files and the YAML parser are outside: a file is the
-- documents that it holds, in the order of the sorted paths.
pub mod Template
pub mod Distinct
use codex_browser.Prelude.{
  ℕ, zero, String, Bool, true, false, not, Option, none, some, List, [], ◌∷◌, ◌++◌, if◌then◌else◌,
  is_empty, one_of, map,
}
use codex_browser.Json.{
  Json, null, bool, num, str, arr, obj, Items, nil, cons, Fields, end, field, member, assign,
}
use codex_browser.Eval.Models.{Result, ok, err, value_error, is_path_segment}
use codex_browser.Eval.Cases.{EvalCase, ExpectedOutcome}
use codex_browser.Eval.CaseRegistry.Template.{render_text, render_value}

infixl 5 ◌>>=◌
unfoldable pub ◌>>=◌ {ℓ κ} : {A : Type ℓ} {B : Type κ} → Result A → (A → Result B) → Result B
ok a >>= f = f a
err e >>= f = err e

-- `value or default`
abbrev pub or_default : Json → Option Json → Json
or_default default none = default
or_default default (some null) = default
or_default default (some (bool false)) = default
or_default default (some (num zero)) = default
or_default default (some (str String.[])) = default
or_default default (some (arr nil)) = default
or_default default (some (obj end)) = default
or_default default (some v) = v

abbrev pub object_or_error : Option Json → Result Fields
object_or_error (some (obj d)) = ok d
object_or_error _ = err value_error

-- `_required_string`, and a field of a model that is a text of one character at least.
abbrev pub required_string : Option Json → Result String
required_string (some (str s)) = if is_empty s then err value_error else ok s
required_string _ = err value_error

abbrev pub nonempty : String → Result String
nonempty s = if is_empty s then err value_error else ok s

-- `str | None`
abbrev pub optional_string : Option Json → Result (Option String)
optional_string none = ok none
optional_string (some null) = ok none
optional_string (some (str s)) = ok (some s)
optional_string (some v) = err value_error

-- `list[str]`
unfoldable pub strings : Items → Result (List String)
strings nil = ok []
strings (cons (str s) l) = strings l >>= λ rest. ok (s ∷ rest)
strings (cons v l) = err value_error

unfoldable pub string_list : Option Json → Result (List String)
unfolding strings
string_list none = ok []
string_list (some (arr l)) = strings l
string_list (some v) = err value_error

-- `extra='forbid'`
unfoldable pub has_only : List String → Fields → Bool
has_only names end = true
has_only names (field key v d) = if one_of key names then has_only names d else false

unfoldable pub validate_outcome : Json → Result ExpectedOutcome
unfolding has_only string_list member
validate_outcome (obj d) =
    if has_only ("target" ∷ "stop_condition" ∷ "acceptable_variants" ∷ []) d
    then (do
      target ← required_string (member d "target")
      stop_condition ← required_string (member d "stop_condition")
      variants ← string_list (member d "acceptable_variants")
      ok (record {
        target = target;
        stop_condition = stop_condition;
        acceptable_variants = variants;
      }))
    else err value_error
validate_outcome v = err value_error

-- `{**a, **b}`
unfoldable pub merged : Fields → Fields → Fields
unfolding assign
merged a end = a
merged a (field key v b) = merged (assign a key v) b

-- `validate_path_segment_id`
abbrev pub path_segment : String → Result String
path_segment s = if is_path_segment s then ok s else err value_error

module _ (show : Json → String) where
  -- `_render_required`, to a text that a model takes.
  unfoldable pub render_required : Fields → Option Json → Result String
  unfolding render_text
  render_required variables value =
      required_string value >>= λ s. render_text show variables s >>= λ t. nonempty t

  -- `_build_case`, of a variant that is an object.
  unfoldable pub build_case_from : Fields → Fields → Result EvalCase
  unfolding render_required render_value validate_outcome string_list merged member is_path_segment
  build_case_from template variant = do
    variables ← object_or_error (member variant "variables")
    default_metadata ←
        object_or_error (some (or_default (obj end) (member template "default_metadata")))
    variant_metadata ← object_or_error (some (or_default (obj end) (member variant "metadata")))
    id ← required_string (member variant "eval_case_id")
    version ← required_string (member variant "case_version")
    variant_id ← required_string (member variant "variant_id")
    task ← render_required variables (member template "task_template")
    start_url ← render_required variables (member template "start_url_template")
    outcome ←
        render_value show variables (or_default (obj end) (member template "expected_outcome"))
    expected_outcome ← validate_outcome outcome
    actions ←
        render_value show variables (or_default (arr nil) (member template "forbidden_actions"))
    forbidden_actions ← string_list (some actions)
    rubric_value ← render_value show variables (or_default (obj end) (member template "rubric"))
    rubric ← object_or_error (some rubric_value)
    title ← required_string (member template "title")
    host ← required_string (member template "host")
    auth_profile ← optional_string (member template "auth_profile")
    eval_case_id ← path_segment id
    ok (record {
      eval_case_id = eval_case_id;
      case_version = version;
      variant_id = variant_id;
      title = title;
      host = host;
      task = task;
      start_url = start_url;
      metadata = merged default_metadata variant_metadata;
      auth_profile = auth_profile;
      expected_outcome = expected_outcome;
      forbidden_actions = forbidden_actions;
      rubric = rubric;
    })

  unfoldable pub build_case : Fields → Json → Result EvalCase
  unfolding build_case_from
  build_case template (obj variant) = build_case_from template variant
  build_case template v = err value_error

  unfoldable pub build_cases : Fields → Items → Result (List EvalCase)
  unfolding build_case
  build_cases template nil = ok []
  build_cases template (cons variant variants) = build_case template variant >>= λ case.
      build_cases template variants >>= λ cases. ok (case ∷ cases)

  unfoldable pub build_variants : Fields → Option Json → Result (List EvalCase)
  unfolding build_cases
  build_variants template (some (arr (cons v l))) = build_cases template (cons v l)
  build_variants template _ = err value_error

  abbrev pub is_false : Option Json → Bool
  is_false (some (bool b)) = not b
  is_false _ = false

  -- `CaseRegistry._load_file`
  unfoldable pub load_template : Fields → Result (List EvalCase)
  unfolding build_variants member
  load_template template =
      if is_false (member template "enabled")
      then ok []
      else build_variants template (member template "variants")

  -- `[document for document in … if document is not None]`
  unfoldable pub documents : List Json → List Json
  documents [] = []
  documents (null ∷ ds) = documents ds
  documents (d ∷ ds) = d ∷ documents ds

  -- `_load_yaml_template`
  abbrev pub only_template : List Json → Result Fields
  only_template (obj d ∷ []) = ok d
  only_template _ = err value_error

  -- The inner loop of `load_cases`: the ids seen after these cases.
  unfoldable pub see_cases : List String → List EvalCase → Result (List String)
  see_cases seen [] = ok seen
  see_cases seen (case ∷ cases) =
      if one_of case.eval_case_id seen
      then err value_error
      else see_cases (case.eval_case_id ∷ seen) cases

  -- `CaseRegistry.load_cases`
  unfoldable pub load_files : List String → List (List Json) → Result (List EvalCase)
  unfolding load_template documents see_cases
  load_files seen [] = ok []
  load_files seen (file ∷ files) = do
    template ← only_template (documents file)
    cases ← load_template template
    now_seen ← see_cases seen cases
    rest ← load_files now_seen files
    ok (cases ++ rest)

  unfoldable pub load_cases : List (List Json) → Result (List EvalCase)
  unfolding load_files
  load_cases files = load_files [] files
