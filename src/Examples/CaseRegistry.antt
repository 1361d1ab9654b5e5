-- ===== src/Examples/CaseRegistry.antt =====
-- A file with one template of two variants, loaded and loaded twice.
use codex_browser.Prelude.{String, ◌≡◌, refl, none, List, [], ◌∷◌, All}
use codex_browser.Json.{Json, str, arr, obj, nil, cons, end, field, member}
use codex_browser.Eval.Models.{ok, err, value_error, is_path_segment}
use codex_browser.Eval.Cases.{EvalCase}
use codex_browser.Eval.CaseRegistry.{load_cases, ◌>>=◌}
use codex_browser.Eval.CaseRegistry.Template.{render_text}
use codex_browser.Eval.CaseRegistry.Distinct.{IsFresh, IsNamed, load_cases-IsLoaded}

abbrev shown : Json → String
shown v = "value"

render_example :
    render_text shown (field "item" (str "book") end) "Buy {{ item }} or {{item}}, {x}"
    ≡ ok "Buy book or book, {x}"
unfolding render_text member
render_example = refl

unset_variable : render_text shown end "Buy {{ item }}" ≡ err value_error
unfolding render_text member
unset_variable = refl

abbrev variant : String → String → Json
variant id item = obj (
    field "eval_case_id" (str id) (
      field "case_version" (str "1")
        (field "variant_id" (str id) (field "variables" (obj (field "item" (str item) end)) end))))

abbrev template : Json
template = obj (
    field "variants" (arr (cons (variant "case1" "book") (cons (variant "case2" "pen") nil))) (
      field "title" (str "Purchase") (
        field "host" (str "litres.ru") (
          field "task_template" (str "Buy {{ item }}") (
            field "start_url_template" (str "https://litres.ru/") (
              field "expected_outcome"
                (obj (field "target" (str "{{item}}") (field "stop_condition" (str "paid") end)))
                end))))))

abbrev case_of_item : String → String → String → EvalCase
case_of_item id item task = record {
  eval_case_id = id;
  case_version = "1";
  variant_id = id;
  title = "Purchase";
  host = "litres.ru";
  task = task;
  start_url = "https://litres.ru/";
  metadata = end;
  auth_profile = none;
  expected_outcome = record { target = item; stop_condition = "paid"; acceptable_variants = [] };
  forbidden_actions = [];
  rubric = end;
}

abbrev two_cases : List EvalCase
two_cases = case_of_item "case1" "book" "Buy book" ∷ case_of_item "case2" "pen" "Buy pen" ∷ []

loaded : load_cases shown ((template ∷ []) ∷ []) ≡ ok two_cases
unfolding load_cases ◌>>=◌ member is_path_segment
loaded = refl

loaded_twice : load_cases shown ((template ∷ []) ∷ (template ∷ []) ∷ []) ≡ err value_error
unfolding load_cases ◌>>=◌ member is_path_segment
loaded_twice = refl

load_cases-IsLoaded_example : IsFresh [] two_cases × All IsNamed two_cases
load_cases-IsLoaded_example = load_cases-IsLoaded shown ((template ∷ []) ∷ []) two_cases loaded
