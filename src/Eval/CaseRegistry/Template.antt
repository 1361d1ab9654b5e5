-- ===== src/Eval/CaseRegistry/Template.antt =====
-- eval_service/app/case_registry.py: the variables of a template. The expression
-- `{{\s*([A-Za-z_][A-Za-z0-9_]*)\s*}}` is matched by hand; `show` is Python's `str`.
use Prim.Native.Nat.{◌+◌, ◌-◌}
use Prim.Native.Char.{code}
use Prim.Native.String.{count}
use codex_browser.Prelude.{
  ℕ, zero, suc, String, Bool, false, Option, none, some, ◌&&◌, ◌||◌, if◌then◌else◌, leb, nat_eq,
  is_space, starts_with, drop_chars, concat,
}
use codex_browser.Json.{
  Json, null, bool, num, str, arr, obj, Items, nil, cons, Fields, end, field, member,
}
use codex_browser.Eval.Models.{Result, ok, err, value_error}

abbrev pub is_name_start : ℕ → Bool
is_name_start c = (leb 65 c && leb c 90) || (leb 97 c && leb c 122) || nat_eq c 95

abbrev pub is_name_char : ℕ → Bool
is_name_char c = is_name_start c || (leb 48 c && leb c 57)

-- The longest beginning of characters that pass the test.
unfoldable pub take_while : (ℕ → Bool) → String → String
take_while p String.[] = ""
take_while p (String.◌∷◌ c s) =
    let rest = take_while p s in if p (code c) then String.◌∷◌ c rest else ""

abbrev pub starts_by : (ℕ → Bool) → String → Bool
starts_by p String.[] = false
starts_by p (String.◌∷◌ c s) = p (code c)

-- A variable at the beginning of the text: its name and the length of the match.
unfoldable pub match_variable : String → Option (String × ℕ)
unfolding take_while drop_chars
match_variable s =
    let before = take_while is_space (drop_chars 2 s) in
    let from_name = drop_chars (2 + count before) s in
    let name = take_while is_name_char from_name in
    let from_after = drop_chars (count name) from_name in
    let after = take_while is_space from_after in
    if starts_with s "{{"
      && starts_by is_name_start from_name
      && starts_with (drop_chars (count after) from_after) "}}"
    then some (name, 4 + count before + count name + count after)
    else none

abbrev pub prefixed : String → Result String → Result String
prefixed text (ok s) = ok (concat text s)
prefixed text (err e) = err e

module _ (show : Json → String) where
  abbrev pub value_text : Json → String
  value_text (str s) = s
  value_text v = show v

  abbrev pub variable_text : Option Json → Result String
  variable_text none = err value_error
  variable_text (some v) = ok (value_text v)

  abbrev pub replaced : Result String → Result String → Result String
  replaced (err e) rest = err e
  replaced (ok text) rest = prefixed text rest

  -- `re.sub`, with the number of characters that the last match still covers.
  unfoldable pub render_from : Fields → ℕ → String → Result String
  unfolding match_variable member
  render_from variables covered String.[] = ok ""
  render_from variables (suc covered) (String.◌∷◌ c s) = render_from variables covered s
  render_from variables zero (String.◌∷◌ c s) =
      let plain = render_from variables 0 s in
      elim (match_variable (String.◌∷◌ c s)) [
        | none ↦ prefixed (String.◌∷◌ c "") plain
        | some found ↦
            replaced (variable_text (member variables found.0))
              (render_from variables (found.1 - 1) s)
      ]

  -- `_render_text`
  unfoldable pub render_text : Fields → String → Result String
  unfolding render_from
  render_text variables template = render_from variables 0 template

  abbrev pub as_text : Result String → Result Json
  as_text (ok s) = ok (str s)
  as_text (err e) = err e

  abbrev pub as_array : Result Items → Result Json
  as_array (ok l) = ok (arr l)
  as_array (err e) = err e

  abbrev pub as_object : Result Fields → Result Json
  as_object (ok d) = ok (obj d)
  as_object (err e) = err e

  abbrev pub with_item : Result Json → Result Items → Result Items
  with_item (err e) rest = err e
  with_item (ok v) (err e) = err e
  with_item (ok v) (ok l) = ok (cons v l)

  abbrev pub with_field : String → Result Json → Result Fields → Result Fields
  with_field key (err e) rest = err e
  with_field key (ok v) (err e) = err e
  with_field key (ok v) (ok d) = ok (field key v d)

  unfoldable mutual
    unfolding render_text

    -- `_render_value`
    pub render_value : Fields → Json → Result Json
    render_value variables (str s) = as_text (render_text variables s)
    render_value variables (arr l) = as_array (render_items variables l)
    render_value variables (obj d) = as_object (render_fields variables d)
    render_value variables null = ok null
    render_value variables (bool b) = ok (bool b)
    render_value variables (num n) = ok (num n)

    pub render_items : Fields → Items → Result Items
    render_items variables nil = ok nil
    render_items variables (cons v l) =
        with_item (render_value variables v) (render_items variables l)

    pub render_fields : Fields → Fields → Result Fields
    render_fields variables end = ok end
    render_fields variables (field key v d) =
        with_field key (render_value variables v) (render_fields variables d)
