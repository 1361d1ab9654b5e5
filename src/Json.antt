-- ===== src/Json.antt =====
-- JSON values: Python's `dict[str, Any]` payloads, metadata and artifacts.
use codex_browser.Prelude.{ℕ, String, Bool, true, false, Option, none, some, ◌==◌, if◌then◌else◌}

-- A number is kept as a natural number: a count as itself, any other number as a code, 0 only for
-- zero. Of these the program asks whether a value is a number, and whether it is zero.
mutual
  pub data Json : Type 0 where
    null : Json
    bool : Bool → Json
    num : ℕ → Json
    str : String → Json
    arr : Items → Json
    obj : Fields → Json

  pub data Items : Type 0 where
    nil : Items
    cons : Json → Items → Items

  pub data Fields : Type 0 where
    end : Fields
    field : String → Json → Fields → Fields

-- `d.get(k)`
unfoldable pub member : Fields → String → Option Json
member end k = none
member (field j v d) k = if j == k then some v else member d k

-- `d[k] = v`
unfoldable pub assign : Fields → String → Json → Fields
assign end k v = field k v end
assign (field j w d) k v = let rest = assign d k v in if j == k then field j v d else field j w rest

-- `value if isinstance(value, str) and value else None`
abbrev pub nonempty_str : Option Json → Option String
nonempty_str (some (str String.[])) = none
nonempty_str (some (str (String.◌∷◌ c s))) = some (String.◌∷◌ c s)
nonempty_str _ = none

-- `value if isinstance(value, str) else None`
abbrev pub as_str : Option Json → Option String
as_str (some (str s)) = some s
as_str _ = none

-- `isinstance(value, dict)`
abbrev pub as_obj : Option Json → Option Fields
as_obj (some (obj d)) = some d
as_obj _ = none

-- `isinstance(value, list)`
abbrev pub as_arr : Option Json → Option Items
as_arr (some (arr l)) = some l
as_arr _ = none

-- `isinstance(value, int | float)`: a bool is an int in Python.
abbrev pub is_number : Json → Bool
is_number (num n) = true
is_number (bool b) = true
is_number _ = false
