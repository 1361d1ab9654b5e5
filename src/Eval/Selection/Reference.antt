-- ===== src/Eval/Selection/Reference.antt =====
-- What `_select_cases` selects, told without its set of seen ids.
use codex_browser.Prelude.{String, Bool, not, List, [], ◌∷◌, ◌==◌, one_of, filter}
use codex_browser.Dict.{Dict}

-- The list with each entry where it stands first.
abbrev pub firsts : List String → List String
firsts [] = []
firsts (x ∷ xs) = x ∷ filter (λ y. not (y == x)) (firsts xs)

abbrev unseen : List String → String → Bool
unseen seen y = not (one_of y seen)
