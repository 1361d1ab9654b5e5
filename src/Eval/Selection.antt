-- ===== src/Eval/Selection.antt =====
-- eval_service/app/orchestrator.py: which cases a run has, `_select_cases`, and which ones are left after
-- one of them, `_remaining_manifest_cases`.
pub mod Reference
use codex_browser.Prelude.{
  String, Bool, true, false, Option, none, some, List, [], ◌∷◌, ◌==◌, if◌then◌else◌, one_of, map,
}
use codex_browser.Dict.{Dict, get, put}
use codex_browser.Eval.Cases.{EvalCase}
use codex_browser.Eval.Models.{EvalError, value_error, key_error, Result, ok, err, EvalRunCase}

-- `{case.eval_case_id: case for case in cases}`, after what is there.
unfoldable pub by_id : Dict EvalCase → List EvalCase → Dict EvalCase
by_id d [] = d
by_id d (case ∷ cases) = by_id (put d case.eval_case_id case) cases

-- A case, in front of the cases that follow; a missing one is a `ValueError`.
abbrev pub with_case : Option EvalCase → Result (List EvalCase) → Result (List EvalCase)
with_case none rest = err value_error
with_case (some case) (ok cases) = ok (case ∷ cases)
with_case (some case) (err e) = err e

-- The loop of `_select_cases`, with the set of the ids seen so far.
unfoldable pub select_from : Dict EvalCase → List String → List String → Result (List EvalCase)
select_from d seen [] = ok []
select_from d seen (id ∷ ids) =
    let skipping = select_from d seen ids in
    let going_on = select_from d (id ∷ seen) ids in
    if one_of id seen then skipping else with_case (get d id) going_on

unfoldable pub select_cases : List EvalCase → List String → Result (List EvalCase)
unfolding by_id select_from
select_cases cases [] = ok cases
select_cases cases (id ∷ ids) = select_from (by_id [] cases) [] (id ∷ ids)

-- The ids of the manifest after the last case with this id, other cases with it left out, and
-- whether there is one.
unfoldable pub after_case : Bool → String → List EvalRunCase → List String × Bool
after_case seen id [] = ([], seen)
after_case seen id (case ∷ cases) =
    let found = after_case true id cases in
    let rest = after_case seen id cases in
    if case.eval_case_id == id
    then found
    else ((if seen then case.eval_case_id ∷ rest.0 else rest.0), rest.1)

-- The second loop: the cases of the registry, each of which has to be there.
unfoldable pub all_of : Dict EvalCase → List String → Result (List EvalCase)
all_of d [] = ok []
all_of d (id ∷ ids) = with_case (get d id) (all_of d ids)

unfoldable pub remaining_cases : List EvalCase → List EvalRunCase → String → Result (List EvalCase)
unfolding after_case all_of by_id
remaining_cases registry cases id =
    let left = after_case false id cases in
    if left.1 then all_of (by_id [] registry) left.0 else err key_error
