-- ===== src/Examples/OperatorReply.antt =====
-- A reply of the operator that the buyer does not take.
use codex_browser.Prelude.{String, ◌≡◌, ◌⊎◌, refl, true, none, some}
use codex_browser.Dict.{get, put}
use codex_browser.Eval.Models.{CaseRunState, http, ok, is_path_segment}
use codex_browser.Eval.RunStore.{RunStore, read_manifest, update_case}
use codex_browser.Eval.RunStore.Frame.{case_of}
use codex_browser.Eval.OperatorReply.{claim_reply}
use codex_browser.Eval.OperatorReply.Handler.{BuyerReply, failing, send_operator_reply}
use codex_browser.Eval.OperatorReply.Hanging.{claimed-IsWaitingOrResumed}
use codex_browser.Examples.Eval.{run_lib, case_in, store_in, filed}

abbrev waiting : RunStore
waiting = store_in CaseRunState.waiting_user (some "r1")

abbrev refusing : String → String → BuyerReply
refusing session_id reply_id = failing (http 500)

claimed : (claim_reply run_lib 9 "run1" "case1" (some "r1") waiting).0 ≡ ok ("s1", "r1")
unfolding claim_reply read_manifest is_path_segment get update_case
claimed = refl

restored :
    case_of
      (send_operator_reply run_lib 9 "run1" "case1"
        (some "r1")
        refusing
        (λ t. t)
        none
        waiting).store
      "run1"
      "case1"
    ≡ some (case_in CaseRunState.waiting_user (some "r1"))
unfolding send_operator_reply case_of get read_manifest is_path_segment update_case put
restored = refl

claimed-IsWaitingOrResumed_example :
    ((case_in CaseRunState.waiting_user (some "r1")).state ≡ CaseRunState.waiting_user)
    ⊎ ((send_operator_reply run_lib 9 "run1" "case1"
          (some "r1")
          refusing
          (λ t. t)
          none
          waiting).resumes
        ≡ true)
claimed-IsWaitingOrResumed_example =
    claimed-IsWaitingOrResumed run_lib 9 "run1" "case1" (some "r1") waiting refusing (λ t. t) none
      ("s1", "r1") (case_in CaseRunState.waiting_user (some "r1"))
      (filed CaseRunState.waiting_user (some "r1")) (λ t h. h) claimed restored
