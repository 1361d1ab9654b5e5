-- ===== src/Eval/Orchestrator/World.antt =====
-- What a task of the orchestrator sees and changes. While it awaits something (a sleep, an answer of the
-- buyer) the callbacks and the operator's replies change the store in any way: `others`.
use codex_browser.Prelude.{ℕ, suc, String, Bool, Option, none, some, List}
use codex_browser.Json.{Json, Fields}
use codex_browser.Eval.Models.{
  CaseRunState, EvalError, key_error, Result, ok, err, EvalRunCase, EvalRunManifest,
}
use codex_browser.Eval.Helpers.{find_case}
use codex_browser.Eval.RunStore.{RunLib, RunStore, read_manifest, update_case, CaseUpdate}

pub data Outcome (A : Type 0) : Type 0 where
  done : A → Outcome A
  raised : EvalError → Outcome A
  going_on : Outcome A

-- What `create_task` of the buyer's client is called with.
pub record TaskRequest : Type 0 where
  pub eval_case_id : String
  pub task : String
  pub start_url : String
  pub metadata : Fields
  pub callback_url : String
  pub callback_token : Option String
  pub storage_state : Option Fields

-- Its answer: the field `session_id` of the response, where it has one, or the text of what is raised.
pub data TaskAnswer : Type 0 where
  response : Option Json → TaskAnswer
  failure : String → TaskAnswer

-- What lies outside, by the number of the reading. `load` is the loader of login profiles.
pub record Outside : Type 0 where
  pub clock : ℕ → ℕ
  pub monotonic : ℕ → ℕ
  pub others : ℕ → RunStore → RunStore
  pub create_task : ℕ → TaskRequest → TaskAnswer
  pub timeout_error : String
  pub skip_text : String → String → String

pub record Settings : Type 0 where
  pub is_buyer_runtime : Bool
  pub timeout : ℕ

-- `submitted` are the requests that this task has made, in their order.
pub record World : Type 0 where
  pub run_store : RunStore
  pub submitted : List TaskRequest
  pub readings : ℕ

abbrev pub M : Type 0 → Type 0
M A = World → Outcome A × World

abbrev pub after : {A B : Type 0} → (A → M B) → Outcome A → World → Outcome B × World
after f (done a) w = f a w
after f (raised e) w = (raised e, w)
after f going_on w = (going_on, w)

infixl 5 ◌>>=◌ ◌>>◌
abbrev pub ◌>>=◌ : {A B : Type 0} → M A → (A → M B) → M B
◌>>=◌ m f w = after f (m w).0 (m w).1

abbrev pub ◌>>◌ : {A B : Type 0} → M A → M B → M B
m >> k = m >>= λ _. k

abbrev pub pure : {A : Type 0} → A → M A
pure a w = (done a, w)

abbrev pub raise : {A : Type 0} → EvalError → M A
raise e w = (raised e, w)

abbrev pub lifted : {A : Type 0} → Result A × RunStore → World → Outcome A × World
lifted (ok a, s) w = (done a, record w { run_store = s })
lifted (err e, s) w = (raised e, record w { run_store = s })

abbrev pub store_op : {A : Type 0} → (RunStore → Result A × RunStore) → M A
store_op f w = lifted (f w.run_store) w

abbrev pub reading : M ℕ
reading w = (done w.readings, record w { readings = suc w.readings })

abbrev pub reading_manifest : String → M EvalRunManifest
reading_manifest eval_run_id = store_op (λ s. (read_manifest s eval_run_id, s))

-- `_find_case`, which raises a `KeyError`.
abbrev pub found : Option EvalRunCase → M EvalRunCase
found none = raise key_error
found (some case) = pure case

abbrev pub read_case : String → String → M EvalRunCase
read_case eval_run_id eval_case_id =
    reading_manifest eval_run_id >>= λ manifest. found (find_case manifest.cases eval_case_id)

module _ (L : RunLib) (O : Outside) where
  abbrev pub await : {A : Type 0} → (ℕ → A) → M A
  await f w = (
    done (f w.readings),
    record w { run_store = O.others w.readings w.run_store; readings = suc w.readings },
  )

  abbrev pub sleep : M (Unit {0})
  sleep = await λ n. tt

  -- `update_case`, with what the caller makes of its reading of the clock.
  abbrev pub change : String → String → (ℕ → CaseUpdate) → M EvalRunManifest
  change eval_run_id eval_case_id u = do
    n ← reading
    k ← reading
    store_op (update_case L (O.clock k) eval_run_id eval_case_id (u (O.clock n)))

  -- The state of a case that was changed, in the manifest that the change returns.
  abbrev pub change_state : String → String → (ℕ → CaseUpdate) → M CaseRunState
  change_state eval_run_id eval_case_id u = change eval_run_id eval_case_id u >>= λ manifest.
      found (find_case manifest.cases eval_case_id) >>= λ case. pure case.state
