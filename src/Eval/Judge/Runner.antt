-- ===== src/Eval/Judge/Runner.antt =====
-- eval_service/app/judge_runner.py: one run of the judge. The process, the file that it leaves, the JSON
-- schema and Python's `str`, `repr` and `int` are outside. `metrics` of the judge's input is an object
-- or absent, as judge_input.py writes it, and the disk takes what is written.
use codex_browser.Prelude.{
  String, Bool, false, Option, none, some, List, [], ◌∷◌, ◌==◌, if◌then◌else◌, any, one_of,
  is_empty, strip, contains, concat, join_with, ltb, drop_chars, nat_eq,
}
use Prim.Native.Nat.{◌-◌}
use Prim.Native.String.{count}
use codex_browser.Json.{Json, null, num, str, arr, obj, nil, Fields, end, field, member, assign}
use codex_browser.Eval.Metrics.Numbers.{ℤ, pos, negsuc}

pub record JudgeLib : Type 0 where
  pub show : Json → String
  pub repr : String → String
  pub show_int : ℤ → String
  pub int_of : Json → Option ℤ
  pub lower : String → String
  -- The message of a `ValidationError`.
  pub schema_error : Json → Option String

-- What becomes of the process.
pub data Completed : Type 0 where
  timed_out : Completed
  not_started : String → Completed
  exited : ℤ → String → String → Completed

-- The file of the evaluation after it: its JSON, or the text of what reading it raises, caught or not.
pub data ReadBack : Type 0 where
  parsed : Json → ReadBack
  unreadable : String → ReadBack
  crashed : String → ReadBack

-- The evaluation that is written and returned, or an exception.
pub data JudgeOutcome : Type 0 where
  evaluated : Fields → JudgeOutcome
  raised : String → JudgeOutcome

-- `_auth_skip_reason`; a value in a set of texts must be hashable.
pub data Skip : Type 0 where
  judge_it : Skip
  skip_for : String → Skip
  unhashable : Skip

pub record JudgeSettings : Type 0 where
  pub eval_judge_model : String
  pub timeout_text : String

abbrev pub is_text : String → Option Json → Bool
is_text s (some (str t)) = t == s
is_text s _ = false

abbrev pub auth_profile_reasons : List String
auth_profile_reasons = "auth_profile_missing" ∷ "auth_profile_invalid" ∷ []

abbrev pub state_skipped : String
state_skipped =
    "live case state is skipped_auth_missing; judge is skipped without changing live outcome."

abbrev pub unavailable : String → String
unavailable reason = concat "auth profile is unavailable: " (concat reason ".")

-- `value in {…}` for texts.
abbrev pub skip_among : List String → Option Json → Skip
skip_among texts (some (str s)) = if one_of s texts then skip_for (unavailable s) else judge_it
skip_among texts (some (obj d)) = unhashable
skip_among texts (some (arr l)) = unhashable
skip_among texts _ = judge_it

-- Past the first test of `skip_reason`, an object is hashed by the second.
abbrev pub then_hash : Skip → Skip
then_hash judge_it = unhashable
then_hash (skip_for reason) = skip_for reason
then_hash unhashable = unhashable

unfoldable pub skip_reason_of : Option Json → Skip
unfolding member
skip_reason_of (some (obj d)) = then_hash (skip_among auth_profile_reasons (member d "reason"))
skip_reason_of value =
    skip_among ("auth_profile_missing" ∷ "auth_profile_invalid" ∷ "skipped_auth_missing" ∷ []) value

abbrev pub run_is_skipped : Option Json → Bool
unfolding member
run_is_skipped (some (obj d)) = is_text "skipped_auth_missing" (member d "state")
run_is_skipped _ = false

unfoldable pub auth_skip_reason : Fields → Skip
unfolding member skip_reason_of
auth_skip_reason input =
    if any (λ key. is_text "skipped_auth_missing" (member input key))
      ("case_state" ∷ "runtime_state" ∷ "live_state" ∷ "state" ∷ [])
    then skip_for state_skipped
    else if run_is_skipped (member input "case_run")
    then skip_for state_skipped
    else skip_reason_of (member input "skip_reason")

abbrev pub markers : List String
markers =
    "no credentials" ∷ "missing credentials" ∷ "not logged in" ∷ "codex login" ∷ "api key"
    ∷ "openai_api_key" ∷ "auth.json" ∷ "authentication" ∷ "unauthorized" ∷ []

abbrev pub nonempty_parts : List String → List String
nonempty_parts [] = []
nonempty_parts (s ∷ ss) = let rest = nonempty_parts ss in if is_empty s then rest else s ∷ rest

-- `_combined_process_output`
abbrev pub combined_output : String → String → String
unfolding join_with
combined_output stdout stderr = join_with "\n" (nonempty_parts (stdout ∷ stderr ∷ []))

-- `_tail`
unfoldable pub tail : String → String
unfolding strip drop_chars
tail value = let s = strip value in if ltb 500 (count s) then drop_chars (count s - 500) s else s

abbrev pub is_zero : ℤ → Bool
is_zero (pos n) = nat_eq n 0
is_zero (negsuc n) = false

-- `value or {}` of what judge_input.py writes.
abbrev pub object_or_empty : Option Json → Fields
object_or_empty (some (obj d)) = d
object_or_empty _ = end

abbrev pub or_fallback : String → String → String
or_fallback fallback text = if is_empty text then fallback else text

module _ (L : JudgeLib) where
  -- `str(value)`
  abbrev pub text_of : Json → String
  text_of (str s) = s
  text_of v = L.show v

  -- `_string_value`
  unfoldable pub string_value : Option Json → String → String
  string_value none fallback = fallback
  string_value (some null) fallback = fallback
  string_value (some v) fallback = or_fallback fallback (text_of v)

  abbrev pub non_negative : Option ℤ → Json
  non_negative (some (pos n)) = num n
  non_negative _ = null

  -- `_non_negative_int_or_none`
  abbrev pub non_negative_int_or_none : Option Json → Json
  non_negative_int_or_none none = null
  non_negative_int_or_none (some null) = null
  non_negative_int_or_none (some v) = non_negative (L.int_of v)

  abbrev pub judge_metadata : String → Json
  judge_metadata model = obj (
      field "backend" (str "codex_exec")
        (field "model" (str (or_fallback "unknown-model" model)) end))

  abbrev pub skipped_check : String → Json
  skipped_check reason = obj (
      field "status" (str "skipped")
        (field "reason" (str reason) (field "evidence_refs" (arr nil) end)))

  abbrev pub skipped_checks : String → Json
  skipped_checks reason = obj (
      field "outcome_ok" (skipped_check reason) (
        field "safety_ok" (skipped_check reason) (
          field "payment_boundary_ok" (skipped_check reason) (
            field "evidence_ok" (skipped_check reason)
              (field "recommendations_ok" (skipped_check reason) end)))))

  abbrev pub fallback_metrics : Fields → Json
  unfolding member
  fallback_metrics metrics = obj (
      field "duration_ms" (non_negative_int_or_none (member metrics "duration_ms")) (
        field "buyer_tokens_used" (non_negative_int_or_none (member metrics "buyer_tokens_used"))
          (field "judge_tokens_used" null end)))

  -- `_fallback_evaluation`
  unfoldable pub fallback_evaluation : Fields → String → String → String → Fields
  unfolding member string_value
  fallback_evaluation input status reason model =
      field "eval_run_id" (str (string_value (member input "eval_run_id") "unknown-eval-run")) (
        field "eval_case_id" (str (string_value (member input "eval_case_id") "unknown-eval-case"))
          (field "case_version" (str (string_value (member input "case_version") "unknown-version"))
            (field "session_id" (str (string_value (member input "session_id") "unknown-session")) (
              field "host" (str (string_value (member input "host") "unknown-host")) (
                field "status" (str status) (
                  field "metrics" (fallback_metrics (object_or_empty (member input "metrics"))) (
                    field "checks" (skipped_checks reason) (
                      field "evidence_refs" (arr nil) (
                        field "recommendations" (arr nil)
                          (field "judge_metadata" (judge_metadata model) end))))))))))

  abbrev pub unless_invalid : Fields → Option String → JudgeOutcome
  unless_invalid evaluation none = evaluated evaluation
  unless_invalid evaluation (some message) = raised message

  -- `write_fallback_evaluation`
  unfoldable pub write_fallback : Fields → String → String → String → JudgeOutcome
  unfolding fallback_evaluation
  write_fallback input status reason model =
      let evaluation = fallback_evaluation input status reason model in
      unless_invalid evaluation (L.schema_error (obj evaluation))

  abbrev pub identity_keys : List String
  identity_keys = "eval_run_id" ∷ "eval_case_id" ∷ "case_version" ∷ "session_id" ∷ "host" ∷ []

  abbrev pub mismatch_text : String → String → String → String
  mismatch_text key expected actual =
      concat key (concat ": expected " (concat (L.repr expected) (concat ", got " (L.repr actual))))

  -- The loop of `_identity_mismatch_reason`.
  unfoldable pub mismatches : Fields → Fields → List String → List String
  unfolding member string_value
  mismatches evaluation input [] = []
  mismatches evaluation input (key ∷ keys) =
      let rest = mismatches evaluation input keys in
      let expected = string_value (member input key) "" in
      let actual = string_value (member evaluation key) "" in
      if actual == expected then rest else mismatch_text key expected actual ∷ rest

  unfoldable pub mismatch_reason : List String → Option String
  unfolding join_with
  mismatch_reason [] = none
  mismatch_reason (m ∷ ms) =
      some
        (concat "codex exec identity mismatch after schema validation: " (join_with "; " (m ∷ ms)))

  module _ (settings : JudgeSettings) (input : Fields) where
    -- `self._write_fallback`
    unfoldable pub failed : String → String → JudgeOutcome
    unfolding write_fallback
    failed status reason = write_fallback input status reason settings.eval_judge_model

    unfoldable pub accepted : Fields → Option String → JudgeOutcome
    unfolding failed assign
    accepted evaluation none =
        evaluated (assign evaluation "judge_metadata" (judge_metadata settings.eval_judge_model))
    accepted evaluation (some reason) = failed "judge_failed" reason

    unfoldable pub validated : Json → Option String → JudgeOutcome
    unfolding failed accepted mismatch_reason mismatches
    validated value (some message) =
        failed "judge_failed" (concat "codex exec schema validation failed: " message)
    validated (obj evaluation) none =
        accepted evaluation (mismatch_reason (mismatches evaluation input identity_keys))
    validated value none = raised "AttributeError"

    unfoldable pub after_success : ReadBack → JudgeOutcome
    unfolding failed validated
    after_success (unreadable error) =
        failed "judge_failed" (concat "codex exec returned invalid JSON: " error)
    after_success (crashed error) = raised error
    after_success (parsed value) = validated value (L.schema_error value)

    unfoldable pub after_failure : ℤ → String → JudgeOutcome
    unfolding failed tail contains
    after_failure code output =
        if any (contains (L.lower output)) markers
        then failed "judge_skipped"
            (concat "codex exec skipped: missing credentials/auth for judge. " (tail output))
        else failed "judge_failed" (
            concat "codex exec failed with exit code "
              (concat (L.show_int code) (concat ". " (tail output))))

    unfoldable pub after_process : Completed → ReadBack → JudgeOutcome
    unfolding failed after_success after_failure
    after_process timed_out file =
        failed "judge_failed"
          (concat "codex exec timeout after " (concat settings.timeout_text "s."))
    after_process (not_started error) file = raised error
    after_process (exited code stdout stderr) file =
        if is_zero code
        then after_success file
        else after_failure code (combined_output stdout stderr)

    unfoldable pub unless_skipped : Skip → Completed → ReadBack → JudgeOutcome
    unfolding failed after_process
    unless_skipped (skip_for reason) process file = failed "judge_skipped" reason
    unless_skipped unhashable process file = raised "TypeError"
    unless_skipped judge_it process file = after_process process file

    -- `JudgeRunner.run`
    unfoldable pub run : Completed → ReadBack → JudgeOutcome
    unfolding auth_skip_reason unless_skipped
    run process file = unless_skipped (auth_skip_reason input) process file
