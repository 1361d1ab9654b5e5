-- ===== src/Eval/Judge/Identity.antt =====
-- eval_service/app/judge_runner.py: whose evaluation the file of a case holds after a run of the judge.
use codex_browser.Prelude.{
  String, Bool, true, false, ◌≡◌, refl, sym, ◌∙◌, ap, Option, none, some, List, [], ◌∷◌, arith,
  ◌==◌, eq_iff, if◌then◌else◌, All, is_empty,
}
use codex_browser.Json.{Json, null, bool, num, str, arr, obj, Fields, end, field, member, assign}
use codex_browser.Eval.Judge.Runner.{
  JudgeLib, JudgeSettings, Completed, timed_out, not_started, exited, ReadBack, parsed, unreadable,
  crashed, JudgeOutcome, evaluated, raised, Skip, judge_it, skip_for, unhashable, string_value,
  or_fallback, fallback_evaluation, write_fallback, unless_invalid, judge_metadata, identity_keys,
  mismatches, mismatch_reason, failed, accepted, validated, after_success, after_failure,
  after_process, unless_skipped, auth_skip_reason, run, is_zero,
}

member-assign :
    (d : Fields) (k : String) (v : Json) (j : String)
    → member (assign d k v) j ≡ (if k == j then some v else member d j)
unfolding member assign
member-assign end k v j = refl
member-assign (field i w d) k v j =
    ground (arith, member-assign d k v j, eq_iff i k, eq_iff i j, eq_iff k j)

fallback_unused :
    (text fallback : String)
    → is_empty (or_fallback "" text) ≡ false
    → or_fallback "" (or_fallback fallback text) ≡ or_fallback "" text
fallback_unused String.[] fallback h = absurd (cc (h))
fallback_unused (String.◌∷◌ c s) fallback h = refl

kept_none :
    (b : Bool) (x : String) (rest : List String)
    → (if b then rest else x ∷ rest) ≡ []
    → (b ≡ true) × (rest ≡ [])
kept_none true x rest h = (refl, h)
kept_none false x rest h = absurd (cc (h))

module _ (L : JudgeLib) (settings : JudgeSettings) (input : Fields) where
  -- The input names what `key` stands for.
  abbrev pub IsGiven : String → Type 0
  IsGiven key = is_empty (string_value L (member input key) "") ≡ false

  -- The evaluation names the same under `key`.
  abbrev pub IsSame : Fields → String → Type 0
  IsSame d key = string_value L (member d key) "" ≡ string_value L (member input key) ""

  abbrev pub IsOwn : Fields → Type 0
  IsOwn d =
      All (IsSame d) (identity_keys L)
      × (member d "judge_metadata" ≡ some (judge_metadata L settings.eval_judge_model))

  -- What holds of the evaluation, where there is one.
  abbrev pub OwnOutcome : JudgeOutcome → Type 0
  OwnOutcome (evaluated d) = IsOwn d
  OwnOutcome (raised error) = Unit

  fallback_same :
      (o : Option Json) (fallback : String)
      → is_empty (string_value L o "") ≡ false
      → string_value L (some (str (string_value L o fallback))) "" ≡ string_value L o ""
  unfolding string_value
  fallback_same none fallback h = absurd (cc h)
  fallback_same (some null) fallback h = absurd (cc h)
  fallback_same (some (bool b)) fallback h = fallback_unused (L.show (bool b)) fallback h
  fallback_same (some (num n)) fallback h = fallback_unused (L.show (num n)) fallback h
  fallback_same (some (str t)) fallback h = fallback_unused t fallback h
  fallback_same (some (arr l)) fallback h = fallback_unused (L.show (arr l)) fallback h
  fallback_same (some (obj d)) fallback h = fallback_unused (L.show (obj d)) fallback h

  fallback-IsOwn :
      (status reason : String)
      → All IsGiven (identity_keys L)
      → IsOwn (fallback_evaluation L input status reason settings.eval_judge_model)
  unfolding fallback_evaluation member
  fallback-IsOwn status reason (run_id, (case_id, (version, (session, (host, h))))) = (
    (
      fallback_same (member input "eval_run_id") "unknown-eval-run" run_id,
      (
        fallback_same (member input "eval_case_id") "unknown-eval-case" case_id,
        (
          fallback_same (member input "case_version") "unknown-version" version,
          (
            fallback_same (member input "session_id") "unknown-session" session,
            (fallback_same (member input "host") "unknown-host" host, tt),
          ),
        ),
      ),
    ),
    refl,
  )

  mismatches-IsSame :
      (d : Fields) (keys : List String) → mismatches L d input keys ≡ [] → All (IsSame d) keys
  unfolding mismatches
  mismatches-IsSame d [] h = tt
  mismatches-IsSame d (key ∷ keys) h =
      let actual = string_value L (member d key) "" in
      let expected = string_value L (member input key) "" in
      let (same, rest) = kept_none (actual == expected) _ (mismatches L d input keys) h in
      ((eq_iff actual expected).0 same, mismatches-IsSame d keys rest)

  assign-IsSame :
      (d : Fields) (key : String) (v : Json)
      → ("judge_metadata" == key) ≡ false
      → IsSame d key
      → IsSame (assign d "judge_metadata" v) key
  assign-IsSame d key v ne h =
      ap (λ o. string_value L o "") (member-assign d "judge_metadata" v key ∙ rw ne refl) ∙ h

  -- A key of the identity is not the one that is assigned.
  assigned-IsOwn :
      (d : Fields)
      → All (IsSame d) (identity_keys L)
      → IsOwn (assign d "judge_metadata" (judge_metadata L settings.eval_judge_model))
  assigned-IsOwn d (run_id, (case_id, (version, (session, (host, h))))) =
      let v = judge_metadata L settings.eval_judge_model in
      (
        (
          assign-IsSame d "eval_run_id" v refl run_id,
          (
            assign-IsSame d "eval_case_id" v refl case_id,
            (
              assign-IsSame d "case_version" v refl version,
              (
                assign-IsSame d "session_id" v refl session,
                (assign-IsSame d "host" v refl host, tt),
              ),
            ),
          ),
        ),
        member-assign d "judge_metadata" v "judge_metadata",
      )

  module _ (given : All IsGiven (identity_keys L)) where
    failed-OwnOutcome :
        (status reason : String) → OwnOutcome (failed L settings input status reason)
    unfolding failed write_fallback
    failed-OwnOutcome status reason =
        unless_invalid-OwnOutcome _ (fallback-IsOwn status reason given) _
      where
        unless_invalid-OwnOutcome :
            (d : Fields) → IsOwn d → (o : Option String) → OwnOutcome (unless_invalid L d o)
        unless_invalid-OwnOutcome d own none = own
        unless_invalid-OwnOutcome d own (some message) = tt

    accepted-OwnOutcome :
        (d : Fields) (ms : List String)
        → ms ≡ mismatches L d input (identity_keys L)
        → OwnOutcome (accepted L settings input d (mismatch_reason L ms))
    unfolding accepted mismatch_reason
    accepted-OwnOutcome d [] same =
        assigned-IsOwn d (mismatches-IsSame d (identity_keys L) (sym same))
    accepted-OwnOutcome d (m ∷ ms) same = failed-OwnOutcome _ _

    validated-OwnOutcome :
        (v : Json) (o : Option String) → OwnOutcome (validated L settings input v o)
    unfolding validated
    validated-OwnOutcome v (some message) = failed-OwnOutcome _ _
    validated-OwnOutcome (obj d) none = accepted-OwnOutcome d _ refl
    validated-OwnOutcome null none = tt
    validated-OwnOutcome (bool b) none = tt
    validated-OwnOutcome (num n) none = tt
    validated-OwnOutcome (str t) none = tt
    validated-OwnOutcome (arr l) none = tt

    success-OwnOutcome : (file : ReadBack) → OwnOutcome (after_success L settings input file)
    unfolding after_success
    success-OwnOutcome (parsed v) = validated-OwnOutcome v (L.schema_error v)
    success-OwnOutcome (unreadable error) = failed-OwnOutcome _ _
    success-OwnOutcome (crashed error) = tt

    choice :
        (b : Bool) (x y : JudgeOutcome)
        → OwnOutcome x
        → OwnOutcome y
        → OwnOutcome (if b then x else y)
    choice true x y h k = h
    choice false x y h k = k

    process-OwnOutcome :
        (process : Completed) (file : ReadBack)
        → OwnOutcome (after_process L settings input process file)
    unfolding after_process after_failure
    process-OwnOutcome timed_out file = failed-OwnOutcome _ _
    process-OwnOutcome (not_started error) file = tt
    process-OwnOutcome (exited code stdout stderr) file =
        choice (is_zero code) _ _ (success-OwnOutcome file)
          (choice _ _ _ (failed-OwnOutcome _ _) (failed-OwnOutcome _ _))

    unless_skipped-OwnOutcome :
        (s : Skip) (process : Completed) (file : ReadBack)
        → OwnOutcome (unless_skipped L settings input s process file)
    unfolding unless_skipped
    unless_skipped-OwnOutcome judge_it process file = process-OwnOutcome process file
    unless_skipped-OwnOutcome (skip_for reason) process file = failed-OwnOutcome _ _
    unless_skipped-OwnOutcome unhashable process file = tt

    -- Where the input names its run, case, version, session and host, an evaluation that a run of the
    -- judge returns names the same ones, and the backend and model of the server, whatever the
    -- process was and wrote.
    pub run-OwnOutcome :
        (process : Completed) (file : ReadBack) → OwnOutcome (run L settings input process file)
    unfolding run
    run-OwnOutcome process file = unless_skipped-OwnOutcome (auth_skip_reason input) process file
