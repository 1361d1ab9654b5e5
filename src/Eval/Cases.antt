-- ===== src/Eval/Cases.antt =====
-- eval_service/app/models.py and auth_profiles.py: the cases of the registry and
-- the login profile of a case.
use codex_browser.Prelude.{
  List, String, Option, none, some, ◌==◌, not, if◌then◌else◌, is_empty, concat,
}
use codex_browser.Json.{Json, str, obj, Fields, assign}

pub record ExpectedOutcome : Type 0 where
  pub target : String
  pub stop_condition : String
  pub acceptable_variants : List String

pub record EvalCase : Type 0 where
  pub eval_case_id : String
  pub case_version : String
  pub variant_id : String
  pub title : String
  pub host : String
  pub task : String
  pub start_url : String
  pub metadata : Fields
  pub auth_profile : Option String
  pub expected_outcome : ExpectedOutcome
  pub forbidden_actions : List String
  pub rubric : Fields

unfoldable pub buyer_metadata : EvalCase → Fields
buyer_metadata case =
    assign
      (assign
        (assign
          (assign (assign case.metadata "eval_case_id" (str case.eval_case_id)) "case_version"
            (str case.case_version))
          "host" (str case.host))
        "case_title" (str case.title))
      "variant_id" (str case.variant_id)

pub record AuthProfileSkipReason : Type 0 where
  pub reason : String
  pub auth_profile : String

pub record AuthProfileLoadResult : Type 0 where
  pub storage_state : Option Fields
  pub skip_reason : Option AuthProfileSkipReason

-- A file of the directory of profiles: it is not there, cannot be read or parsed, or holds a value.
pub data ProfileFile : Type 0 where
  missing unreadable : ProfileFile
  holds : Json → ProfileFile

abbrev pub skipped : String → String → AuthProfileLoadResult
skipped reason auth_profile = record {
  storage_state = none;
  skip_reason = some (record { reason = reason; auth_profile = auth_profile });
}

abbrev pub no_profile : AuthProfileLoadResult
no_profile = record { storage_state = none; skip_reason = none }

abbrev pub profile_of : String → ProfileFile → AuthProfileLoadResult
profile_of auth_profile missing = skipped "auth_profile_missing" auth_profile
profile_of auth_profile unreadable = skipped "auth_profile_invalid" auth_profile
profile_of auth_profile (holds (obj d)) = record { storage_state = some d; skip_reason = none }
profile_of auth_profile (holds v) = skipped "auth_profile_invalid" auth_profile

-- `load`, with pathlib's `Path(…).name` and the files.
unfoldable pub load :
    (String → String) → (String → ProfileFile) → Option String → AuthProfileLoadResult
load path_name file none = no_profile
load path_name file (some auth_profile) =
    let profile_name = concat auth_profile ".json" in
    if is_empty auth_profile
    then no_profile
    else if not (path_name profile_name == profile_name)
    then skipped "auth_profile_missing" auth_profile
    else profile_of auth_profile (file profile_name)
