-- ===== src/Eval/RunStore.antt =====
-- eval_service/app/run_store.py: the manifests of the runs on disk. A manifest is read, changed and
-- written under the lock of its run, so an operation is one atomic function of the store; a reading
-- of the clock is the argument `now`. A file is kept as the record that it decodes to.
pub mod Frame
pub mod Changed
pub mod Delivery
use codex_browser.Prelude.{
  ℕ, zero, suc, String, Bool, true, false, not, Option, none, some, List, [], ◌∷◌, ◌++◌, ◌==◌,
  if◌then◌else◌, ◌&&◌, ◌||◌, leb, nat_eq, any, one_of, starts_with, concat, drop_chars, all_chars,
  is_some,
}
use Prim.Native.String.{count}
use codex_browser.Dict.{Dict, get, put, values, in_keys}
use codex_browser.Json.{Fields}
use codex_browser.Eval.Models.{
  CaseRunState, EvalRunStatus, EvalRunCase, EvalRunManifest, BuyerCallbackEnvelope, EvalError,
  value_error, file_not_found, file_exists, key_error, Result, ok, err, is_path_segment,
}

-- What run_store.py takes from elsewhere: `hashlib.sha256(…).hexdigest()`, `str.lower`, and
-- `sanitize_for_judge_input` of redaction.py on an object.
pub record RunLib : Type 0 where
  pub sha256_hex : String → String
  pub lower : String → String
  pub sanitize_for_judge_input : Fields → Fields

-- The files `manifest.json` and `summary.json` of each directory under `runs_dir`.
pub record RunStore : Type 0 where
  pub manifests : Dict EvalRunManifest
  pub summaries : Dict Fields

-- An argument that may be left out: `_UNSET`, or a value.
pub data Update {ℓ} (A : Type ℓ) : Type ℓ where
  unset : Update A
  set : A → Update A

pub record CaseUpdate : Type 0 where
  pub state : Update CaseRunState
  pub session_id : Update (Option String)
  pub started_at : Update (Option ℕ)
  pub finished_at : Update (Option ℕ)
  pub waiting_reply_id : Update (Option String)
  pub error : Update (Option String)
  pub artifact_paths : Dict String

-- The call with every keyword left out.
abbrev pub no_update : CaseUpdate
no_update = record {
  state = unset;
  session_id = unset;
  started_at = unset;
  finished_at = unset;
  waiting_reply_id = unset;
  error = unset;
  artifact_paths = [];
}

-- `_set_if_present`
unfoldable pub set_if_present {ℓ} : {A : Type ℓ} → A → Update A → A
set_if_present old unset = old
set_if_present old (set new) = new

-- `{**paths, **more}`
unfoldable pub merge {ℓ} : {V : Type ℓ} → Dict V → Dict V → Dict V
merge paths [] = paths
merge paths ((k, v) ∷ more) = merge (put paths k v) more

unfoldable pub find_case_index : List EvalRunCase → String → Option ℕ
find_case_index [] eval_case_id = none
find_case_index (case ∷ cases) eval_case_id =
    let rest = find_case_index cases eval_case_id in
    if case.eval_case_id == eval_case_id
    then some 0
    else elim rest [ none ↦ none | some i ↦ some (suc i) ]

-- `cases[i]`
unfoldable pub get_elem? {ℓ} : {A : Type ℓ} → List A → ℕ → Option A
get_elem? [] i = none
get_elem? (x ∷ xs) zero = some x
get_elem? (x ∷ xs) (suc i) = get_elem? xs i

-- `cases[i] = x`
unfoldable pub set_elem {ℓ} : {A : Type ℓ} → List A → ℕ → A → List A
set_elem [] i y = []
set_elem (x ∷ xs) zero y = y ∷ xs
set_elem (x ∷ xs) (suc i) y = x ∷ set_elem xs i y

-- `with … as manifest`: the manifest of a run, if its id is a file name and its file is there.
unfoldable pub read_manifest : RunStore → String → Result EvalRunManifest
read_manifest s eval_run_id =
    if is_path_segment eval_run_id
    then elim (get s.manifests eval_run_id) [
      | some manifest ↦ ok manifest
      | none ↦ err file_not_found
    ]
    else err value_error

-- `run_dir` has checked the id of every manifest that is written.
unfoldable pub write_manifest : RunStore → EvalRunManifest → RunStore
write_manifest s manifest = record s { manifests = put s.manifests manifest.eval_run_id manifest }

unfoldable pub create_run :
    ℕ → String → List EvalRunCase → EvalRunStatus → RunStore → Result EvalRunManifest × RunStore
unfolding write_manifest
create_run now eval_run_id cases status s =
    let manifest : EvalRunManifest = record {
      eval_run_id = eval_run_id;
      status = status;
      created_at = now;
      updated_at = now;
      cases = cases;
      summary_path = none;
    } in
    if not (is_path_segment eval_run_id)
    then (err value_error, s)
    else if in_keys s.manifests eval_run_id
    then (err file_exists, s)
    else (ok manifest, write_manifest s manifest)

-- Read a manifest under the lock of its run, and go on with it.
abbrev pub with_manifest :
    RunStore
    → String
    → (EvalRunManifest → Result EvalRunManifest × RunStore)
    → Result EvalRunManifest × RunStore
with_manifest s eval_run_id rest = elim (read_manifest s eval_run_id) [
  | ok manifest ↦ rest manifest
  | err e ↦ (err e, s)
]

unfoldable pub update_run_status :
    ℕ → String → EvalRunStatus → RunStore → Result EvalRunManifest × RunStore
unfolding read_manifest write_manifest
update_run_status now eval_run_id status s = with_manifest s eval_run_id (λ manifest.
    let updated = record manifest { status = status; updated_at = now } in
    (ok updated, write_manifest s updated))

unfoldable pub write_summary : ℕ → String → Fields → RunStore → Result EvalRunManifest × RunStore
unfolding read_manifest write_manifest
write_summary now eval_run_id summary s =
    let s' = record s { summaries = put s.summaries eval_run_id summary } in
    if not (is_path_segment eval_run_id)
    then (err value_error, s)
    else with_manifest s' eval_run_id (λ manifest.
      let updated = record manifest { updated_at = now; summary_path = some "summary.json" } in
      (ok updated, write_manifest s' updated))

-- The cases of one manifest that have this session.
unfoldable pub cases_with_session : String → String → List EvalRunCase → List (String × String)
cases_with_session session_id eval_run_id [] = []
cases_with_session session_id eval_run_id (case ∷ cases) =
    let rest = cases_with_session session_id eval_run_id cases in
    if elim case.session_id [ none ↦ false | some i ↦ i == session_id ]
    then (eval_run_id, case.eval_case_id) ∷ rest
    else rest

unfoldable pub session_matches : String → List EvalRunManifest → List (String × String)
unfolding cases_with_session
session_matches session_id [] = []
session_matches session_id (m ∷ ms) =
    cases_with_session session_id m.eval_run_id m.cases ++ session_matches session_id ms

abbrev pub only_match : List (String × String) → Result (Option (String × String))
only_match [] = ok none
only_match (found ∷ []) = ok (some found)
only_match (found ∷ other ∷ more) = err value_error

-- More than one match is a `ValueError`, so the order in which the files are read does not matter.
unfoldable pub find_case_by_session_id : RunStore → String → Result (Option (String × String))
unfolding session_matches
find_case_by_session_id s session_id = only_match (session_matches session_id (values s.manifests))

module _ (L : RunLib) where
  abbrev is_hex : ℕ → Bool
  is_hex c = (leb 48 c && leb c 57) || (leb 97 c && leb c 102)

  unfoldable pub is_sha256_digest : String → Bool
  unfolding all_chars
  is_sha256_digest value =
      let digest = if starts_with value "sha256:" then drop_chars 7 value else value in
      not (digest == value) && nat_eq (count digest) 64 && all_chars is_hex (L.lower digest)

  unfoldable pub redacted_idempotency_key : String → String
  unfolding is_sha256_digest
  redacted_idempotency_key value =
      if is_sha256_digest value then value else concat "sha256:" (L.sha256_hex value)

  unfoldable pub idempotency_key_aliases : String → List String
  unfolding redacted_idempotency_key
  idempotency_key_aliases value = value ∷ redacted_idempotency_key value ∷ []

  unfoldable pub redact_callback_event : BuyerCallbackEnvelope → BuyerCallbackEnvelope
  unfolding redacted_idempotency_key
  redact_callback_event event = record event {
    idempotency_key = redacted_idempotency_key event.idempotency_key;
    payload = L.sanitize_for_judge_input event.payload;
  }

  -- The same event, by its id or by one of the forms of its key.
  unfoldable pub same_event : BuyerCallbackEnvelope → BuyerCallbackEnvelope → Bool
  unfolding idempotency_key_aliases
  same_event event existing =
      (existing.event_id == event.event_id)
      || any (λ key. one_of key (idempotency_key_aliases event.idempotency_key))
          (idempotency_key_aliases existing.idempotency_key)

  unfoldable pub has_callback_event : EvalRunCase → BuyerCallbackEnvelope → Bool
  unfolding same_event
  has_callback_event case event = any (same_event event) case.callback_events

  abbrev pub appended :
      Option BuyerCallbackEnvelope → List BuyerCallbackEnvelope → List BuyerCallbackEnvelope
  appended none events = events
  appended (some event) events = events ++ (event ∷ [])

  abbrev pub is_known : Option BuyerCallbackEnvelope → EvalRunCase → Bool
  is_known none case = false
  is_known (some event) case = has_callback_event case event

  unfoldable pub updated_case :
      CaseUpdate → Option BuyerCallbackEnvelope → EvalRunCase → EvalRunCase
  unfolding set_if_present merge
  updated_case u callback_event case = record case {
    state = set_if_present case.state u.state;
    session_id = set_if_present case.session_id u.session_id;
    started_at = set_if_present case.started_at u.started_at;
    finished_at = set_if_present case.finished_at u.finished_at;
    waiting_reply_id = set_if_present case.waiting_reply_id u.waiting_reply_id;
    error = set_if_present case.error u.error;
    artifact_paths = merge case.artifact_paths u.artifact_paths;
    callback_events = appended callback_event case.callback_events;
  }

  -- The change of a manifest, `none` where the id of the case is missing.
  unfoldable pub update_manifest_case :
      ℕ
      → String
      → CaseUpdate
      → Option BuyerCallbackEnvelope
      → EvalRunManifest
      → RunStore
      → Result EvalRunManifest × RunStore
  unfolding has_callback_event find_case_index get_elem? set_elem updated_case write_manifest
  update_manifest_case now eval_case_id u callback_event manifest s =
      elim (find_case_index manifest.cases eval_case_id) [
        | none ↦ (err key_error, s)
        | some i ↦ elim (get_elem? manifest.cases i) [
          | none ↦ (err key_error, s)
          | some case ↦
              let updated = record manifest {
                updated_at = now;
                cases = set_elem manifest.cases i (updated_case u callback_event case);
              } in
              if is_known callback_event case
              then (ok manifest, s)
              else (ok updated, write_manifest s updated)
        ]
      ]

  -- `_update_case`
  unfoldable pub change_case :
      ℕ
      → String
      → String
      → CaseUpdate
      → Option BuyerCallbackEnvelope
      → RunStore
      → Result EvalRunManifest × RunStore
  unfolding update_manifest_case read_manifest
  change_case now eval_run_id eval_case_id u callback_event s =
      if not (is_path_segment eval_case_id)
      then (err value_error, s)
      else with_manifest s eval_run_id
          (λ manifest. update_manifest_case now eval_case_id u callback_event manifest s)

  unfoldable pub update_case :
      ℕ → String → String → CaseUpdate → RunStore → Result EvalRunManifest × RunStore
  unfolding change_case
  update_case now eval_run_id eval_case_id u s = change_case now eval_run_id eval_case_id u none s

  -- The session of the event, unless the caller gives one.
  abbrev pub or_session : Update (Option String) → String → Update (Option String)
  or_session unset session_id = set (some session_id)
  or_session (set given) session_id = set given

  abbrev pub append_update : BuyerCallbackEnvelope → CaseUpdate → CaseUpdate
  append_update event u = record u {
    session_id = or_session u.session_id (redact_callback_event event).session_id;
  }

  unfoldable pub append_callback_event :
      ℕ
      → String
      → String
      → BuyerCallbackEnvelope
      → CaseUpdate
      → RunStore
      → Result EvalRunManifest × RunStore
  unfolding change_case redact_callback_event
  append_callback_event now eval_run_id eval_case_id event u s =
      change_case now eval_run_id eval_case_id (append_update event u)
        (some (redact_callback_event event)) s
