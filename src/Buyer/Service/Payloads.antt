-- ===== src/Buyer/Service/Payloads.antt =====
-- buyer/app/service.py: the pure functions over payloads and artifacts.
use Prim.Native.String.{count}
use codex_browser.Prelude.{
  ℕ, zero, suc, String, Bool, true, false, ◌&&◌, Option, none, some, List, [], ◌∷◌, ◌++◌,
  if◌then◌else◌, leb, any, is_some, contains, join_with,
}
use codex_browser.Json.{
  Json, null, bool, num, str, arr, obj, Items, nil, cons, Fields, end, field, member, assign,
  as_str, as_obj, as_arr, nonempty_str,
}
use codex_browser.Buyer.Models.{AgentOutput, PaymentEvidence, source_text}
use codex_browser.Buyer.Text.{head_text, tail_text}

-- `_string_metadata_value`, and the two ids of `_eval_ids_from_state`.
unfoldable pub string_metadata_value : Fields → String → Option String
string_metadata_value metadata key = nonempty_str (member metadata key)

-- `value if value is not None`
abbrev pub not_null : Option Json → Option Json
not_null (some null) = none
not_null v = v

-- `json` of a value that may be `None`.
abbrev pub text_or_null : Option String → Json
text_or_null none = null
text_or_null (some s) = str s

-- The listed fields that are there and not `None`, added in order.
unfoldable pub copy_fields : List String → Fields → Fields → Fields
copy_fields [] source target = target
copy_fields (key ∷ keys) source target = elim (not_null (member source key)) [
  | none ↦ copy_fields keys source target
  | some v ↦ copy_fields keys source (assign target key v)
]

abbrev pub attempt_fields : List String
attempt_fields = "role" ∷ "model" ∷ "status" ∷ "failure_reason" ∷ []

abbrev pub is_end : Fields → Bool
is_end end = true
is_end (field k v d) = false

-- One attempt as it is shown, put before the others unless nothing of it is.
abbrev pub cons_slim : Fields → Items → Items
cons_slim end rest = rest
cons_slim (field k v d) rest = cons (obj (field k v d)) rest

unfoldable pub slim_codex_attempts : Items → Items
unfolding copy_fields
slim_codex_attempts nil = nil
slim_codex_attempts (cons (obj attempt) l) =
    cons_slim (copy_fields attempt_fields attempt end) (slim_codex_attempts l)
slim_codex_attempts (cons _ l) = slim_codex_attempts l

abbrev pub trace_fields : List String
trace_fields =
    "step" ∷ "trace_date" ∷ "trace_time" ∷ "prompt_sha256" ∷ "trace_file" ∷ "browser_actions_total"
    ∷ "duration_ms" ∷ "codex_tokens_used" ∷ "codex_model" ∷ "model_strategy"
    ∷ "model_fallback_reason" ∷ "codex_returncode" ∷ []

-- `_extract_trace_for_event`
unfoldable pub extract_trace : Fields → Fields
unfolding copy_fields slim_codex_attempts
extract_trace artifacts = elim (as_obj (member artifacts "trace")) [
  | none ↦ end
  | some raw_trace ↦
      let trace = copy_fields trace_fields raw_trace end in
      elim (as_arr (member raw_trace "codex_attempts")) [
        | none ↦ trace
        | some attempts ↦ assign trace "codex_attempts" (arr (slim_codex_attempts attempts))
      ]
]

-- `_sanitize_terminal_callback_artifacts`
unfoldable pub terminal_callback_artifacts : Fields → Fields
unfolding extract_trace
terminal_callback_artifacts artifacts =
    if is_some (as_obj (member artifacts "trace"))
    then assign artifacts "trace" (obj (extract_trace artifacts))
    else artifacts

-- `payment_evidence.model_dump(mode='json')`
abbrev pub dump_evidence : PaymentEvidence → Json
dump_evidence e = obj (field "source" (str (source_text e.source)) (field "url" (str e.url) end))

-- `_artifacts_with_payment_evidence`
unfoldable pub artifacts_with_evidence : AgentOutput → Fields
artifacts_with_evidence result = elim result.payment_evidence [
  | none ↦ result.artifacts
  | some e ↦ assign result.artifacts "payment_evidence" (dump_evidence e)
]

-- `if auth_summary: artifacts['auth'] = auth_summary`
abbrev pub with_auth : Fields → Fields → Fields
with_auth end artifacts = artifacts
with_auth (field k v d) artifacts = assign artifacts "auth" (obj (field k v d))

-- `_build_agent_step_payload`
unfoldable pub agent_step_payload : ℕ → AgentOutput → Fields
unfolding extract_trace
agent_step_payload step_index result =
    let trace = extract_trace result.artifacts in
    let payload = field "step" (num step_index) (
      field "status" (str result.status) (
        field "message" (str result.message)
          (field "order_id" (text_or_null result.order_id) end))) in
    if is_end trace then payload else assign payload "trace" (obj trace)

-- `_is_valid_storage_state`
unfoldable pub is_valid_storage_state : Option Fields → Bool
is_valid_storage_state none = false
is_valid_storage_state (some payload) =
    is_some (as_arr (member payload "cookies")) && is_some (as_arr (member payload "origins"))

abbrev pub transient_cdp_markers : List String
transient_cdp_markers =
    "cdp_connect_error" ∷ "cdp_transient_error" ∷ "execution context was destroyed"
    ∷ "target page, context or browser has been closed" ∷ "target closed" ∷ "page closed"
    ∷ "context closed" ∷ "browser has been closed" ∷ []

-- `_collect_artifact_string_samples`: the texts within a value down to depth 3, of the first 20 entries
-- of each object and list; of a long text its two ends.
unfoldable mutual
  pub samples : ℕ → Json → List String
  samples depth (obj d) = let found = samples_fields 20 depth d in if leb depth 3 then found else []
  samples depth (arr l) = let found = samples_items 20 depth l in if leb depth 3 then found else []
  samples depth (str s) =
      if leb depth 3
      then if leb (count s) 2000 then s ∷ [] else head_text s 1000 ∷ tail_text s 1000 ∷ []
      else []
  samples depth null = []
  samples depth (bool b) = []
  samples depth (num n) = []

  pub samples_items : ℕ → ℕ → Items → List String
  samples_items left depth nil = []
  samples_items zero depth (cons v l) = []
  samples_items (suc left) depth (cons v l) = samples (suc depth) v ++ samples_items left depth l

  pub samples_fields : ℕ → ℕ → Fields → List String
  samples_fields left depth end = []
  samples_fields zero depth (field k v d) = []
  samples_fields (suc left) depth (field k v d) =
      samples (suc depth) v ++ samples_fields left depth d

-- The values of the listed keys that are strings.
unfoldable pub texts_at : List String → Fields → List String
texts_at [] d = []
texts_at (key ∷ keys) d = elim (as_str (member d key)) [
  | none ↦ texts_at keys d
  | some s ↦ s ∷ texts_at keys d
]

abbrev pub fields_or_end : Option Fields → Fields
fields_or_end none = end
fields_or_end (some d) = d

abbrev pub or_samples : List String → List String → List String
or_samples [] others = others
or_samples (x ∷ xs) others = x ∷ xs

-- `_looks_like_transient_cdp_failure`; `str.lower` is an argument.
unfoldable pub looks_like_transient : (String → String) → String → Fields → Bool
unfolding texts_at samples
looks_like_transient lower message artifacts =
    let named = texts_at ("stderr" ∷ "stdout" ∷ []) artifacts in
    let traced =
      texts_at ("stderr_tail" ∷ "stdout_tail" ∷ [])
        (fields_or_end (as_obj (member artifacts "trace"))) in
    let chunks = or_samples (named ++ traced) (samples 0 (obj artifacts)) in
    any (contains (lower (join_with " " (message ∷ chunks)))) transient_cdp_markers
