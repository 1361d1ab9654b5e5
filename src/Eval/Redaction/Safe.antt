-- ===== src/Eval/Redaction/Safe.antt =====
-- What `sanitize_for_judge_input` leaves.
use codex_browser.Prelude.{
  String, ◌≡◌, refl, inl, inr, Bool, true, false, not, ◌&&◌, ◌||◌, Option, none, some, ◌==◌,
  if◌then◌else◌, Bool-cases,
}
use codex_browser.Json.{Json, null, bool, num, str, arr, obj, Items, nil, cons, Fields, end, field}
use codex_browser.Eval.Redaction.{
  redacted_local_storage_value, is_container, normalize_key, is_sensitive_key, kept_value,
  sanitize_value, sanitize_list, sanitize_members, sanitize_for_judge_input,
}

module _ (lower redact_text : String → String) where
  -- A text that was redacted, or that stands for a value of a local storage.
  abbrev pub IsRedacted : Bool → String → Type 0
  IsRedacted true s = s ≡ redacted_local_storage_value
  IsRedacted false s = (t : String) × (s ≡ redact_text t)

  -- Below `name` in a local storage nothing is said.
  unfoldable mutual
    pub IsSafe : Bool → Option String → Json → Type 0
    IsSafe inside parent (obj d) = AreSafe inside parent d
    IsSafe inside parent (arr l) = AllSafe inside parent l
    IsSafe inside parent (str s) = IsRedacted inside s
    IsSafe inside parent null = Unit
    IsSafe inside parent (bool b) = Unit
    IsSafe inside parent (num n) = Unit

    pub AllSafe : Bool → Option String → Items → Type 0
    AllSafe inside parent nil = Unit
    AllSafe inside parent (cons v l) = IsSafe inside parent v × AllSafe inside parent l

    pub AreSafe : Bool → Option String → Fields → Type 0
    AreSafe inside parent end = Unit
    AreSafe inside parent (field key v d) =
        (is_sensitive_key lower key parent ≡ false)
        × ((inside && (normalize_key lower key == "name")) ≡ false
            → IsSafe (inside || (normalize_key lower key == "localstorage")) (some key) v)
        × AreSafe inside parent d

  kept-IsSafe :
      (inside : Bool) (key : String) (v deep : Json)
      → IsSafe (inside || (normalize_key lower key == "localstorage")) (some key) deep
      → (inside && (normalize_key lower key == "name")) ≡ false
      → IsSafe
          (inside || (normalize_key lower key == "localstorage"))
          (some key)
          (kept_value lower redact_text inside (normalize_key lower key) v deep)
  unfolding IsSafe
  kept-IsSafe false key v deep safe other = safe
  kept-IsSafe true key v deep safe other = elim (Bool-cases (normalize_key lower key == "value")) [
    | inl e ↦ rw e refl
    | inr e ↦ elim (Bool-cases (not (is_container v))) [
      | inl f ↦ rw (e, other, f) refl
      | inr f ↦ rw (e, other, f) safe
    ]
  ]

  member-IsSafe :
      (inside : Bool) (parent : Option String) (key : String) (v : Json) (d : Fields)
      → ((inside && (normalize_key lower key == "name")) ≡ false
          → IsSafe (inside || (normalize_key lower key == "localstorage")) (some key) v)
      → AreSafe inside parent d
      → AreSafe inside parent (if is_sensitive_key lower key parent then d else field key v d)
  unfolding IsSafe
  member-IsSafe inside parent key v d hv hd =
      elim (Bool-cases (is_sensitive_key lower key parent)) [
        | inl e ↦ rw e hd
        | inr e ↦ rw e (e, hv, hd)
      ]

  text-IsRedacted :
      (inside : Bool) (parent : Option String) (s : String)
      → IsSafe inside parent
          (if inside then str redacted_local_storage_value else str (redact_text s))
  unfolding IsSafe
  text-IsRedacted true parent s = refl
  text-IsRedacted false parent s = (s, refl)

  mutual
    unfolding sanitize_value IsSafe

    value-IsSafe :
        (inside : Bool) (parent : Option String) (v : Json)
        → IsSafe inside parent (sanitize_value lower redact_text inside parent v)
    value-IsSafe inside parent (obj d) = members-AreSafe inside parent d
    value-IsSafe inside parent (arr l) = list-AllSafe inside parent l
    value-IsSafe inside parent (str s) = text-IsRedacted inside parent s
    value-IsSafe inside parent null = tt
    value-IsSafe inside parent (bool b) = tt
    value-IsSafe inside parent (num n) = tt

    list-AllSafe :
        (inside : Bool) (parent : Option String) (l : Items)
        → AllSafe inside parent (sanitize_list lower redact_text inside parent l)
    list-AllSafe inside parent nil = tt
    list-AllSafe inside parent (cons v l) =
        (value-IsSafe inside parent v, list-AllSafe inside parent l)

    members-AreSafe :
        (inside : Bool) (parent : Option String) (d : Fields)
        → AreSafe inside parent (sanitize_members lower redact_text inside parent d)
    members-AreSafe inside parent end = tt
    members-AreSafe inside parent (field key v d) =
        let within = inside || (normalize_key lower key == "localstorage") in
        member-IsSafe inside parent key _ _
          (kept-IsSafe inside key v (sanitize_value lower redact_text within (some key) v)
            (value-IsSafe within (some key) v))
          (members-AreSafe inside parent d)

  -- In what is sanitized for the judge no key is a secret one, with the key above it taken into account,
  -- every text has been redacted, and below a key `localStorage` every text is the placeholder; for what
  -- stands below a key `name` there, only the key itself is spoken of.
  pub sanitized-IsSafe :
      (v : Json) → IsSafe false none (sanitize_for_judge_input lower redact_text v)
  unfolding sanitize_for_judge_input
  sanitized-IsSafe v = value-IsSafe false none v
