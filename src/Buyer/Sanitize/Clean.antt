-- ===== src/Buyer/Sanitize/Clean.antt =====
-- What sanitizing leaves of a value.
use mathlib.Core.Path.{ap₂}
use codex_browser.Prelude.{
  ℕ, zero, suc, String, Bool, true, false, ◌≡◌, refl, inl, inr, arith, if◌then◌else◌, ltb,
  Bool-cases,
}
use codex_browser.Json.{Json, null, bool, num, str, arr, obj, Items, nil, cons, Fields, end, field}
use codex_browser.Buyer.Sanitize.{truncated, sanitize, sanitize_items, sanitize_fields}

module _ (is_blocked : String → Bool) where
  -- No key of the value, or of a value within it, is blocked.
  unfoldable mutual
    pub HasNoBlockedKey : Json → Type 0
    HasNoBlockedKey (obj d) = FieldsHaveNone d
    HasNoBlockedKey (arr l) = ItemsHaveNone l
    HasNoBlockedKey null = Unit
    HasNoBlockedKey (bool b) = Unit
    HasNoBlockedKey (num n) = Unit
    HasNoBlockedKey (str s) = Unit

    pub ItemsHaveNone : Items → Type 0
    ItemsHaveNone nil = Unit
    ItemsHaveNone (cons v l) = HasNoBlockedKey v × ItemsHaveNone l

    pub FieldsHaveNone : Fields → Type 0
    FieldsHaveNone end = Unit
    FieldsHaveNone (field key v d) = (is_blocked key ≡ false) × HasNoBlockedKey v × FieldsHaveNone d

  if_clean :
      (b : Bool) (v : Json) → HasNoBlockedKey v → HasNoBlockedKey (if b then truncated else v)
  unfolding HasNoBlockedKey
  if_clean true v h = tt
  if_clean false v h = h

  field_clean :
      (key : String) (v : Json) (d : Fields)
      → HasNoBlockedKey v
      → FieldsHaveNone d
      → FieldsHaveNone (if is_blocked key then d else field key v d)
  unfolding HasNoBlockedKey
  field_clean key v d hv hd = elim (Bool-cases (is_blocked key)) [
    | inl e ↦ rw e hd
    | inr e ↦ rw e (e, hv, hd)
  ]

  mutual
    unfolding sanitize HasNoBlockedKey

    value_clean : (depth : ℕ) (v : Json) → HasNoBlockedKey (sanitize is_blocked depth v)
    value_clean depth (obj d) =
        if_clean (ltb 8 depth) (obj (sanitize_fields is_blocked depth d)) (fields_clean depth d)
    value_clean depth (arr l) =
        if_clean (ltb 8 depth) (arr (sanitize_items is_blocked 100 depth l))
          (items_clean 100 depth l)
    value_clean depth null = if_clean (ltb 8 depth) null tt
    value_clean depth (bool b) = if_clean (ltb 8 depth) (bool b) tt
    value_clean depth (num n) = if_clean (ltb 8 depth) (num n) tt
    value_clean depth (str s) = if_clean (ltb 8 depth) (str s) tt

    items_clean :
        (count depth : ℕ) (l : Items) → ItemsHaveNone (sanitize_items is_blocked count depth l)
    items_clean count depth nil = tt
    items_clean zero depth (cons v l) = tt
    items_clean (suc count) depth (cons v l) =
        (value_clean (suc depth) v, items_clean count depth l)

    fields_clean : (depth : ℕ) (d : Fields) → FieldsHaveNone (sanitize_fields is_blocked depth d)
    fields_clean depth end = tt
    fields_clean depth (field key v d) =
        field_clean key (sanitize is_blocked (suc depth) v) (sanitize_fields is_blocked depth d)
          (value_clean (suc depth) v) (fields_clean depth d)

  same_text : (depth : ℕ) → sanitize is_blocked depth truncated ≡ truncated
  unfolding sanitize
  same_text depth = ground arith

  if_again :
      (depth : ℕ) (v : Json)
      → (ltb 8 depth ≡ false → sanitize is_blocked depth v ≡ v)
      → sanitize is_blocked depth (if ltb 8 depth then truncated else v)
        ≡ (if ltb 8 depth then truncated else v)
  unfolding sanitize
  if_again depth v h = elim (Bool-cases (ltb 8 depth)) [
    | inl e ↦ rw e (same_text depth)
    | inr e ↦ rw e (h e)
  ]

  again_field :
      (depth : ℕ) (key : String) (v : Json) (d : Fields)
      → sanitize is_blocked (suc depth) v ≡ v
      → sanitize_fields is_blocked depth d ≡ d
      → sanitize_fields is_blocked depth (if is_blocked key then d else field key v d)
        ≡ (if is_blocked key then d else field key v d)
  unfolding sanitize_fields
  again_field depth key v d hv hd = elim (Bool-cases (is_blocked key)) [
    | inl e ↦ rw e hd
    | inr e ↦ rw e (rw (sanitize_fields, e, hv, hd) refl)
  ]

  mutual
    unfolding sanitize

    value_again :
        (depth : ℕ) (v : Json)
        → sanitize is_blocked depth (sanitize is_blocked depth v) ≡ sanitize is_blocked depth v
    value_again depth (obj d) =
        if_again depth (obj (sanitize_fields is_blocked depth d))
          (λ e. rw (sanitize, e, fields_again depth d) refl)
    value_again depth (arr l) =
        if_again depth (arr (sanitize_items is_blocked 100 depth l))
          (λ e. rw (sanitize, e, items_again 100 depth l) refl)
    value_again depth null = if_again depth null (λ e. rw (sanitize, e) refl)
    value_again depth (bool b) = if_again depth (bool b) (λ e. rw (sanitize, e) refl)
    value_again depth (num n) = if_again depth (num n) (λ e. rw (sanitize, e) refl)
    value_again depth (str s) = if_again depth (str s) (λ e. rw (sanitize, e) refl)

    items_again :
        (count depth : ℕ) (l : Items)
        → sanitize_items is_blocked count depth (sanitize_items is_blocked count depth l)
          ≡ sanitize_items is_blocked count depth l
    items_again count depth nil = refl
    items_again zero depth (cons v l) = refl
    items_again (suc count) depth (cons v l) =
        ap₂ cons (value_again (suc depth) v) (items_again count depth l)

    fields_again :
        (depth : ℕ) (d : Fields)
        → sanitize_fields is_blocked depth (sanitize_fields is_blocked depth d)
          ≡ sanitize_fields is_blocked depth d
    fields_again depth end = refl
    fields_again depth (field key v d) =
        again_field depth key (sanitize is_blocked (suc depth) v)
          (sanitize_fields is_blocked depth d) (value_again (suc depth) v) (fields_again depth d)

  -- A sanitized value holds no blocked key at any depth, below the cut at depth 8 as well, and
  -- sanitizing it again changes nothing.
  pub sanitize-HasNoBlockedKey :
      (v : Json)
      → HasNoBlockedKey (sanitize is_blocked 0 v)
        × (sanitize is_blocked 0 (sanitize is_blocked 0 v) ≡ sanitize is_blocked 0 v)
  sanitize-HasNoBlockedKey v = (value_clean 0 v, value_again 0 v)
