-- ===== src/Buyer/Session/Counting.antt =====
-- Counting and filtering the values of a dictionary of sessions, and the keys that sessions stand
-- under.
use codex_browser.Prelude.{
  suc, ◌≤◌, String, ◌≡◌, ◌≢◌, refl, sym, ◌∙◌, inl, inr, Bool-cases, ap, Bool, true, false, not,
  ◌&&◌, none, some, List, [], ◌∷◌, map, arith, ◌==◌, eq_iff, if◌then◌else◌, count, filter, one_of,
  All,
}
use codex_browser.Dict.{Dict, get, put, remove, values}
use codex_browser.Buyer.Session.State.{SessionState, clone_state, delete_from}

module _ {ℓ} {A : Type ℓ} where
  pub count_mono :
      (p q : A → Bool) (xs : List A) → ((x : A) → p x ≡ true → q x ≡ true) → count p xs ≤ count q xs
  count_mono p q [] h = omega arith
  count_mono p q (x ∷ xs) h = ground (arith, count_mono p q xs h, h x)

  pub count_mono_on :
      (p q : A → Bool) (Q : A → Type 0) (xs : List A)
      → All Q xs
      → ((x : A) → Q x → p x ≡ true → q x ≡ true)
      → count p xs ≤ count q xs
  count_mono_on p q Q [] all h = omega arith
  count_mono_on p q Q (x ∷ xs) all h = ground (arith, count_mono_on p q Q xs all.1 h, h x all.0)

  pub count_none : (p : A → Bool) (xs : List A) → ((x : A) → p x ≡ false) → count p xs ≡ 0
  count_none p [] h = refl
  count_none p (x ∷ xs) h = ground (arith, count_none p xs h, h x)

  pub count-map :
      (p : A → Bool) (f : A → A) (xs : List A)
      → ((x : A) → p (f x) ≡ p x)
      → count p (map f xs) ≡ count p xs
  count-map p f [] h = refl
  count-map p f (x ∷ xs) h = ground (arith, count-map p f xs h, h x)

  pub filter-filter :
      (p q : A → Bool) (xs : List A) → filter p (filter q xs) ≡ filter (λ x. q x && p x) xs
  filter-filter p q [] = refl
  filter-filter p q (x ∷ xs) = ground (arith, filter-filter p q xs)

module _ {ℓ} {V : Type ℓ} where
  pub count-put_le :
      (p : V → Bool) (d : Dict V) (k : String) (v : V)
      → count p (values (put d k v)) ≤ suc (count p (values d))
  unfolding put
  count-put_le p [] k v = ground arith
  count-put_le p ((j, w) ∷ d) k v = ground (arith, count-put_le p d k v)

  pub count-put :
      (p : V → Bool) (d : Dict V) (k : String) (v w : V)
      → get d k ≡ some w
      → (p v ≡ true → p w ≡ true)
      → count p (values (put d k v)) ≤ count p (values d)
  unfolding put get
  count-put p [] k v w found h = ground arith
  count-put p ((j, u) ∷ d) k v w found h = ground (arith, count-put p d k v w)

  pub remove-filter : (d : Dict V) (k : String) → remove d k ≡ filter (λ e. not (e.0 == k)) d
  unfolding remove
  remove-filter [] k = refl
  remove-filter ((j, u) ∷ d) k = ground (arith, remove-filter d k)

  pub count-filter_le :
      (p : V → Bool) (q : String × V → Bool) (d : Dict V)
      → count p (values (filter q d)) ≤ count p (values d)
  count-filter_le p q [] = omega arith
  count-filter_le p q (e ∷ d) = ground (arith, count-filter_le p q d)

  pub get-filter :
      (d : Dict V) (q : String → Bool) (k : String)
      → get (filter (λ e. q e.0) d) k ≡ (if q k then get d k else none)
  unfolding get
  get-filter [] q k = ground arith
  get-filter ((j, u) ∷ d) q k = ground (arith, get-filter d q k, eq_iff j k)

-- Every session stands under its own id.
abbrev pub IsKeyed : Dict SessionState → Type 0
IsKeyed = All (λ e. e.1.session_id ≡ e.0)

pub get-IsKeyed :
    (d : Dict SessionState) (k : String) (st : SessionState)
    → IsKeyed d
    → get d k ≡ some st
    → st.session_id ≡ k
unfolding get
get-IsKeyed [] k st keyed found = ground arith
get-IsKeyed ((j, u) ∷ d) k st keyed found = ground (arith, get-IsKeyed d k st keyed.1, eq_iff j k)

pub put-IsKeyed :
    (d : Dict SessionState) (st : SessionState) (k : String)
    → IsKeyed d
    → st.session_id ≡ k
    → IsKeyed (put d k st)
unfolding put
put-IsKeyed [] st k keyed same = (same, tt)
put-IsKeyed ((j, u) ∷ d) st k keyed same = elim (Bool-cases (j == k)) [
  | inl e ↦ rw e (same ∙ sym ((eq_iff j k).0 e), keyed.1)
  | inr e ↦ rw e (keyed.0, put-IsKeyed d st k keyed.1 same)
]

pub filter-IsKeyed :
    (q : String × SessionState → Bool) (d : Dict SessionState) → IsKeyed d → IsKeyed (filter q d)
filter-IsKeyed q [] keyed = tt
filter-IsKeyed q (e ∷ d) keyed = elim (Bool-cases (q e)) [
  | inl t ↦ rw t (keyed.0, filter-IsKeyed q d keyed.1)
  | inr t ↦ rw t (filter-IsKeyed q d keyed.1)
]

-- Sessions under other keys.
pub fresh_ids :
    (d : Dict SessionState) (k : String)
    → IsKeyed d
    → get d k ≡ none
    → All (λ st. st.session_id ≢ k) (values d)
unfolding get
fresh_ids [] k keyed fresh = tt
fresh_ids ((j, u) ∷ d) k keyed fresh =
    (λ h. ground (arith, eq_iff j k), fresh_ids d k keyed.1 (ground (arith, eq_iff j k)))

filter_all {ℓ} : {A : Type ℓ} (xs : List A) → filter (λ x. true) xs ≡ xs
filter_all [] = refl
filter_all (x ∷ xs) = ap (λ r. x ∷ r) (filter_all xs)

filter_same {ℓ} :
    {A : Type ℓ} (p q : A → Bool) (xs : List A) → ((x : A) → p x ≡ q x) → filter p xs ≡ filter q xs
filter_same p q [] h = refl
filter_same p q (x ∷ xs) h = ground (arith, h x, filter_same p q xs h)

-- Deleting the ids of a list drops the entries that stand under one of them.
pub delete_from-filter :
    (d : Dict SessionState) (ids : List String)
    → delete_from d ids ≡ filter (λ e. not (one_of e.0 ids)) d
unfolding delete_from
delete_from-filter d [] = sym (filter_all d)
delete_from-filter d (k ∷ ids) =
    delete_from-filter (remove d k) ids
    ∙ ap (filter (λ e. not (one_of e.0 ids))) (remove-filter d k)
    ∙ filter-filter (λ e. not (one_of e.0 ids)) (λ e. not (e.0 == k)) d
    ∙ filter_same _ _ d (λ e. ground (arith, eq_iff e.0 k, eq_iff k e.0))

-- On sessions that stand under their ids, filtering by id and by key is the same.
pub filter-values :
    (q : String → Bool) (d : Dict SessionState)
    → IsKeyed d
    → filter (λ st. q st.session_id) (map (clone_state true) (values d))
      ≡ map (clone_state true) (values (filter (λ e. q e.0) d))
unfolding clone_state
filter-values q [] keyed = refl
filter-values q ((j, u) ∷ d) keyed = ground (arith, filter-values q d keyed.1)
