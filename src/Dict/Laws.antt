-- ===== src/Dict/Laws.antt =====
-- What a lookup sees after each operation.
use codex_browser.Prelude.{
  String, ◌≡◌, ◌≢◌, refl, none, some, [], ◌∷◌, arith, ◌==◌, eq_iff, eq_refl, if◌then◌else◌, false,
}
use codex_browser.Dict.Defs.{Dict, get, put, remove}

pub ==_ne : (k j : String) → k ≢ j → (k == j) ≡ false
==_ne k j h = ground (arith, eq_iff k j)

module _ {ℓ} {V : Type ℓ} where
  pub get-put :
      (d : Dict V) (k : String) (v : V) (j : String)
      → get (put d k v) j ≡ (if k == j then some v else get d j)
  unfolding get put
  get-put [] k v j = refl
  get-put ((i, w) ∷ d) k v j = ground (arith, get-put d k v j, eq_iff i k, eq_iff i j, eq_iff k j)

  pub get-remove :
      (d : Dict V) (k j : String) → get (remove d k) j ≡ (if k == j then none else get d j)
  unfolding get remove
  get-remove [] k j = ground arith
  get-remove ((i, w) ∷ d) k j = ground (arith, get-remove d k j, eq_iff i k, eq_iff i j, eq_iff k j)

  pub get-put_self : (d : Dict V) (k : String) (v : V) → get (put d k v) k ≡ some v
  get-put_self d k v = simp (get-put, eq_refl)

  pub get-put_ne :
      (d : Dict V) (k : String) (v : V) (j : String) → k ≢ j → get (put d k v) j ≡ get d j
  get-put_ne d k v j h = rw (get-put d k v j) (rw (==_ne k j h))

  pub get-remove_self : (d : Dict V) (k : String) → get (remove d k) k ≡ none
  get-remove_self d k = simp (get-remove, eq_refl)

  pub get-remove_ne : (d : Dict V) (k j : String) → k ≢ j → get (remove d k) j ≡ get d j
  get-remove_ne d k j h = rw (get-remove d k j) (rw (==_ne k j h))

pub get-empty {ℓ} : {V : Type ℓ} (k : String) → get {V = V} [] k ≡ none
unfolding get
get-empty k = refl

pub ruleset dict_laws = (get-put, get-remove, get-empty)
