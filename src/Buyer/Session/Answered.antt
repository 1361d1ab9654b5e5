-- ===== src/Buyer/Session/Answered.antt =====
-- buyer/app/state.py: a session that has been answered, and what saves states of sessions.
use codex_browser.Prelude.{
  ℕ, String, ◌≡◌, refl, sym, ◌∙◌, ap, inl, inr, Bool, true, false, Option, none, some, List, [],
  ◌∷◌, ◌==◌, arith, eq_iff, Bool-cases, Option-cases, if◌then◌else◌,
}
use codex_browser.Dict.{Dict, get, remove, get-put, get-remove}
use codex_browser.Buyer.Session.State.{
  SessionState, InMemorySessionRepository, clone_state, create_session, update_session, get_session,
  delete_sessions, delete_from,
}
use codex_browser.Buyer.Session.{SessionStore, Result, with_session, attached, save}
use codex_browser.Buyer.Session.Operations.{with_error}
use codex_browser.Buyer.Session.Change.{attach_frame}

-- The session awaits no reply and, once the reply is taken, has none.
abbrev pub IsAnswered : Bool → SessionState → Type 0
IsAnswered taken x = (x.waiting_reply_id ≡ none) × (taken ≡ true → x.pending_reply_text ≡ none)

-- Sessions lie under their own ids, and the one under this id, if there is one, is answered.
pub record HasAnswered (k : String) (taken : Bool) (r : InMemorySessionRepository) : Type 0 where
  pub keyed : (j : String) (x : SessionState) → get_session r j ≡ some x → x.session_id ≡ j
  pub answered : (x : SessionState) → get_session r k ≡ some x → IsAnswered taken x

-- What is found after an assignment.
pub found-update :
    (r : InMemorySessionRepository) (new : SessionState) (j : String)
    → get_session (update_session r new) j ≡ (
        if new.session_id == j
        then some (clone_state true (clone_state r.persist_auth_payload new))
        else get_session r j)
unfolding get_session update_session
found-update r new j =
    ground (arith, get-put r.sessions new.session_id (clone_state r.persist_auth_payload new) j)

pub found-create :
    (r : InMemorySessionRepository) (new : SessionState) (j : String)
    → get_session (create_session r new) j ≡ get_session (update_session r new) j
unfolding create_session update_session get_session
found-create r new j = refl

found-remove :
    (d : Dict SessionState) (j i : String) (x : SessionState)
    → get (remove d j) i ≡ some x
    → get d i ≡ some x
found-remove d j i x h = ground (arith, h, get-remove d j i)

found-delete_from :
    (ids : List String) (d : Dict SessionState) (j : String) (x : SessionState)
    → get (delete_from d ids) j ≡ some x
    → get d j ≡ some x
unfolding delete_from
found-delete_from [] d j x h = h
found-delete_from (i ∷ ids) d j x h =
    found-remove d i j x (found-delete_from ids (remove d i) j x h)

pub found-delete :
    (ids : List String) (r : InMemorySessionRepository) (j : String) (x : SessionState)
    → get_session (delete_sessions r ids) j ≡ some x
    → get_session r j ≡ some x
unfolding delete_sessions get_session
found-delete ids r j x h = elim (Option-cases (get (delete_from r.sessions ids) j)) [
  | inl e ↦ absurd (ground (arith, h, e))
  | inr (y, e) ↦ ground (arith, h, e, found-delete_from ids r.sessions j y e)
]

module _ (k : String) (taken : Bool) where
  pub update-HasAnswered :
      (r : InMemorySessionRepository) (new : SessionState)
      → HasAnswered k taken r
      → (new.session_id ≡ k → IsAnswered taken new)
      → HasAnswered k taken (update_session r new)
  unfolding clone_state
  update-HasAnswered r new h a = record {
    keyed = λ j x found. elim (Bool-cases (new.session_id == j)) [
      | inl e ↦ ground (arith, found, found-update r new j, e, eq_iff new.session_id j)
      | inr e ↦ h.keyed j x (ground (arith, found, found-update r new j, e))
    ];
    answered = λ x found. elim (Bool-cases (new.session_id == k)) [
      | inl e ↦
          let (waits, pending) = a (ground (arith, e, eq_iff new.session_id k)) in
          let same : some (clone_state true (clone_state r.persist_auth_payload new)) ≡ some x =
            ground (arith, found, found-update r new k, e) in
          (ground (arith, same, waits), λ t. ground (arith, same, pending t))
      | inr e ↦ h.answered x (ground (arith, found, found-update r new k, e))
    ];
  }

  -- A state that is saved in place of one that was found.
  pub save-HasAnswered :
      (now : ℕ) (j : String) (s : SessionStore) (old new : SessionState)
      → HasAnswered k taken s.repository
      → get_session s.repository j ≡ some old
      → new.session_id ≡ old.session_id
      → (j ≡ k → IsAnswered taken new)
      → HasAnswered k taken (save now new s).repository
  save-HasAnswered now j s old new h found same a =
      update-HasAnswered s.repository (record new { updated_at = now }) h
        λ e. a (sym (h.keyed j old found) ∙ sym same ∙ e)

  -- The old state, where it is that of the session.
  pub old-IsAnswered :
      (j : String) (r : InMemorySessionRepository) (old : SessionState)
      → HasAnswered k taken r
      → get_session r j ≡ some old
      → j ≡ k
      → IsAnswered taken old
  old-IsAnswered j r old h found e = h.answered old (ap (get_session r) (sym e) ∙ found)

  pub attached-HasAnswered :
      (st : SessionState) (s : SessionStore)
      → HasAnswered k taken s.repository
      → HasAnswered k taken (attached st s).1.repository
  attached-HasAnswered st s h = rw (attach_frame st s).0 h

  pub with-HasAnswered :
      {A : Type 0} (j : String) (rest : SessionState → SessionStore → Result A × SessionStore)
      (s : SessionStore)
      → HasAnswered k taken s.repository
      → ((old : SessionState)
          → get_session s.repository j ≡ some old
          → HasAnswered k taken (rest old s).1.repository)
      → HasAnswered k taken (with_session j rest s).1.repository
  unfolding with_session
  with-HasAnswered j rest s h each = elim (Option-cases (get_session s.repository j)) [
    | inl e ↦ rw (with_session, e) h
    | inr (old, e) ↦ rw (with_session, e) (each old e)
  ]

  pub terminal-repository :
      (b : Bool) (new : SessionState) (s t : SessionStore)
      → HasAnswered k taken s.repository
      → HasAnswered k taken t.repository
      → HasAnswered k taken (attached new (if b then s else t)).1.repository
  terminal-repository true new s t h h' = attached-HasAnswered new s h
  terminal-repository false new s t h h' = attached-HasAnswered new t h'

  pub errors_kept :
      (error : Option String) (st : SessionState)
      → IsAnswered taken st
      → IsAnswered taken (with_error error st)
  errors_kept none st h = h
  errors_kept (some e) st h = h

  pub errors_id :
      (error : Option String) (st : SessionState) → (with_error error st).session_id ≡ st.session_id
  errors_id none st = refl
  errors_id (some e) st = refl
