-- ===== src/Buyer/Session/ReadBack.antt =====
-- Reading the sessions of a store after `set_status`.
use codex_browser.Prelude.{
  ℕ, String, ◌≡◌, ◌≢◌, refl, sym, ap, ◌∙◌, inl, inr, true, Option, none, some, Bool-cases,
}
use codex_browser.Dict.{get-put_ne}
use codex_browser.Buyer.Models.{SessionStatus}
use codex_browser.Buyer.Session.State.{
  SessionState, InMemorySessionRepository, clone_state, update_session, get_session,
}
use codex_browser.Buyer.Session.{SessionStore, is_terminal}
use codex_browser.Buyer.Session.Operations.{set_status, with_error}
use codex_browser.Buyer.Session.Change.{attach_frame}
use codex_browser.Buyer.Session.Replies.{saved_found, found_with}

-- The state as the repository gives it back.
abbrev stored : InMemorySessionRepository → SessionState → SessionState
stored r new = clone_state true (clone_state r.persist_auth_payload new)

saved_other :
    (r : InMemorySessionRepository) (new : SessionState) (k j : String)
    → new.session_id ≡ k
    → k ≢ j
    → get_session (update_session r new) j ≡ get_session r j
unfolding get_session update_session
saved_other r new k j id other =
    rw
      (
        get_session,
        get-put_ne r.sessions new.session_id (clone_state r.persist_auth_payload new) j
            (λ e. other (sym id ∙ e)),
      )
      refl

-- The repository after `set_status`.
status_repository :
    (k : String) (status : SessionStatus) (error : Option String) (now : ℕ) (s : SessionStore)
    (st : SessionState)
    → get_session s.repository k ≡ some st
    → (set_status k status error now s).1.repository
      ≡ update_session s.repository
          (record (with_error error (record st { status = status; updated_at = now })) {
            updated_at = now;
          })
unfolding set_status
status_repository k status error now s st found =
    ap (λ t. t.1.repository) (found_with k s st _ found) ∙ elim (Bool-cases (is_terminal status)) [
      | inl e ↦ rw e (attach_frame _ _).0
      | inr e ↦ rw e (attach_frame _ _).0
    ]

with_error_same :
    (error : Option String) (st : SessionState)
    → ((with_error error st).session_id ≡ st.session_id)
      × ((with_error error st).status ≡ st.status)
      × ((with_error error st).events ≡ st.events)
with_error_same none st = (refl, refl, refl)
with_error_same (some e) st = (refl, refl, refl)

-- The status that `set_status` gives to a session is read back from the session, with the time of the
-- change and with the events that the session had; every other session reads as before. Condition: the
-- session is in the store, under its own id.
pub status_read_back :
    (k : String) (status : SessionStatus) (error : Option String) (now : ℕ) (s : SessionStore)
    (st : SessionState)
    → get_session s.repository k ≡ some st
    → st.session_id ≡ k
    → let t = (set_status k status error now s).1 in
      ((x : SessionState) × (get_session t.repository k ≡ some x)
        × (x.status ≡ status)
        × (x.updated_at ≡ now)
        × (x.events ≡ st.events))
      × ((j : String) → k ≢ j → get_session t.repository j ≡ get_session s.repository j)
unfolding clone_state
status_read_back k status error now s st found id =
    let changed = record st { status = status; updated_at = now } in
    let new = record (with_error error changed) { updated_at = now } in
    let (same_id, same_status, same_events) = with_error_same error changed in
    let at = status_repository k status error now s st found in
    let new_id : new.session_id ≡ k = same_id ∙ id in
    (
      (
        stored s.repository new,
        ap (λ r. get_session r k) at ∙ saved_found s.repository new k new_id,
        same_status,
        refl,
        same_events,
      ),
      λ j other. ap (λ r. get_session r j) at ∙ saved_other s.repository new k j new_id other,
    )
