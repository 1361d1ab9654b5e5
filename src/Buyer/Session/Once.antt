-- ===== src/Buyer/Session/Once.antt =====
-- buyer/app/state.py: a reply is taken once, whatever other operations come between.
use codex_browser.Prelude.{
  ℕ, String, ◌≡◌, refl, ◌∙◌, ap, inl, inr, Bool, true, false, none, some, List, arith, eq_iff, ◌==◌,
  Bool-cases, is_empty, All,
}
use codex_browser.Buyer.Session.State.{
  SessionState, InMemorySessionRepository, clone_state, update_session, get_session,
}
use codex_browser.Buyer.Session.{SessionStore, StoreError, ok, err, save}
use codex_browser.Buyer.Session.Operations.{reply_refusal, apply_reply, pop_reply}
use codex_browser.Buyer.Session.Change.{attach_frame, wake_frame}
use codex_browser.Buyer.Session.Replies.{
  replied, woken, accept_reply_lem, accepted, replied_found, pop_takes,
}
use codex_browser.Buyer.Session.Trace.{Op}
use codex_browser.Buyer.Session.Answered.{HasAnswered, IsAnswered, found-update}
use codex_browser.Buyer.Session.Quiet.{
  IsQuiet, answered_refuses, perform_all, perform_all-HasAnswered, taken_finds_none,
}

-- Every session lies under its own id.
abbrev pub IsKeyed : InMemorySessionRepository → Type 0
IsKeyed r = (j : String) (x : SessionState) → get_session r j ≡ some x → x.session_id ≡ j

-- An answered state takes the place of the session.
answer-HasAnswered :
    (k : String) (taken : Bool) (r : InMemorySessionRepository) (new : SessionState)
    → IsKeyed r
    → new.session_id ≡ k
    → IsAnswered taken new
    → HasAnswered k taken (update_session r new)
unfolding clone_state
answer-HasAnswered k taken r new keyed id (waits, pending) = record {
  keyed = λ j x found. elim (Bool-cases (new.session_id == j)) [
    | inl e ↦ ground (arith, found, found-update r new j, e, eq_iff new.session_id j)
    | inr e ↦ keyed j x (ground (arith, found, found-update r new j, e))
  ];
  answered = λ x found.
      let same : some (clone_state true (clone_state r.persist_auth_payload new)) ≡ some x =
        ground (arith, found, found-update r new k, eq_iff new.session_id k, id) in
      (ground (arith, same, waits), λ t. ground (arith, same, pending t));
}

module _ (k reply_id message : String) (now : ℕ) (s : SessionStore) (st : SessionState)
    (keyed : IsKeyed s.repository) (found : get_session s.repository k ≡ some st)
    (fits : reply_refusal reply_id st s ≡ none) where
  answered_store : SessionStore
  answered_store = (apply_reply k reply_id message now s).1

  answered_repository :
      answered_store.repository ≡ update_session s.repository (replied message now st)
  unfolding answered_store
  answered_repository =
      let new = replied message now st in
      ap (λ u. u.1.repository)
        (accepted k reply_id message now s st found fits ∙ accept_reply_lem k message now st s)
      ∙ (attach_frame new (woken k (save now new s))).0
      ∙ (wake_frame k (save now new s)).0

  answered-HasAnswered : HasAnswered k false answered_store.repository
  answered-HasAnswered = rw answered_repository (
      answer-HasAnswered k false s.repository (replied message now st) keyed (keyed k st found)
        (refl, λ t. absurd (cc t)))

  answered_found :
      get_session answered_store.repository k
      ≡ some (
          clone_state true (clone_state s.repository.persist_auth_payload (replied message now st)))
  unfolding answered_store
  answered_found =
      ap (λ u. get_session u.1.repository k) (accepted k reply_id message now s st found fits)
      ∙ replied_found k message now s st (keyed k st found)

  popped :
      is_empty message ≡ false
      → (now' : ℕ)
      → pop_reply k now' answered_store ≡ (
        ok message,
        save now'
            (record (clone_state true
              (clone_state s.repository.persist_auth_payload (replied message now st))) {
                pending_reply_text = none;
              })
            answered_store,
      )
  unfolding clone_state
  popped filled now' = pop_takes k now' answered_store _ answered_found message refl filled

  taken-HasAnswered :
      is_empty message ≡ false
      → (now' : ℕ) → HasAnswered k true (pop_reply k now' answered_store).1.repository
  unfolding clone_state
  taken-HasAnswered filled now' = rw (popped filled now') (
      answer-HasAnswered k true answered_store.repository _ answered-HasAnswered.keyed
        (keyed k st found) (refl, λ t. refl))

  -- An accepted reply is consumed once, in a store whose sessions lie under their own ids. The runner
  -- takes exactly the message (which the API keeps from being empty). As long as the user is asked no
  -- new question in this session, and whatever other operations of the store and steps of the event
  -- loop come between, in any order and at any times, every reply to the session is refused, the same
  -- or another; and after the message is taken, every further take finds none.
  pub reply_consumed_once :
      is_empty message ≡ false
      → let t = (apply_reply k reply_id message now s).1 in
        ((now' : ℕ) → (pop_reply k now' t).0 ≡ ok message)
        × ((ops : List Op)
            → All (IsQuiet k) ops
            → (other_id other : String) (now' : ℕ)
            → (e : StoreError) × ((apply_reply k other_id other now' (perform_all ops t)).0
                ≡ err e))
        × ((ops : List Op)
            → All (IsQuiet k) ops
            → (now₁ now₂ : ℕ)
            → (e : StoreError) × ((pop_reply k now₂ (perform_all ops (pop_reply k now₁ t).1)).0
                ≡ err e))
  unfolding answered_store
  reply_consumed_once filled = (
    (λ now'. ap (λ u. u.0) (popped filled now')),
    (λ ops quiet other_id other now'.
        answered_refuses k false other_id other now' (perform_all ops answered_store)
          (perform_all-HasAnswered k false ops answered_store quiet answered-HasAnswered)),
    λ ops quiet now₁ now₂.
        let after = (pop_reply k now₁ answered_store).1 in
        taken_finds_none k now₂ (perform_all ops after)
          (perform_all-HasAnswered k true ops after quiet (taken-HasAnswered filled now₁)),
  )
