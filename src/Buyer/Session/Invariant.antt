-- ===== src/Buyer/Session/Invariant.antt =====
-- The invariant behind the limit on active sessions, and the changes that keep it.
use codex_browser.Prelude.{
  ℕ, ◌≤◌, String, ◌≡◌, sym, ◌∙◌, ap, ◌⊎◌, inl, inr, true, some, arith, eq_iff, count, Option-cases,
}
use codex_browser.Dict.{get-put, get, put, values}
use codex_browser.Buyer.Session.State.{
  SessionState, clone_state, InMemorySessionRepository, update_session, get_session,
}
use codex_browser.Buyer.Session.{SessionStore, is_open, has_live_task, is_active_in_current_runtime}
use codex_browser.Buyer.Session.Change.{SameFrame, Change, unchanged, saved}
use codex_browser.Buyer.Session.Counting.{IsKeyed, count_mono, count-put, get-IsKeyed, put-IsKeyed}

-- How many sessions are active in the current process.
abbrev pub active_count : SessionStore → ℕ
active_count s = count (is_active_in_current_runtime s) (values s.repository.sessions)

pub record IsWithinLimit (s : SessionStore) : Type 0 where
  pub keyed : IsKeyed s.repository.sessions
  pub opened :
      (k : String) (st : SessionState)
      → get s.repository.sessions k ≡ some st
      → s.runtime_sessions k ≡ true
      → is_open st.status ≡ true
  pub bounded : active_count s ≤ s.max_active_sessions

-- A session that is active with what `t` knows at run time is active with what `s` knows.
pub record LessRuntime (s t : SessionStore) : Type 0 where
  pub fewer : (j : String) → t.runtime_sessions j ≡ true → s.runtime_sessions j ≡ true
  pub live :
      (j : String)
      → t.runtime_sessions j ≡ true
      → has_live_task t.done (get t.task_refs j) ≡ true
      → has_live_task s.done (get s.task_refs j) ≡ true

pub LessRuntime-active :
    {s t : SessionStore}
    → LessRuntime s t
    → (st : SessionState) → is_active_in_current_runtime t st ≡ true
    → is_active_in_current_runtime s st ≡ true
unfolding is_active_in_current_runtime
LessRuntime-active h st a =
    let run = h.fewer st.session_id in let live = h.live st.session_id in ground (arith, run, live)

pub SameFrame-LessRuntime : {s t : SessionStore} → SameFrame s t → LessRuntime s t
SameFrame-LessRuntime {s} {t} f = record {
  fewer = f.fewer;
  live = λ j r l. rw (f.done_tasks, f.tasks) at l;
}

-- What `get_session` finds is the clone of a stored session.
pub get_session-stored :
    (r : InMemorySessionRepository) (k : String) {old : SessionState}
    → get_session r k ≡ some old
    → (st : SessionState) × (get r.sessions k ≡ some st) × (old ≡ clone_state true st)
unfolding get_session
get_session-stored r k found = elim (Option-cases (get r.sessions k)) [
  | inl e ↦ absurd (ground arith)
  | inr (st, e) ↦ (st, e, ground arith)
]

-- Active with the same id and tasks means active, if the status is open.
active_transfer :
    (s : SessionStore) (new old : SessionState)
    → new.session_id ≡ old.session_id
    → (s.runtime_sessions old.session_id ≡ true → is_open old.status ≡ true)
    → is_active_in_current_runtime s new ≡ true
    → is_active_in_current_runtime s old ≡ true
unfolding is_active_in_current_runtime
active_transfer s new old same opened a = ground (arith, opened)

-- Saving a new state of one session, while the runtime part does not grow.
pub put-IsWithinLimit :
    {s t : SessionStore} (k : String) (st new : SessionState)
    → LessRuntime s t
    → t.max_active_sessions ≡ s.max_active_sessions
    → get s.repository.sessions k ≡ some st
    → new.session_id ≡ k
    → t.repository.sessions ≡ put s.repository.sessions k new
    → (t.runtime_sessions k ≡ true → (is_open new.status ≡ true) ⊎ (new.status ≡ st.status))
    → IsWithinLimit s
    → IsWithinLimit t
put-IsWithinLimit {s} {t} k st new less limit found id sessions o w =
    let at_k : st.session_id ≡ k = get-IsKeyed s.repository.sessions k st w.keyed found in
    record {
      keyed = rw sessions (put-IsKeyed s.repository.sessions new k w.keyed id);
      opened = λ j x at run. ground (
        arith,
        ap (λ d. get d j) sessions,
        get-put s.repository.sessions k new j,
        eq_iff k j,
        w.opened j x,
        w.opened k st found,
        less.fewer j run,
        o,
      );
      bounded = omega (
        arith,
        ap (λ d. count (is_active_in_current_runtime t) (values d)) sessions,
        count-put (is_active_in_current_runtime t) s.repository.sessions k new st found (
            active_transfer t new st (id ∙ sym at_k)
              λ r. w.opened k st found (less.fewer k (rw at_k at r))),
        count_mono (is_active_in_current_runtime t) (is_active_in_current_runtime s)
            (values s.repository.sessions) (LessRuntime-active less),
        w.bounded,
        limit,
      );
    }

-- Nothing is saved, and the runtime part does not grow.
pub same-IsWithinLimit :
    {s t : SessionStore}
    → LessRuntime s t
    → t.max_active_sessions ≡ s.max_active_sessions
    → t.repository.sessions ≡ s.repository.sessions
    → IsWithinLimit s
    → IsWithinLimit t
same-IsWithinLimit {s} {t} less limit sessions w = record {
  keyed = rw sessions w.keyed;
  opened = λ k st found run. w.opened k st (rw sessions at found) (less.fewer k run);
  bounded = omega (
    arith,
    ap (λ d. count (is_active_in_current_runtime t) (values d)) sessions,
    count_mono (is_active_in_current_runtime t) (is_active_in_current_runtime s)
        (values s.repository.sessions) (LessRuntime-active less),
    w.bounded,
    limit,
  );
}

pub Change-IsWithinLimit : {s t : SessionStore} → Change s t → IsWithinLimit s → IsWithinLimit t
unfolding update_session clone_state
Change-IsWithinLimit {s} {t} (unchanged f e) w =
    same-IsWithinLimit (SameFrame-LessRuntime f) f.limit (ap (λ r. r.sessions) e) w
Change-IsWithinLimit {s} {t} (saved k old new f found same e o) w =
    let (st, at, eq) = get_session-stored s.repository k found in
    let id : new.session_id ≡ k =
      same
      ∙ ap (λ (x : SessionState). x.session_id) eq
      ∙ get-IsKeyed s.repository.sessions k st w.keyed at in
    put-IsWithinLimit k st (clone_state s.repository.persist_auth_payload new)
      (SameFrame-LessRuntime f) f.limit at id
      (ap (λ (r : InMemorySessionRepository). r.sessions) e
        ∙ ap (λ j. put s.repository.sessions j (clone_state s.repository.persist_auth_payload new))
            id)
      (λ r. ground (arith, o r, ap (λ (x : SessionState). x.status) eq)) w
