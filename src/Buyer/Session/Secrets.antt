-- ===== src/Buyer/Session/Secrets.antt =====
-- Auth payloads stay out of the repository when it is told not to persist them.
use codex_browser.Prelude.{
  ℕ, String, ◌≡◌, refl, ◌∙◌, inl, inr, Bool, false, ◌&&◌, any, Option, none, some, List, [], ◌∷◌,
  map, ◌==◌, filter, All, Bool-cases, leb, length,
}
use codex_browser.Dict.{Dict, put}
use codex_browser.Buyer.Session.State.{
  SessionState, InMemorySessionRepository, clone_state, create_session, update_session,
  list_sessions, delete_sessions,
}
use codex_browser.Buyer.Session.{
  SessionStore, attach_runtime, add, drop_finished_runtime_tasks, prune_and_list, prune_with_ttl,
  is_expired, CreateRequest, new_session,
}
use codex_browser.Buyer.Session.Operations
use codex_browser.Buyer.Session.Operations.{
  register, active_sessions, attach_all, is_hook, remember_auth,
}
use codex_browser.Buyer.Session.Change.{
  Change, unchanged, saved, attach_frame, set_auth-Change, get_state-Change, set_status-Change,
  set_waiting_question-Change, apply_reply-Change, pop_reply-Change, append_event-Change,
  add_agent_memory-Change, get_agent_memory-Change,
}
use codex_browser.Buyer.Session.Trace.{
  Op, create, set_auth, get_state, set_status, set_waiting_question, apply_reply, pop_reply,
  append_event, add_agent_memory, get_agent_memory, list_states, set_task_ref, finish_task,
  run_hook, perform, Reach, here, next,
}
use codex_browser.Buyer.Session.Counting.{delete_from-filter}
use codex_browser.Buyer.Session.Pruning.{forget_runtime-OnlyLess, drop_finished-OnlyLess}
use codex_browser.Buyer.Session.Limit.{remembered}

-- The repository is told not to persist auth payloads, and holds none.
pub record HoldsNoAuth (r : InMemorySessionRepository) : Type 0 where
  pub told : r.persist_auth_payload ≡ false
  pub clean : All (λ e. e.1.auth ≡ none) r.sessions

put-clean :
    (d : Dict SessionState) (k : String) (st : SessionState)
    → All (λ e. e.1.auth ≡ none) d
    → st.auth ≡ none
    → All (λ e. e.1.auth ≡ none) (put d k st)
unfolding put
put-clean [] k st clean none_here = (none_here, tt)
put-clean ((j, u) ∷ d) k st clean none_here = elim (Bool-cases (j == k)) [
  | inl e ↦ rw e (none_here, clean.1)
  | inr e ↦ rw e (clean.0, put-clean d k st clean.1 none_here)
]

filter-clean :
    (q : String × SessionState → Bool) (d : Dict SessionState)
    → All (λ e. e.1.auth ≡ none) d
    → All (λ e. e.1.auth ≡ none) (filter q d)
filter-clean q [] clean = tt
filter-clean q (e ∷ d) clean = elim (Bool-cases (q e)) [
  | inl t ↦ rw t (clean.0, filter-clean q d clean.1)
  | inr t ↦ rw t (filter-clean q d clean.1)
]

update-HoldsNoAuth :
    (r : InMemorySessionRepository) (new : SessionState)
    → HoldsNoAuth r
    → HoldsNoAuth (update_session r new)
unfolding update_session clone_state
update-HoldsNoAuth r new h = record {
  told = h.told;
  clean = put-clean r.sessions new.session_id _ h.clean (rw h.told refl);
}

create-HoldsNoAuth :
    (r : InMemorySessionRepository) (new : SessionState)
    → HoldsNoAuth r
    → HoldsNoAuth (create_session r new)
unfolding create_session clone_state
create-HoldsNoAuth r new h = record {
  told = h.told;
  clean = put-clean r.sessions new.session_id _ h.clean (rw h.told refl);
}

delete-HoldsNoAuth :
    (r : InMemorySessionRepository) (ids : List String)
    → HoldsNoAuth r
    → HoldsNoAuth (delete_sessions r ids)
unfolding delete_sessions
delete-HoldsNoAuth r ids h = record {
  told = h.told;
  clean = rw (delete_from-filter r.sessions ids) (filter-clean _ r.sessions h.clean);
}

Change-HoldsNoAuth :
    {s t : SessionStore} → Change s t → HoldsNoAuth s.repository → HoldsNoAuth t.repository
Change-HoldsNoAuth (unchanged f e) h = rw e h
Change-HoldsNoAuth {s} (saved k old new f found same e o) h =
    rw e (update-HoldsNoAuth s.repository new h)

prune_with_ttl-HoldsNoAuth :
    (now : ℕ) (ttl : Option ℕ) (s : SessionStore)
    → HoldsNoAuth s.repository
    → HoldsNoAuth (prune_with_ttl now ttl s).1.repository
unfolding prune_with_ttl
prune_with_ttl-HoldsNoAuth now none s h = h
prune_with_ttl-HoldsNoAuth now (some ttl) s h =
    let ids =
      map (λ (st : SessionState). st.session_id)
        (filter (is_expired now ttl) (list_sessions s.repository)) in
    let o =
      forget_runtime-OnlyLess ids (record s { repository = delete_sessions s.repository ids }) in
    rw o.repo (delete-HoldsNoAuth s.repository ids h)

prune-HoldsNoAuth :
    (now : ℕ) (s : SessionStore)
    → HoldsNoAuth s.repository
    → HoldsNoAuth (drop_finished_runtime_tasks (prune_and_list now s).1).repository
unfolding prune_and_list
prune-HoldsNoAuth now s h =
    rw (drop_finished-OnlyLess (prune_and_list now s).1).repo
      (prune_with_ttl-HoldsNoAuth now s.status_ttl_sec s h)

register-HoldsNoAuth :
    (k : String) (now : ℕ) (request : CreateRequest) (s : SessionStore)
    → HoldsNoAuth s.repository
    → HoldsNoAuth (register k now request s).1.repository
unfolding register
register-HoldsNoAuth k now request s h =
    let new = new_session k now request in
    let u = remember_auth k request.auth s in
    rw
      (attach_frame new (record u {
        repository = create_session u.repository new;
        runtime_sessions = add k u.runtime_sessions;
      })).0
      (create-HoldsNoAuth u.repository new (rw (remembered k request.auth s).0 h))

op_create-HoldsNoAuth :
    (pruned_at : ℕ) (k : String) (now : ℕ) (request : CreateRequest) (s : SessionStore)
    → HoldsNoAuth s.repository
    → HoldsNoAuth (Operations.create pruned_at k now request s).1.repository
unfolding Operations.create
op_create-HoldsNoAuth pruned_at k now request s h =
    let s₂ = drop_finished_runtime_tasks (prune_and_list pruned_at s).1 in
    let h₂ = prune-HoldsNoAuth pruned_at s h in
    elim (Bool-cases
      (leb s₂.max_active_sessions (length (active_sessions s₂ (prune_and_list pruned_at s).0)))) [
        | inl full ↦ rw full h₂
        | inr room ↦ rw room (register-HoldsNoAuth k now request s₂ h₂)
      ]

attach_all-repository :
    (xs : List SessionState) (s : SessionStore) → (attach_all xs s).1.repository ≡ s.repository
unfolding attach_all
attach_all-repository [] s = refl
attach_all-repository (x ∷ xs) s =
    attach_all-repository xs (attach_runtime x s).1 ∙ (attach_frame x s).0

-- Every operation keeps the repository free of auth payloads.
perform-HoldsNoAuth :
    (op : Op) (s : SessionStore) → HoldsNoAuth s.repository → HoldsNoAuth (perform op s).repository
unfolding Operations.list_states Operations.set_task_ref Operations.finish_task Operations.run_hook
perform-HoldsNoAuth (create pruned_at k now request) s h =
    op_create-HoldsNoAuth pruned_at k now request s h
perform-HoldsNoAuth (set_auth k auth now) s h = Change-HoldsNoAuth (set_auth-Change k s auth now) h
perform-HoldsNoAuth (get_state k) s h = Change-HoldsNoAuth (get_state-Change k s) h
perform-HoldsNoAuth (set_status k status error now) s h =
    Change-HoldsNoAuth (set_status-Change k s status error now) h
perform-HoldsNoAuth (set_waiting_question k question reply_id now) s h =
    Change-HoldsNoAuth (set_waiting_question-Change k s question reply_id now) h
perform-HoldsNoAuth (apply_reply k reply_id message now) s h =
    Change-HoldsNoAuth (apply_reply-Change k s reply_id message now) h
perform-HoldsNoAuth (pop_reply k now) s h = Change-HoldsNoAuth (pop_reply-Change k s now) h
perform-HoldsNoAuth (append_event k event now) s h =
    Change-HoldsNoAuth (append_event-Change k s event now) h
perform-HoldsNoAuth (add_agent_memory k role text now) s h =
    Change-HoldsNoAuth (add_agent_memory-Change k s role text now) h
perform-HoldsNoAuth (get_agent_memory k) s h = Change-HoldsNoAuth (get_agent_memory-Change k s) h
perform-HoldsNoAuth (list_states now) s h = rw attach_all-repository (prune-HoldsNoAuth now s h)
perform-HoldsNoAuth (set_task_ref k task) s h = h
perform-HoldsNoAuth (finish_task task) s h = h
perform-HoldsNoAuth (run_hook task k) s h =
    elim (Bool-cases (s.done task && any (is_hook task k) s.hooks)) [
      | inl due ↦ rw due h
      | inr early ↦ rw early h
    ]

-- A repository that is told not to persist auth payloads, and holds none, holds none after any
-- operations of the store in any order, those that carry a payload (`create_session` and `set_auth`)
-- included, where a new session has an id that is not in use and its task is set once.
pub never_persisted :
    (s t : SessionStore) → HoldsNoAuth s.repository → Reach s t → HoldsNoAuth t.repository
never_persisted s t h r = go h r
  where
    go : {u : SessionStore} → HoldsNoAuth s.repository → Reach s u → HoldsNoAuth u.repository
    go h here = h
    go h (next {t = v} r op a) = perform-HoldsNoAuth op v (go h r)
