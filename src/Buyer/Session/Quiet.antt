-- ===== src/Buyer/Session/Quiet.antt =====
-- buyer/app/state.py: an answered session, through any operations of the store.
use codex_browser.Prelude.{
  ℕ, String, ◌≡◌, ◌≢◌, refl, sym, ◌∙◌, ap, inl, inr, Bool, true, ◌&&◌, any, Option, none, some,
  List, [], ◌∷◌, All, Bool-cases, Option-cases, leb, length, map, filter,
}
use codex_browser.Buyer.Session.State.{
  SessionState, InMemorySessionRepository, create_session, get_session, list_sessions,
  delete_sessions,
}
use codex_browser.Buyer.Session.{
  SessionStore, StoreError, err, session_not_found, no_reply, with_session, attach_runtime,
  drop_finished_runtime_tasks, prune_and_list, prune_with_ttl, is_expired, CreateRequest,
  new_session, add,
}
use codex_browser.Buyer.Session.Operations
use codex_browser.Buyer.Session.Operations.{
  register, active_sessions, attach_all, is_hook, remember_auth, reply_refusal, answer_reply,
  accept_reply, take_pending, with_error,
}
use codex_browser.Buyer.Session.Change.{attach_frame}
use codex_browser.Buyer.Session.Pruning.{forget_runtime-OnlyLess, drop_finished-OnlyLess}
use codex_browser.Buyer.Session.Limit.{remembered}
use codex_browser.Buyer.Session.Replies.{found_with, pop_found}
use codex_browser.Buyer.Session.Trace.{
  Op, create, set_auth, get_state, set_status, set_waiting_question, apply_reply, pop_reply,
  append_event, add_agent_memory, get_agent_memory, list_states, set_task_ref, finish_task,
  run_hook, perform,
}
use codex_browser.Buyer.Session.Answered.{
  HasAnswered, IsAnswered, attached-HasAnswered, found-create, found-delete, update-HasAnswered,
  with-HasAnswered,
}
use codex_browser.Buyer.Session.Answering.{
  add_agent_memory-HasAnswered, append_event-HasAnswered, apply_reply-HasAnswered,
  pop_reply-HasAnswered, refused_here, set_auth-HasAnswered, set_status-HasAnswered,
  set_waiting_question-HasAnswered,
}

attach_all-repository :
    (xs : List SessionState) (s : SessionStore) → (attach_all xs s).1.repository ≡ s.repository
unfolding attach_all
attach_all-repository [] s = refl
attach_all-repository (x ∷ xs) s =
    attach_all-repository xs (attach_runtime x s).1 ∙ (attach_frame x s).0

answered_as :
    (k reply_id message : String) (now : ℕ) (s : SessionStore) (st : SessionState)
    → get_session s.repository k ≡ some st
    → Operations.apply_reply k reply_id message now s
      ≡ answer_reply k message now st (reply_refusal reply_id st s) s
unfolding Operations.apply_reply
answered_as k reply_id message now s st found = found_with k s st _ found

-- Operations one after another.
abbrev pub perform_all : List Op → SessionStore → SessionStore
perform_all [] s = s
perform_all (op ∷ ops) s = perform_all ops (perform op s)

-- The operation does not ask the user of the session a new question.
abbrev pub IsQuiet : String → Op → Type 0
IsQuiet k (set_waiting_question j question reply_id now) = j ≢ k
IsQuiet k _ = Unit

module _ (k : String) (taken : Bool) where
  delete-HasAnswered :
      (ids : List String) (r : InMemorySessionRepository)
      → HasAnswered k taken r
      → HasAnswered k taken (delete_sessions r ids)
  delete-HasAnswered ids r h = record {
    keyed = λ j x found. h.keyed j x (found-delete ids r j x found);
    answered = λ x found. h.answered x (found-delete ids r k x found);
  }

  create-HasAnswered :
      (r : InMemorySessionRepository) (new : SessionState)
      → HasAnswered k taken r
      → (new.session_id ≡ k → IsAnswered taken new)
      → HasAnswered k taken (create_session r new)
  create-HasAnswered r new h a =
      let updated = update-HasAnswered k taken r new h a in
      record {
        keyed = λ j x found. updated.keyed j x (sym (found-create r new j) ∙ found);
        answered = λ x found. updated.answered x (sym (found-create r new k) ∙ found);
      }

  prune_with_ttl-HasAnswered :
      (now : ℕ) (ttl : Option ℕ) (s : SessionStore)
      → HasAnswered k taken s.repository
      → HasAnswered k taken (prune_with_ttl now ttl s).1.repository
  unfolding prune_with_ttl
  prune_with_ttl-HasAnswered now none s h = h
  prune_with_ttl-HasAnswered now (some ttl) s h =
      let ids =
        map (λ (st : SessionState). st.session_id)
          (filter (is_expired now ttl) (list_sessions s.repository)) in
      let o =
        forget_runtime-OnlyLess ids (record s { repository = delete_sessions s.repository ids }) in
      rw o.repo (delete-HasAnswered ids s.repository h)

  prune-HasAnswered :
      (now : ℕ) (s : SessionStore)
      → HasAnswered k taken s.repository
      → HasAnswered k taken (drop_finished_runtime_tasks (prune_and_list now s).1).repository
  unfolding prune_and_list
  prune-HasAnswered now s h =
      rw (drop_finished-OnlyLess (prune_and_list now s).1).repo
        (prune_with_ttl-HasAnswered now s.status_ttl_sec s h)

  register-HasAnswered :
      (j : String) (now : ℕ) (request : CreateRequest) (s : SessionStore)
      → HasAnswered k taken s.repository
      → HasAnswered k taken (register j now request s).1.repository
  unfolding register
  register-HasAnswered j now request s h =
      let new = new_session j now request in
      let u = remember_auth j request.auth s in
      rw
        (attach_frame new (record u {
          repository = create_session u.repository new;
          runtime_sessions = add j u.runtime_sessions;
        })).0
        (create-HasAnswered u.repository new (rw (remembered j request.auth s).0 h)
          (λ e. (refl, λ t. refl)))

  op_create-HasAnswered :
      (pruned_at : ℕ) (j : String) (now : ℕ) (request : CreateRequest) (s : SessionStore)
      → HasAnswered k taken s.repository
      → HasAnswered k taken (Operations.create pruned_at j now request s).1.repository
  unfolding Operations.create
  op_create-HasAnswered pruned_at j now request s h =
      let s₂ = drop_finished_runtime_tasks (prune_and_list pruned_at s).1 in
      let h₂ = prune-HasAnswered pruned_at s h in
      elim (Bool-cases
        (leb s₂.max_active_sessions (length (active_sessions s₂ (prune_and_list pruned_at s).0)))) [
          | inl full ↦ rw full h₂
          | inr room ↦ rw room (register-HasAnswered j now request s₂ h₂)
        ]

  perform-HasAnswered :
      (op : Op) (s : SessionStore)
      → IsQuiet k op
      → HasAnswered k taken s.repository
      → HasAnswered k taken (perform op s).repository
  unfolding Operations.list_states Operations.set_task_ref Operations.finish_task
      Operations.run_hook Operations.get_state Operations.get_agent_memory
  perform-HasAnswered (create pruned_at j now request) s q h =
      op_create-HasAnswered pruned_at j now request s h
  perform-HasAnswered (set_auth j auth now) s q h = set_auth-HasAnswered k taken j auth now s h
  perform-HasAnswered (get_state j) s q h =
      with-HasAnswered k taken j _ s h λ old e. attached-HasAnswered k taken old s h
  perform-HasAnswered (set_status j status error now) s q h =
      set_status-HasAnswered k taken j status error now s h
  perform-HasAnswered (set_waiting_question j question reply_id now) s q h =
      set_waiting_question-HasAnswered k taken j question reply_id now s q h
  perform-HasAnswered (apply_reply j reply_id message now) s q h =
      apply_reply-HasAnswered k taken j reply_id message now s h
  perform-HasAnswered (pop_reply j now) s q h = pop_reply-HasAnswered k taken j now s h
  perform-HasAnswered (append_event j event now) s q h =
      append_event-HasAnswered k taken j event now s h
  perform-HasAnswered (add_agent_memory j role text now) s q h =
      add_agent_memory-HasAnswered k taken j role text now s h
  perform-HasAnswered (get_agent_memory j) s q h = with-HasAnswered k taken j _ s h λ old e. h
  perform-HasAnswered (list_states now) s q h = rw attach_all-repository (prune-HasAnswered now s h)
  perform-HasAnswered (set_task_ref j task) s q h = h
  perform-HasAnswered (finish_task task) s q h = h
  perform-HasAnswered (run_hook task j) s q h =
      elim (Bool-cases (s.done task && any (is_hook task j) s.hooks)) [
        | inl due ↦ rw due h
        | inr early ↦ rw early h
      ]

  pub perform_all-HasAnswered :
      (ops : List Op) (s : SessionStore)
      → All (IsQuiet k) ops
      → HasAnswered k taken s.repository
      → HasAnswered k taken (perform_all ops s).repository
  perform_all-HasAnswered [] s q h = h
  perform_all-HasAnswered (op ∷ ops) s (q, qs) h =
      perform_all-HasAnswered ops (perform op s) qs (perform-HasAnswered op s q h)

  -- An answered session refuses every reply.
  pub answered_refuses :
      (reply_id message : String) (now : ℕ) (s : SessionStore)
      → HasAnswered k taken s.repository
      → (e : StoreError) × ((Operations.apply_reply k reply_id message now s).0 ≡ err e)
  unfolding Operations.apply_reply with_session answer_reply
  answered_refuses reply_id message now s h = elim (Option-cases (get_session s.repository k)) [
    | inl e ↦ (session_not_found, rw (Operations.apply_reply, with_session, e) refl)
    | inr (st, e) ↦ elim (Option-cases (reply_refusal reply_id st s)) [
      | inl fits ↦ absurd (refused_here k taken reply_id st s (h.answered st e) fits)
      | inr (x, refused) ↦ (
        x,
        ap (λ u. u.0) (answered_as k reply_id message now s st e) ∙ rw (refused, answer_reply) refl,
      )
    ]
  ]

-- Once the reply is taken, there is none to take.
pub taken_finds_none :
    (k : String) (now : ℕ) (s : SessionStore)
    → HasAnswered k true s.repository
    → (e : StoreError) × ((Operations.pop_reply k now s).0 ≡ err e)
unfolding take_pending Operations.pop_reply with_session
taken_finds_none k now s h = elim (Option-cases (get_session s.repository k)) [
  | inl e ↦ (session_not_found, rw (Operations.pop_reply, with_session, e) refl)
  | inr (st, e) ↦ (
    no_reply,
    ap (λ u. u.0) (pop_found k now s st e) ∙ rw ((h.answered st e).1 refl, take_pending) refl,
  )
]
