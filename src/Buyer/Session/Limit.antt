-- ===== src/Buyer/Session/Limit.antt =====
-- The limit on active sessions (`max_active_sessions`, one in production) over every run.
use codex_browser.Prelude.{
  ℕ, ◌≤◌, ◌<◌, String, ◌≡◌, ◌≢◌, refl, sym, ◌∙◌, ap, inl, inr, true, false, ◌&&◌, Option, none,
  some, List, [], ◌∷◌, arith, eq_iff, leb, count, any, length, length-filter, Bool-cases,
}
use codex_browser.Dict.{get, get-put, put, values}
use codex_browser.Buyer.Session.State.{
  InMemorySessionRepository, SessionState, clone_state, list_sessions, create_session,
}
use codex_browser.Buyer.Session.{
  SessionStore, add, has_live_task, is_open, is_active_in_current_runtime, attach_runtime,
  drop_finished_runtime_tasks, prune_and_list, CreateRequest, new_session,
}
use codex_browser.Buyer.Session.Operations
use codex_browser.Buyer.Session.Operations.{
  register, active_sessions, attach_all, is_hook, remember_auth,
}
use codex_browser.Buyer.Session.Change.{
  attach_frame, set_auth-Change, get_state-Change, set_status-Change, set_waiting_question-Change,
  apply_reply-Change, pop_reply-Change, append_event-Change, add_agent_memory-Change,
  get_agent_memory-Change,
}
use codex_browser.Buyer.Models.{TaskAuthPayload}
use codex_browser.Buyer.Session.Trace.{
  Op, create, set_auth, get_state, set_status, set_waiting_question, apply_reply, pop_reply,
  append_event, add_agent_memory, get_agent_memory, list_states, set_task_ref, finish_task,
  run_hook, perform, Allowed, Reach, here, next,
}
use codex_browser.Buyer.Session.Counting.{
  IsKeyed, count_mono_on, count_none, count-map, count-put_le, put-IsKeyed, fresh_ids,
}
use codex_browser.Buyer.Session.Invariant.{
  IsWithinLimit, active_count, same-IsWithinLimit, Change-IsWithinLimit,
}
use codex_browser.Buyer.Session.Pruning.{
  attach-OnlyLess, prune-fresh, drop_finished-OnlyLess, OnlyLess-IsWithinLimit, prune-IsWithinLimit,
  prune-list,
}

-- The sessions that `create_session` counts are the active ones.
length-active_sessions :
    (s : SessionStore) → length (active_sessions s (list_sessions s.repository)) ≡ active_count s
unfolding active_sessions list_sessions
length-active_sessions s =
    length-filter (is_active_in_current_runtime s) _
    ∙ count-map (is_active_in_current_runtime s) (clone_state true) (values s.repository.sessions)
        (λ x. unfold is_active_in_current_runtime clone_state in refl)

-- Whether a session with another id is active does not depend on the id that is added.
active_elsewhere :
    (k : String) (s t : SessionStore) (x : SessionState)
    → t.runtime_sessions ≡ add k s.runtime_sessions
    → t.task_refs ≡ s.task_refs
    → t.done ≡ s.done
    → x.session_id ≢ k
    → is_active_in_current_runtime t x ≡ true
    → is_active_in_current_runtime s x ≡ true
unfolding is_active_in_current_runtime
active_elsewhere k s t x run tasks done other a =
    ground (arith, ap (λ f. f x.session_id) run, eq_iff k x.session_id, sym tasks, sym done)

-- A new session under a fresh id, where there is room.
registered :
    (k : String) (new : SessionState) (s t : SessionStore)
    → get s.repository.sessions k ≡ none
    → new.session_id ≡ k
    → is_open new.status ≡ true
    → t.repository.sessions ≡ put s.repository.sessions k new
    → t.runtime_sessions ≡ add k s.runtime_sessions
    → t.task_refs ≡ s.task_refs
    → t.done ≡ s.done
    → t.max_active_sessions ≡ s.max_active_sessions
    → active_count s < s.max_active_sessions
    → IsWithinLimit s
    → IsWithinLimit t
registered k new s t fresh id opened sessions run tasks done limit room w = record {
  keyed = rw sessions (put-IsKeyed s.repository.sessions new k w.keyed id);
  opened = λ j st found r. ground (
    arith,
    ap (λ d. get d j) sessions,
    get-put s.repository.sessions k new j,
    eq_iff k j,
    ap (λ f. f j) run,
    w.opened j st,
    opened,
  );
  bounded = omega (
    arith,
    ap (λ d. count (is_active_in_current_runtime t) (values d)) sessions,
    count-put_le (is_active_in_current_runtime t) s.repository.sessions k new,
    count_mono_on (is_active_in_current_runtime t) (is_active_in_current_runtime s)
        (λ x. x.session_id ≢ k) (values s.repository.sessions)
        (fresh_ids s.repository.sessions k w.keyed fresh)
        (λ x other. active_elsewhere k s t x run tasks done other),
    room,
    limit,
  );
}

-- Remembering the auth payload changes `runtime_auth` alone.
pub remembered :
    (k : String) (auth : Option TaskAuthPayload) (s : SessionStore)
    → ((remember_auth k auth s).repository ≡ s.repository)
      × ((remember_auth k auth s).runtime_sessions ≡ s.runtime_sessions)
      × ((remember_auth k auth s).max_active_sessions ≡ s.max_active_sessions)
      × ((remember_auth k auth s).task_refs ≡ s.task_refs)
      × ((remember_auth k auth s).done ≡ s.done)
remembered k none s = (refl, refl, refl, refl, refl)
remembered k (some auth) s = (refl, refl, refl, refl, refl)

register-IsWithinLimit :
    (k : String) (now : ℕ) (request : CreateRequest) (s : SessionStore)
    → get s.repository.sessions k ≡ none
    → active_count s < s.max_active_sessions
    → IsWithinLimit s
    → IsWithinLimit (register k now request s).1
unfolding register create_session clone_state is_open
register-IsWithinLimit k now request s fresh room w =
    let new = new_session k now request in
    let u = remember_auth k request.auth s in
    let (repo, run, lim, tasks, done) = remembered k request.auth s in
    let v : SessionStore = record u {
      repository = create_session u.repository new;
      runtime_sessions = add k u.runtime_sessions;
    } in
    let (r₂, run₂, lim₂, ttl₂, tasks₂, done₂) = attach_frame new v in
    registered k (clone_state s.repository.persist_auth_payload new) s _ fresh refl refl
      (ap (λ (r : InMemorySessionRepository). r.sessions) r₂
        ∙ ap
            (λ (r : InMemorySessionRepository).
              put r.sessions k (clone_state r.persist_auth_payload new))
            repo)
      (run₂ ∙ ap (add k) run) (tasks₂ ∙ tasks) (done₂ ∙ done) (lim₂ ∙ lim) room w

not_full : (a b : ℕ) → leb b a ≡ false → a < b
not_full a b h = ground arith

create-IsWithinLimit :
    (pruned_at : ℕ) (k : String) (now : ℕ) (request : CreateRequest) (s : SessionStore)
    → get s.repository.sessions k ≡ none
    → IsWithinLimit s
    → IsWithinLimit (Operations.create pruned_at k now request s).1
unfolding Operations.create
create-IsWithinLimit pruned_at k now request s fresh w =
    let s₁ = (prune_and_list pruned_at s).1 in
    let s₂ = drop_finished_runtime_tasks s₁ in
    let o = drop_finished-OnlyLess s₁ in
    let w₂ = OnlyLess-IsWithinLimit o (prune-IsWithinLimit pruned_at s w) in
    let listed : (prune_and_list pruned_at s).0 ≡ list_sessions s₂.repository =
      prune-list pruned_at s w.keyed ∙ ap list_sessions (sym o.repo) in
    let counted = ap (λ l. length (active_sessions s₂ l)) listed ∙ length-active_sessions s₂ in
    elim (Bool-cases
      (leb s₂.max_active_sessions (length (active_sessions s₂ (prune_and_list pruned_at s).0)))) [
        | inl full ↦ rw full w₂
        | inr room ↦ rw room (
            register-IsWithinLimit k now request s₂
              (ap (λ (r : InMemorySessionRepository). get r.sessions k) o.repo
                ∙ prune-fresh pruned_at s k fresh)
              (rw (← counted) (not_full _ _ room)) w₂)
      ]

set_task_ref-IsWithinLimit :
    (k : String) (task : ℕ) (s : SessionStore)
    → s.runtime_sessions k ≡ true
    → get s.task_refs k ≡ none
    → IsWithinLimit s
    → IsWithinLimit (Operations.set_task_ref k task s)
unfolding Operations.set_task_ref has_live_task
set_task_ref-IsWithinLimit k task s runs no_task w =
    same-IsWithinLimit
      (record {
        fewer = λ j r. ground (arith, eq_iff k j);
        live = λ j r l. ground (arith, eq_iff k j, get-put s.task_refs k task j);
      })
      refl refl w

finish_task-IsWithinLimit :
    (task : ℕ) (s : SessionStore) → IsWithinLimit s → IsWithinLimit (Operations.finish_task task s)
unfolding Operations.finish_task has_live_task
finish_task-IsWithinLimit task s w =
    same-IsWithinLimit (record { fewer = λ j r. r; live = λ j r l. ground arith }) refl refl w

run_hook-IsWithinLimit :
    (task : ℕ) (k : String) (s : SessionStore)
    → IsWithinLimit s
    → IsWithinLimit (Operations.run_hook task k s)
unfolding Operations.run_hook
run_hook-IsWithinLimit task k s w =
    elim (Bool-cases (s.done task && any (is_hook task k) s.hooks)) [
      | inl due ↦ rw due (
          same-IsWithinLimit (record { fewer = λ j r. ground arith; live = λ j r l. l }) refl refl
            w)
      | inr early ↦ rw early w
    ]

attach_all-IsWithinLimit :
    (xs : List SessionState) (s : SessionStore)
    → IsWithinLimit s
    → IsWithinLimit (attach_all xs s).1
unfolding attach_all
attach_all-IsWithinLimit [] s w = w
attach_all-IsWithinLimit (x ∷ xs) s w =
    attach_all-IsWithinLimit xs (attach_runtime x s).1
      (OnlyLess-IsWithinLimit (attach-OnlyLess x s) w)

list_states-IsWithinLimit :
    (now : ℕ) (s : SessionStore) → IsWithinLimit s → IsWithinLimit (Operations.list_states now s).1
unfolding Operations.list_states
list_states-IsWithinLimit now s w = attach_all-IsWithinLimit (prune_and_list now s).0 _ (
    OnlyLess-IsWithinLimit (drop_finished-OnlyLess (prune_and_list now s).1)
      (prune-IsWithinLimit now s w))

-- Every allowed operation keeps the limit.
pub perform-IsWithinLimit :
    (op : Op) (s : SessionStore) → Allowed s op → IsWithinLimit s → IsWithinLimit (perform op s)
perform-IsWithinLimit (create pruned_at k now request) s fresh w =
    create-IsWithinLimit pruned_at k now request s fresh w
perform-IsWithinLimit (set_auth k auth now) s a w =
    Change-IsWithinLimit (set_auth-Change k s auth now) w
perform-IsWithinLimit (get_state k) s a w = Change-IsWithinLimit (get_state-Change k s) w
perform-IsWithinLimit (set_status k status error now) s a w =
    Change-IsWithinLimit (set_status-Change k s status error now) w
perform-IsWithinLimit (set_waiting_question k question reply_id now) s a w =
    Change-IsWithinLimit (set_waiting_question-Change k s question reply_id now) w
perform-IsWithinLimit (apply_reply k reply_id message now) s a w =
    Change-IsWithinLimit (apply_reply-Change k s reply_id message now) w
perform-IsWithinLimit (pop_reply k now) s a w = Change-IsWithinLimit (pop_reply-Change k s now) w
perform-IsWithinLimit (append_event k event now) s a w =
    Change-IsWithinLimit (append_event-Change k s event now) w
perform-IsWithinLimit (add_agent_memory k role text now) s a w =
    Change-IsWithinLimit (add_agent_memory-Change k s role text now) w
perform-IsWithinLimit (get_agent_memory k) s a w =
    Change-IsWithinLimit (get_agent_memory-Change k s) w
perform-IsWithinLimit (list_states now) s a w = list_states-IsWithinLimit now s w
perform-IsWithinLimit (set_task_ref k task) s (runs, no_task) w =
    set_task_ref-IsWithinLimit k task s runs no_task w
perform-IsWithinLimit (finish_task task) s a w = finish_task-IsWithinLimit task s w
perform-IsWithinLimit (run_hook task k) s a w = run_hook-IsWithinLimit task k s w

-- A process that has just started: the sessions that the repository holds stand under their ids, and
-- none of them is active here.
pub record IsStart (s : SessionStore) : Type 0 where
  pub keyed : IsKeyed s.repository.sessions
  pub idle : (k : String) → s.runtime_sessions k ≡ false

start-IsWithinLimit : (s : SessionStore) → IsStart s → IsWithinLimit s
unfolding is_active_in_current_runtime
start-IsWithinLimit s start = record {
  keyed = start.keyed;
  opened = λ k st found run. ground (arith, start.idle k);
  bounded = omega (
    arith,
    count_none (is_active_in_current_runtime s) (values s.repository.sessions)
        (λ x. ground (arith, start.idle x.session_id)),
  );
}

Reach-IsWithinLimit : {s t : SessionStore} → IsWithinLimit s → Reach s t → IsWithinLimit t
Reach-IsWithinLimit w here = w
Reach-IsWithinLimit w (next {t = t} r op a) = perform-IsWithinLimit op t a (Reach-IsWithinLimit w r)

-- From the start of a process, after any operations in any order, with session tasks that end at any
-- time, at most `max_active_sessions` sessions are active; asked is that `uuid4` gives fresh ids and
-- that a task is set once, for a session of this process.
pub active_limit :
    (s t : SessionStore) → IsStart s → Reach s t → active_count t ≤ t.max_active_sessions
active_limit s t start r = (Reach-IsWithinLimit (start-IsWithinLimit s start) r).bounded
