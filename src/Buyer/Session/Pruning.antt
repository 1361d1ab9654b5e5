-- ===== src/Buyer/Session/Pruning.antt =====
-- Pruning of finished sessions and dropping of finished tasks: what they keep.
use codex_browser.Prelude.{
  ℕ, String, ◌≡◌, refl, sym, ◌∙◌, ap, Bool, true, not, Option, none, some, List, [], ◌∷◌, map,
  arith, count, filter, one_of,
}
use codex_browser.Dict.{get, get-remove, remove, values}
use codex_browser.Buyer.Session.State.{
  InMemorySessionRepository, SessionState, clone_state, list_sessions, delete_sessions,
}
use codex_browser.Buyer.Session.{
  SessionStore, discard, attach_runtime, is_active_in_current_runtime, forget_runtime, drop_tasks,
  drop_finished_runtime_tasks, is_expired, prune_with_ttl, prune_and_list,
}
use codex_browser.Buyer.Session.Change.{attach_frame}
use codex_browser.Buyer.Session.Counting.{
  IsKeyed, count_mono, count-filter_le, get-filter, filter-IsKeyed, delete_from-filter,
  filter-values,
}
use codex_browser.Buyer.Session.Invariant.{
  IsWithinLimit, LessRuntime, LessRuntime-active, same-IsWithinLimit,
}

pub LessRuntime-refl : (s : SessionStore) → LessRuntime s s
LessRuntime-refl s = record { fewer = λ j h. h; live = λ j r l. l }

pub LessRuntime-trans : {s t u : SessionStore} → LessRuntime s t → LessRuntime t u → LessRuntime s u
LessRuntime-trans a b = record {
  fewer = λ j h. a.fewer j (b.fewer j h);
  live = λ j r l. a.live j (b.fewer j r) (b.live j r l);
}

-- A loop over ids changes the runtime part alone, and makes it no larger.
pub record OnlyLess (s t : SessionStore) : Type 0 where
  pub less : LessRuntime s t
  pub repo : t.repository ≡ s.repository
  pub limit : t.max_active_sessions ≡ s.max_active_sessions

OnlyLess-trans : {s t u : SessionStore} → OnlyLess s t → OnlyLess t u → OnlyLess s u
OnlyLess-trans a b = record {
  less = LessRuntime-trans a.less b.less;
  repo = b.repo ∙ a.repo;
  limit = b.limit ∙ a.limit;
}

-- One session loses its task and its place in the runtime set.
dropped :
    (k : String) (s t : SessionStore)
    → t.repository ≡ s.repository
    → t.max_active_sessions ≡ s.max_active_sessions
    → t.done ≡ s.done
    → t.task_refs ≡ remove s.task_refs k
    → t.runtime_sessions ≡ discard k s.runtime_sessions
    → OnlyLess s t
dropped k s t repo limit done tasks run = record {
  less = record {
    fewer = λ j h. ground (arith, ap (λ f. f j) run);
    live = λ j r l.
        ground
          (arith, ap (λ f. f j) run, ap (λ d. get d j) tasks, get-remove s.task_refs k j, done);
  };
  repo = repo;
  limit = limit;
}

pub forget_runtime-OnlyLess :
    (ids : List String) (s : SessionStore) → OnlyLess s (forget_runtime ids s)
unfolding forget_runtime
forget_runtime-OnlyLess [] s = record { less = LessRuntime-refl s; repo = refl; limit = refl }
forget_runtime-OnlyLess (k ∷ ids) s =
    OnlyLess-trans (dropped k s _ refl refl refl refl refl) (forget_runtime-OnlyLess ids _)

drop_tasks-OnlyLess : (ids : List String) (s : SessionStore) → OnlyLess s (drop_tasks ids s)
unfolding drop_tasks
drop_tasks-OnlyLess [] s = record { less = LessRuntime-refl s; repo = refl; limit = refl }
drop_tasks-OnlyLess (k ∷ ids) s =
    OnlyLess-trans (dropped k s _ refl refl refl refl refl) (drop_tasks-OnlyLess ids _)

pub drop_finished-OnlyLess : (s : SessionStore) → OnlyLess s (drop_finished_runtime_tasks s)
unfolding drop_finished_runtime_tasks
drop_finished-OnlyLess s =
    drop_tasks-OnlyLess (map (λ (e : String × ℕ). e.0) (filter (λ e. s.done e.1) s.task_refs)) s

pub OnlyLess-IsWithinLimit : {s t : SessionStore} → OnlyLess s t → IsWithinLimit s → IsWithinLimit t
OnlyLess-IsWithinLimit o w = same-IsWithinLimit o.less o.limit (ap (λ r. r.sessions) o.repo) w

pub attach-OnlyLess : (st : SessionState) (s : SessionStore) → OnlyLess s (attach_runtime st s).1
attach-OnlyLess st s =
    let (repo, run, limit, ttl, tasks, done) = attach_frame st s in
    record {
      less = record { fewer = λ j r. rw run at r; live = λ j r l. rw (tasks, done) at l };
      repo = repo;
      limit = limit;
    }

-- Deleting by id keeps the limit.
filtered-IsWithinLimit :
    (q : String → Bool) {s t : SessionStore}
    → t.repository.sessions ≡ filter (λ e. q e.0) s.repository.sessions
    → LessRuntime s t
    → t.max_active_sessions ≡ s.max_active_sessions
    → IsWithinLimit s
    → IsWithinLimit t
filtered-IsWithinLimit q {s} {t} sessions less limit w = record {
  keyed = rw sessions (filter-IsKeyed _ s.repository.sessions w.keyed);
  opened = λ k st found run. ground (
    arith,
    ap (λ d. get d k) sessions,
    get-filter s.repository.sessions q k,
    w.opened k st,
    less.fewer k run,
  );
  bounded = omega (
    arith,
    ap (λ d. count (is_active_in_current_runtime t) (values d)) sessions,
    count-filter_le (is_active_in_current_runtime t) (λ e. q e.0) s.repository.sessions,
    count_mono (is_active_in_current_runtime t) (is_active_in_current_runtime s)
        (values s.repository.sessions) (LessRuntime-active less),
    w.bounded,
    limit,
  );
}

prune_with_ttl-IsWithinLimit :
    (now : ℕ) (ttl : Option ℕ) (s : SessionStore)
    → IsWithinLimit s
    → IsWithinLimit (prune_with_ttl now ttl s).1
unfolding prune_with_ttl delete_sessions
prune_with_ttl-IsWithinLimit now none s w = w
prune_with_ttl-IsWithinLimit now (some ttl) s w =
    let ids =
      map (λ (st : SessionState). st.session_id)
        (filter (is_expired now ttl) (list_sessions s.repository)) in
    let o =
      forget_runtime-OnlyLess ids (record s { repository = delete_sessions s.repository ids }) in
    filtered-IsWithinLimit (λ k. not (one_of k ids))
      (ap (λ r. r.sessions) o.repo ∙ delete_from-filter s.repository.sessions ids)
      (record { fewer = o.less.fewer; live = o.less.live }) o.limit w

-- Pruning keeps the limit.
pub prune-IsWithinLimit :
    (now : ℕ) (s : SessionStore) → IsWithinLimit s → IsWithinLimit (prune_and_list now s).1
unfolding prune_and_list
prune-IsWithinLimit now s w = prune_with_ttl-IsWithinLimit now s.status_ttl_sec s w

prune_with_ttl-list :
    (now : ℕ) (ttl : Option ℕ) (s : SessionStore)
    → IsKeyed s.repository.sessions
    → (prune_with_ttl now ttl s).0 ≡ list_sessions (prune_with_ttl now ttl s).1.repository
unfolding prune_with_ttl list_sessions delete_sessions
prune_with_ttl-list now none s keyed = refl
prune_with_ttl-list now (some ttl) s keyed =
    let ids =
      map (λ (st : SessionState). st.session_id)
        (filter (is_expired now ttl) (list_sessions s.repository)) in
    let o =
      forget_runtime-OnlyLess ids (record s { repository = delete_sessions s.repository ids }) in
    filter-values (λ k. not (one_of k ids)) s.repository.sessions keyed
    ∙ ap (λ d. map (clone_state true) (values d))
        (sym (delete_from-filter s.repository.sessions ids))
    ∙ ap list_sessions (sym o.repo)

-- Pruning returns what the repository holds afterwards.
pub prune-list :
    (now : ℕ) (s : SessionStore)
    → IsKeyed s.repository.sessions
    → (prune_and_list now s).0 ≡ list_sessions (prune_and_list now s).1.repository
unfolding prune_and_list
prune-list now s keyed = prune_with_ttl-list now s.status_ttl_sec s keyed

prune_with_ttl-fresh :
    (now : ℕ) (ttl : Option ℕ) (s : SessionStore) (k : String)
    → get s.repository.sessions k ≡ none
    → get (prune_with_ttl now ttl s).1.repository.sessions k ≡ none
unfolding prune_with_ttl delete_sessions
prune_with_ttl-fresh now none s k fresh = fresh
prune_with_ttl-fresh now (some ttl) s k fresh =
    let ids =
      map (λ (st : SessionState). st.session_id)
        (filter (is_expired now ttl) (list_sessions s.repository)) in
    let o =
      forget_runtime-OnlyLess ids (record s { repository = delete_sessions s.repository ids }) in
    ap (λ (r : InMemorySessionRepository). get r.sessions k) o.repo
    ∙ ap (λ d. get d k) (delete_from-filter s.repository.sessions ids)
    ∙ get-filter s.repository.sessions (λ j. not (one_of j ids)) k
    ∙ ground (arith, fresh)

-- Pruning leaves a fresh id fresh.
pub prune-fresh :
    (now : ℕ) (s : SessionStore) (k : String)
    → get s.repository.sessions k ≡ none
    → get (prune_and_list now s).1.repository.sessions k ≡ none
unfolding prune_and_list
prune-fresh now s k fresh = prune_with_ttl-fresh now s.status_ttl_sec s k fresh
