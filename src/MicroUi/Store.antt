-- ===== src/MicroUi/Store.antt =====
-- micro-ui/app/store.py: `CallbackStore`, with the event of micro-ui/app/models.py. Every operation
-- runs under the store's lock, so it is one atomic function of the store. A queue is a reference, and
-- `queues` holds what each has in it.
pub mod Delivery
use codex_browser.Prelude.{
  ℕ, suc, String, Bool, true, false, not, Option, none, some, List, [], ◌∷◌, ◌++◌, ◌==◌, ◌||◌,
  if◌then◌else◌, ltb, leb, nat_eq, length, filter, one_of,
}
use codex_browser.Dict.{Dict, get, put, remove, values}
use codex_browser.Json.{Fields}

pub record EventEnvelope : Type 0 where
  pub event_id : String
  pub session_id : String
  pub event_type : String
  pub occurred_at : ℕ
  pub idempotency_key : String
  pub payload : Fields

-- The sets of queues are lists of references; a reference stands in one set at most once.
pub record CallbackStore : Type 0 where
  pub events_by_session : Dict (List EventEnvelope)
  pub seen_event_ids : List String
  pub seen_idempotency_keys : List String
  pub subscribers_by_session : Dict (List ℕ)
  pub global_subscribers : List ℕ
  pub queues : ℕ → List EventEnvelope
  pub next_queue : ℕ

-- `asyncio.Queue(maxsize=200)`
abbrev pub queue_size : ℕ
queue_size = 200

-- `put_nowait`, `none` for `QueueFull`.
unfoldable pub put_nowait : List EventEnvelope → EventEnvelope → Option (List EventEnvelope)
put_nowait queue envelope =
    if ltb (length queue) queue_size then some (queue ++ (envelope ∷ [])) else none

-- `get_nowait`, with `QueueEmpty` passed over.
abbrev pub drop_oldest : List EventEnvelope → List EventEnvelope
drop_oldest [] = []
drop_oldest (oldest ∷ queue) = queue

-- `_offer` on the content of a queue.
unfoldable pub offer : List EventEnvelope → EventEnvelope → List EventEnvelope
unfolding put_nowait
offer queue envelope = elim (put_nowait queue envelope) [
  | some queue' ↦ queue'
  | none ↦ elim (put_nowait (drop_oldest queue) envelope) [
    | some queue' ↦ queue'
    | none ↦ drop_oldest queue
  ]
]

abbrev pub set_queue : ℕ → List EventEnvelope → (ℕ → List EventEnvelope) → ℕ → List EventEnvelope
set_queue q content queues r = if nat_eq q r then content else queues r

unfoldable pub offer_all :
    List ℕ → EventEnvelope → (ℕ → List EventEnvelope) → ℕ → List EventEnvelope
unfolding offer
offer_all [] envelope queues = queues
offer_all (q ∷ qs) envelope queues =
    offer_all qs envelope (set_queue q (offer (queues q) envelope) queues)

-- `dict.get(key, empty)` for a list.
abbrev pub list_of : {A : Type 0} → Option (List A) → List A
list_of none = []
list_of (some xs) = xs

-- `_publish_locked`
unfoldable pub publish : EventEnvelope → CallbackStore → CallbackStore
unfolding offer_all
publish envelope s =
    let subscribers = list_of (get s.subscribers_by_session envelope.session_id) in
    record s {
      queues = offer_all s.global_subscribers envelope (offer_all subscribers envelope s.queues);
    }

unfoldable pub seen : CallbackStore → EventEnvelope → Bool
seen s envelope =
    one_of envelope.event_id s.seen_event_ids
    || one_of envelope.idempotency_key s.seen_idempotency_keys

unfoldable pub add : EventEnvelope → CallbackStore → Bool × CallbackStore
unfolding seen publish
add envelope s =
    let bucket = list_of (get s.events_by_session envelope.session_id) in
    let s' = record s {
      seen_event_ids = envelope.event_id ∷ s.seen_event_ids;
      seen_idempotency_keys = envelope.idempotency_key ∷ s.seen_idempotency_keys;
      events_by_session = put s.events_by_session envelope.session_id (bucket ++ (envelope ∷ []));
    } in
    if seen s envelope then (false, s) else (true, publish envelope s')

-- A new queue, with nothing in it.
abbrev pub new_queue : CallbackStore → ℕ × CallbackStore
new_queue s = (
  s.next_queue,
  record s { queues = set_queue s.next_queue [] s.queues; next_queue = suc s.next_queue },
)

unfoldable pub subscribe : String → CallbackStore → ℕ × CallbackStore
subscribe session_id s =
    let (queue, s') = new_queue s in
    let subscribers = list_of (get s'.subscribers_by_session session_id) in
    (
      queue,
      record s' {
        subscribers_by_session = put s'.subscribers_by_session session_id (queue ∷ subscribers);
      },
    )

unfoldable pub subscribe_all : CallbackStore → ℕ × CallbackStore
subscribe_all s =
    let (queue, s') = new_queue s in
    (queue, record s' { global_subscribers = queue ∷ s'.global_subscribers })

-- `subscribers.discard(queue)`
abbrev pub discard : ℕ → List ℕ → List ℕ
discard queue subscribers = filter (λ q. not (nat_eq q queue)) subscribers

-- What `unsubscribe` leaves under the session: no entry where no subscriber is left.
abbrev pub keep_subscribers : String → List ℕ → Dict (List ℕ) → Dict (List ℕ)
keep_subscribers session_id [] subscribers = remove subscribers session_id
keep_subscribers session_id (q ∷ qs) subscribers = put subscribers session_id (q ∷ qs)

unfoldable pub unsubscribe : String → ℕ → CallbackStore → CallbackStore
unsubscribe session_id queue s = elim (get s.subscribers_by_session session_id) [
  | none ↦ s
  | some subscribers ↦ record s {
    subscribers_by_session =
        keep_subscribers session_id (discard queue subscribers) s.subscribers_by_session;
  }
]

unfoldable pub unsubscribe_all : ℕ → CallbackStore → CallbackStore
unsubscribe_all queue s = record s { global_subscribers = discard queue s.global_subscribers }

-- A stable sort: an entry goes before the first one that `after` puts behind it.
unfoldable pub insert_by {ℓ} : {A : Type ℓ} → (A → A → Bool) → A → List A → List A
insert_by after x [] = x ∷ []
insert_by after x (y ∷ ys) =
    let rest = insert_by after x ys in if after y x then x ∷ y ∷ ys else y ∷ rest

unfoldable pub sort_onto {ℓ} : {A : Type ℓ} → (A → A → Bool) → List A → List A → List A
unfolding insert_by
sort_onto after sorted [] = sorted
sort_onto after sorted (x ∷ xs) = sort_onto after (insert_by after x sorted) xs

unfoldable pub concat_all {ℓ} : {A : Type ℓ} → List (List A) → List A
concat_all [] = []
concat_all (xs ∷ xss) = xs ++ concat_all xss

-- The events of one session as they came, or those of all sessions by their time.
unfoldable pub list_events : Option String → CallbackStore → List EventEnvelope
unfolding concat_all sort_onto
list_events (some session_id) s = list_of (get s.events_by_session session_id)
list_events none s =
    sort_onto (λ y x. ltb x.occurred_at y.occurred_at) [] (concat_all (values s.events_by_session))
