-- ===== src/DhtQueue/Bounds.antt =====
-- The queue is bounded, and so are the attempts at each item.
use lotus_sdk.Common.{
  ℕ, suc, ◌-◌, ◌<◌, ◌≡◌, ◌≢◌, inl, inr, refl, ◌∙◌, Bool, not, ◌||◌, List, [], ◌∷◌, All, length, ltb,
  leb, ◌==◌, Bool-cases, Option-cases, arith,
}
use lotus_sdk.Common.Assoc.{get, has_key, length-put, length-keep, has_key-get}
use lotus_sdk.Common.Entries.{
  length-put_old, has_key-put_none, has_key-keep_none, All-keep, All-put, All-get,
}
use lotus_sdk.DhtQueue.{
  DhtQueueConfig, Queued, Queue, make_space, enqueue, enqueue_over, write_back, flush_item,
  flush_items, flush, cleanup_expired, Call, enqueues, flushes, cleans_up, removes, after_call,
  after_calls,
}
use lotus_sdk.DhtQueue.Space.{IsBounded, make_space-IsBounded, length-make_space, remove-IsBounded}

length-write_back :
    (queue : Queue) (key : ℕ) (item : Queued) → length (write_back queue key item) ≡ length queue
unfolding write_back
length-write_back [] key item = refl
length-write_back ((k, other) ∷ queue) key item = ground (arith, length-write_back queue key item)

has_key-write_back :
    (queue : Queue) (key : ℕ) (item : Queued) (k : ℕ)
    → has_key (write_back queue key item) k ≡ has_key queue k
unfolding write_back has_key
has_key-write_back [] key item k = refl
has_key-write_back ((l, other) ∷ queue) key item k =
    ground (arith, has_key-write_back queue key item k)

All-write_back :
    (config : DhtQueueConfig) (queue : Queue) (key : ℕ) (item : Queued)
    → item.attempts < config.max_retries
    → All (λ e. e.1.attempts < config.max_retries) queue
    → All (λ e. e.1.attempts < config.max_retries) (write_back queue key item)
unfolding write_back
All-write_back config [] key item h hs = tt
All-write_back config ((k, other) ∷ queue) key item h hs = elim (Bool-cases (k == key)) [
  | inl p ↦ rw p (h, All-write_back config queue key item h hs.1)
  | inr p ↦ rw p (hs.0, All-write_back config queue key item h hs.1)
]

flush_item-IsBounded :
    (config : DhtQueueConfig) (taken : Bool) (entry : ℕ × Queued) (queue : Queue)
    → IsBounded config queue
    → IsBounded config (flush_item config taken entry queue)
unfolding flush_item
flush_item-IsBounded config taken (key, item) queue b =
    elim (Bool-cases (taken || leb config.max_retries (suc item.attempts))) [
      | inl p ↦ rw p (remove-IsBounded config queue key b)
      | inr p ↦
          let item' : Queued = record {
            announcement = item.announcement;
            queued_at = item.queued_at;
            attempts = suc item.attempts;
          } in
          rw p (
            omega (arith, length-write_back queue key item', b.0),
            has_key-write_back queue key item' 0 ∙ b.1,
            All-write_back config queue key item' (ground (arith, p)) b.2,
          )
    ]

pub flush_items-IsBounded :
    (config : DhtQueueConfig) (callback : ℕ → ℕ → Bool) (items queue : Queue)
    → IsBounded config queue
    → IsBounded config (flush_items config callback items queue).1
unfolding flush_items
flush_items-IsBounded config callback [] queue b = b
flush_items-IsBounded config callback ((key, item) ∷ items) queue b =
    flush_items-IsBounded config callback items
      (flush_item config (callback key item.announcement) (key, item) queue)
      (flush_item-IsBounded config (callback key item.announcement) (key, item) queue b)

cleanup_expired-IsBounded :
    (config : DhtQueueConfig) (now : ℕ) (queue : Queue)
    → IsBounded config queue
    → IsBounded config (cleanup_expired config now queue)
unfolding cleanup_expired
cleanup_expired-IsBounded config now queue b = (
  omega (
    arith,
    length-keep (λ entry. not (ltb config.queue_ttl (now - entry.1.queued_at))) queue,
    b.0,
  ),
  has_key-keep_none _ queue 0 b.1,
  All-keep (λ e. e.1.attempts < config.max_retries) _ queue b.2,
)

-- No announcement is queued under the empty string.
abbrev pub HasKey : Call → Type 0
HasKey (enqueues now key announcement) = key ≢ 0
HasKey (flushes callback) = Unit {0}
HasKey (cleans_up now) = Unit {0}
HasKey (removes key) = Unit {0}

module _ (config : DhtQueueConfig) (some_room : 0 < config.max_queue_size)
    (some_tries : 0 < config.max_retries) where
  enqueue-IsBounded :
      (now key announcement : ℕ) (queue : Queue)
      → key ≢ 0
      → IsBounded config queue
      → IsBounded config (enqueue config now key announcement queue)
  unfolding enqueue enqueue_over
  enqueue-IsBounded now key announcement queue some_key b =
      let room = make_space-IsBounded config queue b in
      elim (Option-cases (get queue key)) [
        | inl n ↦ rw n (
          omega (
            arith,
            length-put (make_space config queue) key
                (record { announcement = announcement; queued_at = now; attempts = 0 }),
            length-make_space config queue some_room b,
          ),
          has_key-put_none (make_space config queue) key 0 _ some_key room.1,
          All-put (λ e. e.1.attempts < config.max_retries) (make_space config queue) key _
              (λ k. some_tries) room.2,
        )
        | inr e ↦ rw e.1 (
          omega (
            arith,
            length-put_old queue key
                (record { announcement = announcement; queued_at = now; attempts = e.0.attempts })
                (has_key-get queue key e.1),
            b.0,
          ),
          has_key-put_none queue key 0 _ some_key b.1,
          All-put (λ e. e.1.attempts < config.max_retries) queue key _
              (λ k. (All-get (λ e. e.1.attempts < config.max_retries) queue key b.2 e.1).1) b.2,
        )
      ]

  after_call-IsBounded :
      (c : Call) (queue : Queue)
      → HasKey c
      → IsBounded config queue
      → IsBounded config (after_call config c queue)
  unfolding after_call flush
  after_call-IsBounded (enqueues now key announcement) queue some_key b =
      enqueue-IsBounded now key announcement queue some_key b
  after_call-IsBounded (flushes callback) queue some_key b =
      flush_items-IsBounded config callback queue queue b
  after_call-IsBounded (cleans_up now) queue some_key b =
      cleanup_expired-IsBounded config now queue b
  after_call-IsBounded (removes key) queue some_key b = remove-IsBounded config queue key b

-- Where neither limit is 0, a queue within `maxQueueSize`, none of whose keys is the empty string
-- and each of whose items was tried less than `maxRetries` times, stays one through any calls that
-- queue nothing under the empty string.
pub after_calls-IsBounded :
    (config : DhtQueueConfig) (calls : List Call) (queue : Queue)
    → 0 < config.max_queue_size
    → 0 < config.max_retries
    → All HasKey calls
    → IsBounded config queue
    → IsBounded config (after_calls config calls queue)
unfolding after_calls
after_calls-IsBounded config [] queue some_room some_tries some_keys b = b
after_calls-IsBounded config (c ∷ calls) queue some_room some_tries some_keys b =
    after_calls-IsBounded config calls (after_call config c queue) some_room some_tries some_keys.1
      (after_call-IsBounded config some_room some_tries c queue some_keys.0 b)
