-- ===== src/DhtQueue.antt =====
-- The queue of announcements that wait for the DHT (lib/p2p/dht-queue.ts). `Date.now()` is an
-- argument. Keys are numbers, since they are only compared, and 0 is the empty string, which the
-- code tests for. The events that the queue emits and the timer that calls `_cleanupExpired` are not
-- modelled. A flush is modelled where its batches are not empty and no other call comes between: the
-- items are then each other's business only by the map, and are taken one after the other.
pub mod Space
pub mod Bounds
pub mod Flushes
pub mod Drained
pub mod Tests
use lotus_sdk.Common.{
  ℕ, suc, ◌-◌, Bool, true, false, not, ◌||◌, Option, none, some, List, [], ◌∷◌, length, ltb, leb,
  ◌==◌, if◌then◌else◌,
}
use lotus_sdk.Common.Assoc.{get, put, remove, keep}

pub record DhtQueueConfig : Type 0 where
  pub max_queue_size : ℕ
  pub queue_ttl : ℕ
  pub max_retries : ℕ

-- `attempts` and `queuedAt` of a QueuedAnnouncement, with its announcement, which is not looked into.
pub record Queued : Type 0 where
  pub announcement : ℕ
  pub queued_at : ℕ
  pub attempts : ℕ

abbrev pub Queue : Type 0
Queue = List (ℕ × Queued)

-- `_findOldestKey`, from what was found so far: the first of the oldest.
unfoldable pub oldest_from : Option (ℕ × ℕ) → Queue → Option (ℕ × ℕ)
oldest_from oldest [] = oldest
oldest_from none ((key, item) ∷ queue) = oldest_from (some (key, item.queued_at)) queue
oldest_from (some (oldest_key, oldest_time)) ((key, item) ∷ queue) =
    oldest_from
      (if ltb item.queued_at oldest_time
        then some (key, item.queued_at)
        else some (oldest_key, oldest_time))
      queue

-- `if (oldestKey) this.pendingQueue.delete(oldestKey)`
unfoldable pub drop_key : Option (ℕ × ℕ) → Queue → Queue
drop_key none queue = queue
drop_key (some (oldest_key, oldest_time)) queue =
    if oldest_key == 0 then queue else remove queue oldest_key

unfoldable pub make_space : DhtQueueConfig → Queue → Queue
make_space config queue =
    if leb config.max_queue_size (length queue)
    then drop_key (oldest_from none queue) queue
    else queue

-- `enqueue` behind `this.pendingQueue.get(key)`: an announcement that is queued keeps its attempts.
unfoldable pub enqueue_over : Option Queued → DhtQueueConfig → ℕ → ℕ → ℕ → Queue → Queue
enqueue_over (some existing) config now key announcement queue =
    put queue key
      (record { announcement = announcement; queued_at = now; attempts = existing.attempts })
enqueue_over none config now key announcement queue =
    put (make_space config queue) key
      (record { announcement = announcement; queued_at = now; attempts = 0 })

unfoldable pub enqueue : DhtQueueConfig → ℕ → ℕ → ℕ → Queue → Queue
enqueue config now key announcement queue =
    enqueue_over (get queue key) config now key announcement queue

-- A change to the object that the map holds at a key, if it still does.
unfoldable pub write_back : Queue → ℕ → Queued → Queue
write_back [] key item = []
write_back ((k, other) ∷ queue) key item =
    let rest = write_back queue key item in if k == key then (k, item) ∷ rest else (k, other) ∷ rest

-- An item of a flush, and whether the callback took it. False and an exception are treated alike.
unfoldable pub flush_item : DhtQueueConfig → Bool → ℕ × Queued → Queue → Queue
flush_item config taken (key, item) queue =
    if taken || leb config.max_retries (suc item.attempts)
    then remove queue key
    else write_back queue key (record {
      announcement = item.announcement;
      queued_at = item.queued_at;
      attempts = suc item.attempts;
    })

unfoldable pub counted : Bool → ℕ × ℕ → ℕ × ℕ
counted true (success, failed) = (suc success, failed)
counted false (success, failed) = (success, suc failed)

unfoldable pub flush_items : DhtQueueConfig → (ℕ → ℕ → Bool) → Queue → Queue → (ℕ × ℕ) × Queue
flush_items config callback [] queue = ((0, 0), queue)
flush_items config callback ((key, item) ∷ items) queue =
    let taken = callback key item.announcement in
    let rest = flush_items config callback items (flush_item config taken (key, item) queue) in
    (counted taken rest.0, rest.1)

-- `flush`, of the items that the queue holds when it is called: the numbers that it returns, and the
-- queue then.
unfoldable pub flush : DhtQueueConfig → (ℕ → ℕ → Bool) → Queue → (ℕ × ℕ) × Queue
flush config callback queue = flush_items config callback queue queue

-- `now - item.queuedAt > queueTTL` fails for a time in the future, as it does with the difference 0.
unfoldable pub cleanup_expired : DhtQueueConfig → ℕ → Queue → Queue
cleanup_expired config now queue =
    keep (λ entry. not (ltb config.queue_ttl (now - entry.1.queued_at))) queue

pub data Call : Type 0 where
  enqueues : ℕ → ℕ → ℕ → Call
  flushes : (ℕ → ℕ → Bool) → Call
  cleans_up : ℕ → Call
  removes : ℕ → Call

unfoldable pub after_call : DhtQueueConfig → Call → Queue → Queue
after_call config (enqueues now key announcement) queue = enqueue config now key announcement queue
after_call config (flushes callback) queue = (flush config callback queue).1
after_call config (cleans_up now) queue = cleanup_expired config now queue
after_call config (removes key) queue = remove queue key

unfoldable pub after_calls : DhtQueueConfig → List Call → Queue → Queue
after_calls config [] queue = queue
after_calls config (c ∷ calls) queue = after_calls config calls (after_call config c queue)
