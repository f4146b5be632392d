-- ===== src/DhtQueue/Tests.antt =====
-- Announcements that wait for the DHT.
use lotus_sdk.Common.{ℕ, ◌≡◌, refl, Bool, false, List, [], ◌∷◌, map, All, length, ◌==◌, arith}
use lotus_sdk.Common.Assoc.{get, has_key, put, remove, keep}
use lotus_sdk.DhtQueue.{
  DhtQueueConfig, Queue, oldest_from, drop_key, make_space, enqueue, enqueue_over, write_back,
  flush_item, counted, flush_items, flush, cleanup_expired, Call, enqueues, flushes, cleans_up,
  after_call, after_calls,
}
use lotus_sdk.DhtQueue.Space.{IsBounded}
use lotus_sdk.DhtQueue.Drained.{flushes-drain}
use lotus_sdk.DhtQueue.Bounds.{HasKey, after_calls-IsBounded}

abbrev config : DhtQueueConfig
config = record { max_queue_size = 2; queue_ttl = 100; max_retries = 3 }

abbrev nothing_taken : ℕ → ℕ → Bool
nothing_taken key announcement = false

abbrev calls : List Call
calls =
    enqueues 10 5 50
    ∷ enqueues 20 6 60
    ∷ flushes nothing_taken
    ∷ enqueues 30 7 70
    ∷ cleans_up 119
    ∷ []

-- The oldest announcement was dropped, and the other kept its attempt.
calls-queue :
    after_calls config calls []
    ≡ (6, record { announcement = 60; queued_at = 20; attempts = 1 })
      ∷ (7, record { announcement = 70; queued_at = 30; attempts = 0 })
      ∷ []
unfolding after_calls after_call enqueue enqueue_over get put make_space oldest_from drop_key remove
    flush flush_items flush_item write_back cleanup_expired keep counted
calls-queue = refl

calls-HasKey : All HasKey calls
calls-HasKey = (omega arith, (omega arith, (tt, (omega arith, (tt, tt)))))

empty-IsBounded : IsBounded config []
unfolding has_key
empty-IsBounded = (omega arith, refl, tt)

after_calls-IsBounded_example : IsBounded config (after_calls config calls [])
after_calls-IsBounded_example =
    after_calls-IsBounded config calls [] (omega arith) (omega arith) calls-HasKey empty-IsBounded

-- A full queue whose oldest key is the empty string grows past its size.
overflow :
    length (after_calls config (enqueues 10 0 50 ∷ enqueues 20 6 60 ∷ enqueues 30 7 70 ∷ []) []) ≡ 3
unfolding after_calls after_call enqueue enqueue_over get put make_space oldest_from drop_key
overflow = refl

abbrev waiting : Queue
waiting =
    (5, record { announcement = 50; queued_at = 10; attempts = 0 })
    ∷ (6, record { announcement = 60; queued_at = 20; attempts = 1 })
    ∷ []

abbrev callbacks : List (ℕ → ℕ → Bool)
callbacks = nothing_taken ∷ (λ key announcement. key == 6) ∷ nothing_taken ∷ []

waiting-IsBounded : IsBounded config waiting
unfolding has_key
waiting-IsBounded = (omega arith, refl, (omega arith, (omega arith, tt)))

flushes-drain_example : after_calls config (map flushes callbacks) waiting ≡ []
flushes-drain_example = flushes-drain config callbacks waiting refl waiting-IsBounded
