-- ===== src/DhtQueue/Drained.antt =====
-- What flushes leave of the queue.
use lotus_sdk.Common.{
  ℕ, suc, ◌+◌, ◌<◌, ◌≤◌, ◌≡◌, ◌⊎◌, inl, inr, refl, Bool, true, false, ◌||◌, List, [], ◌∷◌, map, All,
  All-map, length, leb, ◌==◌, Bool-cases, arith,
}
use lotus_sdk.Common.Assoc.{has_key, remove}
use lotus_sdk.Common.Entries.{own-has_key}
use lotus_sdk.DhtQueue.{
  DhtQueueConfig, Queued, Queue, write_back, flush_item, flush_items, flush, flushes, after_call,
  after_calls,
}
use lotus_sdk.DhtQueue.Space.{IsBounded}
use lotus_sdk.DhtQueue.Bounds.{flush_items-IsBounded}

-- An item was tried often enough, or its turn in the flush is still to come.
abbrev Awaited : ℕ → Queue → ℕ × Queued → Type 0
Awaited n items e = (n < e.1.attempts) ⊎ (has_key items e.0 ≡ true)

Awaited-next :
    (n key : ℕ) (item : Queued) (items : Queue) (e : ℕ × Queued)
    → (e.0 == key) ≡ false
    → Awaited n ((key, item) ∷ items) e
    → Awaited n items e
unfolding has_key
Awaited-next n key item items e ne (inl h) = inl h
Awaited-next n key item items e ne (inr h) = inr (ground (arith, ne, h))

remove-Awaited :
    (n key : ℕ) (item : Queued) (items queue : Queue)
    → All (Awaited n ((key, item) ∷ items)) queue
    → All (Awaited n items) (remove queue key)
unfolding remove
remove-Awaited n key item items [] hs = tt
remove-Awaited n key item items (e ∷ queue) hs = elim (Bool-cases (e.0 == key)) [
  | inl p ↦ rw p (remove-Awaited n key item items queue hs.1)
  | inr p ↦
      rw p (Awaited-next n key item items e p hs.0, remove-Awaited n key item items queue hs.1)
]

write_back-Awaited :
    (n key : ℕ) (item tried : Queued) (items queue : Queue)
    → n < tried.attempts
    → All (Awaited n ((key, item) ∷ items)) queue
    → All (Awaited n items) (write_back queue key tried)
unfolding write_back
write_back-Awaited n key item tried items [] h hs = tt
write_back-Awaited n key item tried items (e ∷ queue) h hs = elim (Bool-cases (e.0 == key)) [
  | inl p ↦ rw p (inl h, write_back-Awaited n key item tried items queue h hs.1)
  | inr p ↦ rw p (
    Awaited-next n key item items e p hs.0,
    write_back-Awaited n key item tried items queue h hs.1,
  )
]

flush_item-Awaited :
    (config : DhtQueueConfig) (taken : Bool) (n key : ℕ) (item : Queued) (items queue : Queue)
    → n ≤ item.attempts
    → All (Awaited n ((key, item) ∷ items)) queue
    → All (Awaited n items) (flush_item config taken (key, item) queue)
unfolding flush_item
flush_item-Awaited config taken n key item items queue h hs =
    elim (Bool-cases (taken || leb config.max_retries (suc item.attempts))) [
      | inl p ↦ rw p (remove-Awaited n key item items queue hs)
      | inr p ↦ rw p (write_back-Awaited n key item _ items queue (omega (arith, h)) hs)
    ]

tried : (n : ℕ) (e : ℕ × Queued) → Awaited n [] e → n < e.1.attempts
unfolding has_key
tried n e (inl h) = h
tried n e (inr h) = absurd cc

flush_items-attempts :
    (config : DhtQueueConfig) (callback : ℕ → ℕ → Bool) (n : ℕ) (items queue : Queue)
    → All (λ e. n ≤ e.1.attempts) items
    → All (Awaited n items) queue
    → All (λ e. n < e.1.attempts) (flush_items config callback items queue).1
unfolding flush_items
flush_items-attempts config callback n [] queue hs ws = All-map (tried n) queue ws
flush_items-attempts config callback n ((key, item) ∷ items) queue hs ws =
    let taken = callback key item.announcement in
    flush_items-attempts config callback n items (flush_item config taken (key, item) queue) hs.1
      (flush_item-Awaited config taken n key item items queue hs.0 ws)

flush-attempts :
    (config : DhtQueueConfig) (callback : ℕ → ℕ → Bool) (n : ℕ) (queue : Queue)
    → All (λ e. n ≤ e.1.attempts) queue
    → All (λ e. n < e.1.attempts) (flush config callback queue).1
unfolding flush
flush-attempts config callback n queue hs =
    flush_items-attempts config callback n queue queue hs
      (All-map (λ e h. inr h) queue (own-has_key queue))

none_left :
    (n : ℕ) (queue : Queue)
    → All (λ e. n ≤ e.1.attempts) queue
    → All (λ e. e.1.attempts < n) queue
    → queue ≡ []
none_left n [] hs ls = refl
none_left n (e ∷ queue) hs ls = absurd (omega (arith, hs.0, ls.0))

untried : (queue : Queue) → All (λ e. 0 ≤ e.1.attempts) queue
untried [] = tt
untried (e ∷ queue) = (omega arith, untried queue)

drained :
    (config : DhtQueueConfig) (callbacks : List (ℕ → ℕ → Bool)) (n : ℕ) (queue : Queue)
    → n + length callbacks ≡ config.max_retries
    → All (λ e. n ≤ e.1.attempts) queue
    → IsBounded config queue
    → after_calls config (map flushes callbacks) queue ≡ []
unfolding after_calls after_call
drained config [] n queue all hs b =
    none_left n queue hs (All-map (λ e h. omega (arith, all, h)) queue b.2)
drained config (callback ∷ callbacks) n queue all hs b =
    drained config callbacks (suc n) (flush config callback queue).1 (omega (arith, all))
      (flush-attempts config callback n queue hs)
      (unfold flush in flush_items-IsBounded config callback queue queue b)

-- `maxRetries` flushes of a bounded queue leave nothing in it, whatever the callbacks answer.
pub flushes-drain :
    (config : DhtQueueConfig) (callbacks : List (ℕ → ℕ → Bool)) (queue : Queue)
    → length callbacks ≡ config.max_retries
    → IsBounded config queue
    → after_calls config (map flushes callbacks) queue ≡ []
flushes-drain config callbacks queue all b =
    drained config callbacks 0 queue (omega (arith, all)) (untried queue) b
