-- ===== src/DhtQueue/Space.antt =====
-- The space that a full queue makes (`_findOldestKey` and the deletion in `enqueue`).
use lotus_sdk.Common.{
  ℕ, suc, ◌<◌, ◌≤◌, ◌≡◌, ◌≢◌, inl, inr, refl, sym, true, false, Option, none, some, [], ◌∷◌, All,
  length, ltb, leb, ◌==◌, Bool-cases, arith,
}
use lotus_sdk.Common.Assoc.{has_key, remove, length-remove, length-remove_key, has_key-remove_none}
use lotus_sdk.Common.Entries.{own-has_key, All-remove}
use lotus_sdk.DhtQueue.{DhtQueueConfig, Queue, oldest_from, drop_key, make_space}

-- The size is in bounds, no key is the empty string, and every item has attempts left.
abbrev pub IsBounded : DhtQueueConfig → Queue → Type 0
IsBounded config queue =
    (length queue ≤ config.max_queue_size)
    × (has_key queue 0 ≡ false)
    × All (λ e. e.1.attempts < config.max_retries) queue

-- The oldest key is one of the queue's, where what was found so far is.
oldest_from-has_key :
    (queue rest : Queue) (key time : ℕ)
    → has_key queue key ≡ true
    → All (λ e. has_key queue e.0 ≡ true) rest
    → (k : ℕ) × (t : ℕ) × (oldest_from (some (key, time)) rest ≡ some (k, t))
      × (has_key queue k ≡ true)
unfolding oldest_from
oldest_from-has_key queue [] key time h hs = (key, time, refl, h)
oldest_from-has_key queue ((k, item) ∷ rest) key time h hs =
    elim (Bool-cases (ltb item.queued_at time)) [
      | inl p ↦ rw p (oldest_from-has_key queue rest k item.queued_at hs.0 hs.1)
      | inr p ↦ rw p (oldest_from-has_key queue rest key time h hs.1)
    ]

same_key : (queue : Queue) (k : ℕ) → has_key queue k ≡ true → has_key queue 0 ≡ false → k ≢ 0
same_key queue k h none_empty at = let this : has_key queue 0 ≡ true = rw (sym at) h in absurd cc

pub length-make_space :
    (config : DhtQueueConfig) (queue : Queue)
    → 0 < config.max_queue_size
    → IsBounded config queue
    → length (make_space config queue) < config.max_queue_size
unfolding make_space oldest_from drop_key
length-make_space config [] some_room b = ground (arith, some_room)
length-make_space config ((key, item) ∷ queue) some_room b =
    elim (Bool-cases (leb config.max_queue_size (suc (length queue)))) [
      | inl p ↦
          let whole = own-has_key ((key, item) ∷ queue) in
          let found =
            oldest_from-has_key ((key, item) ∷ queue) queue key item.queued_at whole.0 whole.1 in
          let kept : (found.0 == 0) ≡ false =
            ground (arith, same_key ((key, item) ∷ queue) found.0 found.3 b.1) in
          rw (p, found.2, kept)
            (omega (arith, length-remove_key ((key, item) ∷ queue) found.0 found.3, b.0))
      | inr p ↦ rw p (ground (arith, p))
    ]

pub remove-IsBounded :
    (config : DhtQueueConfig) (queue : Queue) (key : ℕ)
    → IsBounded config queue
    → IsBounded config (remove queue key)
remove-IsBounded config queue key b = (
  omega (arith, length-remove queue key, b.0),
  has_key-remove_none queue key 0 b.1,
  All-remove (λ e. e.1.attempts < config.max_retries) queue key b.2,
)

drop_key-IsBounded :
    (config : DhtQueueConfig) (oldest : Option (ℕ × ℕ)) (queue : Queue)
    → IsBounded config queue
    → IsBounded config (drop_key oldest queue)
unfolding drop_key
drop_key-IsBounded config none queue b = b
drop_key-IsBounded config (some (key, time)) queue b = elim (Bool-cases (key == 0)) [
  | inl p ↦ rw p b
  | inr p ↦ rw p (remove-IsBounded config queue key b)
]

pub make_space-IsBounded :
    (config : DhtQueueConfig) (queue : Queue)
    → IsBounded config queue
    → IsBounded config (make_space config queue)
unfolding make_space
make_space-IsBounded config queue b = elim (Bool-cases (leb config.max_queue_size (length queue))) [
  | inl p ↦ rw p (drop_key-IsBounded config (oldest_from none queue) queue b)
  | inr p ↦ rw p b
]
