-- ===== src/DhtQueue/Flushes.antt =====
-- What a flush counts.
use lotus_sdk.Common.{ℕ, suc, ◌+◌, ◌≡◌, refl, ap, ◌∙◌, Bool, true, false, [], ◌∷◌, length, arith}
use lotus_sdk.DhtQueue.{DhtQueueConfig, Queue, flush_item, counted, flush_items}

sum-counted :
    (taken : Bool) (counts : ℕ × ℕ)
    → (counted taken counts).0 + (counted taken counts).1 ≡ suc (counts.0 + counts.1)
unfolding counted
sum-counted true counts = omega arith
sum-counted false counts = omega arith

-- Each item of a flush is counted once.
sum-flush_items :
    (config : DhtQueueConfig) (callback : ℕ → ℕ → Bool) (items queue : Queue)
    → (flush_items config callback items queue).0.0 + (flush_items config callback items queue).0.1
      ≡ length items
unfolding flush_items
sum-flush_items config callback [] queue = refl
sum-flush_items config callback ((key, item) ∷ items) queue =
    let taken = callback key item.announcement in
    let next = flush_item config taken (key, item) queue in
    sum-counted taken (flush_items config callback items next).0
    ∙ ap suc (sum-flush_items config callback items next)
