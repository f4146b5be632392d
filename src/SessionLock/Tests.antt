-- ===== src/SessionLock/Tests.antt =====
-- A lock that is taken, awaited and released.
use lotus_sdk.Common.{◌≡◌, refl, [], ◌∷◌}
use lotus_sdk.Common.Assoc.{get, has_key, put}
use lotus_sdk.SessionLock.{
  SessionLock, unlocked, lock_now, acquire, acquire_over, try_acquire, Step, acquired, tried, stays,
  then_step,
}
use lotus_sdk.SessionLock.{Tasks, Turns, resume}
use lotus_sdk.SessionLock.Exclusion.{Exclusive, Steps-Exclusive}
use lotus_sdk.SessionLock.Waiters.{idle, holders_from, many_holders}

abbrev held : SessionLock
held = record { locks = (1, 0) ∷ []; resolvers = (1, 0) ∷ []; made = 1; resolved = [] }

first_step :
    Step (record { lock = unlocked; holders = [] }) (record { lock = held; holders = (1, 0) ∷ [] })
unfolding acquire acquire_over resume lock_now unlocked get put
first_step = acquired 1 0 (record { lock = unlocked; holders = [] }) held refl

second_step :
    Step
      (record { lock = held; holders = (1, 0) ∷ [] })
      (record { lock = (lock_now 2 held).1; holders = (2, 1) ∷ (1, 0) ∷ [] })
unfolding try_acquire has_key lock_now
second_step = tried 2 1 (record { lock = held; holders = (1, 0) ∷ [] }) (lock_now 2 held).1 refl

Steps-Exclusive_example : Exclusive ((2, 1) ∷ (1, 0) ∷ [])
Steps-Exclusive_example =
    Steps-Exclusive {w = record { lock = (lock_now 2 held).1; holders = (2, 1) ∷ (1, 0) ∷ [] }}
      (then_step first_step (then_step second_step (stays _)))

many_holders_example :
    (w : Tasks) × Turns idle w × (w.holders ≡ holders_from 7 1 3) × (w.waiters ≡ [])
many_holders_example = many_holders 7 3
