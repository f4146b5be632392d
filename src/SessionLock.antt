-- ===== src/SessionLock.antt =====
-- The locks of MuSig2 sessions (lib/p2p/musig2/session-lock.ts). A promise is the number of its
-- making; `resolved` holds those that were resolved. `acquire` is two steps: what runs before the
-- `await`, and what runs behind it once the awaited promise is resolved. Session identifiers are
-- numbers, since they are only compared.
pub mod Exclusion
pub mod Waiters
pub mod Tests
use lotus_sdk.Common.{
  ℕ, suc, ◌≡◌, Bool, true, false, ◌||◌, ◌==◌, Option, none, some, List, [], ◌∷◌, ◌++◌,
  if◌then◌else◌,
}
use lotus_sdk.Common.Assoc.{get, has_key, put, remove}

pub record SessionLock : Type 0 where
  pub locks : List (ℕ × ℕ)
  pub resolvers : List (ℕ × ℕ)
  pub made : ℕ
  pub resolved : List ℕ

unfoldable pub unlocked : SessionLock
unlocked = record { locks = []; resolvers = []; made = 0; resolved = [] }

-- A new promise is made and stored with its resolver, as in `acquire` and `tryAcquire`. The holder keeps the number of the promise.
unfoldable pub lock_now : ℕ → SessionLock → ℕ × SessionLock
lock_now session_id l = (
  l.made,
  record {
    locks = put l.locks session_id l.made;
    resolvers = put l.resolvers session_id l.made;
    made = suc l.made;
    resolved = l.resolved;
  },
)

-- The release function of the holder of `promise`.
unfoldable pub release : ℕ → ℕ → SessionLock → SessionLock
release session_id promise l = record {
  locks = remove l.locks session_id;
  resolvers = remove l.resolvers session_id;
  made = l.made;
  resolved = promise ∷ l.resolved;
}

pub data Acquired : Type 0 where
  holds : ℕ → Acquired
  awaits : ℕ → Acquired

-- `acquire` behind its `await`: it ends here, with the lock.
unfoldable pub resume : ℕ → SessionLock → Acquired × SessionLock
resume session_id l = (holds (lock_now session_id l).0, (lock_now session_id l).1)

-- `acquire` behind `this.locks.get(sessionId)`.
unfoldable pub acquire_over : Option ℕ → ℕ → SessionLock → Acquired × SessionLock
acquire_over none session_id l = resume session_id l
acquire_over (some existing) session_id l = (awaits existing, l)

-- `acquire` up to its `await`, or to its end where there is no lock to wait for.
unfoldable pub acquire : ℕ → SessionLock → Acquired × SessionLock
acquire session_id l = acquire_over (get l.locks session_id) session_id l

unfoldable pub try_acquire : ℕ → SessionLock → Option ℕ × SessionLock
try_acquire session_id l =
    if has_key l.locks session_id
    then (none, l)
    else (some (lock_now session_id l).0, (lock_now session_id l).1)

unfoldable pub is_locked : ℕ → SessionLock → Bool
is_locked session_id l = has_key l.locks session_id

unfoldable pub release_resolver : Option ℕ → ℕ → SessionLock → SessionLock
release_resolver none session_id l = l
release_resolver (some resolver) session_id l = release session_id resolver l

unfoldable pub force_release : ℕ → SessionLock → SessionLock
force_release session_id l = release_resolver (get l.resolvers session_id) session_id l

unfoldable pub force_release_all : List (ℕ × ℕ) → SessionLock → SessionLock
force_release_all [] l = l
force_release_all (entry ∷ entries) l = force_release_all entries (force_release entry.0 l)

unfoldable pub clear_all : SessionLock → SessionLock
clear_all l = force_release_all l.resolvers l

-- The lock with those that hold it: sessions with the promise that was made for them.
pub record World : Type 0 where
  pub lock : SessionLock
  pub holders : List (ℕ × ℕ)

-- A task that takes a lock only where it need not wait, and one that releases its own.
pub data Step : World → World → Type 0 where
  acquired :
      (session_id promise : ℕ) (w : World) (l : SessionLock)
      → acquire session_id w.lock ≡ (holds promise, l)
      → Step w (record { lock = l; holders = (session_id, promise) ∷ w.holders })
  tried :
      (session_id promise : ℕ) (w : World) (l : SessionLock)
      → try_acquire session_id w.lock ≡ (some promise, l)
      → Step w (record { lock = l; holders = (session_id, promise) ∷ w.holders })
  released :
      (session_id promise : ℕ) (w : World)
      → get w.holders session_id ≡ some promise
      → Step w (record {
        lock = release session_id promise w.lock;
        holders = remove w.holders session_id;
      })

pub data Steps : World → World → Type 0 where
  stays : (w : World) → Steps w w
  then_step : {u v w : World} → Step u v → Steps v w → Steps u w

unfoldable pub is_resolved : ℕ → List ℕ → Bool
is_resolved promise [] = false
is_resolved promise (p ∷ resolved) = p == promise || is_resolved promise resolved

-- The tasks of one program: those that hold a lock, with its promise, and those that await one.
pub record Tasks : Type 0 where
  pub lock : SessionLock
  pub holders : List (ℕ × ℕ)
  pub waiters : List (ℕ × ℕ)

-- A task calls `acquire`, and holds the lock or awaits a promise; the first waiting task goes on, if
-- its promise is resolved; the task that was longest a holder releases.
pub data Turn : Tasks → Tasks → Type 0 where
  takes :
      (session_id promise : ℕ) (w : Tasks) (l : SessionLock)
      → acquire session_id w.lock ≡ (holds promise, l)
      → Turn w (record {
        lock = l;
        holders = w.holders ++ ((session_id, promise) ∷ []);
        waiters = w.waiters;
      })
  waits :
      (session_id promise : ℕ) (w : Tasks) (l : SessionLock)
      → acquire session_id w.lock ≡ (awaits promise, l)
      → Turn w (record {
        lock = l;
        holders = w.holders;
        waiters = w.waiters ++ ((session_id, promise) ∷ []);
      })
  goes_on :
      (session_id awaited promise : ℕ) (w : Tasks) (waiters : List (ℕ × ℕ)) (l : SessionLock)
      → w.waiters ≡ (session_id, awaited) ∷ waiters
      → is_resolved awaited w.lock.resolved ≡ true
      → resume session_id w.lock ≡ (holds promise, l)
      → Turn w (record {
        lock = l;
        holders = w.holders ++ ((session_id, promise) ∷ []);
        waiters = waiters;
      })
  releases :
      (session_id promise : ℕ) (w : Tasks) (holders : List (ℕ × ℕ))
      → w.holders ≡ (session_id, promise) ∷ holders
      → Turn w (record {
        lock = release session_id promise w.lock;
        holders = holders;
        waiters = w.waiters;
      })

pub data Turns : Tasks → Tasks → Type 0 where
  ends : (w : Tasks) → Turns w w
  then_turn : {u v w : Tasks} → Turn u v → Turns v w → Turns u w
