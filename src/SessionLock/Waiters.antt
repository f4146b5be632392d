-- ===== src/SessionLock/Waiters.antt =====
-- Tasks that await one lock.
use lotus_sdk.Common.{ℕ, zero, suc, ◌≡◌, refl, true, List, [], ◌∷◌, ◌++◌, replicate, arith, ◌==◌}
use mathlib.Core.List.{append_assoc, append-nil}
use lotus_sdk.Common.Assoc.{get, put, remove}
use lotus_sdk.SessionLock.{
  SessionLock, awaits, unlocked, lock_now, release, acquire, acquire_over, resume, is_resolved,
  Tasks, takes, waits, goes_on, releases, Turns, ends, then_turn,
}

abbrev pub idle : Tasks
idle = record { lock = unlocked; holders = []; waiters = [] }

-- `n` holders of one session, the oldest first, with the promises from `promise` on.
abbrev pub holders_from : ℕ → ℕ → ℕ → List (ℕ × ℕ)
holders_from session_id promise zero = []
holders_from session_id promise (suc n) =
    (session_id, promise) ∷ holders_from session_id (suc promise) n

join-Turns : {u v w : Tasks} → Turns u v → Turns v w → Turns u w
join-Turns (ends w) s = s
join-Turns (then_turn t ts) s = then_turn t (join-Turns ts s)

-- `n` tasks call `acquire` one after the other while the lock is held.
calls_while_held :
    (n session_id promise : ℕ) (l : SessionLock) (holders waiters : List (ℕ × ℕ))
    → acquire session_id l ≡ (awaits promise, l)
    → Turns
        (record { lock = l; holders = holders; waiters = waiters })
        (record {
          lock = l;
          holders = holders;
          waiters = waiters ++ replicate n (session_id, promise);
        })
calls_while_held zero session_id promise l holders waiters e = rw (append-nil waiters) (ends _)
calls_while_held (suc n) session_id promise l holders waiters e =
    let more =
      calls_while_held n session_id promise l holders (waiters ++ ((session_id, promise) ∷ [])) e in
    then_turn (waits session_id promise _ l e) (
      rw (append_assoc waiters ((session_id, promise) ∷ []) (replicate n (session_id, promise))) at
        more)

-- All tasks that await a resolved promise go on, each as a holder.
go_on_together :
    (n session_id promise : ℕ) (l : SessionLock) (holders : List (ℕ × ℕ))
    → is_resolved promise l.resolved ≡ true
    → (l' : SessionLock) × Turns
        (record { lock = l; holders = holders; waiters = replicate n (session_id, promise) })
        (record { lock = l'; holders = holders ++ holders_from session_id l.made n; waiters = [] })
unfolding resume lock_now
go_on_together zero session_id promise l holders r = (l, rw (append-nil holders) (ends _))
go_on_together (suc n) session_id promise l holders r =
    let next = (lock_now session_id l).1 in
    let (l', turns) =
      go_on_together n session_id promise next (holders ++ ((session_id, l.made) ∷ [])) r in
    (
      l',
      then_turn
          (goes_on session_id promise l.made _ (replicate n (session_id, promise)) next refl r refl)
          (rw
            (append_assoc holders ((session_id, l.made) ∷ [])
              (holders_from session_id (suc l.made) n))
            at turns),
    )

-- However many tasks wait for one holder of a session, they may all hold its lock at once: for every
-- session and every `n` there is a run, in which tasks only acquire and release what they hold, that
-- ends with `n` holders of that session, each with a promise of its own, and with no task waiting.
pub many_holders :
    (session_id n : ℕ)
    → (w : Tasks) × Turns idle w × (w.holders ≡ holders_from session_id 1 n) × (w.waiters ≡ [])
unfolding acquire acquire_over resume release lock_now unlocked get put remove is_resolved
many_holders session_id n =
    let own : (session_id == session_id) ≡ true = ground arith in
    let held = (lock_now session_id unlocked).1 in
    let (l, turns) = go_on_together n session_id 0 (release session_id 0 held) [] refl in
    (
      record { lock = l; holders = holders_from session_id 1 n; waiters = [] },
      then_turn (takes session_id 0 idle held refl) (
          join-Turns (calls_while_held n session_id 0 held ((session_id, 0) ∷ []) [] (rw own refl))
            (then_turn (releases session_id 0 _ [] refl) turns)),
      refl,
      refl,
    )
