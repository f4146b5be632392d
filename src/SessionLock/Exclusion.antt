-- ===== src/SessionLock/Exclusion.antt =====
-- Who holds a lock, with and without waiting.
use lotus_sdk.Common.{
  ℕ, ◌≡◌, ◌≢◌, inl, inr, refl, sym, ap, true, false, Option, none, some, List, [], ◌∷◌, All, ◌==◌,
  ==_iff, Bool-cases, Option-cases, arith,
}
use mathlib.Core.Path.{subst}
use lotus_sdk.Common.Assoc.{
  get, has_key, put, remove, get-put_self, get-put_ne, get-remove_ne, has_key-get,
  has_key-remove_none,
}
use lotus_sdk.SessionLock.{
  SessionLock, unlocked, lock_now, release, Acquired, holds, awaits, acquire, acquire_over, resume,
  try_acquire, World, Step, acquired, tried, released, Steps, stays, then_step,
}

-- No session has two holders.
abbrev pub Exclusive : List (ℕ × ℕ) → Type 0
Exclusive [] = Unit
Exclusive (h ∷ holders) = (has_key holders h.0 ≡ false) × Exclusive holders

abbrev Good : World → Type 0
Good w = Exclusive w.holders × All (λ h. get w.lock.locks h.0 ≡ some h.1) w.holders

-- The sessions of the entries are all other ones.
has_key-All :
    (holders : List (ℕ × ℕ)) (key : ℕ) (Q Q' : ℕ × ℕ → Type 0)
    → ((h : ℕ × ℕ) → h.0 ≢ key → Q h → Q' h)
    → has_key holders key ≡ false
    → All Q holders
    → All Q' holders
unfolding has_key
has_key-All [] key Q Q' f e hs = tt
has_key-All (h ∷ holders) key Q Q' f e hs =
    (f h (λ p. ground (arith, p, e)) hs.0, has_key-All holders key Q Q' f (ground (arith, e)) hs.1)

no-holder :
    (locks holders : List (ℕ × ℕ)) (key : ℕ)
    → All (λ h. get locks h.0 ≡ some h.1) holders
    → has_key locks key ≡ false
    → has_key holders key ≡ false
unfolding has_key
no-holder locks [] key hs e = refl
no-holder locks (h ∷ holders) key hs e = elim (Bool-cases (h.0 == key)) [
  | inl p ↦
      let same : h.0 ≡ key = (==_iff _ _).0 p in
      let taken : has_key locks key ≡ true = rw (← same) (has_key-get locks h.0 hs.0) in cc
  | inr p ↦ rw p (no-holder locks holders key hs.1 e)
]

lock_now-Good :
    (session_id : ℕ) (w : World)
    → Good w
    → has_key w.lock.locks session_id ≡ false
    → Good (record {
      lock = (lock_now session_id w.lock).1;
      holders = (session_id, (lock_now session_id w.lock).0) ∷ w.holders;
    })
unfolding lock_now
lock_now-Good session_id w g free =
    let none_holds = no-holder w.lock.locks w.holders session_id g.1 free in
    (
      (none_holds, g.0),
      (
        get-put_self w.lock.locks session_id w.lock.made,
        has_key-All w.holders session_id (λ h. get w.lock.locks h.0 ≡ some h.1)
            (λ h. get (put w.lock.locks session_id w.lock.made) h.0 ≡ some h.1)
            (λ h ne q.
              rw
                (get-put_ne w.lock.locks {key = session_id} {other = h.0} w.lock.made
                  (λ p. ne (sym p)))
                q)
            none_holds g.1,
      ),
    )

-- What is left of exclusive holders when one session's are taken out.
remove-Exclusive :
    (holders : List (ℕ × ℕ)) (key : ℕ) (Q Q' : ℕ × ℕ → Type 0)
    → ((h : ℕ × ℕ) → h.0 ≢ key → Q h → Q' h)
    → Exclusive holders
    → All Q holders
    → Exclusive (remove holders key) × All Q' (remove holders key)
unfolding remove
remove-Exclusive [] key Q Q' f ex hs = (tt, tt)
remove-Exclusive (h ∷ holders) key Q Q' f ex hs =
    let (rest, all) = remove-Exclusive holders key Q Q' f ex.1 hs.1 in
    elim (Bool-cases (h.0 == key)) [
      | inl p ↦ rw p (rest, all)
      | inr p ↦ rw p (
        (has_key-remove_none holders key h.0 ex.0, rest),
        (f h (λ e. ground (arith, e, p)) hs.0, all),
      )
    ]

free-get : (locks : List (ℕ × ℕ)) (key : ℕ) → get locks key ≡ none → has_key locks key ≡ false
unfolding get has_key
free-get [] key e = refl
free-get ((k, v) ∷ locks) key e = elim (Bool-cases (k == key)) [
  | inl p ↦ let taken : some v ≡ none = rw p at e in cc
  | inr p ↦ rw p (free-get locks key (rw p at e))
]

taken-Good :
    (session_id promise : ℕ) (w : World) (l : SessionLock)
    → Good w
    → has_key w.lock.locks session_id ≡ false
    → lock_now session_id w.lock ≡ (promise, l)
    → Good (record { lock = l; holders = (session_id, promise) ∷ w.holders })
taken-Good session_id promise w l g free e =
    subst
      (λ (q : ℕ × SessionLock).
        Good (record { lock = q.1; holders = (session_id, q.0) ∷ w.holders }))
      e (lock_now-Good session_id w g free)

Step-Good : {u v : World} → Step u v → Good u → Good v
unfolding acquire acquire_over resume try_acquire release
Step-Good (acquired session_id promise w l e) g =
    elim (Option-cases (get w.lock.locks session_id)) [
      | inl p ↦
          let done : ◌≡◌ {A = Acquired × SessionLock}
              (holds (lock_now session_id w.lock).0, (lock_now session_id w.lock).1)
              (holds promise, l) =
            rw p at e in
          taken-Good session_id promise w l g (free-get w.lock.locks session_id p) (cc)
      | inr (existing, p) ↦
          let waits : ◌≡◌ {A = Acquired × SessionLock} (awaits existing, w.lock)
              (holds promise, l) =
            rw p at e in
          let never : awaits existing ≡ holds promise = ap (λ q. q.0) waits in cc
    ]
Step-Good (tried session_id promise w l e) g = elim (Bool-cases (has_key w.lock.locks session_id)) [
  | inl p ↦
      let refused : ◌≡◌ {A = Option ℕ × SessionLock} (none, w.lock) (some promise, l) = rw p at e in
      let never : none ≡ some promise = ap (λ q. q.0) refused in cc
  | inr p ↦
      let done : ◌≡◌ {A = Option ℕ × SessionLock}
          (some (lock_now session_id w.lock).0, (lock_now session_id w.lock).1) (some promise, l) =
        rw p at e in
      taken-Good session_id promise w l g p (cc)
]
Step-Good (released session_id promise w e) g =
    remove-Exclusive w.holders session_id (λ h. get w.lock.locks h.0 ≡ some h.1)
      (λ h. get (remove w.lock.locks session_id) h.0 ≡ some h.1)
      (λ h ne q.
        rw (get-remove_ne w.lock.locks {key = session_id} {other = h.0} (λ p. ne (sym p))) q)
      g.0 g.1

Steps-Good : {u v : World} → Steps u v → Good u → Good v
Steps-Good (stays w) g = g
Steps-Good (then_step s rest) g = Steps-Good rest (Step-Good s g)

-- As long as every task takes a lock only where it need not wait, by `acquire` or by `tryAcquire`,
-- and releases what it holds, no session ever has two holders.
pub Steps-Exclusive :
    {w : World} → Steps (record { lock = unlocked; holders = [] }) w → Exclusive w.holders
Steps-Exclusive steps = (Steps-Good steps (tt, tt)).0
