-- ===== src/ReplayProtection/Fresh.antt =====
-- A message that was accepted is not accepted again.
use lotus_sdk.Common.{
  ℕ, ◌+◌, ◌-◌, ◌*◌, ◌<◌, ◌≤◌, ◌≡◌, ◌≢◌, ◌⊎◌, inl, inr, refl, ap, Bool, true, false, not, ◌&&◌,
  Option, none, some, List, [], ◌∷◌, length, ltb, leb, ◌==◌, ==_iff, ltb→lt, Bool-cases, arith,
}
use lotus_sdk.Common.Ints.{ℤ, leb_ℤ}
use lotus_sdk.Common.Assoc.{get, has_key, get-put_self, get-put_ne, has_key-get, get-keep}
use lotus_sdk.ReplayProtection.{
  Config, ReplayProtection, Message, Origin, valid, timestamp_out_of_range, duplicate_message_id,
  age, make_room, record_message_id, last_sequence, check_numbers, check_sequence_number,
  validate_sequence_number, check_message_id, validate_message, cleanup, clear_session, Event,
  message_at, cleanup_at, clear_session_at, clear_at, time_of, after_event, after_events,
}

-- The event is not `clear`, which forgets every message.
abbrev IsKeeping : Event → Type 0
IsKeeping (clear_at now) = ⊥
IsKeeping (message_at now message origin) = Unit
IsKeeping (cleanup_at now) = Unit
IsKeeping (clear_session_at now session_id) = Unit

-- Times do not go back, no event is `clear`, and the store has room for one more message identifier
-- at every event.
abbrev pub Quiet : Config → ℕ → List Event → ReplayProtection → Type 0
Quiet config t [] r = Unit
Quiet config t (e ∷ events) r =
    (t ≤ time_of e)
    × IsKeeping e
    × (length r.seen_messages < config.max_seen_messages)
    × Quiet config (time_of e) events (after_event config e r)

-- The time of the last event.
abbrev pub last_time : ℕ → List Event → ℕ
last_time t [] = t
last_time t (e ∷ events) = last_time (time_of e) events

-- The identifier is still stored, with a time from `t0` on, or its message is too old by now.
abbrev Remembers : Config → ℕ → ℕ → ℕ → ReplayProtection → Type 0
Remembers config t0 i now r =
    ((t : ℕ) × (get r.seen_messages i ≡ some t) × (t0 ≤ t))
    ⊎ (t0 + config.max_message_age * 2 < now)

numbers-seen :
    (session index : Option ℕ) (number : Option ℤ) (r : ReplayProtection)
    → (check_numbers session index number r).1.seen_messages ≡ r.seen_messages
unfolding check_numbers validate_sequence_number
numbers-seen none index number r = refl
numbers-seen (some s) none number r = refl
numbers-seen (some s) (some i) none r = refl
numbers-seen (some s) (some i) (some n) r = elim (Bool-cases (leb_ℤ n (last_sequence r s i))) [
  | inl p ↦ rw p refl
  | inr p ↦ rw p refl
]

pub check_sequence_number-seen :
    (config : Config) (origin : Origin) (r : ReplayProtection)
    → (check_sequence_number config origin r).1.seen_messages ≡ r.seen_messages
unfolding check_sequence_number
check_sequence_number-seen config origin r = elim (Bool-cases config.enable_sequence_validation) [
  | inl on ↦ rw on (numbers-seen origin.session_id origin.signer_index origin.sequence_number r)
  | inr off ↦ rw off refl
]

put-Remembers :
    (config : Config) (t0 i now j : ℕ) (r : ReplayProtection)
    → t0 ≤ now
    → length r.seen_messages < config.max_seen_messages
    → Remembers config t0 i now r
    → Remembers config t0 i now (record_message_id config j now r)
unfolding record_message_id make_room
put-Remembers config t0 i now j r later room (inr old) = inr old
put-Remembers config t0 i now j r later room (inl (t, found, after)) =
    let roomy : leb config.max_seen_messages (length r.seen_messages) ≡ false =
      ground (arith, room) in
    elim (Bool-cases (j == i)) [
      | inl p ↦
          let same : j ≡ i = (==_iff j i).0 p in
          inl (now, rw (roomy, same) (get-put_self r.seen_messages i now), later)
      | inr p ↦
          let other : j ≢ i = λ e. ground (arith, e, p) in
          inl
            (t, rw (roomy, get-put_ne r.seen_messages {key = j} {other = i} now other) found, after)
    ]

sequence-Remembers :
    (config : Config) (t0 i now : ℕ) (origin : Origin) (r : ReplayProtection)
    → Remembers config t0 i now r
    → Remembers config t0 i now (check_sequence_number config origin r).1
sequence-Remembers config t0 i now origin r (inr old) = inr old
sequence-Remembers config t0 i now origin r (inl (t, found, after)) =
    inl (t, rw (check_sequence_number-seen config origin r) found, after)

id-Remembers :
    (config : Config) (t0 i now : ℕ) (id : Option ℕ) (origin : Origin) (r : ReplayProtection)
    → t0 ≤ now
    → length r.seen_messages < config.max_seen_messages
    → Remembers config t0 i now r
    → Remembers config t0 i now (check_message_id config now id origin r).1
unfolding check_message_id
id-Remembers config t0 i now none origin r later room h =
    sequence-Remembers config t0 i now origin r h
id-Remembers config t0 i now (some j) origin r later room h =
    elim (Bool-cases (has_key r.seen_messages j)) [
      | inl p ↦ rw p h
      | inr p ↦ rw p (
          sequence-Remembers config t0 i now origin (record_message_id config j now r)
            (put-Remembers config t0 i now j r later room h))
    ]

validate-Remembers :
    (config : Config) (t0 i now : ℕ) (message : Message) (origin : Origin) (r : ReplayProtection)
    → t0 ≤ now
    → length r.seen_messages < config.max_seen_messages
    → Remembers config t0 i now r
    → Remembers config t0 i now (validate_message config now message origin r).1
unfolding validate_message
validate-Remembers config t0 i now message origin r later room h =
    elim (Bool-cases
      (not (message.timestamp == 0) && ltb config.max_message_age (age now message.timestamp))) [
        | inl p ↦ rw p h
        | inr p ↦ rw p (id-Remembers config t0 i now message.message_id origin r later room h)
      ]

cleanup-Remembers :
    (config : Config) (t0 i now : ℕ) (r : ReplayProtection)
    → Remembers config t0 i now r
    → Remembers config t0 i now (cleanup config now r)
unfolding cleanup
cleanup-Remembers config t0 i now r (inr old) = inr old
cleanup-Remembers config t0 i now r (inl (t, found, after)) =
    elim (Bool-cases (ltb (config.max_message_age * 2) (now - t))) [
      | inl p ↦ inr (omega (arith, ltb→lt _ _ p))
      | inr p ↦ inl (
        t,
        get-keep (λ entry. not (ltb (config.max_message_age * 2) (now - entry.1))) r.seen_messages i
            found (ap not p),
        after,
      )
    ]

later-Remembers :
    (config : Config) (t0 i : ℕ) {now later : ℕ} (r : ReplayProtection)
    → now ≤ later
    → Remembers config t0 i now r
    → Remembers config t0 i later r
later-Remembers config t0 i r le (inl found) = inl found
later-Remembers config t0 i r le (inr old) = inr (omega (arith, old, le))

event-Remembers :
    (config : Config) (t0 i : ℕ) (e : Event) (r : ReplayProtection)
    → t0 ≤ time_of e
    → IsKeeping e
    → length r.seen_messages < config.max_seen_messages
    → Remembers config t0 i (time_of e) r
    → Remembers config t0 i (time_of e) (after_event config e r)
unfolding after_event clear_session
event-Remembers config t0 i (message_at now message origin) r later keeps room h =
    validate-Remembers config t0 i now message origin r later room h
event-Remembers config t0 i (cleanup_at now) r later keeps room h =
    cleanup-Remembers config t0 i now r h
event-Remembers config t0 i (clear_session_at now session_id) r later keeps room h = h
event-Remembers config t0 i (clear_at now) r later keeps room h = absurd keeps

events-Remembers :
    (config : Config) (t0 t i : ℕ) (events : List Event) (r : ReplayProtection)
    → t0 ≤ t
    → Quiet config t events r
    → Remembers config t0 i t r
    → (t0 ≤ last_time t events)
      × Remembers config t0 i (last_time t events) (after_events config events r)
unfolding after_events
events-Remembers config t0 t i [] r later quiet h = (later, h)
events-Remembers config t0 t i (e ∷ events) r later (le, keeps, room, quiet) h =
    events-Remembers config t0 (time_of e) i events (after_event config e r) (omega arith) quiet (
      event-Remembers config t0 i e r (omega arith) keeps room (later-Remembers config t0 i r le h))

-- The first check of `validateMessage`.
abbrev is_stale : Config → ℕ → Message → Bool
is_stale config now message =
    not (message.timestamp == 0) && ltb config.max_message_age (age now message.timestamp)

accepted-fresh :
    (config : Config) (now : ℕ) (message : Message) (origin : Origin) (r : ReplayProtection)
    → (validate_message config now message origin r).0 ≡ valid
    → is_stale config now message ≡ false
unfolding validate_message
accepted-fresh config now message origin r accepted =
    elim (Bool-cases (is_stale config now message)) [
      | inl p ↦ let refused : timestamp_out_of_range ≡ valid = rw p at accepted in cc
      | inr p ↦ p
    ]

-- What an accepted message with an identifier leaves behind.
accepted-Remembers :
    (config : Config) (now i : ℕ) (message : Message) (origin : Origin) (r : ReplayProtection)
    → message.message_id ≡ some i
    → (validate_message config now message origin r).0 ≡ valid
    → Remembers config now i now (validate_message config now message origin r).1
unfolding validate_message check_message_id
accepted-Remembers config now i message origin r id accepted =
    let fresh : is_stale config now message ≡ false =
      accepted-fresh config now message origin r accepted in
    elim (Bool-cases (has_key r.seen_messages i)) [
      | inl p ↦ let refused : duplicate_message_id ≡ valid = rw (fresh, id, p) at accepted in cc
      | inr p ↦
          rw (fresh, id, p)
            (sequence-Remembers config now i now origin (record_message_id config i now r) (
              inl (
                now,
                unfold record_message_id in get-put_self (make_room config r.seen_messages) i now,
                omega arith,
              )))
    ]

-- A message whose identifier is remembered is refused.
refused-Remembers :
    (config : Config) (now later i : ℕ) (message : Message) (origin : Origin) (r : ReplayProtection)
    → message.message_id ≡ some i
    → 0 < message.timestamp
    → is_stale config now message ≡ false
    → Remembers config now i later r
    → (validate_message config later message origin r).0 ≢ valid
unfolding validate_message check_message_id
refused-Remembers config now later i message origin r id stamped fresh (inl (t, found, after))
      accepted =
    let known = has_key-get r.seen_messages i found in
    elim (Bool-cases (is_stale config later message)) [
      | inl p ↦ let refused : timestamp_out_of_range ≡ valid = rw p at accepted in cc
      | inr p ↦ let refused : duplicate_message_id ≡ valid = rw (p, id, known) at accepted in cc
    ]
refused-Remembers config now later i message origin r id stamped fresh (inr old) accepted =
    let stale : is_stale config later message ≡ true = ground (arith, stamped, fresh, old) in
    let refused : timestamp_out_of_range ≡ valid = rw stale at accepted in cc

-- A message with an identifier and a timestamp that was accepted at the time `now` is not accepted
-- again at any time `later`, from whatever origin: after any events but `clear` whose times do not
-- go back, up to `later`, at none of which the store was full.
pub accepted-once :
    (config : Config) (now later i : ℕ) (message : Message) (origin origin' : Origin)
    (events : List Event) (r : ReplayProtection)
    → message.message_id ≡ some i
    → 0 < message.timestamp
    → (validate_message config now message origin r).0 ≡ valid
    → Quiet config now events (validate_message config now message origin r).1
    → last_time now events ≤ later
    → (validate_message config later message origin'
        (after_events config events (validate_message config now message origin r).1)).0
      ≢ valid
accepted-once config now later i message origin origin' events r id stamped accepted quiet le =
    let once = (validate_message config now message origin r).1 in
    let (_, remembered) =
      events-Remembers config now now i events once (omega arith) quiet
        (accepted-Remembers config now i message origin r id accepted) in
    refused-Remembers config now later i message origin' (after_events config events once) id
      stamped (accepted-fresh config now message origin r accepted)
      (later-Remembers config now i (after_events config events once) le remembered)
