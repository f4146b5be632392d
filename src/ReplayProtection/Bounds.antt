-- ===== src/ReplayProtection/Bounds.antt =====
-- The store of message identifiers is bounded.
use lotus_sdk.Common.{
  ℕ, zero, suc, ◌<◌, ◌≤◌, ◌≡◌, inl, inr, refl, ap, ◌∙◌, true, not, ◌&&◌, Option, none, some, List,
  [], ◌∷◌, All, length, take, ltb, leb, ◌==◌, leb→le, Bool-cases, arith,
}
use lotus_sdk.Common.Assoc.{
  has_key, remove, length-put, length-remove, length-remove_key, length-keep,
}
use lotus_sdk.Common.Entries.{own-has_key}
use lotus_sdk.ReplayProtection.{
  Config, ReplayProtection, Message, Origin, age, insert_by_time, sort_by_time, remove_entries,
  make_room, record_message_id, check_sequence_number, check_message_id, validate_message, cleanup,
  clear_session, clear, Event, message_at, cleanup_at, clear_session_at, clear_at, after_event,
  after_events,
}
use lotus_sdk.ReplayProtection.Fresh.{check_sequence_number-seen}

abbrev pub IsBounded : Config → ReplayProtection → Type 0
IsBounded config r = length r.seen_messages ≤ config.max_seen_messages

length-remove_entries :
    (entries seen : List (ℕ × ℕ)) → length (remove_entries entries seen) ≤ length seen
unfolding remove_entries
length-remove_entries [] seen = omega arith
length-remove_entries (entry ∷ entries) seen =
    omega (arith, length-remove_entries entries (remove seen entry.0), length-remove seen entry.0)

-- The first of the sorted entries is one of the entries.
insert-has_key :
    (seen : List (ℕ × ℕ)) (entry : ℕ × ℕ) (entries : List (ℕ × ℕ))
    → has_key seen entry.0 ≡ true
    → All (λ e. has_key seen e.0 ≡ true) entries
    → All (λ e. has_key seen e.0 ≡ true) (insert_by_time entry entries)
unfolding insert_by_time
insert-has_key seen entry [] h hs = (h, tt)
insert-has_key seen entry (other ∷ entries) h hs = elim (Bool-cases (leb entry.1 other.1)) [
  | inl p ↦ rw p (h, hs)
  | inr p ↦ rw p (hs.0, insert-has_key seen entry entries h hs.1)
]

sort-has_key :
    (seen entries : List (ℕ × ℕ))
    → All (λ e. has_key seen e.0 ≡ true) entries
    → All (λ e. has_key seen e.0 ≡ true) (sort_by_time entries)
unfolding sort_by_time
sort-has_key seen [] hs = tt
sort-has_key seen (entry ∷ entries) hs =
    insert-has_key seen entry (sort_by_time entries) hs.0 (sort-has_key seen entries hs.1)

length-insert :
    (entry : ℕ × ℕ) (entries : List (ℕ × ℕ))
    → length (insert_by_time entry entries) ≡ suc (length entries)
unfolding insert_by_time
length-insert entry [] = refl
length-insert entry (other ∷ entries) = ground (arith, length-insert entry entries)

length-sort : (entries : List (ℕ × ℕ)) → length (sort_by_time entries) ≡ length entries
unfolding sort_by_time
length-sort [] = refl
length-sort (entry ∷ entries) =
    length-insert entry (sort_by_time entries) ∙ ap suc (length-sort entries)

-- At least one entry goes.
length-evict :
    (n : ℕ) (sorted seen : List (ℕ × ℕ))
    → 0 < n
    → 0 < length sorted
    → All (λ e. has_key seen e.0 ≡ true) sorted
    → length (remove_entries (take n sorted) seen) < length seen
unfolding remove_entries
length-evict zero sorted seen some_evicted h hs = absurd (omega arith)
length-evict (suc n) [] seen some_evicted h hs = absurd (omega arith)
length-evict (suc n) (entry ∷ sorted) seen some_evicted h hs = omega (
  arith,
  length-remove_entries (take n sorted) (remove seen entry.0),
  length-remove_key seen entry.0 hs.0,
)

make_room-room :
    (config : Config) (seen : List (ℕ × ℕ))
    → 0 < config.evicted
    → 0 < config.max_seen_messages
    → length seen ≤ config.max_seen_messages
    → length (make_room config seen) < config.max_seen_messages
unfolding make_room
make_room-room config seen evicts some_room h =
    elim (Bool-cases (leb config.max_seen_messages (length seen))) [
      | inl p ↦
          let full : config.max_seen_messages ≤ length seen =
            leb→le config.max_seen_messages (length seen) p in
          rw p (
            omega (
              arith,
              length-evict config.evicted (sort_by_time seen) seen evicts
                  (omega (arith, length-sort seen)) (sort-has_key seen seen (own-has_key seen)),
            ))
      | inr p ↦ rw p (ground (arith, p))
    ]

check_sequence_number-length :
    (config : Config) (origin : Origin) (r : ReplayProtection)
    → length (check_sequence_number config origin r).1.seen_messages ≡ length r.seen_messages
check_sequence_number-length config origin r =
    ap length (check_sequence_number-seen config origin r)

module _ (config : Config) (evicts : 0 < config.evicted)
    (some_room : 0 < config.max_seen_messages) where
  id-IsBounded :
      (now : ℕ) (id : Option ℕ) (origin : Origin) (r : ReplayProtection)
      → IsBounded config r
      → IsBounded config (check_message_id config now id origin r).1
  unfolding check_message_id record_message_id
  id-IsBounded now none origin r h = omega (arith, check_sequence_number-length config origin r)
  id-IsBounded now (some i) origin r h = elim (Bool-cases (has_key r.seen_messages i)) [
    | inl p ↦ rw p h
    | inr p ↦ rw p (
        omega (
          arith,
          check_sequence_number-length config origin (record_message_id config i now r),
          length-put (make_room config r.seen_messages) i now,
          make_room-room config r.seen_messages evicts some_room h,
        ))
  ]

  validate-IsBounded :
      (now : ℕ) (message : Message) (origin : Origin) (r : ReplayProtection)
      → IsBounded config r
      → IsBounded config (validate_message config now message origin r).1
  unfolding validate_message
  validate-IsBounded now message origin r h =
      elim (Bool-cases
        (not (message.timestamp == 0) && ltb config.max_message_age (age now message.timestamp))) [
          | inl p ↦ rw p h
          | inr p ↦ rw p (id-IsBounded now message.message_id origin r h)
        ]

  event-IsBounded :
      (e : Event) (r : ReplayProtection)
      → IsBounded config r
      → IsBounded config (after_event config e r)
  unfolding after_event clear_session cleanup clear
  event-IsBounded (message_at now message origin) r h = validate-IsBounded now message origin r h
  event-IsBounded (cleanup_at now) r h = omega (arith, length-keep _ r.seen_messages)
  event-IsBounded (clear_session_at now session_id) r h = h
  event-IsBounded (clear_at now) r h = omega arith

-- A store of at most `maxSeenMessages` identifiers stays one through any events, where this number
-- is not 0 and a full store is relieved of at least one entry.
pub after_events-IsBounded :
    (config : Config) (events : List Event) (r : ReplayProtection)
    → 0 < config.evicted
    → 0 < config.max_seen_messages
    → IsBounded config r
    → IsBounded config (after_events config events r)
unfolding after_events
after_events-IsBounded config [] r evicts some_room h = h
after_events-IsBounded config (e ∷ events) r evicts some_room h =
    after_events-IsBounded config events (after_event config e r) evicts some_room
      (event-IsBounded config evicts some_room e r h)
