-- ===== src/ReplayProtection/Sequences.antt =====
-- The sequence numbers of one signer increase.
use lotus_sdk.Common.{
  ℕ, ◌≡◌, ◌≢◌, inl, inr, refl, true, false, not, ◌&&◌, Option, none, some, List, [], ◌∷◌, All, ltb,
  ◌==◌, Bool-cases, arith,
}
use lotus_sdk.Common.Ints.{ℤ, pos, negsuc, ◌+ℤ◌, ltb_ℤ, leb_ℤ}
use lotus_sdk.Common.Assoc.{get, has_key, get-remove_ne}
use lotus_sdk.ReplayProtection.{
  Config, ReplayProtection, Message, Origin, valid, timestamp_out_of_range, duplicate_message_id,
  age, or_else, last_sequence, record_message_id, check_numbers, check_sequence_number,
  validate_sequence_number, check_message_id, validate_message, get_next_sequence_number, next_in,
  cleanup, clear_session, Event, message_at, cleanup_at, clear_session_at, clear_at, after_event,
  after_events,
}
use lotus_sdk.ReplayProtection.Past.{IsPast, sequences-IsPast, message-IsPast, accepted-last}

-- The event clears neither the session nor everything.
abbrev pub Keeps : ℕ → Event → Type 0
Keeps session (clear_session_at now other) = other ≢ session
Keeps session (message_at now message origin) = Unit
Keeps session (cleanup_at now) = Unit
Keeps session (clear_at now) = ⊥

event-IsPast :
    (session signer : ℕ) (q : ℤ) (config : Config) (e : Event) (r : ReplayProtection)
    → Keeps session e
    → IsPast session signer q r
    → IsPast session signer q (after_event config e r)
unfolding after_event
event-IsPast session signer q config (message_at now message origin) r k h =
    message-IsPast session signer q config now message origin r h
event-IsPast session signer q config (cleanup_at now) r k h =
    sequences-IsPast session signer q r (cleanup config now r) (unfold cleanup in refl) h
event-IsPast session signer q config (clear_session_at now other) r k h =
    unfold clear_session in
    (unfold last_sequence in
      rw (get-remove_ne r.session_sequences {key = other} {other = session} k) h)
event-IsPast session signer q config (clear_at now) r k h = absurd k

events-IsPast :
    (session signer : ℕ) (q : ℤ) (config : Config) (events : List Event) (r : ReplayProtection)
    → All (Keeps session) events
    → IsPast session signer q r
    → IsPast session signer q (after_events config events r)
unfolding after_events
events-IsPast session signer q config [] r k h = h
events-IsPast session signer q config (e ∷ events) r k h =
    events-IsPast session signer q config events (after_event config e r) k.1
      (event-IsPast session signer q config e r k.0 h)

-- The message comes from a signer of a session, with a number.
abbrev pub numbered : ℕ → ℕ → ℤ → Origin
numbered session signer q = record {
  session_id = some session;
  signer_index = some signer;
  sequence_number = some q;
}

-- The number lay beyond the last one before, and is the last one behind.
abbrev Advances : ℕ → ℕ → ℤ → ReplayProtection → ReplayProtection → Type 0
Advances session signer q r r' =
    (leb_ℤ q (last_sequence r session signer) ≡ false) × (last_sequence r' session signer ≡ q)

check-accepted :
    (session signer : ℕ) (q : ℤ) (config : Config) (r : ReplayProtection)
    → config.enable_sequence_validation ≡ true
    → (check_sequence_number config (numbered session signer q) r).0 ≡ valid
    → Advances session signer q r (check_sequence_number config (numbered session signer q) r).1
unfolding check_sequence_number check_numbers
check-accepted session signer q config r on accepted =
    rw on (accepted-last session signer q r (rw on at accepted))

id-accepted :
    (session signer : ℕ) (q : ℤ) (config : Config) (now : ℕ) (id : Option ℕ) (r : ReplayProtection)
    → config.enable_sequence_validation ≡ true
    → (check_message_id config now id (numbered session signer q) r).0 ≡ valid
    → Advances session signer q r (check_message_id config now id (numbered session signer q) r).1
unfolding check_message_id
id-accepted session signer q config now none r on accepted =
    check-accepted session signer q config r on accepted
id-accepted session signer q config now (some i) r on accepted =
    elim (Bool-cases (has_key r.seen_messages i)) [
      | inl p ↦ let refused : duplicate_message_id ≡ valid = rw p at accepted in cc
      | inr p ↦
          let after =
            check-accepted session signer q config (record_message_id config i now r) on
              (rw p at accepted) in
          let same : last_sequence (record_message_id config i now r) session signer
              ≡ last_sequence r session signer =
            unfold record_message_id in unfold last_sequence in refl in
          rw p (rw (← same) after.0, after.1)
    ]

message-accepted :
    (session signer : ℕ) (q : ℤ) (config : Config) (now : ℕ) (message : Message)
    (r : ReplayProtection)
    → config.enable_sequence_validation ≡ true
    → (validate_message config now message (numbered session signer q) r).0 ≡ valid
    → Advances session signer q r
        (validate_message config now message (numbered session signer q) r).1
unfolding validate_message
message-accepted session signer q config now message r on accepted =
    elim (Bool-cases
      (not (message.timestamp == 0) && ltb config.max_message_age (age now message.timestamp))) [
        | inl p ↦ let refused : timestamp_out_of_range ≡ valid = rw p at accepted in cc
        | inr p ↦
            rw p
              (id-accepted session signer q config now message.message_id r on (rw p at accepted))
      ]

-- Where sequence numbers are validated, two messages that are accepted from one signer of a
-- session, the second one after any events that do not clear that session, have increasing numbers.
pub sequence_numbers_increase :
    (config : Config) (session signer : ℕ) (q q' : ℤ) (now now' : ℕ) (message message' : Message)
    (events : List Event) (r : ReplayProtection)
    → config.enable_sequence_validation ≡ true
    → (validate_message config now message (numbered session signer q) r).0 ≡ valid
    → All (Keeps session) events
    → (validate_message config now' message' (numbered session signer q') (
        after_events config events
          (validate_message config now message (numbered session signer q) r).1)).0
      ≡ valid
    → ltb_ℤ q q' ≡ true
sequence_numbers_increase config session signer q q' now now' message message' events r on first
      keep_session second =
    let once = (validate_message config now message (numbered session signer q) r).1 in
    let (_, last) = message-accepted session signer q config now message r on first in
    let past : IsPast session signer q once = rw last (ground arith) in
    let later = events-IsPast session signer q config events once keep_session past in
    let (beyond, _) =
      message-accepted session signer q' config now' message' (after_events config events once) on
        second in
    ground (arith, later, beyond)

next-beyond : (z : ℤ) → leb_ℤ (z +ℤ pos 1) z ≡ false
unfolding ◌+ℤ◌
next-beyond z = ground arith

next_in-last :
    (seqs : Option (List (ℕ × ℤ))) (signer : ℕ)
    → next_in seqs signer ≡ or_else (get (or_else seqs []) signer) (negsuc 0) +ℤ pos 1
unfolding next_in or_else get ◌+ℤ◌
next_in-last none signer = refl
next_in-last (some seqs) signer = refl

next-last :
    (session signer : ℕ) (r : ReplayProtection)
    → get_next_sequence_number session signer r ≡ last_sequence r session signer +ℤ pos 1
unfolding get_next_sequence_number last_sequence
next-last session signer r = next_in-last (get r.session_sequences session) signer

-- The number that `getNextSequenceNumber` gives is one that `validateSequenceNumber` accepts.
get_next_sequence_number-accepted :
    (session signer : ℕ) (r : ReplayProtection)
    → (validate_sequence_number session signer (get_next_sequence_number session signer r) r).0
      ≡ valid
unfolding validate_sequence_number
get_next_sequence_number-accepted session signer r =
    let beyond : leb_ℤ (get_next_sequence_number session signer r) (last_sequence r session signer)
        ≡ false =
      rw (next-last session signer r) (next-beyond (last_sequence r session signer)) in
    rw beyond refl
