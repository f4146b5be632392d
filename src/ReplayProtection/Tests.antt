-- ===== src/ReplayProtection/Tests.antt =====
-- A message that comes twice.
use lotus_sdk.Common.{◌≡◌, ◌≢◌, refl, true, none, some, [], ◌∷◌, arith}
use lotus_sdk.Common.Ints.{pos, ltb_ℤ}
use lotus_sdk.Common.Assoc.{get, has_key, put, remove, keep}
use lotus_sdk.ReplayProtection.{
  Config, ReplayProtection, Message, Origin, valid, or_else, last_sequence,
  validate_sequence_number, make_room, remove_entries, sort_by_time, insert_by_time,
  record_message_id, check_numbers, check_sequence_number, check_message_id, validate_message,
  cleanup, clear_session, message_at, cleanup_at, clear_session_at, after_event, after_events,
}
use lotus_sdk.ReplayProtection.Fresh.{Quiet, accepted-once}
use lotus_sdk.ReplayProtection.Sequences.{numbered, sequence_numbers_increase}
use lotus_sdk.ReplayProtection.Bounds.{IsBounded, after_events-IsBounded}

abbrev config : Config
config = record {
  max_message_age = 100;
  max_seen_messages = 2;
  evicted = 1;
  enable_sequence_validation = true;
}

abbrev fresh : ReplayProtection
fresh = record { seen_messages = []; session_sequences = [] }

abbrev share : Message
share = record { timestamp = 1000; message_id = some 5 }

abbrev reply : Message
reply = record { timestamp = 1090; message_id = some 6 }

abbrev anonymous : Origin
anonymous = record { session_id = none; signer_index = none; sequence_number = none }

share-accepted : (validate_message config 1010 share (numbered 1 2 (pos 0)) fresh).0 ≡ valid
unfolding validate_message check_message_id has_key check_sequence_number check_numbers
    validate_sequence_number last_sequence or_else get record_message_id
share-accepted = refl

share-Quiet :
    Quiet config 1010
      (cleanup_at 1050 ∷ clear_session_at 1100 1 ∷ [])
      (validate_message config 1010 share (numbered 1 2 (pos 0)) fresh).1
unfolding validate_message check_message_id has_key check_sequence_number check_numbers
    validate_sequence_number last_sequence or_else get record_message_id make_room put after_event
    cleanup keep clear_session
share-Quiet = (omega arith, tt, omega arith, (omega arith, tt, omega arith, tt))

accepted-once_example :
    (validate_message config 1105 share anonymous (
      after_events config
        (cleanup_at 1050 ∷ clear_session_at 1100 1 ∷ [])
        (validate_message config 1010 share (numbered 1 2 (pos 0)) fresh).1)).0
    ≢ valid
accepted-once_example =
    accepted-once config 1010 1105 5 share (numbered 1 2 (pos 0)) anonymous
      (cleanup_at 1050 ∷ clear_session_at 1100 1 ∷ []) fresh refl (omega arith) share-accepted
      share-Quiet (omega arith)

reply-accepted :
    (validate_message config 1095 reply (numbered 1 2 (pos 1)) (
      after_events config
        (cleanup_at 1050 ∷ [])
        (validate_message config 1010 share (numbered 1 2 (pos 0)) fresh).1)).0
    ≡ valid
unfolding validate_message check_message_id has_key check_sequence_number check_numbers
    validate_sequence_number last_sequence or_else get record_message_id make_room put after_event
    after_events cleanup keep
reply-accepted = refl

sequence_numbers_increase_example : ltb_ℤ (pos 0) (pos 1) ≡ true
sequence_numbers_increase_example =
    sequence_numbers_increase config 1 2 (pos 0) (pos 1) 1010 1095 share reply
      (cleanup_at 1050 ∷ []) fresh refl share-accepted (tt, tt) reply-accepted

after_events-IsBounded_example : IsBounded config (
    after_events config
      (message_at 1010 share anonymous ∷ message_at 1095 reply anonymous ∷ cleanup_at 1300 ∷ [])
      fresh)
after_events-IsBounded_example =
    after_events-IsBounded config
      (message_at 1010 share anonymous ∷ message_at 1095 reply anonymous ∷ cleanup_at 1300 ∷ [])
      fresh (omega arith) (omega arith) (omega arith)

-- A full store gives up its oldest entry.
oldest_evicted :
    (record_message_id config 7 1200
      (record { seen_messages = (5, 1100) ∷ (6, 1095) ∷ []; session_sequences = [] })).seen_messages
    ≡ (5, 1100) ∷ (7, 1200) ∷ []
unfolding record_message_id make_room remove_entries sort_by_time insert_by_time put remove
oldest_evicted = refl
