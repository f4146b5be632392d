-- ===== src/ReplayProtection.antt =====
-- The replay protection of MuSig2 messages (lib/p2p/musig2/replay-protection.ts). `Date.now()` is
-- an argument of the operations that read it. Session and message identifiers are numbers, since
-- they are only compared; the timer that calls `cleanup` is not modelled.
pub mod Fresh
pub mod Past
pub mod Sequences
pub mod Bounds
pub mod Tests
use lotus_sdk.Common.{
  ℕ, ◌-◌, ◌*◌, Bool, not, ◌&&◌, Option, none, some, List, [], ◌∷◌, length, take, ltb, leb, ◌==◌,
  if◌then◌else◌,
}
use lotus_sdk.Common.Ints.{ℤ, pos, negsuc, ◌+ℤ◌, leb_ℤ}
use lotus_sdk.Common.Assoc
use lotus_sdk.Common.Assoc.{get, has_key, put, remove, keep}

-- `evicted` is `Math.ceil(maxSeenMessages * 0.1)`, a product of doubles.
pub record Config : Type 0 where
  pub max_message_age : ℕ
  pub max_seen_messages : ℕ
  pub evicted : ℕ
  pub enable_sequence_validation : Bool

pub record ReplayProtection : Type 0 where
  pub seen_messages : List (ℕ × ℕ)
  pub session_sequences : List (ℕ × List (ℕ × ℤ))

-- `timestamp` is 0 where the message has none, and `message_id` is `none` where it has none or the
-- empty string: the code tests both for being truthy.
pub record Message : Type 0 where
  pub timestamp : ℕ
  pub message_id : Option ℕ

-- The last three arguments of `validateMessage`.
pub record Origin : Type 0 where
  pub session_id : Option ℕ
  pub signer_index : Option ℕ
  pub sequence_number : Option ℤ

pub data Verdict : Type 0 where
  valid : Verdict
  timestamp_out_of_range : Verdict
  duplicate_message_id : Verdict
  sequence_number_not_increasing : Verdict

-- `Math.abs(now - timestamp)`
abbrev pub age : ℕ → ℕ → ℕ
age now timestamp = if ltb now timestamp then timestamp - now else now - timestamp

-- `map.get(key) ?? fallback`
unfoldable pub or_else {ℓ} : {A : Type ℓ} → Option A → A → A
or_else none fallback = fallback
or_else (some a) fallback = a

-- `sessionSeqs.get(signerIndex) ?? -1`, where a session without entries has no number either.
unfoldable pub last_sequence : ReplayProtection → ℕ → ℕ → ℤ
last_sequence r session_id signer_index =
    or_else (get (or_else (get r.session_sequences session_id) []) signer_index) (negsuc 0)

abbrev pub with_sequences : ReplayProtection → List (ℕ × List (ℕ × ℤ)) → ReplayProtection
with_sequences r sequences = record {
  seen_messages = r.seen_messages;
  session_sequences = sequences;
}

-- The map of the session is made where there is none, whether the number is accepted or not.
unfoldable pub validate_sequence_number : ℕ → ℕ → ℤ → ReplayProtection → Verdict × ReplayProtection
validate_sequence_number session_id signer_index sequence_number r =
    let session_seqs = or_else (get r.session_sequences session_id) [] in
    if leb_ℤ sequence_number (last_sequence r session_id signer_index)
    then (
      sequence_number_not_increasing,
      with_sequences r (put r.session_sequences session_id session_seqs),
    )
    else (
      valid,
      with_sequences r
          (put r.session_sequences session_id (put session_seqs signer_index sequence_number)),
    )

-- `sort((a, b) => a[1] - b[1])`, which is stable.
unfoldable pub insert_by_time : ℕ × ℕ → List (ℕ × ℕ) → List (ℕ × ℕ)
insert_by_time entry [] = entry ∷ []
insert_by_time entry (other ∷ entries) =
    let rest = insert_by_time entry entries in
    if leb entry.1 other.1 then entry ∷ other ∷ entries else other ∷ rest

unfoldable pub sort_by_time : List (ℕ × ℕ) → List (ℕ × ℕ)
sort_by_time [] = []
sort_by_time (entry ∷ entries) = insert_by_time entry (sort_by_time entries)

-- `delete` of the keys of some entries, one after the other.
unfoldable pub remove_entries : List (ℕ × ℕ) → List (ℕ × ℕ) → List (ℕ × ℕ)
remove_entries [] seen = seen
remove_entries (entry ∷ entries) seen = remove_entries entries (remove seen entry.0)

unfoldable pub make_room : Config → List (ℕ × ℕ) → List (ℕ × ℕ)
make_room config seen =
    if leb config.max_seen_messages (length seen)
    then remove_entries (take config.evicted (sort_by_time seen)) seen
    else seen

unfoldable pub record_message_id : Config → ℕ → ℕ → ReplayProtection → ReplayProtection
record_message_id config message_id timestamp r = record {
  seen_messages = put (make_room config r.seen_messages) message_id timestamp;
  session_sequences = r.session_sequences;
}

-- The three tests for `undefined`.
unfoldable pub check_numbers :
    Option ℕ → Option ℕ → Option ℤ → ReplayProtection → Verdict × ReplayProtection
check_numbers (some session_id) (some signer_index) (some sequence_number) r =
    validate_sequence_number session_id signer_index sequence_number r
check_numbers _ _ _ r = (valid, r)

-- The third check of `validateMessage`.
unfoldable pub check_sequence_number :
    Config → Origin → ReplayProtection → Verdict × ReplayProtection
check_sequence_number config origin r =
    if config.enable_sequence_validation
    then check_numbers origin.session_id origin.signer_index origin.sequence_number r
    else (valid, r)

-- The second and the third check.
unfoldable pub check_message_id :
    Config → ℕ → Option ℕ → Origin → ReplayProtection → Verdict × ReplayProtection
check_message_id config now none origin r = check_sequence_number config origin r
check_message_id config now (some message_id) origin r =
    if has_key r.seen_messages message_id
    then (duplicate_message_id, r)
    else check_sequence_number config origin (record_message_id config message_id now r)

unfoldable pub validate_message :
    Config → ℕ → Message → Origin → ReplayProtection → Verdict × ReplayProtection
validate_message config now message origin r =
    if not (message.timestamp == 0) && ltb config.max_message_age (age now message.timestamp)
    then (timestamp_out_of_range, r)
    else check_message_id config now message.message_id origin r

unfoldable pub next_in : Option (List (ℕ × ℤ)) → ℕ → ℤ
next_in none signer_index = pos 0
next_in (some session_seqs) signer_index =
    or_else (get session_seqs signer_index) (negsuc 0) +ℤ pos 1

unfoldable pub get_next_sequence_number : ℕ → ℕ → ReplayProtection → ℤ
get_next_sequence_number session_id signer_index r =
    next_in (get r.session_sequences session_id) signer_index

unfoldable pub clear_session : ℕ → ReplayProtection → ReplayProtection
clear_session session_id r = with_sequences r (remove r.session_sequences session_id)

-- `now - timestamp > maxAge` fails for a timestamp in the future, as it does with the difference 0.
unfoldable pub cleanup : Config → ℕ → ReplayProtection → ReplayProtection
cleanup config now r =
    let max_age = config.max_message_age * 2 in
    record {
      seen_messages = keep (λ entry. not (ltb max_age (now - entry.1))) r.seen_messages;
      session_sequences = r.session_sequences;
    }

unfoldable pub clear : ReplayProtection → ReplayProtection
clear r = record { seen_messages = []; session_sequences = [] }

-- What happens to the object, with the time at which it does.
pub data Event : Type 0 where
  message_at : ℕ → Message → Origin → Event
  cleanup_at : ℕ → Event
  clear_session_at : ℕ → ℕ → Event
  clear_at : ℕ → Event

abbrev pub time_of : Event → ℕ
time_of (message_at now message origin) = now
time_of (cleanup_at now) = now
time_of (clear_session_at now session_id) = now
time_of (clear_at now) = now

unfoldable pub after_event : Config → Event → ReplayProtection → ReplayProtection
after_event config (message_at now message origin) r =
    (validate_message config now message origin r).1
after_event config (cleanup_at now) r = cleanup config now r
after_event config (clear_session_at now session_id) r = clear_session session_id r
after_event config (clear_at now) r = clear r

unfoldable pub after_events : Config → List Event → ReplayProtection → ReplayProtection
after_events config [] r = r
after_events config (e ∷ events) r = after_events config events (after_event config e r)
