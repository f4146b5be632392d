-- ===== src/MusigSession/Tests.antt =====
-- A session of two signers, run with concrete functions.
use lotus_sdk.Common.{◌≡◌, ◌≢◌, refl, true, some, [], ◌∷◌, length, ◌==◌}
use lotus_sdk.Common.Ints.{pos}
use lotus_sdk.MusigSession.{
  Session, Musig, PublicNonce, AbortReason, Phase, init, nonce_exchange, partial_sig_exchange,
  complete, aborted, Outcome, returned, failed, SessionError, Effect, same_phase, called,
  then_returns, generate_nonces, store_nonces, receive_nonces, receive_nonces_from,
  create_partial_signature, receive_partial_signature, receive_partial_sig_from, store_partial_sig,
  abort_session, clear_secret_nonce, aggregate_nonces, finalize_signature, create_session, collect,
  is_some, signer_at, lookup, has_all_nonces, has_all_partial_signatures, has, my_nonce_not_set,
}
use lotus_sdk.MusigSession.Nonce.{create_partial_signature-once}
use lotus_sdk.MusigSession.Verified.{Consistent, create_session-Consistent}
use lotus_sdk.MusigSession.Steps.{
  generates, receives_nonces, signs, receives_partial_signature, Reaches, starts, steps_on,
}

-- A partial signature is right where it is the message.
abbrev musig : Musig
musig = record {
  nonce_gen = λ key message entropy. some (5 ∷ key, (key, entropy));
  is_valid_nonce = λ public. true;
  nonce_agg = λ all. some (1 ∷ [], 2 ∷ []);
  partial_sign = λ secret key aggregated message. some message;
  partial_verify = λ sig public index aggregated message. some (length sig == length message);
  sig_agg = λ all aggregated message. some (9 ∷ message);
}

abbrev new_session : Session
new_session = create_session ((2 ∷ []) ∷ (3 ∷ []) ∷ []) 0 (7 ∷ [])

-- The nonces of both signers are there.
abbrev with_nonces : Session
with_nonces =
    (receive_nonces musig (generate_nonces musig new_session (4 ∷ []) []).0 (pos 1) ([], [])).0

abbrev signed : Session
signed = (create_partial_signature musig with_nonces (4 ∷ [])).0

abbrev ended : Session
ended = (receive_partial_signature musig signed (pos 1) (8 ∷ [])).0

Reaches-with_nonces : Reaches musig new_session with_nonces
Reaches-with_nonces =
    steps_on (steps_on starts (generates new_session (4 ∷ []) []))
      (receives_nonces (generate_nonces musig new_session (4 ∷ []) []).0 (pos 1) ([], []))

Reaches-ended : Reaches musig new_session ended
Reaches-ended =
    steps_on (steps_on Reaches-with_nonces (signs with_nonces (4 ∷ [])))
      (receives_partial_signature signed (pos 1) (8 ∷ []))

ended_complete : ended.final_signature ≡ some (9 ∷ 7 ∷ [])
unfolding generate_nonces store_nonces receive_nonces receive_nonces_from create_partial_signature
    receive_partial_signature receive_partial_sig_from store_partial_sig aggregate_nonces
    finalize_signature create_session collect lotus_sdk.MusigSession.entry lookup has has_all_nonces
    has_all_partial_signatures signer_at clear_secret_nonce
ended_complete = refl

create_session-Consistent_example : Consistent musig ended
create_session-Consistent_example =
    create_session-Consistent musig ((2 ∷ []) ∷ (3 ∷ []) ∷ []) 0 (7 ∷ []) ended Reaches-ended

create_partial_signature-once_example :
    (create_partial_signature musig ended (6 ∷ [])).1 ≢ returned (7 ∷ [])
unfolding generate_nonces store_nonces receive_nonces receive_nonces_from create_partial_signature
    aggregate_nonces create_session collect lotus_sdk.MusigSession.entry lookup has has_all_nonces
    signer_at clear_secret_nonce
create_partial_signature-once_example =
    create_partial_signature-once musig with_nonces ended (4 ∷ []) (6 ∷ []) (7 ∷ []) (7 ∷ []) refl
      (steps_on starts (receives_partial_signature signed (pos 1) (8 ∷ [])))
