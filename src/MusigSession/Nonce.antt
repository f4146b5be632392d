-- ===== src/MusigSession/Nonce.antt =====
-- The secret nonce of a session signs at most once.
use lotus_sdk.Common.{
  ℕ, ◌≡◌, ◌≢◌, refl, Bool, true, false, not, ◌||◌, none, ◌∷◌, length, ◌==◌, Option-cases, inl, inr,
}
use lotus_sdk.Common.Ints.{ℤ}
use lotus_sdk.ScriptNum.{Buffer}
use lotus_sdk.MusigSession.{
  Session, Musig, PublicNonce, init, nonce_exchange, partial_sig_exchange, returned, same_phase,
  generate_nonces, receive_nonces, receive_nonces_from, create_partial_signature,
  receive_partial_signature, receive_partial_sig_from, store_partial_sig, abort_session,
  clear_secret_nonce, aggregate_nonces, finalize_signature, collect, signer_at, lookup,
  has_all_nonces, has_all_partial_signatures, has,
}
use lotus_sdk.MusigSession.Effects.{called-left, if-left, called-returned, guarded-returned}
use lotus_sdk.MusigSession.Steps.{
  Step, generates, receives_nonces, signs, receives_partial_signature, aborts, Reaches, starts,
  steps_on,
}

-- The nonces were generated, and the secret one is gone.
abbrev pub IsSpent : Session → Type 0
IsSpent s = (s.my_secret_nonce ≡ none) × (same_phase s.phase init ≡ false)

aggregate_nonces-IsSpent :
    (musig : Musig) (s : Session) → IsSpent s → IsSpent (aggregate_nonces musig s).0
unfolding aggregate_nonces
aggregate_nonces-IsSpent musig s h = called-left IsSpent s _ s.my_public_nonce _ h λ mine.
    called-left IsSpent s _ (collect s.my_index mine s.received_public_nonces 0 (length s.signers))
      _ h λ all. called-left IsSpent s _ (musig.nonce_agg all) _ h λ a. h

finalize_signature-IsSpent :
    (musig : Musig) (s : Session) → IsSpent s → IsSpent (finalize_signature musig s).0
unfolding finalize_signature
finalize_signature-IsSpent musig s h = called-left IsSpent s _ s.my_partial_sig _ h λ mine.
    called-left IsSpent s _ s.aggregated_nonce _ h λ a.
      called-left IsSpent s _ (collect s.my_index mine s.received_partial_sigs 0 (length s.signers))
        _ h λ all. called-left IsSpent s _ (musig.sig_agg all a s.message) _ h λ f. (h.0, refl)

generate_nonces-IsSpent :
    (musig : Musig) (s : Session) (key entropy : Buffer)
    → IsSpent s
    → IsSpent (generate_nonces musig s key entropy).0
unfolding generate_nonces
generate_nonces-IsSpent musig s key entropy h = rw h.1 h

receive_nonces-IsSpent :
    (musig : Musig) (s : Session) (index : ℤ) (public : PublicNonce)
    → IsSpent s
    → IsSpent (receive_nonces musig s index public).0
unfolding receive_nonces receive_nonces_from
receive_nonces-IsSpent musig s index public h =
    if-left IsSpent (not (same_phase s.phase nonce_exchange || same_phase s.phase init)) _ _ h (
      called-left IsSpent s _ (signer_at index s.signers) _ h λ i.
        let stored = record s { received_public_nonces = (i, public) ∷ s.received_public_nonces } in
        if-left IsSpent (i == s.my_index) _ _ h (
          if-left IsSpent (has i s.received_public_nonces) _ _ h (
            if-left IsSpent (not (musig.is_valid_nonce public)) _ _ h (
              if-left IsSpent (has_all_nonces stored) _ _ (aggregate_nonces-IsSpent musig stored h)
                h))))

-- Without a secret nonce nothing is signed.
create_partial_signature-none :
    (musig : Musig) (s : Session) (key sig : Buffer)
    → s.my_secret_nonce ≡ none
    → (create_partial_signature musig s key).1 ≢ returned sig
unfolding create_partial_signature
create_partial_signature-none musig s key sig h = elim (Option-cases s.aggregated_nonce) [
  | inl e ↦ rw e (λ q. cc)
  | inr (a, e) ↦ rw (e, h) (λ q. cc)
]

create_partial_signature-IsSpent :
    (musig : Musig) (s : Session) (key : Buffer)
    → IsSpent s
    → IsSpent (create_partial_signature musig s key).0
unfolding create_partial_signature clear_secret_nonce
create_partial_signature-IsSpent musig s key h = called-left IsSpent s _ s.aggregated_nonce _ h λ a.
    called-left IsSpent s _ s.my_secret_nonce _ h λ secret.
      if-left IsSpent
        (not (same_phase s.phase nonce_exchange || same_phase s.phase partial_sig_exchange)) _ _ h
        (called-left IsSpent s _ (musig.partial_sign secret key a s.message) _ h
          λ sig. (refl, refl))

store_partial_sig-IsSpent :
    (musig : Musig) (s : Session) (i : ℕ) (sig : Buffer) (valid : Bool)
    → IsSpent s
    → IsSpent (store_partial_sig musig s i sig valid).0
unfolding store_partial_sig abort_session clear_secret_nonce
store_partial_sig-IsSpent musig s i sig false h = (refl, refl)
store_partial_sig-IsSpent musig s i sig true h =
    let stored = record s { received_partial_sigs = (i, sig) ∷ s.received_partial_sigs } in
    if-left IsSpent (has_all_partial_signatures stored) _ _
      (finalize_signature-IsSpent musig stored h) h

receive_partial_signature-IsSpent :
    (musig : Musig) (s : Session) (index : ℤ) (sig : Buffer)
    → IsSpent s
    → IsSpent (receive_partial_signature musig s index sig).0
unfolding receive_partial_signature receive_partial_sig_from
receive_partial_signature-IsSpent musig s index sig h =
    if-left IsSpent (not (same_phase s.phase partial_sig_exchange)) _ _ h (
      called-left IsSpent s _ (signer_at index s.signers) _ h λ i.
        if-left IsSpent (i == s.my_index) _ _ h (
          if-left IsSpent (has i s.received_partial_sigs) _ _ h (
            called-left IsSpent s _ (lookup i s.received_public_nonces) _ h λ public.
              called-left IsSpent s _
                (musig.partial_verify sig public i s.aggregated_nonce s.message) _ h
                λ valid. stores i valid)))
  where
    stores : (i : ℕ) (valid : Bool) → IsSpent (store_partial_sig musig s i sig valid).0
    stores i valid = store_partial_sig-IsSpent musig s i sig valid h

-- Every step of a session that is spent leaves it spent.
Step-IsSpent : {musig : Musig} {s t : Session} → Step musig s t → IsSpent s → IsSpent t
unfolding abort_session clear_secret_nonce
Step-IsSpent {musig} (generates s key entropy) h = generate_nonces-IsSpent musig s key entropy h
Step-IsSpent {musig} (receives_nonces s index public) h =
    receive_nonces-IsSpent musig s index public h
Step-IsSpent {musig} (signs s key) h = create_partial_signature-IsSpent musig s key h
Step-IsSpent {musig} (receives_partial_signature s index sig) h =
    receive_partial_signature-IsSpent musig s index sig h
Step-IsSpent (aborts s reason) h = (refl, refl)

Reaches-IsSpent : {musig : Musig} {s t : Session} → Reaches musig s t → IsSpent s → IsSpent t
Reaches-IsSpent starts h = h
Reaches-IsSpent (steps_on r e) h = Step-IsSpent e (Reaches-IsSpent r h)

-- A call that signs spends the session.
create_partial_signature-spends :
    (musig : Musig) (s : Session) (key sig : Buffer)
    → (create_partial_signature musig s key).1 ≡ returned sig
    → IsSpent (create_partial_signature musig s key).0
unfolding create_partial_signature clear_secret_nonce
create_partial_signature-spends musig s key sig h =
    called-returned IsSpent s _ s.aggregated_nonce _
      (λ a. called-returned IsSpent s _ s.my_secret_nonce _ (λ secret.
        guarded-returned IsSpent s _
          (not (same_phase s.phase nonce_exchange || same_phase s.phase partial_sig_exchange)) _
          (called-returned IsSpent s _ (musig.partial_sign secret key a s.message) _
            (λ sig q. (refl, refl)))))
      h

-- Once a partial signature was created, no call in the rest of the session creates another one, with
-- whatever key: the secret nonce is not used twice.
pub create_partial_signature-once :
    (musig : Musig) (s t : Session) (key key' sig sig' : Buffer)
    → (create_partial_signature musig s key).1 ≡ returned sig
    → Reaches musig (create_partial_signature musig s key).0 t
    → (create_partial_signature musig t key').1 ≢ returned sig'
create_partial_signature-once musig s t key key' sig sig' h r =
    create_partial_signature-none musig t key' sig'
      (Reaches-IsSpent r (create_partial_signature-spends musig s key sig h)).0
