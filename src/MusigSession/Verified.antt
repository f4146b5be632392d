-- ===== src/MusigSession/Verified.antt =====
-- Every partial signature that a session holds was verified, and a complete session has its signature.
use lotus_sdk.Common.{
  ℕ, ◌≡◌, refl, Bool, true, false, not, ◌||◌, Option, none, some, List, [], ◌∷◌, length, ◌==◌, sym,
  All, ap, ◌∙◌,
}
use lotus_sdk.Common.Ints.{ℤ}
use lotus_sdk.ScriptNum.{Buffer}
use lotus_sdk.MusigSession.{
  Session, Musig, PublicNonce, Phase, init, nonce_exchange, partial_sig_exchange, complete, aborted,
  returned, failed, SessionError, Effect, same_phase, called, then_returns, generate_nonces,
  store_nonces, receive_nonces, receive_nonces_from, create_partial_signature,
  receive_partial_signature, receive_partial_sig_from, store_partial_sig, abort_session,
  clear_secret_nonce, aggregate_nonces, finalize_signature, create_session, collect, is_some,
  signer_at, lookup, has_all_nonces, has_all_partial_signatures, has,
}
use lotus_sdk.MusigSession.Effects.{called-left, if-left, guarded-left}
use lotus_sdk.MusigSession.Steps.{
  Step, generates, receives_nonces, signs, receives_partial_signature, aborts, Reaches, starts,
  steps_on,
}

-- The signature was verified with the nonces received from its signer and the aggregated nonce.
abbrev pub IsVerified : Musig → Session → ℕ × Buffer → Type 0
IsVerified musig s (index, sig) =
    (public : PublicNonce) × (lookup index s.received_public_nonces ≡ some public)
    × (musig.partial_verify sig public index s.aggregated_nonce s.message ≡ some true)

abbrev pub before_signing : Phase → Bool
before_signing phase = same_phase phase init || same_phase phase nonce_exchange

pub record Consistent (musig : Musig) (s : Session) : Type 0 where
  pub before : before_signing s.phase ≡ true → s.received_partial_sigs ≡ []
  pub verified : All (IsVerified musig s) s.received_partial_sigs
  pub finished : same_phase s.phase complete ≡ true → is_some s.final_signature ≡ true

-- A session before the exchange of signatures.
abbrev IsEarly : Session → Type 0
IsEarly s = (s.received_partial_sigs ≡ []) × (before_signing s.phase ≡ true)

before_signing-complete : (p : Phase) → before_signing p ≡ true → same_phase p complete ≡ false
before_signing-complete init h = refl
before_signing-complete nonce_exchange h = refl
before_signing-complete partial_sig_exchange h = cc
before_signing-complete complete h = cc
before_signing-complete aborted h = cc

not_before-partial :
    (p : Phase) → not (same_phase p partial_sig_exchange) ≡ false → p ≡ partial_sig_exchange
not_before-partial partial_sig_exchange h = refl
not_before-partial init h = cc
not_before-partial nonce_exchange h = cc
not_before-partial complete h = cc
not_before-partial aborted h = cc

IsEarly-Consistent : (musig : Musig) (s : Session) → IsEarly s → Consistent musig s
IsEarly-Consistent musig s h = record {
  before = λ b. h.0;
  verified = none-verified s.received_partial_sigs h.0;
  finished = λ c. absurd (true-ne-false (sym c ∙ before_signing-complete s.phase h.1));
}
  where
    none-verified : (sigs : List (ℕ × Buffer)) → sigs ≡ [] → All (IsVerified musig s) sigs
    none-verified sigs e = rw e tt

    true-ne-false : true ≡ false → ⊥
    true-ne-false q = cc

aggregate_nonces-IsEarly :
    (musig : Musig) (s : Session) → IsEarly s → IsEarly (aggregate_nonces musig s).0
unfolding aggregate_nonces
aggregate_nonces-IsEarly musig s h = called-left IsEarly s _ s.my_public_nonce _ h λ mine.
    called-left IsEarly s _ (collect s.my_index mine s.received_public_nonces 0 (length s.signers))
      _ h λ all. called-left IsEarly s _ (musig.nonce_agg all) _ h λ a. h

then_returns-left {κ} :
    {Value : Type κ} (v : Value) (e : Effect (Unit {0})) → (then_returns v e).0 ≡ e.0
then_returns-left v (s, returned u) = refl
then_returns-left v (s, failed e) = refl

store_nonces-IsEarly :
    (musig : Musig) (s : Session) (secret : Buffer) (public : PublicNonce)
    → IsEarly s
    → IsEarly (store_nonces musig s secret public).0
unfolding store_nonces
store_nonces-IsEarly musig s secret public h =
    let stored = record s {
      my_secret_nonce = some secret;
      my_public_nonce = some public;
      phase = nonce_exchange;
    } in
    if-left IsEarly (has_all_nonces stored) _ _
      (rw (then_returns-left public (aggregate_nonces musig stored))
        (aggregate_nonces-IsEarly musig stored (h.0, refl)))
      (h.0, refl)

init-before : (p : Phase) → not (same_phase p init) ≡ false → before_signing p ≡ true
init-before init h = refl
init-before nonce_exchange h = cc
init-before partial_sig_exchange h = cc
init-before complete h = cc
init-before aborted h = cc

receivable-before :
    (p : Phase)
    → not (same_phase p nonce_exchange || same_phase p init) ≡ false
    → before_signing p ≡ true
receivable-before init h = refl
receivable-before nonce_exchange h = refl
receivable-before partial_sig_exchange h = cc
receivable-before complete h = cc
receivable-before aborted h = cc

generate_nonces-Consistent :
    (musig : Musig) (s : Session) (key entropy : Buffer)
    → Consistent musig s
    → Consistent musig (generate_nonces musig s key entropy).0
unfolding generate_nonces
generate_nonces-Consistent musig s key entropy h =
    guarded-left (Consistent musig) (not (same_phase s.phase init)) _ _ h λ p.
      if-left (Consistent musig) (is_some s.my_secret_nonce || is_some s.my_public_nonce) _ _ h (
        called-left (Consistent musig) s _ (musig.nonce_gen key s.message entropy) _ h λ nonce.
          IsEarly-Consistent musig _ (
            store_nonces-IsEarly musig s nonce.0 nonce.1
              (h.before (init-before s.phase p), init-before s.phase p)))

receive_nonces-Consistent :
    (musig : Musig) (s : Session) (index : ℤ) (public : PublicNonce)
    → Consistent musig s
    → Consistent musig (receive_nonces musig s index public).0
unfolding receive_nonces receive_nonces_from
receive_nonces-Consistent musig s index public h =
    guarded-left (Consistent musig)
      (not (same_phase s.phase nonce_exchange || same_phase s.phase init)) _ _ h
      λ p. called-left (Consistent musig) s _ (signer_at index s.signers) _ h λ i.
        let stored = record s { received_public_nonces = (i, public) ∷ s.received_public_nonces } in
        let early : IsEarly stored =
          (h.before (receivable-before s.phase p), receivable-before s.phase p) in
        if-left (Consistent musig) (i == s.my_index) _ _ h (
          if-left (Consistent musig) (has i s.received_public_nonces) _ _ h (
            if-left (Consistent musig) (not (musig.is_valid_nonce public)) _ _ h (
              if-left (Consistent musig) (has_all_nonces stored) _ _
                (IsEarly-Consistent musig _ (aggregate_nonces-IsEarly musig stored early))
                (IsEarly-Consistent musig stored early))))

create_partial_signature-Consistent :
    (musig : Musig) (s : Session) (key : Buffer)
    → Consistent musig s
    → Consistent musig (create_partial_signature musig s key).0
unfolding create_partial_signature clear_secret_nonce
create_partial_signature-Consistent musig s key h =
    called-left (Consistent musig) s _ s.aggregated_nonce _ h λ a.
      called-left (Consistent musig) s _ s.my_secret_nonce _ h λ secret.
        if-left (Consistent musig)
          (not (same_phase s.phase nonce_exchange || same_phase s.phase partial_sig_exchange)) _ _ h
          (called-left (Consistent musig) s _ (musig.partial_sign secret key a s.message) _ h
            λ sig. record { before = λ q. cc; verified = h.verified; finished = λ q. cc })

finalize_signature-Consistent :
    (musig : Musig) (s : Session)
    → Consistent musig s
    → Consistent musig (finalize_signature musig s).0
unfolding finalize_signature
finalize_signature-Consistent musig s h =
    called-left (Consistent musig) s _ s.my_partial_sig _ h λ mine.
      called-left (Consistent musig) s _ s.aggregated_nonce _ h λ a.
        called-left (Consistent musig) s _
          (collect s.my_index mine s.received_partial_sigs 0 (length s.signers)) _ h
          λ all.
            called-left (Consistent musig) s _ (musig.sig_agg all a s.message) _ h
              λ f. record { before = λ q. cc; verified = h.verified; finished = λ q. refl }

store_partial_sig-Consistent :
    (musig : Musig) (s : Session) (i : ℕ) (sig : Buffer) (valid : Bool) (public : PublicNonce)
    → s.phase ≡ partial_sig_exchange
    → lookup i s.received_public_nonces ≡ some public
    → musig.partial_verify sig public i s.aggregated_nonce s.message ≡ some valid
    → Consistent musig s
    → Consistent musig (store_partial_sig musig s i sig valid).0
unfolding store_partial_sig abort_session clear_secret_nonce
store_partial_sig-Consistent musig s i sig false public p l v h = record {
  before = λ q. cc;
  verified = h.verified;
  finished = λ q. cc;
}
store_partial_sig-Consistent musig s i sig true public p l v h =
    let stored = record s { received_partial_sigs = (i, sig) ∷ s.received_partial_sigs } in
    let fits : Consistent musig stored = record {
      before = λ q. absurd (not-before (ap before_signing p) q);
      verified = ((public, l, v), h.verified);
      finished = h.finished;
    } in
    if-left (Consistent musig) (has_all_partial_signatures stored) _ _
      (finalize_signature-Consistent musig stored fits) fits
  where
    not-before : before_signing s.phase ≡ false → before_signing s.phase ≡ true → ⊥
    not-before a b = cc

called-knows {κ} :
    {Value Other : Type κ} (P : Session → Type 0) (s : Session) (e : SessionError)
    (o : Option Value) (go : Value → Effect Other)
    → P s
    → ((v : Value) → o ≡ some v → P (go v).0)
    → P (called s e o go).0
called-knows P s e none go h k = h
called-knows P s e (some v) go h k = k v refl

receive_partial_signature-Consistent :
    (musig : Musig) (s : Session) (index : ℤ) (sig : Buffer)
    → Consistent musig s
    → Consistent musig (receive_partial_signature musig s index sig).0
unfolding receive_partial_signature receive_partial_sig_from
receive_partial_signature-Consistent musig s index sig h =
    guarded-left (Consistent musig) (not (same_phase s.phase partial_sig_exchange)) _ _ h λ p.
      called-left (Consistent musig) s _ (signer_at index s.signers) _ h λ i.
        if-left (Consistent musig) (i == s.my_index) _ _ h (
          if-left (Consistent musig) (has i s.received_partial_sigs) _ _ h (
            called-knows (Consistent musig) s _ (lookup i s.received_public_nonces) _ h λ public l.
              called-knows (Consistent musig) s _
                (musig.partial_verify sig public i s.aggregated_nonce s.message) _ h
                λ valid v.
                  store_partial_sig-Consistent musig s i sig valid public
                    (not_before-partial s.phase p) l v h))

-- Every call of an operation, whether it returns or throws, keeps a session consistent: no partial
-- signatures are held before the exchange of signatures, each one held was verified, and a complete
-- session has its signature.
Step-Consistent :
    (musig : Musig) {s t : Session} → Step musig s t → Consistent musig s → Consistent musig t
unfolding abort_session clear_secret_nonce
Step-Consistent musig (generates s key entropy) h = generate_nonces-Consistent musig s key entropy h
Step-Consistent musig (receives_nonces s index public) h =
    receive_nonces-Consistent musig s index public h
Step-Consistent musig (signs s key) h = create_partial_signature-Consistent musig s key h
Step-Consistent musig (receives_partial_signature s index sig) h =
    receive_partial_signature-Consistent musig s index sig h
Step-Consistent musig (aborts s reason) h = record {
  before = λ q. cc;
  verified = h.verified;
  finished = λ q. cc;
}

Reaches-Consistent :
    (musig : Musig) (s t : Session) → Reaches musig s t → Consistent musig s → Consistent musig t
Reaches-Consistent musig s t starts h = h
Reaches-Consistent musig s t (steps_on {t = u} r e) h =
    Step-Consistent musig e (Reaches-Consistent musig s u r h)

-- In every session that a new one runs into, each received partial signature was verified with the
-- nonces received from its signer and with the aggregated nonce, and a complete session has its
-- final signature.
pub create_session-Consistent :
    (musig : Musig) (signers : List Buffer) (my_index : ℕ) (message : Buffer) (t : Session)
    → Reaches musig (create_session signers my_index message) t
    → Consistent musig t
unfolding create_session
create_session-Consistent musig signers my_index message t r =
    Reaches-Consistent musig (create_session signers my_index message) t r
      (IsEarly-Consistent musig (create_session signers my_index message) (refl, refl))
