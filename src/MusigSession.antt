-- ===== src/MusigSession.antt =====
-- The manager of MuSig2 signing sessions (lib/bitcore/musig2/session.ts): the two rounds of a session,
-- its error paths, and the secret nonce. An operation returns the session as it leaves it, also where
-- it throws. The times of a session are left out: nothing reads them.
pub mod Steps
pub mod Effects
pub mod Nonce
pub mod Verified
pub mod Tests
use lotus_sdk.Common.{
  ℕ, zero, suc, ◌+◌, Bool, true, false, not, ◌||◌, Option, none, some, List, [], ◌∷◌, length, ltb,
  ◌==◌, if◌then◌else◌,
}
use lotus_sdk.Common.Ints.{ℤ, pos, negsuc}
use lotus_sdk.ScriptNum.{Buffer}

pub data Phase : Type 0 where
  init nonce_exchange partial_sig_exchange complete aborted : Phase

-- Points and numbers of the curve are their bytes.
abbrev pub PublicNonce : Type 0
PublicNonce = Buffer × Buffer

-- The reason of an abortion: the text of `receivePartialSignature` for a signer, or a given one.
pub data AbortReason : Type 0 where
  invalid_partial_sig_from : ℕ → AbortReason
  given : Buffer → AbortReason

-- `Map`s are lists of pairs with the newest first.
pub record Session : Type 0 where
  pub signers : List Buffer
  pub my_index : ℕ
  pub message : Buffer
  pub my_secret_nonce : Option Buffer
  pub my_public_nonce : Option PublicNonce
  pub received_public_nonces : List (ℕ × PublicNonce)
  pub aggregated_nonce : Option PublicNonce
  pub my_partial_sig : Option Buffer
  pub received_partial_sigs : List (ℕ × Buffer)
  pub final_signature : Option Buffer
  pub phase : Phase
  pub abort_reason : Option AbortReason

-- The functions of crypto/musig2.ts and taproot/musig2.ts at the key aggregation context and the
-- metadata of the session. `none` is a call that throws.
pub record Musig : Type 0 where
  -- `musigNonceGen(privateKey, …, entropy)`: the secret and the public nonces
  pub nonce_gen : Buffer → Buffer → Buffer → Option (Buffer × PublicNonce)
  -- `validate()` of both points
  pub is_valid_nonce : PublicNonce → Bool
  pub nonce_agg : List PublicNonce → Option PublicNonce
  -- secret nonce, private key, aggregated nonce, message
  pub partial_sign : Buffer → Buffer → PublicNonce → Buffer → Option Buffer
  -- partial signature, public nonce, signer index, aggregated nonce (`undefined` is `none`), message
  pub partial_verify : Buffer → PublicNonce → ℕ → Option PublicNonce → Buffer → Option Bool
  pub sig_agg : List Buffer → PublicNonce → Buffer → Option Buffer

pub data SessionError : Type 0 where
  wrong_phase nonces_already_generated invalid_signer_index from_self already_received :
      SessionError
  invalid_public_nonce my_nonce_not_set missing_nonce nonces_not_aggregated : SessionError
  secret_nonce_not_found no_public_nonce invalid_partial_signature my_partial_sig_not_set :
      SessionError
  missing_partial_signature final_signature_not_found call_failed : SessionError

pub data Outcome {κ} (Value : Type κ) : Type κ where
  returned : Value → Outcome Value
  failed : SessionError → Outcome Value

-- What an operation does: the session that it leaves, and its outcome.
abbrev pub Effect {κ} : Type κ → Type κ
Effect Value = Session × Outcome Value

abbrev pub same_phase : Phase → Phase → Bool
same_phase init init = true
same_phase nonce_exchange nonce_exchange = true
same_phase partial_sig_exchange partial_sig_exchange = true
same_phase complete complete = true
same_phase aborted aborted = true
same_phase _ _ = false

-- `Map.get`
unfoldable pub lookup {κ} : {Value : Type κ} → ℕ → List (ℕ × Value) → Option Value
lookup index [] = none
lookup index ((key, value) ∷ entries) = if key == index then some value else lookup index entries

-- `Map.has`
unfoldable pub has {κ} : {Value : Type κ} → ℕ → List (ℕ × Value) → Bool
has index [] = false
has index ((key, value) ∷ entries) = key == index || has index entries

-- `signerIndex < 0 || signerIndex >= session.signers.length`, and the index of a signer else.
unfoldable pub signer_at : ℤ → List Buffer → Option ℕ
signer_at (negsuc n) signers = none
signer_at (pos n) signers = if ltb n (length signers) then some n else none

-- The own value at the own index, and the received one at every other: `none` where one is missing.
unfoldable pub entry {κ} : {Value : Type κ} → ℕ → Value → List (ℕ × Value) → ℕ → Option Value
entry my_index own received index = if index == my_index then some own else lookup index received

-- The loop `for (let i = 0; i < session.signers.length; i++)` of the two aggregations, from `i` on,
-- with the number of the rounds to come.
unfoldable pub collect {κ} :
    {Value : Type κ} → ℕ → Value → List (ℕ × Value) → ℕ → ℕ → Option (List Value)
collect my_index own received i zero = some []
collect my_index own received i (suc rounds) =
    let rest = collect my_index own received (i + 1) rounds in
    elim (entry my_index own received i) [
      | none ↦ none
      | some value ↦ elim rest [ none ↦ none | some values ↦ some (value ∷ values) ]
    ]

unfoldable pub has_all_nonces : Session → Bool
has_all_nonces s = length s.received_public_nonces + 1 == length s.signers

unfoldable pub has_all_partial_signatures : Session → Bool
has_all_partial_signatures s = length s.received_partial_sigs + 1 == length s.signers

-- A call that returns changes the session and gives the value.
abbrev pub called {κ} :
    {Value : Type κ} {Other : Type κ}
    → Session
    → SessionError
    → Option Value
    → (Value → Effect Other)
    → Effect Other
called s error none go = (s, failed error)
called s error (some value) go = go value

-- `_aggregateNonces`
unfoldable pub aggregate_nonces : Musig → Session → Effect (Unit {0})
aggregate_nonces musig s = called s my_nonce_not_set s.my_public_nonce λ mine.
    called s missing_nonce (collect s.my_index mine s.received_public_nonces 0 (length s.signers))
      λ all.
        called s call_failed (musig.nonce_agg all)
          λ aggregated. (record s { aggregated_nonce = some aggregated }, returned tt)

-- `_clearSecretNonce`
unfoldable pub clear_secret_nonce : Session → Session
clear_secret_nonce s = record s { my_secret_nonce = none }

-- `_abortSession`
unfoldable pub abort_session : Session → AbortReason → Session
abort_session s reason =
    clear_secret_nonce (record s { phase = aborted; abort_reason = some reason })

-- `_finalizeSignature`
unfoldable pub finalize_signature : Musig → Session → Effect (Unit {0})
finalize_signature musig s = called s my_partial_sig_not_set s.my_partial_sig λ mine.
    called s nonces_not_aggregated s.aggregated_nonce λ aggregated.
      called s missing_partial_signature
        (collect s.my_index mine s.received_partial_sigs 0 (length s.signers))
        λ all. called s call_failed (musig.sig_agg all aggregated s.message) λ signature.
          (record s { final_signature = some signature; phase = complete }, returned tt)

-- The value is returned where the call before it returned.
abbrev pub then_returns {κ} : {Value : Type κ} → Value → Effect (Unit {0}) → Effect Value
then_returns value (left, returned u) = (left, returned value)
then_returns value (left, failed e) = (left, failed e)

-- `generateNonces` behind its two checks: the nonces are stored before they are aggregated.
unfoldable pub store_nonces : Musig → Session → Buffer → PublicNonce → Effect PublicNonce
store_nonces musig s secret public =
    let stored = record s {
      my_secret_nonce = some secret;
      my_public_nonce = some public;
      phase = nonce_exchange;
    } in
    if has_all_nonces stored
    then then_returns public (aggregate_nonces musig stored)
    else (stored, returned public)

abbrev pub is_some {κ} : {Value : Type κ} → Option Value → Bool
is_some none = false
is_some (some value) = true

-- `entropy` is `extraInput`, or random bytes.
unfoldable pub generate_nonces : Musig → Session → Buffer → Buffer → Effect PublicNonce
generate_nonces musig s private_key entropy =
    if not (same_phase s.phase init)
    then (s, failed wrong_phase)
    else if is_some s.my_secret_nonce || is_some s.my_public_nonce
    then (s, failed nonces_already_generated)
    else called s call_failed (musig.nonce_gen private_key s.message entropy)
        λ nonce. store_nonces musig s nonce.0 nonce.1

-- `receiveNonces` of the nonces of another signer.
unfoldable pub receive_nonces_from : Musig → Session → ℕ → PublicNonce → Effect (Unit {0})
receive_nonces_from musig s index public =
    let stored = record s { received_public_nonces = (index, public) ∷ s.received_public_nonces } in
    if index == s.my_index
    then (s, failed from_self)
    else if has index s.received_public_nonces
    then (s, failed already_received)
    else if not (musig.is_valid_nonce public)
    then (s, failed invalid_public_nonce)
    else if has_all_nonces stored
    then aggregate_nonces musig stored
    else (stored, returned tt)

unfoldable pub receive_nonces : Musig → Session → ℤ → PublicNonce → Effect (Unit {0})
receive_nonces musig s index public =
    if not (same_phase s.phase nonce_exchange || same_phase s.phase init)
    then (s, failed wrong_phase)
    else called s invalid_signer_index (signer_at index s.signers)
        λ i. receive_nonces_from musig s i public

unfoldable pub create_partial_signature : Musig → Session → Buffer → Effect Buffer
create_partial_signature musig s private_key =
    called s nonces_not_aggregated s.aggregated_nonce λ aggregated.
      called s secret_nonce_not_found s.my_secret_nonce λ secret.
        if not (same_phase s.phase nonce_exchange || same_phase s.phase partial_sig_exchange)
        then (s, failed wrong_phase)
        else called s call_failed (musig.partial_sign secret private_key aggregated s.message)
            λ sig. (
              clear_secret_nonce
                  (record s { my_partial_sig = some sig; phase = partial_sig_exchange }),
              returned sig,
            )

-- What `receivePartialSignature` does with the result of the verification.
unfoldable pub store_partial_sig : Musig → Session → ℕ → Buffer → Bool → Effect (Unit {0})
store_partial_sig musig s index sig false =
    (abort_session s (invalid_partial_sig_from index), failed invalid_partial_signature)
store_partial_sig musig s index sig true =
    let stored = record s { received_partial_sigs = (index, sig) ∷ s.received_partial_sigs } in
    if has_all_partial_signatures stored
    then finalize_signature musig stored
    else (stored, returned tt)

-- `receivePartialSignature` of the signature of another signer.
unfoldable pub receive_partial_sig_from : Musig → Session → ℕ → Buffer → Effect (Unit {0})
receive_partial_sig_from musig s index sig =
    if index == s.my_index
    then (s, failed from_self)
    else if has index s.received_partial_sigs
    then (s, failed already_received)
    else called s no_public_nonce (lookup index s.received_public_nonces) λ public.
      called s call_failed (musig.partial_verify sig public index s.aggregated_nonce s.message)
        λ valid. store_partial_sig musig s index sig valid

unfoldable pub receive_partial_signature : Musig → Session → ℤ → Buffer → Effect (Unit {0})
receive_partial_signature musig s index sig =
    if not (same_phase s.phase partial_sig_exchange)
    then (s, failed wrong_phase)
    else called s invalid_signer_index (signer_at index s.signers)
        λ i. receive_partial_sig_from musig s i sig

unfoldable pub get_final_signature : Session → Outcome Buffer
get_final_signature s =
    if not (same_phase s.phase complete) then failed wrong_phase else elim s.final_signature [
      | none ↦ failed final_signature_not_found
      | some signature ↦ returned signature
    ]

-- What `createSession` makes of the sorted keys, the own index among them and the message.
unfoldable pub create_session : List Buffer → ℕ → Buffer → Session
create_session signers my_index message = record {
  signers = signers;
  my_index = my_index;
  message = message;
  my_secret_nonce = none;
  my_public_nonce = none;
  received_public_nonces = [];
  aggregated_nonce = none;
  my_partial_sig = none;
  received_partial_sigs = [];
  final_signature = none;
  phase = init;
  abort_reason = none;
}
