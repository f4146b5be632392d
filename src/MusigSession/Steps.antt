-- ===== src/MusigSession/Steps.antt =====
-- The steps of a signing session: every call of an operation, whether it returns or throws.
use lotus_sdk.Common.Ints.{ℤ}
use lotus_sdk.ScriptNum.{Buffer}
use lotus_sdk.MusigSession.{
  Session, Musig, PublicNonce, AbortReason, generate_nonces, receive_nonces,
  create_partial_signature, receive_partial_signature, abort_session,
}

pub data Step (musig : Musig) : Session → Session → Type 0 where
  generates :
      (s : Session) (private_key entropy : Buffer)
      → Step musig s (generate_nonces musig s private_key entropy).0
  receives_nonces :
      (s : Session) (index : ℤ) (public : PublicNonce)
      → Step musig s (receive_nonces musig s index public).0
  signs :
      (s : Session) (private_key : Buffer)
      → Step musig s (create_partial_signature musig s private_key).0
  receives_partial_signature :
      (s : Session) (index : ℤ) (sig : Buffer)
      → Step musig s (receive_partial_signature musig s index sig).0
  aborts : (s : Session) (reason : AbortReason) → Step musig s (abort_session s reason)

-- A run of any number of steps.
pub data Reaches (musig : Musig) (s : Session) : Session → Type 0 where
  starts : Reaches musig s s
  steps_on : {t u : Session} → Reaches musig s t → Step musig t u → Reaches musig s u
