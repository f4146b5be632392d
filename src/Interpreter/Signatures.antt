-- ===== src/Interpreter/Signatures.antt =====
-- The encoding checks, OP_CHECKSIG(VERIFY), OP_CHECKDATASIG(VERIFY) and the hash opcodes.
use lotus_sdk.Common.{
  ℕ, bit_and, Bool, false, not, ◌&&◌, ◌||◌, Option, none, some, List, [], ◌∷◌, length, take, drop,
  get_or, ◌==◌, if◌then◌else◌,
}
use lotus_sdk.ScriptNum.{Buffer}
use lotus_sdk.Errors.{
  ScriptError, invalid_stack_operation, nullfail, checkdatasigverify, checksigverify,
  sig_der_invalid_format, sig_der_high_s, sig_hashtype, illegal_forkid, must_use_forkid, pubkeytype,
  Result, ok, err, throws, ◌>>=◌, ◌>>◌, require, refuse,
}
use lotus_sdk.Script.{Chunk, buffer_chunk, chunk_to_buffer, find_and_delete}
use lotus_sdk.Interpreter.Flags.{
  has_flag, verify_strictenc, verify_dersig, verify_low_s, verify_nullfail, enable_sighash_forkid,
  taproot_key_spend_path,
}
use lotus_sdk.Interpreter.Machine.{Machine, TxView, Env}
use lotus_sdk.Interpreter.Bytes.{bool_buffer}

unfoldable pub is_schnorr_sig : Buffer → Bool
is_schnorr_sig buf = (length buf == 64 || length buf == 65) && not (get_or buf 0 0 == 0x30)

unfoldable pub check_raw_signature_encoding : Env → ℕ → Buffer → Result (Unit {0})
check_raw_signature_encoding env flags buf =
    if length buf == 0
    then ok tt
    else if is_schnorr_sig buf
    then ok tt
    else if (has_flag flags verify_dersig
          || has_flag flags verify_low_s
          || has_flag flags verify_strictenc)
        && not (env.is_der buf)
    then err sig_der_invalid_format
    else if has_flag flags verify_low_s
    then (do low ← env.has_low_s buf; require low sig_der_high_s)
    else ok tt

-- `Signature.SIGHASH_FORKID` is 0x40.
unfoldable pub check_forkid : ℕ → ℕ → Result (Unit {0})
check_forkid flags nhashtype = do
  let asked = has_flag flags enable_sighash_forkid
  let used = not (bit_and nhashtype 0x40 == 0)
  refuse (not asked && used) illegal_forkid
  refuse (asked && not used) must_use_forkid

unfoldable pub check_hashtype : Env → ℕ → Buffer → Result (Unit {0})
check_hashtype env flags buf = do
  sig ← env.from_tx_format buf
  require sig.has_defined_hashtype sig_hashtype
  if has_flag flags taproot_key_spend_path then ok tt else check_forkid flags sig.nhashtype

unfoldable pub check_tx_signature_encoding : Env → ℕ → Buffer → Result (Unit {0})
check_tx_signature_encoding env flags [] = ok tt
check_tx_signature_encoding env flags (b ∷ bs) = do
  check_raw_signature_encoding env flags (take (length bs) (b ∷ bs))
  if has_flag flags verify_strictenc then check_hashtype env flags (b ∷ bs) else ok tt

-- `isCompressedOrUncompressedPubkey`
unfoldable pub is_compressed_or_uncompressed : Buffer → Bool
is_compressed_or_uncompressed buf =
    if length buf == 33
    then (get_or buf 0 0 == 0x02 || get_or buf 0 0 == 0x03)
    else if length buf == 65
    then get_or buf 0 0 == 0x04
    else false

unfoldable pub check_pubkey_encoding : Env → ℕ → Buffer → Result (Unit {0})
check_pubkey_encoding env flags buf =
    if has_flag flags verify_strictenc
    then require (env.public_key_is_valid buf || is_compressed_or_uncompressed buf) pubkeytype
    else ok tt

-- `try { … } catch (e) { fSuccess = false }`
abbrev pub attempt : Result Bool → Bool
attempt (ok b) = b
attempt (err e) = false
attempt (throws t) = false

-- `this.tx && this.nin !== undefined && this.satoshisBN !== undefined`
unfoldable pub verify_in_tx : Env → Result Bool → Option TxView → Result Bool
verify_in_tx env verified none = ok false
verify_in_tx env verified (some tx) = if env.has_satoshis then verified else ok false

-- The script from the last code separator on, less the push of the signature.
unfoldable pub subscript : Machine → Buffer → Result (List Chunk)
subscript m sig = do
  tmp ← chunk_to_buffer (buffer_chunk sig)
  find_and_delete tmp (drop m.pbegincodehash m.script)

-- The `try` block of OP_CHECKSIG.
unfoldable pub signature_succeeds : Env → ℕ → Buffer → Buffer → List Chunk → Bool
signature_succeeds env flags sig pubkey sub = attempt (do
  s ← env.from_tx_format sig
  verify_in_tx env (env.verify_signature sig pubkey sub flags s.is_schnorr) env.tx)

-- The result of a verification, pushed, or checked where `verify` is true.
unfoldable pub push_result : Bool → ScriptError → Bool → List Buffer → Result (List Buffer)
push_result verify e success s =
    if verify then (if success then ok s else err e) else ok (bool_buffer success ∷ s)

unfoldable pub check_nullfail : ℕ → Bool → Buffer → Result (Unit {0})
check_nullfail flags success sig =
    refuse (not success && has_flag flags verify_nullfail && not (length sig == 0)) nullfail

unfoldable pub checksig_op : Env → Bool → Machine → List Buffer → Result (List Buffer)
checksig_op env verify m (pubkey ∷ sig ∷ s) = do
  check_tx_signature_encoding env m.flags sig
  check_pubkey_encoding env m.flags pubkey
  sub ← subscript m sig
  let success = signature_succeeds env m.flags sig pubkey sub
  check_nullfail m.flags success sig
  push_result verify checksigverify success s
checksig_op env verify m _ = err invalid_stack_operation

unfoldable pub checkdatasig_op : Env → Bool → Machine → List Buffer → Result (List Buffer)
checkdatasig_op env verify m (pubkey ∷ message ∷ sig ∷ s) = do
  check_raw_signature_encoding env m.flags sig
  check_pubkey_encoding env m.flags pubkey
  let success = attempt (env.verify_data sig message pubkey)
  check_nullfail m.flags success sig
  push_result verify checkdatasigverify success s
checkdatasig_op env verify m _ = err invalid_stack_operation

pub data HashOp : Type 0 where
  op_ripemd160 op_sha256 op_hash160 op_hash256 : HashOp

unfoldable pub hash_of : Env → HashOp → Buffer → Buffer
hash_of env op_ripemd160 = env.ripemd160
hash_of env op_sha256 = env.sha256
hash_of env op_hash160 = env.sha256ripemd160
hash_of env op_hash256 = env.sha256sha256

unfoldable pub hash_op : Env → HashOp → List Buffer → Result (List Buffer)
hash_op env o [] = err invalid_stack_operation
hash_op env o (a ∷ s) = ok (hash_of env o a ∷ s)
