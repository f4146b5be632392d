-- ===== src/Sighash/Types.antt =====
-- The bits of a signature's hash type (`Signature.SIGHASH_*` of lib/bitcore/crypto/signature.ts, as
-- lib/bitcore/transaction/sighash.ts tests them) and what the algorithms share. A type is the
-- unsigned number of its 32 bits.
use lotus_sdk.Common.{ℕ, zero, suc, bit_and, Bool, List, [], ◌∷◌, ◌==◌}
use lotus_sdk.Common.Ints.{ℤ, pos, negsuc}
use lotus_sdk.ScriptNum.{Buffer}
use lotus_sdk.Errors.{Result, ok, throws, range_error, type_error}
use lotus_sdk.Script.{write_uint32_le}
use lotus_sdk.Interpreter.Flags.{has_flag}

abbrev pub sighash_all : ℕ
sighash_all = 0x01

abbrev pub sighash_none : ℕ
sighash_none = 0x02

abbrev pub sighash_single : ℕ
sighash_single = 0x03

abbrev pub sighash_forkid : ℕ
sighash_forkid = 0x40

abbrev pub sighash_lotus : ℕ
sighash_lotus = 0x60

abbrev pub sighash_anyonecanpay : ℕ
sighash_anyonecanpay = 0x80

abbrev pub is_anyonecanpay : ℕ → Bool
is_anyonecanpay sighash_type = has_flag sighash_type sighash_anyonecanpay

-- `(sighashType & 31) === Signature.SIGHASH_SINGLE`, and so for NONE.
abbrev pub is_single : ℕ → Bool
is_single sighash_type = bit_and sighash_type 31 == sighash_single

abbrev pub is_none : ℕ → Bool
is_none sighash_type = bit_and sighash_type 31 == sighash_none

-- The fields of `transaction.inputs[i]`, where reading one of `undefined` is a TypeError.
unfoldable pub element {ℓ} : {A : Type ℓ} → List A → ℕ → Result A
element [] i = throws type_error
element (a ∷ items) zero = ok a
element (a ∷ items) (suc i) = element items i

-- `writeUInt32LE(transaction.version || 2)`
unfoldable pub write_version : ℤ → Result Buffer
write_version (pos zero) = write_uint32_le 2
write_version (pos (suc n)) = write_uint32_le (suc n)
write_version (negsuc n) = throws range_error
