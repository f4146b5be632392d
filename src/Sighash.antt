-- ===== src/Sighash.antt =====
-- The hashes that signatures sign (lib/bitcore/transaction/sighash.ts). The double SHA-256 is a
-- parameter. `sighashLegacy` of that file is not called and is left out, as are `sign` and `verify`,
-- which hand the hash to ECDSA or Schnorr.
pub mod Types
pub mod ForkId
pub mod Lotus
pub mod Legacy
pub mod Protected
pub mod Tests
use lotus_sdk.Common.{
  ℕ, ◌+◌, ◌*◌, ◌/◌, ◌%◌, ◌^◌, bit_and, bit_or, bit_xor, ◌&&◌, Option, none, some, List, length,
  ◌==◌, if◌then◌else◌,
}
use lotus_sdk.ScriptNum.{Buffer}
use lotus_sdk.Errors.{Result, ok, throws, no_spent_outputs, ◌>>=◌, ◌>>◌}
use lotus_sdk.Script.{Chunk, to_buffer, from_buffer}
use lotus_sdk.Transaction.{Transaction, to_buffer_writer, from_buffer_reader}
use lotus_sdk.Transaction.Outputs
use lotus_sdk.Transaction.Outputs.{Output}
use lotus_sdk.Interpreter.Flags.{has_flag, enable_sighash_forkid}
use lotus_sdk.Sighash.Types.{sighash_forkid, sighash_lotus}
use lotus_sdk.Sighash.ForkId.{sighash_for_fork_id}
use lotus_sdk.Sighash.Lotus.{sighash_for_lotus}
use lotus_sdk.Sighash.Legacy.{sighash_without_fork_id}

-- `Transaction.shallowCopy`
unfoldable pub shallow_copy : Transaction → Result Transaction
shallow_copy tx = do bytes ← to_buffer_writer tx; (copy, _) ← from_buffer_reader bytes; ok copy

-- `new Script(subscript)`
unfoldable pub copy_script : List Chunk → Result (List Chunk)
copy_script subscript = do bytes ← to_buffer subscript; from_buffer bytes

abbrev pub enable_replay_protection : ℕ
enable_replay_protection = 2 ^ 17

-- The type with its fork value changed, as 32 bits: `<< 8` drops what `>> 8` put above them.
unfoldable pub protected_type : ℕ → ℕ
protected_type sighash_type =
    bit_or 0xff0000 (bit_xor (sighash_type / 256 % 2 ^ 24) 0xdead) % 2 ^ 24 * 256
    + sighash_type % 256

unfoldable pub effective_type : ℕ → ℕ → ℕ
effective_type flags sighash_type =
    if has_flag flags enable_replay_protection then protected_type sighash_type else sighash_type

unfoldable pub flags_or_default : Option ℕ → ℕ
flags_or_default none = 2 ^ 16
flags_or_default (some flags) = flags

module _ (sha256sha256 : Buffer → Buffer) where
  -- `spentOutputs` is undefined where an input does not know the output that it spends.
  unfoldable pub with_spent_outputs : Option (List Output) → Transaction → ℕ → ℕ → Result Buffer
  with_spent_outputs none copy sighash_type i = throws no_spent_outputs
  with_spent_outputs (some spent_outputs) copy sighash_type i =
      if length spent_outputs == length copy.inputs
      then sighash_for_lotus sha256sha256 copy sighash_type i spent_outputs none
      else throws no_spent_outputs

  -- The choice of the algorithm, by bits 5 and 6.
  unfoldable pub dispatch :
      ℕ → Transaction → Option (List Output) → ℕ → ℕ → List Chunk → Option ℕ → Result Buffer
  dispatch flags copy spent_outputs sighash_type i subscript satoshis =
      if bit_and sighash_type 0x60 == sighash_lotus && has_flag flags enable_sighash_forkid
      then with_spent_outputs spent_outputs copy sighash_type i
      else if bit_and sighash_type 0x60 == sighash_forkid && has_flag flags enable_sighash_forkid
      then sighash_for_fork_id sha256sha256 copy sighash_type i subscript satoshis
      else sighash_without_fork_id sha256sha256 copy sighash_type i subscript

  unfoldable pub sighash :
      Transaction → Option (List Output) → ℕ → ℕ → List Chunk → Option ℕ → Option ℕ → Result Buffer
  sighash tx spent_outputs sighash_type i subscript satoshis flags = do
    copy ← shallow_copy tx
    script ← copy_script subscript
    dispatch (flags_or_default flags) copy spent_outputs
        (effective_type (flags_or_default flags) sighash_type) i script satoshis
