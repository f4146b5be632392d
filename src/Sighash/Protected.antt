-- ===== src/Sighash/Protected.antt =====
-- Replay protection of signatures without FORKID.
use lotus_sdk.Common.{
  ℕ, ◌+◌, bit_and, true, false, Option, List, ◌==◌, ◌<◌, ◌≡◌, ◌≢◌, refl, ==_iff, arith,
}
use lotus_sdk.ScriptNum.{Buffer}
use lotus_sdk.Errors.{ok, >>=-eq-ok}
use lotus_sdk.Script.{Chunk}
use lotus_sdk.Transaction.{Transaction}
use lotus_sdk.Transaction.Outputs.{Output}
use lotus_sdk.Common.Bits.{holds_below, holds_below_lem}
use lotus_sdk.Interpreter.Flags.{has_flag}
use lotus_sdk.Sighash.{
  shallow_copy, copy_script, enable_replay_protection, protected_type, effective_type,
  flags_or_default, dispatch, sighash,
}
use lotus_sdk.Sighash.Types.{is_single, sighash_lotus, sighash_forkid}
use lotus_sdk.Sighash.Legacy.Refused.{sighash_without_fork_id-large}

-- The type of one byte, with its fork value changed.
protected_table : holds_below (λ t. protected_type t == 0xffdead00 + t) 256 ≡ true
unfolding holds_below protected_type
protected_table = refl

protected_byte : (t : ℕ) → t < 256 → protected_type t ≡ 0xffdead00 + t
protected_byte t h = (==_iff _ _).0 (holds_below_lem _ 256 h protected_table)

low_table : holds_below (λ t. bit_and (0xffdead00 + t) 31 == bit_and t 31) 256 ≡ true
unfolding holds_below
low_table = refl

algorithm_table : holds_below (λ t. bit_and (0xffdead00 + t) 0x60 == bit_and t 0x60) 256 ≡ true
unfolding holds_below
algorithm_table = refl

-- With replay protection, the hash for a type of one byte whose algorithm bits are neither those of
-- FORKID nor those of LOTUS, and which is not SINGLE, is never returned.
pub sighash-protected :
    (hash : Buffer → Buffer) (tx : Transaction) (spent : Option (List Output)) (t i : ℕ)
    (subscript : List Chunk) (satoshis flags : Option ℕ) {result : Buffer}
    → t < 256
    → has_flag (flags_or_default flags) enable_replay_protection ≡ true
    → (bit_and t 0x60 == sighash_lotus) ≡ false
    → (bit_and t 0x60 == sighash_forkid) ≡ false
    → is_single t ≡ false
    → sighash hash tx spent t i subscript satoshis flags ≢ ok result
unfolding sighash effective_type dispatch
sighash-protected hash tx spent t i subscript satoshis flags small protected not_lotus not_fork_id
      one e =
    let (copy, copied, e1) = >>=-eq-ok (shallow_copy tx) _ e in
    let (script, script_copied, e2) = >>=-eq-ok (copy_script subscript) _ e1 in
    let low : bit_and (0xffdead00 + t) 31 ≡ bit_and t 31 =
      (==_iff _ _).0 (holds_below_lem _ 256 small low_table) in
    let algorithm : bit_and (0xffdead00 + t) 0x60 ≡ bit_and t 0x60 =
      (==_iff _ _).0 (holds_below_lem _ 256 small algorithm_table) in
    sighash_without_fork_id-large hash copy (0xffdead00 + t) i script (rw low one) (omega arith)
      (rw (protected, protected_byte t small, algorithm, not_lotus, not_fork_id) at e2)
