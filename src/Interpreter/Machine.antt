-- ===== src/Interpreter/Machine.antt =====
-- The fields of an `Interpreter`, and what it takes from other components and libraries.
use lotus_sdk.Common.{ℕ, Bool, Option, List, []}
use lotus_sdk.Common.Ints.{ℤ}
use lotus_sdk.ScriptNum.{Buffer}
use lotus_sdk.Errors.{Result}
use lotus_sdk.Script.{Chunk}

-- `tx`, `nin` and `satoshisBN` do not change in the course of an evaluation: see `Env`.
pub record Machine : Type 0 where
  pub script : List Chunk
  pub flags : ℕ
  pub stack : List Buffer
  pub altstack : List Buffer
  pub pc : ℕ
  pub pbegincodehash : ℕ
  pub n_op_count : ℕ
  pub vf_exec : List Bool

-- What `initialize` and the assignments behind it in `verify` make.
abbrev pub initial : List Chunk → ℕ → List Buffer → Machine
initial script flags stack = record {
  script = script;
  flags = flags;
  stack = stack;
  altstack = [];
  pc = 0;
  pbegincodehash = 0;
  n_op_count = 0;
  vf_exec = [];
}

-- What the interpreter reads of the transaction and of its input `nin`.
pub record TxView : Type 0 where
  pub n_lock_time : ℕ
  pub version : ℕ
  pub sequence_number : ℕ

-- What the interpreter reads of a `Signature` made by `fromTxFormat`.
pub record TxSig : Type 0 where
  pub has_defined_hashtype : Bool
  pub nhashtype : ℕ
  pub is_schnorr : Bool

-- The hash functions, the readers of signatures and public keys, the verification of a signature
-- over the transaction, and bn.js. A call that throws is `throws`.
pub record Env : Type 0 where
  pub ripemd160 : Buffer → Buffer
  pub sha256 : Buffer → Buffer
  pub sha256ripemd160 : Buffer → Buffer
  pub sha256sha256 : Buffer → Buffer
  -- `Signature.isDER`
  pub is_der : Buffer → Bool
  -- `Signature.fromDER(buf, false).hasLowS()`
  pub has_low_s : Buffer → Result Bool
  -- `Signature.fromTxFormat`
  pub from_tx_format : Buffer → Result TxSig
  -- `PublicKey.isValid`
  pub public_key_is_valid : Buffer → Bool
  -- `new PublicKey(pubkey)`, then `tx.verifySignature` of the signature and key over the subscript,
  -- with the flags, as Schnorr or not
  pub verify_signature : Buffer → Buffer → List Chunk → ℕ → Bool → Result Bool
  -- the `try` block of OP_CHECKDATASIG: signature, message, key
  pub verify_data : Buffer → Buffer → Buffer → Result Bool
  -- `BN.and` of bn.js
  pub bn_and : ℤ → ℤ → Result ℤ
  -- `this.tx`, with the input `this.nin`, if both are there
  pub tx : Option TxView
  -- `this.satoshisBN !== undefined`
  pub has_satoshis : Bool
  -- the Schnorr branch of OP_CHECKMULTISIG, with the numbers of keys and of signatures: `fSuccess`
  pub schnorr_multisig : Machine → ℕ → ℕ → Result Bool
  -- OP_NUM2BIN: the script, the stack and the alternative stack behind it. It clears a byte of a
  -- buffer in place, which other elements and chunks may share.
  pub num2bin : Machine → Result (List Chunk × List Buffer × List Buffer)
  -- `_verifyScriptType`, for a script public key that begins with OP_SCRIPTTYPE
  pub verify_script_type : Machine → Result (Unit {0})
