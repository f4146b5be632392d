-- ===== src/Lib.antt =====
-- lotus-sdk: the script interpreter with the numbers and scripts that it works on, transactions and
-- blocks with their bytes and their hashes, the hashes that signatures sign, the sessions of the
-- MuSig2 signers with the protection of their messages against replay, and the RANK protocol.
--
-- The program. The SDK evaluates the scripts that lock and unlock outputs. `Interpreter.verify`
-- (lib/bitcore/script/interpreter.ts) evaluates the signature script, the public key script on the
-- stack that it leaves, and the script under a script hash; `evaluate` repeats `step`, which takes
-- one chunk of the script (lib/bitcore/chunk.ts) and pushes data or runs one case of its `switch`.
-- Chunks are read from bytes and written by `Script` (lib/bitcore/script.ts), with BufferReader and
-- BufferWriter (lib/bitcore/encoding). Numbers on the stack are read by the interpreter's own
-- functions or by `BN.fromScriptNumBuffer` (lib/bitcore/crypto/bn.ts).
-- A `Transaction` (lib/bitcore/transaction) holds the scripts in its inputs and outputs, a `Block`
-- (lib/bitcore/block) holds transactions; both are read and written by the same BufferReader and
-- BufferWriter, and their hashes are taken of what is written.
-- `sighash` (lib/bitcore/transaction/sighash.ts) makes the hash that a signature of an input signs,
-- by one of three algorithms, from a copy of the transaction and a script.
-- `toScriptRANK` and `toScriptRNKC` (lib/rank/index.ts) write votes and comments as scripts that are
-- put into outputs, and `ScriptProcessor` reads them.
-- `Base58Check` (lib/bitcore/encoding/base58check.ts) writes keys and addresses as texts.
-- `MuSigSessionManager` keeps, for one of several signers, the two rounds that make one signature.
-- `ReplayProtection` and `SessionLock` (lib/p2p/musig2) stand between the messages of other signers
-- and these sessions. `DHTQueue` (lib/p2p) keeps what is announced before the DHT is ready.
--
-- The files.
--   Common: names of the libraries, Boolean tests, lists, integers and bits over the native numbers.
--   Errors: what a function that fails returns. `err` is `return false` with `errstr`, and `throws`
--     is an exception.
--   ScriptNum: toScriptNumBuffer, fromScriptNumBuffer, castToBool, _minimallyEncode and
--     _isMinimallyEncoded of interpreter.ts. ScriptNum/Digits, RoundTrip, Truth and Minimal hold
--     their theorems.
--   Script: Chunk, fromBuffer, toBuffer, add of a buffer, checkMinimalPush, isPushOnly,
--     isScriptHashOut and findAndDelete. Script/RoundTrip, Fuel, Delete and Pushes hold their
--     theorems.
--   Interpreter: Flags (the flag constants), Machine (the fields), Numbers (bn.ts), Stack, Arith,
--     Bytes, Flow, Locktime, Signatures and Multisig (the cases of `switch`, by group), Opcodes (the
--     opcodes and the `switch`), Step (step and evaluate), Verify (verify). The theorems are in Frame
--     and Progress (what every opcode and every run keeps), Depth (the depth of the stack), Readers
--     (the two readers of numbers), Coverage (the opcodes without a case), Assignment (the loop of
--     OP_CHECKMULTISIG), PayToPublicKeyHash (a script as a whole) and Outcome (verify).
--   MusigSession: the manager of MuSig2 signing sessions (lib/bitcore/musig2/session.ts), each operation
--     with its error paths. MusigSession/Steps is the relation of its steps, Effects holds lemmas on
--     the session that an operation leaves, Nonce and Verified hold the theorems, Tests
--     runs.
--   Encoding: the readers and writers of numbers, varints and buffers that Script does not have.
--     Encoding/Digits, Lengths, RoundTrip and Varint hold their theorems.
--   Merkle: the loops of _computeMerkleRoot and getMerkleTree. Merkle/Layers is the tree by layers,
--     Loop compares the two, Binding says what a root fixes.
--   Transaction: toBufferWriter, fromBufferReader, _getHash, _getTxid and what they call;
--     Transaction/Inputs and Outputs are the bytes of inputs and outputs. RoundTrip, Size, Scripts, Total
--     and Commits hold the theorems.
--   Block: Block and, in Block/Header, BlockHeader, likewise. Block/RoundTrip, Block/Commits and
--     Block/Header/RoundTrip, Commits and Target hold the theorems.
--   Sighash: sighash, its choice of the algorithm and the type under replay protection.
--     Sighash/Types has the bits of the type, ForkId is sighashForForkId, Lotus is sighashForLotus,
--     Legacy is the rest of sighash. ForkId/Parts, Fields, Rows and Hashes hold lemmas on what is hashed,
--     ForkId/Commits and Independent, Lotus/Root, Legacy/Refused and Protected the theorems.
--   Rank: the maps and toScriptRANK of lib/rank/index.ts. Rank/Text has texts, their hexadecimal and
--     decimal forms (utils/functions.ts), Comments is toScriptRNKC, Processor is ScriptProcessor.
--     Rank/Text/Hex and Digits, Scripts, Targets and Comments/Joined hold lemmas, RoundTrip, Posts and
--     Comments/RoundTrip the theorems.
--   Base58Check: the class of that name. Base58Check/Radix, Numerals and Alphabet hold lemmas on
--     digits and letters, RoundTrip the theorems.
--   ReplayProtection: the class of that name. ReplayProtection/Fresh, Past, Sequences and Bounds hold
--     the theorems.
--   SessionLock: the class of that name, with the tasks that hold its locks and those that await
--     them. SessionLock/Exclusion and Waiters hold the theorems.
--   DhtQueue: the queue of announcements that wait for the DHT (lib/p2p/dht-queue.ts). DhtQueue/Space,
--     Bounds, Flushes and Drained hold the theorems.
--   Tests, and a Tests under each part: concrete runs.
--
-- The correspondence. A Buffer is a list of natural numbers; theorems that need it suppose that each
-- is below 256. An array used as a stack is a list with its top first. An `Interpreter` is a record
-- `Machine`; an operation returns the changed record. `this.tx`, `this.nin` and `this.satoshisBN` do
-- not change in the course of an evaluation, and are in the record `Env` with the functions that the
-- interpreter calls: hash functions, readers of signatures and keys, the verification of a signature
-- over the transaction, and `and` of bn.js. One `Env` serves all evaluations of a `verify`: that an
-- amount of 0n reaches only those behind the signature script, since `set` and `verify` test its truth
-- value, is not told apart.
--
-- `Output.satoshis` is a double and `_satoshisBN` the exact number: the record `Output` holds the
-- latter, and `satoshis_of` is what is left of it where the code goes through the double. The hash
-- functions are arguments of the definitions of Merkle, Transaction and Block, and the theorems that
-- need it suppose that they return 32 bytes. No theorem supposes that they have no collisions: where
-- one is to be excluded, the conclusion names it, as two different inputs with one hash that are
-- hashed at the same place of the two computations (Merkle/Binding).
--
-- The double SHA-256 is an argument of the definitions of Sighash. A type of a signature is the
-- unsigned number of its 32 bits. `transaction.spentOutputs` is an argument of `sighash`, since a
-- transaction of Transaction does not know the outputs that it spends.
--
-- A text of Rank or Base58Check is the list of its character codes; SHA-256 is an argument of
-- the definitions of the latter. `BigInt` and the decoder of UTF-8 are arguments
-- of the definitions that call them, and so are the doubles of `processScriptRNKC` (`Doubles`), whose
-- settings are whole numbers here. A comment is given as its bytes. A chunk map that is not
-- there is an offset `none`. `read_rank` and `read_rnkc` are the calls that a reader makes one after
-- the other.
--
-- The methods of ReplayProtection get the value of `Date.now()` as an argument. A `Map` is the list
-- of its entries in the order of insertion (Common/Assoc). A promise of SessionLock is the number of
-- its making, and `acquire` is cut in two at its `await`: `resume` is what runs behind it. `clear`
-- of ReplayProtection, which the coordinator calls, is one of the events (`clear_at`).
--
-- A session is a record `Session`; an operation returns the session that it leaves with its outcome,
-- since an operation that throws may have changed it. The functions of crypto/musig2.ts are in the
-- record `Musig`.
--
-- Fuel. `from_buffer_loop` has a unit of fuel for each byte and `run_loop` one for each chunk: each
-- round takes at least one. The theorems on fuel are in Script/Fuel and
-- Interpreter/Progress. `root_loop` and `tree_loop` have a unit of fuel for each hash: each round
-- halves the layer, and `merkle_loop` likewise; Merkle/Loop and Sighash/Lotus/Root give the theorems.
-- `digits` has a unit of fuel for each unit of the number, which is divided by its base in each
-- round, and so has `prepend_digits`; Rank/Text/Digits and Base58Check/Numerals read the digits back.
--
-- Not modelled. The Schnorr branch of OP_CHECKMULTISIG, OP_NUM2BIN, which changes a buffer in place
-- that other elements may share, and _verifyScriptType are functions of `Env`. So are the functions on
-- the curve and the hash functions, which rest on libraries. `sighashLegacy` is never called, and
-- `sign` and `verify` hand the hash to the functions on the curve. Of RANK, the forms as objects and
-- the decoder of lib/rank/script.ts are left out. Of transactions, what is built, signed and checked
-- is not modelled; of blocks, the forms as objects and strings and the checks of time
-- and proof of work. The timer of ReplayProtection calls `cleanup` at any time. The product of
-- doubles that says how many identifiers a full store gives up is a field of the configuration.
pub mod Common
pub mod Errors
pub mod ScriptNum
pub mod Script
pub mod Encoding
pub mod Interpreter
pub mod Merkle
pub mod Transaction
pub mod Block
pub mod MusigSession
pub mod ReplayProtection
pub mod SessionLock
pub mod DhtQueue
pub mod Sighash
pub mod Rank
pub mod Base58Check
pub mod Tests
