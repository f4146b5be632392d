-- ===== src/Interpreter.antt =====
-- The script interpreter (lib/bitcore/script/interpreter.ts), one child for each group of opcodes,
-- and children for the theorems. A JavaScript array that is used as a stack is a list with the top
-- of the stack first.
pub mod Flags
pub mod Machine
pub mod Numbers
pub mod Stack
pub mod Arith
pub mod Bytes
pub mod Flow
pub mod Locktime
pub mod Signatures
pub mod Multisig
pub mod Opcodes
pub mod Step
pub mod Verify
pub mod Frame
pub mod Progress
pub mod PayToPublicKeyHash
pub mod Outcome
pub mod Coverage
pub mod Readers
pub mod Assignment
pub mod Depth
