-- ===== src/Interpreter/Flags.antt =====
-- The verification flags (`Interpreter.SCRIPT_*`): each is one bit.
use lotus_sdk.Common.{ℕ, ◌^◌, bit_and, Bool, not, ◌==◌}

-- `(flags & flag) !== 0`
unfoldable pub has_flag : ℕ → ℕ → Bool
has_flag flags flag = not (bit_and flags flag == 0)

abbrev pub verify_p2sh : ℕ
verify_p2sh = 2 ^ 0

abbrev pub verify_strictenc : ℕ
verify_strictenc = 2 ^ 1

abbrev pub verify_dersig : ℕ
verify_dersig = 2 ^ 2

abbrev pub verify_low_s : ℕ
verify_low_s = 2 ^ 3

abbrev pub verify_nulldummy : ℕ
verify_nulldummy = 2 ^ 4

abbrev pub verify_sigpushonly : ℕ
verify_sigpushonly = 2 ^ 5

abbrev pub verify_minimaldata : ℕ
verify_minimaldata = 2 ^ 6

abbrev pub verify_discourage_upgradable_nops : ℕ
verify_discourage_upgradable_nops = 2 ^ 7

abbrev pub verify_cleanstack : ℕ
verify_cleanstack = 2 ^ 8

abbrev pub verify_checklocktimeverify : ℕ
verify_checklocktimeverify = 2 ^ 9

abbrev pub verify_checksequenceverify : ℕ
verify_checksequenceverify = 2 ^ 10

abbrev pub verify_minimalif : ℕ
verify_minimalif = 2 ^ 13

abbrev pub verify_nullfail : ℕ
verify_nullfail = 2 ^ 14

abbrev pub enable_sighash_forkid : ℕ
enable_sighash_forkid = 2 ^ 16

abbrev pub enable_schnorr_multisig : ℕ
enable_schnorr_multisig = 2 ^ 21

abbrev pub taproot_key_spend_path : ℕ
taproot_key_spend_path = 2 ^ 23
