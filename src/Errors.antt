-- ===== src/Errors.antt =====
-- How a call of the script interpreter ends (lib/bitcore/script/interpreter.ts): it returns true,
-- it sets `errstr` and returns false, or it throws. An `errstr` 'SCRIPT_ERR_X' is the constructor
-- `x`. What a call leaves in the interpreter's fields when it fails is not kept.
use lotus_sdk.Common.{◌≡◌, refl, Bool, true, false, if◌then◌else◌}

-- What the code throws, or what the libraries below it throw.
pub data Thrown : Type 0 where
  range_error : Thrown
  type_error : Thrown
  invalid_buffer : Thrown
  push_length_mismatch : Thrown
  script_number_overflow : Thrown
  non_minimal_number : Thrown
  bn_assertion : Thrown
  no_input_amount : Thrown
  stack_copy_empty : Thrown
  cleanstack_without_p2sh : Thrown
  foreign : Thrown
  number_too_large : Thrown
  invalid_length : Thrown
  no_data : Thrown
  invalid_argument : Thrown
  invalid_sighash_type : Thrown
  no_corresponding_output : Thrown
  no_spent_outputs : Thrown
  missing_argument : Thrown
  invalid_data_type : Thrown
  invalid_profile_id : Thrown
  invalid_post_id : Thrown
  invalid_comment : Thrown
  invalid_character : Thrown
  string_too_short : Thrown
  invalid_checksum : Thrown

pub data ScriptError : Type 0 where
  undefined_opcode : ScriptError
  push_size : ScriptError
  op_count : ScriptError
  disabled_opcode : ScriptError
  minimaldata : ScriptError
  discourage_upgradable_nops : ScriptError
  invalid_stack_operation : ScriptError
  invalid_altstack_operation : ScriptError
  negative_locktime : ScriptError
  unsatisfied_locktime : ScriptError
  unbalanced_conditional : ScriptError
  minimalif : ScriptError
  verify_failed : ScriptError
  op_return : ScriptError
  invalid_operand_size : ScriptError
  equalverify : ScriptError
  nullfail : ScriptError
  checkdatasigverify : ScriptError
  checksigverify : ScriptError
  checkmultisigverify : ScriptError
  pubkey_count : ScriptError
  sig_count : ScriptError
  sig_nulldummy : ScriptError
  invalid_split_range : ScriptError
  invalid_number_range : ScriptError
  bad_opcode : ScriptError
  script_size : ScriptError
  stack_size : ScriptError
  sig_pushonly : ScriptError
  eval_false_no_result : ScriptError
  eval_false_in_stack : ScriptError
  eval_false_no_p2sh_stack : ScriptError
  eval_false_in_p2sh_stack : ScriptError
  cleanstack : ScriptError
  sig_der_invalid_format : ScriptError
  sig_der_high_s : ScriptError
  sig_hashtype : ScriptError
  illegal_forkid : ScriptError
  must_use_forkid : ScriptError
  pubkeytype : ScriptError
  unknown_error : Thrown → ScriptError
  script_type_error : ScriptError

pub data Result {κ} (Value : Type κ) : Type κ where
  ok : Value → Result Value
  throws : Thrown → Result Value
  err : ScriptError → Result Value

infixl 5 ◌>>=◌
abbrev pub ◌>>=◌ {κ ℓ} : {V : Type κ} {W : Type ℓ} → Result V → (V → Result W) → Result W
throws t >>= next = throws t
err e >>= next = err e
ok v >>= next = next v

infixl 5 ◌>>◌
abbrev pub ◌>>◌ {κ} : {W : Type κ} → Result (Unit {0}) → Result W → Result W
check >> rest = check >>= λ _. rest

-- `if (!test) { this.errstr = e; return false }`
abbrev pub require : Bool → ScriptError → Result (Unit {0})
require true e = ok tt
require false e = err e

-- `if (test) { this.errstr = e; return false }`
abbrev pub refuse : Bool → ScriptError → Result (Unit {0})
refuse true e = err e
refuse false e = ok tt

-- A sequence that succeeds has a first part that does.
pub >>=-eq-ok {κ ℓ} :
    {V : Type κ} {W : Type ℓ} (first : Result V) (next : V → Result W) {w : W}
    → (first >>= next) ≡ ok w
    → (v : V) × (first ≡ ok v) × (next v ≡ ok w)
>>=-eq-ok (throws t) next done = cc
>>=-eq-ok (err e) next done = cc
>>=-eq-ok (ok v) next done = (v, refl, done)

pub ok-inj {ℓ} : {A : Type ℓ} {a b : A} → ok a ≡ ok b → a ≡ b
ok-inj p = cc

pub if-ok {ℓ} :
    {A : Type ℓ} (test : Bool) (r : Result A) (e : ScriptError) {a : A}
    → (if test then r else err e) ≡ ok a
    → (test ≡ true) × (r ≡ ok a)
if-ok true r e p = (refl, p)
if-ok false r e p = cc

pub refuse-ok {ℓ} :
    {A : Type ℓ} (test : Bool) (e : ScriptError) (r : Result A) {a : A}
    → (refuse test e >> r) ≡ ok a
    → (test ≡ false) × (r ≡ ok a)
refuse-ok true e r p = cc
refuse-ok false e r p = (refl, p)
