-- ===== src/Interpreter/Outcome.antt =====
-- `verify`: what a successful verification has checked.
use lotus_sdk.Common.{
  ℕ, ◌≡◌, inl, inr, refl, sym, ap, ◌∙◌, Bool, true, false, not, ◌&&◌, List, [], ◌∷◌, length, get_or,
  ltb, ◌==◌, if◌then◌else◌, Bool-cases, arith,
}
use lotus_sdk.ScriptNum.{Buffer, cast_to_bool}
use lotus_sdk.Errors.{
  Thrown, no_input_amount, stack_copy_empty, cleanstack_without_p2sh, ScriptError, sig_pushonly,
  eval_false_no_result, eval_false_in_stack, eval_false_no_p2sh_stack, eval_false_in_p2sh_stack,
  cleanstack, Result, ok, err, throws, ◌>>◌, require, >>=-eq-ok, ok-inj, refuse-ok,
}
use lotus_sdk.Script.{Chunk, to_buffer, from_buffer, is_push_only, is_script_hash_out}
use lotus_sdk.Interpreter.Flags.{
  has_flag, verify_p2sh, verify_sigpushonly, verify_cleanstack, enable_sighash_forkid,
}
use lotus_sdk.Interpreter.Machine.{Machine, Env, initial}
use lotus_sdk.Interpreter.Step.{evaluate}
use lotus_sdk.Interpreter.Verify.{
  effective_flags, check_top, verify_redeem, check_cleanstack, verify_output, verify,
}

-- The top of the stack is true.
abbrev pub TopIsTrue : List Buffer → Type 0
TopIsTrue s = (top : Buffer) × (rest : List Buffer) × (s ≡ top ∷ rest) × (cast_to_bool top ≡ true)

require-ok {ℓ} :
    {A : Type ℓ} (test : Bool) (e : ScriptError) (r : Result A) {a : A}
    → (require test e >> r) ≡ ok a
    → (test ≡ true) × (r ≡ ok a)
require-ok true e r p = (refl, p)
require-ok false e r p = cc

require_last-ok :
    (test : Bool) (e : ScriptError) {u : Unit {0}}
    → require test e ≡ ok u
    → (test ≡ true) × (u ≡ tt)
require_last-ok true e p = (refl, refl)
require_last-ok false e p = cc

if_throws-ok {ℓ} :
    {A : Type ℓ} (test : Bool) (r : Result A) (e : Thrown) {a : A}
    → (if test then r else throws e) ≡ ok a
    → (test ≡ true) × (r ≡ ok a)
if_throws-ok true r e p = (refl, p)
if_throws-ok false r e p = cc

if_not-ok {ℓ} :
    {A : Type ℓ} (test : Bool) (r : Result A) (e : Thrown) {a : A}
    → (if test then throws e else r) ≡ ok a
    → (test ≡ false) × (r ≡ ok a)
if_not-ok true r e p = cc
if_not-ok false r e p = (refl, p)

check_top-ok :
    (e f : ScriptError) (s : List Buffer) {u : Unit {0}} → check_top e f s ≡ ok u → TopIsTrue s
unfolding check_top
check_top-ok e f [] q = cc
check_top-ok e f (top ∷ s) q = elim (Bool-cases (cast_to_bool top)) [
  | inl p ↦ (top, s, refl, p)
  | inr p ↦ absurd (stuck (rw p at q))
]
  where
    stuck : {u : Unit {0}} → (err f ≡ ok u) → ⊥
    stuck q = cc

-- What `verify_redeem` checked.
verify_redeem-ok :
    (env : Env) (sig : List Chunk) (flags : ℕ) (s t : List Buffer)
    → verify_redeem env sig flags s ≡ ok t
    → (is_push_only sig ≡ true)
      × (redeem : Buffer) × (copy : List Buffer) × (script : List Chunk) × (m : Machine) × (s
          ≡ redeem ∷ copy)
      × (from_buffer redeem ≡ ok script)
      × (evaluate env (initial script flags copy) ≡ ok m)
      × TopIsTrue m.stack
      × (t ≡ m.stack)
unfolding verify_redeem
verify_redeem-ok env sig flags [] t q =
    let (p, r) = require-ok (is_push_only sig) sig_pushonly (throws stack_copy_empty) q in cc
verify_redeem-ok env sig flags (redeem ∷ copy) t q =
    let (p, r) = require-ok (is_push_only sig) sig_pushonly _ q in
    let (script, a, b) = >>=-eq-ok (from_buffer redeem) _ r in
    let (m, c, d) = >>=-eq-ok (evaluate env (initial script flags copy)) _ b in
    let (u, e, f) =
      >>=-eq-ok (check_top eval_false_no_p2sh_stack eval_false_in_p2sh_stack m.stack)
        (λ _. ok m.stack) d in
    (p, redeem, copy, script, m, refl, a, c, check_top-ok _ _ m.stack e, sym (ok-inj f))

-- What `check_cleanstack` checked.
check_cleanstack-ok :
    (flags : ℕ) (s : List Buffer) {u : Unit {0}}
    → has_flag flags verify_cleanstack ≡ true
    → check_cleanstack flags s ≡ ok u
    → (has_flag flags verify_p2sh ≡ true) × (length s ≡ 1)
unfolding check_cleanstack
check_cleanstack-ok flags s c q =
    let (p, r) =
      if_throws-ok (has_flag flags verify_p2sh) (require (length s == 1) cleanstack)
        cleanstack_without_p2sh (rw c at q) in
    let (d, e) = require_last-ok (length s == 1) cleanstack r in (p, one (length s) d)
  where
    one : (n : ℕ) → (n == 1) ≡ true → n ≡ 1
    one n d = ground arith

-- The script that `verify` evaluates second, and what it does with its result.
verify_output-ok :
    (env : Env) (sig pubkey : List Chunk) (flags : ℕ) (s : List Buffer) (bytes : Buffer)
    {u : Unit {0}}
    → to_buffer pubkey ≡ ok bytes
    → (ltb 0 (length bytes) && get_or bytes 0 0 == 98) ≡ false
    → verify_output env sig pubkey flags s ≡ ok u
    → (m : Machine) × (copy : List Buffer) × (evaluate env (initial pubkey flags s) ≡ ok m)
      × TopIsTrue m.stack
      × ((if has_flag flags verify_p2sh && is_script_hash_out bytes
            then verify_redeem env sig flags (if has_flag flags verify_p2sh then s else [])
            else ok (if has_flag flags verify_p2sh then s else []))
          ≡ ok copy)
      × (check_cleanstack flags copy ≡ ok tt)
unfolding verify_output
verify_output-ok env sig pubkey flags s bytes a b q =
    let r = rw (a, b) at q in
    let (m, c, d) = >>=-eq-ok (evaluate env (initial pubkey flags s)) _ r in
    let (v, e, f) = >>=-eq-ok (check_top eval_false_no_result eval_false_in_stack m.stack) _ d in
    let (copy, g, h) = >>=-eq-ok _ (λ copy. check_cleanstack flags copy) f in
    (m, copy, c, check_top-ok _ _ m.stack e, g, h)

-- The signature script is evaluated first, on an empty stack.
verify-signature_script :
    (env : Env) (sig pubkey : List Chunk) (flags : ℕ) (has_amount : Bool)
    → verify env sig pubkey flags has_amount ≡ ok tt
    → (m : Machine) × (evaluate env (initial sig (effective_flags flags) []) ≡ ok m)
      × (verify_output env sig pubkey (effective_flags flags) m.stack ≡ ok tt)
unfolding verify
verify-signature_script env sig pubkey flags has_amount q =
    let (a, b) =
      if_not-ok (has_flag flags enable_sighash_forkid && not has_amount) _ no_input_amount q in
    let (c, d) =
      refuse-ok (has_flag (effective_flags flags) verify_sigpushonly && not (is_push_only sig))
        sig_pushonly _ b in
    >>=-eq-ok (evaluate env (initial sig (effective_flags flags) [])) _ d

-- Where `verify` accepts, and the public key script does not begin with OP_SCRIPTTYPE, the signature
-- script ran to its end, the public key script ran to its end on the stack that it left, and the
-- top of the final stack is true.
pub verify-accepts :
    (env : Env) (sig pubkey : List Chunk) (flags : ℕ) (has_amount : Bool) (bytes : Buffer)
    → to_buffer pubkey ≡ ok bytes
    → (ltb 0 (length bytes) && get_or bytes 0 0 == 98) ≡ false
    → verify env sig pubkey flags has_amount ≡ ok tt
    → (m : Machine) × (m' : Machine) × (evaluate env (initial sig (effective_flags flags) [])
        ≡ ok m)
      × (evaluate env (initial pubkey (effective_flags flags) m.stack) ≡ ok m')
      × TopIsTrue m'.stack
verify-accepts env sig pubkey flags has_amount bytes a b q =
    let (m, c, d) = verify-signature_script env sig pubkey flags has_amount q in
    let (m', copy, e, f, g, i) =
      verify_output-ok env sig pubkey (effective_flags flags) m.stack bytes a b d in
    (m, m', c, e, f)

-- Where `verify` accepts the spend of a script hash with SCRIPT_VERIFY_P2SH, and the public key
-- script does not begin with OP_SCRIPTTYPE, the signature script only pushes, the last element
-- that it pushed is read as the redeem script, and the redeem script ran to its end on the
-- elements below it and left a true top.
pub verify-redeems :
    (env : Env) (sig pubkey : List Chunk) (flags : ℕ) (has_amount : Bool) (bytes : Buffer)
    → to_buffer pubkey ≡ ok bytes
    → (ltb 0 (length bytes) && get_or bytes 0 0 == 98) ≡ false
    → has_flag (effective_flags flags) verify_p2sh ≡ true
    → is_script_hash_out bytes ≡ true
    → verify env sig pubkey flags has_amount ≡ ok tt
    → (is_push_only sig ≡ true)
      × (m : Machine) × (redeem : Buffer) × (copy : List Buffer) × (script : List Chunk)
      × (m' : Machine) × (evaluate env (initial sig (effective_flags flags) []) ≡ ok m)
      × (m.stack ≡ redeem ∷ copy)
      × (from_buffer redeem ≡ ok script)
      × (evaluate env (initial script (effective_flags flags) copy) ≡ ok m')
      × TopIsTrue m'.stack
verify-redeems env sig pubkey flags has_amount bytes a b p h q =
    let (m, c, d) = verify-signature_script env sig pubkey flags has_amount q in
    let (m'', copy', e, f, g, i) =
      verify_output-ok env sig pubkey (effective_flags flags) m.stack bytes a b d in
    let (j, redeem, copy, script, m', k, l, n, o, r) =
      verify_redeem-ok env sig (effective_flags flags) m.stack copy' (rw (p, h) at g) in
    (j, m, redeem, copy, script, m', c, k, l, n, o)

-- Where `verify` accepts with SCRIPT_VERIFY_CLEANSTACK, and the public key script is neither a script
-- hash nor begins with OP_SCRIPTTYPE, it is the signature script that left exactly one element: the
-- test is made on the copy of the stack in front of the public key script, and not on the final
-- stack.
pub verify-cleanstack :
    (env : Env) (sig pubkey : List Chunk) (flags : ℕ) (has_amount : Bool) (bytes : Buffer)
    → to_buffer pubkey ≡ ok bytes
    → (ltb 0 (length bytes) && get_or bytes 0 0 == 98) ≡ false
    → is_script_hash_out bytes ≡ false
    → has_flag (effective_flags flags) verify_cleanstack ≡ true
    → verify env sig pubkey flags has_amount ≡ ok tt
    → (m : Machine) × (evaluate env (initial sig (effective_flags flags) []) ≡ ok m)
      × (length m.stack ≡ 1)
verify-cleanstack env sig pubkey flags has_amount bytes a b h p q =
    let (m, c, d) = verify-signature_script env sig pubkey flags has_amount q in
    let (m', copy', e, f, g, i) =
      verify_output-ok env sig pubkey (effective_flags flags) m.stack bytes a b d in
    let (k, l) = check_cleanstack-ok (effective_flags flags) copy' p i in
    (m, c, ap length (ok-inj (rw (k, h) at g)) ∙ l)
