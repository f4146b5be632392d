-- ===== src/Interpreter/Assignment.antt =====
-- The legacy verification of OP_CHECKMULTISIG finds an assignment of keys to signatures in order
-- whenever there is one.
use lotus_sdk.Common.{
  ℕ, ◌≤◌, ◌≡◌, inl, inr, refl, Bool, true, false, List, [], ◌∷◌, All, length, ltb, if◌then◌else◌,
  Bool-cases, arith,
}
use lotus_sdk.ScriptNum.{Buffer}
use lotus_sdk.Errors.{Result, ok, >>=-eq-ok}
use lotus_sdk.Script.{Chunk}
use lotus_sdk.Interpreter.Machine.{Env}
use lotus_sdk.Interpreter.Signatures.{check_tx_signature_encoding, check_pubkey_encoding}
use lotus_sdk.Interpreter.Multisig.{legacy_ok, legacy_loop}

-- Every signature is verified by a key of its own, and the keys come in the order of the
-- signatures; keys may be left out.
pub data Assigned (ok? : Buffer → Buffer → Bool) : List Buffer → List Buffer → Type 0 where
  done : {keys : List Buffer} → Assigned ok? [] keys
  take_key :
      {sig key : Buffer} {sigs keys : List Buffer}
      → ok? sig key ≡ true
      → Assigned ok? sigs keys
      → Assigned ok? (sig ∷ sigs) (key ∷ keys)
  skip_key :
      {key : Buffer} {sigs keys : List Buffer}
      → Assigned ok? sigs keys
      → Assigned ok? sigs (key ∷ keys)

Assigned-length :
    {ok? : Buffer → Buffer → Bool} {sigs keys : List Buffer}
    → Assigned ok? sigs keys
    → length sigs ≤ length keys
Assigned-length done = omega arith
Assigned-length (take_key e a) = omega (arith, Assigned-length a)
Assigned-length (skip_key a) = omega (arith, Assigned-length a)

-- An assignment of all the signatures is one of all but the first.
Assigned-tail :
    {ok? : Buffer → Buffer → Bool} {sig : Buffer} {sigs keys : List Buffer}
    → Assigned ok? (sig ∷ sigs) keys
    → Assigned ok? sigs keys
Assigned-tail (take_key e a) = skip_key a
Assigned-tail (skip_key a) = skip_key (Assigned-tail a)

-- The assignment that the loop goes on with is there, too: taking a key early is never wrong.
Assigned-rest :
    {ok? : Buffer → Buffer → Bool} {sig key : Buffer} {sigs keys : List Buffer}
    → Assigned ok? (sig ∷ sigs) (key ∷ keys)
    → Assigned ok? (if ok? sig key then sigs else sig ∷ sigs) keys
Assigned-rest (take_key e a) = rw e a
Assigned-rest {ok?} {sig} {key} (skip_key a) = elim (Bool-cases (ok? sig key)) [
  | inl e ↦ rw e (Assigned-tail a)
  | inr e ↦ rw e a
]

-- An assignment of what the loop goes on with is one of what it started with.
Assigned-more :
    {ok? : Buffer → Buffer → Bool} {sig key : Buffer} {sigs keys : List Buffer}
    → Assigned ok? (if ok? sig key then sigs else sig ∷ sigs) keys
    → Assigned ok? (sig ∷ sigs) (key ∷ keys)
Assigned-more {ok?} {sig} {key} {sigs} {keys} a = elim (Bool-cases (ok? sig key)) [
  | inl e ↦ take_key e (rw e at a)
  | inr e ↦ skip_key (rw e at a)
]

All-left {ℓ} :
    (P : Buffer → Type ℓ) (b : Bool) (sig : Buffer) (sigs : List Buffer)
    → All P (sig ∷ sigs)
    → All P (if b then sigs else sig ∷ sigs)
All-left P true sig sigs h = h.1
All-left P false sig sigs h = h

module _ (env : Env) (flags : ℕ) (sub : List Chunk) where
  -- The loop returns true only if keys can be assigned to the signatures, in their order.
  pub legacy_loop-Assigned :
      (sigs keys : List Buffer)
      → legacy_loop env flags sub sigs keys ≡ ok true
      → Assigned (legacy_ok env flags sub) sigs keys
  unfolding legacy_loop
  legacy_loop-Assigned [] keys h = done
  legacy_loop-Assigned (sig ∷ sigs) [] h = absurd (ok_false-ne h)
    where
      ok_false-ne : ◌≡◌ {A = Result Bool} (ok false) (ok true) → ⊥
      ok_false-ne e = cc
  legacy_loop-Assigned (sig ∷ sigs) (key ∷ keys) h =
      let left = if legacy_ok env flags sub sig key then sigs else sig ∷ sigs in
      let (_, _, e₁) = >>=-eq-ok (check_tx_signature_encoding env flags sig) _ h in
      let (_, _, e₂) = >>=-eq-ok (check_pubkey_encoding env flags key) _ e₁ in
      let rest : legacy_loop env flags sub left keys ≡ ok true = ground arith in
      Assigned-more (legacy_loop-Assigned left keys rest)

  -- The encodings of the signatures and the keys pass their checks.
  abbrev pub Encoded : List Buffer → List Buffer → Type 0
  Encoded sigs keys =
      All (λ s. check_tx_signature_encoding env flags s ≡ ok tt) sigs
      × All (λ k. check_pubkey_encoding env flags k ≡ ok tt) keys

  -- Where the encodings of the signatures and of the keys pass their checks, and keys can be assigned
  -- to the signatures in their order, the loop returns true.
  pub Assigned-legacy_loop :
      (sigs keys : List Buffer)
      → Encoded sigs keys
      → Assigned (legacy_ok env flags sub) sigs keys
      → legacy_loop env flags sub sigs keys ≡ ok true
  unfolding legacy_loop
  Assigned-legacy_loop [] keys c a = refl
  Assigned-legacy_loop (sig ∷ sigs) [] c a = absurd (omega (arith, Assigned-length a))
  Assigned-legacy_loop (sig ∷ sigs) (key ∷ keys) (cs, ck) a =
      let left = if legacy_ok env flags sub sig key then sigs else sig ∷ sigs in
      let rest = Assigned-rest a in
      let few = Assigned-length rest in
      let fits : ltb (length keys) (length left) ≡ false = ground arith in
      rw (cs.0, ck.0, fits)
        (Assigned-legacy_loop left keys
          (All-left _ (legacy_ok env flags sub sig key) sig sigs cs, ck.1) rest)
