-- ===== src/Sighash/ForkId/Parts.antt =====
-- What the bytes that are hashed for a FORKID signature say of their parts.
use lotus_sdk.Common.{ℕ, zero, suc, List, ◌++◌, length, ◌<◌, ◌≡◌, sym, ap, ◌∙◌}
use lotus_sdk.Common.Ints.{ℤ, pos, negsuc}
use lotus_sdk.ScriptNum.{Buffer}
use lotus_sdk.Errors.{Result, ok, ok-inj, >>=-eq-ok}
use lotus_sdk.Script.{Chunk, read_uint32_le, write_uint32_le, to_buffer}
use lotus_sdk.Encoding.{write_varint_num, write_uint64_le_bn}
use lotus_sdk.Transaction.{Transaction}
use lotus_sdk.Transaction.Inputs.{Input}
use lotus_sdk.Encoding.RoundTrip.{Rereads, write_uint32_le-Rereads}
use lotus_sdk.Sighash.Types.{element, write_version}
use lotus_sdk.Sighash.ForkId.{write_prevout, preimage}

-- Two values that are read back, with what follows them.
pub Rereads-first {ℓ} :
    {A : Type ℓ} {v w : Result Buffer} (reader : Buffer → Result (A × Buffer)) {a b : A}
    (x y x' y' : Buffer)
    → Rereads v reader a
    → Rereads w reader b
    → v ≡ ok x
    → w ≡ ok y
    → x ++ x' ≡ y ++ y'
    → (a ≡ b) × (x' ≡ y')
Rereads-first reader {a} {b} x y x' y' (p, p_written, p_read) (q, q_written, q_read) e f same =
    let px : p ≡ x = ok-inj (sym p_written ∙ e) in
    let qy : q ≡ y = ok-inj (sym q_written ∙ f) in
    let both : ok (a, x') ≡ ok (b, y') =
      sym (p_read x')
      ∙ ap (λ (z : Buffer). reader (z ++ x')) px
      ∙ ap reader same
      ∙ ap (λ (z : Buffer). reader (z ++ y')) (sym qy)
      ∙ q_read y' in
    let pair = ok-inj both in (ap (λ z. z.0) pair, ap (λ z. z.1) pair)

-- A version that is written as it is.
abbrev pub IsPositive : ℤ → Type 0
IsPositive (pos zero) = ⊥
IsPositive (pos (suc n)) = suc n < 4294967296
IsPositive (negsuc n) = ⊥

pub version-first :
    (v w : ℤ) (x y x' y' : Buffer)
    → IsPositive v
    → IsPositive w
    → write_version v ≡ ok x
    → write_version w ≡ ok y
    → x ++ x' ≡ y ++ y'
    → (v ≡ w) × (x' ≡ y')
unfolding write_version
version-first (pos (suc n)) (pos (suc m)) x y x' y' h k e f same =
    let (same_number, rest) =
      Rereads-first read_uint32_le x y x' y' (write_uint32_le-Rereads (suc n) h)
        (write_uint32_le-Rereads (suc m) k) e f same in
    (ap pos same_number, rest)
version-first (pos zero) w x y x' y' h k e f same = absurd h
version-first (negsuc n) w x y x' y' h k e f same = absurd h
version-first (pos (suc n)) (pos zero) x y x' y' h k e f same = absurd k
version-first (pos (suc n)) (negsuc m) x y x' y' h k e f same = absurd k

-- The parts of `preimage`, as they are written.
pub record Parts (tx : Transaction) (sighash_type : ℕ) (i : ℕ) (subscript : List Chunk)
    (satoshis : ℕ) (hash_prevouts hash_sequence hash_outputs bytes : Buffer) : Type 0 where
  pub input : Input
  pub at_index : element tx.inputs i ≡ ok input
  pub version : Buffer
  pub version_written : write_version tx.version ≡ ok version
  pub prevout : Buffer
  pub prevout_written : write_prevout input ≡ ok prevout
  pub script : Buffer
  pub script_written : to_buffer subscript ≡ ok script
  pub size : Buffer
  pub size_written : write_varint_num (length script) ≡ ok size
  pub amount : Buffer
  pub amount_written : write_uint64_le_bn satoshis ≡ ok amount
  pub sequence : Buffer
  pub sequence_written : write_uint32_le input.sequence_number ≡ ok sequence
  pub lock_time : Buffer
  pub lock_time_written : write_uint32_le tx.n_lock_time ≡ ok lock_time
  pub hash_type : Buffer
  pub hash_type_written : write_uint32_le sighash_type ≡ ok hash_type
  pub whole :
      version
        ++ (hash_prevouts
            ++ (hash_sequence
                ++ (prevout
                    ++ (size
                        ++ (script
                            ++ (amount
                                ++ (sequence ++ (hash_outputs ++ (lock_time ++ hash_type)))))))))
      ≡ bytes

pub preimage-Parts :
    (tx : Transaction) (sighash_type i : ℕ) (subscript : List Chunk) (satoshis : ℕ)
    (hash_prevouts hash_sequence hash_outputs : Buffer) {bytes : Buffer}
    → preimage tx sighash_type i subscript satoshis hash_prevouts hash_sequence hash_outputs
      ≡ ok bytes
    → Parts tx sighash_type i subscript satoshis hash_prevouts hash_sequence hash_outputs bytes
unfolding preimage
preimage-Parts tx sighash_type i subscript satoshis hash_prevouts hash_sequence hash_outputs e =
    let (version, version_written, e1) = >>=-eq-ok (write_version tx.version) _ e in
    let (input, at_index, e2) = >>=-eq-ok (element tx.inputs i) _ e1 in
    let (prevout, prevout_written, e3) = >>=-eq-ok (write_prevout input) _ e2 in
    let (script, script_written, e4) = >>=-eq-ok (to_buffer subscript) _ e3 in
    let (size, size_written, e5) = >>=-eq-ok (write_varint_num (length script)) _ e4 in
    let (amount, amount_written, e6) = >>=-eq-ok (write_uint64_le_bn satoshis) _ e5 in
    let (sequence, sequence_written, e7) = >>=-eq-ok (write_uint32_le input.sequence_number) _ e6 in
    let (lock_time, lock_time_written, e8) = >>=-eq-ok (write_uint32_le tx.n_lock_time) _ e7 in
    let (hash_type, hash_type_written, e9) = >>=-eq-ok (write_uint32_le sighash_type) _ e8 in
    record {
      input = input;
      at_index = at_index;
      version = version;
      version_written = version_written;
      prevout = prevout;
      prevout_written = prevout_written;
      script = script;
      script_written = script_written;
      size = size;
      size_written = size_written;
      amount = amount;
      amount_written = amount_written;
      sequence = sequence;
      sequence_written = sequence_written;
      lock_time = lock_time;
      lock_time_written = lock_time_written;
      hash_type = hash_type;
      hash_type_written = hash_type_written;
      whole = ok-inj e9;
    }
