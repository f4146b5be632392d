-- ===== src/Interpreter/PayToPublicKeyHash.antt =====
-- Pay-to-public-key-hash: what an evaluation of the output script checks.
use lotus_sdk.Common.{
  ℕ, suc, ◌+◌, ◌-◌, ◌<◌, ◌≡◌, ◌≢◌, inl, inr, refl, sym, ap, ◌∙◌, Bool, true, false, not, ◌&&◌, some,
  List, [], ◌∷◌, ◌++◌, length, get_elem?, length-append, ltb, ◌==◌, if◌then◌else◌, Bool-cases,
  arith,
}
use lotus_sdk.ScriptNum.{Buffer}
use lotus_sdk.Errors.{
  unbalanced_conditional, equalverify, nullfail, stack_size, ok-inj, if-ok, refuse-ok, Result, ok,
  err, throws, ◌>>=◌, ◌>>◌, refuse, >>=-eq-ok,
}
use lotus_sdk.Script.{
  Chunk, op_chunk, push_chunk, to_buffer, check_minimal_push, chunk_to_buffer, same_bytes,
  write_uint8, write_len, write_data, is_minimal_push,
}
use lotus_sdk.Interpreter.Flags.{has_flag, verify_minimaldata, verify_nullfail}
use lotus_sdk.Interpreter.Machine.{Machine, Env, initial}
use lotus_sdk.Interpreter.Stack.{item_op}
use lotus_sdk.Interpreter.Bytes.{equal_op, bool_buffer}
use lotus_sdk.Interpreter.Signatures.{
  hash_op, hash_of, checksig_op, check_tx_signature_encoding, check_pubkey_encoding, subscript,
  signature_succeeds, push_result, check_nullfail,
}
use lotus_sdk.Interpreter.Opcodes.{decode, find_op, contains, is_opcode_disabled, on_stack, exec_op}
use lotus_sdk.Interpreter.Step.{
  all_true, pushed_data, push_data, exec_opcode, execute, is_too_long, count_op, step_chunk,
  step_at, step, run_loop, finish, catch_all, evaluate,
}
use lotus_sdk.Script.Delete.{same_bytes→eq, same_bytes_refl}

-- `Script.buildPublicKeyHashOut`: OP_DUP OP_HASH160 <hash> OP_EQUALVERIFY OP_CHECKSIG.
abbrev pub p2pkh : Buffer → List Chunk
p2pkh h = op_chunk 118 ∷ op_chunk 169 ∷ push_chunk 20 20 h ∷ op_chunk 136 ∷ op_chunk 172 ∷ []

-- The machine in front of OP_CHECKSIG.
abbrev pub at_checksig : Buffer → ℕ → List Buffer → Machine
at_checksig h flags s = record (initial (p2pkh h) flags s) { pc = 5; n_op_count = 4 }

p2pkh-bytes :
    (h : Buffer) → length h ≡ 20 → (b : Buffer) × (to_buffer (p2pkh h) ≡ ok b) × (length b ≡ 25)
unfolding to_buffer chunk_to_buffer write_uint8 write_data write_len
p2pkh-bytes h e =
    (118 ∷ 169 ∷ 20 ∷ (h ++ 136 ∷ 172 ∷ []), refl, omega (arith, length-append h (136 ∷ 172 ∷ [])))

-- There is room on the stack for one more round.
room_two : (n : ℕ) → n < 900 → ltb 1000 (suc (suc n)) ≡ false
room_two n p = ground arith

room_three : (n : ℕ) → n < 900 → ltb 1000 (suc (suc (suc n))) ≡ false
room_three n p = ground arith

room_four : (n : ℕ) → n < 900 → ltb 1000 (suc (suc (suc (suc n)))) ≡ false
room_four n p = ground arith

-- The push of the hash is minimal.
is_minimal_push-hash : (h : Buffer) → length h ≡ 20 → is_minimal_push 20 (some h) ≡ true
unfolding is_minimal_push
is_minimal_push-hash h e = rw e refl

not-minimal : (a : Bool) (b : Bool) → b ≡ true → (a && not b) ≡ false
not-minimal true b p = rw p refl
not-minimal false b p = refl

push-hash :
    (m : Machine) (h : Buffer)
    → length h ≡ 20
    → check_minimal_push m.script (m.pc - 1) ≡ true
    → push_data (push_chunk 20 20 h) m ≡ ok (record m { stack = h ∷ m.stack })
unfolding push_data pushed_data
push-hash m h e p = rw (p, not-minimal (has_flag m.flags verify_minimaldata) true refl, e) refl

is_too_long-hash : (h : Buffer) → length h ≡ 20 → is_too_long (some h) ≡ false
is_too_long-hash h e = rw e refl

step_chunk-hash :
    (env : Env) (m : Machine) (h : Buffer)
    → length h ≡ 20
    → check_minimal_push m.script (m.pc - 1) ≡ true
    → m.vf_exec ≡ []
    → step_chunk env (push_chunk 20 20 h) m ≡ ok (record m { stack = h ∷ m.stack })
unfolding step_chunk count_op is_opcode_disabled contains execute all_true
step_chunk-hash env m h e p v =
    rw (is_too_long-hash h e, v) (push-hash (record m { vf_exec = [] }) h e p)

-- One round of the loop, on a stack with room.
run_loop-round :
    (env : Env) (fuel : ℕ) (m : Machine) (c : Chunk)
    → ltb m.pc (length m.script) ≡ true
    → ltb 1000 (length m.stack) ≡ false
    → get_elem? m.script m.pc ≡ some c
    → run_loop env (suc fuel) m
      ≡ (step_chunk env c (record m { pc = m.pc + 1 }) >>= λ m'. run_loop env fuel m')
unfolding run_loop step step_at
run_loop-round env fuel m c p q r = rw (p, q, r) refl

run_loop-goes-on :
    (env : Env) (fuel : ℕ) (m m' : Machine) (c : Chunk)
    → ltb m.pc (length m.script) ≡ true
    → ltb 1000 (length m.stack) ≡ false
    → get_elem? m.script m.pc ≡ some c
    → step_chunk env c (record m { pc = m.pc + 1 }) ≡ ok m'
    → run_loop env (suc fuel) m ≡ run_loop env fuel m'
run_loop-goes-on env fuel m m' c p q r e = run_loop-round env fuel m c p q r ∙ rw e refl

step_chunk-dup :
    (env : Env) (h pubkey : Buffer) (flags : ℕ) (s : List Buffer)
    → step_chunk env (op_chunk 118) record (initial (p2pkh h) flags (pubkey ∷ s)) { pc = 1 }
      ≡ ok record (initial (p2pkh h) flags (pubkey ∷ pubkey ∷ s)) { pc = 1; n_op_count = 1 }
unfolding step_chunk count_op is_opcode_disabled contains execute all_true exec_opcode decode
    find_op exec_op item_op
step_chunk-dup env h pubkey flags s = refl

step_chunk-hash160 :
    (env : Env) (h pubkey : Buffer) (flags : ℕ) (s : List Buffer)
    → step_chunk env
        (op_chunk 169)
        record (initial (p2pkh h) flags (pubkey ∷ s)) { pc = 2; n_op_count = 1 }
      ≡ ok record (initial (p2pkh h) flags (env.sha256ripemd160 pubkey ∷ s)) {
        pc = 2;
        n_op_count = 2;
      }
unfolding step_chunk count_op is_opcode_disabled contains execute all_true exec_opcode decode
    find_op exec_op hash_op hash_of
step_chunk-hash160 env h pubkey flags s = refl

-- OP_EQUALVERIFY takes two equal elements off, and refuses different ones.
step_chunk-equalverify :
    (env : Env) (h a b : Buffer) (flags : ℕ) (s : List Buffer)
    → step_chunk env
        (op_chunk 136)
        record (initial (p2pkh h) flags (b ∷ a ∷ s)) { pc = 4; n_op_count = 2 }
      ≡ (if same_bytes a b
          then ok record (initial (p2pkh h) flags s) { pc = 4; n_op_count = 3 }
          else err equalverify)
unfolding step_chunk count_op is_opcode_disabled contains execute all_true exec_opcode decode
    find_op exec_op equal_op
step_chunk-equalverify env h a b flags s = elim (Bool-cases (same_bytes a b)) [
  | inl p ↦ rw p refl
  | inr p ↦ rw p refl
]

step_chunk-checksig :
    (env : Env) (h : Buffer) (flags : ℕ) (s : List Buffer)
    → step_chunk env (op_chunk 172) record (initial (p2pkh h) flags s) { pc = 5; n_op_count = 3 }
      ≡ on_stack (at_checksig h flags s) (checksig_op env false (at_checksig h flags s) s)
unfolding step_chunk count_op is_opcode_disabled contains execute all_true exec_opcode decode
    find_op exec_op
step_chunk-checksig env h flags s = refl

-- The first three opcodes push the hash of the public key and the hash of the script.
p2pkh-hashes :
    (env : Env) (h pubkey sig : Buffer) (flags : ℕ) (s : List Buffer)
    → length h ≡ 20
    → length s < 900
    → run_loop env 5 (initial (p2pkh h) flags (pubkey ∷ sig ∷ s))
      ≡ run_loop env 2
          record (initial (p2pkh h) flags (h ∷ env.sha256ripemd160 pubkey ∷ pubkey ∷ sig ∷ s)) {
            pc = 3;
            n_op_count = 2;
          }
p2pkh-hashes env h pubkey sig flags s e l =
    run_loop-goes-on env 4 (initial (p2pkh h) flags (pubkey ∷ sig ∷ s))
      record (initial (p2pkh h) flags (pubkey ∷ pubkey ∷ sig ∷ s)) { pc = 1; n_op_count = 1 }
      (op_chunk 118) refl (room_two (length s) l) refl (step_chunk-dup env h pubkey flags (sig ∷ s))
    ∙ run_loop-goes-on env 3
        record (initial (p2pkh h) flags (pubkey ∷ pubkey ∷ sig ∷ s)) { pc = 1; n_op_count = 1 }
        record (initial (p2pkh h) flags (env.sha256ripemd160 pubkey ∷ pubkey ∷ sig ∷ s)) {
          pc = 2;
          n_op_count = 2;
        }
        (op_chunk 169) refl (room_three (length s) l) refl
        (step_chunk-hash160 env h pubkey flags (pubkey ∷ sig ∷ s))
    ∙ run_loop-goes-on env 2
        record (initial (p2pkh h) flags (env.sha256ripemd160 pubkey ∷ pubkey ∷ sig ∷ s)) {
          pc = 2;
          n_op_count = 2;
        }
        record (initial (p2pkh h) flags (h ∷ env.sha256ripemd160 pubkey ∷ pubkey ∷ sig ∷ s)) {
          pc = 3;
          n_op_count = 2;
        }
        (push_chunk 20 20 h) refl (room_three (length s) l) refl
        (step_chunk-hash env
          record (initial (p2pkh h) flags (env.sha256ripemd160 pubkey ∷ pubkey ∷ sig ∷ s)) {
            pc = 3;
            n_op_count = 2;
          }
          h e (unfold check_minimal_push in is_minimal_push-hash h e) refl)

run_loop-last : (env : Env) (r : Result Machine) → (r >>= λ m. run_loop env 0 m) ≡ r
unfolding run_loop
run_loop-last env (ok m) = refl
run_loop-last env (err e) = refl
run_loop-last env (throws t) = refl

p2pkh-checksig :
    (env : Env) (h : Buffer) (flags : ℕ) (pubkey sig : Buffer) (s : List Buffer)
    → length s < 900
    → run_loop env 1 record (initial (p2pkh h) flags (pubkey ∷ sig ∷ s)) { pc = 4; n_op_count = 3 }
      ≡ on_stack
          (at_checksig h flags (pubkey ∷ sig ∷ s))
          (checksig_op env false (at_checksig h flags (pubkey ∷ sig ∷ s)) (pubkey ∷ sig ∷ s))
p2pkh-checksig env h flags pubkey sig s l =
    run_loop-round env 0
      record (initial (p2pkh h) flags (pubkey ∷ sig ∷ s)) { pc = 4; n_op_count = 3 } (op_chunk 172)
      refl (room_two (length s) l) refl
    ∙ run_loop-last env _
    ∙ step_chunk-checksig env h flags (pubkey ∷ sig ∷ s)

-- The run of the whole script: OP_CHECKSIG is reached only behind an equal hash.
p2pkh-run :
    (env : Env) (h pubkey sig : Buffer) (flags : ℕ) (s : List Buffer)
    → length h ≡ 20
    → length s < 900
    → run_loop env 5 (initial (p2pkh h) flags (pubkey ∷ sig ∷ s)) ≡ (
        if same_bytes (env.sha256ripemd160 pubkey) h
        then on_stack
            (at_checksig h flags (pubkey ∷ sig ∷ s))
            (checksig_op env false (at_checksig h flags (pubkey ∷ sig ∷ s)) (pubkey ∷ sig ∷ s))
        else err equalverify)
p2pkh-run env h pubkey sig flags s e l =
    p2pkh-hashes env h pubkey sig flags s e l
    ∙ run_loop-round env 1
        record (initial (p2pkh h) flags (h ∷ env.sha256ripemd160 pubkey ∷ pubkey ∷ sig ∷ s)) {
          pc = 3;
          n_op_count = 2;
        }
        (op_chunk 136) refl (room_four (length s) l) refl
    ∙ ap (λ r. r >>= λ m'. run_loop env 1 m')
        (step_chunk-equalverify env h (env.sha256ripemd160 pubkey) h flags (pubkey ∷ sig ∷ s))
    ∙ elim (Bool-cases (same_bytes (env.sha256ripemd160 pubkey) h)) [
      | inl p ↦ rw p (p2pkh-checksig env h flags pubkey sig s l)
      | inr p ↦ rw p refl
    ]

evaluate-p2pkh :
    (env : Env) (h pubkey sig : Buffer) (flags : ℕ) (s : List Buffer)
    → length h ≡ 20
    → length s < 900
    → evaluate env (initial (p2pkh h) flags (pubkey ∷ sig ∷ s))
      ≡ catch_all (
          (if same_bytes (env.sha256ripemd160 pubkey) h
            then on_stack
                (at_checksig h flags (pubkey ∷ sig ∷ s))
                (checksig_op env false (at_checksig h flags (pubkey ∷ sig ∷ s)) (pubkey ∷ sig ∷ s))
            else err equalverify)
          >>= finish)
unfolding evaluate
evaluate-p2pkh env h pubkey sig flags s e l =
    let (b, p, n) = p2pkh-bytes h e in
    rw (p, p2pkh-run env h pubkey sig flags s e l, short b n) refl
  where
    short : (b : Buffer) → length b ≡ 25 → ltb 10000 (length b) ≡ false
    short b n = rw n refl

-- A pay-to-public-key-hash script refuses a public key with another hash. The hash has 20 bytes,
-- and fewer than 900 elements lie below the signature.
pub evaluate-p2pkh-other :
    (env : Env) (h pubkey sig : Buffer) (flags : ℕ) (s : List Buffer)
    → length h ≡ 20
    → length s < 900
    → env.sha256ripemd160 pubkey ≢ h
    → evaluate env (initial (p2pkh h) flags (pubkey ∷ sig ∷ s)) ≡ err equalverify
evaluate-p2pkh-other env h pubkey sig flags s e l d =
    evaluate-p2pkh env h pubkey sig flags s e l
    ∙ elim (Bool-cases (same_bytes (env.sha256ripemd160 pubkey) h)) [
      | inl p ↦ absurd (d (same_bytes→eq _ _ p))
      | inr p ↦ unfold catch_all in rw p refl
    ]

at_checksig-subscript :
    (h pubkey sig : Buffer) (flags : ℕ) (s : List Buffer) {sub : List Chunk}
    → subscript (initial (p2pkh h) flags []) sig ≡ ok sub
    → subscript (at_checksig h flags (pubkey ∷ sig ∷ s)) sig ≡ ok sub
unfolding subscript
at_checksig-subscript h pubkey sig flags s d = d

at_checksig-initial :
    (h pubkey sig : Buffer) (flags : ℕ) (s : List Buffer) {sub : List Chunk}
    → subscript (at_checksig h flags (pubkey ∷ sig ∷ s)) sig ≡ ok sub
    → subscript (initial (p2pkh h) flags []) sig ≡ ok sub
unfolding subscript
at_checksig-initial h pubkey sig flags s d = d

room_one : (n : ℕ) → n < 900 → ltb 1000 (suc n + 0) ≡ false
room_one n p = ground arith

finish-room :
    (m : Machine)
    → ltb 1000 (length m.stack + length m.altstack) ≡ false
    → m.vf_exec ≡ []
    → finish m ≡ ok m
unfolding finish
finish-room m p q = rw (p, q) refl

finish-ok : (m m' : Machine) → finish m ≡ ok m' → m ≡ m'
unfolding finish
finish-ok m m' q =
    let (a, b) =
      refuse-ok (ltb 1000 (length m.stack + length m.altstack)) stack_size
        (refuse (not (length m.vf_exec == 0)) unbalanced_conditional >> ok m) q in
    let (c, d) = refuse-ok (not (length m.vf_exec == 0)) unbalanced_conditional (ok m) b in ok-inj d

catch_all-ok : (r : Result Machine) (m : Machine) → catch_all r ≡ ok m → r ≡ ok m
unfolding catch_all
catch_all-ok (ok a) m q = q
catch_all-ok (err e) m q = cc
catch_all-ok (throws t) m q = cc

-- What OP_CHECKSIG checked where it did not fail.
checksig_op-ok :
    (env : Env) (m : Machine) (pubkey sig : Buffer) (s t : List Buffer)
    → checksig_op env false m (pubkey ∷ sig ∷ s) ≡ ok t
    → (check_tx_signature_encoding env m.flags sig ≡ ok tt)
      × (check_pubkey_encoding env m.flags pubkey ≡ ok tt)
      × (sub : List Chunk) × (subscript m sig ≡ ok sub)
      × (t ≡ bool_buffer (signature_succeeds env m.flags sig pubkey sub) ∷ s)
unfolding checksig_op push_result check_nullfail
checksig_op-ok env m pubkey sig s t q =
    let (u, a, b) = >>=-eq-ok _ _ q in
    let (v, c, d) = >>=-eq-ok _ _ b in
    let (sub, f, g) = >>=-eq-ok _ _ d in
    let success = signature_succeeds env m.flags sig pubkey sub in
    let (i, j) =
      refuse-ok (not success && has_flag m.flags verify_nullfail && not (length sig == 0)) nullfail
        (ok (bool_buffer success ∷ s)) g in
    (a, c, sub, f, sym (ok-inj j))

on_stack-ok :
    (m m' : Machine) (r : Result (List Buffer))
    → on_stack m r ≡ ok m'
    → (t : List Buffer) × (r ≡ ok t) × (m'.stack ≡ t)
on_stack-ok m m' (ok t) q = (t, refl, cc)
on_stack-ok m m' (err e) q = cc
on_stack-ok m m' (throws t) q = cc

-- A pay-to-public-key-hash script that runs to its end has a public key with the hash of the
-- script, encodings of the signature and of the key that the flags allow, and leaves the result
-- of the signature's verification on the rest of the stack. The hash has 20 bytes, and fewer
-- than 900 elements lie below the signature.
pub evaluate-p2pkh-ok :
    (env : Env) (h pubkey sig : Buffer) (flags : ℕ) (s : List Buffer) (m : Machine)
    → length h ≡ 20
    → length s < 900
    → evaluate env (initial (p2pkh h) flags (pubkey ∷ sig ∷ s)) ≡ ok m
    → (env.sha256ripemd160 pubkey ≡ h)
      × (check_tx_signature_encoding env flags sig ≡ ok tt)
      × (check_pubkey_encoding env flags pubkey ≡ ok tt)
      × (sub : List Chunk) × (subscript (initial (p2pkh h) flags []) sig ≡ ok sub)
      × (m.stack ≡ bool_buffer (signature_succeeds env flags sig pubkey sub) ∷ s)
unfolding catch_all checksig_op finish check_nullfail push_result
evaluate-p2pkh-ok env h pubkey sig flags s m e l q =
    let ran = catch_all-ok _ m (sym (evaluate-p2pkh env h pubkey sig flags s e l) ∙ q) in
    let (m', a, b) = >>=-eq-ok _ _ ran in
    let (p, r) = if-ok (same_bytes (env.sha256ripemd160 pubkey) h) _ equalverify a in
    let (t, c, d) = on_stack-ok (at_checksig h flags (pubkey ∷ sig ∷ s)) m' _ r in
    let (f, g, sub, i, j) =
      checksig_op-ok env (at_checksig h flags (pubkey ∷ sig ∷ s)) pubkey sig s t c in
    (
      same_bytes→eq (env.sha256ripemd160 pubkey) h p,
      f,
      g,
      sub,
      at_checksig-initial h pubkey sig flags s i,
      sym (ap (λ x. x.stack) (finish-ok m' m b)) ∙ d ∙ j,
    )

-- Where the public key has the hash of a pay-to-public-key-hash script, the encodings pass their
-- checks and the signature is verified, the script ends with the byte 1 on the rest of the
-- stack. The hash has 20 bytes, and fewer than 900 elements lie below the signature.
pub evaluate-p2pkh-spends :
    (env : Env) (h pubkey sig : Buffer) (flags : ℕ) (s : List Buffer) (sub : List Chunk)
    → length h ≡ 20
    → length s < 900
    → env.sha256ripemd160 pubkey ≡ h
    → check_tx_signature_encoding env flags sig ≡ ok tt
    → check_pubkey_encoding env flags pubkey ≡ ok tt
    → subscript (initial (p2pkh h) flags []) sig ≡ ok sub
    → signature_succeeds env flags sig pubkey sub ≡ true
    → evaluate env (initial (p2pkh h) flags (pubkey ∷ sig ∷ s))
      ≡ ok record (initial (p2pkh h) flags ((1 ∷ []) ∷ s)) { pc = 5; n_op_count = 4 }
unfolding catch_all checksig_op finish check_nullfail push_result
evaluate-p2pkh-spends env h pubkey sig flags s sub e l a b c d f =
    evaluate-p2pkh env h pubkey sig flags s e l
    ∙ rw (a, same_bytes_refl h, b, c, at_checksig-subscript h pubkey sig flags s d, f)
        (ap catch_all (finish-room _ (room_one (length s) l) refl))
