-- ===== src/ReplayProtection/Past.antt =====
-- No operation takes the last sequence number of a signer back.
use lotus_sdk.Common.{
  ℕ, ◌≡◌, ◌≢◌, ◌⊎◌, inl, inr, refl, ◌∙◌, true, false, not, ◌&&◌, Option, none, some, List, [], ltb,
  ◌==◌, ==_iff, Bool-cases, arith,
}
use lotus_sdk.Common.Ints.{ℤ, negsuc, leb_ℤ}
use lotus_sdk.Common.Assoc.{get, has_key, put, get-put_self, get-put_ne}
use lotus_sdk.ReplayProtection.{
  Config, ReplayProtection, Message, Origin, valid, sequence_number_not_increasing, age, or_else,
  last_sequence, with_sequences, record_message_id, check_numbers, check_sequence_number,
  validate_sequence_number, check_message_id, validate_message,
}

-- The number is at most the last one of the signer in the session.
abbrev pub IsPast : ℕ → ℕ → ℤ → ReplayProtection → Type 0
IsPast session signer q r = leb_ℤ q (last_sequence r session signer) ≡ true

-- Other sessions' maps do not matter.
last-other :
    (r r' : ReplayProtection) (session signer other : ℕ) (seqs : List (ℕ × ℤ))
    → r'.session_sequences ≡ put r.session_sequences other seqs
    → other ≢ session
    → last_sequence r' session signer ≡ last_sequence r session signer
unfolding last_sequence
last-other r r' session signer other seqs e ne =
    rw (e, get-put_ne r.session_sequences {key = other} {other = session} seqs ne) refl

last-put :
    (r r' : ReplayProtection) (session signer : ℕ) (seqs : List (ℕ × ℤ))
    → r'.session_sequences ≡ put r.session_sequences session seqs
    → last_sequence r' session signer ≡ or_else (get seqs signer) (negsuc 0)
unfolding last_sequence or_else
last-put r r' session signer seqs e = rw (e, get-put_self r.session_sequences session seqs) refl

-- A number that is accepted is the last one from then on, and lay beyond the last one before.
pub accepted-last :
    (session signer : ℕ) (q : ℤ) (r : ReplayProtection)
    → (validate_sequence_number session signer q r).0 ≡ valid
    → (leb_ℤ q (last_sequence r session signer) ≡ false)
      × (last_sequence (validate_sequence_number session signer q r).1 session signer ≡ q)
unfolding validate_sequence_number
accepted-last session signer q r accepted =
    elim (Bool-cases (leb_ℤ q (last_sequence r session signer))) [
      | inl p ↦ let refused : sequence_number_not_increasing ≡ valid = rw p at accepted in cc
      | inr p ↦ (
        p,
        rw p (
            last-put r _ session signer
              (put (or_else (get r.session_sequences session) []) signer q) refl
            ∙ unfold or_else in
              rw (get-put_self (or_else (get r.session_sequences session) []) signer q) refl),
      )
    ]

le_trans : (a b c : ℤ) → leb_ℤ a b ≡ true → leb_ℤ b c ≡ true → leb_ℤ a c ≡ true
le_trans a b c h k = ground (arith, h, k)

lt→le : (a b c : ℤ) → leb_ℤ a b ≡ true → leb_ℤ c b ≡ false → leb_ℤ a c ≡ true
lt→le a b c h k = ground (arith, h, k)

-- A session's map put back as it was changes no last number.
last-same :
    (r r' : ReplayProtection) (session signer other : ℕ)
    → r'.session_sequences
      ≡ put r.session_sequences other (or_else (get r.session_sequences other) [])
    → last_sequence r' session signer ≡ last_sequence r session signer
last-same r r' session signer other e = elim (Bool-cases (other == session)) [
  | inl p ↦
      let same : other ≡ session = (==_iff other session).0 p in
      last-put r r' session signer (or_else (get r.session_sequences session) []) (rw same at e)
      ∙ unfold last_sequence in refl
  | inr p ↦ last-other r r' session signer other _ e (λ q. ground (arith, q, p))
]

-- A number put in the map of one signer changes that signer's last number only.
last-new :
    (r r' : ReplayProtection) (session signer other index : ℕ) (p : ℤ)
    → r'.session_sequences
      ≡ put r.session_sequences other (put (or_else (get r.session_sequences other) []) index p)
    → (last_sequence r' session signer ≡ last_sequence r session signer)
      ⊎ ((other ≡ session) × (index ≡ signer) × (last_sequence r' session signer ≡ p))
last-new r r' session signer other index p e = elim (Bool-cases (other == session)) [
  | inr x ↦ inl (last-other r r' session signer other _ e (λ q. ground (arith, q, x)))
  | inl x ↦
      let same : other ≡ session = (==_iff other session).0 x in
      let seqs = or_else (get r.session_sequences session) [] in
      let at = last-put r r' session signer (put seqs index p) (rw same at e) in
      elim (Bool-cases (index == signer)) [
        | inl y ↦
            let mine : index ≡ signer = (==_iff index signer).0 y in
            inr (same, mine, at ∙ unfold or_else in rw (mine, get-put_self seqs signer p) refl)
        | inr y ↦ inl (
            at
            ∙ unfold last_sequence in
              rw (get-put_ne seqs {key = index} {other = signer} p (λ q. ground (arith, q, y)))
                refl)
      ]
]

-- `validateSequenceNumber`, for any session and signer, does not take the last number back.
validate-IsPast :
    (session signer other index : ℕ) (q p : ℤ) (r : ReplayProtection)
    → IsPast session signer q r
    → IsPast session signer q (validate_sequence_number other index p r).1
unfolding validate_sequence_number
validate-IsPast session signer other index q p r h =
    elim (Bool-cases (leb_ℤ p (last_sequence r other index))) [
      | inl refused ↦ rw refused (
          rw
            (last-same r
              (with_sequences r
                (put r.session_sequences other (or_else (get r.session_sequences other) [])))
              session signer other refl)
            h)
      | inr accepted ↦
          rw accepted
            (elim (last-new r
              (with_sequences r (
                put r.session_sequences other
                  (put (or_else (get r.session_sequences other) []) index p)))
              session signer other index p refl) [
                | inl e ↦ rw e h
                | inr (s, m, e) ↦
                    rw e (lt→le q (last_sequence r session signer) p h (rw (s, m) at accepted))
              ])
    ]

-- Only `session_sequences` matters.
pub sequences-IsPast :
    (session signer : ℕ) (q : ℤ) (r r' : ReplayProtection)
    → r'.session_sequences ≡ r.session_sequences
    → IsPast session signer q r
    → IsPast session signer q r'
unfolding last_sequence
sequences-IsPast session signer q r r' e h = rw e h

numbers-IsPast :
    (session signer : ℕ) (q : ℤ) (s i : Option ℕ) (n : Option ℤ) (r : ReplayProtection)
    → IsPast session signer q r
    → IsPast session signer q (check_numbers s i n r).1
unfolding check_numbers
numbers-IsPast session signer q none i n r h = h
numbers-IsPast session signer q (some s) none n r h = h
numbers-IsPast session signer q (some s) (some i) none r h = h
numbers-IsPast session signer q (some s) (some i) (some n) r h =
    validate-IsPast session signer s i q n r h

check-IsPast :
    (session signer : ℕ) (q : ℤ) (config : Config) (origin : Origin) (r : ReplayProtection)
    → IsPast session signer q r
    → IsPast session signer q (check_sequence_number config origin r).1
unfolding check_sequence_number
check-IsPast session signer q config origin r h =
    elim (Bool-cases config.enable_sequence_validation) [
      | inr off ↦ rw off h
      | inl on ↦ rw on (
          numbers-IsPast session signer q origin.session_id origin.signer_index
            origin.sequence_number r h)
    ]

id-IsPast :
    (session signer : ℕ) (q : ℤ) (config : Config) (now : ℕ) (id : Option ℕ) (origin : Origin)
    (r : ReplayProtection)
    → IsPast session signer q r
    → IsPast session signer q (check_message_id config now id origin r).1
unfolding check_message_id
id-IsPast session signer q config now none origin r h =
    check-IsPast session signer q config origin r h
id-IsPast session signer q config now (some i) origin r h =
    elim (Bool-cases (has_key r.seen_messages i)) [
      | inl p ↦ rw p h
      | inr p ↦ rw p (
          check-IsPast session signer q config origin (record_message_id config i now r) (
            sequences-IsPast session signer q r (record_message_id config i now r)
              (unfold record_message_id in refl) h))
    ]

pub message-IsPast :
    (session signer : ℕ) (q : ℤ) (config : Config) (now : ℕ) (message : Message) (origin : Origin)
    (r : ReplayProtection)
    → IsPast session signer q r
    → IsPast session signer q (validate_message config now message origin r).1
unfolding validate_message
message-IsPast session signer q config now message origin r h =
    elim (Bool-cases
      (not (message.timestamp == 0) && ltb config.max_message_age (age now message.timestamp))) [
        | inl p ↦ rw p h
        | inr p ↦ rw p (id-IsPast session signer q config now message.message_id origin r h)
      ]
