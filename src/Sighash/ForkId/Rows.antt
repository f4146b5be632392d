-- ===== src/Sighash/ForkId/Rows.antt =====
-- Rows of previous outputs, of sequence numbers and of outputs, as they are hashed.
use lotus_sdk.Common.{
  ℕ, List, [], ◌∷◌, ◌++◌, map, reverse, length, ◌<◌, ◌≡◌, ◌⊎◌, inl, inr, refl, sym, ap, ◌∙◌, All,
  lt→ltb, length-append, arith, length-reverse,
}
use lotus_sdk.ScriptNum.{Buffer}
use lotus_sdk.Errors.{Result, ok, ok-inj, >>=-eq-ok}
use lotus_sdk.Script.{read_uint32_le, write_uint32_le}
use lotus_sdk.Encoding.{
  ◌followed_by◌, write_varint_num, write_uint64_le_bn, write_var_length_buffer, write_all,
}
use lotus_sdk.Transaction.{write_output, satoshis_of}
use lotus_sdk.Transaction.Inputs.{Input}
use lotus_sdk.Transaction.Outputs
use lotus_sdk.Transaction.Outputs.{Output}
use lotus_sdk.Encoding.RoundTrip.{Rereads, write_uint32_le-Rereads}
use lotus_sdk.Encoding.Lengths.{write_uint32_le-length, write_uint64_le_bn-length}
use mathlib.Core.List.{append_assoc, reverse-reverse}
use lotus_sdk.Merkle.Binding.{append-inj, Clash, same_hash}
use lotus_sdk.Transaction.RoundTrip.{ValidInput, ValidOutput, output-Rereads}
use lotus_sdk.Sighash.ForkId.{write_prevout, hash_all}
use lotus_sdk.Sighash.ForkId.Parts.{Rereads-first}

-- The item in front of what is written is known by its bytes.
abbrev pub First : {A K : Type 0} → (A → Type 0) → (A → Result Buffer) → (A → K) → Type 0
First {A} P writer key =
    (a b : A) (x y x' y' : Buffer)
    → P a
    → P b
    → writer a ≡ ok x
    → writer b ≡ ok y
    → x ++ x' ≡ y ++ y'
    → (key a ≡ key b) × (x' ≡ y')

abbrev pub Nonempty : {A : Type 0} → (A → Type 0) → (A → Result Buffer) → Type 0
Nonempty {A} P writer = (a : A) (x : Buffer) → P a → writer a ≡ ok x → 0 < length x

module _ {A K : Type 0} (P : A → Type 0) (writer : A → Result Buffer) (key : A → K)
    (first : First P writer key) (nonempty : Nonempty P writer) where
  -- Rows of the same bytes are rows of the same keys.
  write_all-inj :
      (items items' : List A) {x y : Buffer}
      → All P items
      → All P items'
      → write_all writer items ≡ ok x
      → write_all writer items' ≡ ok y
      → x ≡ y
      → map key items ≡ map key items'
  unfolding write_all
  write_all-inj [] [] h k e f same = refl
  write_all-inj [] (b ∷ items') h k e f same =
      let (y, y_written, more) = >>=-eq-ok (writer b) _ f in
      let (ys, ys_written, done) = >>=-eq-ok (write_all writer items') _ more in
      let empty : [] ≡ y ++ ys = ok-inj e ∙ same ∙ sym (ok-inj done) in
      absurd (omega (arith, nonempty b y k.0 y_written, ap length empty, length-append y ys))
  write_all-inj (a ∷ items) [] h k e f same =
      let (x, x_written, more) = >>=-eq-ok (writer a) _ e in
      let (xs, xs_written, done) = >>=-eq-ok (write_all writer items) _ more in
      let empty : x ++ xs ≡ [] = ok-inj done ∙ same ∙ sym (ok-inj f) in
      absurd (omega (arith, nonempty a x h.0 x_written, ap length empty, length-append x xs))
  write_all-inj (a ∷ items) (b ∷ items') h k e f same =
      let (x, x_written, more) = >>=-eq-ok (writer a) _ e in
      let (xs, xs_written, done) = >>=-eq-ok (write_all writer items) _ more in
      let (y, y_written, more') = >>=-eq-ok (writer b) _ f in
      let (ys, ys_written, done') = >>=-eq-ok (write_all writer items') _ more' in
      let whole : x ++ xs ≡ y ++ ys = ok-inj done ∙ same ∙ sym (ok-inj done') in
      let (head, tail) = first a b x y xs ys h.0 k.0 x_written y_written whole in
      let rest = write_all-inj items items' h.1 k.1 xs_written ys_written tail in cc

  -- Rows with one hash are rows of the same keys, or the two rows collide.
  pub hash_all-inj :
      (hash : Buffer → Buffer) (items items' : List A) {x y : Buffer}
      → All P items
      → All P items'
      → hash_all hash writer items ≡ ok x
      → hash_all hash writer items' ≡ ok y
      → x ≡ y
      → (map key items ≡ map key items')
        ⊎ Clash hash (write_all writer items) (write_all writer items')
  unfolding hash_all
  hash_all-inj hash items items' h k e f same =
      let (x, x_written, x_hashed) = >>=-eq-ok (write_all writer items) _ e in
      let (y, y_written, y_hashed) = >>=-eq-ok (write_all writer items') _ f in
      elim (same_hash hash x y (ok-inj x_hashed ∙ same ∙ sym (ok-inj y_hashed))) [
        | inl p ↦ inl (write_all-inj items items' h k x_written y_written p)
        | inr c ↦ inr (x, y, x_written, y_written, c)
      ]

abbrev pub Outpoint : Type 0
Outpoint = Buffer × ℕ

abbrev pub outpoint : Input → Outpoint
outpoint input = (input.prev_tx_id, input.output_index)

pub prevout-First : First ValidInput write_prevout outpoint
unfolding write_prevout
prevout-First a b x y x' y' v w e f same =
    let (i, i_written, i_done) = >>=-eq-ok (write_uint32_le a.output_index) _ e in
    let (j, j_written, j_done) = >>=-eq-ok (write_uint32_le b.output_index) _ f in
    let shape : reverse a.prev_tx_id ++ (i ++ x') ≡ reverse b.prev_tx_id ++ (j ++ y') =
      sym (append_assoc (reverse a.prev_tx_id) i x')
      ∙ ap (λ (z : Buffer). z ++ x') (ok-inj i_done)
      ∙ same
      ∙ ap (λ (z : Buffer). z ++ y') (sym (ok-inj j_done))
      ∙ append_assoc (reverse b.prev_tx_id) j y' in
    let (ids, rest) =
      append-inj (reverse a.prev_tx_id) (i ++ x') (reverse b.prev_tx_id) (j ++ y')
        (length-reverse a.prev_tx_id
          ∙ v.id_length
          ∙ sym (length-reverse b.prev_tx_id ∙ w.id_length))
        shape in
    let (index, tail) =
      Rereads-first read_uint32_le i j x' y' (write_uint32_le-Rereads a.output_index v.index_fits)
        (write_uint32_le-Rereads b.output_index w.index_fits) i_written j_written rest in
    let id : a.prev_tx_id ≡ b.prev_tx_id =
      sym (reverse-reverse a.prev_tx_id) ∙ ap reverse ids ∙ reverse-reverse b.prev_tx_id in
    (cc, tail)

pub prevout-length :
    (a : Input) (x : Buffer) → ValidInput a → write_prevout a ≡ ok x → length x ≡ 36
unfolding write_prevout
prevout-length a x v e =
    let (i, i_written, i_done) = >>=-eq-ok (write_uint32_le a.output_index) _ e in
    omega (
      arith,
      ap length (ok-inj i_done),
      length-append (reverse a.prev_tx_id) i,
      length-reverse a.prev_tx_id,
      write_uint32_le-length a.output_index i_written,
      v.id_length,
    )

pub prevout-Nonempty : Nonempty ValidInput write_prevout
prevout-Nonempty a x v e = omega (arith, prevout-length a x v e)

abbrev pub sequence_of : Input → ℕ
sequence_of input = input.sequence_number

abbrev pub write_sequence : Input → Result Buffer
write_sequence input = write_uint32_le input.sequence_number

pub sequence-First : First ValidInput write_sequence sequence_of
sequence-First a b x y x' y' v w e f same =
    Rereads-first read_uint32_le x y x' y'
      (write_uint32_le-Rereads a.sequence_number v.sequence_fits)
      (write_uint32_le-Rereads b.sequence_number w.sequence_fits) e f same

pub sequence-Nonempty : Nonempty ValidInput write_sequence
sequence-Nonempty a x v e = omega (arith, write_uint32_le-length a.sequence_number e)

-- Below 2^53 both writers of an output write the same.
write_output-to_buffer_writer :
    (output : Output) → ValidOutput output → write_output output ≡ Outputs.to_buffer_writer output
unfolding write_output satoshis_of write_var_length_buffer Outputs.to_buffer_writer
write_output-to_buffer_writer output v = rw (lt→ltb _ _ v.satoshis_fit) refl

pub output_bn-Rereads :
    (output : Output)
    → ValidOutput output
    → Rereads (Outputs.to_buffer_writer output) Outputs.from_buffer_reader output
output_bn-Rereads output v =
    let (bytes, written, reread) = output-Rereads output v in
    (bytes, sym (write_output-to_buffer_writer output v) ∙ written, reread)

abbrev pub itself : Output → Output
itself output = output

pub output-First : First ValidOutput Outputs.to_buffer_writer itself
output-First a b x y x' y' v w e f same =
    Rereads-first Outputs.from_buffer_reader x y x' y' (output_bn-Rereads a v)
      (output_bn-Rereads b w) e f same

pub output-Nonempty : Nonempty ValidOutput Outputs.to_buffer_writer
unfolding Outputs.to_buffer_writer
output-Nonempty a x v e =
    let (amount, amount_written, more) = >>=-eq-ok (write_uint64_le_bn a.satoshis_bn) _ e in
    let (rest, rest_written, done) =
      >>=-eq-ok (write_varint_num (length a.script_buffer) followed_by ok a.script_buffer) _ more in
    omega (
      arith,
      ap length (ok-inj done),
      length-append amount rest,
      write_uint64_le_bn-length a.satoshis_bn amount_written,
    )
