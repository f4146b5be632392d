-- ===== src/Base58Check/Alphabet.antt =====
-- The letters of the alphabet and their numbers.
use lotus_sdk.Common.{
  ℕ, zero, suc, ◌+◌, ◌*◌, ◌<◌, ◌≡◌, refl, sym, ap, Bool, true, false, ◌&&◌, Option, none, some,
  List, [], ◌∷◌, map, length, All, ◌==◌, arith, inl, inr, Bool-cases, if◌then◌else◌, not, ◌⊎◌,
}
use lotus_sdk.Rank.Text
use lotus_sdk.Errors.{ok, >>=-eq-ok, ok-inj}
use lotus_sdk.Rank.Targets.{and-true}
use lotus_sdk.Base58Check.{
  alphabet, letter_in, letter, next, index_in, index_of, number, leading, index_or_throw,
  read_number,
}

abbrev pub IsDigit : ℕ → Type 0
IsDigit d = d < 58

-- All letters, tried one after the other: each has its index, and only the first one is `1`.
is_index : ℕ → Option ℕ → Bool
is_index i none = false
is_index i (some j) = i == j

letter_is_fit : ℕ → Bool
letter_is_fit i =
    is_index i (index_of (letter i)) && (if letter i == b'1' then i == 0 else not (i == 0))

letters_are_fit : ℕ → Bool
letters_are_fit zero = true
letters_are_fit (suc n) = letter_is_fit n && letters_are_fit n

all_letters : letters_are_fit 58 ≡ true
unfolding letters_are_fit letter_is_fit is_index index_in letter_in next
all_letters = refl

letters_below : (n i : ℕ) → letters_are_fit n ≡ true → i < n → letter_is_fit i ≡ true
unfolding letters_are_fit
letters_below zero i h l = absurd (omega (arith, l))
letters_below (suc n) i h l =
    let (last, others) = and-true (letter_is_fit n) (letters_are_fit n) h in
    elim (Bool-cases (i == n)) [
      | inl p ↦ let same : i ≡ n = ground (arith, p) in rw same last
      | inr p ↦ letters_below n i others (ground (arith, l, p))
    ]

fit_letter :
    (i : ℕ)
    → i < 58
    → (is_index i (index_of (letter i)) ≡ true)
      × ((if letter i == b'1' then i == 0 else not (i == 0)) ≡ true)
unfolding letter_is_fit
fit_letter i l = and-true _ _ (letters_below 58 i all_letters l)

is_index-some : (i : ℕ) (o : Option ℕ) → is_index i o ≡ true → o ≡ some i
unfolding is_index
is_index-some i none h = cc
is_index-some i (some j) h = let same : j ≡ i = ground (arith, h) in ap some same

pub index_of-letter : (i : ℕ) → i < 58 → index_of (letter i) ≡ some i
index_of-letter i l = is_index-some i (index_of (letter i)) (fit_letter i l).0

same_test : (a b : Bool) → (if a then b else not b) ≡ true → a ≡ b
same_test true b h = sym h
same_test false true h = h
same_test false false h = refl

letter-one : (i : ℕ) → i < 58 → (letter i == b'1') ≡ (i == 0)
letter-one i l = same_test (letter i == b'1') (i == 0) (fit_letter i l).1

-- The letters of digits begin with as many ones as the digits with zeros.
pub leading-letters : (ds : List ℕ) → All IsDigit ds → leading b'1' (map letter ds) ≡ leading 0 ds
unfolding leading
leading-letters [] h = refl
leading-letters (d ∷ ds) h = rw (letter-one d h.0, leading-letters ds h.1) refl

-- The letters of digits are read as their number.
pub read_number-letters :
    (n : ℕ) (ds : List ℕ) → All IsDigit ds → read_number n (map letter ds) ≡ ok (number 58 n ds)
unfolding read_number number index_or_throw
read_number-letters n [] h = refl
read_number-letters n (d ∷ ds) h =
    rw (index_of-letter d h.0) (read_number-letters (n * 58 + d) ds h.1)

next-cases :
    (test : Bool) (rest : Option ℕ) (i : ℕ)
    → (if test then some 0 else next rest) ≡ some i
    → ((test ≡ true) × (i ≡ 0)) ⊎ ((j : ℕ) × (rest ≡ some j) × (i ≡ suc j))
unfolding next
next-cases true rest i h = inl (refl, cc)
next-cases false none i h = cc
next-cases false (some j) i h = inr (j, refl, cc)

index_in-letter :
    (text : Text.Text) (c i : ℕ)
    → index_in text c ≡ some i
    → (letter_in text i ≡ c) × (i < length text)
unfolding index_in letter_in
index_in-letter [] c i h = cc
index_in-letter (a ∷ text) c i h = elim (next-cases (a == c) (index_in text c) i h) [
  | inl (p, e) ↦ rw e (ground (arith, p), omega arith)
  | inr (j, found, e) ↦
      let (is_letter, below) = index_in-letter text c j found in
      rw e (is_letter, omega (arith, below))
]

index_or_throw-ok : (o : Option ℕ) (i : ℕ) → index_or_throw o ≡ ok i → o ≡ some i
unfolding index_or_throw
index_or_throw-ok none i h = cc
index_or_throw-ok (some j) i h = ap some (ok-inj h)

-- A text that is read as a number is the letters of its digits.
pub read_number-ok :
    (n m : ℕ) (text : Text.Text)
    → read_number n text ≡ ok m
    → (ds : List ℕ) × (text ≡ map letter ds) × All IsDigit ds × (number 58 n ds ≡ m)
unfolding read_number number
read_number-ok n m [] h = ([], refl, tt, ok-inj h)
read_number-ok n m (c ∷ text) h =
    let (i, found, rest) = >>=-eq-ok (index_or_throw (index_of c)) _ h in
    let (is_letter, below) =
      index_in-letter alphabet c i (index_or_throw-ok (index_of c) i found) in
    let (ds, same, digits, value) = read_number-ok (n * 58 + i) m text rest in
    (i ∷ ds, cc (is_letter, same), (below, digits), value)
