-- ===== src/Merkle/Binding.antt =====
-- What a Merkle root says of the nodes below it, and how many layers a tree has.
use lotus_sdk.Common.{
  ℕ, zero, suc, ◌+◌, ◌*◌, ◌/◌, ◌^◌, ◌<◌, ◌≤◌, ◌≡◌, ◌≢◌, ◌⊎◌, inl, inr, refl, sym, ap, ◌∙◌, List, [],
  ◌∷◌, ◌++◌, reverse, All, length, take, drop, replicate, arith, All-reverse, length-reverse,
  take-length-append, drop-length-append,
}
use mathlib.Core.List.{List-discrete, reverse-reverse}
use lotus_sdk.Common.Bits.{IsByte}
use native.Mathlib.Decide.{ℕ_discrete}
use lotus_sdk.ScriptNum.{Buffer, le_value}
use lotus_sdk.Errors.{Result, ok}
use lotus_sdk.Merkle.{null_hash, compute_merkle_root}
use lotus_sdk.Merkle.Loop.{compute_merkle_root-IsRoot}
use lotus_sdk.Merkle.Layers.{next_layer, IsRoot, single, layer_up, length-next_layer}

-- The two given inputs collide: they are different and have one hash.
abbrev pub Collision : (Buffer → Buffer) → Buffer → Buffer → Type 0
Collision hash x y = (x ≢ y) × (hash x ≡ hash y)

-- The bytes that two computations made collide.
abbrev pub Clash : (Buffer → Buffer) → Result Buffer → Result Buffer → Type 0
Clash hash r r' = (x : Buffer) × (y : Buffer) × (r ≡ ok x) × (r' ≡ ok y) × Collision hash x y

-- Two nodes at the same place above two layers collide.
unfoldable pub LayerClash : (Buffer → Buffer) → List Buffer → List Buffer → Type 0
LayerClash hash [] l' = ⊥
LayerClash hash (x ∷ l) [] = ⊥
LayerClash hash (x ∷ []) (x' ∷ []) = Collision hash (x ++ null_hash) (x' ++ null_hash)
LayerClash hash (x ∷ []) (x' ∷ y' ∷ l') = ⊥
LayerClash hash (x ∷ y ∷ l) (x' ∷ []) = ⊥
LayerClash hash (x ∷ y ∷ l) (x' ∷ y' ∷ l') =
    Collision hash (x ++ y) (x' ++ y') ⊎ LayerClash hash l l'

-- The layer of a tree `depth` layers above its leaves.
unfoldable pub layer_at : (Buffer → Buffer) → ℕ → List Buffer → List Buffer
layer_at hash zero l = l
layer_at hash (suc depth) l = layer_at hash depth (next_layer hash l)

-- Two nodes at the same place of two trees collide.
abbrev pub TreeClash : (Buffer → Buffer) → List Buffer → List Buffer → Type 0
TreeClash hash l l' =
    (depth : ℕ) × (1 < length (layer_at hash depth l))
    × LayerClash hash (layer_at hash depth l) (layer_at hash depth l')

pub append-inj : (a b c d : Buffer) → length a ≡ length c → a ++ b ≡ c ++ d → (a ≡ c) × (b ≡ d)
append-inj a b c d len e = (
  sym (take-length-append a b)
      ∙ ap (take (length a)) e
      ∙ ap (λ n. take n (c ++ d)) len
      ∙ take-length-append c d,
  sym (drop-length-append a b)
      ∙ ap (drop (length a)) e
      ∙ ap (λ n. drop n (c ++ d)) len
      ∙ drop-length-append c d,
)

-- A node of 32 bytes.
abbrev pub IsHash : Buffer → Type 0
IsHash b = (length b ≡ 32) × All IsByte b

pub replicate-IsByte : (n : ℕ) → All IsByte (replicate n 0)
replicate-IsByte zero = tt
replicate-IsByte (suc n) = (omega arith, replicate-IsByte n)

pub null_hash-IsHash : IsHash null_hash
null_hash-IsHash = (refl, replicate-IsByte 32)

le_value-inj :
    (a b : Buffer)
    → All IsByte a
    → All IsByte b
    → length a ≡ length b
    → le_value a ≡ le_value b
    → a ≡ b
unfolding le_value
le_value-inj [] [] h h' len e = refl
le_value-inj [] (y ∷ b) h h' len e = absurd (omega arith)
le_value-inj (x ∷ a) [] h h' len e = absurd (omega arith)
le_value-inj (x ∷ a) (y ∷ b) h h' len e =
    let low : x ≡ y = omega (arith, h.0, h'.0, e) in
    let high : le_value a ≡ le_value b = omega (arith, h.0, h'.0, e) in
    let rest : a ≡ b = le_value-inj a b h.1 h'.1 (omega arith) high in cc

-- Two nodes that are one number, read from the last byte on, are the same.
pub be_value-inj :
    (a b : Buffer) → IsHash a → IsHash b → le_value (reverse a) ≡ le_value (reverse b) → a ≡ b
be_value-inj a b h h' e =
    let backwards : reverse a ≡ reverse b =
      le_value-inj (reverse a) (reverse b) (All-reverse IsByte a h.1) (All-reverse IsByte b h'.1)
        (length-reverse a ∙ h.0 ∙ sym (length-reverse b ∙ h'.0)) e in
    sym (reverse-reverse a) ∙ ap reverse backwards ∙ reverse-reverse b

module _ (hash : Buffer → Buffer) where
  -- One hash is that of one input, or the two inputs collide.
  pub same_hash : (a b : Buffer) → hash a ≡ hash b → (a ≡ b) ⊎ Collision hash a b
  same_hash a b e = elim (List-discrete ℕ_discrete a b) [ yes p ↦ inl p | no n ↦ inr (n, e) ]

  same_pair :
      (a b c d : Buffer)
      → IsHash a
      → IsHash c
      → hash (a ++ b) ≡ hash (c ++ d)
      → ((a ≡ c) × (b ≡ d)) ⊎ Collision hash (a ++ b) (c ++ d)
  same_pair a b c d ha hc e = elim (same_hash (a ++ b) (c ++ d) e) [
    | inl p ↦ inl (append-inj a b c d (ha.0 ∙ sym hc.0) p)
    | inr x ↦ inr x
  ]

  same_layer :
      (l l' : List Buffer)
      → All IsHash l
      → All IsHash l'
      → length l ≡ length l'
      → next_layer hash l ≡ next_layer hash l'
      → (l ≡ l') ⊎ LayerClash hash l l'
  unfolding next_layer LayerClash
  same_layer [] [] h h' len e = inl refl
  same_layer [] (x ∷ l') h h' len e = absurd (omega arith)
  same_layer (x ∷ l) [] h h' len e = absurd (omega arith)
  same_layer (x ∷ []) (x' ∷ []) h h' len e =
      elim (same_pair x null_hash x' null_hash h.0 h'.0 (cc)) [
        | inl p ↦ inl (ap (λ (z : Buffer). z ∷ []) p.0)
        | inr c ↦ inr c
      ]
  same_layer (x ∷ []) (x' ∷ y' ∷ l') h h' len e = absurd (omega arith)
  same_layer (x ∷ y ∷ l) (x' ∷ []) h h' len e = absurd (omega arith)
  same_layer (x ∷ y ∷ l) (x' ∷ y' ∷ l') h h' len e = elim (same_pair x y x' y' h.0 h'.0 (cc)) [
    | inr c ↦ inr (inl c)
    | inl p ↦ elim (same_layer l l' h.1.1 h'.1.1 (omega arith) (cc)) [
      | inr c ↦ inr (inr c)
      | inl q ↦ inl (cc)
    ]
  ]

  next_layer-IsHash :
      ((b : Buffer) → IsHash (hash b)) → (l : List Buffer) → All IsHash (next_layer hash l)
  unfolding next_layer
  next_layer-IsHash out [] = tt
  next_layer-IsHash out (x ∷ []) = (out (x ++ null_hash), tt)
  next_layer-IsHash out (x ∷ y ∷ l) = (out (x ++ y), next_layer-IsHash out l)

  -- Where the hash function returns 32 bytes, two lists of the same number of nodes of 32 bytes with
  -- one root are the same, or two nodes at the same place collide.
  pub IsRoot-binding :
      {l l' : List Buffer} {root : Buffer} {height height' : ℕ}
      → ((b : Buffer) → IsHash (hash b))
      → All IsHash l
      → All IsHash l'
      → length l ≡ length l'
      → IsRoot hash l root height
      → IsRoot hash l' root height'
      → (l ≡ l') ⊎ TreeClash hash l l'
  unfolding layer_at
  IsRoot-binding out h h' len (single x) (single y) = inl refl
  IsRoot-binding out h h' len (single x) (layer_up a b l r) = absurd (omega arith)
  IsRoot-binding out h h' len (layer_up a b l r) (single x) = absurd (omega arith)
  IsRoot-binding out h h' len (layer_up a b l r) (layer_up c d m s) =
      elim (IsRoot-binding out (next_layer-IsHash out _) (next_layer-IsHash out _)
        (omega (arith, length-next_layer hash (a ∷ b ∷ l), length-next_layer hash (c ∷ d ∷ m))) r
        s) [
          | inr (depth, some_pair, c) ↦ inr (suc depth, some_pair, c)
          | inl q ↦ elim (same_layer (a ∷ b ∷ l) (c ∷ d ∷ m) h h' len q) [
            | inl p ↦ inl p
            | inr c ↦ inr (0, omega arith, c)
          ]
        ]

  power_step :
      (k n len : ℕ)
      → n ≡ (len + 1) / 2
      → 1 < len
      → n ≤ 2 ^ k
      → 2 ^ k < 2 * n
      → (len ≤ 2 ^ suc k) × (2 ^ suc k < 2 * len)
  power_step zero n len e two low high = (omega arith, omega arith)
  power_step (suc k) n len e two low high = (omega arith, omega arith)

  -- A tree over `n` nodes has `k + 1` layers for the least `k` with n ≤ 2^k.
  pub IsRoot-height :
      {l : List Buffer} {root : Buffer} {height : ℕ}
      → IsRoot hash l root height
      → (k : ℕ) × (height ≡ suc k) × (length l ≤ 2 ^ k) × (2 ^ k < 2 * length l)
  IsRoot-height (single x) = (0, refl, omega arith, omega arith)
  IsRoot-height (layer_up a b l r) =
      let (k, e, low, high) = IsRoot-height r in
      let (low', high') =
        power_step k _ (length (a ∷ b ∷ l)) (length-next_layer hash (a ∷ b ∷ l)) (omega arith) low
          high in
      (suc k, omega (arith, e), low', high')

  pub IsRoot-nonempty :
      {l : List Buffer} {root : Buffer} {height : ℕ} → IsRoot hash l root height → l ≢ []
  IsRoot-nonempty (single x) = cc
  IsRoot-nonempty (layer_up a b l r) = cc

  pub IsRoot-IsHash :
      {l : List Buffer} {root : Buffer} {height : ℕ}
      → ((b : Buffer) → IsHash (hash b))
      → All IsHash l
      → IsRoot hash l root height
      → IsHash root
  IsRoot-IsHash out h (single x) = h.0
  IsRoot-IsHash out h (layer_up a b l r) = IsRoot-IsHash out (next_layer-IsHash out _) r

-- For at least one hash, `_computeMerkleRoot` returns, and the number of layers that it returns is
-- one more than the least `k` with at most 2^k hashes.
pub compute_merkle_root-height :
    (hash : Buffer → Buffer) (hashes : List Buffer)
    → hashes ≢ []
    → (root : Buffer) × (k : ℕ) × (compute_merkle_root hash hashes ≡ ok (root, suc k))
      × (length hashes ≤ 2 ^ k)
      × (2 ^ k < 2 * length hashes)
compute_merkle_root-height hash hashes h =
    let (root, height, computed, _, tree) = compute_merkle_root-IsRoot hash hashes h in
    let (k, e, low, high) = IsRoot-height hash tree in (root, k, rw (← e) computed, low, high)
