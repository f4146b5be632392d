-- ===== src/Merkle/Loop.antt =====
-- The loops over one array compute the root by layers.
use lotus_sdk.Common.{
  ℕ, zero, suc, ◌+◌, ◌-◌, ◌/◌, ◌%◌, ◌<◌, ◌≤◌, ◌≡◌, ◌≢◌, inl, inr, refl, sym, ap, ◌∙◌, List, [], ◌∷◌,
  ◌++◌, length, length-append, ltb, ◌==◌, if◌then◌else◌, ==_iff, lt→ltb, Bool-cases, arith,
}
use mathlib.Core.List.{append_assoc, append-nil}
use lotus_sdk.ScriptNum.{Buffer}
use lotus_sdk.Errors.{Result, ok, err, throws, ◌>>=◌}
use lotus_sdk.Merkle.{
  null_hash, element_at, pad_layer, hash_pairs, root_loop, compute_merkle_root, tree_loop,
  merkle_tree, tree_root,
}
use lotus_sdk.Merkle.Layers.{
  next_layer, IsRoot, single, layer_up, length-next_layer, next_layer-padded,
}

element_at-append :
    (front : List Buffer) (b : Buffer) (back : List Buffer)
    → element_at (front ++ (b ∷ back)) (length front) ≡ ok b
unfolding element_at
element_at-append [] b back = refl
element_at-append (a ∷ front) b back = element_at-append front b back

element_at-append_next :
    (front : List Buffer) (a b : Buffer) (back : List Buffer)
    → element_at (front ++ (a ∷ b ∷ back)) (length front + 1) ≡ ok b
element_at-append_next front a b back =
    let behind : length (front ++ (a ∷ [])) ≡ length front + 1 = length-append front (a ∷ []) in
    rw (← behind, ← append_assoc front (a ∷ []) (b ∷ back))
      (element_at-append (front ++ (a ∷ [])) b back)

module _ (hash : Buffer → Buffer) where
  -- The inner loop hashes an even layer that stands behind `front`.
  hash_pairs-next_layer :
      (front layer out : List Buffer)
      → length layer % 2 ≡ 0
      → hash_pairs hash (length layer / 2) (front ++ (layer ++ out)) (length front)
        ≡ ok (front ++ (layer ++ (out ++ next_layer hash layer)))
  unfolding hash_pairs next_layer
  hash_pairs-next_layer front [] out h = rw (append-nil out) refl
  hash_pairs-next_layer front (x ∷ []) out h = absurd (omega arith)
  hash_pairs-next_layer front (x ∷ y ∷ layer) out h =
      let half : length (x ∷ y ∷ layer) / 2 ≡ suc (length layer / 2) = omega arith in
      rw
        (
          half,
          element_at-append front x (y ∷ (layer ++ out)),
          element_at-append_next front x y (layer ++ out),
        )
        (ap (λ (z : List Buffer). hash_pairs hash (length layer / 2) z (length front + 2)) moved
          ∙ ap (hash_pairs hash (length layer / 2) _) at
          ∙ hash_pairs-next_layer (front ++ (x ∷ y ∷ [])) layer (out ++ (hash (x ++ y) ∷ []))
              (omega arith)
          ∙ ap ok again)
    where
      moved :
          front ++ (x ∷ y ∷ (layer ++ out)) ++ (hash (x ++ y) ∷ [])
          ≡ front ++ (x ∷ y ∷ []) ++ (layer ++ (out ++ (hash (x ++ y) ∷ [])))
      moved = simp append_assoc refl

      at : length front + 2 ≡ length (front ++ (x ∷ y ∷ []))
      at = sym (length-append front (x ∷ y ∷ []))

      again :
          front ++ (x ∷ y ∷ []) ++ (layer ++ (out ++ (hash (x ++ y) ∷ []) ++ next_layer hash layer))
          ≡ front ++ (x ∷ y ∷ layer ++ (out ++ (hash (x ++ y) ∷ next_layer hash layer)))
      again = simp append_assoc refl

  -- A layer with an even number of nodes.
  abbrev padded : List Buffer → List Buffer
  padded layer = if length layer % 2 == 1 then layer ++ (null_hash ∷ []) else layer

  pad_layer-padded :
      (front layer : List Buffer)
      → pad_layer (front ++ layer) (length layer) ≡ (front ++ padded layer, length (padded layer))
  unfolding pad_layer
  pad_layer-padded front layer = elim (Bool-cases (length layer % 2 == 1)) [
    | inl p ↦
        rw (p, append_assoc front layer (null_hash ∷ []), length-append layer (null_hash ∷ [])) refl
    | inr p ↦ rw p refl
  ]

  next_layer-padded_lem :
      (layer : List Buffer) → next_layer hash (padded layer) ≡ next_layer hash layer
  next_layer-padded_lem layer = elim (Bool-cases (length layer % 2 == 1)) [
    | inl p ↦ rw p (next_layer-padded hash layer ((==_iff _ _).0 p))
    | inr p ↦ rw p refl
  ]

  padded-even : (layer : List Buffer) → length (padded layer) % 2 ≡ 0
  padded-even layer = elim (Bool-cases (length layer % 2 == 1)) [
    | inl p ↦ rw (p, length-append layer (null_hash ∷ [])) (ground arith)
    | inr p ↦ rw p (ground arith)
  ]

  half-padded : (layer : List Buffer) → length (padded layer) / 2 ≡ (length layer + 1) / 2
  half-padded layer = elim (Bool-cases (length layer % 2 == 1)) [
    | inl p ↦ rw (p, length-append layer (null_hash ∷ [])) refl
    | inr p ↦ rw p (ground arith)
  ]

  -- The inner loop on a padded layer that stands behind `front`.
  round :
      (front layer : List Buffer)
      → hash_pairs hash (length (padded layer) / 2) (front ++ padded layer) (length front)
        ≡ ok (front ++ padded layer ++ next_layer hash layer)
  round front layer =
      ap
        (λ (z : List Buffer).
          hash_pairs hash (length (padded layer) / 2) (front ++ z) (length front))
        (sym (append-nil (padded layer)))
      ∙ hash_pairs-next_layer front (padded layer) [] (padded-even layer)
      ∙ ap (λ (z : List Buffer). ok (front ++ (padded layer ++ z))) (next_layer-padded_lem layer)
      ∙ ap ok (sym (append_assoc front (padded layer) (next_layer hash layer)))

  -- The outer loop on a layer that stands behind `front`.
  abbrev Computes : ℕ → List Buffer → List Buffer → ℕ → Type 0
  Computes fuel front layer height =
      (root : Buffer) × (levels : ℕ) × (before : List Buffer) × IsRoot hash layer root levels
      × (0 < levels)
      × (root_loop hash fuel (front ++ layer) (length front) (length layer) height
          ≡ ok (before ++ (root ∷ []), height + levels - 1))

  root_loop-round :
      (fuel : ℕ) (front layer : List Buffer) (height : ℕ)
      → 1 < length layer
      → root_loop hash (suc fuel) (front ++ layer) (length front) (length layer) height
        ≡ root_loop hash fuel
            (front ++ padded layer ++ next_layer hash layer)
            (length (front ++ padded layer))
            (length (next_layer hash layer))
            (height + 1)
  unfolding root_loop
  root_loop-round fuel front layer height h =
      rw
        (
          lt→ltb 1 (length layer) h,
          pad_layer-padded front layer,
          round front layer,
          length-append front (padded layer),
          half-padded layer,
          length-next_layer hash layer,
        )
        refl

  root_loop-Computes :
      (fuel : ℕ) (front layer : List Buffer) (height : ℕ)
      → 0 < length layer
      → length layer ≤ suc fuel
      → Computes fuel front layer height
  unfolding root_loop
  root_loop-Computes fuel front [] height h le = absurd (omega arith)
  root_loop-Computes zero front (x ∷ []) height h le =
      (x, 1, front, single x, omega arith, ground arith)
  root_loop-Computes (suc fuel) front (x ∷ []) height h le =
      (x, 1, front, single x, omega arith, ground arith)
  root_loop-Computes zero front (x ∷ y ∷ layer) height h le = absurd (omega arith)
  root_loop-Computes (suc fuel) front (x ∷ y ∷ layer) height h le =
      let l : List Buffer = x ∷ y ∷ layer in
      let shorter : length (next_layer hash l) ≡ (length l + 1) / 2 = length-next_layer hash l in
      let (root, levels, before, tree, more, loop) =
        root_loop-Computes fuel (front ++ padded l) (next_layer hash l) (height + 1) (omega arith)
          (omega arith) in
      let count : height + 1 + levels - 1 ≡ height + (levels + 1) - 1 = omega arith in
      (
        root,
        levels + 1,
        before,
        layer_up x y layer tree,
        omega arith,
        root_loop-round fuel front l height (omega arith)
            ∙ loop
            ∙ ap (λ (n : ℕ). ok (before ++ (root ∷ []), n)) count,
      )

module _ (hash : Buffer → Buffer) where
  then_first :
      {V W H : Type 0} (r : Result V) {f : V → Result W} (g : V → Result (W × H))
      → ((v : V) → f v ≡ (g v >>= λ (p : W × H). ok p.0))
      → (r >>= f) ≡ (r >>= g >>= λ (p : W × H). ok p.0)
  then_first (ok v) g h = h v
  then_first (err e) g h = refl
  then_first (throws t) g h = refl

  tree_loop-root_loop :
      (fuel : ℕ) (tree : List Buffer) (j size height : ℕ)
      → tree_loop hash fuel tree j size
        ≡ (root_loop hash fuel tree j size height >>= λ (p : List Buffer × ℕ). ok p.0)
  unfolding tree_loop root_loop
  tree_loop-root_loop zero tree j size height = ground arith
  tree_loop-root_loop (suc fuel) tree j size height = elim (Bool-cases (ltb 1 size)) [
    | inl p ↦ rw p (
        then_first (hash_pairs hash _ _ j) (λ hashed. root_loop hash fuel hashed _ _ (height + 1))
          (λ hashed. tree_loop-root_loop fuel hashed _ _ (height + 1)))
    | inr p ↦ rw p refl
  ]

-- For at least one hash, `_computeMerkleRoot` and `getMerkleRoot` return, both with the root of the
-- tree over these hashes, and the first one with the number of its layers.
pub compute_merkle_root-IsRoot :
    (hash : Buffer → Buffer) (hashes : List Buffer)
    → hashes ≢ []
    → (root : Buffer) × (height : ℕ) × (compute_merkle_root hash hashes ≡ ok (root, height))
      × (tree_root hash hashes ≡ ok root)
      × IsRoot hash hashes root height
unfolding compute_merkle_root tree_root merkle_tree
compute_merkle_root-IsRoot hash [] h = absurd (h refl)
compute_merkle_root-IsRoot hash (b ∷ bs) h =
    let (root, levels, before, tree, more, loop) =
      root_loop-Computes hash (length (b ∷ bs)) [] (b ∷ bs) 1 (omega arith) (omega arith) in
    let last : length (before ++ (root ∷ [])) - 1 ≡ length before =
      omega (arith, length-append before (root ∷ [])) in
    let count : 1 + levels - 1 ≡ levels = omega arith in
    let same = tree_loop-root_loop hash (length (b ∷ bs)) (b ∷ bs) 0 (length (b ∷ bs)) 1 in
    (
      root,
      levels,
      rw (loop, last, element_at-append before root [], count) refl,
      rw (same, loop, last, element_at-append before root []) refl,
      tree,
    )
