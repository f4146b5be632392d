-- ===== src/Block/Commits.antt =====
-- What the Merkle root and the hash of a block commit to.
use lotus_sdk.Common.{
  ◌≡◌, ◌⊎◌, inl, inr, refl, sym, ap, ◌∙◌, true, List, [], ◌∷◌, ◌++◌, map, reverse, All, length,
  ◌==◌, ==_iff, All-map,
}
use lotus_sdk.ScriptNum.{Buffer, le_value}
use lotus_sdk.Errors.{ok, ok-inj}
use lotus_sdk.Encoding.RoundTrip.{Rereads-inj}
use lotus_sdk.Merkle.Loop.{compute_merkle_root-IsRoot}
use lotus_sdk.Merkle.Binding.{
  append-inj, IsHash, IsRoot-IsHash, IsRoot-nonempty, same_hash, be_value-inj,
}
use lotus_sdk.Transaction
use lotus_sdk.Transaction.{hashes_or_null}
use lotus_sdk.Transaction.RoundTrip.{ValidTransaction, to_buffer_writer-Rereads}
use lotus_sdk.Transaction.Total.{Tree, tree, get_txid-ok}
use lotus_sdk.Transaction.Commits.{ItemClash, ListClash, Tree-inj}
use lotus_sdk.Block.Header
use lotus_sdk.Block.Header.Commits.{HeaderClash, get_hash-commits}
use lotus_sdk.Block.RoundTrip.{ValidBlock}
use lotus_sdk.Block.{
  Block, transaction_leaf, get_transaction_hashes, get_merkle_root, valid_merkle_root,
}

-- The transactions of two blocks collide: the bytes of two transactions at the same place, their
-- leaves, or two nodes of the Merkle trees.
abbrev pub TransactionClash : (Buffer → Buffer) → Block → Block → Type 0
TransactionClash hash block block' =
    ItemClash hash Transaction.to_buffer_writer block.transactions block'.transactions
    ⊎ ListClash hash (transaction_leaf hash) block.transactions block'.transactions

module _ (hash : Buffer → Buffer) (out : (b : Buffer) → IsHash (hash b)) where
  get_hash-ok :
      (tx : Transaction.Transaction)
      → ValidTransaction tx
      → (bytes : Buffer) × (Transaction.to_buffer_writer tx ≡ ok bytes)
        × (Transaction.get_hash hash tx ≡ ok (hash bytes))
  unfolding Transaction.get_hash
  get_hash-ok tx v =
      let (bytes, written, _) = to_buffer_writer-Rereads tx v in (bytes, written, rw written refl)

  leaf_of :
      (tx : Transaction.Transaction) {txid hashed : Buffer}
      → Transaction.get_txid hash tx ≡ ok txid
      → Transaction.get_hash hash tx ≡ ok hashed
      → transaction_leaf hash tx ≡ ok (hashed ++ txid)
  unfolding transaction_leaf
  leaf_of tx e f = rw (e, f) refl

  leaf-ok :
      (tx : Transaction.Transaction)
      → ValidTransaction tx
      → (bytes : Buffer) × (transaction_leaf hash tx ≡ ok bytes)
  leaf-ok tx v =
      let (bytes, written, hashed) = get_hash-ok tx v in
      (_, leaf_of tx (get_txid-ok hash tx out v).computed hashed)

  -- Transactions with the same leaf have the same hash.
  leaf-inj :
      (a b : Transaction.Transaction)
      → ValidTransaction a
      → ValidTransaction b
      → transaction_leaf hash a ≡ transaction_leaf hash b
      → Transaction.get_hash hash a ≡ Transaction.get_hash hash b
  unfolding transaction_leaf
  leaf-inj a b v w e =
      let (x, _, x_hashed) = get_hash-ok a v in
      let (y, _, y_hashed) = get_hash-ok b w in
      let i = get_txid-ok hash a out v in
      let j = get_txid-ok hash b out w in
      let whole = ok-inj (rw (i.computed, j.computed, x_hashed, y_hashed) at e) in
      let (same, _) = append-inj (hash x) _ (hash y) _ ((out x).0 ∙ sym (out y).0) whole in
      x_hashed ∙ ap ok same ∙ sym y_hashed

  same_transactions :
      (txs txs' : List Transaction.Transaction)
      → All ValidTransaction txs
      → All ValidTransaction txs'
      → map (Transaction.get_hash hash) txs ≡ map (Transaction.get_hash hash) txs'
      → (txs ≡ txs') ⊎ ItemClash hash Transaction.to_buffer_writer txs txs'
  unfolding ItemClash
  same_transactions [] [] h h' e = inl refl
  same_transactions [] (b ∷ txs') h h' e = cc
  same_transactions (a ∷ txs) [] h h' e = cc
  same_transactions (a ∷ txs) (b ∷ txs') h h' e =
      let (x, x_written, x_hashed) = get_hash-ok a h.0 in
      let (y, y_written, y_hashed) = get_hash-ok b h'.0 in
      let heads : Transaction.get_hash hash a ≡ Transaction.get_hash hash b = cc in
      elim (same_hash hash x y (ok-inj (sym x_hashed ∙ heads ∙ y_hashed))) [
        | inr c ↦ inr (inl (x, y, x_written, y_written, c))
        | inl p ↦ elim (same_transactions txs txs' h.1 h'.1 (cc)) [
          | inr c ↦ inr (inr c)
          | inl q ↦
              let first : a ≡ b =
                Rereads-inj Transaction.from_buffer_reader (to_buffer_writer-Rereads a h.0)
                  (to_buffer_writer-Rereads b h'.0) (x_written ∙ ap ok p ∙ sym y_written) in
              inl cc
        ]
      ]

  -- The tree of a valid block's transactions.
  block_tree :
      (block : Block)
      → ValidBlock block
      → (t : Tree hash (transaction_leaf hash) block.transactions) × (get_merkle_root hash block
          ≡ ok t.1)
  unfolding get_merkle_root get_transaction_hashes
  block_tree block v =
      let t =
        tree hash (transaction_leaf hash) block.transactions out
          (All-map leaf-ok block.transactions v.transactions_valid) v.transactions_fit in
      let (root, height, computed, tree_computed, _) =
        compute_merkle_root-IsRoot hash t.0 (IsRoot-nonempty hash t.5) in
      let same : root ≡ t.1 = ap (λ p. p.0) (ok-inj (sym computed ∙ t.4)) in
      (t, rw t.3 (tree_computed ∙ ap ok same))

  -- Blocks with the same number of transactions and the same root hold the same transactions, or
  -- these collide.
  root-inj :
      (block block' : Block)
      → ValidBlock block
      → ValidBlock block'
      → length block.transactions ≡ length block'.transactions
      → {root : Buffer} → get_merkle_root hash block ≡ ok root
      → get_merkle_root hash block' ≡ ok root
      → (block.transactions ≡ block'.transactions) ⊎ TransactionClash hash block block'
  root-inj block block' v w count e f =
      let (t, t_root) = block_tree block v in
      let (u, u_root) = block_tree block' w in
      elim (Tree-inj hash (transaction_leaf hash) (Transaction.get_hash hash) ValidTransaction
        leaf-inj block.transactions block'.transactions out v.transactions_valid
        w.transactions_valid count t u (ok-inj (sym t_root ∙ e ∙ sym f ∙ u_root))) [
          | inr c ↦ inr (inr c)
          | inl same ↦
              elim (same_transactions block.transactions block'.transactions v.transactions_valid
                w.transactions_valid same) [ inl p ↦ inl p | inr c ↦ inr (inl c) ]
        ]

  -- `validMerkleRoot` returns for a valid block, and it returns true only for the header's root
  -- where that is 32 bytes.
  valid_merkle_root-root :
      (block : Block)
      → ValidBlock block
      → (root : Buffer) × (get_merkle_root hash block ≡ ok root)
        × IsHash root
        × (valid_merkle_root hash block
            ≡ ok (le_value (reverse block.header.merkle_root) == le_value (reverse root)))
  unfolding valid_merkle_root
  valid_merkle_root-root block v =
      let (t, t_root) = block_tree block v in
      (t.1, t_root, IsRoot-IsHash hash out t.6 t.5, rw t_root refl)

-- Two valid blocks with as many transactions, whose Merkle roots are found valid and whose headers
-- have one hash, have the same header and the same transactions, or two different buffers that are
-- hashed at the same place for both blocks have one hash: a layer of the headers, a transaction, a
-- leaf or a pair of nodes of the Merkle trees. The second hash function returns 32 bytes.
pub valid_merkle_root-commits :
    (sha256 sha256sha256 : Buffer → Buffer) (block block' : Block)
    → ((b : Buffer) → IsHash (sha256sha256 b))
    → ValidBlock block
    → ValidBlock block'
    → length block.transactions ≡ length block'.transactions
    → valid_merkle_root sha256sha256 block ≡ ok true
    → valid_merkle_root sha256sha256 block' ≡ ok true
    → Header.get_hash sha256 block.header ≡ Header.get_hash sha256 block'.header
    → ((block.header ≡ block'.header) × (block.transactions ≡ block'.transactions))
      ⊎ (HeaderClash sha256 block.header block'.header ⊎ TransactionClash sha256sha256 block block')
valid_merkle_root-commits sha256 sha256sha256 block block' out v w count e f same =
    let (r, r_root, r_hash, r_valid) = valid_merkle_root-root sha256sha256 out block v in
    let (s, s_root, s_hash, s_valid) = valid_merkle_root-root sha256sha256 out block' w in
    elim (get_hash-commits sha256 block.header block'.header v.header_valid w.header_valid same) [
      | inr c ↦ inr (inl c)
      | inl headers ↦
          let r_value = (==_iff _ _).0 (ok-inj (sym r_valid ∙ e)) in
          let s_value = (==_iff _ _).0 (ok-inj (sym s_valid ∙ f)) in
          let roots : r ≡ s = be_value-inj r s r_hash s_hash (
            sym r_value
            ∙ ap (λ (h : Header.BlockHeader). le_value (reverse h.merkle_root)) headers
            ∙ s_value) in
          elim (root-inj sha256sha256 out block block' v w count r_root
            (s_root ∙ ap ok (sym roots))) [ inr c ↦ inr (inr c) | inl txs ↦ inl (headers, txs) ]
    ]
