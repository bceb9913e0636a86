-- ===== src/Query/Inclusion.antt =====
-- A query over the root of the block tree aggregates blocks that were inserted.
use euclid_database.Prelude.{
  ℕ, ◌^◌, ◌<◌, ◌≡◌, refl, ◌⊎◌, inl, inr, List, [], ◌∷◌, ◌++◌, some, length, take, drop, get_or,
  ◌==◌, arith, ap, ◌∙◌, sym, All, Bool-cases, take_front, drop_behind,
}
use euclid_database.Plonky2.{Builder, order}
use euclid_database.Plonky2.Poseidon.{Poseidon}
use euclid_database.Plonky2.Merkle.{MerkleProofs, zero_hash}
use euclid_database.State.{state_root, state_block_header, state_block_number}
use euclid_database.State.Layout.{state_sizes}
use euclid_database.BlockTree.{
  leaf_data, init_root, block_root, empty_merkle_root, block_tree_public_inputs,
}
use euclid_database.BlockTree.Accepts.{length-leaf_data}
use euclid_database.BlockTree.Steps.{Proved, dummy, insert}
use euclid_database.BlockTree.Openings.{update_self, update_ne}
use euclid_database.BlockTree.Append.{contents, contents-IsHash, proved-contents}
use euclid_database.GroupHashing.{Group}
use euclid_database.Query.Blocks.{StateWires, query_block_root}
use euclid_database.Query.Entries.{Entries}
use euclid_database.Query.Aggregates.{
  Blocks, block, join, path, IsSizedState, IsSizedBlocks, prove_blocks, state_root_of,
}
use euclid_database.Query.Answers.{prove_blocks-Exposed}
use euclid_database.Query.Leaves.{
  Broken, collision, preimage, same_hash, block_leaf, AtLeaves, IsLeaf, AtLeaves-full_root, both_or,
}

abbrev pub OneOf : List ℕ → List (List ℕ) → Type 0
OneOf l [] = ⊥
OneOf l (m ∷ blocks) = (l ≡ m) ⊎ OneOf l blocks

-- All the blocks of a query were inserted, with their number, their hash and the state root that the
-- query opens.
abbrev pub Inserted : Poseidon → List (List ℕ) → Blocks → Type 0
Inserted p blocks (block t w) =
    (l : List ℕ) × OneOf l blocks
    × (state_block_number l ≡ w.block_number)
    × (state_block_header l ≡ w.block_hash)
    × (state_root l ≡ state_root_of p t w)
Inserted p blocks (join l r) = Inserted p blocks l × Inserted p blocks r
Inserted p blocks (path q unproved right) = Inserted p blocks q

-- What stands at the leaves of the block tree.
leaf_cases :
    (p : Poseidon) (blocks : List (List ℕ)) (i : ℕ)
    → All (λ l. length l ≡ 21) blocks
    → (contents p blocks i ≡ zero_hash)
      ⊎ ((l : List ℕ) × OneOf l blocks
          × (length l ≡ 21)
          × (contents p blocks i ≡ p.hash_no_pad (leaf_data l)))
leaf_cases p [] i a = inl refl
leaf_cases p (m ∷ blocks) i a =
    let leaf = p.hash_no_pad (leaf_data m) in
    elim (Bool-cases (i == length blocks)) [
      | inl t ↦ inr (
        m,
        inl refl,
        a.0,
        update_self (contents p blocks) (length blocks) i leaf (ground (arith, t)),
      )
      | inr t ↦
          let e =
            update_ne (contents p blocks) (length blocks) i leaf (λ s. ground (arith, t, s)) in
          elim (leaf_cases p blocks i a.1) [
            | inl z ↦ inl (e ∙ z)
            | inr (l, o, s, f) ↦ inr (l, inr o, s, e ∙ f)
          ]
    ]

contents-IsLeaf :
    (p : Poseidon) (blocks : List (List ℕ)) (i : ℕ)
    → All (λ l. length l ≡ 21) blocks
    → IsLeaf p (contents p blocks i)
contents-IsLeaf p blocks i a = elim (leaf_cases p blocks i a) [
  | inl z ↦ inl z
  | inr (l, o, s, f) ↦ inr (leaf_data l, length-leaf_data l s, f)
]

-- Equal leaves have equal parts.
leaf_parts :
    (p : Poseidon) (l : List ℕ) (t : Entries) (w : StateWires) {max_depth : ℕ}
    → length l ≡ 21
    → IsSizedState max_depth w
    → leaf_data l ≡ block_leaf p t w
    → (state_block_number l ≡ w.block_number)
      × (state_block_header l ≡ w.block_hash)
      × (state_root l ≡ state_root_of p t w)
unfolding leaf_data
leaf_parts p l t w s z e =
    let header = state_block_header l in
    let h = (state_sizes l s).1 in
    let rest : header ++ state_root l ≡ w.block_hash ++ state_root_of p t w =
      ap (λ r. drop 1 r) e in
    (
      ap (λ r. get_or r 0 0) e,
      sym (take_front header (state_root l) 8 h)
          ∙ ap (λ r. take 8 r) rest
          ∙ take_front w.block_hash (state_root_of p t w) 8 z.hash_sized,
      sym (drop_behind header (state_root l) 8 0 (omega arith))
          ∙ ap (λ r. drop 8 r) rest
          ∙ drop_behind w.block_hash (state_root_of p t w) 8 0 (omega (arith, z.hash_sized)),
    )

AtLeaves-Inserted :
    (p : Poseidon) (max_depth : ℕ) (blocks : List (List ℕ)) (q : Blocks)
    → All (λ l. length l ≡ 21) blocks
    → IsSizedBlocks max_depth q
    → AtLeaves p (contents p blocks) q
    → Broken p ⊎ Inserted p blocks q
AtLeaves-Inserted p max_depth blocks (block t w) a z (i, e) = elim (leaf_cases p blocks i a) [
  | inl empty ↦ inl (preimage (block_leaf p t w) (sym e ∙ empty))
  | inr (l, o, s, f) ↦ elim (same_hash p (leaf_data l) (block_leaf p t w) (sym f ∙ e)) [
    | inl broken ↦ inl broken
    | inr same ↦ let (n, h, r) = leaf_parts p l t w s z.1 same in inr (l, o, n, h, r)
  ]
]
AtLeaves-Inserted p max_depth blocks (join l r) a z at =
    both_or (AtLeaves-Inserted p max_depth blocks l a z.0 at.0)
      (AtLeaves-Inserted p max_depth blocks r a z.1 at.1)
AtLeaves-Inserted p max_depth blocks (path q unproved right) a z at =
    AtLeaves-Inserted p max_depth blocks q a z.0 at

module _ (b : Builder) (p : Poseidon) (g : Group) (gadget : MerkleProofs p) where
  blocks_sized :
      {max_depth : ℕ} {pis : List ℕ} {blocks : List (List ℕ)}
      → Proved b p gadget max_depth pis blocks
      → All (λ l. length l ≡ 21) blocks
  blocks_sized (dummy pi l) = tt
  blocks_sized (insert verified leaf_pi next blocks wires proof l z e) = (l, blocks_sized proof)

  -- For wires of their sizes, depths below the field's order, and a block tree whose indices are below
  -- it: where a proof over the blocks of a query has the root of a proof of the block tree that was
  -- started from the empty tree, every block of the query was inserted into the tree, with the
  -- number and the hash that the query's wires have for it, and with the state root that the query
  -- opens; or two lists with one Poseidon hash are found, or a list with the hash of zeros.
  pub query-Inserted :
      (tree_depth max_depth : ℕ) (q : Blocks) (query_pis tree_pis leaf_pi : List ℕ)
      (blocks : List (List ℕ))
      → 2 ^ tree_depth < order
      → max_depth < order
      → IsSizedBlocks max_depth q
      → prove_blocks b p g max_depth q ≡ some query_pis
      → Proved b p gadget tree_depth tree_pis (leaf_pi ∷ blocks)
      → init_root (block_tree_public_inputs tree_pis) ≡ empty_merkle_root p gadget tree_depth
      → query_block_root query_pis ≡ block_root (block_tree_public_inputs tree_pis)
      → Broken p ⊎ Inserted p (leaf_pi ∷ blocks) q
  query-Inserted tree_depth max_depth q query_pis tree_pis leaf_pi blocks h k z e proof i r =
      let all = blocks_sized proof in
      let f = contents p (leaf_pi ∷ blocks) in
      let x = prove_blocks-Exposed b p g max_depth q query_pis k z e in
      elim (proved-contents b p gadget tree_depth h proof i) [
        | inl c ↦ inl (collision c.one c.other c.differ c.collide)
        | inr s ↦
            elim (AtLeaves-full_root p max_depth tree_depth f q z
              (contents-IsHash p (leaf_pi ∷ blocks))
              (λ j. contents-IsLeaf p (leaf_pi ∷ blocks) j all) (sym x.root ∙ r ∙ s)) [
                | inl broken ↦ inl broken
                | inr at ↦ AtLeaves-Inserted p max_depth (leaf_pi ∷ blocks) q all z at
              ]
      ]
