-- ===== src/BlockTree/Sample.antt =====
-- A tree with two blocks, for runs.
use euclid_database.Prelude.{
  ℕ, ◌≡◌, refl, List, [], ◌∷◌, ◌++◌, length, replicate, arith, ap, ◌∙◌, All,
}
use euclid_database.Plonky2.Reference.{goldilocks}
use euclid_database.Plonky2.Poseidon.{reference_poseidon}
use euclid_database.Plonky2.Merkle.{MerkleProofs, reference_proofs}
use euclid_database.State.{
  register_state, state_block_header, state_block_number, prev_block_header,
}
use euclid_database.BlockTree.{
  init_root, block_root, first_block_number, block_number, original_block_header, empty_merkle_root,
  block_tree_public_inputs,
}
use euclid_database.BlockTree.Layout.{flagged}
use euclid_database.BlockTree.Steps.{Proved}
use euclid_database.BlockTree.Chain.{Chained}
use euclid_database.BlockTree.Openings.{full_root}
use euclid_database.BlockTree.Append.{contents}
use euclid_database.BlockTree.Extension.{Chained-Proved, Made}

abbrev pub gadget : MerkleProofs reference_poseidon
gadget = reference_proofs reference_poseidon

abbrev pub first_block : List ℕ
first_block = register_state (replicate 4 7) (replicate 8 1) 5 (replicate 8 0)

abbrev pub second_block : List ℕ
second_block = register_state (replicate 4 9) (replicate 8 2) 6 (replicate 8 1)

pub two_blocks-Chained : Chained 5 (second_block ∷ first_block ∷ [])
unfolding state_block_header state_block_number prev_block_header register_state
two_blocks-Chained = (refl, refl, (refl, tt, tt))

pub two_blocks_sized : All (λ l. length l ≡ 21) (second_block ∷ first_block ∷ [])
unfolding register_state
two_blocks_sized = (refl, (refl, tt))

abbrev pub tree : List (List ℕ)
tree = second_block ∷ first_block ∷ []

-- The proof over the two blocks.
abbrev pub made :
    (pi : List ℕ) × Proved goldilocks reference_poseidon gadget 1 (pi ++ 0 ∷ []) tree
    × (length pi ≡ 18)
    × (init_root pi ≡ empty_merkle_root reference_poseidon gadget 1)
    × (block_root pi ≡ full_root reference_poseidon 1 (contents reference_poseidon tree))
    × (first_block_number pi ≡ 5)
    × (block_number pi ≡ state_block_number second_block)
    × (original_block_header pi ≡ state_block_header second_block)
    × Made goldilocks reference_poseidon gadget 1 (omega arith) 5 (pi ++ 0 ∷ []) tree
made =
    Chained-Proved goldilocks reference_poseidon gadget 1 (omega arith) 5 second_block
      (first_block ∷ []) (omega arith) two_blocks_sized two_blocks-Chained (omega arith)

abbrev pub made_pis : List ℕ
made_pis = made.0 ++ 0 ∷ []

pub made_root :
    init_root (block_tree_public_inputs made_pis) ≡ empty_merkle_root reference_poseidon gadget 1
unfolding block_tree_public_inputs
made_root = ap init_root (flagged made.0 0 made.2).0 ∙ made.3
