-- ===== src/BlockTree/Tests.antt =====
-- Runs of the block tree on two blocks.
use euclid_database.Prelude.{ℕ, ◌^◌, ◌≤◌, ◌≡◌, ◌⊎◌, List, [], ◌∷◌, ◌++◌, length, arith}
use euclid_database.Plonky2.Reference.{goldilocks}
use euclid_database.Plonky2.Poseidon.{reference_poseidon}
use euclid_database.State.{state_block_header, state_block_number}
use euclid_database.BlockTree.{
  init_root, block_root, first_block_number, block_number, original_block_header, empty_merkle_root,
  block_tree_public_inputs,
}
use euclid_database.BlockTree.Steps.{Proved}
use euclid_database.BlockTree.Chain.{Chained, proved-Chained}
use euclid_database.BlockTree.Openings.{Collision, full_root}
use euclid_database.BlockTree.Append.{contents, proved-contents}
use euclid_database.BlockTree.Extension.{Chained-Proved, Made}
use euclid_database.BlockTree.Sample.{
  gadget, first_block, second_block, two_blocks-Chained, two_blocks_sized, tree, made, made_pis,
  made_root,
}

Chained-Proved_example :
    (pi : List ℕ) × Proved goldilocks reference_poseidon gadget 1 (pi ++ 0 ∷ []) tree
    × (length pi ≡ 18)
    × (init_root pi ≡ empty_merkle_root reference_poseidon gadget 1)
    × (block_root pi ≡ full_root reference_poseidon 1 (contents reference_poseidon tree))
    × (first_block_number pi ≡ 5)
    × (block_number pi ≡ state_block_number second_block)
    × (original_block_header pi ≡ state_block_header second_block)
    × Made goldilocks reference_poseidon gadget 1 (omega arith) 5 (pi ++ 0 ∷ []) tree
Chained-Proved_example =
    Chained-Proved goldilocks reference_poseidon gadget 1 (omega arith) 5 second_block
      (first_block ∷ []) (omega arith) two_blocks_sized two_blocks-Chained (omega arith)

proved-Chained_example :
    (block_number (block_tree_public_inputs made_pis) ≡ state_block_number second_block)
    × (original_block_header (block_tree_public_inputs made_pis) ≡ state_block_header second_block)
    × Chained (first_block_number (block_tree_public_inputs made_pis)) tree
    × (2 ≤ 2 ^ 1)
proved-Chained_example = proved-Chained goldilocks reference_poseidon gadget 1 (omega arith) made.1

proved-contents_example :
    Collision reference_poseidon
    ⊎ (block_root (block_tree_public_inputs made_pis)
        ≡ full_root reference_poseidon 1 (contents reference_poseidon tree))
proved-contents_example =
    proved-contents goldilocks reference_poseidon gadget 1 (omega arith) made.1 made_root
