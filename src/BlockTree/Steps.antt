-- ===== src/BlockTree/Steps.antt =====
-- What the circuit of the block tree accepts, and the proofs that it builds, one on the other.
use euclid_database.Prelude.{ℕ, ◌+◌, ◌%◌, ◌≡◌, List, [], ◌∷◌, some, length, from_bits, All}
use euclid_database.Plonky2.{Builder, order}
use euclid_database.Plonky2.Poseidon.{Poseidon}
use euclid_database.Plonky2.Merkle.{MerkleProofs, IsHash, merkle_root, zero_hash}
use euclid_database.State.{state_block_header, state_block_number, prev_block_header}
use euclid_database.BlockTree.{
  init_root, block_root, first_block_number, block_number, original_block_header, register_block,
  leaf_data, BlockTreeWires, block_logic, dummy_logic,
}

-- The sizes of the prover's wires.
pub record IsSized (max_depth : ℕ) (wires : BlockTreeWires) : Type 0 where
  pub bits_sized : length wires.leaf_index_bits ≡ max_depth
  pub path_sized : length wires.path ≡ max_depth
  pub path_hashes : All IsHash wires.path
  pub root_hash : IsHash wires.root

abbrev pub leaf_index : BlockTreeWires → ℕ
leaf_index wires = from_bits wires.leaf_index_bits % order

-- The conditions of one insertion, on the public inputs of the tree before it and of the new block.
pub record Inserts (p : Poseidon) (prev_pi leaf_pi : List ℕ) (wires : BlockTreeWires) : Type 0 where
  pub header_follows : original_block_header prev_pi ≡ prev_block_header leaf_pi
  pub index_counts :
      (first_block_number prev_pi + leaf_index wires) % order ≡ state_block_number leaf_pi
  pub number_follows : (block_number prev_pi + 1) % order ≡ state_block_number leaf_pi
  pub first_root : leaf_index wires ≡ 0 → init_root prev_pi ≡ block_root prev_pi
  pub leaf_added :
      merkle_root p (p.hash_no_pad (leaf_data leaf_pi)) wires.path wires.leaf_index_bits
      ≡ wires.root
  pub leaf_empty : merkle_root p zero_hash wires.path wires.leaf_index_bits ≡ block_root prev_pi

-- What an insertion registers.
abbrev pub next_pis : List ℕ → List ℕ → BlockTreeWires → List ℕ
next_pis prev_pi leaf_pi wires =
    register_block (init_root prev_pi) wires.root (first_block_number prev_pi)
      (state_block_number leaf_pi) (state_block_header leaf_pi)

-- The public inputs of the proofs that can be made, with those of the blocks inserted, the last one
-- first: of the dummy circuit, and of the tree's circuit over a proof that can be made.
pub data Proved (b : Builder) (p : Poseidon) (g : MerkleProofs p) (max_depth : ℕ)
    : List ℕ → List (List ℕ) → Type 0 where
  dummy : (pi : List ℕ) → length pi ≡ 18 → Proved b p g max_depth (dummy_logic pi) []
  insert :
      (verified leaf_pi next : List ℕ) (blocks : List (List ℕ)) (wires : BlockTreeWires)
      → Proved b p g max_depth verified blocks
      → length leaf_pi ≡ 21
      → IsSized max_depth wires
      → block_logic b p g verified leaf_pi wires ≡ some next
      → Proved b p g max_depth next (leaf_pi ∷ blocks)
