-- ===== src/BlockTree.antt =====
-- mr-plonky2-circuits/src/block (mod.rs and public_inputs.rs): the tree of the blocks that the prover
-- has taken over, to which a chain of proofs appends one block at a time. plonky2's gadget that
-- verifies an opening of a Merkle tree is a record of operations, and `MAX_DEPTH` a variable.
pub mod Layout
pub mod Steps
pub mod Accepts
pub mod Openings
pub mod Chain
pub mod Append
pub mod Paths
pub mod Extension
pub mod Sample
mod Tests
use euclid_database.Prelude.{
  ℕ, zero, suc, ◌+◌, ◌/◌, Bool, List, [], ◌∷◌, ◌++◌, Circuit, ◌>>=◌, ◌>>◌, some, take, drop, get_or,
  bit, bit_and, ◌==◌,
}
use euclid_database.Plonky2.{Builder}
use euclid_database.Plonky2.Poseidon.{Poseidon}
use euclid_database.Plonky2.Merkle.{MerkleProofs, zero_hash}
use euclid_database.Array.{enforce_equal}
use euclid_database.Keccak.{packed_hash_len}
use euclid_database.State.{state_root, state_block_header, state_block_number, prev_block_header}

-- `U0_IDX`, `UI_IDX`, `Z1_IDX`, `ZI_IDX`, `H_IDX` and `TOTAL_LEN`
abbrev pub u0_idx : ℕ
u0_idx = 0

abbrev pub ui_idx : ℕ
ui_idx = u0_idx + 4

abbrev pub z1_idx : ℕ
z1_idx = ui_idx + 4

abbrev pub zi_idx : ℕ
zi_idx = z1_idx + 1

abbrev pub h_idx : ℕ
h_idx = zi_idx + 1

abbrev pub num_io : ℕ
num_io = h_idx + packed_hash_len

-- `PublicInputs::register`
unfoldable pub register_block : List ℕ → List ℕ → ℕ → ℕ → List ℕ → List ℕ
register_block init_root root first_block_number block_number block_header =
    init_root ++ (root ++ (first_block_number ∷ block_number ∷ block_header))

unfoldable pub init_root : List ℕ → List ℕ
init_root proof_inputs = take 4 (drop u0_idx proof_inputs)

unfoldable pub block_root : List ℕ → List ℕ
block_root proof_inputs = take 4 (drop ui_idx proof_inputs)

unfoldable pub first_block_number : List ℕ → ℕ
first_block_number proof_inputs = get_or proof_inputs z1_idx 0

unfoldable pub block_number : List ℕ → ℕ
block_number proof_inputs = get_or proof_inputs zi_idx 0

unfoldable pub original_block_header : List ℕ → List ℕ
original_block_header proof_inputs = take packed_hash_len (drop h_idx proof_inputs)

-- `leaf_data`: the number, the header and the state root of the block.
unfoldable pub leaf_data : List ℕ → List ℕ
leaf_data leaf_pi = state_block_number leaf_pi ∷ (state_block_header leaf_pi ++ state_root leaf_pi)

-- The loop over the elements of the initial and of the previous root.
unfoldable pub init_root_loop : Builder → Bool → List ℕ → List ℕ → Circuit (Unit {0})
init_root_loop b is_first (x ∷ init_elements) (y ∷ prev_elements) =
    b.connect (b.select is_first x y) y >> init_root_loop b is_first init_elements prev_elements
init_root_loop b is_first [] prev_elements = some tt
init_root_loop b is_first (x ∷ init_elements) [] = some tt

unfoldable pub verify_proofs : Builder → List ℕ → List ℕ → ℕ → Bool → Circuit (Unit {0})
verify_proofs b prev_pi new_state_pi leaf_index is_first = do
  enforce_equal b (original_block_header prev_pi) (prev_block_header new_state_pi)
  b.connect (b.add (first_block_number prev_pi) leaf_index) (state_block_number new_state_pi)
  b.connect (b.add (block_number prev_pi) 1) (state_block_number new_state_pi)
  init_root_loop b is_first (init_root prev_pi) (block_root prev_pi)

-- The wires of the prover: `leaf_index_bits`, `root` and `path` of `BlockTreeWires`.
pub record BlockTreeWires : Type 0 where
  pub leaf_index_bits : List Bool
  pub root : List ℕ
  pub path : List (List ℕ)

module _ (b : Builder) (p : Poseidon) (g : MerkleProofs p) where
  open g use {verify_merkle_proof}

  unfoldable pub verify_append_only : List ℕ → List ℕ → BlockTreeWires → Circuit (Unit {0})
  verify_append_only prev_pi new_state_pi wires = do
    verify_merkle_proof (leaf_data new_state_pi) wires.leaf_index_bits wires.root wires.path
    verify_merkle_proof [] wires.leaf_index_bits (block_root prev_pi) wires.path

  -- `BlockTreeCircuit::build`: the public inputs that it registers, and the flag `is_first`.
  unfoldable pub build_block : List ℕ → List ℕ → BlockTreeWires → Circuit (List ℕ × Bool)
  build_block prev_pi new_leaf_pi wires = do
    let leaf_index = b.le_sum wires.leaf_index_bits
    let is_first = b.is_equal leaf_index 0
    verify_proofs b prev_pi new_leaf_pi leaf_index is_first
    verify_append_only prev_pi new_leaf_pi wires
    some (
      register_block (init_root prev_pi) wires.root (first_block_number prev_pi)
          (state_block_number new_leaf_pi) (state_block_header new_leaf_pi),
      is_first,
    )

  -- `circuit_logic` of `BlockTreeRecursiveWires`, on the public inputs of the two proofs that it
  -- verifies: a proof of the same circuit or of the dummy one, and a proof of the state circuits.
  unfoldable pub block_logic : List ℕ → List ℕ → BlockTreeWires → Circuit (List ℕ)
  block_logic verified_proof new_leaf_pi wires = do
    let prev_pi = take num_io verified_proof
    let is_dummy = drop num_io verified_proof
    (pis, is_first) ← build_block prev_pi new_leaf_pi wires
    b.connect (bit is_first) (get_or is_dummy 0 0)
    some (pis ++ (0 ∷ []))

-- `circuit_logic` of `DummyCircuitWires`: any public inputs, and the flag.
unfoldable pub dummy_logic : List ℕ → List ℕ
dummy_logic pi = pi ++ (1 ∷ [])

module _ (p : Poseidon) (g : MerkleProofs p) where
  unfoldable pub empty_loop : ℕ → List ℕ → List ℕ
  empty_loop zero hash = hash
  empty_loop (suc max_depth) hash = empty_loop max_depth (g.two_to_one hash hash)

  unfoldable pub empty_merkle_root : ℕ → List ℕ
  empty_merkle_root max_depth = empty_loop max_depth zero_hash

  -- `assign_input` of `DummyCircuitWires`.
  unfoldable pub dummy_inputs : Builder → ℕ → ℕ → List ℕ → List ℕ
  dummy_inputs b max_depth first parent_hash =
      let empty_root = empty_merkle_root max_depth in
      register_block empty_root empty_root first (b.sub first 1) parent_hash

-- `BlockTreeCircuit::assign`: the loop over the bits of the index.
unfoldable pub index_bits : ℕ → ℕ → List Bool
index_bits zero index = []
index_bits (suc max_depth) index = (bit_and index 1 == 1) ∷ index_bits max_depth (index / 2)

-- `Parameters::block_tree_public_inputs`
unfoldable pub block_tree_public_inputs : List ℕ → List ℕ
block_tree_public_inputs proof = take num_io proof
