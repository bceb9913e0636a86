-- ===== src/State.antt =====
-- mr-plonky2-circuits/src/state: the public inputs of block_linking and of the state tree (lpn), and the
-- circuits of the state tree's leaves and nodes.
pub mod Layout
pub mod Contracts
mod Tests
use euclid_database.Prelude.{
  ℕ, ◌+◌, List, [], ◌∷◌, ◌++◌, Circuit, ◌>>=◌, ◌>>◌, some, take, drop, get_or,
}
use euclid_database.Plonky2.{Builder}
use euclid_database.Plonky2.Poseidon.{Poseidon}
use euclid_database.Array.{enforce_equal}
use euclid_database.Keccak.{packed_hash_len}

-- `StateInputs::register`: the root, and the hash, the number and the parent's hash of the block.
unfoldable pub register_state : List ℕ → List ℕ → ℕ → List ℕ → List ℕ
register_state root block_hash block_number prev_block_hash =
    root ++ (block_hash ++ (block_number ∷ prev_block_hash))

-- `H_IDX`, `N_IDX` and `PREV_H_IDX` of the state tree's public inputs, and `TOTAL_LEN`.
abbrev pub state_h_idx : ℕ
state_h_idx = 4

abbrev pub state_n_idx : ℕ
state_n_idx = state_h_idx + packed_hash_len

abbrev pub state_prev_h_idx : ℕ
state_prev_h_idx = state_n_idx + 1

abbrev pub state_total_len : ℕ
state_total_len = state_prev_h_idx + packed_hash_len

unfoldable pub state_root : List ℕ → List ℕ
state_root proof_inputs = take 4 proof_inputs

unfoldable pub state_block_header : List ℕ → List ℕ
state_block_header proof_inputs = take packed_hash_len (drop state_h_idx proof_inputs)

unfoldable pub state_block_number : List ℕ → ℕ
state_block_number proof_inputs = get_or proof_inputs state_n_idx 0

unfoldable pub prev_block_header : List ℕ → List ℕ
prev_block_header proof_inputs = take packed_hash_len (drop state_prev_h_idx proof_inputs)

-- `H_IDX`, `N_IDX`, `PREV_H_IDX`, `A_IDX`, `D_IDX`, `M_IDX`, `S_IDX` and `C_IDX` of block_linking.
abbrev pub link_h_idx : ℕ
link_h_idx = 0

abbrev pub link_n_idx : ℕ
link_n_idx = link_h_idx + packed_hash_len

abbrev pub link_prev_h_idx : ℕ
link_prev_h_idx = link_n_idx + 1

abbrev pub link_a_idx : ℕ
link_a_idx = link_prev_h_idx + packed_hash_len

abbrev pub link_d_idx : ℕ
link_d_idx = link_a_idx + 5

abbrev pub link_m_idx : ℕ
link_m_idx = link_d_idx + 11

abbrev pub link_s_idx : ℕ
link_s_idx = link_m_idx + 1

abbrev pub link_c_idx : ℕ
link_c_idx = link_s_idx + 1

-- `BlockLinkingInputs::register`, on the packed address and the storage proof's data.
unfoldable pub register_link : List ℕ → ℕ → List ℕ → List ℕ → List ℕ → ℕ → ℕ → List ℕ → List ℕ
register_link block_hash number parent_hash address digest slot length_slot merkle_root =
    block_hash
    ++ (number ∷ (parent_hash ++ (address ++ (digest ++ (slot ∷ length_slot ∷ merkle_root)))))

unfoldable pub link_block_hash : List ℕ → List ℕ
link_block_hash inner = take packed_hash_len (drop link_h_idx inner)

unfoldable pub link_block_number : List ℕ → ℕ
link_block_number inner = get_or inner link_n_idx 0

unfoldable pub link_prev_block_hash : List ℕ → List ℕ
link_prev_block_hash inner = take packed_hash_len (drop link_prev_h_idx inner)

unfoldable pub link_packed_address : List ℕ → List ℕ
link_packed_address inner = take 5 (drop link_a_idx inner)

unfoldable pub link_mapping_slot : List ℕ → ℕ
link_mapping_slot inner = get_or inner link_m_idx 0

unfoldable pub link_length_slot : List ℕ → ℕ
link_length_slot inner = get_or inner link_s_idx 0

unfoldable pub link_merkle_root : List ℕ → List ℕ
link_merkle_root inner = drop link_c_idx inner

-- `LeafCircuit::node_preimage`
unfoldable pub leaf_preimage : List ℕ → List ℕ
leaf_preimage block_linking =
    link_packed_address block_linking
    ++ (link_mapping_slot block_linking
        ∷ link_length_slot block_linking
        ∷ link_merkle_root block_linking)

-- `LeafCircuit::build`
unfoldable pub state_leaf : Poseidon → List ℕ → List ℕ
state_leaf p block_linking =
    let root = p.hash_no_pad (leaf_preimage block_linking) in
    register_state root (link_block_hash block_linking) (link_block_number block_linking)
      (link_prev_block_hash block_linking)

-- `NodeCircuit::build`, on the public inputs of the two children.
unfoldable pub state_node : Builder → Poseidon → List ℕ → List ℕ → Circuit (List ℕ)
state_node b p left right = do
  enforce_equal b (state_block_header left) (state_block_header right)
  enforce_equal b (prev_block_header left) (prev_block_header right)
  b.connect (state_block_number left) (state_block_number right)
  let root = p.hash_no_pad (state_root left ++ state_root right)
  some (
      register_state root (state_block_header left) (state_block_number left)
        (prev_block_header left))
