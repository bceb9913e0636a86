-- ===== src/BlockLinking.antt =====
-- mr-plonky2-circuits/src/state/block_linking (block.rs, account.rs, mod.rs): the storage root of a
-- contract, opened in the state trie of a block whose header is hashed. A header is a vector of
-- MAX_LEN bytes, MAX_LEN being the length of its array; the wires `diff` of the Keccak gadgets are the
-- prover's.
pub mod Number
pub mod Roots
pub mod Links
mod Tests
use euclid_database.Prelude.{
  ℕ, zero, suc, ◌+◌, ◌-◌, Bool, true, List, [], ◌∷◌, ◌++◌, Circuit, ◌>>=◌, ◌>>◌, some, ltb,
  if◌then◌else◌, length, get_or, take, drop, replicate, create_array, bit,
}
use euclid_database.Plonky2.{Builder}
use euclid_database.Utils.Compare.{less_than}
use euclid_database.Utils.Pack.{convert_u8_targets_to_u32}
use euclid_database.Array.{VectorWire, enforce_equal, extract_array, assert_bytes}
use euclid_database.Array.Vectors.{convert_u8_to_u32}
use euclid_database.Keccak.{compute_size_with_padding, hash_vector, hash_len, packed_hash_len}
use euclid_database.Mpt.{InputWires, Level, init_from_u32_targets, verify_mpt_proof}
use euclid_database.State.{register_link}

-- `HEADER_RLP_PARENT_HASH_OFFSET`, `HEADER_RLP_STATE_ROOT_OFFSET`, `HEADER_RLP_NUMBER_LEN`,
-- `HEADER_RLP_NUMBER_OFFSET` and `SEPOLIA_NUMBER_LEN`.
abbrev pub header_rlp_parent_hash_offset : ℕ
header_rlp_parent_hash_offset = 4

abbrev pub header_rlp_state_root_offset : ℕ
header_rlp_state_root_offset = 91

abbrev pub header_rlp_number_offset : ℕ
header_rlp_number_offset = 450

abbrev pub header_rlp_number_len : ℕ
header_rlp_number_len = header_rlp_number_offset - 1

abbrev pub sepolia_number_len : ℕ
sepolia_number_len = 3

-- `ADDRESS_LEN`
abbrev pub address_len : ℕ
address_len = 20

-- `BlockInputsWires`, with the packed hash of the header.
pub record BlockInputsWires : Type 0 where
  pub number : ℕ
  pub parent_hash : List ℕ
  pub hash : List ℕ
  pub header_rlp : VectorWire

-- The wires of the prover for the account.
pub record AccountWires : Type 0 where
  pub contract_address : List ℕ
  pub address_diff : ℕ
  pub storage_root_offset : ℕ
  pub leaf : VectorWire
  pub leaf_diff : ℕ
  pub levels : List Level

-- The readers of the public inputs of digest_equal.rs, by `C1_IDX`, `C2_IDX`, `M_IDX` and `S_IDX`.
abbrev pub equal_c1_idx : ℕ
equal_c1_idx = 11

abbrev pub equal_c2_idx : ℕ
equal_c2_idx = equal_c1_idx + packed_hash_len

abbrev pub equal_m_idx : ℕ
equal_m_idx = equal_c2_idx + 4

abbrev pub equal_s_idx : ℕ
equal_s_idx = equal_m_idx + 1

unfoldable pub equal_digest : List ℕ → List ℕ
equal_digest proof_inputs = take 11 proof_inputs

unfoldable pub mpt_root : List ℕ → List ℕ
mpt_root proof_inputs = take packed_hash_len (drop equal_c1_idx proof_inputs)

unfoldable pub merkle_root_data : List ℕ → List ℕ
merkle_root_data proof_inputs = take 4 (drop equal_c2_idx proof_inputs)

unfoldable pub equal_mapping_slot : List ℕ → ℕ
equal_mapping_slot proof_inputs = get_or proof_inputs equal_m_idx 0

unfoldable pub equal_length_slot : List ℕ → ℕ
equal_length_slot proof_inputs = get_or proof_inputs equal_s_idx 0

module _ (b : Builder) where
  -- The fold over the bytes of the number from the i-th one on, with the rounds that are left.
  unfoldable pub number_loop : List ℕ → ℕ → ℕ → ℕ → ℕ → Circuit ℕ
  number_loop header block_number_len i zero num = some num
  number_loop header block_number_len i (suc rounds) num =
      less_than b i block_number_len 2 >>= λ is_block_number_byte.
      (let current_byte = get_or header (header_rlp_number_offset + i) 0 in
        let shifted_number = b.mul_add 255 num current_byte in
        number_loop header block_number_len (i + 1) rounds
          (b.mul_add (bit is_block_number_byte) shifted_number num))

  -- The number in `BlockHeader::build`, for MIN_NUMBER_LEN.
  unfoldable pub header_number : ℕ → List ℕ → Circuit ℕ
  header_number min_number_len header =
      let block_number_len = b.sub (get_or header header_rlp_number_len 0) 128 in
      let number = create_array 4 λ i.
        if ltb i min_number_len
        then get_or header (header_rlp_number_offset + min_number_len - 1 - i) 0
        else 0 in
      number_loop header block_number_len min_number_len (4 - min_number_len)
        (get_or (convert_u8_to_u32 b number) 0 0)

  -- `verify_state_root_hash_inclusion`
  unfoldable pub verify_state_root_hash_inclusion : BlockInputsWires → List ℕ → Circuit (Unit {0})
  verify_state_root_hash_inclusion wires state_root_hash = do
    expected_state_root ←
        convert_u8_targets_to_u32 b
          (take hash_len (drop header_rlp_state_root_offset wires.header_rlp.arr))
    enforce_equal b expected_state_root state_root_hash

  -- `verify_storage_root_hash_inclusion`
  unfoldable pub verify_storage_root_hash_inclusion : AccountWires → List ℕ → Circuit (Unit {0})
  verify_storage_root_hash_inclusion wires storage_root_hash = do
    within_range ← less_than b wires.storage_root_offset wires.leaf.real_len 7
    b.connect (bit within_range) (bit true)
    expected_storage_root ← extract_array b wires.leaf.arr wires.storage_root_offset hash_len
    enforce_equal b (convert_u8_to_u32 b expected_storage_root) storage_root_hash

  -- `n.assert_bytes(cb)` for the nodes above the leaf.
  unfoldable pub assert_nodes : List Level → Circuit (Unit {0})
  assert_nodes [] = some tt
  assert_nodes (level ∷ levels) = do assert_bytes b level.node.arr; assert_nodes levels

  module _ (hash_keccak256 : List ℕ → List Bool → List ℕ) where
    -- `BlockHeader::build`
    unfoldable pub block_build : ℕ → VectorWire → ℕ → Circuit BlockInputsWires
    block_build min_number_len header_rlp diff = do
      assert_bytes b header_rlp.arr
      let max_len = length header_rlp.arr
      let arr = header_rlp.arr ++ replicate (compute_size_with_padding max_len - max_len) 0
      let bytes_to_keccak : VectorWire = record { arr = arr; real_len = header_rlp.real_len }
      hash ← hash_vector b hash_keccak256 bytes_to_keccak diff
      parent_hash ←
          convert_u8_targets_to_u32 b
            (take hash_len (drop header_rlp_parent_hash_offset header_rlp.arr))
      number ← header_number min_number_len header_rlp.arr
      some (record {
        number = number;
        parent_hash = parent_hash;
        hash = hash;
        header_rlp = header_rlp;
      })

    -- `Account::build`: the value of the account's leaf and the root of the state trie.
    unfoldable pub account_build : AccountWires → Circuit (List ℕ × List ℕ)
    account_build wires = do
      let arr =
          wires.contract_address
          ++ replicate (compute_size_with_padding address_len - address_len) 0
      let bytes_to_keccak : VectorWire = record { arr = arr; real_len = address_len }
      keccak_contract_address ← hash_vector b hash_keccak256 bytes_to_keccak wires.address_diff
      expected_mpt_key ← init_from_u32_targets b keccak_contract_address
      let state_mpt_input : InputWires = record {
        key_wire = expected_mpt_key;
        leaf = wires.leaf;
        leaf_diff = wires.leaf_diff;
        levels = wires.levels;
      }
      state_mpt_output ← verify_mpt_proof b hash_keccak256 state_mpt_input
      assert_bytes b wires.leaf.arr
      assert_nodes wires.levels
      some state_mpt_output

    -- `BlockLinkingCircuit::build`, on the public inputs of the storage proof.
    unfoldable pub link_build : ℕ → AccountWires → VectorWire → ℕ → List ℕ → Circuit (List ℕ)
    link_build number_len account header_rlp diff storage_pi = do
      (_, state_root) ← account_build account
      block_inputs ← block_build number_len header_rlp diff
      verify_storage_root_hash_inclusion account (mpt_root storage_pi)
      verify_state_root_hash_inclusion block_inputs state_root
      some (
          register_link block_inputs.hash block_inputs.number block_inputs.parent_hash
            (convert_u8_to_u32 b account.contract_address) (equal_digest storage_pi)
            (equal_mapping_slot storage_pi) (equal_length_slot storage_pi)
            (merkle_root_data storage_pi))
