-- ===== src/LengthExtract/Tests.antt =====
-- The leaf at slot 7 with the length 1000, and zeros behind it.
use euclid_database.Prelude.{
  ◌≡◌, refl, [], ◌∷◌, ◌++◌, some, replicate, arith, All-replicate, All-append, bit_length,
  build_array,
}
use euclid_database.Utils.Pack.Laws.{IsByte}
use euclid_database.Mpt.{
  init_from_u32_targets, advance_by, advance_key_leaf_or_extension, limb_nibbles, word_nibbles,
  verify_mpt_proof, verify_loop,
}
use euclid_database.Array.Vectors.{add_weighted, convert_u8_to_u32}
use euclid_database.Array.{
  assert_bytes, equals, extract_array, value_at, value_at_failover, VectorWire,
}
use euclid_database.Keccak.{
  end_padding, hash_vector, padded_node, pad_item, blocks, compute_size_with_padding,
}
use euclid_database.Rlp.{
  compact_loop, data_len, data_len_loop, data_len_round, decode_compact_encoding, decode_fixed_list,
  decode_header, fixed_list_loop, products, quin_selector, select_header, short_string_len,
}
use euclid_database.Utils.Compare.{greater_than_or_equal_to, less_than_or_equal_to, less_than}
use euclid_database.Utils.Pack.{convert_u8_targets_to_u32, pack_loop, pack_chunk}
use euclid_database.Plonky2.Reference.{goldilocks}
use euclid_database.Keccak.Reference.{zero_hash}
use euclid_database.Keccak.{compute_padding_size}
use euclid_database.Rlp.Encode.{string, encode, head, head_bytes, stands_for_itself}
use euclid_database.StorageKey.{mpt_nibbles, mpt_key_vec, location, simple}
use euclid_database.Utils.Pack.{bytes_to_nibbles}
use euclid_database.StorageKey.Reference.{ethers}
use euclid_database.BlockLinking.{assert_nodes}
use euclid_database.LengthExtract.{build_length, register_length}
use euclid_database.LengthExtract.Slot.{mpt_input, build_length-number}

-- The leaf at the key of 64 zeros.
abbrev length_leaf : VectorWire
length_leaf = record {
  arr = 0xe6 ∷ 0xa1 ∷ 0x20 ∷ (replicate 32 0 ++ (0x83 ∷ 0x82 ∷ 3 ∷ 232 ∷ replicate 97 0));
  real_len = 39;
}

proof_runs :
    verify_mpt_proof goldilocks zero_hash.hash_keccak256
      (mpt_input (replicate 64 0) length_leaf 97 [])
    ≡ some (encode (string (3 ∷ 232 ∷ [])) ++ replicate 30 0, replicate 8 0)
unfolding init_from_u32_targets advance_by advance_key_leaf_or_extension limb_nibbles word_nibbles
    add_weighted convert_u8_to_u32 assert_bytes equals extract_array value_at value_at_failover
    end_padding hash_vector padded_node pad_item blocks compute_size_with_padding bit_length
    build_array compact_loop data_len data_len_loop data_len_round decode_compact_encoding
    decode_fixed_list decode_header fixed_list_loop products quin_selector select_header
    short_string_len greater_than_or_equal_to less_than_or_equal_to less_than
    convert_u8_targets_to_u32 pack_loop pack_chunk verify_mpt_proof verify_loop assert_nodes head
    head_bytes stands_for_itself encode
proof_runs = refl

slot_nibbles : mpt_nibbles ethers zero_hash.keccak256 (simple 7) ≡ some (replicate 64 0)
unfolding mpt_nibbles mpt_key_vec location bytes_to_nibbles
slot_nibbles = refl

no_nodes : assert_nodes goldilocks [] ≡ some tt
unfolding assert_nodes
no_nodes = refl

build_length-number_example :
    build_length goldilocks zero_hash.hash_keccak256 7 (compute_padding_size 32) length_leaf 97 []
    ≡ some (register_length (replicate 8 0) 7 1000)
build_length-number_example =
    build_length-number goldilocks ethers zero_hash 7 (replicate 64 0) length_leaf 97 []
      (3 ∷ 232 ∷ []) (replicate 30 0) (replicate 8 0) (omega arith) slot_nibbles proof_runs
      (
        omega arith,
        (
          omega arith,
          (
            omega arith,
            All-append IsByte (replicate 32 0) (0x83 ∷ 0x82 ∷ 3 ∷ 232 ∷ replicate 97 0)
                (All-replicate IsByte 32 0 (omega arith))
                (
                  omega arith,
                  (
                    omega arith,
                    (omega arith, (omega arith, All-replicate IsByte 97 0 (omega arith))),
                  ),
                ),
          ),
        ),
      )
      no_nodes (omega arith, (omega arith, tt)) (All-replicate IsByte 30 0 (omega arith))
      (omega arith) (omega arith) (omega arith)
