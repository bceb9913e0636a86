-- ===== src/Mapping/Proofs/Tests.antt =====
-- A leaf with one entry, a branch above it alone, and the key 1 at slot 3.
use euclid_database.Prelude.{
  ℕ, ◌≡◌, refl, List, [], ◌∷◌, ◌++◌, some, none, replicate, All-replicate, if◌then◌else◌, arith,
}
use euclid_database.Mpt.{
  init_from_u32_targets, advance_by, advance_key_branch, advance_key_leaf_or_extension,
  current_nibble, is_prefix_equal, limb_nibbles, word_nibbles,
}
use euclid_database.Array.Vectors.{add_weighted, convert_u8_to_u32, normalize_item, normalize_left}
use euclid_database.Array.{
  assert_bytes, equals, extract_array, is_slice_equals, take_last, value_at, value_at_failover,
}
use euclid_database.Keccak.{
  end_padding, hash_vector, padded_node, pad_item, blocks, hash_to_bytes, compute_size_with_padding,
}
use euclid_database.Mapping.{
  accumulator, branch_circuit, check_child, children_loop, entries, mapping_slot, mpt_key, register,
  root_hash, unseen,
}
use euclid_database.Mapping.Leaf.{leaf_value, mapping_leaf}
use euclid_database.Mapping.Proofs.{prove_mapping}
use euclid_database.StorageKey.{mapping_slot_key, keccak_mpt}
use euclid_database.Prelude.{bit_length, build_array}
use euclid_database.Rlp.{
  compact_loop, data_len, data_len_loop, data_len_round, decode_compact_encoding, decode_fixed_list,
  decode_header, fixed_list_loop, products, quin_selector, select_header, short_string_len,
}
use euclid_database.Utils.Compare.{greater_than_or_equal_to, less_than_or_equal_to, less_than}
use euclid_database.Utils.Pack.{convert_u8_targets_to_u32, pack_loop, pack_chunk}
use euclid_database.Plonky2.{IsField}
use euclid_database.Plonky2.Reference.{goldilocks}
use euclid_database.GroupHashing.{constant_group}
use euclid_database.Keccak.Reference.{zero_hash}
use euclid_database.Mpt.{MptKeyWire}
use euclid_database.Mapping.{Curve}
use euclid_database.Mapping.Leaf.{LeafWires}
use euclid_database.Mapping.Leaf.Value.{leaf_value-encode, leaf_value-single_byte}
use euclid_database.Mapping.Leaf.OtherKey.{with_entry, mapping_leaf-other_key}
use euclid_database.Mapping.Proofs.{Proof, leaf, branch, nil, cons}

abbrev zero_key : MptKeyWire
zero_key = record { key = replicate 64 0; pointer = 0 }

abbrev leaf_wires : LeafWires
leaf_wires = record {
  node = record {
    arr = 0xe4 ∷ 0xa0 ∷ 0x30 ∷ (replicate 31 0 ++ (0x82 ∷ 0x81 ∷ 0xff ∷ replicate 99 0));
    real_len = 37;
  };
  root_diff = 99;
  mapping_key = replicate 32 0;
  slot = 2;
  location_diff = 72;
  location_bytes = replicate 32 0;
  key_diff = 104;
}

abbrev points : Curve
points = record {
  curve_zero = replicate 11 0;
  length-curve_zero = refl;
  curve_add = λ x y. replicate 11 3;
  length-curve_add = λ x y. refl;
  curve_select = λ c x y. if c then x else y;
  curve_select_lem = λ c x y. refl;
}

-- The branch has the hash of the leaf at nibble 0.
abbrev one_child : Proof
one_child =
    branch
      (record {
        arr = 0xf1 ∷ 0xa0 ∷ (replicate 32 0 ++ (replicate 16 0x80 ++ replicate 86 0));
        real_len = 50;
      })
      86 zero_key 2 1 (cons (leaf leaf_wires) nil)

abbrev branch_pis : List ℕ
branch_pis =
    register (record { key = replicate 64 0; pointer = 0xffff_ffff_0000_0000 }) 2 1 (replicate 8 0)
      (replicate 11 3)

abbrev leaf_pis : List ℕ
leaf_pis = register zero_key 2 1 (replicate 8 0) (replicate 10 1 ++ (0 ∷ []))

-- The key 1 at slot 3.
abbrev other_wires : LeafWires
other_wires = record leaf_wires { mapping_key = replicate 31 0 ++ (1 ∷ []); slot = 3 }

abbrev first_key : MptKeyWire
first_key = record { key = replicate 64 0; pointer = 63 }

runs :
    (prove_mapping goldilocks zero_hash.hash_keccak256 constant_group points one_child
      ≡ some branch_pis)
    × (mapping_leaf goldilocks zero_hash.hash_keccak256 constant_group leaf_wires ≡ some leaf_pis)
    × (mapping_slot_key goldilocks zero_hash.hash_keccak256 other_wires.mapping_key 3 72
          (replicate 32 0)
          104
        ≡ some first_key)
unfolding init_from_u32_targets advance_by advance_key_branch advance_key_leaf_or_extension
    current_nibble is_prefix_equal limb_nibbles word_nibbles add_weighted convert_u8_to_u32
    normalize_item normalize_left assert_bytes equals extract_array is_slice_equals take_last
    value_at value_at_failover end_padding hash_vector padded_node pad_item blocks hash_to_bytes
    compute_size_with_padding accumulator branch_circuit check_child children_loop entries
    mapping_slot mpt_key register root_hash unseen leaf_value mapping_leaf prove_mapping
    mapping_slot_key keccak_mpt bit_length build_array compact_loop data_len data_len_loop
    data_len_round decode_compact_encoding decode_fixed_list decode_header fixed_list_loop products
    quin_selector select_header short_string_len greater_than_or_equal_to less_than_or_equal_to
    less_than convert_u8_targets_to_u32 pack_loop pack_chunk
runs = (refl, refl, refl)

mapping_leaf-other_key_example :
    (key : MptKeyWire) × (value : List ℕ) × (root : List ℕ) × (leaf_pis
      ≡ register key 2 1 root
          (constant_group.map_to_curve_point (pack_loop goldilocks (replicate 32 0 ++ value))))
    × (mapping_leaf goldilocks zero_hash.hash_keccak256 constant_group
          (with_entry leaf_wires other_wires)
        ≡ some (
            register
              (record { key = first_key.key; pointer = key.pointer })
              3
              1
              root
              (constant_group.map_to_curve_point
                (pack_loop goldilocks (other_wires.mapping_key ++ value)))))
mapping_leaf-other_key_example =
    mapping_leaf-other_key goldilocks zero_hash.hash_keccak256 constant_group leaf_wires other_wires
      leaf_pis first_key refl runs.1 runs.2

-- The value 255, and the value 7, which has no header.
leaf_value-encode_example :
    leaf_value goldilocks (129 ∷ 255 ∷ replicate 31 9) ≡ some (replicate 31 0 ++ (255 ∷ []))
leaf_value-encode_example =
    leaf_value-encode goldilocks (255 ∷ []) (replicate 31 9)
      (omega arith, All-replicate IsField 31 9 (omega arith)) refl

leaf_value-single_byte_example : leaf_value goldilocks (7 ∷ replicate 32 0) ≡ none
leaf_value-single_byte_example =
    leaf_value-single_byte goldilocks 7 (replicate 32 0) (omega arith) refl
