-- ===== src/Mapping/Leaf.antt =====
-- mr-plonky2-circuits/src/storage/mapping/leaf.rs: the circuit of a leaf, which reads one entry of the
-- mapping.
pub mod Value
pub mod OtherKey
use euclid_database.Prelude.{
  ℕ, ◌-◌, Bool, true, List, ◌++◌, Circuit, ◌>>=◌, ◌>>◌, some, get_or, bit,
}
use euclid_database.Plonky2.{Builder}
use euclid_database.Utils.Pack.{convert_u8_targets_to_u32}
use euclid_database.GroupHashing.{Group}
use euclid_database.Array.{VectorWire, take_last, assert_bytes}
use euclid_database.Array.Vectors.{normalize_left}
use euclid_database.Rlp.{decode_fixed_list, short_string_len}
use euclid_database.Keccak.{hash_vector}
use euclid_database.Mpt.{max_leaf_value_len, advance_key_leaf_or_extension}
use euclid_database.StorageKey.{mapping_slot_key, mapping_leaf_value_len}
use euclid_database.Mapping.{register}

-- The wires of the prover: the node, the entry's key and slot, and those of the Keccak gadgets.
pub record LeafWires : Type 0 where
  pub node : VectorWire
  pub root_diff : ℕ
  pub mapping_key : List ℕ
  pub slot : ℕ
  pub location_diff : ℕ
  pub location_bytes : List ℕ
  pub key_diff : ℕ

-- The value, padded on the left, from the encoded value with its RLP header.
unfoldable pub leaf_value : Builder → List ℕ → Circuit (List ℕ)
leaf_value b encoded_value = do
  let data_len = short_string_len b (get_or encoded_value 0 0)
  let arr = take_last mapping_leaf_value_len encoded_value 0
  normalize_left b (record { arr = arr; real_len = data_len }) mapping_leaf_value_len

-- `LeafCircuit::build`
unfoldable pub mapping_leaf :
    Builder → (List ℕ → List Bool → List ℕ) → Group → LeafWires → Circuit (List ℕ)
mapping_leaf b hash_keccak256 g wires = do
  assert_bytes b wires.node.arr
  root ← hash_vector b hash_keccak256 wires.node wires.root_diff
  mpt_key ←
      mapping_slot_key b hash_keccak256 wires.mapping_key wires.slot wires.location_diff
        wires.location_bytes wires.key_diff
  rlp_headers ← decode_fixed_list b 2 wires.node.arr 0
  (new_key, encoded_value, is_valid) ←
      advance_key_leaf_or_extension b max_leaf_value_len wires.node.arr mpt_key rlp_headers
  b.connect (bit true) (bit is_valid)
  big_endian_left_padded ← leaf_value b encoded_value
  packed ← convert_u8_targets_to_u32 b (wires.mapping_key ++ big_endian_left_padded)
  let leaf_accumulator = g.map_to_curve_point packed
  some (register new_key wires.slot 1 root leaf_accumulator)
