-- ===== src/Keccak.antt =====
-- mrp2-utils/src/keccak.rs: the padding of a vector of bytes and its hash. `hash_keccak256` of
-- plonky2_crypto is a parameter: it maps the packed words and the flags of the blocks after the first
-- to the words of the hash.
pub mod Padding
pub mod Blocks
pub mod Reference
pub mod Hashing
mod Tests
use euclid_database.Prelude.{
  ℕ, ◌+◌, ◌-◌, ◌*◌, ◌/◌, Bool, true, List, Circuit, ◌>>=◌, ◌>>◌, some, guard, ltb, length, get_or,
  bit, build_array,
}
use euclid_database.Plonky2.{Builder}
use euclid_database.Utils.Compare.{less_than}
use euclid_database.Utils.Pack.{convert_u8_targets_to_u32}
use euclid_database.Array.{VectorWire, equals}

-- `HASH_LEN`, `PACKED_HASH_LEN`, and `KECCAK256_R` of plonky2_crypto in bits and in bytes.
abbrev pub hash_len : ℕ
hash_len = 32

abbrev pub packed_hash_len : ℕ
packed_hash_len = 8

abbrev pub keccak256_r : ℕ
keccak256_r = 1088

abbrev pub rate_bytes : ℕ
rate_bytes = 136

-- plonky2's `ceil_div_usize`
abbrev pub ceil_div_usize : ℕ → ℕ → ℕ
ceil_div_usize a b = (a + b - 1) / b

unfoldable pub compute_size_with_padding : ℕ → ℕ
compute_size_with_padding data_len =
    let input_len_bits = data_len * 8 in
    let num_actual_blocks = 1 + input_len_bits / keccak256_r in
    let padded_len_bits = num_actual_blocks * keccak256_r in ceil_div_usize padded_len_bits 8

unfoldable pub compute_padding_size : ℕ → ℕ
compute_padding_size data_len = compute_size_with_padding data_len - data_len

module _ (b : Builder) where
  -- One item of the padded node.
  unfoldable pub pad_item : ℕ → ℕ → ℕ → ℕ → Circuit ℕ
  pad_item real_len end_padding i byte = do
    is_data ← less_than b i real_len 32
    let is_start_padding = b.is_equal i real_len
    let is_end_padding = b.is_equal i end_padding
    let is_start_and_end = b.and_bool is_start_padding is_end_padding
    let item_data = b.mul (bit is_data) byte
    let item_start_padding = b.mul (bit is_start_padding) 0x01
    let item_end_padding = b.mul (bit is_end_padding) 0x80
    let item_start_and_end = b.mul (bit is_start_and_end) 0x81
    some (b.add (b.add (b.add item_data item_start_padding) item_end_padding) item_start_and_end)

  -- The inclusive end of the padding; `diff` is the prover's.
  unfoldable pub end_padding : ℕ → ℕ → ℕ
  end_padding real_len diff = b.sub (b.add real_len diff) 1

  unfoldable pub padded_node : VectorWire → ℕ → Circuit (List ℕ)
  padded_node a diff =
      build_array (length a.arr)
        λ i. pad_item a.real_len (end_padding a.real_len diff) i (get_or a.arr i 0)

  -- The flags of the blocks after the first. The subtraction of the source stops the build on an
  -- array without a whole block.
  unfoldable pub blocks : VectorWire → ℕ → Circuit (List Bool)
  blocks a diff = do
    let nb_blocks = b.div (b.add (end_padding a.real_len diff) 1) rate_bytes
    let nb_actual_blocks = b.sub nb_blocks 1
    guard (ltb 0 (length a.arr / rate_bytes))
    build_array (length a.arr / rate_bytes - 1) λ i. less_than b i nb_actual_blocks 8

  module _ (hash_keccak256 : List ℕ → List Bool → List ℕ) where
    unfoldable pub hash_vector : VectorWire → ℕ → Circuit (List ℕ)
    hash_vector a diff = do
      padded ← padded_node a diff
      node_u32 ← convert_u8_targets_to_u32 b padded
      flags ← blocks a diff
      some (hash_keccak256 node_u32 flags)

    -- `hash_to_bytes`: the bytes are the prover's, and the circuit connects their packing to the hash.
    unfoldable pub hash_to_bytes : VectorWire → ℕ → List ℕ → Circuit (List ℕ)
    hash_to_bytes a diff hash_bytes = do
      output_array ← hash_vector a diff
      packed_hash ← convert_u8_targets_to_u32 b hash_bytes
      b.connect 1 (bit (equals b packed_hash output_array))
      some hash_bytes
