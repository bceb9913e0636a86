-- ===== src/LengthExtract.antt =====
-- mr-plonky2-circuits/src/storage/length_extract.rs: the number that a leaf of the storage trie holds
-- as the length of a mapping, from its RLP encoding, and the circuit that opens this leaf. Its public inputs are in LengthMatch.
pub mod Value
pub mod Slot
mod Tests
use euclid_database.Prelude.{ℕ, ◌+◌, Bool, List, [], ◌∷◌, ◌++◌, Circuit, ◌>>=◌, ◌>>◌, some, get_or}
use euclid_database.Plonky2.{Builder}
use euclid_database.Utils.Compare.{less_than}
use euclid_database.Array.{VectorWire, assert_bytes, extract_array, reverse_array}
use euclid_database.Array.Vectors.{normalize_left, convert_u8_to_u32}
use euclid_database.Mpt.{InputWires, Level, verify_mpt_proof}
use euclid_database.StorageKey.{simple_slot}
use euclid_database.BlockLinking.{assert_nodes}

-- The value in the array of the leaf, in `ArrayLengthExtractCircuit::build`.
unfoldable pub extract_length : Builder → List ℕ → Circuit ℕ
extract_length b leaf = do
  let prefix = get_or leaf 0 0
  is_single_byte ← less_than b prefix 128 8
  let value_len_80 = b.sub (get_or leaf 0 0) 128
  let value_len = b.select is_single_byte 1 value_len_80
  let offset = b.select is_single_byte 0 1
  extracted ← extract_array b leaf offset 4
  padded ← normalize_left b (record { arr = extracted; real_len = value_len }) 4
  let value = convert_u8_to_u32 b (reverse_array padded 0)
  some (get_or value 0 0)

-- `PublicInputs::register`
unfoldable pub register_length : List ℕ → ℕ → ℕ → List ℕ
register_length root_hash slot value = root_hash ++ (slot ∷ value ∷ [])

-- `ArrayLengthExtractCircuit::build`, for the slot, the leaf and the nodes above it. The wires `diff`
-- of the Keccak gadgets are the prover's.
unfoldable pub build_length :
    Builder → (List ℕ → List Bool → List ℕ) → ℕ → ℕ → VectorWire → ℕ → List Level → Circuit (List ℕ)
build_length b hash_keccak256 slot slot_diff leaf leaf_diff levels = do
  mpt_key ← simple_slot b hash_keccak256 slot slot_diff
  let mpt_input : InputWires = record {
    key_wire = mpt_key;
    leaf = leaf;
    leaf_diff = leaf_diff;
    levels = levels;
  }
  (value, root) ← verify_mpt_proof b hash_keccak256 mpt_input
  assert_bytes b leaf.arr
  assert_nodes b levels
  reduced_value ← extract_length b value
  some (register_length root slot reduced_value)
