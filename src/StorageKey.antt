-- ===== src/StorageKey.antt =====
-- mr-plonky2-circuits/src/storage/key.rs (mrp2-utils/src/storage_key.rs is the same code) and the
-- slots of mrp2-utils/src/eth.rs: the key of a storage slot in the storage trie, in a circuit and out
-- of it.
pub mod Derivation
pub mod Reference
mod Tests
use euclid_database.Prelude.{
  ℕ, ◌+◌, ◌-◌, ◌*◌, ◌%◌, ◌^◌, ◌<◌, ◌≡◌, Bool, List, [], ◌∷◌, ◌++◌, Circuit, ◌>>=◌, ◌>>◌, some, none,
  ltb, ◌==◌, if◌then◌else◌, length, replicate,
}
use euclid_database.Plonky2.{Builder}
use euclid_database.Utils.Pack.{bytes_to_nibbles}
use euclid_database.Array.{VectorWire, assert_bytes}
use euclid_database.Keccak.{compute_size_with_padding, hash_vector, hash_to_bytes, hash_len}
use euclid_database.Mpt.{MptKeyWire, init_from_u32_targets}

-- `INPUT_ELEMENT_LEN`, `INPUT_TUPLE_LEN` and `INPUT_PADDED_LEN`.
abbrev pub input_element_len : ℕ
input_element_len = 32

abbrev pub input_tuple_len : ℕ
input_tuple_len = 2 * input_element_len

abbrev pub input_padded_len : ℕ
input_padded_len = compute_size_with_padding input_tuple_len

-- `MAPPING_KEY_LEN`, `MAPPING_LEAF_VALUE_LEN` and `MAPPING_INPUT_TOTAL_LEN`.
abbrev pub mapping_key_len : ℕ
mapping_key_len = 32

abbrev pub mapping_leaf_value_len : ℕ
mapping_leaf_value_len = 32

abbrev pub mapping_input_total_len : ℕ
mapping_input_total_len = mapping_key_len + mapping_leaf_value_len

module _ (b : Builder) (hash_keccak256 : List ℕ → List Bool → List ℕ) where
  -- `KeccakMPT::build`. The location's bytes are the prover's, and so are the wires `diff` of the two
  -- Keccak gadgets.
  unfoldable pub keccak_mpt : VectorWire → ℕ → List ℕ → ℕ → Circuit MptKeyWire
  keccak_mpt inputs diff location_bytes key_diff = do
    location ← hash_to_bytes b hash_keccak256 inputs diff location_bytes
    let padded_location = location ++ replicate (compute_size_with_padding hash_len - hash_len) 0
    let padded : VectorWire = record { arr = padded_location; real_len = hash_len }
    mpt_key ← hash_vector b hash_keccak256 padded key_diff
    init_from_u32_targets b mpt_key

  -- `SimpleSlot::build`
  unfoldable pub simple_slot : ℕ → ℕ → Circuit MptKeyWire
  simple_slot slot diff = do
    let inputs : VectorWire = record {
      arr =
          replicate (input_element_len - 1) 0
          ++ (slot ∷ replicate (input_padded_len - input_element_len) 0);
      real_len = input_element_len;
    }
    mpt_key ← hash_vector b hash_keccak256 inputs diff
    init_from_u32_targets b mpt_key

  -- `MappingSlot::mpt_key`, for a key of 32 wires.
  unfoldable pub mapping_slot_key : List ℕ → ℕ → ℕ → List ℕ → ℕ → Circuit MptKeyWire
  mapping_slot_key mapping_key slot diff location_bytes key_diff = do
    assert_bytes b mapping_key
    let inputs : VectorWire = record {
      arr =
          mapping_key
          ++ (replicate (mapping_key_len - 1) 0
              ++ (slot
                  ∷ replicate
                      (compute_size_with_padding mapping_input_total_len - mapping_input_total_len)
                      0));
      real_len = mapping_input_total_len;
    }
    keccak_mpt inputs diff location_bytes key_diff

-- `left_pad`, which panics on a longer slice.
unfoldable pub left_pad : ℕ → List ℕ → Circuit (List ℕ)
left_pad n slice =
    if ltb n (length slice)
    then none
    else if length slice == n
    then some slice
    else some (replicate (n - length slice) 0 ++ slice)

pub data StorageSlot : Type 0 where
  simple : (slot : ℕ) → StorageSlot
  mapping : (mapping_key : List ℕ) (mapping_slot : ℕ) → StorageSlot

-- `H256::from_low_u64_be` of ethers: the bytes of the number, the most significant first.
pub record H256 : Type 0 where
  pub from_low_u64_be : ℕ → List ℕ
  pub from_low_u64_be_byte :
      (slot : ℕ) → slot < 256 → from_low_u64_be slot ≡ replicate 31 0 ++ (slot ∷ [])

module _ (h256 : H256) (keccak256 : List ℕ → List ℕ) where
  -- `StorageSlot::location`
  unfoldable pub location : StorageSlot → Circuit (List ℕ)
  location (simple slot) = some (h256.from_low_u64_be slot)
  location (mapping mapping_key mapping_slot) = do
    padded_mkey ← left_pad 32 mapping_key
    padded_slot ← left_pad 32 ((mapping_slot % 2 ^ 8) ∷ [])
    some (keccak256 (padded_mkey ++ padded_slot))

  -- `mpt_key_vec`
  unfoldable pub mpt_key_vec : StorageSlot → Circuit (List ℕ)
  mpt_key_vec self = do bytes ← location self; some (keccak256 bytes)

  unfoldable pub mpt_nibbles : StorageSlot → Circuit (List ℕ)
  mpt_nibbles self = do bytes ← mpt_key_vec self; some (bytes_to_nibbles bytes)
