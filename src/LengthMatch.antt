-- ===== src/LengthMatch.antt =====
-- mr-plonky2-circuits/src/storage/length_match.rs and the public inputs of length_extract.rs: the
-- number of entries proved of a mapping is the length that its contract stores.
pub mod Matching
use euclid_database.Prelude.{
  ℕ, ◌+◌, ◌-◌, List, ◌++◌, [], ◌∷◌, Circuit, ◌>>=◌, ◌>>◌, some, take, drop, get_or,
}
use euclid_database.Plonky2.{Builder, order}
use euclid_database.Array.{enforce_equal}
use euclid_database.Keccak.{packed_hash_len}
use euclid_database.Mpt.{MptKeyWire}
use euclid_database.Mapping.{accumulator, mpt_key, root_hash, mapping_slot, entries}

-- `C_IDX`, `S_IDX` and `V_IDX` of length_extract.rs.
abbrev pub length_c_idx : ℕ
length_c_idx = 0

abbrev pub length_s_idx : ℕ
length_s_idx = length_c_idx + packed_hash_len

abbrev pub length_v_idx : ℕ
length_v_idx = length_s_idx + 1

unfoldable pub root_hash_data : List ℕ → List ℕ
root_hash_data proof_inputs = take packed_hash_len (drop length_c_idx proof_inputs)

unfoldable pub storage_slot : List ℕ → ℕ
storage_slot proof_inputs = get_or proof_inputs length_s_idx 0

unfoldable pub length_value : List ℕ → ℕ
length_value proof_inputs = get_or proof_inputs length_v_idx 0

-- `PublicInputs::register` of length_match.rs.
unfoldable pub register_match : List ℕ → List ℕ → ℕ → ℕ → List ℕ
register_match digest mpt_root_hash slot length_slot =
    digest ++ (mpt_root_hash ++ (slot ∷ length_slot ∷ []))

-- `LengthMatchCircuit::build`: the public inputs that it registers.
unfoldable pub length_match : Builder → List ℕ → List ℕ → Circuit (List ℕ)
length_match b length_pi mapping_pi = do
  let slot = mapping_slot mapping_pi
  let length_slot = storage_slot length_pi
  let digest = accumulator mapping_pi
  let key = mpt_key mapping_pi
  b.connect key.pointer (order - 1)
  b.connect (length_value length_pi) (entries mapping_pi)
  enforce_equal b (root_hash_data length_pi) (root_hash mapping_pi)
  some (register_match digest (root_hash_data length_pi) slot length_slot)
