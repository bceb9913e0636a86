-- ===== src/DigestEqual.antt =====
-- mr-plonky2-circuits/src/storage/digest_equal.rs, with the public inputs of length_match.rs: the
-- entries that were proved of the contract's storage and those of the rebuilt tree have one digest.
pub mod Equality
mod Tests
use euclid_database.Prelude.{
  ℕ, ◌+◌, List, [], ◌∷◌, ◌++◌, Circuit, ◌>>=◌, ◌>>◌, some, take, drop, get_or,
}
use euclid_database.Plonky2.{Builder}
use euclid_database.GroupHashing.{connect_curve_points}
use euclid_database.Keccak.{packed_hash_len}
use euclid_database.Lpn.{root_raw, digest_raw}

-- `C_IDX`, `M_IDX` and `S_IDX` of length_match.rs.
abbrev pub match_c_idx : ℕ
match_c_idx = 11

abbrev pub match_m_idx : ℕ
match_m_idx = match_c_idx + packed_hash_len

abbrev pub match_s_idx : ℕ
match_s_idx = match_m_idx + 1

-- `convert_slice_to_curve_point` takes the eleven wires at the start of the slice.
unfoldable pub match_digest : List ℕ → List ℕ
match_digest proof_inputs = take 11 proof_inputs

unfoldable pub match_root : List ℕ → List ℕ
match_root proof_inputs = take packed_hash_len (drop match_c_idx proof_inputs)

unfoldable pub match_mapping_slot : List ℕ → ℕ
match_mapping_slot proof_inputs = get_or proof_inputs match_m_idx 0

unfoldable pub match_length_slot : List ℕ → ℕ
match_length_slot proof_inputs = get_or proof_inputs match_s_idx 0

-- `PublicInputs::register` of digest_equal.rs.
unfoldable pub register_equal : List ℕ → List ℕ → List ℕ → ℕ → ℕ → List ℕ
register_equal digest mpt_root_hash merkle_root_hash slot length_slot =
    digest ++ (mpt_root_hash ++ (merkle_root_hash ++ (slot ∷ length_slot ∷ [])))

-- `DigestEqualCircuit::build`
unfoldable pub digest_equal : Builder → List ℕ → List ℕ → Circuit (List ℕ)
digest_equal b mpt_pi merkle_pi = do
  let mpt_digest = match_digest mpt_pi
  let merkle_digest = digest_raw merkle_pi
  connect_curve_points b mpt_digest merkle_digest
  some (
      register_equal mpt_digest (match_root mpt_pi) (root_raw merkle_pi) (match_mapping_slot mpt_pi)
        (match_length_slot mpt_pi))
