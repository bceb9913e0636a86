-- ===== src/Utils/Tests.antt =====
-- Runs of the gadgets of mrp2-utils/src/utils.rs, and its theorems at concrete inputs.
use euclid_database.Prelude.{
  ℕ, ◌^◌, ◌-◌, ◌↔◌, ◌≡◌, refl, true, false, List, [], ◌∷◌, ◌++◌, some, none, arith,
}
use euclid_database.Plonky2.Reference.{goldilocks}
use euclid_database.Utils.Compare.{
  less_than, num_to_bits, bits_to_num, bits_loop, greater_than, less_than_or_equal_to,
  greater_than_or_equal_to,
}
use euclid_database.Utils.Compare.Laws.{comparisons}
use euclid_database.Utils.Pack.{
  convert_u8_slice_to_u32_fields, convert_u8_targets_to_u32, le_words, from_le_bytes,
  convert_u8_to_u32_slice, bytes_to_nibbles, nibbles_to_bytes,
}
use euclid_database.Utils.Pack.Laws.{convert_u8_targets_to_u32_lem}
use euclid_database.Utils.Pack.Nibbles.{nibbles_to_bytes-bytes_to_nibbles, nibbles_to_bytes-odd}
use euclid_database.Utils.Search.{
  find_index_subvector, StandsAt, StandsFirst, find_index_subvector_lem,
}

less_than_runs : (less_than goldilocks 5 10 4 ≡ some true) × (less_than goldilocks 40 3 4 ≡ none)
unfolding less_than
less_than_runs = (refl, refl)

comparisons_example :
    (less_than goldilocks 5 10 4 ≡ some true)
    × (greater_than goldilocks 5 10 4 ≡ some false)
    × (less_than_or_equal_to goldilocks 5 10 4 ≡ some true)
    × (greater_than_or_equal_to goldilocks 5 10 4 ≡ some false)
comparisons_example = comparisons goldilocks 5 10 4 (omega arith) (omega arith) (omega arith)

abbrev eight : List ℕ
eight = 1 ∷ 2 ∷ 3 ∷ 4 ∷ 250 ∷ 251 ∷ 252 ∷ 253 ∷ []

abbrev five : List ℕ
five = 1 ∷ 2 ∷ 3 ∷ 4 ∷ 5 ∷ []

words_run : convert_u8_to_u32_slice five ≡ 67305985 ∷ 5 ∷ []
unfolding convert_u8_to_u32_slice le_words from_le_bytes
words_run = refl

convert_u8_targets_to_u32_lem_example :
    (convert_u8_targets_to_u32 goldilocks eight ≡ convert_u8_slice_to_u32_fields eight)
    × (convert_u8_targets_to_u32 goldilocks eight ≡ some (convert_u8_to_u32_slice eight))
convert_u8_targets_to_u32_lem_example = convert_u8_targets_to_u32_lem goldilocks eight (omega arith)

nibbles_to_bytes-bytes_to_nibbles_example : nibbles_to_bytes (bytes_to_nibbles five) ≡ five
nibbles_to_bytes-bytes_to_nibbles_example = nibbles_to_bytes-bytes_to_nibbles five (omega arith)

nibbles_to_bytes-odd_example :
    nibbles_to_bytes ((1 ∷ 2 ∷ []) ++ (7 ∷ [])) ≡ nibbles_to_bytes (1 ∷ 2 ∷ [])
nibbles_to_bytes-odd_example = nibbles_to_bytes-odd (1 ∷ 2 ∷ []) 7 refl

search_run : find_index_subvector five (3 ∷ 4 ∷ []) ≡ some (some 2)
unfolding find_index_subvector
search_run = refl

find_index_subvector_lem_example :
    ((i : ℕ)
      → (find_index_subvector five (3 ∷ 4 ∷ []) ≡ some (some i)) ↔ StandsFirst (3 ∷ 4 ∷ []) five i)
    × ((find_index_subvector five (3 ∷ 4 ∷ []) ≡ some none)
        ↔ ((j : ℕ) → ¬ StandsAt (3 ∷ 4 ∷ []) five j))
    × (find_index_subvector five [] ≡ none)
find_index_subvector_lem_example = find_index_subvector_lem five (3 ∷ 4 ∷ []) (omega arith)

-- At 63 bits the sum 2 ^ 63 + x wraps around.
less_than_63_run : less_than goldilocks (2 ^ 63 - 1) 0 63 ≡ some true
unfolding less_than num_to_bits bits_to_num bits_loop
less_than_63_run = refl

search_absent_run : find_index_subvector five (4 ∷ 3 ∷ []) ≡ some none
unfolding find_index_subvector
search_absent_run = refl
