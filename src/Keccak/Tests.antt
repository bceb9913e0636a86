-- ===== src/Keccak/Tests.antt =====
-- The padding of two bytes in an array of one block, and of 135 bytes.
use euclid_database.Prelude.{
  ℕ, ◌≡◌, refl, Bool, List, [], ◌∷◌, some, arith, replicate, All-replicate,
}
use euclid_database.Plonky2.Reference.{goldilocks}
use euclid_database.Utils.Pack.{le_words, from_le_bytes}
use euclid_database.Utils.Pack.Laws.{IsByte}
use euclid_database.Array.{VectorWire}
use euclid_database.Keccak.{compute_padding_size, pad_item, end_padding, hash_vector}
use euclid_database.Keccak.Padding.{pad_item-overflow}
use euclid_database.Keccak.Blocks.{hash_vector_lem}

-- A hash that keeps the first two words.
abbrev first_words : List ℕ → List Bool → List ℕ
first_words [] flags = []
first_words (w ∷ []) flags = w ∷ []
first_words (w ∷ v ∷ ws) flags = w ∷ v ∷ []

abbrev two_bytes : VectorWire
two_bytes = record { arr = 5 ∷ 6 ∷ replicate 134 9; real_len = 2 }

-- The word of the bytes 5, 6, 1 and 0, and a word of zeros.
hash_vector_lem_example :
    hash_vector goldilocks first_words two_bytes (compute_padding_size 2) ≡ some (67077 ∷ 0 ∷ [])
unfolding le_words from_le_bytes
hash_vector_lem_example =
    hash_vector_lem goldilocks first_words two_bytes 1
      (omega arith, (omega arith, All-replicate IsByte 134 9 (omega arith))) refl (omega arith)
      (omega arith) (omega arith)

pad_item-overflow_example :
    pad_item goldilocks 135 (end_padding goldilocks 135 (compute_padding_size 135)) 135 0 ≡ some 258
pad_item-overflow_example = pad_item-overflow goldilocks 135 0 refl (omega arith) (omega arith)
