-- ===== src/Array/Tests.antt =====
-- Runs of the array gadgets, and their theorems at concrete inputs.
use euclid_database.Prelude.{ℕ, ◌≡◌, ◌↔◌, refl, true, false, List, [], ◌∷◌, some, arith, take}
use euclid_database.Plonky2.Reference.{goldilocks}
use euclid_database.Array.{
  VectorWire, value_at, extract_array, contains_array, enforce_slice_equals, is_slice_equals,
  enforce_equal,
}
use euclid_database.Array.Vectors.{normalize_left}
use euclid_database.Array.Access.{value_at_lem}
use euclid_database.Array.Reads.{extract_array_lem, contains_array_iff}
use euclid_database.Array.Slices.{
  enforce_slice_equals_iff, is_slice_equals-always, enforce_equal_iff,
}
use euclid_database.Array.Padding.{normalize_left_lem}

abbrev six : List ℕ
six = 10 ∷ 11 ∷ 12 ∷ 13 ∷ 14 ∷ 15 ∷ []

abbrev four : List ℕ
four = 77 ∷ 66 ∷ 9 ∷ 9 ∷ []

abbrev other_four : List ℕ
other_four = 77 ∷ 1 ∷ 2 ∷ 3 ∷ []

value_at_lem_example : value_at goldilocks four 1 ≡ some 66
value_at_lem_example = value_at_lem goldilocks four 1 (omega arith) (omega arith)

extract_array_lem_example : extract_array goldilocks six 2 3 ≡ some (12 ∷ 13 ∷ 14 ∷ [])
extract_array_lem_example =
    extract_array_lem goldilocks six 2 3 (omega arith) (omega arith) (omega arith)

contains_array_iff_example :
    ((contains_array goldilocks six (12 ∷ 13 ∷ []) 2 ≡ some true)
      ↔ (◌≡◌ {A = List ℕ} (12 ∷ 13 ∷ []) (12 ∷ 13 ∷ [])))
    × ((contains_array goldilocks six (12 ∷ 13 ∷ []) 2 ≡ some false)
        ↔ (¬ (◌≡◌ {A = List ℕ} (12 ∷ 13 ∷ []) (12 ∷ 13 ∷ []))))
contains_array_iff_example =
    contains_array_iff goldilocks six (12 ∷ 13 ∷ []) 2 (omega arith) (omega arith) (omega arith)

enforce_slice_equals_iff_example :
    (enforce_slice_equals goldilocks four other_four 1 ≡ some tt)
    ↔ (take 1 four ≡ take 1 other_four)
enforce_slice_equals_iff_example =
    enforce_slice_equals_iff goldilocks four other_four 1 refl (omega arith) (omega arith)

is_slice_equals-always_example : is_slice_equals goldilocks four other_four 3 ≡ some true
is_slice_equals-always_example =
    is_slice_equals-always goldilocks four other_four 3 refl (omega arith) (omega arith)

enforce_equal_iff_example :
    (enforce_equal goldilocks four other_four ≡ some tt) ↔ (four ≡ other_four)
enforce_equal_iff_example = enforce_equal_iff goldilocks four other_four refl

abbrev left_aligned : VectorWire
left_aligned = record { arr = four; real_len = 2 }

normalize_left_lem_example : normalize_left goldilocks left_aligned 4 ≡ some (0 ∷ 0 ∷ 77 ∷ 66 ∷ [])
normalize_left_lem_example =
    normalize_left_lem goldilocks left_aligned 4 (omega arith) (omega arith) (omega arith)
      (omega arith)

abbrev sub_vector : VectorWire
sub_vector = record { arr = 13 ∷ 14 ∷ 0 ∷ []; real_len = 2 }
