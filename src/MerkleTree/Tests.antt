-- ===== src/MerkleTree/Tests.antt =====
-- Runs of the openings on a small tree.
use euclid_database.Prelude.{ℕ, ◌≡◌, refl, true, false, List, [], ◌∷◌, ◌>>=◌, some, arith}
use euclid_database.Plonky2.Reference.{goldilocks}
use euclid_database.Plonky2.Poseidon.{reference_poseidon}
use euclid_database.MerkleTree.{build, assign}
use euclid_database.MerkleTree.Openings.{build_lem, build-assign, build-not_contiguous}

abbrev left_hash : List ℕ
left_hash = 1 ∷ 2 ∷ 3 ∷ 4 ∷ []

abbrev right_hash : List ℕ
right_hash = 5 ∷ 6 ∷ 7 ∷ 8 ∷ []

build_lem_example :
    build goldilocks reference_poseidon 2
      (9 ∷ [])
      (left_hash ∷ right_hash ∷ [])
      (true ∷ false ∷ [])
      (true ∷ false ∷ [])
      1
    ≡ some left_hash
build_lem_example =
    build_lem goldilocks reference_poseidon (9 ∷ []) (true ∷ false ∷ [])
      (left_hash ∷ right_hash ∷ []) (true ∷ false ∷ []) 1 refl refl (omega arith) (refl, (refl, tt))

build-assign_example :
    (assign 2 1 >>= λ flags.
    build goldilocks reference_poseidon 2
      (9 ∷ [])
      (left_hash ∷ right_hash ∷ [])
      (true ∷ false ∷ [])
      flags
      1)
    ≡ some left_hash
build-assign_example =
    build-assign goldilocks reference_poseidon (9 ∷ []) (left_hash ∷ []) (right_hash ∷ [])
      (true ∷ []) (false ∷ []) refl refl (omega arith) (refl, (refl, tt))

build-not_contiguous_example :
    build goldilocks reference_poseidon 3
      (9 ∷ [])
      (left_hash ∷ left_hash ∷ right_hash ∷ [])
      (false ∷ false ∷ true ∷ [])
      (true ∷ false ∷ true ∷ [])
      1
    ≡ some right_hash
build-not_contiguous_example =
    build-not_contiguous goldilocks reference_poseidon (9 ∷ []) (left_hash ∷ []) (false ∷ [])
      left_hash right_hash false true refl (omega arith) (refl, (refl, (refl, tt)))
