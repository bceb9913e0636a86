-- ===== src/Lpn/Tests.antt =====
-- A tree of two entries.
use euclid_database.Prelude.{◌≡◌, [], ◌∷◌, ◌++◌, replicate, arith}
use euclid_database.Plonky2.Reference.{goldilocks}
use euclid_database.Plonky2.Poseidon.{reference_poseidon}
use euclid_database.GroupHashing.{constant_group}
use euclid_database.Lpn.{root_raw, digest_raw}
use euclid_database.Lpn.StorageTree.{Tree, leaf, node, prove, tree_root, prove_lem}

abbrev two_entries : Tree
two_entries = node (leaf (1 ∷ 2 ∷ []) (3 ∷ 4 ∷ [])) (leaf (5 ∷ 6 ∷ []) (7 ∷ 8 ∷ []))

prove_lem_example :
    (root_raw (prove goldilocks reference_poseidon constant_group two_entries)
      ≡ tree_root reference_poseidon two_entries)
    × (digest_raw (prove goldilocks reference_poseidon constant_group two_entries)
        ≡ replicate 10 2 ++ 0 ∷ [])
prove_lem_example = prove_lem goldilocks reference_poseidon constant_group two_entries (
  ((omega arith, (omega arith, tt)), (omega arith, (omega arith, tt))),
  ((omega arith, (omega arith, tt)), (omega arith, (omega arith, tt))),
)
