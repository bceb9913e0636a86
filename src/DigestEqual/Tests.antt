-- ===== src/DigestEqual/Tests.antt =====
-- A proof over a mapping and a tree with one entry.
use euclid_database.Prelude.{
  ℕ, ◌-◌, ◌≡◌, ◌↔◌, ◌>>=◌, ◌∷◌, [], ◌++◌, List, refl, some, replicate, take, get_or, arith,
}
use euclid_database.Plonky2.{order}
use euclid_database.Plonky2.Reference.{goldilocks}
use euclid_database.Plonky2.Poseidon.{reference_poseidon}
use euclid_database.GroupHashing.{constant_group}
use euclid_database.Mapping.{register, accumulator, mpt_key, root_hash, mapping_slot, entries}
use euclid_database.Lpn.StorageTree.{Tree, leaf, prove, tree_root, tree_digest}
use euclid_database.LengthMatch.{length_match, root_hash_data, storage_slot, length_value}
use euclid_database.DigestEqual.{digest_equal, register_equal}
use euclid_database.DigestEqual.Equality.{digest_equal_iff}

abbrev mapping_inputs : List ℕ
mapping_inputs =
    register (record { key = replicate 64 5; pointer = order - 1 }) 2 1 (replicate 8 9)
      (replicate 10 1 ++ 0 ∷ [])

abbrev length_inputs : List ℕ
length_inputs = replicate 8 9 ++ (4 ∷ 1 ∷ [])

abbrev one_entry : Tree
one_entry = leaf (1 ∷ 2 ∷ []) (3 ∷ 4 ∷ [])

abbrev registered : List ℕ
registered =
    register_equal (accumulator mapping_inputs) (root_hash_data length_inputs)
      (tree_root reference_poseidon one_entry) (mapping_slot mapping_inputs)
      (storage_slot length_inputs)

digest_equal_iff_example :
    ((length_match goldilocks length_inputs mapping_inputs >>= λ mpt_pi.
    digest_equal goldilocks mpt_pi (prove goldilocks reference_poseidon constant_group one_entry))
      ≡ some registered)
    ↔ (((mpt_key mapping_inputs).pointer ≡ order - 1)
        × (length_value length_inputs ≡ entries mapping_inputs)
        × (root_hash_data length_inputs ≡ root_hash mapping_inputs)
        × (take 10 (accumulator mapping_inputs) ≡ take 10 (tree_digest constant_group one_entry))
        × (get_or (accumulator mapping_inputs) 10 0 ≡ 0)
        × (get_or (tree_digest constant_group one_entry) 10 0 ≡ 0)
        × (registered ≡ registered))
unfolding root_hash root_hash_data register accumulator
digest_equal_iff_example =
    digest_equal_iff goldilocks reference_poseidon constant_group length_inputs mapping_inputs
      registered one_entry refl refl refl
      ((omega arith, (omega arith, tt)), (omega arith, (omega arith, tt)))
