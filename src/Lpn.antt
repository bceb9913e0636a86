-- ===== src/Lpn.antt =====
-- mr-plonky2-circuits/src/storage/lpn (public_inputs.rs, leaf.rs, inner_node.rs): the tree that the
-- prover rebuilds from the entries of a mapping. The gadgets on curve points, with the map to the
-- curve of mrp2-utils/src/group_hashing, are a record of operations.
pub mod StorageTree
mod Tests
use euclid_database.Prelude.{ℕ, ◌+◌, ◌≡◌, refl, replicate, List, [], ◌∷◌, ◌++◌, take, drop, length}
use euclid_database.Plonky2.{Builder}
use euclid_database.Plonky2.Poseidon.{Poseidon}
use euclid_database.GroupHashing.{Group}
use euclid_database.Array.{concat}
use euclid_database.Array.Vectors.{convert_u8_to_u32}

-- `ROOT_LEN`, `D_IDX` and `D_LEN`
abbrev pub root_len : ℕ
root_len = 4

abbrev pub digest_idx : ℕ
digest_idx = 4

abbrev pub digest_len : ℕ
digest_len = 11

-- `PublicInputs::register`
unfoldable pub register_node : List ℕ → List ℕ → List ℕ
register_node root digest = root ++ digest

unfoldable pub root_raw : List ℕ → List ℕ
root_raw inputs = take root_len inputs

unfoldable pub digest_raw : List ℕ → List ℕ
digest_raw inputs = take digest_len (drop digest_idx inputs)

module _ (b : Builder) (p : Poseidon) (g : Group) where
  -- `LeafCircuit::build`
  unfoldable pub leaf_circuit : List ℕ → List ℕ → List ℕ
  leaf_circuit key value =
      let kv = concat key value 0 in
      let kv_u32 = convert_u8_to_u32 b kv in
      let digest = g.map_to_curve_point kv_u32 in
      let root = p.hash_no_pad kv_u32 in register_node root digest

  -- `NodeCircuit::build`, on the public inputs of the two children.
  unfoldable pub node_circuit : List ℕ → List ℕ → List ℕ
  node_circuit left_child right_child =
      let digest = g.add_curve_point (digest_raw left_child) (digest_raw right_child) in
      let to_hash = root_raw left_child ++ root_raw right_child in
      let root = p.hash_no_pad to_hash in register_node root digest
