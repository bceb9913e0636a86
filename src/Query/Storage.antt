-- ===== src/Query/Storage.antt =====
-- mr-plonky2-circuits/src/query2/storage: the proofs over a part of a storage tree, with the owner
-- that all its entries have.
use euclid_database.Prelude.{ℕ, ◌+◌, Bool, List, ◌++◌, Circuit, ◌>>◌, some, take, drop}
use euclid_database.Plonky2.{Builder}
use euclid_database.Plonky2.Poseidon.{Poseidon}
use euclid_database.Array.{concat, enforce_equal}
use euclid_database.MerkleTree.{hash_maybe_swap}
use euclid_database.GroupHashing.{Group}

-- `ROOT_LEN`, `DIGEST_OFFSET`, `DIGEST_LEN`, `OWNER_OFFSET` and `OWNER_LEN`
abbrev pub query_root_len : ℕ
query_root_len = 4

abbrev pub query_digest_offset : ℕ
query_digest_offset = query_root_len

abbrev pub query_digest_len : ℕ
query_digest_len = 11

abbrev pub owner_offset : ℕ
owner_offset = query_root_len + query_digest_len

abbrev pub owner_len : ℕ
owner_len = 8

-- `PublicInputs::register`
unfoldable pub register_query : List ℕ → List ℕ → List ℕ → List ℕ
register_query root digest user = root ++ (digest ++ user)

unfoldable pub query_root : List ℕ → List ℕ
query_root inputs = take query_root_len inputs

unfoldable pub query_digest : List ℕ → List ℕ
query_digest inputs = take query_digest_len (drop query_digest_offset inputs)

unfoldable pub query_owner : List ℕ → List ℕ
query_owner inputs = take owner_len (drop owner_offset inputs)

module _ (b : Builder) (p : Poseidon) (g : Group) where
  -- `LeafCircuit::build`, on the packed key and value: the digest is of the key alone.
  unfoldable pub query_leaf : List ℕ → List ℕ → List ℕ
  query_leaf key_u32 value_u32 =
      let kv = concat key_u32 value_u32 0 in
      let digest = g.map_to_curve_point key_u32 in
      let root = p.hash_no_pad kv in register_query root digest value_u32

  -- `FullInnerNodeCircuit::build`
  unfoldable pub query_full_inner : List ℕ → List ℕ → Circuit (List ℕ)
  query_full_inner left right = do
    let root = p.hash_no_pad (query_root left ++ query_root right)
    enforce_equal b (query_owner left) (query_owner right)
    let digest = g.add_curve_point (query_digest left) (query_digest right)
    some (register_query root digest (query_owner left))

  -- `PartialInnerNodeCircuit::build`, with the prover's wires `unproved_hash` and `proved_is_right`.
  unfoldable pub query_partial_inner : List ℕ → List ℕ → Bool → List ℕ
  query_partial_inner proved unproved_hash proved_is_right =
      let root = hash_maybe_swap p (query_root proved) unproved_hash proved_is_right in
      register_query root (query_digest proved) (query_owner proved)
