-- ===== src/Query/Blocks.antt =====
-- mr-plonky2-circuits/src/query2/state and query2/block: the opening of a storage proof in the state
-- tree of its block, and the aggregation over blocks.
use euclid_database.Prelude.{
  ℕ, zero, suc, ◌+◌, Bool, List, [], ◌∷◌, ◌++◌, Circuit, ◌>>=◌, ◌>>◌, some, take, drop, get_or,
}
use euclid_database.Plonky2.{Builder}
use euclid_database.Plonky2.Poseidon.{Poseidon}
use euclid_database.Array.{enforce_equal}
use euclid_database.MerkleTree.{hash_maybe_swap, build}
use euclid_database.GroupHashing.{Group}
use euclid_database.Query.Storage.{query_root, query_digest, query_owner}

-- `Inputs::SIZES`, and the places of the inputs in it.
abbrev pub sizes : List ℕ
sizes = 1 ∷ 1 ∷ 4 ∷ 5 ∷ 8 ∷ 1 ∷ 1 ∷ 11 ∷ []

-- `Inputs::range`: the sizes before one input are its offset.
unfoldable pub offset_loop : ℕ → List ℕ → ℕ → ℕ
offset_loop zero rest offset = offset
offset_loop (suc me) [] offset = offset
offset_loop (suc me) (size ∷ rest) offset = offset_loop me rest (offset + size)

unfoldable pub input_range : ℕ → List ℕ → List ℕ
input_range me inputs = take (get_or sizes me 0) (drop (offset_loop me sizes 0) inputs)

unfoldable pub query_block_number : List ℕ → ℕ
query_block_number inputs = get_or (input_range 0 inputs) 0 0

unfoldable pub query_range : List ℕ → ℕ
query_range inputs = get_or (input_range 1 inputs) 0 0

unfoldable pub query_block_root : List ℕ → List ℕ
query_block_root inputs = input_range 2 inputs

unfoldable pub smart_contract_address : List ℕ → List ℕ
smart_contract_address inputs = input_range 3 inputs

unfoldable pub user_address : List ℕ → List ℕ
user_address inputs = input_range 4 inputs

unfoldable pub query_mapping_slot : List ℕ → ℕ
query_mapping_slot inputs = get_or (input_range 5 inputs) 0 0

unfoldable pub mapping_slot_length : List ℕ → ℕ
mapping_slot_length inputs = get_or (input_range 6 inputs) 0 0

unfoldable pub query_block_digest : List ℕ → List ℕ
query_block_digest inputs = input_range 7 inputs

-- `BlockPublicInputs::register`
unfoldable pub register_block_query : ℕ → ℕ → List ℕ → List ℕ → List ℕ → ℕ → ℕ → List ℕ → List ℕ
register_block_query block_number range root smc_address user slot slot_length digest =
    block_number ∷ range ∷ (root ++ (smc_address ++ (user ++ (slot ∷ slot_length ∷ digest))))

-- `StateWires`: the wires of the prover, those of its `StateTreeWires` included.
pub record StateWires : Type 0 where
  pub contract : List ℕ
  pub mapping_slot : ℕ
  pub length_slot : ℕ
  pub block_number : ℕ
  pub siblings : List (List ℕ)
  pub positions : List Bool
  pub block_hash : List ℕ
  pub is_value : List Bool
  pub depth : ℕ

module _ (b : Builder) (p : Poseidon) (g : Group) where
  -- `StateCircuit::build`
  unfoldable pub build_state : ℕ → List ℕ → StateWires → Circuit (List ℕ)
  build_state max_depth storage_proof wires = do
    let x = query_owner storage_proof
    let c = query_root storage_proof
    let digest = query_digest storage_proof
    let state_leaf = wires.contract ++ (wires.mapping_slot ∷ wires.length_slot ∷ c)
    root ← build b p max_depth state_leaf wires.siblings wires.positions wires.is_value wires.depth
    let block_leaf = wires.block_number ∷ (wires.block_hash ++ root)
    let block_leaf_hash = p.hash_no_pad block_leaf
    some (
        register_block_query wires.block_number 1 block_leaf_hash wires.contract x
          wires.mapping_slot wires.length_slot digest)

  -- `FullNodeCircuit::build`
  unfoldable pub full_node : List ℕ → List ℕ → Circuit (List ℕ)
  full_node left right = do
    enforce_equal b (user_address left) (user_address right)
    b.connect (query_mapping_slot left) (query_mapping_slot right)
    enforce_equal b (smart_contract_address left) (smart_contract_address right)
    b.connect (mapping_slot_length left) (mapping_slot_length right)
    let root = p.hash_no_pad (query_block_root left ++ query_block_root right)
    let new_range_min_bound = b.sub (query_block_number left) (query_range left)
    let new_range_max_bound = query_block_number right
    let new_range_length = b.sub new_range_max_bound new_range_min_bound
    let digest = g.add_curve_point (query_block_digest left) (query_block_digest right)
    some (
        register_block_query new_range_max_bound new_range_length root (smart_contract_address left)
          (user_address left) (query_mapping_slot left) (mapping_slot_length left) digest)

  -- `PartialNodeCircuit::build`, with the prover's wires `unproved` and `proved_is_right`.
  unfoldable pub partial_node : List ℕ → List ℕ → Bool → List ℕ
  partial_node proved unproved proved_is_right =
      let root = hash_maybe_swap p (query_block_root proved) unproved proved_is_right in
      register_block_query (query_block_number proved) (query_range proved) root
        (smart_contract_address proved) (user_address proved) (query_mapping_slot proved)
        (mapping_slot_length proved) (query_block_digest proved)
