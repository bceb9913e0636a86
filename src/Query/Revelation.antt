-- ===== src/Query/Revelation.antt =====
-- mr-plonky2-circuits/src/query2/revelation (circuit.rs, public_inputs.rs): the keys of a
-- query, against the proofs of the query and of the block tree.
use euclid_database.Prelude.{
  ℕ, ◌+◌, ◌-◌, Bool, true, List, [], ◌∷◌, ◌++◌, Option, Circuit, ◌>>=◌, ◌>>◌, some, none, map,
  length, take, drop, get_or, bit, create_array, ◌≡◌, if◌then◌else◌,
}
use euclid_database.Plonky2.{Builder}
use euclid_database.Plonky2.Poseidon.{Poseidon}
use euclid_database.Plonky2.Merkle.{MerkleProofs}
use euclid_database.Utils.Compare.{less_than, less_than_or_equal_to, greater_than_or_equal_to}
use euclid_database.Array.{enforce_equal}
use euclid_database.GroupHashing.{Group, add_curve_target, connect_curve_points}
use euclid_database.BlockTree.{init_root, block_root, original_block_header, empty_merkle_root}
use euclid_database.Query.Blocks.{
  query_block_number, query_range, query_block_root, smart_contract_address, user_address,
  query_mapping_slot, mapping_slot_length, query_block_digest, offset_loop,
}

-- The gadgets `curve_zero` and `curve_select` of plonky2_ecgfp5.
pub record Choice : Type 0 where
  pub curve_zero : List ℕ
  pub length-curve_zero : length curve_zero ≡ 11
  pub curve_select : Bool → List ℕ → List ℕ → List ℕ
  pub curve_select_lem : (c : Bool) (x y : List ℕ) → curve_select c x y ≡ (if c then x else y)

-- `Array::last` of a packed key, and `Array::take_last` of five.
unfoldable pub last : List ℕ → ℕ
last arr = get_or arr (length arr - 1) 0

unfoldable pub take_last : ℕ → List ℕ → List ℕ
take_last n arr = create_array n λ i. get_or arr (length arr - n + i) 0

-- `RevelationPublicInputs::register`
unfoldable pub register_revelation :
    ℕ → ℕ → ℕ → ℕ → List ℕ → List ℕ → ℕ → ℕ → List ℕ → List ℕ → List ℕ
register_revelation number range low high contract user slot slot_length ids latest =
    number ∷ range ∷ low ∷ high ∷ (contract ++ (user ++ (slot ∷ slot_length ∷ (ids ++ latest))))

-- `Inputs::SIZES` for L identifiers, and the inputs at their places.
abbrev pub revelation_sizes : ℕ → List ℕ
revelation_sizes l = 1 ∷ 1 ∷ 1 ∷ 1 ∷ 5 ∷ 5 ∷ 1 ∷ 1 ∷ l ∷ 8 ∷ []

unfoldable pub revelation_range : ℕ → ℕ → List ℕ → List ℕ
revelation_range l me inputs =
    take (get_or (revelation_sizes l) me 0) (drop (offset_loop me (revelation_sizes l) 0) inputs)

unfoldable pub revealed_number : ℕ → List ℕ → ℕ
revealed_number l inputs = get_or (revelation_range l 0 inputs) 0 0

unfoldable pub revealed_range : ℕ → List ℕ → ℕ
revealed_range l inputs = get_or (revelation_range l 1 inputs) 0 0

unfoldable pub min_block_number : ℕ → List ℕ → ℕ
min_block_number l inputs = get_or (revelation_range l 2 inputs) 0 0

unfoldable pub max_block_number : ℕ → List ℕ → ℕ
max_block_number l inputs = get_or (revelation_range l 3 inputs) 0 0

unfoldable pub revealed_contract : ℕ → List ℕ → List ℕ
revealed_contract l inputs = revelation_range l 4 inputs

unfoldable pub revealed_user : ℕ → List ℕ → List ℕ
revealed_user l inputs = revelation_range l 5 inputs

unfoldable pub revealed_slot : ℕ → List ℕ → ℕ
revealed_slot l inputs = get_or (revelation_range l 6 inputs) 0 0

unfoldable pub revealed_slot_length : ℕ → List ℕ → ℕ
revealed_slot_length l inputs = get_or (revelation_range l 7 inputs) 0 0

unfoldable pub nft_ids : ℕ → List ℕ → List ℕ
nft_ids l inputs = revelation_range l 8 inputs

unfoldable pub block_header : ℕ → List ℕ → List ℕ
block_header l inputs = revelation_range l 9 inputs

-- `RevelationWires`
pub record RevelationWires : Type 0 where
  pub raw_keys : List (List ℕ)
  pub num_entries : ℕ
  pub min_block_number : ℕ
  pub max_block_number : ℕ

module _ (b : Builder) (p : Poseidon) (g : Group) (c : Choice) (gadget : MerkleProofs p) where
  -- The check `if i > 0`: the identifier before this one is smaller, where this one is included.
  unfoldable pub check_order : Option ℕ → ℕ → Bool → Circuit (Unit {0})
  check_order none curr should_be_included = some tt
  check_order (some previous) curr should_be_included = do
    ordered ← less_than b previous curr 32
    let should_be_ordered = b.select should_be_included (bit ordered) (bit true)
    b.connect should_be_ordered (bit true)

  -- The loop over the keys, from the i-th one on: the points to add.
  unfoldable pub digests_loop : ℕ → Option ℕ → List (List ℕ) → ℕ → Circuit (List (List ℕ))
  digests_loop i previous [] num_entries = some []
  digests_loop i previous (key ∷ keys) num_entries = do
    let point = g.map_to_curve_point key
    should_be_included ← less_than b i num_entries 8
    check_order previous (last key) should_be_included
    let digest = c.curve_select should_be_included point c.curve_zero
    digests ← digests_loop (i + 1) (some (last key)) keys num_entries
    some (digest ∷ digests)

  -- `RevelationCircuit::build`
  unfoldable pub build_revelation : ℕ → List ℕ → List ℕ → RevelationWires → Circuit (List ℕ)
  build_revelation max_depth db_proof root_proof wires = do
    let empty_root = empty_merkle_root p gadget max_depth
    let ids = map last wires.raw_keys
    digests ← digests_loop 0 none wires.raw_keys wires.num_entries
    d ← add_curve_target g digests
    connect_curve_points b d (query_block_digest root_proof)
    enforce_equal b (query_block_root root_proof) (block_root db_proof)
    enforce_equal b (init_root db_proof) empty_root
    let min_bound = b.sub (query_block_number root_proof) (query_range root_proof)
    let min_bound_plus_1 = b.add min_bound 1
    correct_min ← greater_than_or_equal_to b min_bound_plus_1 wires.min_block_number 32
    correct_max ← less_than_or_equal_to b (query_block_number root_proof) wires.max_block_number 32
    b.connect (bit correct_min) (bit true)
    b.connect (bit correct_max) (bit true)
    some (
        register_revelation (query_block_number root_proof) (query_range root_proof)
          wires.min_block_number wires.max_block_number (smart_contract_address root_proof)
          (take_last 5 (user_address root_proof)) (query_mapping_slot root_proof)
          (mapping_slot_length root_proof) ids (original_block_header db_proof))
