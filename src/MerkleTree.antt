-- ===== src/MerkleTree.antt =====
-- mrp2-utils/src/merkle_tree/state_tree.rs and mrp2-utils/src/poseidon.rs: a Merkle opening of
-- variable depth. A hash is the list of its elements.
pub mod StateTree
pub mod Openings
mod Tests
use euclid_database.Prelude.{
  ℕ, zero, suc, ◌+◌, ◌-◌, ◌≤◌, Bool, true, false, List, [], ◌∷◌, ◌++◌, Circuit, ◌>>=◌, ◌>>◌, some,
  none, guard, length, ◌==◌, leb, take, drop, get_or, bit, create_array, replicate, if◌then◌else◌,
}
use euclid_database.Plonky2.{Builder}
use euclid_database.Plonky2.Poseidon.{Poseidon, num_hash_out_elts}

module _ (p : Poseidon) where
  open p use {State, new, set_from_slice, permute_swapped, squeeze, rate, hash_no_pad}

  -- `for input_chunk in inputs.chunks(P::RATE)`, with the inputs as fuel: a chunk is not empty.
  unfoldable pub absorb_loop : ℕ → State → List ℕ → Bool → State
  absorb_loop fuel state [] do_swap = state
  absorb_loop zero state (x ∷ xs) do_swap = state
  absorb_loop (suc fuel) state (x ∷ xs) do_swap =
      absorb_loop fuel (permute_swapped (set_from_slice state (take rate (x ∷ xs))) do_swap)
        (drop rate (x ∷ xs)) do_swap

  -- The output loop: whole squeezes until there are four outputs, with a permutation between them. A
  -- round gives an output at least, so four rounds are enough.
  unfoldable pub squeeze_loop : ℕ → State → List ℕ → Bool → List ℕ
  squeeze_loop zero state outputs do_swap = outputs
  squeeze_loop (suc fuel) state outputs do_swap =
      let outputs' = outputs ++ take (num_hash_out_elts - length outputs) (squeeze state) in
      let rest = squeeze_loop fuel (permute_swapped state do_swap) outputs' do_swap in
      if length outputs' == num_hash_out_elts then outputs' else rest

  unfoldable pub hash_maybe_swap : List ℕ → List ℕ → Bool → List ℕ
  hash_maybe_swap left right do_swap =
      let inputs = left ++ right in
      squeeze_loop num_hash_out_elts (absorb_loop (length inputs) new inputs do_swap) [] do_swap

module _ (b : Builder) (p : Poseidon) where
  open p use {hash_no_pad}

  -- The constraint on the flags: `val` is the product so far, and `acc` the sum of the products.
  unfoldable pub depth_loop : List Bool → ℕ → ℕ → ℕ
  depth_loop [] val acc = acc
  depth_loop (v ∷ is_value) val acc =
      let val' = b.mul val (bit v) in depth_loop is_value val' (b.add acc val')

  unfoldable pub root_loop : List Bool → List (List ℕ) → List Bool → List ℕ → List ℕ
  root_loop (v ∷ is_value) (sibling ∷ siblings) (position ∷ positions) root =
      let value = hash_maybe_swap p root sibling position in
      root_loop is_value siblings positions
        (create_array num_hash_out_elts λ i. b.select v (get_or value i 0) (get_or root i 0))
  root_loop [] siblings positions root = root
  root_loop (v ∷ is_value) [] positions root = root
  root_loop (v ∷ is_value) (sibling ∷ siblings) [] root = root

  -- `StateTreeWires::build`: the wires `is_value` and `depth` are the prover's. It returns the root.
  unfoldable pub build : ℕ → List ℕ → List (List ℕ) → List Bool → List Bool → ℕ → Circuit (List ℕ)
  build max_depth leaf_data siblings positions is_value depth = do
    guard (length siblings == max_depth)
    guard (length positions == max_depth)
    b.connect (depth_loop is_value 1 0) depth
    some (root_loop is_value siblings positions (hash_no_pad leaf_data))

-- `StateTreeWires::assign`: the flags for a depth. A depth above the maximum is out of range.
unfoldable pub assign : ℕ → ℕ → Circuit (List Bool)
assign max_depth depth =
    if leb depth max_depth
    then some (replicate depth true ++ replicate (max_depth - depth) false)
    else none
