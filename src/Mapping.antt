-- ===== src/Mapping.antt =====
-- mr-plonky2-circuits/src/storage/mapping: the public inputs of the proofs over a mapping, and the
-- circuits of its extension and branch nodes. Points of the curve are given by their eleven wires, and
-- the gadgets of plonky2_ecgfp5 on them are parameters.
pub mod PublicInputs
pub mod Leaf
pub mod Children
pub mod Proofs
use euclid_database.Prelude.{
  ℕ, ◌+◌, ◌-◌, Bool, true, false, List, [], ◌∷◌, ◌++◌, Circuit, ◌>>=◌, ◌>>◌, some, length, get_or,
  take, drop, bit, replicate, ◌≡◌, if◌then◌else◌,
}
use euclid_database.Plonky2.{Builder}
use euclid_database.Utils.Compare.{less_than}
use euclid_database.Utils.Pack.{convert_u8_targets_to_u32}
use euclid_database.Array.{VectorWire, equals, assert_bytes}
use euclid_database.Array.Vectors.{convert_u8_to_u32}
use euclid_database.Rlp.{RlpList, decode_fixed_list, max_items_in_list, max_key_nibble_len}
use euclid_database.Keccak.{hash_vector, packed_hash_len, hash_len}
use euclid_database.Mpt.{
  MptKeyWire, advance_by, advance_key_branch, advance_key_leaf_or_extension, is_prefix_equal,
}

-- `D_IDX`, `KEY_IDX`, `T_IDX`, `S_IDX`, `N_IDX`, `C_IDX` and `TOTAL_LEN`, and the wires of a point.
abbrev pub d_idx : ℕ
d_idx = 0

abbrev pub key_idx : ℕ
key_idx = 11

abbrev pub t_idx : ℕ
t_idx = 75

abbrev pub s_idx : ℕ
s_idx = 76

abbrev pub n_idx : ℕ
n_idx = 77

abbrev pub c_idx : ℕ
c_idx = 78

abbrev pub total_len : ℕ
total_len = c_idx + 8

abbrev pub point_len : ℕ
point_len = 11

-- `PublicInputs::register`: the public inputs in the order of their registration.
unfoldable pub register : MptKeyWire → ℕ → ℕ → List ℕ → List ℕ → List ℕ
register key slot n c d = d ++ (key.key ++ (key.pointer ∷ slot ∷ n ∷ c))

unfoldable pub accumulator : List ℕ → List ℕ
accumulator proof_inputs = take point_len (drop d_idx proof_inputs)

-- `mpt_key` and `mpt_key_info`
unfoldable pub mpt_key : List ℕ → MptKeyWire
mpt_key proof_inputs = record {
  key = take max_key_nibble_len (drop key_idx proof_inputs);
  pointer = get_or proof_inputs t_idx 0;
}

-- `root_hash` and `root_hash_info`
unfoldable pub root_hash : List ℕ → List ℕ
root_hash proof_inputs = take packed_hash_len (drop c_idx proof_inputs)

unfoldable pub mapping_slot : List ℕ → ℕ
mapping_slot proof_inputs = get_or proof_inputs s_idx 0

unfoldable pub entries : List ℕ → ℕ
entries proof_inputs = get_or proof_inputs n_idx 0

-- The gadgets on points.
pub record Curve : Type 0 where
  pub curve_zero : List ℕ
  pub length-curve_zero : length curve_zero ≡ 11
  pub curve_add : List ℕ → List ℕ → List ℕ
  pub length-curve_add : (x y : List ℕ) → length (curve_add x y) ≡ 11
  pub curve_select : Bool → List ℕ → List ℕ → List ℕ
  pub curve_select_lem : (c : Bool) (x y : List ℕ) → curve_select c x y ≡ (if c then x else y)

module _ (b : Builder) (hash_keccak256 : List ℕ → List Bool → List ℕ) where
  -- `ExtensionNodeCircuit::build`, with the public inputs of the child's proof.
  unfoldable pub extension_circuit : VectorWire → ℕ → List ℕ → Circuit (List ℕ)
  extension_circuit node diff child_proof = do
    assert_bytes b node.arr
    root ← hash_vector b hash_keccak256 node diff
    let child_mpt_key = mpt_key child_proof
    rlp_headers ← decode_fixed_list b 2 node.arr 0
    (new_key, child_hash, valid) ←
        advance_key_leaf_or_extension b hash_len node.arr child_mpt_key rlp_headers
    b.connect (bit true) (bit valid)
    let packed_child_hash = convert_u8_to_u32 b child_hash
    b.connect (bit true) (bit (equals b packed_child_hash (root_hash child_proof)))
    some (
        register new_key (mapping_slot child_proof) (entries child_proof) root
          (accumulator child_proof))

  module _ (curve : Curve) where
    -- `seen_nibbles.iter().for_each`
    unfoldable pub unseen : List ℕ → ℕ → Bool → Circuit (Unit {0})
    unseen [] nibble should_process = some tt
    unseen (sn ∷ seen_nibbles) nibble should_process = do
      let is_equal = b.is_equal sn nibble
      b.connect (b.select should_process (bit is_equal) (bit false)) (bit false)
      unseen seen_nibbles nibble should_process

    -- The checks on one child of a branch: its key's nibble is returned.
    unfoldable pub check_child :
        List ℕ → RlpList → MptKeyWire → ℕ → List ℕ → Bool → List ℕ → Circuit ℕ
    check_child node headers common_prefix slot seen_nibbles should_process proof_inputs = do
      let child_key = mpt_key proof_inputs
      (_, hash, is_valid, nibble) ← advance_key_branch b node child_key headers
      b.connect (b.select should_process (bit is_valid) (bit true)) (bit true)
      unseen seen_nibbles nibble should_process
      packed_hash ← convert_u8_targets_to_u32 b hash
      let hash_equals = equals b packed_hash (root_hash proof_inputs)
      b.connect (b.select should_process (bit hash_equals) (bit true)) (bit true)
      is_equal ← is_prefix_equal b common_prefix child_key
      b.connect (b.select should_process (bit is_equal) (bit true)) (bit true)
      let same_slot = b.is_equal slot (mapping_slot proof_inputs)
      b.connect (b.select should_process (bit same_slot) (bit true)) (bit true)
      some nibble

    -- The loop over the children from index i: the accumulator and the number of entries.
    unfoldable pub children_loop :
        List ℕ
        → RlpList
        → MptKeyWire
        → ℕ
        → ℕ
        → ℕ
        → List (List ℕ)
        → List ℕ
        → ℕ
        → List ℕ
        → Circuit (List ℕ × ℕ)
    children_loop node headers common_prefix slot nb_proofs i [] acc n seen_nibbles = some (acc, n)
    children_loop node headers common_prefix slot nb_proofs i (proof_inputs ∷ inputs) acc n
          seen_nibbles =
        less_than b i nb_proofs 4 >>= λ should_process.
        (let child =
            curve.curve_select should_process (accumulator proof_inputs) curve.curve_zero in
          let acc' = curve.curve_add acc child in
          let n' = b.add n (b.select should_process (entries proof_inputs) 0) in
          check_child node headers common_prefix slot seen_nibbles should_process proof_inputs
          >>= λ nibble.
              children_loop node headers common_prefix slot nb_proofs (i + 1) inputs acc' n'
                (seen_nibbles ++ (nibble ∷ [])))

    -- `BranchCircuit::build`; the common prefix, the slot and the number of proofs are the prover's.
    unfoldable pub branch_circuit :
        VectorWire → ℕ → MptKeyWire → ℕ → ℕ → List (List ℕ) → Circuit (List ℕ)
    branch_circuit node diff common_prefix slot nb_proofs inputs = do
      assert_bytes b node.arr
      root ← hash_vector b hash_keccak256 node diff
      headers ← decode_fixed_list b max_items_in_list node.arr 0
      (acc, n) ←
          children_loop node.arr headers common_prefix slot nb_proofs 0 inputs curve.curve_zero 0 []
      some (register (advance_by b common_prefix 1) slot n root acc)
