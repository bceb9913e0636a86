-- ===== src/Mpt.antt =====
-- mrp2-utils/src/mpt_sequential/mod.rs, key.rs and leaf_or_extension.rs: a Merkle-Patricia proof, from
-- the leaf to the root. Nodes are given with the wire `diff` of their Keccak gadget, which the prover
-- assigns.
pub mod Key
pub mod Nibbles
pub mod Selects
pub mod Steps
pub mod Traced
pub mod Verify
mod Tests
use euclid_database.Prelude.{
  ℕ, ◌+◌, ◌-◌, Bool, true, false, List, [], ◌∷◌, ◌++◌, Circuit, ◌>>=◌, ◌>>◌, some, length, get_or,
  bit,
}
use euclid_database.Plonky2.{Builder, order}
use euclid_database.Utils.Pack.{convert_u8_targets_to_u32}
use euclid_database.Array.{
  VectorWire, value_at, select, equals, extract_array, enforce_slice_equals, assert_bytes,
  is_slice_equals,
}
use euclid_database.Rlp.{
  RlpHeader, RlpList, select_header, decode_fixed_list, decode_compact_encoding, max_items_in_list,
  max_key_nibble_len,
}
use euclid_database.Keccak.{hash_vector, hash_len}

-- `NB_ITEMS_LEAF` and `MAX_LEAF_VALUE_LEN`
abbrev pub nb_items_leaf : ℕ
nb_items_leaf = 2

abbrev pub max_leaf_value_len : ℕ
max_leaf_value_len = 33

-- `MPTKeyWire`
pub record MptKeyWire : Type 0 where
  pub key : List ℕ
  pub pointer : ℕ

-- The node at index i of `InputWires`, for i from 1 on, with `should_process[i - 1]`.
pub record Level : Type 0 where
  pub node : VectorWire
  pub diff : ℕ
  pub is_real : Bool

-- `InputWires`: the nodes are the leaf and the levels above it.
pub record InputWires : Type 0 where
  pub key_wire : MptKeyWire
  pub leaf : VectorWire
  pub leaf_diff : ℕ
  pub levels : List Level

module _ (b : Builder) where
  unfoldable pub current_nibble : MptKeyWire → Circuit ℕ
  current_nibble self = value_at b self.key self.pointer

  unfoldable pub advance_by : MptKeyWire → ℕ → MptKeyWire
  advance_by self len = record { key = self.key; pointer = b.sub self.pointer len }

  -- The nibbles of two-bit limbs: four limbs are a byte, whose high nibble comes first.
  unfoldable pub limb_nibbles : List ℕ → List ℕ
  limb_nibbles (c0 ∷ c1 ∷ c2 ∷ c3 ∷ limbs) =
      b.mul_add 4 c3 c2 ∷ b.mul_add 4 c1 c0 ∷ limb_nibbles limbs
  limb_nibbles (c0 ∷ c1 ∷ c2 ∷ []) = []
  limb_nibbles (c0 ∷ c1 ∷ []) = []
  limb_nibbles (c0 ∷ []) = []
  limb_nibbles [] = []

  -- `init_from_u32_targets`: the nibbles of the words, and the pointer to the last one.
  unfoldable pub word_nibbles : List ℕ → Circuit (List ℕ)
  word_nibbles [] = some []
  word_nibbles (u32_limb ∷ arr) = b.split_le_base 4 u32_limb 16 >>= λ limbs.
      word_nibbles arr >>= λ rest. some (limb_nibbles limbs ++ rest)

  unfoldable pub init_from_u32_targets : List ℕ → Circuit MptKeyWire
  init_from_u32_targets arr = do
    nibbles ← word_nibbles arr
    some (record { key = nibbles; pointer = max_key_nibble_len - 1 })

  unfoldable pub select_key : MptKeyWire → Bool → MptKeyWire → MptKeyWire
  select_key self condition other = record {
    key = self.key;
    pointer = b.select condition self.pointer other.pointer;
  }

  unfoldable pub enforce_prefix_equal : MptKeyWire → MptKeyWire → Circuit (Unit {0})
  enforce_prefix_equal self other = do
    b.connect self.pointer other.pointer
    enforce_slice_equals b self.key other.key self.pointer

  unfoldable pub is_prefix_equal : MptKeyWire → MptKeyWire → Circuit Bool
  is_prefix_equal self other = do
    let ptr_equal = b.is_equal self.pointer other.pointer
    key_equal ← is_slice_equals b self.key other.key self.pointer
    some (b.and_bool ptr_equal key_equal)

  unfoldable pub advance_key_branch :
      List ℕ → MptKeyWire → RlpList → Circuit (MptKeyWire × List ℕ × Bool × ℕ)
  advance_key_branch node key rlp_headers = do
    let branch_condition = b.is_equal max_items_in_list rlp_headers.num_fields
    nibble ← current_nibble key
    let new_key = advance_by key 1
    nibble_header ← select_header b rlp_headers nibble
    branch_child_hash ← extract_array b node nibble_header.offset hash_len
    some (new_key, branch_child_hash, branch_condition, nibble)

  -- `advance_key_leaf_or_extension`, with VALUE_LEN.
  unfoldable pub advance_key_leaf_or_extension :
      ℕ → List ℕ → MptKeyWire → RlpList → Circuit (MptKeyWire × List ℕ × Bool)
  advance_key_leaf_or_extension value_len node key rlp_headers = do
    let condition = b.is_equal rlp_headers.num_fields 2
    let key_header : RlpHeader = record {
      data_type = get_or rlp_headers.data_types 0 0;
      offset = get_or rlp_headers.offsets 0 0;
      len = get_or rlp_headers.lens 0 0;
    }
    (extracted_key, should_true) ← decode_compact_encoding b node key_header
    leaf_child_hash ← extract_array b node (get_or rlp_headers.offsets 1 0) value_len
    let new_key = advance_by key extracted_key.real_len
    some (new_key, leaf_child_hash, b.and_bool condition should_true)

  unfoldable pub advance_key : List ℕ → MptKeyWire → Circuit (MptKeyWire × List ℕ × Bool)
  advance_key node key = do
    rlp_headers ← decode_fixed_list b max_items_in_list node 0
    (leaf_key, leaf_hash, is_tuple) ← advance_key_leaf_or_extension hash_len node key rlp_headers
    (branch_key, branch_hash, is_branch, _) ← advance_key_branch node key rlp_headers
    let tuple_or_branch = b.or_bool is_tuple is_branch
    let child_hash = select b is_tuple leaf_hash branch_hash
    let new_key = select_key leaf_key is_tuple branch_key
    some (new_key, child_hash, tuple_or_branch)

  module _ (hash_keccak256 : List ℕ → List Bool → List ℕ) where
    -- The loop over the nodes above the leaf.
    unfoldable pub verify_loop : List Level → List ℕ → MptKeyWire → Circuit (List ℕ × MptKeyWire)
    verify_loop [] last_hash_output iterative_key = some (last_hash_output, iterative_key)
    verify_loop (level ∷ levels) last_hash_output iterative_key =
        advance_key level.node.arr iterative_key >>= λ (new_key, extracted_child_hash, valid_node).
        convert_u8_targets_to_u32 b extracted_child_hash >>= λ extracted_hash_u32.
        (let found_hash_in_parent = equals b last_hash_output extracted_hash_u32 in
          let cond = b.and_bool valid_node found_hash_in_parent in
          let is_parent = b.select level.is_real (bit cond) (bit true) in
          b.connect is_parent (bit true)
          >> (hash_vector b hash_keccak256 level.node level.diff >>= λ output_array.
              verify_loop levels (select b level.is_real output_array last_hash_output)
                (select_key new_key level.is_real iterative_key)))

    -- `verify_mpt_proof`: the value of the leaf and the hash of the root.
    unfoldable pub verify_mpt_proof : InputWires → Circuit (List ℕ × List ℕ)
    verify_mpt_proof inputs = do
      leaf_hash ← hash_vector b hash_keccak256 inputs.leaf inputs.leaf_diff
      leaf_headers ← decode_fixed_list b nb_items_leaf inputs.leaf.arr 0
      (iterative_key, leaf_value, is_leaf) ←
          advance_key_leaf_or_extension max_leaf_value_len inputs.leaf.arr inputs.key_wire
            leaf_headers
      b.connect (bit true) (bit is_leaf)
      (root, final_key) ← verify_loop inputs.levels leaf_hash iterative_key
      b.connect final_key.pointer (order - 1)
      some (leaf_value, root)

    -- `build_and_advance_key` of leaf_or_extension.rs: the root, the new key and the value.
    unfoldable pub build_and_advance_key :
        ℕ → VectorWire → ℕ → MptKeyWire → Circuit (List ℕ × MptKeyWire × List ℕ)
    build_and_advance_key value_len node diff current_key = do
      assert_bytes b node.arr
      root ← hash_vector b hash_keccak256 node diff
      rlp_headers ← decode_fixed_list b 2 node.arr 0
      (key, value, valid) ← advance_key_leaf_or_extension value_len node.arr current_key rlp_headers
      b.connect (bit true) (bit valid)
      some (root, key, value)
