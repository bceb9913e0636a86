-- ===== src/Query/Tests.antt =====
-- A query over the first block of a tree of two.
use euclid_database.Prelude.{
  ℕ, ◌≡◌, ◌↔◌, refl, false, ◌⊎◌, List, [], ◌∷◌, ◌++◌, some, replicate, arith, ap, ◌∙◌, sym,
  if◌then◌else◌,
}
use euclid_database.Plonky2.Reference.{goldilocks}
use euclid_database.Plonky2.Poseidon.{reference_poseidon}
use euclid_database.Array.{concat, enforce_equal}
use euclid_database.MerkleTree.{
  build, depth_loop, root_loop, hash_maybe_swap, absorb_loop, squeeze_loop,
}
use euclid_database.GroupHashing.{constant_group, add_curve_target, add_loop, connect_curve_points}
use euclid_database.BlockTree.{
  block_root, block_tree_public_inputs, original_block_header, empty_merkle_root, empty_loop,
}
use euclid_database.BlockTree.Layout.{flagged}
use euclid_database.State.{register_state, state_block_header, state_block_number, state_root}
use euclid_database.BlockTree.{leaf_data}
use euclid_database.BlockTree.Sample.{
  gadget, first_block, second_block, tree, made, made_pis, made_root,
}
use euclid_database.Query.Storage.{
  register_query, query_root, query_digest, query_owner, query_leaf,
}
use euclid_database.Query.Blocks.{
  StateWires, build_state, partial_node, register_block_query, query_block_root, input_range,
  offset_loop, query_block_number, query_range, smart_contract_address, user_address,
  query_mapping_slot, mapping_slot_length, query_block_digest,
}
use euclid_database.Query.Entries.{
  Entries, entry, both, OwnedBy, prove_entries, entries_pis, prove_entries_iff,
}
use euclid_database.Query.Aggregates.{Blocks, block, path, IsSizedBlocks, prove_blocks, Exposed}
use euclid_database.Query.Answers.{prove_blocks-Exposed}
use euclid_database.Query.Leaves.{Broken}
use euclid_database.Query.Inclusion.{Inserted}
use euclid_database.Query.Revelation.{
  Choice, RevelationWires, register_revelation, build_revelation, digests_loop, check_order, last,
  take_last,
}
use euclid_database.Query.Answer.{IsSizedRevelation, Revealed, build_revelation-Revealed}
use euclid_database.Utils.Compare.Laws.{comparisons}

abbrev one_entry : Entries
one_entry = entry (replicate 8 3) (replicate 8 4)

abbrev two_entries : Entries
two_entries = both one_entry (entry (replicate 8 5) (replicate 8 4))

prove_entries_iff_example :
    (prove_entries goldilocks reference_poseidon constant_group two_entries
      ≡ some (entries_pis reference_poseidon constant_group two_entries))
    ↔ (OwnedBy (replicate 8 4) two_entries
        × (entries_pis reference_poseidon constant_group two_entries
            ≡ entries_pis reference_poseidon constant_group two_entries))
prove_entries_iff_example =
    prove_entries_iff goldilocks reference_poseidon constant_group two_entries
      (entries_pis reference_poseidon constant_group two_entries) ((refl, refl), (refl, refl))

abbrev wires : StateWires
wires = record {
  contract = replicate 5 7;
  mapping_slot = 1;
  length_slot = 2;
  block_number = 5;
  siblings = replicate 4 0 ∷ [];
  positions = false ∷ [];
  block_hash = replicate 8 1;
  is_value = false ∷ [];
  depth = 0;
}

-- The second block is not proved.
abbrev query : Blocks
query = path (block one_entry wires) (6 ∷ 2 ∷ 2 ∷ 2 ∷ []) false

abbrev query_pis : List ℕ
query_pis =
    register_block_query 5 1 (5 ∷ 1 ∷ 1 ∷ 1 ∷ []) (replicate 5 7) (replicate 8 4) 1 2
      (replicate 10 1 ++ 0 ∷ [])

query_sized : IsSizedBlocks 1 query
query_sized = (
  (
    (refl, refl),
    record {
      contract_sized = refl;
      hash_sized = refl;
      flags_sized = refl;
      siblings_sized = refl;
      positions_sized = refl;
      siblings_hashes = (refl, tt);
    },
  ),
  refl,
)

query_proved : prove_blocks goldilocks reference_poseidon constant_group 1 query ≡ some query_pis
unfolding build_state partial_node register_block_query query_leaf register_query query_root
    query_digest query_owner concat build depth_loop root_loop hash_maybe_swap absorb_loop
    squeeze_loop query_block_root input_range offset_loop query_block_number query_range
    smart_contract_address user_address query_mapping_slot mapping_slot_length query_block_digest
query_proved = refl

prove_blocks-Exposed_example : Exposed reference_poseidon constant_group query query_pis
prove_blocks-Exposed_example =
    prove_blocks-Exposed goldilocks reference_poseidon constant_group 1 query query_pis
      (omega arith) query_sized query_proved

same_root : query_block_root query_pis ≡ block_root (block_tree_public_inputs made_pis)
unfolding query_block_root input_range offset_loop register_block_query block_tree_public_inputs
    register_state leaf_data state_block_header state_block_number state_root
same_root = sym (ap block_root (flagged made.0 0 made.2).0 ∙ made.4)

abbrev points : Choice
points = record {
  curve_zero = replicate 10 0 ++ 1 ∷ [];
  length-curve_zero = refl;
  curve_select = λ c x y. if c then x else y;
  curve_select_lem = λ c x y. refl;
}

abbrev revelation : RevelationWires
revelation = record {
  raw_keys = replicate 8 3 ∷ [];
  num_entries = 1;
  min_block_number = 5;
  max_block_number = 6;
}

revelation_sized : IsSizedRevelation revelation
unfolding last
revelation_sized = record {
  keys_fit = omega arith;
  count_fits = omega arith;
  ids_fit = (omega arith, tt);
  low_fits = omega arith;
  high_fits = omega arith;
}

abbrev db : List ℕ
db = block_tree_public_inputs made_pis

abbrev revealed_pis : List ℕ
revealed_pis =
    register_revelation 5 1 5 6 (replicate 5 7) (replicate 5 4) 1 2 (3 ∷ [])
      (original_block_header db)

empty_root : empty_merkle_root reference_poseidon gadget 1 ≡ replicate 4 0
unfolding empty_merkle_root empty_loop
empty_root = refl

shown_root : query_block_root query_pis ≡ 5 ∷ 1 ∷ 1 ∷ 1 ∷ []
unfolding query_block_root input_range offset_loop register_block_query
shown_root = refl

accepted :
    build_revelation goldilocks reference_poseidon constant_group points gadget 1 db query_pis
      revelation
    ≡ some revealed_pis
unfolding build_revelation digests_loop check_order add_curve_target add_loop connect_curve_points
    enforce_equal last take_last query_block_root input_range offset_loop query_block_number
    query_range smart_contract_address user_address query_mapping_slot mapping_slot_length
    query_block_digest register_block_query
accepted =
    rw
      (
        sym same_root ∙ shown_root,
        made_root ∙ empty_root,
        empty_root,
        (comparisons goldilocks 0 1 8 (omega arith) (omega arith) (omega arith)).0,
        (comparisons goldilocks 5 6 32 (omega arith) (omega arith) (omega arith)).2,
        (comparisons goldilocks 5 5 32 (omega arith) (omega arith) (omega arith)).3,
      )
      refl

build_revelation-Revealed_example :
    Revealed constant_group points query second_block revelation revealed_pis
    × (Broken reference_poseidon ⊎ Inserted reference_poseidon tree query)
build_revelation-Revealed_example =
    build_revelation-Revealed goldilocks reference_poseidon constant_group points gadget 1 1 query
      query_pis made_pis second_block revealed_pis (first_block ∷ []) revelation (omega arith)
      (omega arith) query_sized revelation_sized (omega arith) (omega arith) query_proved made.1
      accepted
