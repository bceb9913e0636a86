-- ===== src/Query/Aggregates.antt =====
-- What a proof over blocks exposes.
use euclid_database.Prelude.{
  ℕ, ◌+◌, ◌%◌, ◌≡◌, Bool, List, ◌∷◌, ◌++◌, Circuit, ◌>>=◌, some, length, All,
}
use euclid_database.Plonky2.{Builder, order}
use euclid_database.Plonky2.Poseidon.{Poseidon}
use euclid_database.Plonky2.Merkle.{IsHash, parent, merkle_root}
use euclid_database.MerkleTree.StateTree.{leading, kept}
use euclid_database.GroupHashing.{Group}
use euclid_database.Query.Blocks.{
  query_block_number, query_range, query_block_root, smart_contract_address, user_address,
  query_mapping_slot, mapping_slot_length, query_block_digest, StateWires, build_state, full_node,
  partial_node,
}
use euclid_database.Query.Entries.{
  Entries, IsSizedEntries, entries_root, entries_digest, OwnedBy, prove_entries,
  length-entries_digest,
}

-- A part of the block tree: blocks with their entries, nodes with two proved children, and nodes with
-- one.
pub data Blocks : Type 0 where
  block : (entries : Entries) (wires : StateWires) → Blocks
  join : (left right : Blocks) → Blocks
  path : (proved : Blocks) (unproved : List ℕ) (proved_is_right : Bool) → Blocks

pub record IsSizedState (max_depth : ℕ) (w : StateWires) : Type 0 where
  pub contract_sized : length w.contract ≡ 5
  pub hash_sized : length w.block_hash ≡ 8
  pub flags_sized : length w.is_value ≡ max_depth
  pub siblings_sized : length w.siblings ≡ max_depth
  pub positions_sized : length w.positions ≡ max_depth
  pub siblings_hashes : All IsHash w.siblings

abbrev pub IsSizedBlocks : ℕ → Blocks → Type 0
IsSizedBlocks max_depth (block t w) = IsSizedEntries t × IsSizedState max_depth w
IsSizedBlocks max_depth (join l r) = IsSizedBlocks max_depth l × IsSizedBlocks max_depth r
IsSizedBlocks max_depth (path q unproved right) = IsSizedBlocks max_depth q × IsHash unproved

-- The proofs, from the entries up.
abbrev pub prove_blocks : Builder → Poseidon → Group → ℕ → Blocks → Circuit (List ℕ)
prove_blocks b p g max_depth (block t w) =
    prove_entries b p g t >>= λ storage_proof. build_state b p g max_depth storage_proof w
prove_blocks b p g max_depth (join l r) = prove_blocks b p g max_depth l >>= λ x.
    prove_blocks b p g max_depth r >>= λ y. full_node b p g x y
prove_blocks b p g max_depth (path q unproved right) =
    prove_blocks b p g max_depth q >>= λ x. some (partial_node b p g x unproved right)

-- The leaf of the block tree: the block's number and hash, with the state root over the entries.
abbrev pub state_root_of : Poseidon → Entries → StateWires → List ℕ
state_root_of p t w =
    merkle_root p (p.hash_no_pad (w.contract ++ w.mapping_slot ∷ w.length_slot ∷ entries_root p t))
      (kept w.is_value w.siblings) (kept w.is_value w.positions)

abbrev pub blocks_root : Poseidon → Blocks → List ℕ
blocks_root p (block t w) = p.hash_no_pad (w.block_number ∷ (w.block_hash ++ state_root_of p t w))
blocks_root p (join l r) = p.hash_no_pad (blocks_root p l ++ blocks_root p r)
blocks_root p (path q unproved right) = parent p (blocks_root p q) unproved right

abbrev pub blocks_digest : Group → Blocks → List ℕ
blocks_digest g (block t w) = entries_digest g t
blocks_digest g (join l r) = g.add_curve_point (blocks_digest g l) (blocks_digest g r)
blocks_digest g (path q unproved right) = blocks_digest g q

abbrev pub first_number : Blocks → ℕ
first_number (block t w) = w.block_number
first_number (join l r) = first_number l
first_number (path q unproved right) = first_number q

abbrev pub last_number : Blocks → ℕ
last_number (block t w) = w.block_number
last_number (join l r) = last_number r
last_number (path q unproved right) = last_number q

-- All the blocks are opened at one contract, its slots and its owner, each to the depth that its own
-- flags show.
abbrev pub Answers : List ℕ → List ℕ → ℕ → ℕ → Blocks → Type 0
Answers contract owner slot slot_length (block t w) =
    (w.contract ≡ contract)
    × OwnedBy owner t
    × (w.mapping_slot ≡ slot)
    × (w.length_slot ≡ slot_length)
    × (leading w.is_value ≡ w.depth)
Answers contract owner slot slot_length (join l r) =
    Answers contract owner slot slot_length l × Answers contract owner slot slot_length r
Answers contract owner slot slot_length (path q unproved right) =
    Answers contract owner slot slot_length q

-- What the public inputs of a proof over blocks say.
pub record Exposed (p : Poseidon) (g : Group) (q : Blocks) (pis : List ℕ) : Type 0 where
  pub answers :
      Answers
        (smart_contract_address pis)
        (user_address pis)
        (query_mapping_slot pis)
        (mapping_slot_length pis)
        q
  pub root : query_block_root pis ≡ blocks_root p q
  pub digest : query_block_digest pis ≡ blocks_digest g q
  pub number : query_block_number pis ≡ last_number q
  pub span : (query_range pis + first_number q) % order ≡ (last_number q + 1) % order
  pub contract_sized : length (smart_contract_address pis) ≡ 5
  pub user_sized : length (user_address pis) ≡ 8

pub blocks_root-IsHash : (p : Poseidon) (q : Blocks) → IsHash (blocks_root p q)
blocks_root-IsHash p (block t w) = p.length-hash _
blocks_root-IsHash p (join l r) = p.length-hash _
blocks_root-IsHash p (path q unproved right) = p.length-hash _

pub length-blocks_digest : (g : Group) (q : Blocks) → length (blocks_digest g q) ≡ 11
length-blocks_digest g (block t w) = length-entries_digest g t
length-blocks_digest g (join l r) = g.length-add_curve_point (blocks_digest g l) (blocks_digest g r)
length-blocks_digest g (path q unproved right) = length-blocks_digest g q
