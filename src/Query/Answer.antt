-- ===== src/Query/Answer.antt =====
-- A whole answer: the proofs of a query and of the block tree, and the revelation over both.
mod Sizes
use euclid_database.Prelude.{
  ℕ, zero, suc, ◌+◌, ◌%◌, ◌^◌, ◌≤◌, ◌<◌, ◌≡◌, refl, Bool, true, List, [], ◌∷◌, some, none, map,
  length, length-take, length-append, subst, ◌⊎◌, take, drop, get_or, create_array-slice,
  length-slice, bit, leb, leb→le, arith, ap, ◌∙◌, sym, All, >>=-eq-some,
}
use euclid_database.Plonky2.{Builder, order}
use euclid_database.Plonky2.Laws.{connect_eq}
use euclid_database.Plonky2.Poseidon.{Poseidon}
use euclid_database.Plonky2.Merkle.{MerkleProofs, zero_hash}
use euclid_database.Utils.Compare.{less_than_or_equal_to, greater_than_or_equal_to}
use euclid_database.Utils.Compare.Laws.{comparisons}
use euclid_database.Array.{enforce_equal}
use euclid_database.Array.Slices.{enforce_equal_iff}
use euclid_database.GroupHashing.{Group, add_loop, add_curve_target, connect_curve_points}
use euclid_database.GroupHashing.Points.{add_loop-IsPoint, connect_curve_points_iff}
use euclid_database.BlockTree.{init_root, block_root, empty_merkle_root, original_block_header}
use euclid_database.State.{state_block_header}
use euclid_database.Mpt.Key.{some-elim}
use euclid_database.Query.Blocks.{
  query_block_number, query_range, query_block_root, query_block_digest, smart_contract_address,
  user_address, query_mapping_slot, mapping_slot_length,
}
use euclid_database.Query.Revelation.{
  Choice, RevelationWires, last, take_last, digests_loop, build_revelation, register_revelation,
  revealed_number, revealed_range, min_block_number, max_block_number, revealed_contract,
  revealed_user, revealed_slot, revealed_slot_length, nft_ids, block_header,
}
use euclid_database.Query.RevelationLayout.{Reads, register_revelation_lem}
use euclid_database.Query.Revealed.{Ascending, chosen, IsId, loop_lem, set}
use euclid_database.Query.Aggregates.{
  Blocks, IsSizedBlocks, prove_blocks, Exposed, blocks_root-IsHash, length-blocks_digest, Answers,
  blocks_digest, first_number, last_number,
}
use euclid_database.Query.Answers.{prove_blocks-Exposed}
use euclid_database.Query.Leaves.{Broken}
use euclid_database.Query.Inclusion.{Inserted, query-Inserted}
use euclid_database.BlockTree.{block_tree_public_inputs}
use euclid_database.BlockTree.Steps.{Proved}
use euclid_database.BlockTree.Layout.{block_sizes}
use euclid_database.BlockTree.Chain.{proved_lem, proved-Chained, is_empty}
use euclid_database.BlockTree.Append.{empty_loop_lem}
use euclid_database.BlockTree.Paths.{length-full_root}
use euclid_database.Query.Answer.Sizes.{
  sum-IsPoint, low_lem, connected, empty-IsHash, length-public, take_last-owner,
}

-- The sizes of the wires of a revelation: at most 256 keys, a count of one byte, and words as
-- identifiers and block numbers.
pub record IsSizedRevelation (wires : RevelationWires) : Type 0 where
  pub keys_fit : length wires.raw_keys ≤ 256
  pub count_fits : wires.num_entries < 256
  pub ids_fit : All (λ key. IsId (last key)) wires.raw_keys
  pub low_fits : wires.min_block_number < 2 ^ 32
  pub high_fits : wires.max_block_number < 2 ^ 32

-- The identifiers of all the keys.
abbrev pub ids : RevelationWires → List ℕ
ids wires = map last wires.raw_keys

-- What the public inputs of a revelation say of a query and of the last block of the tree.
pub record Revealed (g : Group) (c : Choice) (q : Blocks) (leaf_pi : List ℕ)
    (wires : RevelationWires) (pis : List ℕ) : Type 0 where
  pub owner : List ℕ
  pub answers :
      Answers
        (revealed_contract (length (ids wires)) pis)
        owner
        (revealed_slot (length (ids wires)) pis)
        (revealed_slot_length (length (ids wires)) pis)
        q
  pub user_exposed : revealed_user (length (ids wires)) pis ≡ take 5 (drop 3 owner)
  pub ids_exposed : nft_ids (length (ids wires)) pis ≡ ids wires
  pub ids_ascend : Ascending (take wires.num_entries (nft_ids (length (ids wires)) pis))
  pub sum_point : List ℕ
  pub keys_summed :
      add_curve_target g (chosen g c wires.num_entries wires.raw_keys) ≡ some sum_point
  pub same_coordinates : take 10 sum_point ≡ take 10 (blocks_digest g q)
  pub sum_is_finite : get_or sum_point 10 0 ≡ 0
  pub digest_is_finite : get_or (blocks_digest g q) 10 0 ≡ 0
  pub number_exposed : revealed_number (length (ids wires)) pis ≡ last_number q
  pub range_exposed :
      (revealed_range (length (ids wires)) pis + first_number q) % order
      ≡ (last_number q + 1) % order
  pub low_bound : min_block_number (length (ids wires)) pis ≤ first_number q
  pub high_bound : last_number q ≤ max_block_number (length (ids wires)) pis
  pub header_exposed : block_header (length (ids wires)) pis ≡ state_block_header leaf_pi

module _ (b : Builder) (p : Poseidon) (g : Group) (c : Choice) (gadget : MerkleProofs p) where
  -- What the circuit shows, over a proof that exposes a query.
  revealed_lem :
      (d : ℕ) (db root_proof leaf_pi pis : List ℕ) (q : Blocks) (wires : RevelationWires)
      → length db ≡ 18
      → original_block_header db ≡ state_block_header leaf_pi
      → Exposed p g q root_proof
      → IsSizedRevelation wires
      → first_number q < 2 ^ 32
      → last_number q < 2 ^ 32
      → build_revelation b p g c gadget d db root_proof wires ≡ some pis
      → Revealed g c q leaf_pi wires pis
        × (query_block_root root_proof ≡ block_root db)
        × (init_root db ≡ empty_merkle_root p gadget d)
  unfolding build_revelation
  revealed_lem d db root_proof leaf_pi pis q wires l hd x z f k e =
      let keys = wires.raw_keys in
      let n = wires.num_entries in
      let digest = query_block_digest root_proof in
      let (ds, e1, r1) = >>=-eq-some (digests_loop b p g c gadget 0 none keys n) _ e in
      let (point, e2, r2) = >>=-eq-some (add_curve_target g ds) _ r1 in
      let (u3, e3, r3) = >>=-eq-some (connect_curve_points b point digest) _ r2 in
      let (u4, e4, r4) =
        >>=-eq-some (enforce_equal b (query_block_root root_proof) (block_root db)) _ r3 in
      let empty = empty_merkle_root p gadget d in
      let (u5, e5, r5) = >>=-eq-some (enforce_equal b (init_root db) empty) _ r4 in
      let bound = b.add (b.sub (query_block_number root_proof) (query_range root_proof)) 1 in
      let (low, e6, r6) =
        >>=-eq-some (greater_than_or_equal_to b bound wires.min_block_number 32) _ r5 in
      let (high, e7, r7) =
        >>=-eq-some
          (less_than_or_equal_to b (query_block_number root_proof) wires.max_block_number 32) _
          r6 in
      let (u8, e8, r8) = >>=-eq-some (b.connect (bit low) 1) _ r7 in
      let (u9, e9, r9) = >>=-eq-some (b.connect (bit high) 1) _ r8 in
      let (s0, s1) =
        loop_lem b p g c gadget 0 none keys n n ds (omega (arith, z.keys_fit)) z.count_fits
          (omega arith) tt z.ids_fit e1 in
      let e2' : add_curve_target g (chosen g c n keys) ≡ some point =
        ap (add_curve_target g) (sym s0) ∙ e2 in
      let number = query_block_number root_proof in
      let same =
        (connect_curve_points_iff b point digest (sum-IsPoint g c n keys e2')
            (ap length x.digest ∙ length-blocks_digest g q)).0
          e3 in
      let low_is =
        low_lem b number (query_range root_proof) (first_number q) wires.min_block_number f
          (omega (arith, k, x.number)) z.low_fits
          (x.span ∙ ap (λ m. (m + 1) % order) (sym x.number)) in
      let high_is =
        (comparisons b number wires.max_block_number 32 (omega arith) (omega (arith, k, x.number))
          z.high_fits).2 in
      let low' : low ≡ leb wires.min_block_number (first_number q) = cc (low_is, e6) in
      let high' : high ≡ leb number wires.max_block_number = cc (high_is, e7) in
      let user = user_address root_proof in
      let owner_is = take_last-owner user x.user_sized in
      let whole : register_revelation number (query_range root_proof) wires.min_block_number
            wires.max_block_number (smart_contract_address root_proof) (take_last 5 user)
            (query_mapping_slot root_proof) (mapping_slot_length root_proof) (ids wires)
            (original_block_header db)
          ≡ pis =
        some-elim (λ y. y) pis r9 in
      let (p0, p1, p2, p3, p4, p5, p6, p7, p8, p9) =
        subst
          (Reads number (query_range root_proof) wires.min_block_number wires.max_block_number
            (smart_contract_address root_proof) (take_last 5 user) (query_mapping_slot root_proof)
            (mapping_slot_length root_proof) (ids wires) (original_block_header db))
          whole
          (register_revelation_lem number (query_range root_proof) wires.min_block_number
            wires.max_block_number (smart_contract_address root_proof) (take_last 5 user)
            (query_mapping_slot root_proof) (mapping_slot_length root_proof) (ids wires)
            (original_block_header db) x.contract_sized
            (ap length owner_is ∙ length-slice user 3 5 (omega (arith, x.user_sized)))
            (block_sizes db l).2) in
      (
        record {
          owner = user;
          answers = rw (p4, p6, p7) x.answers;
          user_exposed = p5 ∙ owner_is;
          ids_exposed = p8;
          ids_ascend = rw p8 s1;
          sum_point = point;
          keys_summed = e2';
          same_coordinates = same.0 ∙ ap (λ y. take 10 y) x.digest;
          sum_is_finite = same.1;
          digest_is_finite = ap (λ y. get_or y 10 0) (sym x.digest) ∙ same.2;
          number_exposed = p0 ∙ x.number;
          range_exposed = rw p1 x.span;
          low_bound = rw p2 (leb→le _ _ (sym low' ∙ connected b low e8));
          high_bound = rw p3 (
              subst (λ y. y ≤ wires.max_block_number) x.number
                (leb→le _ _ (sym high' ∙ connected b high e9)));
          header_exposed = p9 ∙ hd;
        },
        (enforce_equal_iff b (query_block_root root_proof) (block_root db)
              (ap length x.root ∙ blocks_root-IsHash p q ∙ sym (block_sizes db l).1)).0
            e4,
        (enforce_equal_iff b (init_root db) empty
              ((block_sizes db l).0 ∙ sym (empty-IsHash p gadget d))).0
            e5,
      )

  -- For wires of their sizes, block numbers of 32 bits, depths below the field's order and a block tree
  -- whose indices are below it: the public inputs of an accepted revelation over a proof of a query
  -- and a proof of the block tree say of the query: its contract and slots, five words of its owner,
  -- its last block, in the field one more than the distance from its first block to the last, bounds
  -- that the first and the last block keep, and the identifiers of the keys, which grow strictly
  -- among those that count; and the header of the last block of the tree. The points of the keys
  -- that count have a sum, zeros added, with the coordinates of the sum over all the entries of the
  -- query, and neither is marked as infinity. Every block of the query was inserted into the tree,
  -- with its number, its hash and the state root that the query opens, or two lists with one
  -- Poseidon hash are found, or a list with the hash of zeros.
  pub build_revelation-Revealed :
      (tree_depth max_depth : ℕ) (q : Blocks) (root_proof tree_pis leaf_pi pis : List ℕ)
      (blocks : List (List ℕ)) (wires : RevelationWires)
      → 2 ^ tree_depth < order
      → max_depth < order
      → IsSizedBlocks max_depth q
      → IsSizedRevelation wires
      → first_number q < 2 ^ 32
      → last_number q < 2 ^ 32
      → prove_blocks b p g max_depth q ≡ some root_proof
      → Proved b p gadget tree_depth tree_pis (leaf_pi ∷ blocks)
      → build_revelation b p g c gadget tree_depth
          (block_tree_public_inputs tree_pis)
          root_proof
          wires
        ≡ some pis
      → Revealed g c q leaf_pi wires pis × (Broken p ⊎ Inserted p (leaf_pi ∷ blocks) q)
  build_revelation-Revealed tree_depth max_depth q root_proof tree_pis leaf_pi pis blocks wires h k
        z y f l e proof r =
      let x = prove_blocks-Exposed b p g max_depth q root_proof k z e in
      let db = block_tree_public_inputs tree_pis in
      let (shown, roots, empty) =
        revealed_lem tree_depth db root_proof leaf_pi pis q wires
          (length-public b p gadget tree_depth h proof)
          (proved-Chained b p gadget tree_depth h proof).1 x y f l r in
      (
        shown,
        query-Inserted b p g gadget tree_depth max_depth q root_proof tree_pis leaf_pi blocks h k z
            e proof empty roots,
      )
