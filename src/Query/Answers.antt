-- ===== src/Query/Answers.antt =====
-- The proofs over blocks are about one contract, its slots and its owner, over the Merkle root that
-- they expose.
use euclid_database.Prelude.{
  ℕ, ◌+◌, ◌%◌, ◌<◌, ◌≡◌, refl, Bool, List, ◌∷◌, ◌++◌, Circuit, some, none, length, ◌==◌, ==_iff,
  Bool-cases, inl, inr, arith, ap, ◌∙◌, sym, subst, >>=-eq-some,
}
use euclid_database.Plonky2.{Builder, order}
use euclid_database.Plonky2.Laws.{connect_eq}
use euclid_database.Plonky2.Poseidon.{Poseidon}
use euclid_database.Plonky2.Merkle.{IsHash, parent, merkle_root}
use euclid_database.Array.{enforce_equal}
use euclid_database.Array.Slices.{enforce_equal_iff}
use euclid_database.MerkleTree.{build}
use euclid_database.MerkleTree.StateTree.{leading, kept, hash_maybe_swap_lem}
use euclid_database.MerkleTree.Openings.{build_lem}
use euclid_database.GroupHashing.{Group}
use euclid_database.Query.Blocks.{
  query_block_number, query_range, query_block_root, smart_contract_address, user_address,
  query_mapping_slot, mapping_slot_length, query_block_digest, register_block_query, StateWires,
  build_state, full_node, partial_node,
}
use euclid_database.Query.Layout.{register_block_query_lem}
use euclid_database.Query.Entries.{
  Entries, IsSizedEntries, entries_root, entries_digest, first_owner, OwnedBy, prove_entries,
  entries_pis, entries_pis_lem, length-first_owner, prove_entries_iff,
}
use euclid_database.Query.Aggregates.{
  Blocks, block, join, path, IsSizedState, IsSizedBlocks, prove_blocks, blocks_root, blocks_digest,
  first_number, last_number, Answers, Exposed, blocks_root-IsHash, length-blocks_digest,
}

-- What is registered is exposed.
exposed :
    (p : Poseidon) (g : Group) (q : Blocks) (number range : ℕ) (root contract user : List ℕ)
    (slot slot_length : ℕ) (digest : List ℕ)
    → length contract ≡ 5
    → length user ≡ 8
    → Answers contract user slot slot_length q
    → root ≡ blocks_root p q
    → digest ≡ blocks_digest g q
    → number ≡ last_number q
    → (range + first_number q) % order ≡ (last_number q + 1) % order
    → Exposed p g q (register_block_query number range root contract user slot slot_length digest)
exposed p g q number range root contract user slot slot_length digest c u a r d n s =
    let (l0, l1, l2, l3, l4, l5, l6, l7) =
      register_block_query_lem number range root contract user slot slot_length digest
        (ap length r ∙ blocks_root-IsHash p q) c u (ap length d ∙ length-blocks_digest g q) in
    record {
      answers = rw (l3, l4, l5, l6) a;
      root = l2 ∙ r;
      digest = l7 ∙ d;
      number = l0 ∙ n;
      span = rw l1 s;
      contract_sized = ap length l3 ∙ c;
      user_sized = ap length l4 ∙ u;
    }

module _ (b : Builder) (p : Poseidon) (g : Group) where
  state_opened :
      (max_depth : ℕ) (leaf : List ℕ) (w : StateWires) (root : List ℕ)
      → max_depth < order
      → IsSizedState max_depth w
      → build b p max_depth leaf w.siblings w.positions w.is_value w.depth ≡ some root
      → (leading w.is_value ≡ w.depth)
        × (merkle_root p
              (p.hash_no_pad leaf)
              (kept w.is_value w.siblings)
              (kept w.is_value w.positions)
            ≡ root)
  state_opened max_depth leaf w root h z e =
      let f = z.flags_sized in
      let l =
        build_lem b p leaf w.is_value w.siblings w.positions w.depth (z.siblings_sized ∙ sym f)
          (z.positions_sized ∙ sym f) (omega (arith, f)) z.siblings_hashes in
      let e' = sym l ∙ ap (λ n. build b p n leaf w.siblings w.positions w.is_value w.depth) f ∙ e in
      elim (Bool-cases (leading w.is_value == w.depth)) [
        | inl t ↦ let e1 = rw t at e' in ((==_iff (leading w.is_value) w.depth).0 t, cc e1)
        | inr t ↦ let e1 = rw t at e' in absurd (nothing e1)
      ]
    where
      nothing : {xs : List ℕ} → ¬ (◌≡◌ {A = Circuit (List ℕ)} none (some xs))
      nothing e = cc

  state_lem :
      (max_depth : ℕ) (t : Entries) (w : StateWires) (pis : List ℕ)
      → max_depth < order
      → IsSizedEntries t
      → IsSizedState max_depth w
      → OwnedBy (first_owner t) t
      → build_state b p g max_depth (entries_pis p g t) w ≡ some pis
      → Exposed p g (block t w) pis
  unfolding build_state
  state_lem max_depth t w pis h z y o e =
      let (r, d, u) = entries_pis_lem p g t z in
      let leaf = w.contract ++ w.mapping_slot ∷ w.length_slot ∷ entries_root p t in
      let (root, e1, e2) =
        >>=-eq-some (build b p max_depth leaf w.siblings w.positions w.is_value w.depth) _
          (rw (r, d, u) at e) in
      let (l, m) = state_opened max_depth leaf w root h y e1 in
      let hash = λ (x : List ℕ). p.hash_no_pad (w.block_number ∷ (w.block_hash ++ x)) in
      let e3 : register_block_query w.block_number 1 (hash root) w.contract (first_owner t)
            w.mapping_slot w.length_slot (entries_digest g t)
          ≡ pis =
        cc e2 in
      subst (λ x. Exposed p g (block t w) x) e3
        (exposed p g (block t w) w.block_number 1 (hash root) w.contract (first_owner t)
          w.mapping_slot w.length_slot (entries_digest g t) y.contract_sized
          (length-first_owner t z) (refl, o, refl, refl, l) (ap hash (sym m)) refl refl
          (ap (λ n. n % order) (omega arith)))

  path_lem :
      (q : Blocks) (unproved pis : List ℕ) (c : Bool)
      → IsHash unproved
      → Exposed p g q pis
      → Exposed p g (path q unproved c) (partial_node b p g pis unproved c)
  unfolding partial_node
  path_lem q unproved pis c h x =
      let root =
        hash_maybe_swap_lem p (query_block_root pis) unproved c
          (ap length x.root ∙ blocks_root-IsHash p q) h in
      exposed p g (path q unproved c) (query_block_number pis) (query_range pis) _
        (smart_contract_address pis) (user_address pis) (query_mapping_slot pis)
        (mapping_slot_length pis) (query_block_digest pis) x.contract_sized x.user_sized x.answers
        (root ∙ ap (λ r. parent p r unproved c) x.root) x.digest x.number x.span

  join_lem :
      (l r : Blocks) (x y pis : List ℕ)
      → Exposed p g l x
      → Exposed p g r y
      → full_node b p g x y ≡ some pis
      → Exposed p g (join l r) pis
  unfolding full_node
  join_lem l r x y pis f k e =
      let (_, e1, r1) = >>=-eq-some (enforce_equal b (user_address x) (user_address y)) _ e in
      let (_, e2, r2) =
        >>=-eq-some (b.connect (query_mapping_slot x) (query_mapping_slot y)) _ r1 in
      let (_, e3, r3) =
        >>=-eq-some (enforce_equal b (smart_contract_address x) (smart_contract_address y)) _ r2 in
      let (_, e4, r4) =
        >>=-eq-some (b.connect (mapping_slot_length x) (mapping_slot_length y)) _ r3 in
      let users =
        (enforce_equal_iff b (user_address x) (user_address y) (f.user_sized ∙ sym k.user_sized)).0
          e1 in
      let contracts =
        (enforce_equal_iff b (smart_contract_address x) (smart_contract_address y)
            (f.contract_sized ∙ sym k.contract_sized)).0
          e3 in
      let slots = connect_eq b (query_mapping_slot x) (query_mapping_slot y) e2 in
      let lengths = connect_eq b (mapping_slot_length x) (mapping_slot_length y) e4 in
      let root = p.hash_no_pad (query_block_root x ++ query_block_root y) in
      let low = b.sub (query_block_number x) (query_range x) in
      let range = b.sub (query_block_number y) low in
      let digest = g.add_curve_point (query_block_digest x) (query_block_digest y) in
      let e5 : register_block_query (query_block_number y) range root (smart_contract_address x)
            (user_address x) (query_mapping_slot x) (mapping_slot_length x) digest
          ≡ pis =
        cc r4 in
      let others : Answers (smart_contract_address x) (user_address x) (query_mapping_slot x)
          (mapping_slot_length x) r =
        rw (contracts, users, slots, lengths) k.answers in
      let span : (range + first_number l) % order ≡ (last_number r + 1) % order = omega (
        arith,
        b.sub_lem (query_block_number x) (query_range x),
        b.sub_lem (query_block_number y) low,
        f.span,
        f.number,
        k.number,
      ) in
      subst (λ z. Exposed p g (join l r) z) e5
        (exposed p g (join l r) (query_block_number y) range root (smart_contract_address x)
          (user_address x) (query_mapping_slot x) (mapping_slot_length x) digest f.contract_sized
          f.user_sized (f.answers, others)
          (ap (λ z. p.hash_no_pad (z ++ query_block_root y)) f.root
            ∙ ap (λ z. p.hash_no_pad (blocks_root p l ++ z)) k.root)
          (ap (λ z. g.add_curve_point z (query_block_digest y)) f.digest
            ∙ ap (λ z. g.add_curve_point (blocks_digest g l) z) k.digest)
          k.number span)

  -- For wires of their sizes and a depth of the state tree below the field's order: every proof over
  -- blocks exposes the contract, the owner and the slots that all its blocks agree on, the Merkle
  -- root over them, the sum of the points of all their keys, and the number of
  -- the last block; its range is, in the field, one more than the distance from the first block's
  -- number to the last one's. Each block is opened in its state tree at the depth that its own flags
  -- show, which is not exposed.
  pub prove_blocks-Exposed :
      (max_depth : ℕ) (q : Blocks) (pis : List ℕ)
      → max_depth < order
      → IsSizedBlocks max_depth q
      → prove_blocks b p g max_depth q ≡ some pis
      → Exposed p g q pis
  prove_blocks-Exposed max_depth (block t w) pis h z e =
      let (storage, e1, e2) = >>=-eq-some (prove_entries b p g t) _ e in
      let (o, f) = (prove_entries_iff b p g t storage z.0).0 e1 in
      state_lem max_depth t w pis h z.0 z.1 o
        (ap (λ s. build_state b p g max_depth s w) (sym f) ∙ e2)
  prove_blocks-Exposed max_depth (join l r) pis h z e =
      let (x, e1, r1) = >>=-eq-some (prove_blocks b p g max_depth l) _ e in
      let (y, e2, r2) = >>=-eq-some (prove_blocks b p g max_depth r) _ r1 in
      join_lem l r x y pis (prove_blocks-Exposed max_depth l x h z.0 e1)
        (prove_blocks-Exposed max_depth r y h z.1 e2) r2
  prove_blocks-Exposed max_depth (path q unproved c) pis h z e =
      let (x, e1, r1) = >>=-eq-some (prove_blocks b p g max_depth q) _ e in
      subst (λ s. Exposed p g (path q unproved c) s) (cc r1)
        (path_lem q unproved x c z.1 (prove_blocks-Exposed max_depth q x h z.0 e1))
