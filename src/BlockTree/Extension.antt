-- ===== src/BlockTree/Extension.antt =====
-- The prover's side of the block tree: every chain of blocks that fits into the tree has a proof.
use std.Path.{fun_ext}
use euclid_database.Prelude.{
  ℕ, ◌+◌, ◌%◌, ◌^◌, ◌≤◌, ◌<◌, ◌≡◌, refl, List, [], ◌∷◌, ◌++◌, some, length, bit, ◌==◌, from_bits,
  arith, ap, ◌∙◌, sym, All, from_bits-to_bits,
}
use euclid_database.Plonky2.{Builder, order, IsField}
use euclid_database.Plonky2.Poseidon.{Poseidon}
use euclid_database.Plonky2.Merkle.{MerkleProofs, IsHash, merkle_root, zero_hash}
use euclid_database.State.{state_block_header, state_block_number, prev_block_header}
use euclid_database.BlockTree.{
  init_root, block_root, first_block_number, block_number, original_block_header, leaf_data,
  dummy_inputs, dummy_logic, block_logic, empty_merkle_root,
}
use euclid_database.State.Layout.{state_sizes}
use euclid_database.BlockTree.Layout.{register_block_lem, length-register_block}
use euclid_database.BlockTree.Steps.{leaf_index, Proved, dummy, insert, next_pis}
use euclid_database.BlockTree.Accepts.{block_logic_iff}
use euclid_database.BlockTree.Chain.{index_small, is_empty, Chained, next_lem, length-next_pis}
use euclid_database.BlockTree.Openings.{full_root}
use euclid_database.BlockTree.Append.{contents, empty_loop_lem}
use euclid_database.BlockTree.Paths.{
  next_wires, length-full_root, next_wires-IsSized, next_opening, index_bits_lem, update-contents,
}

module _ (b : Builder) (p : Poseidon) (g : MerkleProofs p) (max_depth : ℕ)
    (h : 2 ^ max_depth < order) where
  -- The proofs that the prover makes: the first on the dummy proof for the first number, and each next
  -- one with the prover's wires.
  pub data Made (first : ℕ) : List ℕ → List (List ℕ) → Type 0 where
    start :
        (parent_hash : List ℕ)
        → Made first (dummy_logic (dummy_inputs p g b max_depth first parent_hash)) []
    next :
        (verified leaf_pi outputs : List ℕ) (blocks : List (List ℕ))
        → Made first verified blocks
        → block_logic b p g verified leaf_pi (next_wires p max_depth leaf_pi blocks) ≡ some outputs
        → Made first outputs (leaf_pi ∷ blocks)

  -- The next block can be inserted over any public inputs that expose the blocks before it.
  pub extend :
      (prev leaf_pi : List ℕ) (blocks : List (List ℕ))
      → length prev ≡ 18
      → length leaf_pi ≡ 21
      → length blocks < 2 ^ max_depth
      → block_root prev ≡ full_root p max_depth (contents p blocks)
      → (length blocks ≡ 0 → init_root prev ≡ block_root prev)
      → original_block_header prev ≡ prev_block_header leaf_pi
      → (first_block_number prev + length blocks) % order ≡ state_block_number leaf_pi
      → (block_number prev + 1) % order ≡ state_block_number leaf_pi
      → block_logic b p g
          (prev ++ bit (is_empty blocks) ∷ [])
          leaf_pi
          (next_wires p max_depth leaf_pi blocks)
        ≡ some (next_pis prev leaf_pi (next_wires p max_depth leaf_pi blocks) ++ 0 ∷ [])
  extend prev leaf_pi blocks lp l lt root init header count number =
      let wires = next_wires p max_depth leaf_pi blocks in
      let n = length blocks in
      let z = next_wires-IsSized p max_depth leaf_pi blocks in
      let index : leaf_index wires ≡ n =
        (index_small max_depth wires h z).0
        ∙ ap from_bits (index_bits_lem max_depth n)
        ∙ from_bits-to_bits max_depth n lt in
      let empty : merkle_root p zero_hash wires.path wires.leaf_index_bits ≡ block_root prev =
        next_opening p max_depth blocks zero_hash lt
        ∙ ap (full_root p max_depth) (fun_ext (update-contents p blocks))
        ∙ sym root in
      let flag : bit (is_empty blocks) ≡ bit (leaf_index wires == 0) = rw index (at_zero blocks) in
      (block_logic_iff b p g prev (bit (is_empty blocks)) leaf_pi wires _ lp l z).1 (
        record {
          header_follows = header;
          index_counts = ap (λ m. (first_block_number prev + m) % order) index ∙ count;
          number_follows = number;
          first_root = λ e. init (sym index ∙ e);
          leaf_added = next_opening p max_depth blocks (p.hash_no_pad (leaf_data leaf_pi)) lt;
          leaf_empty = empty;
        },
        flag,
        refl,
      )
    where
      at_zero : (blocks : List (List ℕ)) → bit (is_empty blocks) ≡ bit (length blocks == 0)
      at_zero [] = refl
      at_zero (m ∷ blocks) = ground arith

  -- For blocks of their size that follow each other from a first number in the field, and fit into
  -- the tree: the prover's chain of proofs exists, from the dummy proof for the first number on, each
  -- with the bits of its index and the siblings there, and it is a chain of proofs of the circuits; it
  -- exposes the last block, the first number and the root of the empty tree, and has the blocks in
  -- its root.
  pub Chained-Proved :
      (first : ℕ) (leaf_pi : List ℕ) (blocks : List (List ℕ))
      → IsField first
      → All (λ l. length l ≡ 21) (leaf_pi ∷ blocks)
      → Chained first (leaf_pi ∷ blocks)
      → length (leaf_pi ∷ blocks) ≤ 2 ^ max_depth
      → (pi : List ℕ) × Proved b p g max_depth (pi ++ 0 ∷ []) (leaf_pi ∷ blocks)
        × (length pi ≡ 18)
        × (init_root pi ≡ empty_merkle_root p g max_depth)
        × (block_root pi ≡ full_root p max_depth (contents p (leaf_pi ∷ blocks)))
        × (first_block_number pi ≡ first)
        × (block_number pi ≡ state_block_number leaf_pi)
        × (original_block_header pi ≡ state_block_header leaf_pi)
        × Made first (pi ++ 0 ∷ []) (leaf_pi ∷ blocks)
  unfolding dummy_inputs dummy_logic empty_merkle_root
  Chained-Proved first leaf_pi [] f l c n =
      let root = empty_merkle_root p g max_depth in
      let parent_hash = prev_block_header leaf_pi in
      let pi = dummy_inputs p g b max_depth first parent_hash in
      let e : root ≡ full_root p max_depth (contents p []) =
        empty_loop_lem p g max_depth zero_hash refl in
      let size : IsHash root =
        ap length e ∙ length-full_root p max_depth (contents p []) (λ i. refl) in
      let parent_size = (state_sizes leaf_pi l.0).2 in
      let (i, r, q, k, hd) =
        register_block_lem root root first (b.sub first 1) parent_hash size size parent_size in
      let lp : length pi ≡ 18 =
        length-register_block root root first (b.sub first 1) parent_hash size size parent_size in
      let wires = next_wires p max_depth leaf_pi [] in
      let z = next_wires-IsSized p max_depth leaf_pi [] in
      let (n0, n1, n2, n3, n4) = next_lem pi leaf_pi wires lp l.0 z in
      let step =
        extend pi leaf_pi [] lp l.0 n (r ∙ e) (λ t. i ∙ sym r) hd
          (ap (λ x. (x + 0) % order) q ∙ sym c.0)
          (ap (λ x. (x + 1) % order) k ∙ omega (arith, b.sub_lem first 1, c.0)) in
      (
        next_pis pi leaf_pi wires,
        insert _ leaf_pi _ [] wires (dummy pi lp) l.0 z step,
        length-next_pis pi leaf_pi wires lp l.0 z,
        n0 ∙ i,
        n1,
        n2 ∙ q,
        n3,
        n4,
        next _ leaf_pi _ [] (start parent_hash) step,
      )
  Chained-Proved first leaf_pi (m ∷ blocks) f l c n =
      let (prev, proof, lp, i, r, q, k, hd, chain) =
        Chained-Proved first m blocks f l.1 c.2 (omega arith) in
      let wires = next_wires p max_depth leaf_pi (m ∷ blocks) in
      let z = next_wires-IsSized p max_depth leaf_pi (m ∷ blocks) in
      let (n0, n1, n2, n3, n4) = next_lem prev leaf_pi wires lp l.0 z in
      let step =
        extend prev leaf_pi (m ∷ blocks) lp l.0 (omega arith) r (λ e. absurd (omega (arith, e)))
          (hd ∙ sym c.1) (ap (λ x. (x + length (m ∷ blocks)) % order) q ∙ sym c.0)
          (omega (arith, k, c.0, c.2.0)) in
      (
        next_pis prev leaf_pi wires,
        insert _ leaf_pi _ (m ∷ blocks) wires proof l.0 z step,
        length-next_pis prev leaf_pi wires lp l.0 z,
        n0 ∙ i,
        n1,
        n2 ∙ q,
        n3,
        n4,
        next _ leaf_pi _ (m ∷ blocks) chain step,
      )
