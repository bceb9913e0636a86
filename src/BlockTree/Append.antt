-- ===== src/BlockTree/Append.antt =====
-- The root of the block tree: the blocks stand at its first leaves, in the order of their insertion, and
-- the other leaves are empty.
use euclid_database.Prelude.{
  ℕ, zero, suc, ◌^◌, ◌<◌, ◌≡◌, refl, ◌⊎◌, inl, inr, List, [], ◌∷◌, ◌++◌, length, take, ◌==◌,
  from_bits, ap, ◌∙◌, sym, Bool-cases,
}
use euclid_database.Plonky2.{Builder, order}
use euclid_database.Plonky2.Poseidon.{Poseidon}
use euclid_database.Plonky2.Merkle.{MerkleProofs, IsHash, merkle_root, zero_hash}
use euclid_database.BlockTree.{
  init_root, block_root, leaf_data, BlockTreeWires, empty_loop, empty_merkle_root,
  block_tree_public_inputs,
}
use euclid_database.BlockTree.Layout.{flagged}
use euclid_database.BlockTree.Steps.{IsSized, Inserts, leaf_index, Proved, insert, next_pis}
use euclid_database.BlockTree.Chain.{proved_lem, inserted, next_lem, length-next_pis}
use euclid_database.BlockTree.Openings.{Collision, full_root, update, opening}

-- The hashes at the leaves: those of the blocks, the last one first in the list, and empty ones.
abbrev pub contents : Poseidon → List (List ℕ) → ℕ → List ℕ
contents p [] = λ i. zero_hash
contents p (l ∷ blocks) = update (contents p blocks) (length blocks) (p.hash_no_pad (leaf_data l))

pub contents-IsHash : (p : Poseidon) (blocks : List (List ℕ)) (i : ℕ) → IsHash (contents p blocks i)
contents-IsHash p [] i = refl
contents-IsHash p (l ∷ blocks) i = elim (Bool-cases (i == length blocks)) [
  | inl t ↦ rw t (p.length-hash (leaf_data l))
  | inr t ↦ rw t (contents-IsHash p blocks i)
]

-- The empty tree.
pub empty_loop_lem :
    (p : Poseidon) (g : MerkleProofs p) (d : ℕ) (hash : List ℕ)
    → IsHash hash
    → empty_loop p g d hash ≡ full_root p d (λ i. hash)
unfolding empty_loop
empty_loop_lem p g zero hash h = refl
empty_loop_lem p g (suc d) hash h =
    let e = g.two_to_one_lem hash hash h h in
    rw e (empty_loop_lem p g d (p.hash_no_pad (hash ++ hash)) (p.length-hash (hash ++ hash)))

-- One insertion into a tree with the blocks before it.
insert_root :
    (p : Poseidon) (max_depth : ℕ) (prev leaf_pi : List ℕ) (wires : BlockTreeWires)
    (blocks : List (List ℕ))
    → IsSized max_depth wires
    → Inserts p prev leaf_pi wires
    → from_bits wires.leaf_index_bits ≡ length blocks
    → block_root prev ≡ full_root p max_depth (contents p blocks)
    → Collision p ⊎ (wires.root ≡ full_root p max_depth (contents p (leaf_pi ∷ blocks)))
insert_root p max_depth prev leaf_pi wires blocks z i k e =
    let f = contents p blocks in
    let bits = wires.leaf_index_bits in
    let d = z.bits_sized in
    let before : merkle_root p zero_hash wires.path bits ≡ full_root p (length bits) f =
      i.leaf_empty ∙ e ∙ ap (λ n. full_root p n f) (sym d) in
    elim (opening p f wires.path bits zero_hash (z.path_sized ∙ sym d) z.path_hashes refl
      (contents-IsHash p blocks) before) [
        | inl c ↦ inl c
        | inr o ↦ inr (
            sym i.leaf_added
            ∙ o.1 (p.hash_no_pad (leaf_data leaf_pi))
            ∙ ap
                (λ n. full_root p n (update f (from_bits bits) (p.hash_no_pad (leaf_data leaf_pi))))
                d
            ∙ ap (λ j. full_root p max_depth (update f j (p.hash_no_pad (leaf_data leaf_pi)))) k)
      ]

module _ (b : Builder) (p : Poseidon) (g : MerkleProofs p) (max_depth : ℕ)
    (h : 2 ^ max_depth < order) where
  -- The root before an insertion.
  first_root :
      (prev leaf_pi : List ℕ) (wires : BlockTreeWires)
      → Inserts p prev leaf_pi wires
      → leaf_index wires ≡ 0
      → init_root prev ≡ empty_merkle_root p g max_depth
      → block_root prev ≡ full_root p max_depth (contents p [])
  unfolding empty_merkle_root
  first_root prev leaf_pi wires i e q =
      sym (i.first_root e) ∙ q ∙ empty_loop_lem p g max_depth zero_hash refl

  -- The public inputs of the tree in those of a proof.
  read_next :
      (pis pi : List ℕ) (flag : ℕ) → pis ≡ pi ++ flag ∷ [] → length pi ≡ 18 → take 18 pis ≡ pi
  read_next pis pi flag e l = ap (λ r. take 18 r) e ∙ (flagged pi flag l).0

  -- With a depth at which the indices are below the field's order, and over any proofs that can be
  -- made: where the initial root of a proof is that of the empty tree, its root is the Merkle root of
  -- the full tree that has the hash of the n-th inserted block at leaf n and empty leaves behind them,
  -- or there is a collision of the hash.
  pub proved-contents :
      {pis leaf_pi : List ℕ} {blocks : List (List ℕ)}
      → Proved b p g max_depth pis (leaf_pi ∷ blocks)
      → init_root (block_tree_public_inputs pis) ≡ empty_merkle_root p g max_depth
      → Collision p
        ⊎ (block_root (block_tree_public_inputs pis)
            ≡ full_root p max_depth (contents p (leaf_pi ∷ blocks)))
  unfolding block_tree_public_inputs
  proved-contents (insert verified leaf_pi next [] wires proof l z e) q =
      let (prev, ep, lp, x) = proved_lem b p g max_depth h proof in
      let (i, j, k, lt, en) =
        inserted b p g max_depth h verified prev leaf_pi next [] wires ep lp x l z e in
      let (n0, n1, n2, n3, n4) = next_lem prev leaf_pi wires lp l z in
      let t =
        read_next next (next_pis prev leaf_pi wires) 0 en
          (length-next_pis prev leaf_pi wires lp l z) in
      let q' : init_root prev ≡ empty_merkle_root p g max_depth =
        sym n0 ∙ ap init_root (sym t) ∙ q in
      elim (insert_root p max_depth prev leaf_pi wires [] z i k
        (first_root prev leaf_pi wires i j q')) [
          | inl c ↦ inl c
          | inr r ↦ inr (ap block_root t ∙ n1 ∙ r)
        ]
  proved-contents (insert verified leaf_pi next (m ∷ blocks) wires proof l z e) q =
      let (prev, ep, lp, x) = proved_lem b p g max_depth h proof in
      let (i, j, k, lt, en) =
        inserted b p g max_depth h verified prev leaf_pi next (m ∷ blocks) wires ep lp x l z e in
      let (n0, n1, n2, n3, n4) = next_lem prev leaf_pi wires lp l z in
      let t =
        read_next next (next_pis prev leaf_pi wires) 0 en
          (length-next_pis prev leaf_pi wires lp l z) in
      let s = read_next verified prev 0 ep lp in
      let q' : init_root (take 18 verified) ≡ empty_merkle_root p g max_depth =
        ap init_root s ∙ sym n0 ∙ ap init_root (sym t) ∙ q in
      elim (proved-contents proof q') [
        | inl c ↦ inl c
        | inr before ↦
            elim (insert_root p max_depth prev leaf_pi wires (m ∷ blocks) z i k
              (ap block_root (sym s) ∙ before)) [
                | inl c ↦ inl c
                | inr r ↦ inr (ap block_root t ∙ n1 ∙ r)
              ]
      ]
