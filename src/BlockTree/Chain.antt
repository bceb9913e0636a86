-- ===== src/BlockTree/Chain.antt =====
-- The blocks of a proof of the block tree: consecutive numbers, chained headers, and the index of each.
use euclid_database.Prelude.{
  ℕ, suc, ◌+◌, ◌%◌, ◌^◌, ◌≤◌, ◌<◌, ◌≡◌, refl, Bool, true, false, List, [], ◌∷◌, ◌++◌, some, length,
  bit, ◌==◌, from_bits, arith, ap, ◌∙◌, sym, subst, take, pow_two-suc,
}
use euclid_database.Plonky2.{Builder, order}
use euclid_database.Plonky2.Poseidon.{Poseidon}
use euclid_database.Plonky2.Merkle.{MerkleProofs}
use euclid_database.State.{state_block_header, state_block_number, prev_block_header}
use euclid_database.State.Layout.{state_sizes}
use euclid_database.BlockTree.{
  init_root, first_block_number, block_root, block_number, original_block_header, BlockTreeWires,
  dummy_logic, block_logic, block_tree_public_inputs,
}
use euclid_database.BlockTree.Layout.{
  flagged, block_sizes, register_block_lem, length-register_block,
}
use euclid_database.BlockTree.Steps.{IsSized, leaf_index, Inserts, next_pis, Proved, dummy, insert}
use euclid_database.BlockTree.Accepts.{block_logic_iff}

-- A block follows the one that was inserted before it.
abbrev pub Follows : List ℕ → List (List ℕ) → Type 0
Follows l [] = Unit
Follows l (m ∷ blocks) = prev_block_header l ≡ state_block_header m

-- The blocks, the last one first, have consecutive numbers from the first one on, and each names the
-- header of the one before it as its parent.
abbrev pub Chained : ℕ → List (List ℕ) → Type 0
Chained first [] = Unit
Chained first (l ∷ blocks) =
    (state_block_number l ≡ (first + length blocks) % order)
    × Follows l blocks
    × Chained first blocks

-- What the public inputs say of the last block.
abbrev pub Exposes : ℕ → List ℕ → List (List ℕ) → Type 0
Exposes max_depth pi [] = Unit
Exposes max_depth pi (l ∷ blocks) =
    (block_number pi ≡ state_block_number l)
    × (original_block_header pi ≡ state_block_header l)
    × Chained (first_block_number pi) (l ∷ blocks)
    × (length blocks < 2 ^ max_depth)

abbrev pub is_empty : List (List ℕ) → Bool
is_empty [] = true
is_empty (l ∷ blocks) = false

from_bits-lt : (bits : List Bool) → from_bits bits < 2 ^ length bits
from_bits-lt [] = omega arith
from_bits-lt (true ∷ bits) = omega (arith, from_bits-lt bits, pow_two-suc (length bits))
from_bits-lt (false ∷ bits) = omega (arith, from_bits-lt bits, pow_two-suc (length bits))

-- The index is that of the wires' bits, without a reduction.
pub index_small :
    (max_depth : ℕ) (wires : BlockTreeWires)
    → 2 ^ max_depth < order
    → IsSized max_depth wires
    → (leaf_index wires ≡ from_bits wires.leaf_index_bits)
      × (from_bits wires.leaf_index_bits < 2 ^ max_depth)
index_small max_depth wires h z =
    let lt = from_bits-lt wires.leaf_index_bits in
    let e : 2 ^ length wires.leaf_index_bits ≡ 2 ^ max_depth = ap (λ n. 2 ^ n) z.bits_sized in
    (omega (arith, lt, e), omega (arith, lt, e))

-- The registered public inputs, read.
pub next_lem :
    (prev leaf_pi : List ℕ) (wires : BlockTreeWires) {max_depth : ℕ}
    → length prev ≡ 18
    → length leaf_pi ≡ 21
    → IsSized max_depth wires
    → let pi = next_pis prev leaf_pi wires in
      (init_root pi ≡ init_root prev)
      × (block_root pi ≡ wires.root)
      × (first_block_number pi ≡ first_block_number prev)
      × (block_number pi ≡ state_block_number leaf_pi)
      × (original_block_header pi ≡ state_block_header leaf_pi)
next_lem prev leaf_pi wires h l z =
    register_block_lem (init_root prev) wires.root (first_block_number prev)
      (state_block_number leaf_pi) (state_block_header leaf_pi) (block_sizes prev h).0 z.root_hash
      (state_sizes leaf_pi l).1

pub length-next_pis :
    (prev leaf_pi : List ℕ) (wires : BlockTreeWires) {max_depth : ℕ}
    → length prev ≡ 18
    → length leaf_pi ≡ 21
    → IsSized max_depth wires
    → length (next_pis prev leaf_pi wires) ≡ 18
length-next_pis prev leaf_pi wires h l z =
    length-register_block (init_root prev) wires.root (first_block_number prev)
      (state_block_number leaf_pi) (state_block_header leaf_pi) (block_sizes prev h).0 z.root_hash
      (state_sizes leaf_pi l).1

-- The index of an insertion is the number of blocks before it.
index_lem :
    (p : Poseidon) (max_depth : ℕ) (prev leaf_pi : List ℕ) (wires : BlockTreeWires)
    (blocks : List (List ℕ))
    → 2 ^ max_depth < order
    → IsSized max_depth wires
    → Inserts p prev leaf_pi wires
    → bit (is_empty blocks) ≡ bit (leaf_index wires == 0)
    → Exposes max_depth prev blocks
    → (leaf_index wires ≡ length blocks)
      × (from_bits wires.leaf_index_bits ≡ length blocks)
      × (length blocks < 2 ^ max_depth)
index_lem p max_depth prev leaf_pi wires [] h z i f x =
    let (e, lt) = index_small max_depth wires h z in
    let e0 : leaf_index wires ≡ 0 = ground (arith, f) in (e0, sym e ∙ e0, omega (arith, lt))
index_lem p max_depth prev leaf_pi wires (m ∷ blocks) h z i f x =
    let (e, lt) = index_small max_depth wires h z in
    let index = from_bits wires.leaf_index_bits in
    let c : (first_block_number prev + index) % order ≡ state_block_number leaf_pi =
      ap (λ n. (first_block_number prev + n) % order) (sym e) ∙ i.index_counts in
    let e1 : index ≡ suc (length blocks) =
      omega (arith, lt, c, i.number_follows, x.0, x.2.0, x.3) in
    (e ∙ e1, e1, omega (arith, lt, e1))

follows :
    (max_depth : ℕ) (prev leaf_pi : List ℕ) (blocks : List (List ℕ))
    → original_block_header prev ≡ prev_block_header leaf_pi
    → Exposes max_depth prev blocks
    → Follows leaf_pi blocks × Chained (first_block_number prev) blocks
follows max_depth prev leaf_pi [] e x = (tt, tt)
follows max_depth prev leaf_pi (m ∷ blocks) e x = (sym e ∙ x.1, x.2)

module _ (b : Builder) (p : Poseidon) (g : MerkleProofs p) (max_depth : ℕ)
    (h : 2 ^ max_depth < order) where
  -- An accepted insertion over a proof whose public inputs are known.
  pub inserted :
      (verified prev leaf_pi next : List ℕ) (blocks : List (List ℕ)) (wires : BlockTreeWires)
      → verified ≡ prev ++ bit (is_empty blocks) ∷ []
      → length prev ≡ 18
      → Exposes max_depth prev blocks
      → length leaf_pi ≡ 21
      → IsSized max_depth wires
      → block_logic b p g verified leaf_pi wires ≡ some next
      → Inserts p prev leaf_pi wires
        × (leaf_index wires ≡ length blocks)
        × (from_bits wires.leaf_index_bits ≡ length blocks)
        × (length blocks < 2 ^ max_depth)
        × (next ≡ next_pis prev leaf_pi wires ++ 0 ∷ [])
  inserted verified prev leaf_pi next blocks wires ep lp x l z e =
      let flag = bit (is_empty blocks) in
      let accepted : block_logic b p g (prev ++ flag ∷ []) leaf_pi wires ≡ some next =
        ap (λ v. block_logic b p g v leaf_pi wires) (sym ep) ∙ e in
      let (i, f, en) = (block_logic_iff b p g prev flag leaf_pi wires next lp l z).0 accepted in
      let (j, k, lt) = index_lem p max_depth prev leaf_pi wires blocks h z i f x in
      (i, j, k, lt, en)

  -- The public inputs of a proof, without the flag, and with what they say of the blocks.
  pub proved_lem :
      {pis : List ℕ} {blocks : List (List ℕ)}
      → Proved b p g max_depth pis blocks
      → (pi : List ℕ) × (pis ≡ pi ++ bit (is_empty blocks) ∷ [])
        × (length pi ≡ 18)
        × Exposes max_depth pi blocks
  unfolding dummy_logic
  proved_lem (dummy pi l) = (pi, refl, l, tt)
  proved_lem (insert verified leaf_pi next blocks wires proof l z e) =
      let (prev, ep, lp, x) = proved_lem proof in
      let (i, j, k, lt, en) = inserted verified prev leaf_pi next blocks wires ep lp x l z e in
      let (n0, n1, n2, n3, n4) = next_lem prev leaf_pi wires lp l z in
      let before = follows max_depth prev leaf_pi blocks i.header_follows x in
      let chain : Chained (first_block_number prev) (leaf_pi ∷ blocks) = (
        sym i.index_counts ∙ ap (λ n. (first_block_number prev + n) % order) j,
        before.0,
        before.1,
      ) in
      (
        next_pis prev leaf_pi wires,
        en,
        length-next_pis prev leaf_pi wires lp l z,
        (n3, n4, subst (λ first. Chained first (leaf_pi ∷ blocks)) (sym n2) chain, lt),
      )

  -- With a depth at which the indices are below the field's order: a proof over blocks, whatever
  -- proofs of the two circuits it stands on, has the number and the header of the last block; the
  -- blocks' numbers are consecutive from the first block's number, in the field, each block names the
  -- header of the one before it as its parent, and there are at most 2 ^ depth of them.
  pub proved-Chained :
      {pis leaf_pi : List ℕ} {blocks : List (List ℕ)}
      → Proved b p g max_depth pis (leaf_pi ∷ blocks)
      → let pi = block_tree_public_inputs pis in
        (block_number pi ≡ state_block_number leaf_pi)
        × (original_block_header pi ≡ state_block_header leaf_pi)
        × Chained (first_block_number pi) (leaf_pi ∷ blocks)
        × (length (leaf_pi ∷ blocks) ≤ 2 ^ max_depth)
  unfolding block_tree_public_inputs
  proved-Chained {leaf_pi} {blocks} proof =
      let (pi, e, l, x) = proved_lem proof in
      let t = ap (λ r. take 18 r) e ∙ (flagged pi 0 l).0 in
      let x' = subst (λ r. Exposes max_depth r (leaf_pi ∷ blocks)) (sym t) x in
      (x'.0, x'.1, x'.2, omega (arith, x'.3))
