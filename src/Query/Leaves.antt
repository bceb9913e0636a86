-- ===== src/Query/Leaves.antt =====
-- A part of a full tree of hashes has its leaves among those of the tree, or the hash is broken.
use std.Path.{fun_ext}
use euclid_database.Prelude.{
  ℕ, zero, suc, ◌+◌, ◌*◌, ◌^◌, ◌≡◌, ◌≢◌, refl, ◌⊎◌, inl, inr, Bool, true, false, List, [], ◌∷◌,
  ◌++◌, length, arith, ap, ◌∙◌, sym, length-append, pow_two-suc,
}
use euclid_database.Plonky2.Poseidon.{Poseidon, swapped}
use euclid_database.Plonky2.Merkle.{IsHash, zero_hash, merkle_root}
use euclid_database.MerkleTree.StateTree.{kept}
use euclid_database.BlockTree.Openings.{level, full_root, decided, same_halves}
use euclid_database.BlockTree.Paths.{length-full_root}
use euclid_database.Query.Entries.{Entries, entries_root}
use euclid_database.Query.Blocks.{StateWires}
use euclid_database.Query.Aggregates.{
  Blocks, block, join, path, IsSizedState, IsSizedBlocks, state_root_of, blocks_root,
  blocks_root-IsHash,
}

-- What nobody can find for a good hash: two lists with one hash, or one with the hash of zeros.
pub data Broken (p : Poseidon) : Type 0 where
  collision : (xs ys : List ℕ) → xs ≢ ys → p.hash_no_pad xs ≡ p.hash_no_pad ys → Broken p
  preimage : (xs : List ℕ) → p.hash_no_pad xs ≡ zero_hash → Broken p

pub same_hash :
    (p : Poseidon) (xs ys : List ℕ) → p.hash_no_pad xs ≡ p.hash_no_pad ys → Broken p ⊎ (xs ≡ ys)
same_hash p xs ys e = elim (decided xs ys) [ inl s ↦ inr s | inr d ↦ inl (collision xs ys d e) ]

-- The root of a full tree is the hash of the roots of its halves.
full_root_halves :
    (p : Poseidon) (d : ℕ) (f : ℕ → List ℕ)
    → full_root p (suc d) f ≡ p.hash_no_pad (full_root p d f ++ full_root p d (λ i. f (2 ^ d + i)))
full_root_halves p zero f = refl
full_root_halves p (suc d) f =
    let right = λ (i : ℕ). f (2 ^ suc d + i) in
    full_root_halves p d (level p f)
    ∙ ap (λ g. p.hash_no_pad (full_root p (suc d) f ++ full_root p d g)) (fun_ext (λ i. shifted i))
  where
    shifted : (i : ℕ) → level p f (2 ^ d + i) ≡ level p (λ j. f (2 ^ suc d + j)) i
    shifted i =
        let even : f (2 * (2 ^ d + i)) ≡ f (2 ^ suc d + 2 * i) =
          ap f (omega (arith, pow_two-suc d)) in
        let odd : f (1 + 2 * (2 ^ d + i)) ≡ f (2 ^ suc d + (1 + 2 * i)) =
          ap f (omega (arith, pow_two-suc d)) in
        ap (λ x. p.hash_no_pad (x ++ f (1 + 2 * (2 ^ d + i)))) even
        ∙ ap (λ x. p.hash_no_pad (f (2 ^ suc d + 2 * i) ++ x)) odd

-- The preimage of a block's leaf.
abbrev pub block_leaf : Poseidon → Entries → StateWires → List ℕ
block_leaf p t w = w.block_number ∷ (w.block_hash ++ state_root_of p t w)

-- Each block of a query is at a leaf of the tree.
abbrev pub AtLeaves : Poseidon → (ℕ → List ℕ) → Blocks → Type 0
AtLeaves p f (block t w) = (i : ℕ) × (f i ≡ p.hash_no_pad (block_leaf p t w))
AtLeaves p f (join l r) = AtLeaves p f l × AtLeaves p f r
AtLeaves p f (path q unproved right) = AtLeaves p f q

AtLeaves-shift :
    (p : Poseidon) (f : ℕ → List ℕ) (k : ℕ) (q : Blocks)
    → AtLeaves p (λ i. f (k + i)) q
    → AtLeaves p f q
AtLeaves-shift p f k (block t w) (i, e) = (k + i, e)
AtLeaves-shift p f k (join l r) a = (AtLeaves-shift p f k l a.0, AtLeaves-shift p f k r a.1)
AtLeaves-shift p f k (path q unproved right) a = AtLeaves-shift p f k q a

-- A leaf of the tree is empty or the hash of thirteen elements.
abbrev pub IsLeaf : Poseidon → List ℕ → Type 0
IsLeaf p x = (x ≡ zero_hash) ⊎ ((xs : List ℕ) × (length xs ≡ 13) × (x ≡ p.hash_no_pad xs))

pub both_or {ℓ κ} : {A B : Type ℓ} {C : Type κ} → C ⊎ A → C ⊎ B → C ⊎ (A × B)
both_or (inl c) y = inl c
both_or (inr a) (inl c) = inl c
both_or (inr a) (inr b) = inr (a, b)

-- The hash of a pair is at no leaf.
inner_at_leaf :
    (p : Poseidon) (xs x : List ℕ) → length xs ≡ 8 → IsLeaf p x → p.hash_no_pad xs ≡ x → Broken p
inner_at_leaf p xs x h (inl z) e = preimage xs (e ∙ z)
inner_at_leaf p xs x h (inr (ys, l, f)) e =
    collision xs ys (λ s. let t : length xs ≡ length ys = ap length s in absurd (omega arith))
      (e ∙ f)

length-merkle_root :
    (p : Poseidon) (node : List ℕ) (siblings : List (List ℕ)) (positions : List Bool)
    → IsHash node
    → IsHash (merkle_root p node siblings positions)
length-merkle_root p node [] positions h = h
length-merkle_root p node (s ∷ siblings) [] h = h
length-merkle_root p node (s ∷ siblings) (c ∷ positions) h =
    length-merkle_root p _ siblings positions (p.length-hash (swapped c node s))

pub length-block_leaf :
    (p : Poseidon) (t : Entries) (w : StateWires) {max_depth : ℕ}
    → IsSizedState max_depth w
    → length (block_leaf p t w) ≡ 13
length-block_leaf p t w z =
    let r =
      length-merkle_root p _ (kept w.is_value w.siblings) (kept w.is_value w.positions)
        (p.length-hash (w.contract ++ w.mapping_slot ∷ w.length_slot ∷ entries_root p t)) in
    omega (arith, length-append w.block_hash (state_root_of p t w), r, z.hash_sized)

-- A pair with the hash of two halves.
pair_halves :
    (p : Poseidon) (d : ℕ) (f : ℕ → List ℕ) (x y : List ℕ)
    → IsHash x
    → ((i : ℕ) → IsHash (f i))
    → p.hash_no_pad (x ++ y) ≡ full_root p (suc d) f
    → Broken p ⊎ ((x ≡ full_root p d f) × (y ≡ full_root p d (λ i. f (2 ^ d + i))))
pair_halves p d f x y h a e = elim (same_hash p (x ++ y) _ (e ∙ full_root_halves p d f)) [
  | inl broken ↦ inl broken
  | inr s ↦ inr (same_halves x y (full_root p d f) _ h (length-full_root p d f a) s)
]

pub AtLeaves-full_root :
    (p : Poseidon) (max_depth d : ℕ) (f : ℕ → List ℕ) (q : Blocks)
    → IsSizedBlocks max_depth q
    → ((i : ℕ) → IsHash (f i))
    → ((i : ℕ) → IsLeaf p (f i))
    → blocks_root p q ≡ full_root p d f
    → Broken p ⊎ AtLeaves p f q
AtLeaves-full_root p max_depth zero f (block t w) z a l e = inr (0, sym e)
AtLeaves-full_root p max_depth (suc d) f (block t w) z a l e =
    let half = full_root p d f in
    let other = full_root p d (λ i. f (2 ^ d + i)) in
    let n = length-append half other in
    let h = length-full_root p d f a in
    let h' = length-full_root p d (λ i. f (2 ^ d + i)) (λ i. a (2 ^ d + i)) in
    let k = length-block_leaf p t w z.1 in
    inl (
      collision (block_leaf p t w) (half ++ other)
        (λ s.
          let q : length (block_leaf p t w) ≡ length (half ++ other) = ap length s in
          absurd (omega arith))
        (e ∙ full_root_halves p d f))
AtLeaves-full_root p max_depth zero f (join l r) z a g e =
    let n = length-append (blocks_root p l) (blocks_root p r) in
    let h = blocks_root-IsHash p l in
    let k = blocks_root-IsHash p r in
    inl (inner_at_leaf p (blocks_root p l ++ blocks_root p r) (f 0) (omega arith) (g 0) e)
AtLeaves-full_root p max_depth (suc d) f (join l r) z a g e =
    let shifted = λ (i : ℕ). f (2 ^ d + i) in
    elim (pair_halves p d f (blocks_root p l) (blocks_root p r) (blocks_root-IsHash p l) a e) [
      | inl broken ↦ inl broken
      | inr s ↦
          elim (both_or (AtLeaves-full_root p max_depth d f l z.0 a g s.0) (
            AtLeaves-full_root p max_depth d shifted r z.1 (λ i. a (2 ^ d + i)) (λ i. g (2 ^ d + i))
              s.1)) [
                | inl broken ↦ inl broken
                | inr o ↦ inr (o.0, AtLeaves-shift p f (2 ^ d) r o.1)
              ]
    ]
AtLeaves-full_root p max_depth zero f (path q u false) z a g e =
    let n = length-append (blocks_root p q) u in
    let h = blocks_root-IsHash p q in
    inl (inner_at_leaf p (blocks_root p q ++ u) (f 0) (omega (arith, z.1)) (g 0) e)
AtLeaves-full_root p max_depth zero f (path q u true) z a g e =
    let n = length-append u (blocks_root p q) in
    let h = blocks_root-IsHash p q in
    inl (inner_at_leaf p (u ++ blocks_root p q) (f 0) (omega (arith, z.1)) (g 0) e)
AtLeaves-full_root p max_depth (suc d) f (path q u false) z a g e =
    elim (pair_halves p d f (blocks_root p q) u (blocks_root-IsHash p q) a e) [
      | inl broken ↦ inl broken
      | inr s ↦ AtLeaves-full_root p max_depth d f q z.0 a g s.0
    ]
AtLeaves-full_root p max_depth (suc d) f (path q u true) z a g e =
    let shifted = λ (i : ℕ). f (2 ^ d + i) in
    elim (pair_halves p d f u (blocks_root p q) z.1 a e) [
      | inl broken ↦ inl broken
      | inr s ↦
          elim (AtLeaves-full_root p max_depth d shifted q z.0 (λ i. a (2 ^ d + i))
            (λ i. g (2 ^ d + i)) s.1) [
              | inl broken ↦ inl broken
              | inr o ↦ inr (AtLeaves-shift p f (2 ^ d) q o)
            ]
    ]
