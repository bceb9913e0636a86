-- ===== src/Query/Answer/Sizes.antt =====
-- The sizes and the bounds that the revelation compares.
use euclid_database.Prelude.{
  ℕ, zero, suc, ◌+◌, ◌%◌, ◌^◌, ◌<◌, ◌≡◌, refl, Bool, true, List, [], ◌∷◌, some, length, length-take,
  length-append, take, drop, create_array-slice, bit, leb, arith, ap, ◌∙◌, sym,
}
use euclid_database.Plonky2.{Builder, order}
use euclid_database.Plonky2.Laws.{connect_eq}
use euclid_database.Plonky2.Poseidon.{Poseidon}
use euclid_database.Plonky2.Merkle.{MerkleProofs, zero_hash}
use euclid_database.Utils.Compare.{greater_than_or_equal_to}
use euclid_database.Utils.Compare.Laws.{comparisons}
use euclid_database.GroupHashing.{Group, add_loop, add_curve_target}
use euclid_database.GroupHashing.Points.{add_loop-IsPoint}
use euclid_database.BlockTree.{empty_merkle_root}
use euclid_database.Query.Revelation.{Choice, take_last}
use euclid_database.Query.Revealed.{chosen, set}
use euclid_database.BlockTree.{block_tree_public_inputs}
use euclid_database.BlockTree.Steps.{Proved}
use euclid_database.BlockTree.Chain.{proved_lem, is_empty}
use euclid_database.BlockTree.Append.{empty_loop_lem}
use euclid_database.BlockTree.Paths.{length-full_root}

pub sum-IsPoint :
    (g : Group) (c : Choice) (n : ℕ) (keys : List (List ℕ)) {d : List ℕ}
    → add_curve_target g (chosen g c n keys) ≡ some d
    → length d ≡ 11
unfolding add_curve_target
sum-IsPoint g c n [] e = cc
sum-IsPoint g c zero (key ∷ keys) {d} e =
    let s : add_loop g c.curve_zero (chosen g c zero keys) ≡ d = cc e in
    ap length (sym s) ∙ add_loop-IsPoint g c.curve_zero (chosen g c zero keys) c.length-curve_zero
sum-IsPoint g c (suc n) (key ∷ keys) {d} e =
    let point = g.map_to_curve_point key in
    let s : add_loop g point (chosen g c n keys) ≡ d = cc e in
    ap length (sym s)
    ∙ add_loop-IsPoint g point (chosen g c n keys) (g.length-map_to_curve_point key)

-- The bounds of the block numbers, from the range that a query exposes.
pub low_lem :
    (b : Builder) (number range first low : ℕ)
    → first < 2 ^ 32
    → number < 2 ^ 32
    → low < 2 ^ 32
    → (range + first) % order ≡ (number + 1) % order
    → greater_than_or_equal_to b (b.add (b.sub number range) 1) low 32 ≡ some (leb low first)
low_lem b number range first low h k l span =
    let e : b.add (b.sub number range) 1 ≡ first =
      omega (arith, b.sub_lem number range, b.add_lem (b.sub number range) 1, span) in
    ap (λ x. greater_than_or_equal_to b x low 32) e
    ∙ (comparisons b first low 32 (omega arith) h l).3

pub connected : (b : Builder) (d : Bool) {u : Unit {0}} → b.connect (bit d) 1 ≡ some u → d ≡ true
connected b d e = set d (connect_eq b (bit d) 1 e)

pub empty-IsHash :
    (p : Poseidon) (gadget : MerkleProofs p) (d : ℕ) → length (empty_merkle_root p gadget d) ≡ 4
unfolding empty_merkle_root
empty-IsHash p gadget d =
    ap length (empty_loop_lem p gadget d zero_hash refl)
    ∙ length-full_root p d (λ i. zero_hash) (λ i. refl)

pub length-public :
    (b : Builder) (p : Poseidon) (gadget : MerkleProofs p) (d : ℕ)
    → 2 ^ d < order
    → {pis : List ℕ} {blocks : List (List ℕ)} → Proved b p gadget d pis blocks
    → length (block_tree_public_inputs pis) ≡ 18
unfolding block_tree_public_inputs
length-public b p gadget d h {pis} proof =
    let (pi, e, l, x) = proved_lem b p gadget d h proof in
    omega (arith, length-take 18 pis, ap length e, length-append pi (bit (is_empty _) ∷ []))

pub take_last-owner :
    (owner : List ℕ) → length owner ≡ 8 → take_last 5 owner ≡ take 5 (drop 3 owner)
unfolding take_last
take_last-owner owner h = rw h (create_array-slice owner 3 5 0 (omega arith))
