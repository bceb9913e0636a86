-- ===== src/BlockTree/Paths.antt =====
-- The prover's openings: the siblings of a leaf, and the bits of its index.
use std.Path.{fun_ext}
use Prim.Native.Nat.{digits, bit_and-bitwise}
use euclid_database.Prelude.{
  ℕ, zero, suc, ◌+◌, ◌-◌, ◌*◌, ◌/◌, ◌%◌, ◌^◌, ◌≤◌, ◌<◌, ◌≡◌, refl, Bool, List, [], ◌∷◌, ◌++◌,
  length, bit, bit_and, min, ◌==◌, from_bits, to_bits, arith, ap, ◌∙◌, sym, All, Bool-cases, inl,
  inr, ==_iff, from_bits-to_bits, length-to_bits,
}
use euclid_database.Plonky2.Poseidon.{Poseidon}
use euclid_database.Plonky2.Merkle.{IsHash, parent, merkle_root, zero_hash}
use euclid_database.BlockTree.{BlockTreeWires, index_bits}
use euclid_database.BlockTree.Steps.{IsSized}
use euclid_database.BlockTree.Openings.{level, full_root, update, update_ne, level-update_at}
use euclid_database.BlockTree.Append.{contents, contents-IsHash}

-- The siblings on the way from the leaf with these bits to the root.
abbrev pub siblings_of : Poseidon → (ℕ → List ℕ) → List Bool → List (List ℕ)
siblings_of p f [] = []
siblings_of p f (c ∷ bits) = f (1 - bit c + 2 * from_bits bits) ∷ siblings_of p (level p f) bits

pub length-siblings_of :
    (p : Poseidon) (f : ℕ → List ℕ) (bits : List Bool) → length (siblings_of p f bits) ≡ length bits
length-siblings_of p f [] = refl
length-siblings_of p f (c ∷ bits) = ap suc (length-siblings_of p (level p f) bits)

siblings_of-IsHash :
    (p : Poseidon) (f : ℕ → List ℕ) (bits : List Bool)
    → ((i : ℕ) → IsHash (f i))
    → All IsHash (siblings_of p f bits)
siblings_of-IsHash p f [] h = tt
siblings_of-IsHash p f (c ∷ bits) h = (
  h (1 - bit c + 2 * from_bits bits),
  siblings_of-IsHash p (level p f) bits (λ i. p.length-hash (f (2 * i) ++ f (1 + 2 * i))),
)

-- The opening with these siblings has the root of the tree with the opened hash in place.
merkle_root-siblings_of :
    (p : Poseidon) (f : ℕ → List ℕ) (bits : List Bool) (v : List ℕ)
    → merkle_root p v (siblings_of p f bits) bits
      ≡ full_root p (length bits) (update f (from_bits bits) v)
merkle_root-siblings_of p f [] v = refl
merkle_root-siblings_of p f (c ∷ bits) v =
    let j = from_bits bits in
    let s = f (1 - bit c + 2 * j) in
    merkle_root-siblings_of p (level p f) bits (parent p v s c)
    ∙ ap (full_root p (length bits)) (fun_ext (λ i. level-update_at p f c j v s i refl))

no_digits : (n a : ℕ) → digits (λ b. zero) min n a 0 ≡ 0
no_digits zero a = refl
no_digits (suc n) zero = refl
no_digits (suc n) (suc a) = omega (arith, no_digits n (suc a / 2))

last_digit : (x : ℕ) → bit_and x 1 ≡ x % 2
last_digit zero = refl
last_digit (suc x) = omega (arith, bit_and-bitwise (suc x) 1, no_digits x (suc x / 2))

pub index_bits_lem : (n x : ℕ) → index_bits n x ≡ to_bits n x
unfolding index_bits
index_bits_lem zero x = refl
index_bits_lem (suc n) x =
    rw (last_digit x) (ap (λ bits. (x % 2 == 1) ∷ bits) (index_bits_lem n (x / 2)))

contents_ge :
    (p : Poseidon) (blocks : List (List ℕ)) (i : ℕ)
    → length blocks ≤ i
    → contents p blocks i ≡ zero_hash
contents_ge p [] i h = refl
contents_ge p (l ∷ blocks) i h =
    update_ne (contents p blocks) (length blocks) i _ (λ e. omega (arith, e))
    ∙ contents_ge p blocks i (omega arith)

-- Nothing changes where an empty leaf is emptied.
pub update-contents :
    (p : Poseidon) (blocks : List (List ℕ)) (i : ℕ)
    → update (contents p blocks) (length blocks) zero_hash i ≡ contents p blocks i
update-contents p blocks i = elim (Bool-cases (i == length blocks)) [
  | inl t ↦
      let e : i ≡ length blocks = (==_iff i (length blocks)).0 t in
      rw t (sym (contents_ge p blocks i (omega arith)))
  | inr t ↦ rw t refl
]

-- The prover's wires for the next block: the bits of its index, the siblings there, and the new root.
abbrev pub next_wires : Poseidon → ℕ → List ℕ → List (List ℕ) → BlockTreeWires
next_wires p max_depth leaf_pi blocks =
    let bits = index_bits max_depth (length blocks) in
    record {
      leaf_index_bits = bits;
      root = full_root p max_depth (contents p (leaf_pi ∷ blocks));
      path = siblings_of p (contents p blocks) bits;
    }

pub length-full_root :
    (p : Poseidon) (d : ℕ) (f : ℕ → List ℕ) → ((i : ℕ) → IsHash (f i)) → IsHash (full_root p d f)
length-full_root p zero f h = h 0
length-full_root p (suc d) f h =
    length-full_root p d (level p f) (λ i. p.length-hash (f (2 * i) ++ f (1 + 2 * i)))

length-index_bits : (d n : ℕ) → length (index_bits d n) ≡ d
length-index_bits d n = ap length (index_bits_lem d n) ∙ length-to_bits d n

pub next_wires-IsSized :
    (p : Poseidon) (d : ℕ) (leaf_pi : List ℕ) (blocks : List (List ℕ))
    → IsSized d (next_wires p d leaf_pi blocks)
next_wires-IsSized p d leaf_pi blocks =
    let n = length blocks in
    record {
      bits_sized = length-index_bits d n;
      path_sized =
          length-siblings_of p (contents p blocks) (index_bits d n) ∙ length-index_bits d n;
      path_hashes =
          siblings_of-IsHash p (contents p blocks) (index_bits d n) (contents-IsHash p blocks);
      root_hash =
          length-full_root p d (contents p (leaf_pi ∷ blocks))
            (contents-IsHash p (leaf_pi ∷ blocks));
    }

-- The opening of the leaf behind the blocks.
pub next_opening :
    (p : Poseidon) (d : ℕ) (blocks : List (List ℕ)) (v : List ℕ)
    → length blocks < 2 ^ d
    → (let bits = index_bits d (length blocks) in
        merkle_root p v (siblings_of p (contents p blocks) bits) bits)
      ≡ full_root p d (update (contents p blocks) (length blocks) v)
next_opening p d blocks v lt =
    let n = length blocks in
    let f = contents p blocks in
    let k : from_bits (index_bits d n) ≡ n =
      ap from_bits (index_bits_lem d n) ∙ from_bits-to_bits d n lt in
    merkle_root-siblings_of p f (index_bits d n) v
    ∙ ap (λ m. full_root p m (update f (from_bits (index_bits d n)) v)) (length-index_bits d n)
    ∙ ap (λ i. full_root p d (update f i v)) k
