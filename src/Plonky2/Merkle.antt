-- ===== src/Plonky2/Merkle.antt =====
-- plonky2's Merkle trees of Poseidon hashes: the gadget that verifies an opening.
use euclid_database.Prelude.{
  ℕ, ◌≡◌, refl, Bool, true, false, List, [], ◌∷◌, ◌++◌, Circuit, guard, length, ltb, ◌==◌, ◌&&◌,
  if◌then◌else◌, All,
}
use euclid_database.Plonky2.Poseidon.{Poseidon, swapped, first_four}

abbrev pub IsHash : List ℕ → Type 0
IsHash h = length h ≡ 4

-- The hash of two nodes, by the position of the first: true is the right side.
abbrev pub parent : Poseidon → List ℕ → List ℕ → Bool → List ℕ
parent p node sibling position = p.hash_no_pad (swapped position node sibling)

-- The root over the whole path.
abbrev pub merkle_root : Poseidon → List ℕ → List (List ℕ) → List Bool → List ℕ
merkle_root p node (s ∷ siblings) (c ∷ positions) =
    merkle_root p (parent p node s c) siblings positions
merkle_root p node [] positions = node
merkle_root p node (s ∷ siblings) [] = node

abbrev pub equal_hashes : List ℕ → List ℕ → Bool
equal_hashes [] [] = true
equal_hashes [] (y ∷ ys) = false
equal_hashes (x ∷ xs) [] = false
equal_hashes (x ∷ xs) (y ∷ ys) = (x == y) && equal_hashes xs ys

-- `HashOut::from_partial(&[])`
abbrev pub zero_hash : List ℕ
zero_hash = 0 ∷ 0 ∷ 0 ∷ 0 ∷ []

-- `hash_or_noop`: up to four elements are their own hash, with zeros behind.
abbrev pub hash_or_noop : Poseidon → List ℕ → List ℕ
hash_or_noop p xs = if ltb (length xs) 5 then first_four xs else p.hash_no_pad xs

pub record MerkleProofs (p : Poseidon) : Type 0 where
  -- `PoseidonHash::two_to_one`
  pub two_to_one : List ℕ → List ℕ → List ℕ
  pub two_to_one_lem :
      (x y : List ℕ) → IsHash x → IsHash y → two_to_one x y ≡ p.hash_no_pad (x ++ y)
  -- `verify_merkle_proof(leaf_data, leaf_index_bits, root, siblings)`: the leaf is in the tree with
  -- this root, at the index with these bits, the lowest first.
  pub verify_merkle_proof : List ℕ → List Bool → List ℕ → List (List ℕ) → Circuit (Unit {0})
  pub verify_merkle_proof_lem :
      (leaf : List ℕ) (bits : List Bool) (root : List ℕ) (siblings : List (List ℕ))
      → length siblings ≡ length bits
      → All IsHash siblings
      → IsHash root
      → verify_merkle_proof leaf bits root siblings
        ≡ guard (equal_hashes (merkle_root p (hash_or_noop p leaf) siblings bits) root)

-- A gadget that meets the laws, for runs.
abbrev pub reference_proofs : (p : Poseidon) → MerkleProofs p
reference_proofs p = record {
  two_to_one = λ x y. p.hash_no_pad (x ++ y);
  two_to_one_lem = λ x y h k. refl;
  verify_merkle_proof = λ leaf bits root siblings.
      guard (equal_hashes (merkle_root p (hash_or_noop p leaf) siblings bits) root);
  verify_merkle_proof_lem = λ leaf bits root siblings h a r. refl;
}
