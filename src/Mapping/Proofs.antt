-- ===== src/Mapping/Proofs.antt =====
-- The proofs over a mapping, from its leaves up, and the entries that they stand for.
mod Tests
pub mod Sound
pub mod Entries
use euclid_database.Prelude.{
  ℕ, ◌+◌, ◌≤◌, ◌≡◌, ◌⊎◌, Bool, true, false, List, [], ◌∷◌, ◌++◌, Circuit, ◌>>=◌, some, ltb, length,
}
use euclid_database.Plonky2.{Builder}
use euclid_database.Utils.Pack.{convert_u8_targets_to_u32}
use euclid_database.GroupHashing.{Group}
use euclid_database.Array.{VectorWire, equals}
use euclid_database.Array.Vectors.{convert_u8_to_u32}
use euclid_database.Rlp.{RlpList, decode_fixed_list, max_items_in_list}
use euclid_database.Keccak.{hash_vector, hash_len}
use euclid_database.Mpt.{MptKeyWire, max_leaf_value_len, advance_by, advance_key_leaf_or_extension}
use euclid_database.Mpt.Steps.{IsNode, IsPair}
use euclid_database.StorageKey.{mapping_slot_key}
use euclid_database.Mapping.{Curve, register, extension_circuit, branch_circuit}
use euclid_database.Mapping.Leaf.{LeafWires, leaf_value, mapping_leaf}
use euclid_database.Mapping.Children.{IsChild}

-- A proof with its wires: of a leaf, of an extension node over a proof, or of a branch with its common
-- prefix, its slot and its number of proofs.
mutual
  pub data Proof : Type 0 where
    leaf : LeafWires → Proof
    extension : VectorWire → ℕ → Proof → Proof
    branch : VectorWire → ℕ → MptKeyWire → ℕ → ℕ → Proofs → Proof

  pub data Proofs : Type 0 where
    nil : Proofs
    cons : Proof → Proofs → Proofs

abbrev pub number : Proofs → ℕ
number nil = 0
number (cons p ps) = 1 + number ps

-- The nodes of leaves and extensions are of field elements, 64 at least. A branch proves at most sixteen
-- children, under a key of 64 nibbles.
unfoldable mutual
  pub IsSized : Proof → Type 0
  IsSized (leaf wires) = IsNode wires.node.arr
  IsSized (extension node diff p) = IsNode node.arr × IsSized p
  IsSized (branch node diff common_prefix slot nb_proofs ps) =
      (length common_prefix.key ≡ 64) × (nb_proofs ≤ 16) × (number ps ≤ 16) × AllSized ps

  pub AllSized : Proofs → Type 0
  AllSized nil = Unit
  AllSized (cons p ps) = IsSized p × AllSized ps

-- What a proof exposes beside the number of its entries.
pub record Exposed : Type 0 where
  pub key : MptKeyWire
  pub slot : ℕ
  pub root : List ℕ
  pub digest : List ℕ

abbrev pub exposed_pis : Exposed → ℕ → List ℕ
exposed_pis x n = register x.key x.slot n x.root x.digest

module _ (b : Builder) (hash_keccak256 : List ℕ → List Bool → List ℕ) (g : Group)
    (curve : Curve) where
  unfoldable mutual
    pub prove_mapping : Proof → Circuit (List ℕ)
    prove_mapping (leaf wires) = mapping_leaf b hash_keccak256 g wires
    prove_mapping (extension node diff p) =
        prove_mapping p >>= λ pis. extension_circuit b hash_keccak256 node diff pis
    prove_mapping (branch node diff common_prefix slot nb_proofs ps) =
        prove_children ps >>= λ inputs.
        branch_circuit b hash_keccak256 curve node diff common_prefix slot nb_proofs inputs

    pub prove_children : Proofs → Circuit (List (List ℕ))
    prove_children nil = some []
    prove_children (cons p ps) =
        prove_mapping p >>= λ pis. prove_children ps >>= λ rest. some (pis ∷ rest)

  -- A leaf is a list of two items, a hex-prefix key and the value of one entry. The pointer at the
  -- storage key of the mapping key moves back by the nibbles of the hex-prefix key.
  abbrev pub HoldsLeaf : LeafWires → List (List ℕ × List ℕ) → Exposed → Type 0
  HoldsLeaf w entries x =
      (mpt_key : MptKeyWire) × (headers : RlpList) × (encoded : List ℕ) × (value : List ℕ)
      × (packed : List ℕ) × (hash_vector b hash_keccak256 w.node w.root_diff ≡ some x.root)
      × (mapping_slot_key b hash_keccak256 w.mapping_key w.slot w.location_diff w.location_bytes
            w.key_diff
          ≡ some mpt_key)
      × (decode_fixed_list b 2 w.node.arr 0 ≡ some headers)
      × IsPair b 33 w.node.arr headers mpt_key x.key encoded
      × (leaf_value b encoded ≡ some value)
      × (convert_u8_targets_to_u32 b (w.mapping_key ++ value) ≡ some packed)
      × (x.slot ≡ w.slot)
      × (x.digest ≡ g.map_to_curve_point packed)
      × (entries ≡ (w.mapping_key, value) ∷ [])

  -- An extension node is a list of two items, a hex-prefix key and the hash of its child; it moves the
  -- pointer of the child's key and changes nothing else.
  abbrev pub IsParent : VectorWire → ℕ → Exposed → Exposed → Type 0
  IsParent node diff y x =
      (headers : RlpList) × (child_hash : List ℕ) × (hash_vector b hash_keccak256 node diff
        ≡ some x.root)
      × (decode_fixed_list b 2 node.arr 0 ≡ some headers)
      × IsPair b 32 node.arr headers y.key x.key child_hash
      × (equals b (convert_u8_to_u32 b child_hash) y.root ≡ true)
      × (x.slot ≡ y.slot)
      × (x.digest ≡ y.digest)

  -- The entries of a proof. A branch has those of the first nb_proofs children, each of which it holds,
  -- and adds their points from the left.
  unfoldable mutual
    pub Holds : Proof → List (List ℕ × List ℕ) → Exposed → Type 0
    Holds (leaf wires) entries x = HoldsLeaf wires entries x
    Holds (extension node diff p) entries x =
        (y : Exposed) × Holds p entries y × IsParent node diff y x
    Holds (branch node diff common_prefix slot nb_proofs ps) entries x =
        (headers : RlpList) × (hash_vector b hash_keccak256 node diff ≡ some x.root)
        × (decode_fixed_list b max_items_in_list node.arr 0 ≡ some headers)
        × (x.key ≡ advance_by b common_prefix 1)
        × (x.slot ≡ slot)
        × HoldsAll ps node.arr headers common_prefix slot nb_proofs 0 [] curve.curve_zero entries
            x.digest

    pub HoldsAll :
        Proofs
        → List ℕ
        → RlpList
        → MptKeyWire
        → ℕ
        → ℕ
        → ℕ
        → List ℕ
        → List ℕ
        → List (List ℕ × List ℕ)
        → List ℕ
        → Type 0
    HoldsAll nil node headers common_prefix slot nb_proofs i seen acc entries digest =
        (entries ≡ []) × (digest ≡ acc)
    HoldsAll (cons p ps) node headers common_prefix slot nb_proofs i seen acc entries digest =
        (nibble : ℕ) × (((ltb i nb_proofs ≡ true)
            × ((here : List (List ℕ × List ℕ)) × (rest : List (List ℕ × List ℕ)) × (y : Exposed)
                × Holds p here y
                × IsChild b node headers common_prefix slot seen y.key y.slot y.root nibble
                × HoldsAll ps node headers common_prefix slot nb_proofs (i + 1)
                    (seen ++ (nibble ∷ [])) (curve.curve_add acc y.digest) rest digest
                × (entries ≡ here ++ rest)))
          ⊎ ((ltb i nb_proofs ≡ false)
              × HoldsAll ps node headers common_prefix slot nb_proofs (i + 1)
                  (seen ++ (nibble ∷ [])) (curve.curve_add acc curve.curve_zero) entries digest))
