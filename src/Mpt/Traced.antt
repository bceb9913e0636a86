-- ===== src/Mpt/Traced.antt =====
-- The nodes of an accepted proof, from the leaf to the root.
use euclid_database.Prelude.{ℕ, ◌-◌, ◌≡◌, Bool, true, false, List, [], ◌∷◌, some}
use euclid_database.Plonky2.{Builder, order}
use euclid_database.Utils.Pack.{convert_u8_targets_to_u32}
use euclid_database.Rlp.{RlpList, decode_fixed_list}
use euclid_database.Keccak.{hash_vector}
use euclid_database.Mpt.{MptKeyWire, Level, InputWires}
use euclid_database.Mpt.Steps.{IsPair, IsStep}

-- Nodes from a child's hash to a root's hash, with the key's pointer at both. A level that counts holds
-- the child's hash at the place that the key's pointer gives; the others change nothing.
pub data NodePath (b : Builder) (keccak : List ℕ → List Bool → List ℕ)
    : List Level → List ℕ → MptKeyWire → List ℕ → MptKeyWire → Type 0 where
  top : (last : List ℕ) (key : MptKeyWire) → NodePath b keccak [] last key last key
  up :
      (level : Level) (levels : List Level) (last child hash root : List ℕ)
      (key key' final : MptKeyWire)
      → level.is_real ≡ true
      → IsStep b level.node.arr key key' child
      → convert_u8_targets_to_u32 b child ≡ some last
      → hash_vector b keccak level.node level.diff ≡ some hash
      → NodePath b keccak levels hash key' root final
      → NodePath b keccak (level ∷ levels) last key root final
  skip :
      (level : Level) (levels : List Level) (last root : List ℕ) (key final : MptKeyWire)
      → level.is_real ≡ false
      → NodePath b keccak levels last key root final
      → NodePath b keccak (level ∷ levels) last key root final

-- A pair with the value at the key, a path from its hash to the root, and a pointer at -1 at the end.
abbrev pub Traced : Builder → (List ℕ → List Bool → List ℕ) → InputWires → List ℕ → List ℕ → Type 0
Traced b keccak inputs value root =
    (leaf_hash : List ℕ) × (headers : RlpList) × (key : MptKeyWire) × (final : MptKeyWire)
    × (hash_vector b keccak inputs.leaf inputs.leaf_diff ≡ some leaf_hash)
    × (decode_fixed_list b 2 inputs.leaf.arr 0 ≡ some headers)
    × IsPair b 33 inputs.leaf.arr headers inputs.key_wire key value
    × NodePath b keccak inputs.levels leaf_hash key root final
    × (final.pointer ≡ order - 1)
