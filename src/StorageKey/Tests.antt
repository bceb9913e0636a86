-- ===== src/StorageKey/Tests.antt =====
-- The slot of the mapping key 5 in the mapping at slot 2.
use euclid_database.Prelude.{
  ℕ, ◌≡◌, ◌↔◌, refl, List, [], ◌∷◌, ◌++◌, ◌>>=◌, some, replicate, All-replicate, arith,
}
use euclid_database.Plonky2.{IsField}
use euclid_database.Plonky2.Reference.{goldilocks}
use euclid_database.Utils.Pack.{le_words, convert_u8_targets_to_u32}
use euclid_database.Keccak.{compute_padding_size}
use euclid_database.Keccak.Reference.{zero_hash}
use euclid_database.Mpt.{MptKeyWire}
use euclid_database.StorageKey.{
  mapping_slot_key, left_pad, location, mpt_nibbles, mapping, simple, simple_slot,
}
use euclid_database.StorageKey.Reference.{ethers}
use euclid_database.StorageKey.Derivation.{key_at_end, mapping_slot_key_iff, simple_slot_lem}

abbrev padded_key : List ℕ
padded_key = replicate 31 0 ++ (5 ∷ [])

padded_key_lem : left_pad 32 (5 ∷ []) ≡ some padded_key
unfolding left_pad
padded_key_lem = refl

abbrev zero_key : MptKeyWire
zero_key = key_at_end (replicate 64 0)

-- Wires of zeros pack to the words of the location.
mapping_slot_key_iff_example :
    (mapping_slot_key goldilocks zero_hash.hash_keccak256 padded_key 2
        (compute_padding_size 64)
        (replicate 32 0)
        (compute_padding_size 32)
      ≡ some zero_key)
    ↔ (convert_u8_targets_to_u32 goldilocks (replicate 32 0) ≡ (
        location ethers zero_hash.keccak256 (mapping (5 ∷ []) 2) >>= λ bytes.
        some (le_words bytes)))
      × (mpt_nibbles ethers zero_hash.keccak256 (mapping (5 ∷ []) 2) ≡ some zero_key.key)
      × (zero_key.pointer ≡ 63)
mapping_slot_key_iff_example =
    mapping_slot_key_iff goldilocks ethers zero_hash (5 ∷ []) padded_key (replicate 32 0) 2 zero_key
      padded_key_lem (omega arith) (omega arith) (All-replicate IsField 32 0 (omega arith)) refl

simple_slot_run :
    simple_slot goldilocks zero_hash.hash_keccak256 7 (compute_padding_size 32)
    ≡ (mpt_nibbles ethers zero_hash.keccak256 (simple 7) >>= λ nibbles. some (key_at_end nibbles))
simple_slot_run = simple_slot_lem goldilocks ethers zero_hash 7 (omega arith)
