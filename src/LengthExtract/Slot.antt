-- ===== src/LengthExtract/Slot.antt =====
-- The whole circuit: the number at a storage slot.
use euclid_database.Prelude.{ℕ, ◌^◌, ◌≤◌, ◌<◌, ◌≡◌, refl, List, ◌++◌, some, length}
use euclid_database.Plonky2.{Builder}
use euclid_database.Utils.Pack.Laws.{AllBytes}
use euclid_database.Array.{VectorWire}
use euclid_database.Array.Access.{AllBytes-AllField}
use euclid_database.Array.Bytes.{assert_bytes_iff}
use euclid_database.Rlp.Encode.{string, encode}
use euclid_database.Keccak.{compute_padding_size}
use euclid_database.Keccak.Reference.{KeccakHash}
use euclid_database.Mpt.{InputWires, Level, verify_mpt_proof}
use euclid_database.StorageKey.{H256, simple, mpt_nibbles}
use euclid_database.StorageKey.Derivation.{key_at_end, simple_slot_lem}
use euclid_database.BlockLinking.{assert_nodes}
use euclid_database.LengthExtract.{build_length, register_length}
use euclid_database.LengthExtract.Value.{from_be_bytes, extract_length-encode}

-- The proof of a leaf at a key.
abbrev pub mpt_input : List ℕ → VectorWire → ℕ → List Level → InputWires
mpt_input nibbles leaf leaf_diff levels = record {
  key_wire = key_at_end nibbles;
  leaf = leaf;
  leaf_diff = leaf_diff;
  levels = levels;
}

module _ (b : Builder) (h256 : H256) (k : KeccakHash) where
  -- For a slot of one byte and nodes of bytes: where the Merkle-Patricia proof at the key that the code
  -- outside the circuit computes for the slot is accepted with a root, and its leaf holds the RLP
  -- encoding of a number of at most four big-endian bytes, with 4 to below 2^60 bytes behind it, the
  -- circuit is satisfied, with the wires that `assign` gives the Keccak gadget of the slot, and
  -- registers the root, the slot and the number.
  pub build_length-number :
      (slot : ℕ) (nibbles : List ℕ) (leaf : VectorWire) (leaf_diff : ℕ) (levels : List Level)
      (ds rest root : List ℕ)
      → slot < 256
      → mpt_nibbles h256 k.keccak256 (simple slot) ≡ some nibbles
      → verify_mpt_proof b k.hash_keccak256 (mpt_input nibbles leaf leaf_diff levels)
        ≡ some (encode (string ds) ++ rest, root)
      → AllBytes leaf.arr
      → assert_nodes b levels ≡ some tt
      → AllBytes ds
      → AllBytes rest
      → length ds ≤ 4
      → 4 ≤ length rest
      → length rest < 2 ^ 60
      → build_length b k.hash_keccak256 slot (compute_padding_size 32) leaf leaf_diff levels
        ≡ some (register_length root slot (from_be_bytes 0 ds))
  unfolding build_length
  build_length-number slot nibbles leaf leaf_diff levels ds rest root small e1 e2 h e3 f g low high
        size =
      let key = simple_slot_lem b h256 k slot small in
      rw
        (
          key,
          e1,
          e2,
          (assert_bytes_iff b leaf.arr (AllBytes-AllField leaf.arr h)).1 h,
          e3,
          extract_length-encode b ds rest f g low high size,
        )
        refl
