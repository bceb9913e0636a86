-- ===== src/Keccak/Reference.antt =====
-- Keccak-256 of plonky2_crypto and of sha3 (`keccak256` of mrp2-utils/src/utils.rs), which the
-- repository only calls: the gadget computes the hash of the bytes whose padded words it gets.
use euclid_database.Prelude.{
  ℕ, ◌/◌, ◌%◌, ◌<◌, ◌≢◌, ◌≡◌, refl, Bool, All, List, length, replicate, All-replicate, arith,
}
use euclid_database.Utils.Pack.{le_words, from_le_bytes}
use euclid_database.Utils.Pack.Laws.{IsByte, AllBytes}
use euclid_database.Utils.Pack.Words.{IsU32}
use euclid_database.Keccak.Blocks.{padded_data, block_flags}

pub record KeccakHash : Type 0 where
  -- The hash of bytes.
  pub keccak256 : List ℕ → List ℕ
  pub length-keccak256 : (bytes : List ℕ) → length (keccak256 bytes) ≡ 32
  pub keccak256-AllBytes : (bytes : List ℕ) → AllBytes (keccak256 bytes)
  -- The gadget, on the words of the padded bytes and the flags of the blocks after the first.
  pub hash_keccak256 : List ℕ → List Bool → List ℕ
  pub length-hash_keccak256 : (ws : List ℕ) (fs : List Bool) → length (hash_keccak256 ws fs) ≡ 8
  pub hash_keccak256-IsU32 : (ws : List ℕ) (fs : List Bool) → All IsU32 (hash_keccak256 ws fs)
  pub hash_keccak256_lem :
      (bytes : List ℕ) (k : ℕ)
      → AllBytes bytes
      → length bytes / 136 < k
      → length bytes % 136 ≢ 135
      → hash_keccak256
          (le_words (padded_data bytes (length bytes) k))
          (block_flags (length bytes) k)
        ≡ le_words (keccak256 bytes)

pub zero_words : replicate 8 0 ≡ le_words (replicate 32 0)
unfolding le_words from_le_bytes
zero_words = refl

-- A hash that meets the laws, for runs.
abbrev pub zero_hash : KeccakHash
zero_hash = record {
  keccak256 = λ bytes. replicate 32 0;
  length-keccak256 = λ bytes. refl;
  keccak256-AllBytes = λ bytes. All-replicate IsByte 32 0 (omega arith);
  hash_keccak256 = λ ws fs. replicate 8 0;
  length-hash_keccak256 = λ ws fs. refl;
  hash_keccak256-IsU32 = λ ws fs. All-replicate IsU32 8 0 (omega arith);
  hash_keccak256_lem = λ bytes k h i j. zero_words;
}
