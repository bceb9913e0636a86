-- ===== src/BlockLinking/Links.antt =====
-- What an accepted link of a storage proof to a block says.
use euclid_database.Prelude.{
  ℕ, ◌-◌, ◌≡◌, true, List, ◌∷◌, ◌++◌, All, some, length, take, drop, get_or, replicate,
}
use euclid_database.Plonky2.{Builder}
use euclid_database.Utils.Compare.{less_than}
use euclid_database.Utils.Pack.Laws.{AllBytes}
use euclid_database.Array.{VectorWire}
use euclid_database.Array.Vectors.{convert_u8_to_u32}
use euclid_database.Keccak.{compute_size_with_padding, hash_vector}
use euclid_database.Keccak.Reference.{KeccakHash}
use euclid_database.Mpt.{InputWires, MptKeyWire, init_from_u32_targets}
use euclid_database.Mpt.Traced.{Traced}
use euclid_database.LengthExtract.Value.{from_be_bytes}
use euclid_database.BlockLinking.{
  AccountWires, BlockInputsWires, header_rlp_parent_hash_offset, address_len,
}
use euclid_database.BlockLinking.Roots.{hash_at}

-- The address and the header with the zeros of the Keccak padding, and the proof of the account.
abbrev pub padded_address : AccountWires → VectorWire
padded_address w = record {
  arr = w.contract_address ++ replicate (compute_size_with_padding address_len - address_len) 0;
  real_len = address_len;
}

abbrev pub padded_header : VectorWire → VectorWire
padded_header header = record {
  arr =
      header.arr ++ replicate (compute_size_with_padding (length header.arr) - length header.arr) 0;
  real_len = header.real_len;
}

abbrev pub block_wires : VectorWire → List ℕ → ℕ → BlockInputsWires
block_wires header block_hash number = record {
  number = number;
  parent_hash = hash_at header.arr header_rlp_parent_hash_offset;
  hash = block_hash;
  header_rlp = header;
}

abbrev pub state_mpt_input : AccountWires → MptKeyWire → InputWires
state_mpt_input w key = record {
  key_wire = key;
  leaf = w.leaf;
  leaf_diff = w.leaf_diff;
  levels = w.levels;
}

module _ (b : Builder) where
  module _ (k : KeccakHash) where
    -- A link from the storage of a contract to a block.
    abbrev pub Links : ℕ → AccountWires → VectorWire → ℕ → List ℕ → List ℕ → Type 0
    Links n w header diff storage_pi pis =
        (address_hash : List ℕ) × (key : MptKeyWire) × (value : List ℕ) × (block_hash : List ℕ)
        × (hash_vector b k.hash_keccak256 (padded_address w) w.address_diff ≡ some address_hash)
        × (init_from_u32_targets b address_hash ≡ some key)
        × Traced b k.hash_keccak256 (state_mpt_input w key) value (hash_at header.arr 91)
        × AllBytes w.leaf.arr
        × All (λ level. AllBytes level.node.arr) w.levels
        × (hash_vector b k.hash_keccak256 (padded_header header) diff ≡ some block_hash)
        × (less_than b w.storage_root_offset w.leaf.real_len 7 ≡ some true)
        × (take 8 (drop 11 storage_pi) ≡ hash_at w.leaf.arr w.storage_root_offset)
        × (pis
            ≡ block_hash
              ++ (from_be_bytes 0 (take n (drop 450 header.arr))
                  ∷ (hash_at header.arr 4
                      ++ (convert_u8_to_u32 b w.contract_address
                          ++ (take 11 storage_pi
                              ++ (get_or storage_pi 23 0
                                  ∷ get_or storage_pi 24 0
                                  ∷ take 4 (drop 19 storage_pi)))))))
