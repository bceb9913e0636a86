-- ===== src/BlockLinking/Tests.antt =====
-- A header whose number is 66051, in three bytes, and an account with a storage root of zeros.
use euclid_database.Prelude.{
  ◌^◌, ◌<◌, ◌≡◌, refl, List, ◌∷◌, ◌++◌, ℕ, some, replicate, arith, All-append, All-replicate, take,
  drop, [],
}
use euclid_database.Utils.Pack.Laws.{IsByte, AllBytes}
use euclid_database.LengthExtract.Value.{from_be_bytes}
use euclid_database.BlockLinking.Number.{header_number-from_be_bytes}
use euclid_database.Array.{VectorWire}
use euclid_database.Plonky2.Reference.{goldilocks}
use euclid_database.State.{register_link}
use euclid_database.BlockLinking.{header_number, AccountWires, sepolia_number_len}
use euclid_database.BlockLinking.Links.{Links}

abbrev header : List ℕ
header = replicate 449 0 ++ (131 ∷ 1 ∷ 2 ∷ 3 ∷ replicate 20 0)

header-AllBytes : AllBytes header
header-AllBytes =
    All-append IsByte (replicate 449 0) (131 ∷ 1 ∷ 2 ∷ 3 ∷ replicate 20 0)
      (All-replicate IsByte 449 0 (omega arith))
      (
        omega arith,
        (omega arith, (omega arith, (omega arith, All-replicate IsByte 20 0 (omega arith)))),
      )

header_number-from_be_bytes_example :
    (header_number goldilocks sepolia_number_len header
      ≡ some (from_be_bytes 0 (take 3 (drop 450 header))))
    × (from_be_bytes 0 (take 3 (drop 450 header)) < 2 ^ 32)
header_number-from_be_bytes_example =
    header_number-from_be_bytes goldilocks header 3 header-AllBytes (omega arith) refl (omega arith)
      (omega arith)

abbrev long_header : VectorWire
long_header = record { arr = header ++ replicate 27 0; real_len = 500 }

-- The leaf holds 32 zeros at the key of 64 zeros, which is the hash of the address.
abbrev account : AccountWires
account = record {
  contract_address = replicate 20 7;
  address_diff = 116;
  storage_root_offset = 37;
  leaf = record {
    arr = 0xf8 ∷ 67 ∷ 0xa1 ∷ 0x20 ∷ (replicate 32 0 ++ (0xa0 ∷ replicate 99 0));
    real_len = 69;
  };
  leaf_diff = 67;
  levels = [];
}

abbrev storage_pi : List ℕ
storage_pi = replicate 25 0

abbrev linked : List ℕ
linked =
    register_link (replicate 8 0) 66051 (replicate 8 0) (replicate 5 117901063) (replicate 11 0) 0 0
      (replicate 4 0)
