-- ===== src/StorageKey/Reference.antt =====
-- `from_low_u64_be` of ethers, for runs.
use euclid_database.Prelude.{
  ℕ, ◌/◌, ◌%◌, ◌^◌, ◌<◌, ◌≡◌, refl, List, [], ◌∷◌, ◌++◌, replicate, arith,
}
use euclid_database.StorageKey.{H256}

-- The eight bytes of a number behind 24 zeros.
abbrev pub be_bytes : ℕ → List ℕ
be_bytes n =
    replicate 24 0
    ++ ((n / 2 ^ 56 % 256)
        ∷ (n / 2 ^ 48 % 256)
        ∷ (n / 2 ^ 40 % 256)
        ∷ (n / 2 ^ 32 % 256)
        ∷ (n / 2 ^ 24 % 256)
        ∷ (n / 2 ^ 16 % 256)
        ∷ (n / 2 ^ 8 % 256)
        ∷ (n % 256)
        ∷ [])

pub be_bytes-byte : (n : ℕ) → n < 256 → be_bytes n ≡ replicate 31 0 ++ (n ∷ [])
be_bytes-byte n h =
    let e0 : n / 2 ^ 56 % 256 ≡ 0 = omega arith in
    let e1 : n / 2 ^ 48 % 256 ≡ 0 = omega arith in
    let e2 : n / 2 ^ 40 % 256 ≡ 0 = omega arith in
    let e3 : n / 2 ^ 32 % 256 ≡ 0 = omega arith in
    let e4 : n / 2 ^ 24 % 256 ≡ 0 = omega arith in
    let e5 : n / 2 ^ 16 % 256 ≡ 0 = omega arith in
    let e6 : n / 2 ^ 8 % 256 ≡ 0 = omega arith in
    let e7 : n % 256 ≡ n = omega arith in rw (e0, e1, e2, e3, e4, e5, e6, e7) refl

abbrev pub ethers : H256
ethers = record { from_low_u64_be = be_bytes; from_low_u64_be_byte = be_bytes-byte }
