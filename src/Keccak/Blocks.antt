-- ===== src/Keccak/Blocks.antt =====
-- The blocks of `hash_vector`, and the whole gadget.
use euclid_database.Prelude.{
  ℕ, ◌≢◌, ◌+◌, ◌-◌, ◌*◌, ◌/◌, ◌%◌, ◌≤◌, ◌<◌, ◌≡◌, refl, Bool, true, false, List, [], ◌∷◌, ◌++◌,
  some, ltb, lt→ltb, ==_iff, length, take, arith, ap, ◌∙◌, create_from, create_array,
  build_array_lem, create_from-append, create_from-replicate, All-replicate, All-append, All-take,
  replicate, length-append, length-replicate, length-take,
}
use euclid_database.Plonky2.{Builder}
use euclid_database.Plonky2.Laws.{add_small, sub_small}
use euclid_database.Utils.Compare.Laws.{comparisons}
use euclid_database.Utils.Pack.{convert_u8_targets_to_u32, le_words, convert_u8_slice_to_u32_fields}
use euclid_database.Utils.Pack.Laws.{IsByte, AllBytes, convert_u8_targets_to_u32_lem}
use euclid_database.Array.Access.{AllBytes-AllField}
use euclid_database.Array.{VectorWire}
use euclid_database.Keccak.{compute_padding_size, end_padding, blocks, hash_vector}
use euclid_database.Keccak.Padding.{pad_bytes, padded_node_lem, end_padding_lem}

-- What Keccak absorbs for n bytes of data in an array of k blocks.
abbrev pub padded_data : List ℕ → ℕ → ℕ → List ℕ
padded_data arr n k = take n arr ++ (pad_bytes n ++ replicate ((k - 1 - n / 136) * 136) 0)

-- The flags that take the blocks of the data and no others.
abbrev pub block_flags : ℕ → ℕ → List Bool
block_flags n k = replicate (n / 136) true ++ replicate (k - 1 - n / 136) false

pub pad_bytes-AllBytes : (n : ℕ) → AllBytes (pad_bytes n)
pad_bytes-AllBytes n = (
  omega arith,
  All-append IsByte (replicate (134 - n % 136) 0) (0x80 ∷ [])
      (All-replicate IsByte (134 - n % 136) 0 (omega arith)) (omega arith, tt),
)

padded_data-AllBytes : (arr : List ℕ) (n k : ℕ) → AllBytes arr → AllBytes (padded_data arr n k)
padded_data-AllBytes arr n k f =
    let z = (k - 1 - n / 136) * 136 in
    All-append IsByte (take n arr) (pad_bytes n ++ replicate z 0) (All-take IsByte n arr f) (
      All-append IsByte (pad_bytes n) (replicate z 0) (pad_bytes-AllBytes n)
        (All-replicate IsByte z 0 (omega arith)))

pub length-padded_data :
    (arr : List ℕ) (n k : ℕ)
    → length arr ≡ k * 136
    → n / 136 < k
    → n % 136 ≢ 135
    → length (padded_data arr n k) ≡ k * 136
length-padded_data arr n k size room short =
    let z = (k - 1 - n / 136) * 136 in
    omega (
      arith,
      length-append {A = ℕ} (take n arr) (pad_bytes n ++ replicate z 0),
      length-append {A = ℕ} (pad_bytes n) (replicate z 0),
      length-append {A = ℕ} (replicate (134 - n % 136) 0) (0x80 ∷ []),
      length-replicate {A = ℕ} (134 - n % 136) 0,
      length-replicate {A = ℕ} z 0,
      length-take n arr,
    )

flags_lem :
    (q m : ℕ) → q ≤ m → create_array m (λ i. ltb i q) ≡ replicate q true ++ replicate (m - q) false
flags_lem q m h =
    let f = λ (i : ℕ). ltb i q in
    let e : m ≡ q + (m - q) = omega arith in
    ap (λ k. create_from 0 k f) e
    ∙ create_from-append 0 q (m - q) f
    ∙ rw
        (
          create_from-replicate 0 q f true (λ j p r. ground arith),
          create_from-replicate (0 + q) (m - q) f false (λ j p r. ground arith),
        )
        refl

module _ (b : Builder) where
  pub blocks_lem :
      (a : VectorWire) (k : ℕ)
      → length a.arr ≡ k * 136
      → a.real_len / 136 < k
      → k ≤ 256
      → blocks b a (compute_padding_size a.real_len) ≡ some (block_flags a.real_len k)
  unfolding blocks
  blocks_lem a k size room small =
      let n = a.real_len in
      let q = n / 136 in
      let e : end_padding b n (compute_padding_size n) ≡ n + (135 - n % 136) =
        end_padding_lem b n (omega arith) in
      let s : b.add (n + (135 - n % 136)) 1 ≡ (q + 1) * 136 =
        add_small b (n + (135 - n % 136)) 1 (omega arith) ∙ omega arith in
      let d : b.div ((q + 1) * 136) 136 ≡ q + 1 =
        b.div_lem (q + 1) 136 (omega arith) (omega arith) in
      let m : b.sub (q + 1) 1 ≡ q =
        sub_small b (q + 1) 1 (omega arith) (omega arith) ∙ omega arith in
      let c : length a.arr / 136 ≡ k = omega arith in
      rw (e, s, d, m, c, lt→ltb 0 k (omega arith))
        (build_array_lem (k - 1) _ (λ i. ltb i q)
            (λ j h. (comparisons b j q 8 (omega arith) (omega arith) (omega arith)).0)
          ∙ ap some (flags_lem q (k - 1) (omega arith)))

  -- For bytes in an array of k whole blocks, 256 at most, with room for the padding, and data whose
  -- length is not 135 mod 136: with the `diff` that `assign` gives, `hash_vector` is the hash of the
  -- data with Keccak's padding, over exactly the blocks that the padded data fill.
  pub hash_vector_lem :
      (hash_keccak256 : List ℕ → List Bool → List ℕ) (a : VectorWire) (k : ℕ)
      → AllBytes a.arr
      → length a.arr ≡ k * 136
      → a.real_len / 136 < k
      → k ≤ 256
      → a.real_len % 136 ≢ 135
      → hash_vector b hash_keccak256 a (compute_padding_size a.real_len)
        ≡ some
            (hash_keccak256 (le_words (padded_data a.arr a.real_len k)) (block_flags a.real_len k))
  unfolding hash_vector convert_u8_slice_to_u32_fields
  hash_vector_lem hash_keccak256 a k f size room small short =
      let xs = padded_data a.arr a.real_len k in
      let g : AllBytes xs = padded_data-AllBytes a.arr a.real_len k f in
      let l : length xs % 4 ≡ 0 =
        omega (arith, length-padded_data a.arr a.real_len k size room short) in
      let w : convert_u8_targets_to_u32 b xs ≡ some (le_words xs) =
        (convert_u8_targets_to_u32_lem b xs g).0 ∙ rw ((==_iff (length xs % 4) 0).1 l) refl in
      rw
        (
          padded_node_lem b a k (AllBytes-AllField a.arr f) size room short (omega arith),
          w,
          blocks_lem a k size room small,
        )
        refl
