-- ===== src/Keccak/Padding.antt =====
-- The padding of `hash_vector` against Keccak's padding rule.
use mathlib.Core.List.{append_assoc}
use euclid_database.Prelude.{
  ℕ, suc, ◌≢◌, ◌+◌, ◌-◌, ◌*◌, ◌/◌, ◌%◌, ◌^◌, ◌≤◌, ◌<◌, ◌≡◌, refl, Bool, true, false, List, [], ◌∷◌,
  ◌++◌, some, ltb, ◌==◌, ◌&&◌, length, get_or, take, arith, ap, ◌∙◌, sym, if◌then◌else◌, bit,
  create_from, create_array, build_array_lem, create_from-append, create_from-get_or,
  create_from_ext, create_from-replicate, All-get_or, replicate,
}
use euclid_database.Plonky2.{Builder, IsField, order}
use euclid_database.Plonky2.Laws.{add_small, sub_small, mul-bit}
use euclid_database.Utils.Compare.Laws.{comparisons}
use euclid_database.Array.Access.{AllField}
use euclid_database.Array.{VectorWire}
use euclid_database.Keccak.{
  compute_size_with_padding, compute_padding_size, pad_item, end_padding, padded_node,
}

-- The data, Keccak's padding of it to whole blocks, and zeros up to the size of the array.
pub compute_size_with_padding_lem : (n : ℕ) → compute_size_with_padding n ≡ (n / 136 + 1) * 136
unfolding compute_size_with_padding
compute_size_with_padding_lem n = omega arith

pub compute_padding_size_lem : (n : ℕ) → compute_padding_size n ≡ 136 - n % 136
unfolding compute_padding_size
compute_padding_size_lem n = omega (arith, compute_size_with_padding_lem n)

-- An item of the padded array, for data of n bytes whose padding ends at e.
abbrev padded_byte : ℕ → ℕ → ℕ → ℕ → ℕ
padded_byte n e i byte =
    if ltb i n
    then byte
    else (if i == n then 0x01 else 0)
      + (if i == e then 0x80 else 0)
      + (if i == n && i == e then 0x81 else 0)

-- Keccak's padding for data of n bytes, n mod 136 at most 134.
abbrev pub pad_bytes : ℕ → List ℕ
pad_bytes n = 0x01 ∷ (replicate (134 - n % 136) 0 ++ (0x80 ∷ []))

create_from-cons : (i n : ℕ) (f : ℕ → ℕ) → create_from i (1 + n) f ≡ f i ∷ create_from (i + 1) n f
create_from-cons i n f = let e : 1 + n ≡ suc n = omega arith in rw e refl

framed :
    (i gap rest : ℕ) (f : ℕ → ℕ)
    → create_from i (1 + (gap + (1 + rest))) f
      ≡ f i
        ∷ (create_from (i + 1) gap f ++ (f (i + 1 + gap) ∷ create_from (i + 1 + gap + 1) rest f))
framed i gap rest f =
    create_from-cons i (gap + (1 + rest)) f
    ∙ ap (λ r. f i ∷ r)
        (create_from-append (i + 1) gap (1 + rest) f
          ∙ ap (λ r. create_from (i + 1) gap f ++ r) (create_from-cons (i + 1 + gap) rest f))

module _ (b : Builder) where
  pub end_padding_lem :
      (n : ℕ) → n < 2 ^ 32 → end_padding b n (compute_padding_size n) ≡ n + (135 - n % 136)
  unfolding end_padding
  end_padding_lem n h =
      let e = compute_padding_size_lem n in
      let a : b.add n (compute_padding_size n) ≡ n + (136 - n % 136) =
        add_small b n (compute_padding_size n) (omega (arith, e)) ∙ omega (arith, e) in
      rw (end_padding, a)
        (sub_small b (n + (136 - n % 136)) 1 (omega arith) (omega arith) ∙ omega arith)

  mul-bit_if : (c : Bool) (x : ℕ) → IsField x → b.mul (bit c) x ≡ (if c then x else 0)
  mul-bit_if true x h = mul-bit b true x h ∙ omega arith
  mul-bit_if false x h = mul-bit b false x h ∙ omega arith

  add_four : (x y z w : ℕ) → x + y + z + w < order → b.add (b.add (b.add x y) z) w ≡ x + y + z + w
  add_four x y z w h =
      omega (arith, b.add_lem (b.add (b.add x y) z) w, b.add_lem (b.add x y) z, b.add_lem x y)

  -- The items that are not data: at the start and at the end of the padding.
  pub pad_item_lem :
      (n e i byte : ℕ)
      → n ≤ e
      → n < 2 ^ 32
      → i < 2 ^ 32
      → IsField byte
      → pad_item b n e i byte ≡ some (padded_byte n e i byte)
  unfolding pad_item
  pad_item_lem n e i byte he hn hi hb =
      let both = i == n && i == e in
      let s =
        add_four (if ltb i n then byte else 0) (if i == n then 1 else 0) (if i == e then 128 else 0)
          (if both then 129 else 0) (ground arith) in
      rw
        (
          (comparisons b i n 32 (omega arith) hi hn).0,
          b.is_equal_lem i n,
          b.is_equal_lem i e,
          b.and_bool_lem (i == n) (i == e),
          mul-bit_if (ltb i n) byte hb,
          mul-bit_if (i == n) 1 (omega arith),
          mul-bit_if (i == e) 128 (omega arith),
          mul-bit_if both 129 (omega arith),
          s,
        )
        (ap some (ground arith))

  -- For data of n bytes, n below 2^32 and 135 mod 136, Keccak's padding is the one byte 0x81, but
  -- the item at n is 258, with the `diff` that `assign` gives: 0x01, 0x80 and 0x81 are added up.
  pub pad_item-overflow :
      (n byte : ℕ)
      → n % 136 ≡ 135
      → n < 2 ^ 32
      → byte < 256
      → pad_item b n (end_padding b n (compute_padding_size n)) n byte ≡ some 258
  pad_item-overflow n byte h hn hb =
      let e : end_padding b n (compute_padding_size n) ≡ n = end_padding_lem n hn ∙ omega arith in
      rw e (pad_item_lem n n n byte (omega arith) hn hn (omega arith) ∙ ap some (ground arith))

  padded_items :
      (arr : List ℕ) (n gap rest : ℕ)
      → length arr ≡ n + (1 + (gap + (1 + rest)))
      → create_array (length arr) (λ i. padded_byte n (n + 1 + gap) i (get_or arr i 0))
        ≡ take n arr ++ (0x01 ∷ (replicate gap 0 ++ (0x80 ∷ replicate rest 0)))
  padded_items arr n gap rest h =
      let f = λ (i : ℕ). padded_byte n (n + 1 + gap) i (get_or arr i 0) in
      let data_ : create_from 0 n f ≡ take n arr =
        create_from_ext 0 n f (λ i. get_or arr i 0) (λ j p q. ground arith)
        ∙ create_from-get_or arr 0 n 0 (omega arith) in
      let first : f n ≡ 0x01 = ground arith in
      let middle : create_from (n + 1) gap f ≡ replicate gap 0 =
        create_from-replicate (n + 1) gap f 0 (λ j p q. ground arith) in
      let last : f (n + 1 + gap) ≡ 0x80 = ground arith in
      let tail_ : create_from (n + 1 + gap + 1) rest f ≡ replicate rest 0 =
        create_from-replicate (n + 1 + gap + 1) rest f 0 (λ j p q. ground arith) in
      let z : 0 + n ≡ n = omega arith in
      let body : create_from (0 + n) (1 + (gap + (1 + rest))) f
          ≡ 0x01 ∷ (replicate gap 0 ++ (0x80 ∷ replicate rest 0)) =
        ap (λ m. create_from m (1 + (gap + (1 + rest))) f) z
        ∙ framed n gap rest f
        ∙ rw (first, middle, last, tail_) refl in
      ap (λ m. create_from 0 m f) h
      ∙ create_from-append 0 n (1 + (gap + (1 + rest))) f
      ∙ ap (λ r. r ++ create_from (0 + n) (1 + (gap + (1 + rest))) f) data_
      ∙ ap (λ r. take n arr ++ r) body

  -- On n items of data whose number is not 135 mod 136, in an array of whole blocks with room for the
  -- padding, `hash_vector` pads the data as Keccak does, with the `diff` that `assign` gives, and fills
  -- the rest of the array with zeros.
  pub padded_node_lem :
      (a : VectorWire) (k : ℕ)
      → AllField a.arr
      → length a.arr ≡ k * 136
      → a.real_len / 136 < k
      → a.real_len % 136 ≢ 135
      → length a.arr < 2 ^ 32
      → padded_node b a (compute_padding_size a.real_len)
        ≡ some (
            take a.real_len a.arr
            ++ (pad_bytes a.real_len ++ replicate ((k - 1 - a.real_len / 136) * 136) 0))
  unfolding padded_node
  padded_node_lem a k f size room short small =
      let n = a.real_len in
      let gap = 134 - n % 136 in
      let rest = (k - 1 - n / 136) * 136 in
      let e : end_padding b n (compute_padding_size n) ≡ n + 1 + gap =
        end_padding_lem n (omega arith) ∙ omega arith in
      rw e (
        build_array_lem (length a.arr) _ (λ i. padded_byte n (n + 1 + gap) i (get_or a.arr i 0))
          (λ j h.
            pad_item_lem n (n + 1 + gap) j (get_or a.arr j 0) (omega arith) (omega arith)
              (omega arith) (All-get_or IsField a.arr j 0 f (omega arith)))
        ∙ ap some (
            padded_items a.arr n gap rest (omega arith)
            ∙ ap (λ r. take n a.arr ++ (0x01 ∷ r))
                (sym (append_assoc (replicate gap 0) (0x80 ∷ []) (replicate rest 0)))))
