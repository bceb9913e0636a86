-- ===== src/Mapping/Leaf/Value.antt =====
-- The value that a leaf of the mapping is read as.
use euclid_database.Prelude.{
  ℕ, suc, ◌+◌, ◌-◌, ◌≤◌, ◌<◌, ◌≡◌, refl, true, false, List, ◌∷◌, ◌++◌, some, none, ltb, ltb→lt,
  lt→ltb, Bool-cases, inl, inr, if◌then◌else◌, length, replicate, build_array_lem, build_array-none,
  bit_length-32, create_array-slice, length-append, take_front, take_all, arith, ap, ◌∙◌,
}
use euclid_database.Plonky2.{Builder, order}
use euclid_database.Plonky2.Laws.{sub_small}
use euclid_database.Utils.Compare.{less_than_or_equal_to}
use euclid_database.Utils.Compare.Laws.{less_than_lem, less_than_negative, less_than_far}
use euclid_database.Array.{VectorWire, take_last}
use euclid_database.Array.Access.{AllField}
use euclid_database.Array.Padding.{normalize_left_lem}
use euclid_database.Array.Vectors.{normalize_item, normalize_left}
use euclid_database.Rlp.{short_string_len}
use euclid_database.Mapping.Leaf.{leaf_value}

take_last_32 : (x : ℕ) (rest : List ℕ) → length rest ≡ 32 → take_last 32 (x ∷ rest) 0 ≡ rest
unfolding take_last
take_last_32 x rest h =
    let e : suc (length rest) - 32 ≡ 1 = omega arith in
    rw e (create_array-slice (x ∷ rest) 1 32 0 (omega arith) ∙ take_all rest 32 h)

not_less : (x y : ℕ) → ltb x y ≡ false → y ≤ x
not_less x y h = ground arith

none_below : (x : ℕ) → ltb x 0 ≡ false
none_below x = ground arith

far_from : (x : ℕ) → ltb x 96 ≡ true → ltb (32 - 0 + 63) x ≡ false
far_from x h = ground arith

near_to : (x i : ℕ) → x < 128 → i < 32 → ltb x 96 ≡ false → ltb (32 - i + 63) x ≡ true
near_to x i h k l = ground arith

module _ (b : Builder) where
  -- For a value of at most 32 bytes behind its RLP header of one byte, and any wires behind it, 33 in
  -- all: the value is read, padded with zeros on the left to 32 bytes.
  pub leaf_value-encode :
      (ds rest : List ℕ)
      → AllField (ds ++ rest)
      → length ds + length rest ≡ 32
      → leaf_value b ((128 + length ds) ∷ (ds ++ rest)) ≡ some (replicate (32 - length ds) 0 ++ ds)
  unfolding leaf_value short_string_len
  leaf_value-encode ds rest f size =
      let n = length ds in
      let l = length-append ds rest in
      let s : b.sub (128 + n) 128 ≡ n =
        sub_small b (128 + n) 128 (omega arith) (omega arith) ∙ omega arith in
      rw (s, take_last_32 (128 + n) (ds ++ rest) (omega arith))
        (normalize_left_lem b (record { arr = ds ++ rest; real_len = n }) 32 f (omega arith)
            (omega arith) (omega arith)
          ∙ ap (λ r. some (replicate (32 - n) 0 ++ r)) (take_front ds rest n refl))

  -- The comparison of an item with the length that a byte below 0x80 gives.
  below_header :
      (x jt : ℕ)
      → x < 128
      → jt ≤ 32
      → 0 < jt
      → less_than_or_equal_to b jt (b.sub x 128) 6 ≡ (if ltb (jt + 63) x then some false else none)
  unfolding less_than_or_equal_to
  below_header x jt h k pos = elim (Bool-cases (ltb x 127)) [
    | inl lower ↦
        let m = 127 - x in
        let p : 0 < m = omega (arith, ltb→lt x 127 lower) in
        let e : b.add (b.sub x 128) 1 ≡ order - m =
          omega (arith, b.add_lem (b.sub x 128) 1, b.sub_lem x 128, ltb→lt x 127 lower) in
        rw e (elim (Bool-cases (ltb (jt + 63) x)) [
          | inl near ↦
              rw near (
                less_than_negative b jt m 6 (omega arith) p
                  (omega (arith, ltb→lt (jt + 63) x near)))
          | inr far ↦ rw far (
              less_than_far b jt m 6 (omega arith) p (omega (arith, not_less (jt + 63) x far))
                (omega arith))
        ])
    | inr last ↦
        let e : b.add (b.sub x 128) 1 ≡ 0 =
          omega (arith, b.add_lem (b.sub x 128) 1, b.sub_lem x 128, not_less x 127 last) in
        let t : ltb (jt + 63) x ≡ true = lt→ltb (jt + 63) x (omega (arith, not_less x 127 last)) in
        rw (e, t)
          (less_than_lem b jt 0 6 (omega arith) (omega arith) (omega arith) (omega arith)
              (omega arith)
            ∙ ap some (none_below jt))
  ]

  item :
      (x : ℕ) (rest : List ℕ) (i : ℕ)
      → x < 128
      → length rest ≡ 32
      → i < 32
      → normalize_item b (record { arr = rest; real_len = b.sub x 128 }) 32 i
        ≡ (if ltb (32 - i + 63) x then some 0 else none)
  unfolding normalize_item
  item x rest i h size k =
      let jt : b.sub 32 i ≡ 32 - i = sub_small b 32 i (omega arith) (omega arith) in
      rw (jt, size, bit_length-32, below_header x (32 - i) h (omega arith) (omega arith))
        (elim (Bool-cases (ltb (32 - i + 63) x)) [
          | inl t ↦ rw t (ap some (b.select_lem false _ 0))
          | inr t ↦ rw t refl
        ])

  -- A value of one byte below 0x80, which is its own encoding, has no header: with any 32
  -- wires behind it, from 0x60 on the value is read as 0, and below it no assignment satisfies the
  -- circuit.
  pub leaf_value-single_byte :
      (x : ℕ) (rest : List ℕ)
      → x < 128
      → length rest ≡ 32
      → leaf_value b (x ∷ rest) ≡ (if ltb x 96 then none else some (replicate 32 0))
  unfolding leaf_value short_string_len normalize_left
  leaf_value-single_byte x rest h size =
      let v : VectorWire = record { arr = rest; real_len = b.sub x 128 } in
      rw (take_last_32 x rest size) (elim (Bool-cases (ltb x 96)) [
        | inl low ↦ rw low (
            build_array-none 31 (normalize_item b v 32)
              (item x rest 0 h size (omega arith) ∙ rw (far_from x low) refl))
        | inr high ↦ rw high (
            build_array_lem 32 (normalize_item b v 32) (λ i. 0)
              (λ i k. item x rest i h size k ∙ rw (near_to x i h k high) refl))
      ])
