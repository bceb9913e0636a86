-- ===== src/Array/Padding.antt =====
-- Vectors with a dynamic length: left padding, search for a vector, and the padding of data.
use native.Mathlib.Nat.{sub-zero, add-zero, zero-add}
use euclid_database.Prelude.{
  ℕ, suc, ◌+◌, ◌-◌, ◌^◌, ◌≤◌, ◌<◌, ◌≡◌, refl, Bool, true, false, List, [], ◌∷◌, ◌++◌, some, ltb,
  leb, ◌==◌, length, get_or, take, drop, replicate, arith, build_array_lem, create_array,
  create_from, create_array-slice, create_from-append, create_from-replicate, create_from_shift,
  create_from_ext, drop-cons, take-nil, subst, ap, ◌∙◌, ◌↔◌, ◌&&◌, ◌||◌, bit_length, bit_length-lt,
  bit_length-le, Bool-cases, inl, inr, if◌then◌else◌, length-take, length-drop,
}
use euclid_database.Plonky2.{Builder}
use euclid_database.Plonky2.Laws.{add_small, sub_small}
use euclid_database.Utils.Compare.{less_than, less_than_or_equal_to}
use euclid_database.Utils.Compare.Laws.{less_than_lem}
use euclid_database.Array.{VectorWire}
use euclid_database.Array.Access.{AllField, value_at_lem, value_at_failover_lem}
use euclid_database.Array.Reads.{same, same_iff, some-true}
use euclid_database.Array.Vectors.{
  normalize_item, normalize_left, contains_vector_loop, contains_vector,
}

same-nil : (xs : List ℕ) → same xs [] ≡ true
same-nil [] = refl
same-nil (x ∷ xs) = refl

abbrev padded_item : List ℕ → ℕ → ℕ → ℕ → ℕ
padded_item arr pad_len n i = if leb (pad_len - i) n then get_or arr (n - (pad_len - i)) 0 else 0

padded_data :
    (arr : List ℕ) (d n j : ℕ) → j < n → padded_item arr (d + n) n (d + j) ≡ get_or arr (0 + j) 0
padded_data arr d n j h =
    let e : d + n - (d + j) ≡ n - j = omega arith in
    let e' : n - (n - j) ≡ 0 + j = omega arith in
    let le : leb (n - j) n ≡ true = ground arith in rw (e, le, e') refl

left_padded :
    (arr : List ℕ) (d n : ℕ)
    → n ≤ length arr
    → create_array (d + n) (padded_item arr (d + n) n) ≡ replicate d 0 ++ take n arr
left_padded arr d n h =
    let item = padded_item arr (d + n) n in
    let zeros : create_from 0 d item ≡ replicate d 0 =
      create_from-replicate 0 d item 0 λ j p q. ground arith in
    let items : create_from d n item ≡ take n arr =
      subst (λ k. create_from k n item ≡ take n arr) (add-zero d)
        (create_from_shift d 0 n item
          ∙ create_from_ext 0 n (λ j. item (d + j)) (λ j. get_or arr (0 + j) 0)
              (λ j p q. padded_data arr d n j (omega arith))
          ∙ create_array-slice arr 0 n 0 (omega arith)) in
    create_from-append 0 d n item ∙ rw (zero-add d, zeros, items) refl

module _ (b : Builder) where
  -- Comparison of numbers below the size of an array, on as many bits as the size takes.
  less_than_size :
      (x y size : ℕ)
      → size < 2 ^ 61
      → x ≤ size
      → y ≤ size + 1
      → less_than b x y (bit_length size) ≡ some (ltb x y)
  less_than_size x y size small hx hy =
      less_than_lem b x y (bit_length size) (omega (arith, bit_length-le size 61 small))
        (omega arith) (omega arith) (omega (arith, bit_length-lt size))
        (omega (arith, bit_length-lt size))

  normalize_item_lem :
      (v : VectorWire) (pad_len i : ℕ)
      → AllField v.arr
      → length v.arr < 2 ^ 61
      → pad_len ≤ length v.arr
      → v.real_len ≤ pad_len
      → i < pad_len
      → normalize_item b v pad_len i ≡ some (padded_item v.arr pad_len v.real_len i)
  unfolding normalize_item less_than_or_equal_to
  normalize_item_lem v pad_len i f small fits short h =
      let lt : less_than b (pad_len - i) (v.real_len + 1) (bit_length (length v.arr))
          ≡ some (leb (pad_len - i) v.real_len) =
        less_than_size (pad_len - i) (v.real_len + 1) (length v.arr) small (omega arith)
          (omega arith)
        ∙ ground arith in
      rw
        (
          sub_small b pad_len i (omega arith) (omega arith),
          add_small b v.real_len 1 (omega arith),
          lt,
          value_at_failover_lem b v.arr (b.sub v.real_len (pad_len - i)) f,
          b.select_lem (leb (pad_len - i) v.real_len),
        )
        (elim (Bool-cases (leb (pad_len - i) v.real_len)) [
          | inl le ↦ rw (le, sub_small b v.real_len (pad_len - i) (ground arith) (omega arith)) refl
          | inr gt ↦ rw gt refl
        ])

  -- `normalize_left` keeps the data in order behind as many zeros as fill the length, whatever the
  -- array holds behind the data.
  pub normalize_left_lem :
      (v : VectorWire) (pad_len : ℕ)
      → AllField v.arr
      → length v.arr < 2 ^ 61
      → pad_len ≤ length v.arr
      → v.real_len ≤ pad_len
      → normalize_left b v pad_len
        ≡ some (replicate (pad_len - v.real_len) 0 ++ take v.real_len v.arr)
  unfolding normalize_left
  normalize_left_lem v pad_len f small fits short =
      let d = pad_len - v.real_len in
      let e : d + v.real_len ≡ pad_len = omega arith in
      build_array_lem pad_len (normalize_item b v pad_len) (padded_item v.arr pad_len v.real_len)
        (λ i h. normalize_item_lem v pad_len i f small fits short h)
      ∙ ap some (
          subst
            (λ k.
              create_array k (padded_item v.arr k v.real_len)
              ≡ replicate d 0 ++ take v.real_len v.arr)
            e (left_padded v.arr d v.real_len (omega arith)))

  contains_vector_loop_lem :
      (self sub : List ℕ) (size real_len at i : ℕ) (t : Bool)
      → AllField self
      → length self < 2 ^ 61
      → i + length sub ≤ size
      → at + size ≤ length self
      → real_len ≤ size
      → contains_vector_loop b self sub size real_len at i t
        ≡ some (t && same (take (real_len - i) (drop (at + i) self)) (take (real_len - i) sub))
  unfolding contains_vector_loop
  contains_vector_loop_lem self [] size real_len at i t f small h fits short =
      rw (take-nil (real_len - i), same-nil (take (real_len - i) (drop (at + i) self)))
        (ground arith)
  contains_vector_loop_lem self (el ∷ sub) size real_len at i t f small h fits short =
      let rest = λ (t' : Bool).
        contains_vector_loop_lem self sub size real_len at (i + 1) t' f small (omega arith) fits
          short in
      let item = get_or self (at + i) 0 in
      let next : at + (i + 1) ≡ suc (at + i) = omega arith in
      elim (Bool-cases (ltb i real_len)) [
        | inl within ↦
            let m : real_len - i ≡ suc (real_len - (i + 1)) = ground arith in
            rw
              (
                less_than_size i real_len size (omega arith) (omega arith) (omega arith),
                within,
                add_small b at i (omega arith),
                value_at_lem b self (at + i) f (omega arith),
                b.is_equal_lem item el,
                b.not_bool_lem true,
                b.and_bool_lem (item == el) true,
                b.or_bool_lem (item == el && true) false,
                b.and_bool_lem t (item == el && true || false),
                rest (t && (item == el && true || false)),
                m,
                drop-cons self (at + i) 0 (omega arith),
                next,
              )
              (ground arith)
        | inr past ↦
            let m : real_len - i ≡ 0 = ground arith in
            let m' : real_len - (i + 1) ≡ 0 = ground arith in
            rw
              (
                less_than_size i real_len size (omega arith) (omega arith) (omega arith),
                past,
                add_small b at i (omega arith),
                value_at_lem b self (at + i) f (omega arith),
                b.not_bool_lem false,
                b.or_bool_lem (b.and_bool (b.is_equal item el) false) true,
                b.and_bool_lem t _,
                rest _,
                m,
                m',
              )
              (ground arith)
      ]

  -- `contains_vector` is satisfied where the whole capacity of `sub` lies within the array, and
  -- tells whether the data of `sub` stands at the index.
  pub contains_vector_iff :
      (self : List ℕ) (sub : VectorWire) (at : ℕ)
      → AllField self
      → length self < 2 ^ 61
      → at + length sub.arr ≤ length self
      → sub.real_len ≤ length sub.arr
      → (contains_vector b self sub at ≡ some true)
        ↔ (take sub.real_len (drop at self) ≡ take sub.real_len sub.arr)
  unfolding contains_vector
  contains_vector_iff self sub at f small fits short =
      let n = sub.real_len in
      let s =
        same_iff (take n (drop at self)) (take n sub.arr) (
          omega
            (arith, length-take n (drop at self), length-take n sub.arr, length-drop at self)) in
      rw
        (
          contains_vector_loop_lem self sub.arr (length sub.arr) n at 0 true f small (omega arith)
              fits short,
          sub-zero n,
          add-zero at,
        )
        ((λ p. s.0 (some-true p)), λ p. ap some (s.1 p))
