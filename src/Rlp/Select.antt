-- ===== src/Rlp/Select.antt =====
-- `quin_selector` and `RlpList::select` read the item at the index.
use euclid_database.Prelude.{
  ℕ, zero, suc, ◌+◌, ◌<◌, ◌≡◌, refl, true, false, List, [], ◌∷◌, sum, length, get_or, All-get_or,
  arith, ◌∙◌, some,
}
use euclid_database.Plonky2.{Builder, IsField}
use euclid_database.Array.Access.{AllField, value_at_lem}
use euclid_database.Rlp.{RlpList, products, quin_selector, select_header}

module _ (b : Builder) where
  products_past : (arr : List ℕ) (i n : ℕ) → n < i → sum (products b arr i n) ≡ 0
  unfolding products
  products_past [] i n h = refl
  products_past (el ∷ arr) i n h =
      let e : b.is_equal i n ≡ false = b.is_equal_lem i n ∙ ground arith in
      rw e (omega (arith, b.mul_lem 0 el, products_past arr (i + 1) n (omega arith)))

  products_hit :
      (arr : List ℕ) (i k n : ℕ)
      → i + k ≡ n
      → AllField arr
      → sum (products b arr i n) ≡ get_or arr k 0
  unfolding products
  products_hit [] i k n e f = refl
  products_hit (el ∷ arr) i zero n e f =
      let t : b.is_equal i n ≡ true = b.is_equal_lem i n ∙ ground arith in
      rw t (omega (arith, b.mul_lem 1 el, f.0, products_past arr (i + 1) n (omega arith)))
  products_hit (el ∷ arr) i (suc k) n e f =
      let t : b.is_equal i n ≡ false = b.is_equal_lem i n ∙ ground arith in
      rw t (omega (arith, b.mul_lem 0 el, products_hit arr (i + 1) k n (omega arith) f.1))

  -- The selector reads the item at the index, and 0 beyond the data.
  pub quin_selector_lem :
      (arr : List ℕ) (n : ℕ) → AllField arr → quin_selector b arr n ≡ get_or arr n 0
  unfolding quin_selector
  quin_selector_lem arr n f = omega (
    arith,
    b.add_many_lem (products b arr 0 n),
    products_hit arr 0 n n (omega arith) f,
    All-get_or IsField arr n 0 f (omega arith),
  )

  -- `RlpList::select` reads the three arrays at one index.
  pub select_header_lem :
      (l : RlpList) (at : ℕ)
      → AllField l.offsets
      → AllField l.lens
      → AllField l.data_types
      → at < length l.offsets
      → at < length l.lens
      → at < length l.data_types
      → select_header b l at
        ≡ some (record {
          len = get_or l.lens at 0;
          offset = get_or l.offsets at 0;
          data_type = get_or l.data_types at 0;
        })
  unfolding select_header
  select_header_lem l at f g h p q r =
      rw
        (
          value_at_lem b l.offsets at f p,
          value_at_lem b l.lens at g q,
          value_at_lem b l.data_types at h r,
        )
        refl
