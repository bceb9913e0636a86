-- ===== src/Array/Slices.antt =====
-- The comparison of leading slices: `enforce_slice_equals` and `is_slice_equals`.
use euclid_database.Prelude.{
  ℕ, suc, ◌+◌, ◌-◌, ◌≤◌, ◌<◌, ◌≡◌, refl, bit, Bool, true, false, List, [], ◌∷◌, some, ◌>>◌, guard,
  ltb, ◌==◌, length, length-take, take, take-nil, arith, ◌∙◌, ◌↔◌, ◌&&◌, Bool-cases, inl, inr,
}
use native.Mathlib.Nat.{sub-zero}
use euclid_database.Plonky2.{Builder}
use euclid_database.Utils.Compare.{less_than}
use euclid_database.Utils.Compare.Laws.{less_than_lem}
use euclid_database.Array.{
  enforce_slice_loop, enforce_slice_equals, is_slice_loop, is_slice_equals, enforce_equal,
}
use euclid_database.Array.Reads.{same, same_iff}

guard-true : (c : Bool) → (guard c ≡ some tt) ↔ (c ≡ true)
guard-true true = ((λ p. refl), λ p. refl)
guard-true false = ((λ p. cc), λ p. cc)

guard-and : (c d : Bool) → (guard (bit c == 1) >> guard d) ≡ guard (c && d)
guard-and true d = refl
guard-and false d = refl

module _ (b : Builder) where
  before_end :
      (i slice_len : ℕ)
      → i < 64
      → slice_len ≤ 64
      → less_than b i slice_len 6 ≡ some (ltb i slice_len)
  before_end i slice_len h k =
      less_than_lem b i slice_len 6 (omega arith) (omega arith) (omega arith) (omega arith)
        (omega arith)

  enforce_slice_loop_lem :
      (xs ys : List ℕ) (i slice_len : ℕ)
      → length xs ≡ length ys
      → i + length xs ≤ 64
      → slice_len ≤ 64
      → enforce_slice_loop b xs ys i slice_len
        ≡ guard (same (take (slice_len - i) xs) (take (slice_len - i) ys))
  unfolding enforce_slice_loop
  enforce_slice_loop_lem [] ys i slice_len e h hs = rw (take-nil (slice_len - i)) refl
  enforce_slice_loop_lem (x ∷ xs) [] i slice_len e h hs = absurd (omega arith)
  enforce_slice_loop_lem (x ∷ xs) (y ∷ ys) i slice_len e h hs =
      let rest = enforce_slice_loop_lem xs ys (i + 1) slice_len (omega arith) (omega arith) hs in
      elim (Bool-cases (ltb i slice_len)) [
        | inl before ↦
            let m : slice_len - i ≡ suc (slice_len - (i + 1)) = ground arith in
            rw
              (
                before_end i slice_len (omega arith) hs,
                before,
                b.is_equal_lem x y,
                b.select_lem true (bit (x == y)) 1,
                b.connect_lem (bit (x == y)) 1,
                rest,
                m,
              )
              (guard-and (x == y) _)
        | inr past ↦
            let m : slice_len - i ≡ 0 = ground arith in
            let m' : slice_len - (i + 1) ≡ 0 = ground arith in
            rw
              (
                before_end i slice_len (omega arith) hs,
                past,
                b.select_lem false (bit (b.is_equal x y)) 1,
                b.connect_lem 1 1,
                rest,
                m,
                m',
              )
              refl
      ]

  -- `enforce_slice_equals` on arrays of at most 64 items: satisfied exactly by equal slices.
  pub enforce_slice_equals_iff :
      (xs ys : List ℕ) (slice_len : ℕ)
      → length xs ≡ length ys
      → length xs ≤ 64
      → slice_len ≤ 64
      → (enforce_slice_equals b xs ys slice_len ≡ some tt) ↔ (take slice_len xs ≡ take slice_len ys)
  unfolding enforce_slice_equals
  enforce_slice_equals_iff xs ys slice_len e h hs =
      let g = guard-true (same (take slice_len xs) (take slice_len ys)) in
      let s =
        same_iff (take slice_len xs) (take slice_len ys)
          (length-take slice_len xs ∙ omega (arith, length-take slice_len ys)) in
      rw (enforce_slice_loop_lem xs ys 0 slice_len e (omega arith) hs, sub-zero slice_len)
        ((λ p. s.0 (g.0 p)), λ p. g.1 (s.1 p))

  is_slice_loop_lem :
      (xs ys : List ℕ) (i slice_len : ℕ) (res : Bool)
      → length xs ≡ length ys
      → i + length xs ≤ 64
      → 0 < length xs
      → slice_len < i + length xs
      → is_slice_loop b xs ys i slice_len res ≡ some true
  unfolding is_slice_loop
  is_slice_loop_lem [] ys i slice_len res e h pos hs = absurd (omega arith)
  is_slice_loop_lem (x ∷ xs) [] i slice_len res e h pos hs = absurd (omega arith)
  is_slice_loop_lem (x ∷ []) (y ∷ []) i slice_len res e h pos hs =
      let past : ltb i slice_len ≡ false = ground arith in
      rw
        (
          before_end i slice_len (omega arith) (omega arith),
          past,
          b.select_lem false (bit (b.is_equal x y)) 1,
          b.new_unsafe_one,
          b.and_bool_lem true true,
        )
        refl
  is_slice_loop_lem (x ∷ []) (y ∷ w ∷ ys) i slice_len res e h pos hs = absurd (omega arith)
  is_slice_loop_lem (x ∷ v ∷ xs) (y ∷ ys) i slice_len res e h pos hs =
      rw (before_end i slice_len (omega arith) (omega arith)) (
        is_slice_loop_lem (v ∷ xs) ys (i + 1) slice_len _ (omega arith) (omega arith) (omega arith)
          (omega arith))

  -- `is_slice_equals` keeps the test of the last item alone, so it answers true for any two arrays
  -- as soon as the slice leaves out the last item.
  pub is_slice_equals-always :
      (xs ys : List ℕ) (slice_len : ℕ)
      → length xs ≡ length ys
      → length xs ≤ 64
      → slice_len < length xs
      → is_slice_equals b xs ys slice_len ≡ some true
  unfolding is_slice_equals
  is_slice_equals-always xs ys slice_len e h hs =
      is_slice_loop_lem xs ys 0 slice_len true e (omega arith) (omega arith) (omega arith)

  -- `enforce_equal` on arrays of one size is satisfied exactly by equal arrays.
  pub enforce_equal_iff :
      (xs ys : List ℕ) → length xs ≡ length ys → (enforce_equal b xs ys ≡ some tt) ↔ (xs ≡ ys)
  unfolding enforce_equal
  enforce_equal_iff [] [] h = ((λ p. refl), λ p. refl)
  enforce_equal_iff [] (y ∷ ys) h = absurd (omega arith)
  enforce_equal_iff (x ∷ xs) [] h = absurd (omega arith)
  enforce_equal_iff (x ∷ xs) (y ∷ ys) h =
      let ih = enforce_equal_iff xs ys (omega arith) in
      rw (b.connect_lem x y) ((λ p. ground (arith, ih.0)), λ p. ground (arith, ih.1))
