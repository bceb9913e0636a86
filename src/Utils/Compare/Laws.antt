-- ===== src/Utils/Compare/Laws.antt =====
-- The comparison gadgets decide the order of numbers in their range.
use euclid_database.Prelude.{
  ℕ, suc, ◌+◌, ◌-◌, ◌*◌, ◌/◌, ◌%◌, ◌^◌, ◌≤◌, ◌<◌, ◌≡◌, refl, Bool, true, false, not, List, [], ◌∷◌,
  ◌>>=◌, some, none, ltb, leb, lt→ltb, ltb→lt, Bool-cases, inl, inr, ◌==◌, length, bit, arith,
  to_bits, get_or-to_bits, from_bits, from_bits-to_bits, length-to_bits, pow_two-suc, pow_mono,
  if◌then◌else◌, ap, ◌∙◌,
}
use native.Mathlib.Nat.{div-eq_of_lt, div-eq_of_lt-le, mod-eq_of_lt}
use native.Mathlib.Numerals.{add-one}
use euclid_database.Plonky2.{Builder, order, IsField}
use euclid_database.Plonky2.Laws.{sub-IsField, add_small}
use euclid_database.Utils.Compare.{
  bits_loop, bits_to_num, num_to_bits, less_than, greater_than, less_than_or_equal_to,
  greater_than_or_equal_to,
}

quotient_one : (l m : ℕ) → m ≤ l → l < 2 * m → l / m ≡ 1
quotient_one l m low high =
    let p : 1 * m ≤ l = omega arith in
    let q : l < (1 + 1) * m = omega arith in div-eq_of_lt-le {k = 1} m p q

-- The top bit of an (n + 1)-bit number.
top_bit : (n l : ℕ) → l < 2 ^ suc n → not (l / 2 ^ n % 2 == 1) ≡ ltb l (2 ^ n)
top_bit n l h = elim (Bool-cases (ltb l (2 ^ n))) [
  | inl small ↦ rw (small, div-eq_of_lt (ltb→lt l (2 ^ n) small)) refl
  | inr large ↦
      rw (large, quotient_one l (2 ^ n) (ground arith) (omega (arith, pow_two-suc n))) refl
]

scale_bit : (c : Bool) (m : ℕ) → m * bit c ≤ m
scale_bit false m = omega arith
scale_bit true m = omega arith

module _ (b : Builder) where
  -- Where x has exactly one representation by n bits, `num_to_bits` returns its binary digits;
  -- where it has none, no assignment satisfies it.
  pub num_to_bits_lem :
      (n x : ℕ)
      → IsField x
      → 2 ^ n ≤ x + order
      → num_to_bits b n x ≡ (if ltb x (2 ^ n) then some (to_bits n x) else none)
  unfolding num_to_bits
  num_to_bits_lem n x f u = elim (Bool-cases (ltb x (2 ^ n))) [
    | inl fits ↦
        rw (b.range_check_lem x n f, fits, b.split_le_lem x n f (ltb→lt x (2 ^ n) fits) u) refl
    | inr large ↦ rw (b.range_check_lem x n f, large) refl
  ]

  less_than_linear :
      (x y n l : ℕ)
      → n < 64
      → b.sub (b.add x (2 ^ n)) y ≡ l
      → 2 ^ suc n ≤ l + order
      → less_than b x y n ≡ (if ltb l (2 ^ suc n) then some (ltb l (2 ^ n)) else none)
  unfolding less_than
  less_than_linear x y n l h e u =
      let f : IsField l = omega (arith, e, sub-IsField b (b.add x (2 ^ n)) y) in
      elim (Bool-cases (ltb l (2 ^ suc n))) [
        | inl fits ↦
            rw
              (
                lt→ltb n 64 h,
                e,
                add-one,
                num_to_bits_lem (suc n) l f u,
                fits,
                b.not_bool_lem,
                get_or-to_bits (suc n) n l (omega arith),
                top_bit n l (ltb→lt _ _ fits),
              )
              refl
        | inr large ↦ rw (lt→ltb n 64 h, e, add-one, num_to_bits_lem (suc n) l f u, large) refl
      ]

  -- Two wires whose difference has n bits are compared as numbers.
  pub less_than_lem :
      (x y n : ℕ)
      → n < 63
      → IsField x
      → IsField y
      → y ≤ x + 2 ^ n
      → x < y + 2 ^ n
      → less_than b x y n ≡ some (ltb x y)
  less_than_lem x y n h fx fy low high =
      let bound : 2 ^ suc n ≤ 2 ^ 63 = pow_mono h in
      let e : b.sub (b.add x (2 ^ n)) y ≡ x + 2 ^ n - y =
        omega (arith, b.sub_lem (b.add x (2 ^ n)) y, b.add_lem x (2 ^ n), pow_two-suc n) in
      rw (less_than_linear x y n (x + 2 ^ n - y) (omega arith) e (omega arith))
        (ground (arith, pow_two-suc n))

  -- No n-bit wire is below a small negative number: the field's top stands for those.
  pub less_than_negative :
      (x k n : ℕ) → n < 63 → 0 < k → x + k < 2 ^ n → less_than b x (order - k) n ≡ some false
  less_than_negative x k n h pos small =
      let bound : 2 ^ suc n ≤ 2 ^ 63 = pow_mono h in
      let e : b.sub (b.add x (2 ^ n)) (order - k) ≡ x + 2 ^ n + k =
        omega
          (arith, b.sub_lem (b.add x (2 ^ n)) (order - k), b.add_lem x (2 ^ n), pow_two-suc n) in
      rw (less_than_linear x (order - k) n (x + 2 ^ n + k) (omega arith) e (omega arith))
        (ground (arith, pow_two-suc n))

  -- Where the difference has more bits, nothing satisfies the comparison.
  pub less_than_far :
      (x k n : ℕ)
      → n < 62
      → 0 < k
      → 2 ^ n ≤ x + k
      → x + k < 2 ^ 62
      → less_than b x (order - k) n ≡ none
  less_than_far x k n h pos large small =
      let bound : 2 ^ suc n ≤ 2 ^ 62 = pow_mono h in
      let e : b.sub (b.add x (2 ^ n)) (order - k) ≡ x + 2 ^ n + k =
        omega
          (arith, b.sub_lem (b.add x (2 ^ n)) (order - k), b.add_lem x (2 ^ n), pow_two-suc n) in
      rw (less_than_linear x (order - k) n (x + 2 ^ n + k) (omega arith) e (omega arith))
        (ground (arith, pow_two-suc n))

  -- The 63-bit comparison, whose 64-bit sum is unique away from the top of the field.
  pub less_than_63 : (x y : ℕ) → x < 2 ^ 62 → y < 2 ^ 62 → less_than b x y 63 ≡ some (ltb x y)
  less_than_63 x y hx hy =
      let e : b.sub (b.add x (2 ^ 63)) y ≡ x + 2 ^ 63 - y =
        omega (arith, b.sub_lem (b.add x (2 ^ 63)) y, b.add_lem x (2 ^ 63)) in
      rw (less_than_linear x y 63 (x + 2 ^ 63 - y) (omega arith) e (omega arith)) (ground arith)

  pub less_than_or_equal_63 :
      (x y : ℕ) → x < 2 ^ 61 → y < 2 ^ 61 → less_than_or_equal_to b x y 63 ≡ some (leb x y)
  unfolding less_than_or_equal_to
  less_than_or_equal_63 x y hx hy =
      rw (add_small b y 1 (omega arith))
        (rw (less_than_63 x (y + 1) (omega arith) (omega arith)) (ground arith))

  -- On wires of n bits, with n below 63, the four gadgets are satisfied and decide the four orders.
  pub comparisons :
      (x y n : ℕ)
      → n < 63
      → x < 2 ^ n
      → y < 2 ^ n
      → (less_than b x y n ≡ some (ltb x y))
        × (greater_than b x y n ≡ some (ltb y x))
        × (less_than_or_equal_to b x y n ≡ some (leb x y))
        × (greater_than_or_equal_to b x y n ≡ some (leb y x))
  unfolding greater_than less_than_or_equal_to greater_than_or_equal_to
  comparisons x y n h hx hy =
      let bound : 2 ^ suc n ≤ 2 ^ 63 = pow_mono h in
      let small : 2 * 2 ^ n ≤ 2 ^ 63 = omega (arith, pow_two-suc n) in
      let le : (u v : ℕ) → u < 2 ^ n → v < 2 ^ n → less_than b u (b.add v 1) n ≡ some (leb u v) =
        λ u v hu hv. rw (add_small b v 1 (omega arith)) (
          rw (less_than_lem u (v + 1) n h (omega arith) (omega arith) (omega arith) (omega arith))
            (ground arith)) in
      (
        less_than_lem x y n h (omega arith) (omega arith) (omega arith) (omega arith),
        less_than_lem y x n h (omega arith) (omega arith) (omega arith) (omega arith),
        le x y hx hy,
        le y x hy hx,
      )

  bits_loop_lem :
      (bits : List Bool) (res n : ℕ)
      → n + length bits ≤ 63
      → res < 2 ^ n
      → bits_loop b bits res (2 ^ n) ≡ res + 2 ^ n * from_bits bits
  unfolding bits_loop
  bits_loop_lem [] res n h f = omega arith
  bits_loop_lem (c ∷ bits) res n h f =
      let k : suc n ≤ 63 = omega arith in
      let bound : 2 ^ suc n ≤ 2 ^ 63 = pow_mono k in
      let here : 2 ^ n * bit c ≤ 2 ^ n = scale_bit c (2 ^ n) in
      let e : b.mul_add (2 ^ n) (bit c) res ≡ 2 ^ n * bit c + res =
        b.mul_add_lem (2 ^ n) (bit c) res ∙ mod-eq_of_lt (omega (arith, pow_two-suc n)) in
      let d : b.add (2 ^ n) (2 ^ n) ≡ 2 ^ suc n =
        add_small b (2 ^ n) (2 ^ n) (omega (arith, pow_two-suc n)) ∙ omega (arith, pow_two-suc n) in
      rw (e, d)
        (bits_loop_lem bits (2 ^ n * bit c + res) (suc n) (omega arith)
            (omega (arith, pow_two-suc n))
          ∙ rw (pow_two-suc n) (omega arith))

  -- `bits_to_num` is the inverse of `num_to_bits`.
  pub bits_to_num-num_to_bits :
      (n x : ℕ)
      → n ≤ 63
      → x < 2 ^ n
      → (num_to_bits b n x >>= λ bits. some (bits_to_num b bits)) ≡ some x
  unfolding bits_to_num
  bits_to_num-num_to_bits n x h f =
      let bound : 2 ^ n ≤ 2 ^ 63 = pow_mono h in
      rw (num_to_bits_lem n x (omega arith) (omega arith), lt→ltb x (2 ^ n) f)
        (ap some (
          bits_loop_lem (to_bits n x) 0 0 (omega (arith, length-to_bits n x)) (omega arith)
          ∙ omega (arith, from_bits-to_bits n x f)))
