-- ===== src/Array/Access.antt =====
-- Reading one item of an array of wires.
use euclid_database.Prelude.{
  ℕ, zero, suc, ◌+◌, ◌-◌, ◌^◌, ◌≤◌, ◌<◌, ◌≡◌, refl, bit_and, bit, Bool, true, false, List, [], ◌∷◌,
  some, none, ltb, lt→ltb, ltb→lt, ◌==◌, length, get_or, All, arith, Bool-cases, if◌then◌else◌, ap,
  sym, ◌||◌, ◌≢◌, subst, inl, inr, ◌⊎◌, ◌∙◌,
}
use euclid_database.Plonky2.{Builder, IsField}
use euclid_database.Utils.Pack.Laws.{AllBytes}
use euclid_database.Array.{failover_loop, value_at_failover, value_at}

-- Every value is an element of the field.
abbrev pub AllField : List ℕ → Type 0
AllField = All IsField

pub AllBytes-AllField : (bytes : List ℕ) → AllBytes bytes → AllField bytes
AllBytes-AllField [] h = tt
AllBytes-AllField (x ∷ bytes) h = (omega (arith, h.0), AllBytes-AllField bytes h.1)

-- Below the limit, the bit trick of `value_at` passes only at 0 and the powers of two.
abbrev exponent : ℕ → ℕ
exponent n =
    if ltb n 2
    then 0
    else (if ltb n 4
        then 1
        else (if ltb n 8 then 2 else (if ltb n 16 then 3 else (if ltb n 32 then 4 else 5))))

abbrev passes_as_power : ℕ → Bool
passes_as_power n = if bit_and n (n - 1) == 0 then n == 0 || n == 2 ^ exponent n else true

-- The test on the fuel numbers from i on.
powers_from : ℕ → ℕ → Bool
powers_from i zero = true
powers_from i (suc fuel) = if passes_as_power i then powers_from (i + 1) fuel else false

powers_from_head :
    (i fuel : ℕ)
    → powers_from i (suc fuel) ≡ true
    → (passes_as_power i ≡ true) × (powers_from (i + 1) fuel ≡ true)
unfolding powers_from
powers_from_head i fuel h = by_test (passes_as_power i) h
  where
    by_test :
        (c : Bool)
        → (if c then powers_from (i + 1) fuel else false) ≡ true
        → (c ≡ true) × (powers_from (i + 1) fuel ≡ true)
    by_test true h = (refl, h)
    by_test false h = cc

powers_from_lem :
    (i fuel j : ℕ) → powers_from i fuel ≡ true → j < fuel → passes_as_power (i + j) ≡ true
powers_from_lem i zero j h lt = absurd (omega arith)
powers_from_lem i (suc fuel) zero h lt =
    let e : i + 0 ≡ i = omega arith in ap passes_as_power e ∙ (powers_from_head i fuel h).0
powers_from_lem i (suc fuel) (suc j) h lt =
    let e : i + suc j ≡ i + 1 + j = omega arith in
    ap passes_as_power e
    ∙ powers_from_lem (i + 1) fuel j (powers_from_head i fuel h).1 (omega arith)

power_table : powers_from 0 64 ≡ true
unfolding powers_from
power_table = refl

power_of_two : (n : ℕ) → 0 < n → n < 64 → (bit_and n (n - 1) == 0) ≡ true → n ≡ 2 ^ exponent n
power_of_two n pos small h =
    let z : 0 + n ≡ n = omega arith in
    let t : passes_as_power n ≡ true =
      ap passes_as_power (sym z) ∙ powers_from_lem 0 64 n power_table small in
    power_of n (2 ^ exponent n) pos (rw h at t)
  where
    power_of : (n p : ℕ) → 0 < n → (n == 0 || n == p) ≡ true → n ≡ p
    power_of n p pos t = ground arith

get_or_outside : (arr : List ℕ) (i : ℕ) → length arr ≤ i → get_or arr i 0 ≡ 0
get_or_outside [] i h = refl
get_or_outside (x ∷ arr) zero h = absurd (omega arith)
get_or_outside (x ∷ arr) (suc i) h = get_or_outside arr i (omega arith)

module _ (b : Builder) where
  step_miss :
      (i at el acc : ℕ) → i ≢ at → IsField acc → b.mul_add (bit (b.is_equal i at)) el acc ≡ acc
  step_miss i at el acc h f =
      let e : b.is_equal i at ≡ false = b.is_equal_lem i at ∙ ground arith in
      rw e (omega (arith, b.mul_add_lem 0 el acc))

  step_hit : (i el : ℕ) → IsField el → b.mul_add (bit (b.is_equal i i)) el 0 ≡ el
  step_hit i el f =
      let e : b.is_equal i i ≡ true = b.is_equal_lem i i ∙ ground arith in
      rw e (omega (arith, b.mul_add_lem 1 el 0))

  failover_past :
      (arr : List ℕ) (i at acc : ℕ) → at < i → IsField acc → failover_loop b arr i at acc ≡ acc
  unfolding failover_loop
  failover_past [] i at acc h f = refl
  failover_past (el ∷ arr) i at acc h f =
      rw (step_miss i at el acc (λ e. omega arith) f)
        (failover_past arr (i + 1) at acc (omega arith) f)

  failover_hit :
      (arr : List ℕ) (i k at : ℕ)
      → i + k ≡ at
      → AllField arr
      → failover_loop b arr i at 0 ≡ get_or arr k 0
  unfolding failover_loop
  failover_hit [] i k at e f = refl
  failover_hit (el ∷ arr) i zero at e f =
      let same : i ≡ at = omega arith in
      subst (λ m. failover_loop b arr (i + 1) m (b.mul_add (bit (b.is_equal i m)) el 0) ≡ el) same
        (rw (step_hit i el f.0) (failover_past arr (i + 1) i el (omega arith) f.0))
  failover_hit (el ∷ arr) i (suc k) at e f =
      rw (step_miss i at el 0 (λ q. omega arith) (omega arith))
        (failover_hit arr (i + 1) k at (omega arith) f.1)

  -- At any index `value_at_failover` is the item, and 0 beyond the array.
  pub value_at_failover_lem :
      (arr : List ℕ) (at : ℕ) → AllField arr → value_at_failover b arr at ≡ get_or arr at 0
  unfolding value_at_failover
  value_at_failover_lem arr at f = failover_hit arr 0 at at (omega arith) f

  -- At an index of the array `value_at` is satisfied and returns the item, whichever of its two
  -- implementations the size chooses.
  pub value_at_lem :
      (arr : List ℕ) (at : ℕ)
      → AllField arr
      → at < length arr
      → value_at b arr at ≡ some (get_or arr at 0)
  unfolding value_at
  value_at_lem arr at f h = elim (Bool-cases (ltb (length arr) 64)) [
    | inl small ↦ elim (Bool-cases (bit_and (length arr) (length arr - 1) == 0)) [
      | inl power ↦
          let e : length arr ≡ 2 ^ exponent (length arr) =
            power_of_two (length arr) (omega arith) (ltb→lt _ _ small) power in
          rw
            (
              small,
              power,
              b.random_access_lem at arr (exponent (length arr)) e,
              lt→ltb at (length arr) h,
            )
            refl
      | inr other ↦ rw (small, other, value_at_failover_lem arr at f) refl
    ]
    | inr large ↦ rw (large, value_at_failover_lem arr at f) refl
  ]

  -- Out of the array, `value_at` is 0 or unsatisfiable, by the implementation that the size chooses.
  pub value_at_outside :
      (arr : List ℕ) (at : ℕ)
      → AllField arr
      → 0 < length arr
      → length arr ≤ at
      → (value_at b arr at ≡ none) ⊎ (value_at b arr at ≡ some 0)
  unfolding value_at
  value_at_outside arr at f pos h = elim (Bool-cases (ltb (length arr) 64)) [
    | inl small ↦ elim (Bool-cases (bit_and (length arr) (length arr - 1) == 0)) [
      | inl power ↦
          let e : length arr ≡ 2 ^ exponent (length arr) =
            power_of_two (length arr) pos (ltb→lt _ _ small) power in
          let out : ltb at (length arr) ≡ false = ground arith in
          inl (rw (small, power, b.random_access_lem at arr (exponent (length arr)) e, out) refl)
      | inr other ↦
          inr (rw (small, other, value_at_failover_lem arr at f, get_or_outside arr at h) refl)
    ]
    | inr large ↦ inr (rw (large, value_at_failover_lem arr at f, get_or_outside arr at h) refl)
  ]

  -- In an array too large for random access, `value_at` is satisfied at every index.
  pub value_at_large :
      (arr : List ℕ) (at : ℕ)
      → AllField arr
      → 64 ≤ length arr
      → value_at b arr at ≡ some (get_or arr at 0)
  unfolding value_at
  value_at_large arr at f h =
      let e : ltb (length arr) 64 ≡ false = ground arith in
      rw (e, value_at_failover_lem arr at f) refl
