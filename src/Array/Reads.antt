-- ===== src/Array/Reads.antt =====
-- Reading a slice: `extract_array` and `contains_array`.
use euclid_database.Prelude.{
  ℕ, ◌+◌, ◌^◌, ◌≤◌, ◌<◌, ◌≡◌, refl, Bool, true, false, Bool-cases, inl, inr, List, [], ◌∷◌, some,
  Circuit, leb, ◌==◌, length, get_or, take, drop, arith, build_array_lem, create_array-slice,
  length-slice, sym, ap, ◌∙◌, ◌↔◌, ◌&&◌,
}
use euclid_database.Plonky2.{Builder}
use euclid_database.Plonky2.Laws.{add_small}
use euclid_database.Utils.Compare.Laws.{less_than_or_equal_63}
use euclid_database.Array.{extract_item, extract_array, equals, equals_loop, contains_array}
use euclid_database.Array.Access.{AllField, value_at_lem}

-- The same lists, item by item.
abbrev pub same : List ℕ → List ℕ → Bool
same (x ∷ xs) (y ∷ ys) = x == y && same xs ys
same [] ys = true
same (x ∷ xs) [] = true

pub same_iff : (xs ys : List ℕ) → length xs ≡ length ys → (same xs ys ≡ true) ↔ (xs ≡ ys)
same_iff [] [] h = ((λ p. refl), λ p. refl)
same_iff [] (y ∷ ys) h = absurd (omega arith)
same_iff (x ∷ xs) [] h = absurd (omega arith)
same_iff (x ∷ xs) (y ∷ ys) h =
    let ih : (same xs ys ≡ true) ↔ (xs ≡ ys) = same_iff xs ys (omega arith) in
    (λ p. ground (arith, ih.0), λ p. ground (arith, ih.1))

pub some-true : {c : Bool} → ◌≡◌ {A = Circuit Bool} (some c) (some true) → c ≡ true
some-true p = cc

module _ (b : Builder) where
  extract_item_lem :
      (self : List ℕ) (at n i : ℕ)
      → AllField self
      → at + n ≤ length self
      → length self < 2 ^ 61
      → i < n
      → extract_item b self at (b.add at n) i ≡ some (get_or self (at + i) 0)
  unfolding extract_item
  extract_item_lem self at n i f fits small h =
      let e : leb (at + i) (at + n) ≡ true = ground arith in
      let m : b.mul 1 (at + i) ≡ at + i = omega (arith, b.mul_lem 1 (at + i)) in
      rw
        (
          add_small b at n (omega arith),
          add_small b at i (omega arith),
          less_than_or_equal_63 b (at + i) (at + n) (omega arith) (omega arith),
          e,
          m,
        )
        (value_at_lem b self (at + i) f (omega arith))

  -- A slice that lies within the array is read whole and in order.
  pub extract_array_lem :
      (self : List ℕ) (at n : ℕ)
      → AllField self
      → at + n ≤ length self
      → length self < 2 ^ 61
      → extract_array b self at n ≡ some (take n (drop at self))
  unfolding extract_array
  extract_array_lem self at n f fits small =
      build_array_lem n (extract_item b self at (b.add at n)) (λ i. get_or self (at + i) 0)
        (λ i h. extract_item_lem self at n i f fits small h)
      ∙ ap some (create_array-slice self at n 0 fits)

  equals_loop_lem : (xs ys : List ℕ) (res : Bool) → equals_loop b xs ys res ≡ (res && same xs ys)
  unfolding equals_loop
  equals_loop_lem [] ys res = ground arith
  equals_loop_lem (x ∷ xs) [] res = ground arith
  equals_loop_lem (x ∷ xs) (y ∷ ys) res =
      rw (b.is_equal_lem x y, b.and_bool_lem res (x == y), equals_loop_lem xs ys (res && x == y))
        (ground arith)

  -- `equals` decides the equality of arrays of one size.
  pub equals_iff : (xs ys : List ℕ) → length xs ≡ length ys → (equals b xs ys ≡ true) ↔ (xs ≡ ys)
  unfolding equals
  equals_iff xs ys h = rw (equals_loop_lem xs ys true) (same_iff xs ys h)

  -- For an index at which the slice lies within an array of field elements, below 2^61 of them:
  -- `contains_array` is satisfied, with true exactly if the slice is the given array, and with false
  -- exactly if it is not.
  pub contains_array_iff :
      (self sub : List ℕ) (at : ℕ)
      → AllField self
      → at + length sub ≤ length self
      → length self < 2 ^ 61
      → ((contains_array b self sub at ≡ some true) ↔ (take (length sub) (drop at self) ≡ sub))
        × ((contains_array b self sub at ≡ some false)
            ↔ (¬ (take (length sub) (drop at self) ≡ sub)))
  unfolding contains_array
  contains_array_iff self sub at f fits small =
      let e : (equals b sub (take (length sub) (drop at self)) ≡ true)
          ↔ (sub ≡ take (length sub) (drop at self)) =
        equals_iff sub _ (sym (length-slice self at (length sub) fits)) in
      rw (extract_array_lem self at (length sub) f fits small) (
        ((λ p. sym (e.0 (some-true p))), λ p. ap some (e.1 (sym p))),
        elim (Bool-cases (equals b sub (take (length sub) (drop at self)))) [
          | inl t ↦ rw t ((λ p. cc), λ p. absurd (p (sym (e.0 t))))
          | inr t ↦ rw t ((λ p q. let s = e.1 (sym q) in cc), λ p. refl)
        ],
      )
