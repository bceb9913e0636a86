-- ===== src/Plonky2/Laws.antt =====
-- The builder's arithmetic where nothing wraps round the field's order.
use native.Mathlib.Nat.{mod-eq_of_lt}
use euclid_database.Prelude.{
  ℕ, ◌+◌, ◌-◌, ◌*◌, ◌≤◌, ◌<◌, ◌≡◌, refl, Bool, true, false, none, some, Circuit, ◌==◌, ==_iff,
  Bool-cases, inl, inr, arith, bit, ◌∙◌,
}
use euclid_database.Plonky2.{Builder, order, IsField}

module _ (b : Builder) where
  pub add-IsField : (x y : ℕ) → IsField (b.add x y)
  add-IsField x y = omega (arith, b.add_lem x y)

  pub sub-IsField : (x y : ℕ) → IsField (b.sub x y)
  sub-IsField x y = omega (arith, b.sub_lem x y)

  pub add_small : (x y : ℕ) → x + y < order → b.add x y ≡ x + y
  add_small x y h = omega (arith, b.add_lem x y)

  pub sub_small : (x y : ℕ) → y ≤ x → x < order → b.sub x y ≡ x - y
  sub_small x y h k = omega (arith, b.sub_lem x y)

  pub mul_small : (x y : ℕ) → x * y < order → b.mul x y ≡ x * y
  mul_small x y h = b.mul_lem x y ∙ mod-eq_of_lt h

  -- A product by a Boolean wire keeps a field element or drops it.
  pub mul-bit : (c : Bool) (x : ℕ) → IsField x → b.mul (bit c) x ≡ bit c * x
  mul-bit false x h = omega (arith, b.mul_lem 0 x)
  mul-bit true x h = omega (arith, b.mul_lem 1 x)

  pub mul_add-bit :
      (c : Bool) (x y : ℕ) → bit c * x + y < order → b.mul_add (bit c) x y ≡ bit c * x + y
  mul_add-bit false x y h = omega (arith, b.mul_add_lem 0 x y)
  mul_add-bit true x y h = omega (arith, b.mul_add_lem 1 x y)

  pub connect_eq : (x y : ℕ) {u : Unit {0}} → b.connect x y ≡ some u → x ≡ y
  connect_eq x y e = elim (Bool-cases (x == y)) [
    | inl same ↦ (==_iff x y).0 same
    | inr other ↦ absurd (refused (rw (b.connect_lem x y, other) at e))
  ]
    where
      refused : {u : Unit {0}} → ¬ (◌≡◌ {A = Circuit (Unit {0})} none (some u))
      refused e = cc

  pub connect_same : (x y : ℕ) → x ≡ y → b.connect x y ≡ some tt
  connect_same x y h = b.connect_lem x y ∙ rw ((==_iff x y).1 h) refl
