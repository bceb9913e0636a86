-- ===== src/Plonky2.antt =====
-- The circuit builder of plonky2 and its hash functions, which the repository only calls. They are
-- parameters: a record of the operations that the source uses, each with its documented behaviour.
--
-- A field element is its canonical number below `order`, the order of the Goldilocks field, at
-- which the repository instantiates every circuit (mrp2-utils/src/types.rs, `GFp`). A constant
-- `b.constant(F::from_canonical_usize(i))` is the number `i`. A `BoolTarget` is a Boolean, and its
-- wire `t.target` is `bit t`.
pub mod Laws
pub mod Reference
pub mod Poseidon
pub mod Merkle
use euclid_database.Prelude.{
  ℕ, ◌+◌, ◌-◌, ◌*◌, ◌/◌, ◌%◌, ◌^◌, ◌≤◌, ◌<◌, ◌≡◌, Bool, true, false, not, ◌&&◌, ◌||◌, List, none,
  some, Circuit, guard, ltb, ◌==◌, if◌then◌else◌, to_bits, from_bits, to_digits, length, get_or,
  sum,
}

-- 2 ^ 64 - 2 ^ 32 + 1
abbrev pub order : ℕ
order = 0xffff_ffff_0000_0001

abbrev pub IsField : ℕ → Type 0
IsField x = x < order

pub record Builder : Type 0 where
  pub add : ℕ → ℕ → ℕ
  pub add_lem : (x y : ℕ) → add x y ≡ (x + y) % order
  pub sub : ℕ → ℕ → ℕ
  pub sub_lem : (x y : ℕ) → sub x y ≡ (x + (order - y % order)) % order
  pub mul : ℕ → ℕ → ℕ
  pub mul_lem : (x y : ℕ) → mul x y ≡ (x * y) % order
  -- The quotient in the field, where it is one of numbers.
  pub div : ℕ → ℕ → ℕ
  pub div_lem : (q y : ℕ) → 0 < y → q * y < order → div (q * y) y ≡ q
  -- `mul_add(x, y, z)` is x * y + z, and `mul_sub(x, y, z)` is x * y - z.
  pub mul_add : ℕ → ℕ → ℕ → ℕ
  pub mul_add_lem : (x y z : ℕ) → mul_add x y z ≡ (x * y + z) % order
  pub mul_sub : ℕ → ℕ → ℕ → ℕ
  pub mul_sub_lem : (x y z : ℕ) → mul_sub x y z ≡ (x * y + (order - z % order)) % order
  -- The sum of all the wires.
  pub add_many : List ℕ → ℕ
  pub add_many_lem : (xs : List ℕ) → add_many xs ≡ sum xs % order
  pub is_equal : ℕ → ℕ → Bool
  pub is_equal_lem : (x y : ℕ) → is_equal x y ≡ (x == y)
  pub not_bool : Bool → Bool
  pub not_bool_lem : (c : Bool) → not_bool c ≡ not c
  pub and_bool : Bool → Bool → Bool
  pub and_bool_lem : (c d : Bool) → and_bool c d ≡ (c && d)
  pub or_bool : Bool → Bool → Bool
  pub or_bool_lem : (c d : Bool) → or_bool c d ≡ (c || d)
  -- `select`, and `_if`, which is the same on targets.
  pub select : Bool → ℕ → ℕ → ℕ
  pub select_lem : (c : Bool) (x y : ℕ) → select c x y ≡ (if c then x else y)
  -- `BoolTarget::new_unsafe` reads a wire that holds 0 or 1.
  pub new_unsafe : ℕ → Bool
  pub new_unsafe_zero : new_unsafe 0 ≡ false
  pub new_unsafe_one : new_unsafe 1 ≡ true
  pub connect : ℕ → ℕ → Circuit (Unit {0})
  pub connect_lem : (x y : ℕ) → connect x y ≡ guard (x == y)
  -- `le_sum`: the number with these bits, the lowest first, in the field.
  pub le_sum : List Bool → ℕ
  pub le_sum_lem : (bits : List Bool) → le_sum bits ≡ from_bits bits % order
  -- `range_check(x, n)`: x has a representation by n bits.
  pub range_check : ℕ → ℕ → Circuit (Unit {0})
  pub range_check_lem : (x n : ℕ) → IsField x → range_check x n ≡ guard (ltb x (2 ^ n))
  -- `split_le(x, n)`: n bits of sum x in the field. They are x's binary digits wherever x + order
  -- has no n bits.
  pub split_le : ℕ → ℕ → Circuit (List Bool)
  pub split_le_lem :
      (x n : ℕ) → IsField x → x < 2 ^ n → 2 ^ n ≤ x + order → split_le x n ≡ some (to_bits n x)
  -- `split_low_high(x, n, m)` for an m that leaves no second representation.
  pub split_low_high : ℕ → ℕ → ℕ → Circuit (ℕ × ℕ)
  pub split_low_high_lem :
      (x n m : ℕ)
      → IsField x
      → n ≤ m
      → m < 64
      → split_low_high x n m ≡ (if ltb x (2 ^ m) then some (x % 2 ^ n, x / 2 ^ n) else none)
  -- `split_le_base(x, n)`: the n digits of x in a base, where that many digits represent no element
  -- of the field twice.
  pub split_le_base : ℕ → ℕ → ℕ → Circuit (List ℕ)
  pub split_le_base_lem :
      (base x n : ℕ)
      → IsField x
      → 0 < base
      → base ^ n ≤ order
      → split_le_base base x n ≡ (if ltb x (base ^ n) then some (to_digits base n x) else none)
  -- `random_access(i, v)` for a power of two of items: it constrains i to be an index.
  pub random_access : ℕ → List ℕ → Circuit ℕ
  pub random_access_lem :
      (i : ℕ) (v : List ℕ) (k : ℕ)
      → length v ≡ 2 ^ k
      → random_access i v ≡ (if ltb i (length v) then some (get_or v i 0) else none)
