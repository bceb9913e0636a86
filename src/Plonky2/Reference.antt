-- ===== src/Plonky2/Reference.antt =====
-- A concrete builder that meets every law of `Builder`, for runs at concrete inputs.
use native.Mathlib.Nat.{mul-div_cancel}
use euclid_database.Prelude.{
  ℕ, ◌+◌, ◌-◌, ◌*◌, ◌/◌, ◌%◌, ◌^◌, ◌≤◌, ◌<◌, ◌≡◌, refl, Bool, not, ◌&&◌, ◌||◌, List, none, some,
  Circuit, guard, ltb, lt→ltb, ◌==◌, if◌then◌else◌, to_bits, from_bits, to_digits, length, get_or,
  sum,
}
use euclid_database.Plonky2.{Builder, order, IsField}

abbrev pub splits : ℕ → ℕ → Circuit (List Bool)
splits x n = if ltb x (2 ^ n) then some (to_bits n x) else none

pub splits_lem :
    (x n : ℕ) → IsField x → x < 2 ^ n → 2 ^ n ≤ x + order → splits x n ≡ some (to_bits n x)
splits_lem x n f h u = rw (lt→ltb x (2 ^ n) h)

abbrev pub goldilocks : Builder
goldilocks = record {
  add = λ x y. (x + y) % order;
  add_lem = λ x y. refl;
  sub = λ x y. (x + (order - y % order)) % order;
  sub_lem = λ x y. refl;
  mul = λ x y. (x * y) % order;
  mul_lem = λ x y. refl;
  div = λ x y. x / y;
  div_lem = λ q y h k. mul-div_cancel q h;
  mul_add = λ x y z. (x * y + z) % order;
  mul_add_lem = λ x y z. refl;
  mul_sub = λ x y z. (x * y + (order - z % order)) % order;
  mul_sub_lem = λ x y z. refl;
  add_many = λ xs. sum xs % order;
  add_many_lem = λ xs. refl;
  is_equal = λ x y. x == y;
  is_equal_lem = λ x y. refl;
  not_bool = not;
  not_bool_lem = λ c. refl;
  and_bool = λ c d. c && d;
  and_bool_lem = λ c d. refl;
  or_bool = λ c d. c || d;
  or_bool_lem = λ c d. refl;
  select = λ c x y. if c then x else y;
  select_lem = λ c x y. refl;
  new_unsafe = λ x. x == 1;
  new_unsafe_zero = refl;
  new_unsafe_one = refl;
  connect = λ x y. guard (x == y);
  connect_lem = λ x y. refl;
  le_sum = λ bits. from_bits bits % order;
  le_sum_lem = λ bits. refl;
  range_check = λ x n. guard (ltb x (2 ^ n));
  range_check_lem = λ x n f. refl;
  split_le = splits;
  split_le_lem = splits_lem;
  split_low_high = λ x n m. if ltb x (2 ^ m) then some (x % 2 ^ n, x / 2 ^ n) else none;
  split_low_high_lem = λ x n m f h k. refl;
  split_le_base = λ base x n. if ltb x (base ^ n) then some (to_digits base n x) else none;
  split_le_base_lem = λ base x n f h k. refl;
  random_access = λ i v. if ltb i (length v) then some (get_or v i 0) else none;
  random_access_lem = λ i v k h. refl;
}
