-- ===== src/Prelude/Bits.antt =====
-- Binary digits, the least significant first, and the order of the field.
use Prim.Native.Nat.{ℕ, zero, suc, ◌+◌, ◌*◌, ◌/◌, ◌%◌, ◌^◌, ◌≤◌, ◌<◌}
use mathlib.Core.Path.{◌≡◌, refl, ap}
use mathlib.Core.Bool.{Bool, true, false}
use mathlib.Core.List.{List, [], ◌∷◌}
use native.Mathlib.Omega.{arith}
use native.Mathlib.Nat.{pow-suc, pow-le-pow_right, div-div-eq-div-mul}
use euclid_database.Prelude.Tests.{◌==◌}
use euclid_database.Prelude.Lists.{length, get_or}

-- The field value of a Boolean wire.
abbrev pub bit : Bool → ℕ
bit false = 0
bit true = 1

abbrev pub sum : List ℕ → ℕ
sum [] = 0
sum (x ∷ xs) = x + sum xs

abbrev pub to_bits : ℕ → ℕ → List Bool
to_bits zero x = []
to_bits (suc n) x = (x % 2 == 1) ∷ to_bits n (x / 2)

abbrev pub from_bits : List Bool → ℕ
from_bits [] = 0
from_bits (c ∷ cs) = bit c + 2 * from_bits cs

-- The digits in a base, the lowest first.
abbrev pub to_digits : ℕ → ℕ → ℕ → List ℕ
to_digits base zero x = []
to_digits base (suc n) x = (x % base) ∷ to_digits base n (x / base)

pub pow_two-suc : (n : ℕ) → 2 ^ suc n ≡ 2 * 2 ^ n
pow_two-suc n = omega (arith, pow-suc 2 n)

pub pow_pos : (n : ℕ) → 0 < 2 ^ n
pow_pos zero = omega arith
pow_pos (suc n) = omega (arith, pow_two-suc n, pow_pos n)

pub pow_mono : {i j : ℕ} → i ≤ j → 2 ^ i ≤ 2 ^ j
pow_mono h = pow-le-pow_right (omega arith) h

bit-odd : (x : ℕ) → bit (x % 2 == 1) ≡ x % 2
bit-odd x = ground arith

pub from_bits-to_bits : (n x : ℕ) → x < 2 ^ n → from_bits (to_bits n x) ≡ x
from_bits-to_bits zero x h = omega arith
from_bits-to_bits (suc n) x h =
    omega
      (arith, pow_two-suc n, bit-odd x, from_bits-to_bits n (x / 2) (omega (arith, pow_two-suc n)))

pub div_div_pow : (i x : ℕ) → x / 2 / 2 ^ i ≡ x / 2 ^ suc i
div_div_pow i x = rw (pow_two-suc i) (div-div-eq-div-mul x 2 (2 ^ i))

pub get_or-to_bits : (n i x : ℕ) → i < n → get_or (to_bits n x) i false ≡ (x / 2 ^ i % 2 == 1)
get_or-to_bits zero i x h = absurd (omega arith)
get_or-to_bits (suc n) zero x h = ground (arith)
get_or-to_bits (suc n) (suc i) x h =
    rw (← div_div_pow i x) (get_or-to_bits n i (x / 2) (omega arith))

pub length-to_bits : (n x : ℕ) → length (to_bits n x) ≡ n
length-to_bits zero x = refl
length-to_bits (suc n) x = ap suc (length-to_bits n (x / 2))

-- `usize::BITS - n.leading_zeros()`, which is `n.ilog2() + 1` above 0: the bits that n takes. A
-- number halves at most n times.
bit_length_fuel : ℕ → ℕ → ℕ
bit_length_fuel zero n = 0
bit_length_fuel (suc fuel) zero = 0
bit_length_fuel (suc fuel) (suc n) = suc (bit_length_fuel fuel (suc n / 2))

unfoldable pub bit_length : ℕ → ℕ
unfolding bit_length_fuel
bit_length n = bit_length_fuel n n

bit_length_fuel-lt : (fuel n : ℕ) → n ≤ fuel → n < 2 ^ bit_length_fuel fuel n
unfolding bit_length_fuel
bit_length_fuel-lt zero n h = omega arith
bit_length_fuel-lt (suc fuel) zero h = omega arith
bit_length_fuel-lt (suc fuel) (suc n) h = omega (
  arith,
  bit_length_fuel-lt fuel (suc n / 2) (omega arith),
  pow_two-suc (bit_length_fuel fuel (suc n / 2)),
)

-- A number fits its bits.
pub bit_length-lt : (n : ℕ) → n < 2 ^ bit_length n
unfolding bit_length
bit_length-lt n = bit_length_fuel-lt n n (omega arith)

bit_length_fuel-le : (fuel n k : ℕ) → n < 2 ^ k → bit_length_fuel fuel n ≤ k
unfolding bit_length_fuel
bit_length_fuel-le zero n k h = omega arith
bit_length_fuel-le (suc fuel) zero k h = omega arith
bit_length_fuel-le (suc fuel) (suc n) zero h = absurd (omega arith)
bit_length_fuel-le (suc fuel) (suc n) (suc k) h =
    omega (arith, bit_length_fuel-le fuel (suc n / 2) k (omega (arith, pow_two-suc k)))

-- It takes no more bits than it needs.
pub bit_length-le : (n k : ℕ) → n < 2 ^ k → bit_length n ≤ k
unfolding bit_length
bit_length-le n k h = bit_length_fuel-le n n k h

pub bit_length-32 : bit_length 32 ≡ 6
unfolding bit_length
bit_length-32 = refl
