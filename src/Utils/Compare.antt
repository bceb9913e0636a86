-- ===== src/Utils/Compare.antt =====
-- mrp2-utils/src/utils.rs: numbers as bits, and the comparison gadgets on n-bit wires.
pub mod Laws
use euclid_database.Prelude.{
  ℕ, ◌+◌, ◌*◌, ◌^◌, ◌<◌, Bool, false, List, [], ◌∷◌, Circuit, ◌>>=◌, ◌>>◌, some, guard, ltb, get_or,
  bit,
}
use euclid_database.Plonky2.{Builder}

module _ (b : Builder) where
  -- The loop of `bits_to_num`, with its two accumulators.
  unfoldable pub bits_loop : List Bool → ℕ → ℕ → ℕ
  bits_loop [] res e2 = res
  bits_loop (c ∷ bits) res e2 = bits_loop bits (b.mul_add e2 (bit c) res) (b.add e2 e2)

  unfoldable pub bits_to_num : List Bool → ℕ
  unfolding bits_loop
  bits_to_num bits = bits_loop bits 0 1

  unfoldable pub num_to_bits : ℕ → ℕ → Circuit (List Bool)
  num_to_bits n x = do b.range_check x n; b.split_le x n

  -- The source's `a` and `b` are x and y.
  unfoldable pub less_than : ℕ → ℕ → ℕ → Circuit Bool
  unfolding num_to_bits
  less_than x y n = do
    guard (ltb n 64)
    let lin_pol = b.sub (b.add x (2 ^ n)) y
    binary ← num_to_bits (n + 1) lin_pol
    some (b.not_bool (get_or binary n false))

  unfoldable pub greater_than : ℕ → ℕ → ℕ → Circuit Bool
  greater_than x y n = less_than y x n

  unfoldable pub less_than_or_equal_to : ℕ → ℕ → ℕ → Circuit Bool
  less_than_or_equal_to x y n = less_than x (b.add y 1) n

  unfoldable pub greater_than_or_equal_to : ℕ → ℕ → ℕ → Circuit Bool
  greater_than_or_equal_to x y n = less_than y (b.add x 1) n
