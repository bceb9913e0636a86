-- ===== src/Array.antt =====
-- mrp2-utils/src/array.rs: fixed-size arrays of wires, and vectors with a dynamic length. An
-- `Array<T, N>` is the list of its N values, and N is passed where the code reads it.
pub mod Vectors
pub mod Access
pub mod Bytes
pub mod Reads
pub mod Slices
pub mod Padding
mod Tests
use euclid_database.Prelude.{
  ℕ, zero, suc, ◌+◌, ◌-◌, ◌*◌, ◌/◌, ◌%◌, ◌^◌, bit_and, Bool, true, false, ◌&&◌, List, [], ◌∷◌, ◌++◌,
  Circuit, ◌>>=◌, ◌>>◌, some, none, ltb, ◌==◌, if◌then◌else◌, length, get_or, bit, create_array,
  build_array, take, replicate,
}
use euclid_database.Plonky2.{Builder, order}
use euclid_database.Utils.Compare.{less_than, less_than_or_equal_to}

-- `VectorWire`, by the values that `assign` gives it, and `Vector`.
pub record VectorWire : Type 0 where
  pub arr : List ℕ
  pub real_len : ℕ

-- `RANDOM_ACCESS_SIZE`
abbrev pub random_access_size : ℕ
random_access_size = 64

module _ {ℓ} {A : Type ℓ} where
  -- `Vector::from_vec`: the data, padded with the default up to max_len; longer data is cut by
  -- `take`, and its `real_len` is that of the whole data.
  unfoldable pub from_vec : ℕ → A → List A → List A × ℕ
  from_vec max_len default d = (take max_len (d ++ replicate max_len default), length d)

  unfoldable pub concat : List A → List A → A → List A
  concat self other d =
      create_array (length self + length other)
        λ i. if ltb i (length self) then get_or self i d else get_or other (i - length self) d

  -- `take_last::<TAKE>`. A TAKE above the size stops the build.
  unfoldable pub take_last : ℕ → List A → A → List A
  take_last n self d = create_array n λ i. get_or self (length self - n + i) d

  unfoldable pub reverse_array : List A → A → List A
  reverse_array self d = create_array (length self) λ i. get_or self (length self - 1 - i) d

-- `L32`
unfoldable pub l32 : ℕ → ℕ
l32 a = if a % 4 == 0 then a / 4 else a / 4 + 1

module _ (b : Builder) where
  unfoldable pub select : Bool → List ℕ → List ℕ → List ℕ
  select c self other =
      create_array (length self) λ i. b.select c (get_or self i 0) (get_or other i 0)

  pub failover_loop : List ℕ → ℕ → ℕ → ℕ → ℕ
  failover_loop [] i at acc = acc
  failover_loop (el ∷ arr) i at acc =
      failover_loop arr (i + 1) at (b.mul_add (bit (b.is_equal i at)) el acc)

  unfoldable pub value_at_failover : List ℕ → ℕ → ℕ
  unfolding failover_loop
  value_at_failover self at = failover_loop self 0 at 0

  unfoldable pub value_at : List ℕ → ℕ → Circuit ℕ
  value_at self at =
      if ltb (length self) random_access_size && (bit_and (length self) (length self - 1) == 0)
      then b.random_access at self
      else some (value_at_failover self at)

  -- One item of `extract_array`.
  pub extract_item : List ℕ → ℕ → ℕ → ℕ → Circuit ℕ
  extract_item self at upper_bound i = do
    let i_plus_n = b.add at i
    lt ← less_than_or_equal_to b i_plus_n upper_bound 63
    value_at self (b.mul (bit lt) i_plus_n)

  unfoldable pub extract_array : List ℕ → ℕ → ℕ → Circuit (List ℕ)
  unfolding extract_item
  extract_array self at sub_size =
      let upper_bound = b.add at sub_size in build_array sub_size (extract_item self at upper_bound)

  pub equals_loop : List ℕ → List ℕ → Bool → Bool
  equals_loop (x ∷ xs) (y ∷ ys) res = equals_loop xs ys (b.and_bool res (b.is_equal x y))
  equals_loop [] ys res = res
  equals_loop (x ∷ xs) [] res = res

  unfoldable pub equals : List ℕ → List ℕ → Bool
  unfolding equals_loop
  equals self other = equals_loop self other true

  unfoldable pub contains_array : List ℕ → List ℕ → ℕ → Circuit Bool
  contains_array self sub at = do
    extracted ← extract_array self at (length sub)
    some (equals sub extracted)

  -- `enforce_equal`
  unfoldable pub enforce_equal : List ℕ → List ℕ → Circuit (Unit {0})
  enforce_equal (x ∷ xs) (y ∷ ys) = do b.connect x y; enforce_equal xs ys
  enforce_equal [] ys = some tt
  enforce_equal (x ∷ xs) [] = some tt

  -- `assert_bytes`
  unfoldable pub assert_bytes : List ℕ → Circuit (Unit {0})
  assert_bytes [] = some tt
  assert_bytes (byte ∷ arr) = do b.range_check byte 8; assert_bytes arr

  pub enforce_slice_loop : List ℕ → List ℕ → ℕ → ℕ → Circuit (Unit {0})
  enforce_slice_loop (our ∷ xs) (other ∷ ys) i slice_len = do
    before_end ← less_than b i slice_len 6
    let res = b.select before_end (bit (b.is_equal our other)) (bit true)
    b.connect res (bit true)
    enforce_slice_loop xs ys (i + 1) slice_len
  enforce_slice_loop [] ys i slice_len = some tt
  enforce_slice_loop (our ∷ xs) [] i slice_len = some tt

  unfoldable pub enforce_slice_equals : List ℕ → List ℕ → ℕ → Circuit (Unit {0})
  unfolding enforce_slice_loop
  enforce_slice_equals self other slice_len = enforce_slice_loop self other 0 slice_len

  -- The loop keeps `end_result` from one item to the next, and sets it to `tru && res`.
  pub is_slice_loop : List ℕ → List ℕ → ℕ → ℕ → Bool → Circuit Bool
  is_slice_loop (our ∷ xs) (other ∷ ys) i slice_len end_result = do
    before_end ← less_than b i slice_len 6
    let res = b.select before_end (bit (b.is_equal our other)) (bit true)
    is_slice_loop xs ys (i + 1) slice_len (b.and_bool true (b.new_unsafe res))
  is_slice_loop [] ys i slice_len end_result = some end_result
  is_slice_loop (our ∷ xs) [] i slice_len end_result = some end_result

  unfoldable pub is_slice_equals : List ℕ → List ℕ → ℕ → Circuit Bool
  unfolding is_slice_loop
  is_slice_equals self other slice_len = is_slice_loop self other 0 slice_len true
