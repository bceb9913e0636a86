-- ===== src/Array/Vectors.antt =====
-- mrp2-utils/src/array.rs: the gadgets on vectors with a dynamic length, and the packing of bytes.
use euclid_database.Prelude.{
  ℕ, ◌+◌, Bool, true, List, [], ◌∷◌, Circuit, ◌>>=◌, some, length, build_array, bit_length,
}
use euclid_database.Plonky2.{Builder}
use euclid_database.Utils.Compare.{less_than, less_than_or_equal_to}
use euclid_database.Array.{VectorWire, value_at, value_at_failover}

module _ (b : Builder) where
  -- Item i of `normalize_left::<PAD_LEN>`.
  unfoldable pub normalize_item : VectorWire → ℕ → ℕ → Circuit ℕ
  normalize_item v pad_len i = do
    let jt = b.sub pad_len i
    is_lt ← less_than_or_equal_to b jt v.real_len (bit_length (length v.arr))
    let idx = b.sub v.real_len jt
    let val = value_at_failover b v.arr idx
    some (b.select is_lt val 0)

  unfoldable pub normalize_left : VectorWire → ℕ → Circuit (List ℕ)
  unfolding normalize_item
  normalize_left v pad_len = build_array pad_len (normalize_item v pad_len)

  -- The loop of `contains_vector` over the items of `sub`, from item i.
  unfoldable pub contains_vector_loop : List ℕ → List ℕ → ℕ → ℕ → ℕ → ℕ → Bool → Circuit Bool
  contains_vector_loop self [] size real_len at i t = some t
  contains_vector_loop self (el ∷ sub) size real_len at i t = do
    within_range ← less_than b i real_len (bit_length size)
    let not_in_range = b.not_bool within_range
    let original_idx = b.add at i
    original_value ← value_at b self original_idx
    let are_equal = b.is_equal original_value el
    let should_be_true = b.and_bool are_equal within_range
    let f = b.or_bool should_be_true not_in_range
    contains_vector_loop self sub size real_len at (i + 1) (b.and_bool t f)

  unfoldable pub contains_vector : List ℕ → VectorWire → ℕ → Circuit Bool
  unfolding contains_vector_loop
  contains_vector self sub at =
      contains_vector_loop self sub.arr (length sub.arr) sub.real_len at 0 true

  -- `for (i, v) in self.arr[i..].skip(1).take(3)`: the bytes after the first, by their weights.
  unfoldable pub add_weighted : List ℕ → List ℕ → ℕ → ℕ
  add_weighted (v ∷ vs) (p ∷ ps) x = add_weighted vs ps (b.mul_add v p x)
  add_weighted [] ps x = x
  add_weighted (v ∷ vs) [] x = x

  -- `convert_u8_to_u32`, a chunk of up to four bytes for each step of the loop.
  unfoldable pub convert_u8_to_u32 : List ℕ → List ℕ
  unfolding add_weighted
  convert_u8_to_u32 [] = []
  convert_u8_to_u32 (x ∷ []) = x ∷ []
  convert_u8_to_u32 (x ∷ y ∷ []) = add_weighted (y ∷ []) (256 ∷ 65536 ∷ 16777216 ∷ []) x ∷ []
  convert_u8_to_u32 (x ∷ y ∷ z ∷ []) =
      add_weighted (y ∷ z ∷ []) (256 ∷ 65536 ∷ 16777216 ∷ []) x ∷ []
  convert_u8_to_u32 (x ∷ y ∷ z ∷ w ∷ rest) =
      add_weighted (y ∷ z ∷ w ∷ []) (256 ∷ 65536 ∷ 16777216 ∷ []) x ∷ convert_u8_to_u32 rest
