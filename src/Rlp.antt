-- ===== src/Rlp.antt =====
-- mrp2-utils/src/rlp.rs: the decoding of RLP headers, lists and compact keys inside a circuit.
pub mod Select
pub mod Header
pub mod Encode
pub mod FixedList
pub mod Compact
pub mod HexPrefix
mod Tests
use euclid_database.Prelude.{
  ℕ, zero, suc, ◌-◌, ◌+◌, Bool, false, List, [], ◌∷◌, Circuit, ◌>>=◌, some, get_or, bit, map,
}
use euclid_database.Plonky2.{Builder}
use euclid_database.Utils.Compare.{less_than, greater_than_or_equal_to, num_to_bits}
use euclid_database.Array.{VectorWire, value_at}

-- `MAX_LEN_BYTES`, `MAX_ENC_KEY_LEN`, `MAX_KEY_NIBBLE_LEN` and `MAX_ITEMS_IN_LIST`.
abbrev pub max_len_bytes : ℕ
max_len_bytes = 2

abbrev pub max_enc_key_len : ℕ
max_enc_key_len = 33

abbrev pub max_key_nibble_len : ℕ
max_key_nibble_len = 64

abbrev pub max_items_in_list : ℕ
max_items_in_list = 17

pub record RlpHeader : Type 0 where
  pub len : ℕ
  pub offset : ℕ
  pub data_type : ℕ

pub record RlpList : Type 0 where
  pub offsets : List ℕ
  pub lens : List ℕ
  pub data_types : List ℕ
  pub num_fields : ℕ

-- The four arrays that `decode_fixed_list` fills.
abbrev pub header_list : List RlpHeader × ℕ → RlpList
header_list (hs, n) = record {
  offsets = map (λ (h : RlpHeader). h.offset) hs;
  lens = map (λ (h : RlpHeader). h.len) hs;
  data_types = map (λ (h : RlpHeader). h.data_type) hs;
  num_fields = n;
}

module _ (b : Builder) where
  -- `RlpList::select`
  unfoldable pub select_header : RlpList → ℕ → Circuit RlpHeader
  select_header self at = do
    offset ← value_at b self.offsets at
    len ← value_at b self.lens at
    dtype ← value_at b self.data_types at
    some (record { len = len; offset = offset; data_type = dtype })

  unfoldable pub products : List ℕ → ℕ → ℕ → List ℕ
  products [] i n = []
  products (el ∷ arr) i n = b.mul (bit (b.is_equal i n)) el ∷ products arr (i + 1) n

  unfoldable pub quin_selector : List ℕ → ℕ → ℕ
  unfolding products
  quin_selector arr n = b.add_many (products arr 0 n)

  -- One round of `data_len`.
  unfoldable pub data_len_round : List ℕ → ℕ → ℕ → ℕ → ℕ → Circuit ℕ
  data_len_round bytes len_of_len offset i res = do
    len_of_len_pred ← less_than b i len_of_len 8
    let i_offset = b.add i offset
    let i_plus_1 = b.add i_offset 1
    let item = quin_selector bytes i_plus_1
    let multiplicand = b.mul 256 res
    let total = b.add multiplicand item
    let multiplicand_2 = b.mul total (bit len_of_len_pred)
    let not_pred = b.not_bool len_of_len_pred
    let multiplicand_3 = b.mul (bit not_pred) res
    some (b.add multiplicand_2 multiplicand_3)

  unfoldable pub data_len_loop : List ℕ → ℕ → ℕ → ℕ → ℕ → ℕ → Circuit ℕ
  data_len_loop bytes len_of_len offset i zero res = some res
  data_len_loop bytes len_of_len offset i (suc rounds) res =
      data_len_round bytes len_of_len offset i res >>= λ res'.
      data_len_loop bytes len_of_len offset (i + 1) rounds res'

  unfoldable pub data_len : List ℕ → ℕ → ℕ → Circuit ℕ
  data_len bytes len_of_len offset = data_len_loop bytes len_of_len offset 0 max_len_bytes 0

  unfoldable pub short_string_len : ℕ → ℕ
  short_string_len header = b.sub header 128

  unfoldable pub decode_header : List ℕ → ℕ → Circuit RlpHeader
  decode_header bytes offset = do
    let prefix = quin_selector bytes offset
    prefix_less_0x80 ← less_than b prefix 128 8
    prefix_less_0xb8 ← less_than b prefix 184 8
    prefix_less_0xc0 ← less_than b prefix 192 8
    prefix_less_0xf8 ← less_than b prefix 248 8
    let prefix_plus_one = b.add prefix 1
    let prefix_plus_one_minus_f7 = b.sub prefix_plus_one 247
    let select_1 = b.select prefix_less_0xf8 1 prefix_plus_one_minus_f7
    let prefix_plus_one_minus_b7 = b.sub prefix_plus_one 183
    let select_2 = b.select prefix_less_0xc0 prefix_plus_one_minus_b7 select_1
    let select_3 = b.select prefix_less_0xb8 1 select_2
    let offset_data = b.select prefix_less_0x80 0 select_3
    let prefix_minus_f7 = b.sub prefix 247
    long_list_len ← data_len bytes prefix_minus_f7 offset
    let short_list_len = b.sub prefix 192
    let len_1 = b.select prefix_less_0xf8 short_list_len long_list_len
    let prefix_minus_b7 = b.sub prefix 183
    long_str_len ← data_len bytes prefix_minus_b7 offset
    let len_2 = b.select prefix_less_0xc0 long_str_len len_1
    let short_str_len = b.sub prefix 128
    let len_3 = b.select prefix_less_0xb8 short_str_len len_2
    let len = b.select prefix_less_0x80 1 len_3
    data_type ← greater_than_or_equal_to b prefix 192 8
    let final_offset = b.add offset offset_data
    some (record { len = len; offset = final_offset; data_type = bit data_type })

  -- The loop of `decode_fixed_list`, with the rounds that are left, the offset reached and the fields
  -- counted so far. It returns the headers in order, and the number of fields.
  unfoldable pub fixed_list_loop : List ℕ → ℕ → ℕ → ℕ → ℕ → Circuit (List RlpHeader × ℕ)
  fixed_list_loop bytes end_idx zero offset num_fields = some ([], num_fields)
  fixed_list_loop bytes end_idx (suc rounds) offset num_fields =
      let before_the_end = b.not_bool (b.is_equal offset end_idx) in
      decode_header bytes offset >>= λ header.
      (let diff = b.sub (b.add header.offset header.len) offset in
        fixed_list_loop bytes end_idx rounds (b.mul_add (bit before_the_end) diff offset)
          (b.add num_fields (bit before_the_end))
        >>= λ (rest, n). some (header ∷ rest, n))

  -- `decode_fixed_list::<N>`
  unfoldable pub decode_fixed_list : ℕ → List ℕ → ℕ → Circuit RlpList
  decode_fixed_list n bytes data_offset = do
    list_header ← decode_header bytes data_offset
    let end_idx = b.add list_header.offset list_header.len
    decoded ← fixed_list_loop bytes end_idx n list_header.offset 0
    some (header_list decoded)

  -- The loop of `decode_compact_encoding`, with the rounds that are left. `split_low_high` returns
  -- the low nibble first, which the source names `most_bits`; cur_nibbles is (high, low).
  unfoldable pub compact_loop : List ℕ → ℕ → ℕ → ℕ → ℕ → Circuit (List ℕ)
  compact_loop input parity prev_1 i_offset zero = some []
  compact_loop input parity prev_1 i_offset (suc rounds) =
      let i_offset' = b.add i_offset 1 in
      value_at b input i_offset' >>= λ x. b.split_low_high x 4 8 >>= λ (cur_1, cur_0).
      compact_loop input parity cur_1 i_offset' rounds >>= λ rest. some (
        b.mul_add parity (b.sub prev_1 cur_0) cur_0
        ∷ b.mul_add parity (b.sub cur_0 cur_1) cur_1
        ∷ rest)

  unfoldable pub decode_compact_encoding : List ℕ → RlpHeader → Circuit (VectorWire × Bool)
  decode_compact_encoding input key_header = do
    first_byte ← value_at b input key_header.offset
    (prev_1, prev_0) ← b.split_low_high first_byte 4 8
    first_nibble_as_bits ← num_to_bits b 4 prev_0
    let parity = bit (get_or first_nibble_as_bits 0 false)
    let res_multi = b.mul_sub parity prev_1 prev_1
    let cond = b.is_equal res_multi 0
    nibbles ← compact_loop input parity prev_1 key_header.offset (max_enc_key_len - 1)
    let length_in_nibble = b.mul 2 key_header.len
    let pm2 = b.sub parity 2
    let key_len = b.add length_in_nibble pm2
    some (record { arr = nibbles; real_len = key_len }, cond)
