-- ===== src/Rlp/Tests.antt =====
-- The decoder's theorems at a small list: the strings 7, [200, 201] and [].
use euclid_database.Prelude.{
  ℕ, ◌+◌, ◌≡◌, refl, true, List, [], ◌∷◌, ◌++◌, some, arith, length, min, replicate, All-replicate,
}
use euclid_database.Plonky2.Reference.{goldilocks}
use euclid_database.Array.{VectorWire}
use euclid_database.Rlp.{
  decode_compact_encoding, RlpHeader, header_list, decode_header, decode_fixed_list,
}
use euclid_database.Rlp.Header.{decode_header_lem}
use euclid_database.Rlp.Encode.{Item, string, list, head, encode, slice_of, decode_header-encode}
use euclid_database.Rlp.HexPrefix.{
  hex_prefix, key_header, IsKey, decode_compact_encoding-hex_prefix,
}
use euclid_database.Utils.Pack.Laws.{IsByte, AllBytes}
use euclid_database.Rlp.FixedList.{encode_all, headers_of, decode_fixed_list-encode}

abbrev items : List Item
items = string (7 ∷ []) ∷ string (200 ∷ 201 ∷ []) ∷ string [] ∷ []

abbrev node : List ℕ
node = 0xc5 ∷ 7 ∷ 0x82 ∷ 200 ∷ 201 ∷ 0x80 ∷ []

node_run : encode (list (encode_all items)) ≡ node
unfolding encode
node_run = refl

decode_header_lem_example :
    decode_header goldilocks node 2 ≡ some (record { len = 2; offset = 3; data_type = 0 })
decode_header_lem_example = decode_header_lem goldilocks node 2 (omega arith) (omega arith)

decode_header-encode_example :
    (h : RlpHeader) × (decode_header goldilocks
        ((1 ∷ []) ++ (encode (string (200 ∷ 201 ∷ [])) ++ []))
        1
      ≡ some h)
    × (h.data_type ≡ 0)
    × (h.len ≡ 2)
    × (slice_of ((1 ∷ []) ++ (encode (string (200 ∷ 201 ∷ [])) ++ [])) h ≡ 200 ∷ 201 ∷ [])
    × (h.offset + h.len ≡ 1 + length (encode (string (200 ∷ 201 ∷ []))))
unfolding encode
decode_header-encode_example =
    decode_header-encode goldilocks (1 ∷ []) [] (string (200 ∷ 201 ∷ [])) (omega arith)
      (omega arith) (omega arith)

decode_fixed_list-encode_example :
    (extra : List RlpHeader) × (decode_fixed_list goldilocks 2
        ([] ++ (encode (list (encode_all items)) ++ (9 ∷ [])))
        0
      ≡ some (
          header_list (
            headers_of 2 ([] ++ head (list (encode_all items))) items ++ extra,
            min 2 (length items),
          )))
    × (min 2 (length items) + length extra ≡ 2)
unfolding encode
decode_fixed_list-encode_example =
    decode_fixed_list-encode goldilocks 2 [] (9 ∷ []) items (omega arith) (omega arith)
      (omega arith) (omega arith)

-- The key 1, 2, 3 of a leaf, behind one byte and before 64 others.
abbrev after_key : List ℕ
after_key = replicate 64 7

after_key-AllBytes : AllBytes ((5 ∷ []) ++ (hex_prefix true (1 ∷ 2 ∷ 3 ∷ []) ++ after_key))
unfolding hex_prefix
after_key-AllBytes =
    (omega arith, (omega arith, (omega arith, All-replicate IsByte 64 7 (omega arith))))

decode_compact_encoding-hex_prefix_example :
    (v : VectorWire) × (decode_compact_encoding goldilocks
        ((5 ∷ []) ++ (hex_prefix true (1 ∷ 2 ∷ 3 ∷ []) ++ after_key))
        (key_header (5 ∷ []) 3)
      ≡ some (v, true))
    × IsKey (1 ∷ 2 ∷ 3 ∷ []) v
unfolding hex_prefix
decode_compact_encoding-hex_prefix_example =
    decode_compact_encoding-hex_prefix goldilocks true (5 ∷ []) after_key (1 ∷ 2 ∷ 3 ∷ [])
      after_key-AllBytes (omega arith) (omega arith) (omega arith, (omega arith, (omega arith, tt)))
      (omega arith)
