-- ===== src/Mpt/Steps.antt =====
-- What one node of an accepted proof says, from the side of RLP and of the hex prefix.
pub mod Gadgets
use euclid_database.Prelude.{
  ℕ, ◌+◌, ◌*◌, ◌/◌, ◌%◌, ◌<◌, ◌≤◌, ◌≡◌, ◌⊎◌, Bool, true, false, List, some, ltb, ◌==◌, ◌||◌, bit,
  length, get_or, All-get_or, Bool-cases, inl, inr, ltb→lt, arith, ap, ◌∙◌, sym, >>=-eq-some,
  Circuit, length-build_array, subst, ==_iff, ◌&&◌,
}
use euclid_database.Plonky2.{Builder, order, IsField}
use euclid_database.Array.{value_at, extract_array, select}
use euclid_database.Array.Access.{AllField, value_at_large}
use euclid_database.Rlp.{
  RlpHeader, RlpList, select_header, decode_fixed_list, decode_compact_encoding, compact_loop,
  max_items_in_list,
}
use euclid_database.Rlp.Compact.{split_byte, first_bits, padding_test}
use euclid_database.Array.{VectorWire}
use euclid_database.Keccak.{hash_len}
use euclid_database.Mpt.{
  MptKeyWire, advance_by, current_nibble, select_key, advance_key_branch,
  advance_key_leaf_or_extension, advance_key,
}
use euclid_database.Mpt.Selects.{select_left, select_right, select_key-true, select_key-false}
use euclid_database.Mpt.Key.{some-elim, leaf_key_lem}

-- A node of field elements, 64 at least.
abbrev pub IsNode : List ℕ → Type 0
IsNode node = AllField node × (64 ≤ length node)

-- The first byte of a compact key has an odd first nibble, or a second nibble 0.
abbrev pub is_hex_prefix : ℕ → Bool
is_hex_prefix c = c / 16 % 2 == 1 || c % 16 == 0

-- A node of two items, of which the first is a key in the hex-prefix encoding: the pointer moves back
-- by the number of its nibbles, which are not compared with the key, and the value starts at the
-- second item.
abbrev pub IsPair : Builder → ℕ → List ℕ → RlpList → MptKeyWire → MptKeyWire → List ℕ → Type 0
IsPair b value_len node headers key key' value =
    let c = get_or node (get_or headers.offsets 0 0) 0 in
    (headers.num_fields ≡ 2)
    × (c < 256)
    × (is_hex_prefix c ≡ true)
    × (key'.key ≡ key.key)
    × ((key'.pointer + (2 * get_or headers.lens 0 0 + bit (c / 16 % 2 == 1))) % order
        ≡ (key.pointer + 2) % order)
    × (extract_array b node (get_or headers.offsets 1 0) value_len ≡ some value)

-- A node of 17 items, whose item at the key's nibble holds the child, with the pointer moved by one.
abbrev pub IsBranch : Builder → List ℕ → RlpList → MptKeyWire → MptKeyWire → List ℕ → ℕ → Type 0
IsBranch b node headers key key' child nibble =
    (header : RlpHeader) × (headers.num_fields ≡ 17)
    × (value_at b key.key key.pointer ≡ some nibble)
    × (key'.key ≡ key.key)
    × ((key'.pointer + 1) % order ≡ key.pointer % order)
    × (select_header b headers nibble ≡ some header)
    × (extract_array b node header.offset 32 ≡ some child)

-- A node above another one: a list of up to 17 items that is a pair or a branch.
abbrev pub IsStep : Builder → List ℕ → MptKeyWire → MptKeyWire → List ℕ → Type 0
IsStep b node key key' child =
    (headers : RlpList) × (decode_fixed_list b 17 node 0 ≡ some headers)
    × (IsPair b 32 node headers key key' child
        ⊎ ((nibble : ℕ) × IsBranch b node headers key key' child nibble))
