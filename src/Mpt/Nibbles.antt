-- ===== src/Mpt/Nibbles.antt =====
-- The key that `init_from_u32_targets` makes of the words of a hash.
use euclid_database.Prelude.{
  ℕ, ◌+◌, ◌*◌, ◌/◌, ◌%◌, ◌^◌, ◌<◌, ◌≡◌, refl, List, [], ◌∷◌, some, length, All, lt→ltb, arith, ap,
  ◌∙◌,
}
use euclid_database.Plonky2.{Builder}
use euclid_database.Utils.Pack.{
  le_words, to_le_bytes, convert_u32_fields_to_u8_vec, bytes_to_nibbles,
}
use euclid_database.Utils.Pack.Laws.{AllBytes, unpack_words}
use euclid_database.Utils.Pack.Words.{IsU32, le_words-IsU32}
use euclid_database.Mpt.{limb_nibbles, word_nibbles, init_from_u32_targets}

module _ (b : Builder) where
  nibble_lem : (x y : ℕ) → x < 4 → y < 4 → b.mul_add 4 x y ≡ 4 * x + y
  nibble_lem x y h k = omega (arith, b.mul_add_lem 4 x y)

  -- A byte of the word, from four of its limbs.
  high : (x : ℕ) → b.mul_add 4 (x / 4 / 4 / 4 % 4) (x / 4 / 4 % 4) ≡ x % 256 / 16
  high x = nibble_lem (x / 4 / 4 / 4 % 4) (x / 4 / 4 % 4) (omega arith) (omega arith) ∙ omega arith

  low : (x : ℕ) → b.mul_add 4 (x / 4 % 4) (x % 4) ≡ x % 256 % 16
  low x = nibble_lem (x / 4 % 4) (x % 4) (omega arith) (omega arith) ∙ omega arith

  -- The nibbles of the byte that starts at a limb.
  byte_lem :
      (x c : ℕ)
      → x % 256 ≡ c
      → (b.mul_add 4 (x / 4 / 4 / 4 % 4) (x / 4 / 4 % 4) ≡ c / 16)
        × (b.mul_add 4 (x / 4 % 4) (x % 4) ≡ c % 16)
  byte_lem x c h = (high x ∙ ap (λ y. y / 16) h, low x ∙ ap (λ y. y % 16) h)

  word_nibbles_lem :
      (ws : List ℕ)
      → All IsU32 ws
      → word_nibbles b ws ≡ some (bytes_to_nibbles (convert_u32_fields_to_u8_vec ws))
  unfolding word_nibbles limb_nibbles bytes_to_nibbles convert_u32_fields_to_u8_vec to_le_bytes
  word_nibbles_lem [] h = refl
  word_nibbles_lem (w ∷ ws) h =
      let v = w % 2 ^ 32 in
      let (h0, l0) = byte_lem w (v % 256) (omega arith) in
      let (h1, l1) = byte_lem (w / 4 / 4 / 4 / 4) (v / 256 % 256) (omega arith) in
      let (h2, l2) =
        byte_lem (w / 4 / 4 / 4 / 4 / 4 / 4 / 4 / 4) (v / 65536 % 256) (omega (arith, h.0)) in
      let (h3, l3) =
        byte_lem (w / 4 / 4 / 4 / 4 / 4 / 4 / 4 / 4 / 4 / 4 / 4 / 4) (v / 16777216)
          (omega (arith, h.0)) in
      rw
        (
          b.split_le_base_lem 4 w 16 (omega (arith, h.0)) (omega arith) (omega arith),
          lt→ltb w (4 ^ 16) (omega (arith, h.0)),
          word_nibbles_lem ws h.1,
          h0,
          l0,
          h1,
          l1,
          h2,
          l2,
          h3,
          l3,
        )
        refl

  -- The key of eight words is the nibbles of their bytes, with the pointer at the last one.
  pub init_from_u32_targets_lem :
      (ws : List ℕ)
      → All IsU32 ws
      → init_from_u32_targets b ws
        ≡ some (record { key = bytes_to_nibbles (convert_u32_fields_to_u8_vec ws); pointer = 63 })
  unfolding init_from_u32_targets
  init_from_u32_targets_lem ws h = rw (word_nibbles_lem ws h) refl

  -- So it is, of the words of whole words of bytes, the nibbles of the bytes.
  pub init_from_u32_targets-le_words :
      (bytes : List ℕ)
      → AllBytes bytes
      → length bytes % 4 ≡ 0
      → init_from_u32_targets b (le_words bytes)
        ≡ some (record { key = bytes_to_nibbles bytes; pointer = 63 })
  init_from_u32_targets-le_words bytes h k =
      init_from_u32_targets_lem (le_words bytes) (le_words-IsU32 bytes h)
      ∙ rw (unpack_words bytes h k) refl
