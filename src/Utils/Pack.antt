-- ===== src/Utils/Pack.antt =====
-- mrp2-utils/src/utils.rs: bytes packed into 32-bit words, the least significant byte first; and
-- mrp2-utils/src/mpt_sequential/utils.rs: bytes and nibbles.
pub mod Laws
pub mod Nibbles
pub mod Words
use euclid_database.Prelude.{
  ℕ, zero, suc, ◌+◌, ◌-◌, ◌*◌, ◌/◌, ◌%◌, ◌^◌, List, [], ◌∷◌, ◌++◌, Circuit, ◌>>=◌, ◌>>◌, some,
  guard, ◌==◌, length, replicate, map, if◌then◌else◌, get_or,
}
use euclid_database.Plonky2.{Builder}

-- `u32::from_le_bytes`
unfoldable pub from_le_bytes : ℕ → ℕ → ℕ → ℕ → ℕ
from_le_bytes b0 b1 b2 b3 = b0 + b1 * 256 + b2 * 65536 + b3 * 16777216

-- `chunks_exact(4)`, each read by `read_le_u32`; a shorter rest is left out.
unfoldable pub le_words : List ℕ → List ℕ
le_words (b0 ∷ b1 ∷ b2 ∷ b3 ∷ rest) = from_le_bytes b0 b1 b2 b3 ∷ le_words rest
le_words (b0 ∷ b1 ∷ b2 ∷ []) = []
le_words (b0 ∷ b1 ∷ []) = []
le_words (b0 ∷ []) = []
le_words [] = []

-- `convert_u8_to_u32_slice`, which fills the last word with zeros.
unfoldable pub convert_u8_to_u32_slice : List ℕ → List ℕ
convert_u8_to_u32_slice bytes =
    if length bytes % 4 == 0
    then le_words bytes
    else le_words (bytes ++ replicate (4 - length bytes % 4) 0)

-- `convert_u8_slice_to_u32_fields`, with its assertion.
unfoldable pub convert_u8_slice_to_u32_fields : List ℕ → Circuit (List ℕ)
convert_u8_slice_to_u32_fields values = do guard (length values % 4 == 0); some (le_words values)

-- `(f.to_canonical_u64() as u32).to_le_bytes()`
unfoldable pub to_le_bytes : ℕ → List ℕ
to_le_bytes f =
    let w = f % 2 ^ 32 in (w % 256) ∷ (w / 256 % 256) ∷ (w / 65536 % 256) ∷ (w / 16777216) ∷ []

unfoldable pub convert_u32_fields_to_u8_vec : List ℕ → List ℕ
convert_u32_fields_to_u8_vec [] = []
convert_u32_fields_to_u8_vec (f ∷ fields) = to_le_bytes f ++ convert_u32_fields_to_u8_vec fields

module _ (b : Builder) where
  -- One step of the loop of `convert_u8_targets_to_u32`.
  unfoldable pub pack_chunk : ℕ → ℕ → ℕ → ℕ → ℕ
  pack_chunk b0 b1 b2 b3 = b.mul_add b3 16777216 (b.mul_add b2 65536 (b.mul_add b1 256 b0))

  unfoldable pub pack_loop : List ℕ → List ℕ
  pack_loop (b0 ∷ b1 ∷ b2 ∷ b3 ∷ rest) = pack_chunk b0 b1 b2 b3 ∷ pack_loop rest
  pack_loop (b0 ∷ b1 ∷ b2 ∷ []) = []
  pack_loop (b0 ∷ b1 ∷ []) = []
  pack_loop (b0 ∷ []) = []
  pack_loop [] = []

  -- `convert_u8_targets_to_u32`, with its assertion.
  unfoldable pub convert_u8_targets_to_u32 : List ℕ → Circuit (List ℕ)
  convert_u8_targets_to_u32 data_ = do guard (length data_ % 4 == 0); some (pack_loop data_)

-- `bytes_to_nibbles`
unfoldable pub bytes_to_nibbles : List ℕ → List ℕ
bytes_to_nibbles [] = []
bytes_to_nibbles (c ∷ bytes) = (c / 16) ∷ (c % 16) ∷ bytes_to_nibbles bytes

-- The loop of `nibbles_to_bytes`, with the rounds that are left: byte i is made of the nibbles 2i
-- and 2i + 1. It reads `nibbles`: the padded copy that the function makes first is not used.
unfoldable pub nibbles_loop : List ℕ → ℕ → ℕ → List ℕ
nibbles_loop nibbles i zero = []
nibbles_loop nibbles i (suc rounds) =
    (get_or nibbles (i * 2) 0 * 16 % 256 + get_or nibbles (i * 2 + 1) 0 % 16)
    ∷ nibbles_loop nibbles (i + 1) rounds

unfoldable pub nibbles_to_bytes : List ℕ → List ℕ
unfolding nibbles_loop
nibbles_to_bytes nibbles = nibbles_loop nibbles 0 (length nibbles / 2)
