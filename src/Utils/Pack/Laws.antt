-- ===== src/Utils/Pack/Laws.antt =====
-- Packing in a circuit and out of it agree, and unpacking undoes it.
use euclid_database.Prelude.{
  ℕ, suc, ◌+◌, ◌*◌, ◌/◌, ◌%◌, ◌^◌, ◌<◌, ◌≡◌, refl, List, [], ◌∷◌, ◌>>=◌, if◌then◌else◌, none, some,
  ◌==◌, length, All, arith, ap, sym, Bool-cases, inl, inr, ◌∙◌, true,
}
use mathlib.Core.Path.{ap₂}
use euclid_database.Plonky2.{Builder}
use euclid_database.Utils.Pack.{
  from_le_bytes, le_words, convert_u8_to_u32_slice, convert_u8_slice_to_u32_fields, to_le_bytes,
  convert_u32_fields_to_u8_vec, pack_chunk, pack_loop, convert_u8_targets_to_u32,
}
use euclid_database.Array.Vectors.{convert_u8_to_u32}

abbrev pub IsByte : ℕ → Type 0
IsByte c = c < 256

-- A list of bytes.
abbrev pub AllBytes : List ℕ → Type 0
AllBytes = All IsByte

-- Induction by words of four items.
to_le_bytes-from_le_bytes :
    (c0 c1 c2 c3 : ℕ)
    → IsByte c0
    → IsByte c1
    → IsByte c2
    → IsByte c3
    → to_le_bytes (from_le_bytes c0 c1 c2 c3) ≡ c0 ∷ c1 ∷ c2 ∷ c3 ∷ []
unfolding to_le_bytes from_le_bytes
to_le_bytes-from_le_bytes c0 c1 c2 c3 h0 h1 h2 h3 =
    let w = c0 + c1 * 256 + c2 * 65536 + c3 * 16777216 in
    let e : w % 2 ^ 32 ≡ w = omega arith in
    let e0 : w % 256 ≡ c0 = omega arith in
    let e1 : w / 256 % 256 ≡ c1 = omega arith in
    let e2 : w / 65536 % 256 ≡ c2 = omega arith in
    let e3 : w / 16777216 ≡ c3 = omega arith in rw (e, e0, e1, e2, e3) refl

pub unpack_words :
    (bytes : List ℕ)
    → AllBytes bytes
    → length bytes % 4 ≡ 0
    → convert_u32_fields_to_u8_vec (le_words bytes) ≡ bytes
unfolding convert_u32_fields_to_u8_vec le_words
unpack_words [] h e = refl
unpack_words (c0 ∷ []) h e = absurd (omega arith)
unpack_words (c0 ∷ c1 ∷ []) h e = absurd (omega arith)
unpack_words (c0 ∷ c1 ∷ c2 ∷ []) h e = absurd (omega arith)
unpack_words (c0 ∷ c1 ∷ c2 ∷ c3 ∷ rest) h e =
    rw
      (
        to_le_bytes-from_le_bytes c0 c1 c2 c3 h.0 h.1.0 h.1.1.0 h.1.1.1.0,
        unpack_words rest h.1.1.1.1 (omega arith),
      )
      refl

-- Packing bytes into fields and unpacking them gives the bytes back, for a multiple of four bytes.
pub unpack-pack :
    (bytes : List ℕ)
    → AllBytes bytes
    → length bytes % 4 ≡ 0
    → (convert_u8_slice_to_u32_fields bytes >>= λ w. some (convert_u32_fields_to_u8_vec w))
      ≡ some bytes
unfolding convert_u8_slice_to_u32_fields
unpack-pack bytes h e =
    let t : (length bytes % 4 == 0) ≡ true = ground arith in rw t (ap some (unpack_words bytes h e))

slice_step :
    (c0 c1 c2 c3 : ℕ) (rest : List ℕ)
    → convert_u8_to_u32_slice (c0 ∷ c1 ∷ c2 ∷ c3 ∷ rest)
      ≡ from_le_bytes c0 c1 c2 c3 ∷ convert_u8_to_u32_slice rest
unfolding convert_u8_to_u32_slice le_words
slice_step c0 c1 c2 c3 rest =
    let e : suc (suc (suc (suc (length rest)))) % 4 ≡ length rest % 4 = omega arith in
    elim (Bool-cases (length rest % 4 == 0)) [
      | inl whole ↦ rw (e, whole) refl
      | inr part ↦ rw (e, part) refl
    ]

module _ (b : Builder) where
  pack_chunk_lem :
      (c0 c1 c2 c3 : ℕ)
      → IsByte c0
      → IsByte c1
      → IsByte c2
      → IsByte c3
      → pack_chunk b c0 c1 c2 c3 ≡ from_le_bytes c0 c1 c2 c3
  unfolding pack_chunk from_le_bytes
  pack_chunk_lem c0 c1 c2 c3 h0 h1 h2 h3 = omega (
    arith,
    b.mul_add_lem c3 16777216 (b.mul_add c2 65536 (b.mul_add c1 256 c0)),
    b.mul_add_lem c2 65536 (b.mul_add c1 256 c0),
    b.mul_add_lem c1 256 c0,
  )

  pub pack_loop_lem : (bytes : List ℕ) → AllBytes bytes → pack_loop b bytes ≡ le_words bytes
  unfolding pack_loop le_words
  pack_loop_lem [] h = refl
  pack_loop_lem (c0 ∷ []) h = refl
  pack_loop_lem (c0 ∷ c1 ∷ []) h = refl
  pack_loop_lem (c0 ∷ c1 ∷ c2 ∷ []) h = refl
  pack_loop_lem (c0 ∷ c1 ∷ c2 ∷ c3 ∷ rest) h =
      rw (pack_chunk_lem c0 c1 c2 c3 h.0 h.1.0 h.1.1.0 h.1.1.1.0, pack_loop_lem rest h.1.1.1.1) refl

  -- On bytes the packing circuit computes what the two native packings compute, and on a length
  -- that is no multiple of four the build stops, as the native assertion does.
  pub convert_u8_targets_to_u32_lem :
      (bytes : List ℕ)
      → AllBytes bytes
      → (convert_u8_targets_to_u32 b bytes ≡ convert_u8_slice_to_u32_fields bytes)
        × (convert_u8_targets_to_u32 b bytes
            ≡ (if length bytes % 4 == 0 then some (convert_u8_to_u32_slice bytes) else none))
  unfolding convert_u8_targets_to_u32 convert_u8_slice_to_u32_fields convert_u8_to_u32_slice
  convert_u8_targets_to_u32_lem bytes h = (
    rw (pack_loop_lem bytes h) refl,
    elim (Bool-cases (length bytes % 4 == 0)) [
      | inl whole ↦ rw (pack_loop_lem bytes h, whole) refl
      | inr part ↦ rw (pack_loop_lem bytes h, part) refl
    ],
  )

  -- `Array::convert_u8_to_u32` agrees with the native packing at every length: both fill the last
  -- word with zeros.
  pub convert_u8_to_u32_lem :
      (bytes : List ℕ) → AllBytes bytes → convert_u8_to_u32 b bytes ≡ convert_u8_to_u32_slice bytes
  unfolding convert_u8_to_u32 convert_u8_to_u32_slice le_words from_le_bytes pack_chunk
  convert_u8_to_u32_lem [] h = refl
  convert_u8_to_u32_lem (c0 ∷ []) h = ap (λ w. w ∷ []) (omega arith)
  convert_u8_to_u32_lem (c0 ∷ c1 ∷ []) h =
      ap (λ w. w ∷ []) (omega (arith, b.mul_add_lem c1 256 c0, h.1.0))
  convert_u8_to_u32_lem (c0 ∷ c1 ∷ c2 ∷ []) h =
      ap (λ w. w ∷ [])
        (omega (
          arith,
          b.mul_add_lem c2 65536 (b.mul_add c1 256 c0),
          b.mul_add_lem c1 256 c0,
          h.1.0,
          h.1.1.0,
        ))
  convert_u8_to_u32_lem (c0 ∷ c1 ∷ c2 ∷ c3 ∷ rest) h =
      let word : b.mul_add c3 16777216 (b.mul_add c2 65536 (b.mul_add c1 256 c0))
          ≡ from_le_bytes c0 c1 c2 c3 =
        pack_chunk_lem c0 c1 c2 c3 h.0 h.1.0 h.1.1.0 h.1.1.1.0 in
      ap₂ (λ w ws. w ∷ ws) word (convert_u8_to_u32_lem rest h.1.1.1.1)
      ∙ sym (slice_step c0 c1 c2 c3 rest)
