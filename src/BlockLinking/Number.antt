-- ===== src/BlockLinking/Number.antt =====
-- The number that the circuit reads in a header.
use euclid_database.Prelude.{
  ℕ, ◌+◌, ◌*◌, ◌^◌, ◌≤◌, ◌<◌, ◌≡◌, refl, List, [], ◌∷◌, some, ltb, ◌>>=◌, if◌then◌else◌, bit, sym,
  zero, suc, Bool-cases, inl, inr, length, get_or, take, drop, drop-cons, All-get_or, arith, ap,
  ◌∙◌,
}
use euclid_database.Plonky2.{Builder}
use euclid_database.Plonky2.Laws.{sub_small}
use euclid_database.Utils.Compare.{less_than}
use euclid_database.Utils.Compare.Laws.{less_than_lem}
use euclid_database.Utils.Pack.{convert_u8_to_u32_slice, le_words, from_le_bytes}
use euclid_database.Utils.Pack.Laws.{IsByte, AllBytes, convert_u8_to_u32_lem}
use euclid_database.Array.Vectors.{convert_u8_to_u32}
use euclid_database.LengthExtract.Value.{from_be_bytes, take-take}
use euclid_database.BlockLinking.{number_loop, header_number, sepolia_number_len}

module _ (b : Builder) where
  -- Three bytes in big-endian order.
  three_bytes :
      (x y z : ℕ)
      → AllBytes (x ∷ y ∷ z ∷ [])
      → get_or (convert_u8_to_u32 b (z ∷ y ∷ x ∷ 0 ∷ [])) 0 0 ≡ x * 65536 + y * 256 + z
  unfolding convert_u8_to_u32_slice le_words from_le_bytes
  three_bytes x y z (hx, (hy, (hz, _))) =
      ap (λ r. get_or r 0 0)
        (convert_u8_to_u32_lem b (z ∷ y ∷ x ∷ 0 ∷ []) (hz, (hy, (hx, (omega arith, tt)))))
      ∙ omega arith

  slice_4 :
      (header : List ℕ) (at : ℕ)
      → at + 4 ≤ length header
      → take 4 (drop at header)
        ≡ get_or header at 0
          ∷ get_or header (suc at) 0
          ∷ get_or header (suc (suc at)) 0
          ∷ get_or header (suc (suc (suc at))) 0
          ∷ []
  slice_4 header at h =
      rw
        (
          drop-cons header at 0 (omega arith),
          drop-cons header (suc at) 0 (omega arith),
          drop-cons header (suc (suc at)) 0 (omega arith),
          drop-cons header (suc (suc (suc at))) 0 (omega arith),
        )
        refl

  -- The round on the fourth byte c, behind a number w of three.
  fourth_lem :
      (s n w c : ℕ)
      → s ≡ n
      → 3 ≤ n
      → n ≤ 4
      → w < 16777216
      → IsByte c
      → (less_than b 3 s 2 >>= λ is_block_number_byte.
          some (b.mul_add (bit is_block_number_byte) (b.mul_add 255 w c) w))
        ≡ some (if ltb 3 n then 256 * w + c else w)
  fourth_lem s n w c e low high hw hc =
      rw
        (
          e,
          less_than_lem b 3 n 2 (omega arith) (omega arith) (omega arith) (omega arith)
              (omega arith),
        )
        (elim (Bool-cases (ltb 3 n)) [
          | inl t ↦ rw t (
              ap some (omega (arith, b.mul_add_lem 1 (b.mul_add 255 w c) w, b.mul_add_lem 255 w c)))
          | inr t ↦ rw t (ap some (omega (arith, b.mul_add_lem 0 (b.mul_add 255 w c) w)))
        ])

  -- The big-endian number of the first n of four bytes.
  digits_lem :
      (n x y z c : ℕ)
      → 3 ≤ n
      → n ≤ 4
      → AllBytes (x ∷ y ∷ z ∷ c ∷ [])
      → ((if ltb 3 n then 256 * (x * 65536 + y * 256 + z) + c else x * 65536 + y * 256 + z)
          ≡ from_be_bytes 0 (take n (x ∷ y ∷ z ∷ c ∷ [])))
        × (from_be_bytes 0 (take n (x ∷ y ∷ z ∷ c ∷ [])) < 2 ^ 32)
  digits_lem zero x y z c low high f = absurd (omega arith)
  digits_lem (suc zero) x y z c low high f = absurd (omega arith)
  digits_lem (suc (suc zero)) x y z c low high f = absurd (omega arith)
  digits_lem (suc (suc (suc zero))) x y z c low high (hx, (hy, (hz, (hc, _)))) =
      (omega arith, omega arith)
  digits_lem (suc (suc (suc (suc zero)))) x y z c low high (hx, (hy, (hz, (hc, _)))) =
      (omega arith, omega arith)
  digits_lem (suc (suc (suc (suc (suc n))))) x y z c low high f = absurd (omega arith)

  -- For a header of bytes, 454 at least, whose number has a length of three or four bytes in its RLP
  -- header: with a minimum of three bytes the circuit reads the big-endian number of these bytes,
  -- which has 32 bits.
  pub header_number-from_be_bytes :
      (header : List ℕ) (n : ℕ)
      → AllBytes header
      → 454 ≤ length header
      → get_or header 449 0 ≡ 128 + n
      → 3 ≤ n
      → n ≤ 4
      → (header_number b sepolia_number_len header
          ≡ some (from_be_bytes 0 (take n (drop 450 header))))
        × (from_be_bytes 0 (take n (drop 450 header)) < 2 ^ 32)
  unfolding header_number number_loop
  header_number-from_be_bytes header n f size e low high =
      let byte : (i : ℕ) → IsByte (get_or header i 0) =
        λ i. All-get_or IsByte header i 0 f (omega arith) in
      let x = get_or header 450 0 in
      let y = get_or header 451 0 in
      let z = get_or header 452 0 in
      let c = get_or header 453 0 in
      let word = get_or (convert_u8_to_u32 b (z ∷ y ∷ x ∷ 0 ∷ [])) 0 0 in
      let hw : word ≡ x * 65536 + y * 256 + z =
        three_bytes x y z (byte 450, (byte 451, (byte 452, tt))) in
      let bound : word < 16777216 = omega (arith, hw, byte 450, byte 451, byte 452) in
      let es : b.sub (get_or header 449 0) 128 ≡ n =
        rw e (sub_small b (128 + n) 128 (omega arith) (omega arith) ∙ omega arith) in
      let slice : take n (drop 450 header) ≡ take n (x ∷ y ∷ z ∷ c ∷ []) =
        sym (take-take n 4 (drop 450 header) high) ∙ ap (λ r. take n r) (slice_4 header 450 size) in
      let digits =
        digits_lem n x y z c low high (byte 450, (byte 451, (byte 452, (byte 453, tt)))) in
      let run : header_number b sepolia_number_len header
          ≡ some (if ltb 3 n then 256 * word + c else word) =
        fourth_lem (b.sub (get_or header 449 0) 128) n word c es low high bound (byte 453) in
      rw slice ((run ∙ rw hw (ap some digits.0)), digits.1)
