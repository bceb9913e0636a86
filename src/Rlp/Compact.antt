-- ===== src/Rlp/Compact.antt =====
-- `decode_compact_encoding` against the nibbles of the key bytes and the hex-prefix encoding.
use euclid_database.Prelude.{
  ℕ, zero, suc, ◌+◌, ◌-◌, ◌*◌, ◌/◌, ◌%◌, ◌^◌, ◌≤◌, ◌<◌, ◌≡◌, refl, Bool, true, false, List, [], ◌∷◌,
  some, Option, ltb, lt→ltb, ◌==◌, length, get_or, All-get_or, arith, ◌∙◌, if◌then◌else◌, bit,
  create_from, to_bits, ◌||◌,
}
use euclid_database.Plonky2.{Builder}
use euclid_database.Plonky2.Laws.{add_small}
use euclid_database.Utils.Compare.{num_to_bits}
use euclid_database.Utils.Compare.Laws.{num_to_bits_lem}
use euclid_database.Utils.Pack.Laws.{IsByte, AllBytes}
use euclid_database.Array.Access.{value_at_large}
use euclid_database.Rlp.{RlpHeader, compact_loop, decode_compact_encoding}
use euclid_database.Array.Access.{AllBytes-AllField}

-- The nibbles of the bytes; with an odd key they start one nibble earlier, at `prev`, and the last
-- nibble is left out.
abbrev pub aligned : Bool → ℕ → List ℕ → List ℕ
aligned odd prev [] = []
aligned false prev (c ∷ cs) = (c / 16) ∷ (c % 16) ∷ aligned false (c % 16) cs
aligned true prev (c ∷ cs) = prev ∷ (c / 16) ∷ aligned true (c % 16) cs

-- The n bytes from position i on.
unfoldable pub following : List ℕ → ℕ → ℕ → List ℕ
following input i n = create_from i n (λ j. get_or input j 0)

module _ (b : Builder) where
  pub split_byte : (c : ℕ) → c < 256 → b.split_low_high c 4 8 ≡ some (c % 16, c / 16)
  split_byte c h =
      let t : ltb c (2 ^ 8) ≡ true = lt→ltb c (2 ^ 8) h in
      b.split_low_high_lem c 4 8 (omega arith) (omega arith) (omega arith) ∙ rw t refl

  -- parity * (x - y) + y, the selection by arithmetic.
  choose :
      (odd : Bool) (x y : ℕ)
      → x < 16
      → y < 16
      → b.mul_add (bit odd) (b.sub x y) y ≡ (if odd then x else y)
  choose true x y hx hy = omega (arith, b.mul_add_lem 1 (b.sub x y) y, b.sub_lem x y)
  choose false x y hx hy = omega (arith, b.mul_add_lem 0 (b.sub x y) y)

  compact_loop_lem :
      (input : List ℕ) (odd : Bool) (prev i rounds : ℕ)
      → AllBytes input
      → 64 ≤ length input
      → prev < 16
      → i + rounds < 2 ^ 62
      → compact_loop b input (bit odd) prev i rounds
        ≡ some (aligned odd prev (following input (i + 1) rounds))
  unfolding compact_loop following
  compact_loop_lem input odd prev i zero f large hp small = refl
  compact_loop_lem input odd prev i (suc rounds) f large hp small =
      let c = get_or input (i + 1) 0 in
      let hc : c < 256 = All-get_or IsByte input (i + 1) 0 f (omega arith) in
      rw
        (
          add_small b i 1 (omega arith),
          value_at_large b input (i + 1) (AllBytes-AllField input f) large,
          split_byte c hc,
          compact_loop_lem input odd (c % 16) (i + 1) rounds f large (omega arith) (omega arith),
          choose odd prev (c / 16) hp (omega arith),
          choose odd (c / 16) (c % 16) (omega arith) (omega arith),
        )
        (by_parity odd prev c _)
    where
      by_parity :
          (odd : Bool) (prev c : ℕ) (cs : List ℕ)
          → ◌≡◌ {A = Option (List ℕ)}
              (some (
                (if odd then prev else c / 16)
                ∷ (if odd then c / 16 else c % 16)
                ∷ aligned odd (c % 16) cs))
              (some (aligned odd prev (c ∷ cs)))
      by_parity true prev c cs = refl
      by_parity false prev c cs = refl

  pub padding_test :
      (odd : Bool) (x : ℕ) → x < 16 → b.is_equal (b.mul_sub (bit odd) x x) 0 ≡ (odd || x == 0)
  padding_test true x h =
      let e : b.mul_sub 1 x x ≡ 0 = omega (arith, b.mul_sub_lem 1 x x) in
      rw (e, b.is_equal_lem 0 0) refl
  padding_test false x h = b.is_equal_lem (b.mul_sub 0 x x) 0 ∙ ground (arith, b.mul_sub_lem 0 x x)

  key_length :
      (odd : Bool) (n : ℕ)
      → 1 ≤ n
      → n < 2 ^ 61
      → b.add (b.mul 2 n) (b.sub (bit odd) 2) ≡ 2 * n + bit odd - 2
  key_length true n pos h =
      omega (arith, b.add_lem (b.mul 2 n) (b.sub 1 2), b.mul_lem 2 n, b.sub_lem 1 2)
  key_length false n pos h =
      omega (arith, b.add_lem (b.mul 2 n) (b.sub 0 2), b.mul_lem 2 n, b.sub_lem 0 2)

  pub first_bits : (x : ℕ) → x < 16 → num_to_bits b 4 x ≡ some (to_bits 4 x)
  first_bits x h = num_to_bits_lem b 4 x (omega arith) (omega arith) ∙ rw (lt→ltb x (2 ^ 4) h) refl

  -- On bytes the gadget is satisfied. It returns the 64 nibbles that follow the flag, or the flag and
  -- its padding nibble for an even key; the length 2 * len + parity - 2; and whether the padding
  -- nibble is 0, which an odd key does not have.
  pub decode_compact_encoding_lem :
      (input : List ℕ) (h : RlpHeader)
      → AllBytes input
      → 64 ≤ length input
      → h.offset < 2 ^ 61
      → 1 ≤ h.len
      → h.len < 2 ^ 61
      → decode_compact_encoding b input h ≡ (
          let c = get_or input h.offset 0 in
          let odd = c / 16 % 2 == 1 in
          some (
            record {
              arr = aligned odd (c % 16) (following input (h.offset + 1) 32);
              real_len = 2 * h.len + bit odd - 2;
            },
            odd || c % 16 == 0,
          ))
  unfolding decode_compact_encoding
  decode_compact_encoding_lem input h f large ho pos hl =
      let c = get_or input h.offset 0 in
      let odd = c / 16 % 2 == 1 in
      let hc : c < 256 = All-get_or IsByte input h.offset 0 f (omega arith) in
      rw
        (
          value_at_large b input h.offset (AllBytes-AllField input f) large,
          split_byte c hc,
          first_bits (c / 16) (omega arith),
          padding_test odd (c % 16) (omega arith),
          compact_loop_lem input odd (c % 16) h.offset 32 f large (omega arith) (omega arith),
          key_length odd h.len pos hl,
        )
        refl
