-- ===== src/Rlp/HexPrefix.antt =====
-- The hex-prefix encoding of a key, as Ethereum defines it, and that the circuit decodes it.
use native.Mathlib.Nat.{add-zero}
use euclid_database.Prelude.{
  ℕ, suc, ◌+◌, ◌-◌, ◌*◌, ◌/◌, ◌%◌, ◌^◌, ◌≤◌, ◌<◌, ◌≡◌, refl, Bool, true, false, List, [], ◌∷◌, ◌++◌,
  some, ◌==◌, ◌||◌, length, get_or, take, drop, All, arith, ap, ◌∙◌, sym, bit, create_from-append,
  create_from-get_or, create_from, drop-append_right, take-append, length-append,
  get_or-append_right, Bool-cases, inl, inr, subst, length-create_from, if◌then◌else◌,
}
use euclid_database.Plonky2.{Builder}
use euclid_database.Utils.Pack.Laws.{AllBytes}
use euclid_database.Array.{VectorWire}
use euclid_database.Rlp.{RlpHeader, decode_compact_encoding}
use euclid_database.Rlp.Compact.{aligned, following, decode_compact_encoding_lem}

abbrev pub AllNibbles : List ℕ → Type 0
AllNibbles = All (λ n. n < 16)

-- Two nibbles to a byte; the callers have an even number of them.
abbrev pub pairs : List ℕ → List ℕ
pairs [] = []
pairs (n ∷ []) = []
pairs (n ∷ m ∷ ns) = (n * 16 + m) ∷ pairs ns

-- The flag of the first nibble: 2 for a leaf and 0 for an extension, and 1 more for an odd key.
unfoldable pub hex_prefix : Bool → List ℕ → List ℕ
hex_prefix leaf ns =
    let flag = 2 * bit leaf in
    if length ns % 2 == 0
    then (flag * 16) ∷ pairs ns
    else ((flag + 1) * 16 + get_or ns 0 0) ∷ pairs (drop 1 ns)

length-pairs : (ns : List ℕ) → length (pairs ns) ≡ length ns / 2
length-pairs [] = omega arith
length-pairs (n ∷ []) = omega arith
length-pairs (n ∷ m ∷ ns) = omega (arith, length-pairs ns)

aligned-even :
    (ns rest : List ℕ) (p : ℕ)
    → AllNibbles ns
    → length ns % 2 ≡ 0
    → take (length ns) (aligned false p (pairs ns ++ rest)) ≡ ns
aligned-even [] rest p h e = refl
aligned-even (n ∷ []) rest p h e = absurd (omega arith)
aligned-even (n ∷ m ∷ ns) rest p h e =
    let q : (n * 16 + m) / 16 ≡ n = omega (arith, h.1.0) in
    let r : (n * 16 + m) % 16 ≡ m = omega (arith, h.1.0) in
    rw (q, r, aligned-even ns rest m h.1.1 (omega arith)) refl

aligned-odd :
    (ns rest : List ℕ) (p : ℕ)
    → AllNibbles ns
    → length ns % 2 ≡ 0
    → 0 < length rest
    → take (suc (length ns)) (aligned true p (pairs ns ++ rest)) ≡ p ∷ ns
aligned-odd [] [] p h e pos = absurd (omega arith)
aligned-odd [] (c ∷ rest) p h e pos = refl
aligned-odd (n ∷ []) rest p h e pos = absurd (omega arith)
aligned-odd (n ∷ m ∷ ns) rest p h e pos =
    let q : (n * 16 + m) / 16 ≡ n = omega (arith, h.1.0) in
    let r : (n * 16 + m) % 16 ≡ m = omega (arith, h.1.0) in
    rw (q, r, aligned-odd ns rest m h.1.1 (omega arith) pos) refl

-- The bytes that follow `pre` and one more byte begin with `ps`.
following-append :
    (pre ps post : List ℕ) (c n : ℕ)
    → length ps ≤ n
    → (rest : List ℕ) × (following (pre ++ (c ∷ (ps ++ post))) (length pre + 1) n ≡ ps ++ rest)
      × (length ps + length rest ≡ n)
unfolding following
following-append pre ps post c n h =
    let xs = pre ++ (c ∷ (ps ++ post)) in
    let i = length pre + 1 in
    let k = length ps in
    let read = λ (j : ℕ). get_or xs j 0 in
    let size : length xs ≡ length pre + (1 + (k + length post)) =
      length-append pre (c ∷ (ps ++ post)) ∙ omega (arith, length-append ps post) in
    let front : create_from i k read ≡ ps =
      create_from-get_or xs i k 0 (omega arith)
      ∙ ap (λ r. take k r) (drop-append_right pre (c ∷ (ps ++ post)) 1)
      ∙ take-append ps post in
    let sum_ : k + (n - k) ≡ n = omega arith in
    (
      create_from (i + k) (n - k) read,
      subst (λ m. create_from i m read ≡ ps ++ create_from (i + k) (n - k) read) sum_
          (create_from-append i k (n - k) read
            ∙ ap (λ r. r ++ create_from (i + k) (n - k) read) front),
      omega (arith, length-create_from (i + k) (n - k) read),
    )

All-drop : (ns : List ℕ) → AllNibbles ns → AllNibbles (drop 1 ns)
All-drop [] h = tt
All-drop (n ∷ ns) h = h.1

get_or-front : (pre xs : List ℕ) → get_or (pre ++ xs) (length pre) 0 ≡ get_or xs 0 0
get_or-front pre xs =
    ap (λ k. get_or (pre ++ xs) k 0) (sym (add-zero (length pre))) ∙ get_or-append_right pre xs 0 0

length-hex_prefix : (leaf : Bool) (ns : List ℕ) → length (hex_prefix leaf ns) ≡ length ns / 2 + 1
unfolding hex_prefix
length-hex_prefix leaf [] = refl
length-hex_prefix leaf (n ∷ ns) = elim (Bool-cases (suc (length ns) % 2 == 0)) [
  | inl even ↦ rw even (omega (arith, length-pairs (n ∷ ns)))
  | inr odd ↦ rw odd (ground (arith, length-pairs ns))
]

-- The header of a key of n nibbles that stands behind `pre`.
abbrev pub key_header : List ℕ → ℕ → RlpHeader
key_header pre n = record { len = n / 2 + 1; offset = length pre; data_type = 0 }

-- What a decoded key is.
abbrev pub IsKey : List ℕ → VectorWire → Type 0
IsKey ns v = (v.real_len ≡ length ns) × (take v.real_len v.arr ≡ ns)

flag_parity : (leaf : Bool) → 2 * bit leaf % 2 ≡ 0
flag_parity true = refl
flag_parity false = refl

module _ (b : Builder) where
  -- The decoder on a first byte c and the bytes `ps`, for a key of n nibbles.
  decode_at :
      (pre post ps : List ℕ) (c n : ℕ) (odd : Bool)
      → AllBytes (pre ++ (c ∷ (ps ++ post)))
      → 64 ≤ length (pre ++ (c ∷ (ps ++ post)))
      → length pre < 2 ^ 61
      → n ≤ 64
      → length ps ≤ 32
      → (c / 16 % 2 == 1) ≡ odd
      → (odd || c % 16 == 0) ≡ true
      → (rest : List ℕ) × (decode_compact_encoding b (pre ++ (c ∷ (ps ++ post))) (key_header pre n)
          ≡ some (
            record {
              arr = aligned odd (c % 16) (ps ++ rest);
              real_len = 2 * (n / 2 + 1) + bit odd - 2;
            },
            true,
          ))
        × (length ps + length rest ≡ 32)
  decode_at pre post ps c n odd f large small hn hp parity check =
      let xs = pre ++ (c ∷ (ps ++ post)) in
      let (rest, e, total) = following-append pre ps post c 32 hp in
      let run =
        decode_compact_encoding_lem b xs (key_header pre n) f large small (omega arith)
          (omega arith) in
      (rest, run ∙ rw (get_or-front pre (c ∷ (ps ++ post)), parity, check, e) refl, total)

  decode_even :
      (flag : ℕ) (pre post ns : List ℕ)
      → flag % 2 ≡ 0
      → AllBytes (pre ++ ((flag * 16) ∷ (pairs ns ++ post)))
      → 64 ≤ length (pre ++ ((flag * 16) ∷ (pairs ns ++ post)))
      → length pre < 2 ^ 61
      → AllNibbles ns
      → length ns ≤ 64
      → length ns % 2 ≡ 0
      → (v : VectorWire) × (decode_compact_encoding b
            (pre ++ ((flag * 16) ∷ (pairs ns ++ post)))
            (key_header pre (length ns))
          ≡ some (v, true))
        × IsKey ns v
  decode_even flag pre post ns hf f large small nib short even =
      let (rest, run, total) =
        decode_at pre post (pairs ns) (flag * 16) (length ns) false f large small short
          (omega (arith, length-pairs ns)) (ground arith) (ground arith) in
      let len : 2 * (length ns / 2 + 1) + 0 - 2 ≡ length ns = omega arith in
      (
        record {
          arr = aligned false (flag * 16 % 16) (pairs ns ++ rest);
          real_len = 2 * (length ns / 2 + 1) + 0 - 2;
        },
        run,
        (len, rw len (aligned-even ns rest (flag * 16 % 16) nib even)),
      )

  decode_odd :
      (flag n : ℕ) (pre post ns : List ℕ)
      → flag % 2 ≡ 0
      → AllBytes (pre ++ (((flag + 1) * 16 + n) ∷ (pairs ns ++ post)))
      → 64 ≤ length (pre ++ (((flag + 1) * 16 + n) ∷ (pairs ns ++ post)))
      → length pre < 2 ^ 61
      → n < 16
      → AllNibbles ns
      → length ns < 64
      → length ns % 2 ≡ 0
      → (v : VectorWire) × (decode_compact_encoding b
            (pre ++ (((flag + 1) * 16 + n) ∷ (pairs ns ++ post)))
            (key_header pre (suc (length ns)))
          ≡ some (v, true))
        × IsKey (n ∷ ns) v
  decode_odd flag n pre post ns hf f large small hn nib short even =
      let c = (flag + 1) * 16 + n in
      let low : c % 16 ≡ n = omega arith in
      let (rest, run, total) =
        decode_at pre post (pairs ns) c (suc (length ns)) true f large small (omega arith)
          (omega (arith, length-pairs ns)) (ground arith) refl in
      let len : 2 * (suc (length ns) / 2 + 1) + 1 - 2 ≡ suc (length ns) = omega arith in
      (
        record {
          arr = aligned true (c % 16) (pairs ns ++ rest);
          real_len = 2 * (suc (length ns) / 2 + 1) + 1 - 2;
        },
        run,
        (len, rw (len, low) (aligned-odd ns rest n nib even (omega (arith, length-pairs ns)))),
      )

  -- A key of at most 64 nibbles that stands in bytes in its hex-prefix encoding, as in a leaf or an
  -- extension node, is decoded: the vector's data are its nibbles, and the check passes.
  pub decode_compact_encoding-hex_prefix :
      (leaf : Bool) (pre post ns : List ℕ)
      → AllBytes (pre ++ (hex_prefix leaf ns ++ post))
      → 64 ≤ length (pre ++ (hex_prefix leaf ns ++ post))
      → length pre < 2 ^ 61
      → AllNibbles ns
      → length ns ≤ 64
      → (v : VectorWire) × (decode_compact_encoding b
            (pre ++ (hex_prefix leaf ns ++ post))
            (key_header pre (length ns))
          ≡ some (v, true))
        × IsKey ns v
  unfolding hex_prefix
  decode_compact_encoding-hex_prefix leaf pre post [] f large small nib short =
      decode_even (2 * bit leaf) pre post [] (flag_parity leaf) f large small nib short refl
  decode_compact_encoding-hex_prefix leaf pre post (n ∷ ns) f large small nib short =
      elim (Bool-cases (suc (length ns) % 2 == 0)) [
        | inl even ↦ rw even (
            decode_even (2 * bit leaf) pre post (n ∷ ns) (flag_parity leaf) (rw even at f)
              (rw even at large) small nib short (ground arith))
        | inr odd ↦ rw odd (
            decode_odd (2 * bit leaf) n pre post ns (flag_parity leaf) (rw odd at f)
              (rw odd at large) small nib.0 nib.1 (ground arith) (ground arith))
      ]
