-- ===== src/LengthExtract/Value.antt =====
-- The extracted length is the number whose RLP encoding the leaf holds.
use euclid_database.Prelude.{
  ℕ, zero, suc, ◌+◌, ◌-◌, ◌*◌, ◌^◌, ◌≤◌, ◌<◌, ◌≡◌, refl, true, false, List, [], ◌∷◌, ◌++◌, ◌>>=◌,
  some, length, take, drop, get_or, replicate, ltb, ltb→lt, lt→ltb, Bool-cases, inl, inr,
  All-append, All-take, All-drop, arith, ap, ◌∙◌, length-append, length-slice, take-append,
}
use euclid_database.Plonky2.{Builder}
use euclid_database.Plonky2.Laws.{sub_small}
use euclid_database.Utils.Compare.{less_than}
use euclid_database.Utils.Compare.Laws.{comparisons}
use euclid_database.Utils.Pack.{convert_u8_to_u32_slice, le_words, from_le_bytes}
use euclid_database.Utils.Pack.Laws.{IsByte, AllBytes, convert_u8_to_u32_lem}
use euclid_database.Array.{extract_array, reverse_array}
use euclid_database.Array.Access.{AllBytes-AllField}
use euclid_database.Array.Reads.{extract_array_lem}
use euclid_database.Array.Padding.{normalize_left_lem}
use euclid_database.Array.Vectors.{normalize_left, convert_u8_to_u32}
use euclid_database.Rlp.Encode.{string, encode, head, head_bytes, stands_for_itself}
use euclid_database.LengthExtract.{extract_length}

-- The number of big-endian bytes.
abbrev pub from_be_bytes : ℕ → List ℕ → ℕ
from_be_bytes acc [] = acc
from_be_bytes acc (x ∷ bytes) = from_be_bytes (256 * acc + x) bytes

-- Four bytes in big-endian order.
word_lem :
    (b : Builder) (x y z w : ℕ)
    → AllBytes (x ∷ y ∷ z ∷ w ∷ [])
    → get_or (convert_u8_to_u32 b (reverse_array (x ∷ y ∷ z ∷ w ∷ []) 0)) 0 0
      ≡ from_be_bytes 0 (x ∷ y ∷ z ∷ w ∷ [])
unfolding reverse_array convert_u8_to_u32_slice le_words from_le_bytes
word_lem b x y z w (h0, (h1, (h2, (h3, _)))) =
    ap (λ r. get_or r 0 0) (convert_u8_to_u32_lem b (w ∷ z ∷ y ∷ x ∷ []) (h3, (h2, (h1, (h0, tt)))))
    ∙ omega arith

padded_lem :
    (b : Builder) (ds : List ℕ)
    → AllBytes ds
    → length ds ≤ 4
    → get_or (convert_u8_to_u32 b (reverse_array (replicate (4 - length ds) 0 ++ ds) 0)) 0 0
      ≡ from_be_bytes 0 ds
padded_lem b [] h k =
    word_lem b 0 0 0 0 (omega arith, (omega arith, (omega arith, (omega arith, tt))))
padded_lem b (x ∷ []) (h, _) k =
    word_lem b 0 0 0 x (omega arith, (omega arith, (omega arith, (h, tt))))
padded_lem b (x ∷ y ∷ []) (h, (i, _)) k =
    word_lem b 0 0 x y (omega arith, (omega arith, (h, (i, tt))))
padded_lem b (x ∷ y ∷ z ∷ []) (h, (i, (j, _))) k =
    word_lem b 0 x y z (omega arith, (h, (i, (j, tt))))
padded_lem b (x ∷ y ∷ z ∷ w ∷ []) h k = word_lem b x y z w h
padded_lem b (x ∷ y ∷ z ∷ w ∷ v ∷ ds) h k = absurd (omega arith)

pub take-take : (m n : ℕ) (xs : List ℕ) → m ≤ n → take m (take n xs) ≡ take m xs
take-take zero n xs h = refl
take-take (suc m) zero xs h = absurd (omega arith)
take-take (suc m) (suc n) [] h = refl
take-take (suc m) (suc n) (x ∷ xs) h = ap (λ ys. x ∷ ys) (take-take m n xs (omega arith))

not_less : (x : ℕ) → 128 ≤ x → ltb x 128 ≡ false
not_less x h = ground arith

module _ (b : Builder) where
  -- From the offset and the length of the number on.
  extracted :
      (leaf ds rest : List ℕ) (offset : ℕ)
      → AllBytes leaf
      → AllBytes ds
      → length leaf < 2 ^ 61
      → offset + 4 ≤ length leaf
      → length ds ≤ 4
      → drop offset leaf ≡ ds ++ rest
      → (extract_array b leaf offset 4 >>= λ arr.
          normalize_left b (record { arr = arr; real_len = length ds }) 4 >>= λ padded.
          some (get_or (convert_u8_to_u32 b (reverse_array padded 0)) 0 0))
        ≡ some (from_be_bytes 0 ds)
  extracted leaf ds rest offset f g small fits short e =
      let arr = take 4 (drop offset leaf) in
      let size : length arr ≡ 4 = length-slice leaf offset 4 fits in
      let front : take (length ds) arr ≡ ds =
        take-take (length ds) 4 (drop offset leaf) short
        ∙ ap (take (length ds)) e
        ∙ take-append ds rest in
      let fields =
        AllBytes-AllField arr
          (All-take IsByte 4 (drop offset leaf) (All-drop IsByte offset leaf f)) in
      let n =
        normalize_left_lem b (record { arr = arr; real_len = length ds }) 4 fields
          (omega (arith, size)) (omega (arith, size)) short in
      let value = λ (xs : List ℕ). some (get_or (convert_u8_to_u32 b (reverse_array xs 0)) 0 0) in
      rw (extract_array_lem b leaf offset 4 (AllBytes-AllField leaf f) fits small, n)
        (ap (λ xs. value (replicate (4 - length ds) 0 ++ xs)) front
          ∙ ap some (padded_lem b ds g short))

  single :
      (x : ℕ) (rest : List ℕ)
      → x < 128
      → AllBytes rest
      → 4 ≤ length rest
      → length rest < 2 ^ 60
      → extract_length b (x ∷ rest) ≡ some x
  unfolding extract_length
  single x rest h f fits small =
      let t : less_than b x 128 8 ≡ some true =
        (comparisons b x 128 8 (omega arith) (omega arith) (omega arith)).0
        ∙ ap some (lt→ltb x 128 h) in
      rw (t, b.select_lem true 1 (b.sub x 128), b.select_lem true 0 1)
        (extracted (x ∷ rest) (x ∷ []) rest 0 (omega (arith, h), f) (omega (arith, h), tt)
            (omega arith) (omega arith) (omega arith) refl
          ∙ ap some (omega arith))

  long :
      (ds rest : List ℕ)
      → AllBytes ds
      → AllBytes rest
      → length ds ≤ 4
      → 4 ≤ length ds + length rest
      → length rest < 2 ^ 60
      → extract_length b ((128 + length ds) ∷ (ds ++ rest)) ≡ some (from_be_bytes 0 ds)
  unfolding extract_length
  long ds rest f g short fits small =
      let n = length ds in
      let t : less_than b (128 + n) 128 8 ≡ some false =
        (comparisons b (128 + n) 128 8 (omega arith) (omega arith) (omega arith)).0
        ∙ ap some (not_less (128 + n) (omega arith)) in
      let s : b.sub (128 + n) 128 ≡ n =
        sub_small b (128 + n) 128 (omega arith) (omega arith) ∙ omega arith in
      let l = length-append ds rest in
      rw (t, s, b.select_lem false 1 n, b.select_lem false 0 1)
        (extracted ((128 + n) ∷ (ds ++ rest)) ds rest 1 (omega arith, All-append IsByte ds rest f g)
          f (omega arith) (omega arith) short refl)

  -- For a number of at most four bytes in big-endian order, and bytes behind its RLP encoding that
  -- fill the leaf up to five at least, less than 2^60 of them: the extracted length is the number.
  pub extract_length-encode :
      (ds rest : List ℕ)
      → AllBytes ds
      → AllBytes rest
      → length ds ≤ 4
      → 4 ≤ length rest
      → length rest < 2 ^ 60
      → extract_length b (encode (string ds) ++ rest) ≡ some (from_be_bytes 0 ds)
  unfolding encode head head_bytes stands_for_itself
  extract_length-encode [] rest f g short fits small = long [] rest tt g short (omega arith) small
  extract_length-encode (x ∷ []) rest f g short fits small = elim (Bool-cases (ltb x 128)) [
    | inl t ↦ rw t (single x rest (ltb→lt x 128 t) g fits small ∙ ap some (omega arith))
    | inr t ↦ rw t (long (x ∷ []) rest f g short (omega arith) small)
  ]
  extract_length-encode (x ∷ y ∷ []) rest f g short fits small =
      long (x ∷ y ∷ []) rest f g short (omega arith) small
  extract_length-encode (x ∷ y ∷ z ∷ []) rest f g short fits small =
      long (x ∷ y ∷ z ∷ []) rest f g short (omega arith) small
  extract_length-encode (x ∷ y ∷ z ∷ w ∷ []) rest f g short fits small =
      long (x ∷ y ∷ z ∷ w ∷ []) rest f g short (omega arith) small
  extract_length-encode (x ∷ y ∷ z ∷ w ∷ v ∷ ds) rest f g short fits small = absurd (omega arith)
