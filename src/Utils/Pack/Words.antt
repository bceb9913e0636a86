-- ===== src/Utils/Pack/Words.antt =====
-- Packed words: their number, their range, and packing a list in two parts.
use euclid_database.Prelude.{
  ℕ, ◌/◌, ◌%◌, ◌^◌, ◌<◌, ◌≡◌, refl, List, [], ◌∷◌, ◌++◌, length, All, arith,
}
use euclid_database.Plonky2.{Builder}
use euclid_database.Utils.Pack.{le_words, from_le_bytes, pack_loop}
use euclid_database.Utils.Pack.Laws.{AllBytes}

abbrev pub IsU32 : ℕ → Type 0
IsU32 w = w < 2 ^ 32

pub le_words-IsU32 : (bytes : List ℕ) → AllBytes bytes → All IsU32 (le_words bytes)
unfolding le_words from_le_bytes
le_words-IsU32 [] h = tt
le_words-IsU32 (x0 ∷ []) h = tt
le_words-IsU32 (x0 ∷ x1 ∷ []) h = tt
le_words-IsU32 (x0 ∷ x1 ∷ x2 ∷ []) h = tt
le_words-IsU32 (x0 ∷ x1 ∷ x2 ∷ x3 ∷ bytes) (h0, (h1, (h2, (h3, h)))) =
    (omega arith, le_words-IsU32 bytes h)

pub length-le_words : (bytes : List ℕ) → length (le_words bytes) ≡ length bytes / 4
unfolding le_words
length-le_words [] = omega arith
length-le_words (x0 ∷ []) = omega arith
length-le_words (x0 ∷ x1 ∷ []) = omega arith
length-le_words (x0 ∷ x1 ∷ x2 ∷ []) = omega arith
length-le_words (x0 ∷ x1 ∷ x2 ∷ x3 ∷ bytes) = omega (arith, length-le_words bytes)

pub le_words-append :
    (xs ys : List ℕ) → length xs % 4 ≡ 0 → le_words (xs ++ ys) ≡ le_words xs ++ le_words ys
unfolding le_words
le_words-append [] ys h = refl
le_words-append (x0 ∷ []) ys h = absurd (omega arith)
le_words-append (x0 ∷ x1 ∷ []) ys h = absurd (omega arith)
le_words-append (x0 ∷ x1 ∷ x2 ∷ []) ys h = absurd (omega arith)
le_words-append (x0 ∷ x1 ∷ x2 ∷ x3 ∷ xs) ys h = rw (le_words-append xs ys (omega arith)) refl

module _ (b : Builder) where
  pub length-pack_loop : (bytes : List ℕ) → length (pack_loop b bytes) ≡ length bytes / 4
  unfolding pack_loop
  length-pack_loop [] = omega arith
  length-pack_loop (x0 ∷ []) = omega arith
  length-pack_loop (x0 ∷ x1 ∷ []) = omega arith
  length-pack_loop (x0 ∷ x1 ∷ x2 ∷ []) = omega arith
  length-pack_loop (x0 ∷ x1 ∷ x2 ∷ x3 ∷ bytes) = omega (arith, length-pack_loop bytes)

  pub pack_loop-append :
      (xs ys : List ℕ)
      → length xs % 4 ≡ 0
      → pack_loop b (xs ++ ys) ≡ pack_loop b xs ++ pack_loop b ys
  unfolding pack_loop
  pack_loop-append [] ys h = refl
  pack_loop-append (x0 ∷ []) ys h = absurd (omega arith)
  pack_loop-append (x0 ∷ x1 ∷ []) ys h = absurd (omega arith)
  pack_loop-append (x0 ∷ x1 ∷ x2 ∷ []) ys h = absurd (omega arith)
  pack_loop-append (x0 ∷ x1 ∷ x2 ∷ x3 ∷ xs) ys h = rw (pack_loop-append xs ys (omega arith)) refl
