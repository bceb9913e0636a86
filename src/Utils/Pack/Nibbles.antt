-- ===== src/Utils/Pack/Nibbles.antt =====
-- Bytes as nibbles, the high nibble first, and back.
use euclid_database.Prelude.{
  ℕ, zero, suc, ◌+◌, ◌*◌, ◌/◌, ◌%◌, ◌<◌, ◌≡◌, refl, List, [], ◌∷◌, ◌++◌, length, All, arith, ap,
  ◌∙◌,
}
use euclid_database.Utils.Pack.{bytes_to_nibbles, nibbles_loop, nibbles_to_bytes}
use euclid_database.Utils.Pack.Laws.{AllBytes}

-- Two nibbles for each byte, and each below 16.
pub bytes_to_nibbles-nibbles :
    (bytes : List ℕ)
    → AllBytes bytes
    → (length (bytes_to_nibbles bytes) ≡ 2 * length bytes)
      × All (λ n. n < 16) (bytes_to_nibbles bytes)
unfolding bytes_to_nibbles
bytes_to_nibbles-nibbles [] h = (refl, tt)
bytes_to_nibbles-nibbles (c ∷ bytes) h =
    let ih = bytes_to_nibbles-nibbles bytes h.1 in
    (omega (arith, ih.0), (omega (arith, h.0), (omega arith, ih.1)))

-- A nibble pair in front shifts the reads by two.
nibbles_loop-shift :
    (n m : ℕ) (nibbles : List ℕ) (i rounds : ℕ)
    → nibbles_loop (n ∷ m ∷ nibbles) (i + 1) rounds ≡ nibbles_loop nibbles i rounds
unfolding nibbles_loop
nibbles_loop-shift n m nibbles i zero = refl
nibbles_loop-shift n m nibbles i (suc rounds) =
    let e : (i + 1) * 2 ≡ suc (suc (i * 2)) = omega arith in
    let e' : (i + 1) * 2 + 1 ≡ suc (suc (i * 2 + 1)) = omega arith in
    rw (e', e, nibbles_loop-shift n m nibbles (i + 1) rounds) refl

nibbles_to_bytes_step :
    (n m : ℕ) (nibbles : List ℕ)
    → nibbles_to_bytes (n ∷ m ∷ nibbles) ≡ (n * 16 % 256 + m % 16) ∷ nibbles_to_bytes nibbles
unfolding nibbles_to_bytes nibbles_loop
nibbles_to_bytes_step n m nibbles =
    let e : suc (suc (length nibbles)) / 2 ≡ suc (length nibbles / 2) = omega arith in
    rw e (
      ap (λ r. (n * 16 % 256 + m % 16) ∷ r) (nibbles_loop-shift n m nibbles 0 (length nibbles / 2)))

-- `nibbles_to_bytes` undoes `bytes_to_nibbles`.
pub nibbles_to_bytes-bytes_to_nibbles :
    (bytes : List ℕ) → AllBytes bytes → nibbles_to_bytes (bytes_to_nibbles bytes) ≡ bytes
unfolding bytes_to_nibbles
nibbles_to_bytes-bytes_to_nibbles [] h = unfold nibbles_to_bytes in refl
nibbles_to_bytes-bytes_to_nibbles (c ∷ bytes) h =
    let e : c / 16 * 16 % 256 + c % 16 % 16 ≡ c = omega (arith, h.0) in
    nibbles_to_bytes_step (c / 16) (c % 16) (bytes_to_nibbles bytes)
    ∙ rw (e, nibbles_to_bytes-bytes_to_nibbles bytes h.1) refl

-- Of an odd number of nibbles the last is dropped, whatever it is: the left padding that the
-- function makes has no effect.
pub nibbles_to_bytes-odd :
    (nibbles : List ℕ) (last : ℕ)
    → length nibbles % 2 ≡ 0
    → nibbles_to_bytes (nibbles ++ last ∷ []) ≡ nibbles_to_bytes nibbles
nibbles_to_bytes-odd [] last h = unfold nibbles_to_bytes nibbles_loop in refl
nibbles_to_bytes-odd (n ∷ []) last h = absurd (omega arith)
nibbles_to_bytes-odd (n ∷ m ∷ nibbles) last h =
    rw (nibbles_to_bytes_step n m (nibbles ++ last ∷ []), nibbles_to_bytes_step n m nibbles)
      (ap (λ r. (n * 16 % 256 + m % 16) ∷ r) (nibbles_to_bytes-odd nibbles last (omega arith)))
