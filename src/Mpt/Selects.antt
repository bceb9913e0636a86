-- ===== src/Mpt/Selects.antt =====
-- Constraints and selections of mpt_sequential, read back.
use euclid_database.Prelude.{
  ℕ, ◌≡◌, refl, Bool, true, false, ◌&&◌, List, some, length, get_or, bit, arith, ap, ◌∙◌,
  create_from_ext, create_from-get_or, take-length, take, length-create_from,
}
use euclid_database.Plonky2.{Builder}
use euclid_database.Array.{select}
use euclid_database.Mpt.{MptKeyWire, select_key}

module _ (b : Builder) where
  pub connect_true : (c : Bool) {u : Unit {0}} → b.connect (bit c) (bit true) ≡ some u → c ≡ true
  connect_true true e = refl
  connect_true false e = cc (b.connect_lem 0 1)

  pub connect_true' : (c : Bool) {u : Unit {0}} → b.connect (bit true) (bit c) ≡ some u → c ≡ true
  connect_true' true e = refl
  connect_true' false e = cc (b.connect_lem 1 0)

  pub select_left : (xs ys : List ℕ) → select b true xs ys ≡ xs
  unfolding select
  select_left xs ys =
      create_from_ext 0 (length xs) _ (λ i. get_or xs i 0)
        (λ i g l. b.select_lem true (get_or xs i 0) (get_or ys i 0))
      ∙ create_from-get_or xs 0 (length xs) 0 (omega arith)
      ∙ take-length xs

  pub select_right : (xs ys : List ℕ) → length xs ≡ length ys → select b false xs ys ≡ ys
  unfolding select
  select_right xs ys h =
      create_from_ext 0 (length xs) _ (λ i. get_or ys i 0)
        (λ i g l. b.select_lem false (get_or xs i 0) (get_or ys i 0))
      ∙ create_from-get_or ys 0 (length xs) 0 (omega arith)
      ∙ ap (λ n. take n ys) h
      ∙ take-length ys

  pub select_key-true : (k k' : MptKeyWire) → select_key b k true k' ≡ k
  unfolding select_key
  select_key-true k k' =
      ap (λ p. record { key = k.key; pointer = p }) (b.select_lem true k.pointer k'.pointer)

  pub select_key-false : (k k' : MptKeyWire) → k.key ≡ k'.key → select_key b k false k' ≡ k'
  unfolding select_key
  select_key-false k k' h =
      ap (λ p. record { key = k.key; pointer = p }) (b.select_lem false k.pointer k'.pointer)
      ∙ ap (λ ks. record { key = ks; pointer = k'.pointer }) h

  pub length-select : (c : Bool) (xs ys : List ℕ) → length (select b c xs ys) ≡ length xs
  unfolding select
  length-select c xs ys = length-create_from 0 (length xs) _

  -- What the loop's constraint says of a level.
  pub holds_in_parent :
      (real valid found : Bool) {u : Unit {0}}
      → b.connect (b.select real (bit (b.and_bool valid found)) (bit true)) (bit true) ≡ some u
      → real ≡ true
      → (valid ≡ true) × (found ≡ true)
  holds_in_parent real valid found e r =
      let s : b.select real (bit (b.and_bool valid found)) 1 ≡ bit (valid && found) =
        rw (r, b.and_bool_lem valid found) (b.select_lem true (bit (valid && found)) 1) in
      let both : (valid && found) ≡ true = connect_true (valid && found) (rw s at e) in
      (ground (arith, both), ground (arith, both))
