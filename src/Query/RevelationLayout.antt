-- ===== src/Query/RevelationLayout.antt =====
-- The layout of the public inputs of the revelation.
use euclid_database.Prelude.{
  ℕ, ◌+◌, ◌≡◌, refl, List, ◌∷◌, ◌++◌, length, take, drop, get_or, arith, ap, ◌∙◌, take_front,
  take_all, drop_behind,
}
use euclid_database.Query.Blocks.{offset_loop}
use euclid_database.Query.Revelation.{
  register_revelation, revelation_range, revealed_number, revealed_range, min_block_number,
  max_block_number, revealed_contract, revealed_user, revealed_slot, revealed_slot_length, nft_ids,
  block_header,
}

-- The values at the places of the readers.
abbrev pub Reads : ℕ → ℕ → ℕ → ℕ → List ℕ → List ℕ → ℕ → ℕ → List ℕ → List ℕ → List ℕ → Type 0
Reads number range low high contract user slot slot_length ids latest pis =
    let l = length ids in
    (revealed_number l pis ≡ number)
    × (revealed_range l pis ≡ range)
    × (min_block_number l pis ≡ low)
    × (max_block_number l pis ≡ high)
    × (revealed_contract l pis ≡ contract)
    × (revealed_user l pis ≡ user)
    × (revealed_slot l pis ≡ slot)
    × (revealed_slot_length l pis ≡ slot_length)
    × (nft_ids l pis ≡ ids)
    × (block_header l pis ≡ latest)

-- The readers return what was registered.
module _ (number range low high : ℕ) (contract user : List ℕ) (slot slot_length : ℕ)
    (ids latest : List ℕ) (h : length contract ≡ 5) (k : length user ≡ 5)
    (m : length latest ≡ 8) where
  abbrev registered_pis : List ℕ
  registered_pis =
      register_revelation number range low high contract user slot slot_length ids latest

  abbrev behind : List ℕ
  behind = slot ∷ slot_length ∷ (ids ++ latest)

  from_slot : (n i : ℕ) → 10 + i ≡ n → drop n (contract ++ (user ++ behind)) ≡ drop i behind
  from_slot n i e =
      drop_behind contract (user ++ behind) n (5 + i) (omega arith)
      ∙ drop_behind user behind (5 + i) i (omega arith)

  pub register_revelation_lem :
      Reads number range low high contract user slot slot_length ids latest registered_pis
  unfolding register_revelation offset_loop revelation_range revealed_number revealed_range
      min_block_number max_block_number revealed_contract revealed_user revealed_slot
      revealed_slot_length nft_ids block_header
  register_revelation_lem =
      let whole = number ∷ range ∷ low ∷ high ∷ (contract ++ (user ++ behind)) in
      let l = length ids in
      let e : 16 + l ≡ 4 + (12 + l) = omega arith in
      (
        refl,
        refl,
        refl,
        refl,
        take_front contract (user ++ behind) 5 h,
        ap (λ r. take 5 r) (drop_behind contract (user ++ behind) 5 0 (omega arith))
            ∙ take_front user behind 5 k,
        ap (λ r. get_or (take 1 r) 0 0) (from_slot 10 0 (omega arith)),
        ap (λ r. get_or (take 1 r) 0 0) (from_slot 11 1 (omega arith)),
        ap (λ r. take l r) (from_slot 12 2 (omega arith)) ∙ take_front ids latest l refl,
        ap (λ r. take 8 r)
              (drop_behind (number ∷ range ∷ low ∷ high ∷ contract) (user ++ behind) (16 + l)
                  (7 + l) (omega (arith, h))
                ∙ drop_behind user behind (7 + l) (2 + l) (omega arith)
                ∙ drop_behind (slot ∷ slot_length ∷ ids) latest (2 + l) 0 (omega arith))
            ∙ take_all latest 8 m,
      )
