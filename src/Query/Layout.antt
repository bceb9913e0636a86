-- ===== src/Query/Layout.antt =====
-- The layout of the public inputs of query2/block.
use euclid_database.Prelude.{
  ℕ, ◌+◌, ◌≡◌, refl, List, ◌∷◌, ◌++◌, length, take, drop, get_or, arith, ap, ◌∙◌, take_front,
  take_all, drop_behind,
}
use euclid_database.Query.Blocks.{
  offset_loop, input_range, query_block_number, query_range, query_block_root,
  smart_contract_address, user_address, query_mapping_slot, mapping_slot_length, query_block_digest,
  register_block_query,
}

-- The readers return what was registered.
module _ (number range : ℕ) (root contract user : List ℕ) (slot slot_length : ℕ) (digest : List ℕ)
    (h : length root ≡ 4) (k : length contract ≡ 5) (l : length user ≡ 8)
    (m : length digest ≡ 11) where
  abbrev registered_pis : List ℕ
  registered_pis = register_block_query number range root contract user slot slot_length digest

  abbrev behind : List ℕ
  behind = slot ∷ slot_length ∷ digest

  from_user :
      (n i : ℕ)
      → 9 + i ≡ n
      → drop n (root ++ (contract ++ (user ++ behind))) ≡ drop i (user ++ behind)
  from_user n i e =
      drop_behind root (contract ++ (user ++ behind)) n (5 + i) (omega arith)
      ∙ drop_behind contract (user ++ behind) (5 + i) i (omega arith)

  from_slot :
      (n i : ℕ) → 17 + i ≡ n → drop n (root ++ (contract ++ (user ++ behind))) ≡ drop i behind
  from_slot n i e =
      from_user n (8 + i) (omega arith) ∙ drop_behind user behind (8 + i) i (omega arith)

  pub register_block_query_lem :
      (query_block_number registered_pis ≡ number)
      × (query_range registered_pis ≡ range)
      × (query_block_root registered_pis ≡ root)
      × (smart_contract_address registered_pis ≡ contract)
      × (user_address registered_pis ≡ user)
      × (query_mapping_slot registered_pis ≡ slot)
      × (mapping_slot_length registered_pis ≡ slot_length)
      × (query_block_digest registered_pis ≡ digest)
  unfolding register_block_query offset_loop input_range query_block_number query_range
      query_block_root smart_contract_address user_address query_mapping_slot mapping_slot_length
      query_block_digest
  register_block_query_lem = (
    refl,
    refl,
    take_front root (contract ++ (user ++ behind)) 4 h,
    ap (λ r. take 5 r) (drop_behind root (contract ++ (user ++ behind)) 4 0 (omega arith))
        ∙ take_front contract (user ++ behind) 5 k,
    ap (λ r. take 8 r) (from_user 9 0 (omega arith)) ∙ take_front user behind 8 l,
    ap (λ r. get_or (take 1 r) 0 0) (from_slot 17 0 (omega arith)),
    ap (λ r. get_or (take 1 r) 0 0) (from_slot 18 1 (omega arith)),
    ap (λ r. take 11 r) (from_slot 19 2 (omega arith)) ∙ take_all digest 11 m,
  )
