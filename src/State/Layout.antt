-- ===== src/State/Layout.antt =====
-- The layout of the public inputs of the state circuits.
use euclid_database.Prelude.{
  ℕ, ◌≡◌, List, ◌∷◌, ◌++◌, length, take, drop, arith, ap, ◌∙◌, take_front, take_all, drop_behind,
  get_behind, length-take, length-drop,
}
use euclid_database.State.{
  register_state, state_root, state_block_header, state_block_number, prev_block_header,
}

-- The readers return what was registered.
pub register_state_lem :
    (root header : List ℕ) (number : ℕ) (prev : List ℕ)
    → length root ≡ 4
    → length header ≡ 8
    → length prev ≡ 8
    → let pis = register_state root header number prev in
      (state_root pis ≡ root)
      × (state_block_header pis ≡ header)
      × (state_block_number pis ≡ number)
      × (prev_block_header pis ≡ prev)
unfolding register_state state_root state_block_header state_block_number prev_block_header
register_state_lem root header number prev h k l =
    let rest = header ++ number ∷ prev in
    (
      take_front root rest 4 h,
      ap (λ r. take 8 r) (drop_behind root rest 4 0 (omega arith))
          ∙ take_front header (number ∷ prev) 8 k,
      get_behind root rest 12 8 0 (omega arith)
          ∙ get_behind header (number ∷ prev) 8 0 0 (omega arith),
      ap (λ r. take 8 r)
            (drop_behind root rest 13 9 (omega arith)
              ∙ drop_behind header (number ∷ prev) 9 1 (omega arith))
          ∙ take_all prev 8 l,
    )

-- The sizes of what is read.
pub state_sizes :
    (pis : List ℕ)
    → length pis ≡ 21
    → (length (state_root pis) ≡ 4)
      × (length (state_block_header pis) ≡ 8)
      × (length (prev_block_header pis) ≡ 8)
unfolding state_root state_block_header prev_block_header
state_sizes pis h = (
  omega (arith, length-take 4 pis),
  omega (arith, length-take 8 (drop 4 pis), length-drop 4 pis),
  omega (arith, length-take 8 (drop 13 pis), length-drop 13 pis),
)
