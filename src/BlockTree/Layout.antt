-- ===== src/BlockTree/Layout.antt =====
-- The layout of the public inputs of the block tree.
use euclid_database.Prelude.{
  ℕ, ◌≡◌, List, [], ◌∷◌, ◌++◌, length, take, drop, get_or, arith, ap, ◌∙◌, take_front, take_all,
  drop_behind, get_behind, length-take, length-drop, length-append,
}
use euclid_database.BlockTree.{
  register_block, init_root, block_root, first_block_number, block_number, original_block_header,
}

-- The readers return what was registered.
pub register_block_lem :
    (init root : List ℕ) (first number : ℕ) (header : List ℕ)
    → length init ≡ 4
    → length root ≡ 4
    → length header ≡ 8
    → let pis = register_block init root first number header in
      (init_root pis ≡ init)
      × (block_root pis ≡ root)
      × (first_block_number pis ≡ first)
      × (block_number pis ≡ number)
      × (original_block_header pis ≡ header)
unfolding register_block init_root block_root first_block_number block_number original_block_header
register_block_lem init root first number header h k l =
    let numbers = first ∷ number ∷ header in
    let rest = root ++ numbers in
    (
      take_front init rest 4 h,
      ap (λ r. take 4 r) (drop_behind init rest 4 0 (omega arith)) ∙ take_front root numbers 4 k,
      get_behind init rest 8 4 0 (omega arith) ∙ get_behind root numbers 4 0 0 (omega arith),
      get_behind init rest 9 5 0 (omega arith) ∙ get_behind root numbers 5 1 0 (omega arith),
      ap (λ r. take 8 r)
            (drop_behind init rest 10 6 (omega arith) ∙ drop_behind root numbers 6 2 (omega arith))
          ∙ take_all header 8 l,
    )

-- The sizes of what is read.
pub block_sizes :
    (pis : List ℕ)
    → length pis ≡ 18
    → (length (init_root pis) ≡ 4)
      × (length (block_root pis) ≡ 4)
      × (length (original_block_header pis) ≡ 8)
unfolding init_root block_root original_block_header
block_sizes pis h = (
  omega (arith, length-take 4 pis),
  omega (arith, length-take 4 (drop 4 pis), length-drop 4 pis),
  omega (arith, length-take 8 (drop 10 pis), length-drop 10 pis),
)

pub length-register_block :
    (init root : List ℕ) (first number : ℕ) (header : List ℕ)
    → length init ≡ 4
    → length root ≡ 4
    → length header ≡ 8
    → length (register_block init root first number header) ≡ 18
unfolding register_block
length-register_block init root first number header h k l = omega (
  arith,
  length-append init (root ++ first ∷ number ∷ header),
  length-append root (first ∷ number ∷ header),
)

-- The flag stands behind the public inputs of the tree.
pub flagged :
    (pis : List ℕ) (flag : ℕ)
    → length pis ≡ 18
    → (take 18 (pis ++ flag ∷ []) ≡ pis) × (get_or (drop 18 (pis ++ flag ∷ [])) 0 0 ≡ flag)
flagged pis flag h = (
  take_front pis (flag ∷ []) 18 h,
  ap (λ r. get_or r 0 0) (drop_behind pis (flag ∷ []) 18 0 (omega arith)),
)
