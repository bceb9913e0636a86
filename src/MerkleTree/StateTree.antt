-- ===== src/MerkleTree/StateTree.antt =====
-- What an opening proves, and what its constraint on the flags leaves open.
use euclid_database.Prelude.{
  ℕ, suc, ◌+◌, ◌*◌, ◌%◌, ◌<◌, ◌≡◌, refl, Bool, true, false, List, [], ◌∷◌, ◌++◌, length, take, drop,
  get_or, bit, create_array, if◌then◌else◌, arith, ap, ◌∙◌, sym, All, length-append, length-take,
  take-length, drop-length, create_from-get_or, create_from_ext,
}
use euclid_database.Plonky2.{Builder, order, IsField}
use euclid_database.Plonky2.Laws.{add_small, mul_small}
use euclid_database.Plonky2.Poseidon.{Poseidon, swapped}
use euclid_database.Plonky2.Merkle.{IsHash, parent, merkle_root}
use euclid_database.MerkleTree.{absorb_loop, squeeze_loop, hash_maybe_swap, depth_loop, root_loop}

-- The leading flags that are set.
abbrev pub leading : List Bool → ℕ
leading [] = 0
leading (true ∷ flags) = suc (leading flags)
leading (false ∷ flags) = 0

-- The path restricted to the levels whose flags are set.
abbrev pub kept {ℓ} : {A : Type ℓ} → List Bool → List A → List A
kept [] xs = []
kept (v ∷ flags) [] = []
kept (true ∷ flags) (x ∷ xs) = x ∷ kept flags xs
kept (false ∷ flags) (x ∷ xs) = kept flags xs

-- Eight wires are one chunk, absorbed at once.
absorb_once :
    (p : Poseidon) (fuel : ℕ) (s : p.State) (swap : Bool) (x : ℕ) (xs : List ℕ)
    → length (x ∷ xs) ≡ 8
    → absorb_loop p (suc fuel) s (x ∷ xs) swap
      ≡ p.permute_swapped (p.set_from_slice s (x ∷ xs)) swap
unfolding absorb_loop
absorb_once p fuel s swap x xs h =
    let n : p.rate ≡ length (x ∷ xs) = p.rate_lem ∙ sym h in
    let t : take p.rate (x ∷ xs) ≡ x ∷ xs = ap (λ n. take n (x ∷ xs)) n ∙ take-length (x ∷ xs) in
    let d : drop p.rate (x ∷ xs) ≡ [] = ap (λ n. drop n (x ∷ xs)) n ∙ drop-length (x ∷ xs) in
    ap
      (λ ys.
        absorb_loop p fuel (p.permute_swapped (p.set_from_slice s (take p.rate (x ∷ xs))) swap) ys
          swap)
      d
    ∙ ap (λ ys. p.permute_swapped (p.set_from_slice s ys) swap) t

-- One squeeze gives the four outputs.
squeeze_four :
    (p : Poseidon) (s : p.State) (swap : Bool) → squeeze_loop p 4 s [] swap ≡ take 4 (p.squeeze s)
unfolding squeeze_loop
squeeze_four p s swap =
    let e : length (take 4 (p.squeeze s)) ≡ 4 =
      length-take 4 (p.squeeze s) ∙ omega (arith, p.length-squeeze s) in
    rw e refl

-- The hash of two hashes is the hash of their elements, exchanged if the flag is set.
pub hash_maybe_swap_lem :
    (p : Poseidon) (left right : List ℕ) (swap : Bool)
    → IsHash left
    → IsHash right
    → hash_maybe_swap p left right swap ≡ p.hash_no_pad (swapped swap left right)
unfolding hash_maybe_swap
hash_maybe_swap_lem p [] right swap h k = absurd (omega arith)
hash_maybe_swap_lem p (x ∷ left) right swap h k =
    let m : length (x ∷ left ++ right) ≡ 8 = omega (arith, length-append left right) in
    let a : absorb_loop p (suc (length (left ++ right))) p.new (x ∷ left ++ right) swap
        ≡ p.permute_swapped (p.set_from_slice p.new (x ∷ left ++ right)) swap =
      absorb_once p (length (left ++ right)) p.new swap x (left ++ right) m in
    ap (λ s. squeeze_loop p 4 s [] swap) a
    ∙ squeeze_four p _ swap
    ∙ p.permute_lem (x ∷ left) right swap h k

module _ (b : Builder) (p : Poseidon) where
  mul-zero : (x : ℕ) → b.mul 0 x ≡ 0
  mul-zero x = let e : 0 * x ≡ 0 = omega arith in b.mul_lem 0 x ∙ ap (λ y. y % order) e

  depth_stopped : (flags : List Bool) (acc : ℕ) → IsField acc → depth_loop b p flags 0 acc ≡ acc
  unfolding depth_loop
  depth_stopped [] acc f = refl
  depth_stopped (v ∷ flags) acc f =
      let m : b.mul 0 (bit v) ≡ 0 = mul-zero (bit v) in
      let a : b.add acc 0 ≡ acc = add_small b acc 0 (omega arith) ∙ omega arith in
      rw (m, a) (depth_stopped flags acc f)

  -- The product of the flags stops the sum at the first flag that is not set.
  pub depth_loop_lem :
      (flags : List Bool) (acc : ℕ)
      → acc + length flags < order
      → depth_loop b p flags 1 acc ≡ acc + leading flags
  unfolding depth_loop
  depth_loop_lem [] acc f = omega arith
  depth_loop_lem (true ∷ flags) acc f =
      let m : b.mul 1 1 ≡ 1 = mul_small b 1 1 (omega arith) in
      let a : b.add acc 1 ≡ acc + 1 = add_small b acc 1 (omega arith) in
      rw (m, a) (depth_loop_lem flags (acc + 1) (omega arith) ∙ omega arith)
  depth_loop_lem (false ∷ flags) acc f =
      let m : b.mul 1 0 ≡ 0 = mul_small b 1 0 (omega arith) in
      let a : b.add acc 0 ≡ acc = add_small b acc 0 (omega arith) ∙ omega arith in
      rw (m, a) (depth_stopped flags acc (omega arith) ∙ omega arith)

  select_hash :
      (v : Bool) (xs ys : List ℕ)
      → IsHash xs
      → IsHash ys
      → create_array 4 (λ i. b.select v (get_or xs i 0) (get_or ys i 0)) ≡ (if v then xs else ys)
  select_hash true xs ys h k =
      create_from_ext 0 4 _ (λ i. get_or xs i 0)
        (λ i g l. b.select_lem true (get_or xs i 0) (get_or ys i 0))
      ∙ create_from-get_or xs 0 4 0 (omega arith)
      ∙ ap (λ n. take n xs) (sym h)
      ∙ take-length xs
  select_hash false xs ys h k =
      create_from_ext 0 4 _ (λ i. get_or ys i 0)
        (λ i g l. b.select_lem false (get_or xs i 0) (get_or ys i 0))
      ∙ create_from-get_or ys 0 4 0 (omega arith)
      ∙ ap (λ n. take n ys) (sym k)
      ∙ take-length ys

  -- The root is the one over the levels whose flags are set.
  pub root_loop_lem :
      (flags : List Bool) (siblings : List (List ℕ)) (positions : List Bool) (root : List ℕ)
      → length siblings ≡ length flags
      → length positions ≡ length flags
      → All IsHash siblings
      → IsHash root
      → root_loop b p flags siblings positions root
        ≡ merkle_root p root (kept flags siblings) (kept flags positions)
  unfolding root_loop
  root_loop_lem [] siblings positions root h k a r = refl
  root_loop_lem (v ∷ flags) [] positions root h k a r = absurd (omega arith)
  root_loop_lem (v ∷ flags) (s ∷ siblings) [] root h k a r = absurd (omega arith)
  root_loop_lem (true ∷ flags) (s ∷ siblings) (c ∷ positions) root h k a r =
      let e : hash_maybe_swap p root s c ≡ parent p root s c =
        hash_maybe_swap_lem p root s c r a.0 in
      let l = p.length-hash (swapped c root s) in
      rw (e, select_hash true (parent p root s c) root l r)
        (root_loop_lem flags siblings positions _ (omega arith) (omega arith) a.1 l)
  root_loop_lem (false ∷ flags) (s ∷ siblings) (c ∷ positions) root h k a r =
      let e : hash_maybe_swap p root s c ≡ parent p root s c =
        hash_maybe_swap_lem p root s c r a.0 in
      let l = p.length-hash (swapped c root s) in
      rw (e, select_hash false (parent p root s c) root l r)
        (root_loop_lem flags siblings positions root (omega arith) (omega arith) a.1 r)
