-- ===== src/MerkleTree/Openings.antt =====
-- `StateTreeWires`: the root that an opening computes, for the flags of an honest prover and for others.
use euclid_database.Prelude.{
  ℕ, zero, suc, ◌+◌, ◌-◌, ◌<◌, ◌≡◌, refl, Bool, true, false, List, [], ◌∷◌, ◌++◌, ◌>>=◌, some, none,
  guard, length, ◌==◌, replicate, if◌then◌else◌, arith, ap, ◌∙◌, sym, All, length-append,
  append-nil, length-replicate, ==_iff, leb, subst,
}
use euclid_database.Plonky2.{Builder, order}
use euclid_database.Plonky2.Poseidon.{Poseidon}
use euclid_database.Plonky2.Merkle.{IsHash, merkle_root}
use euclid_database.MerkleTree.{build, assign, depth_loop}
use euclid_database.MerkleTree.StateTree.{leading, kept, depth_loop_lem, root_loop_lem}

leading-append :
    (d : ℕ) (flags : List Bool) → leading (replicate d true ++ flags) ≡ d + leading flags
leading-append zero flags = omega arith
leading-append (suc d) flags = omega (arith, leading-append d flags)

leading-replicate : (k : ℕ) → leading (replicate k false) ≡ 0
leading-replicate zero = refl
leading-replicate (suc k) = refl

guard-some :
    {A : Type 0} (y : A) (c : Bool) → (guard c >>= λ _. some y) ≡ (if c then some y else none)
guard-some y true = refl
guard-some y false = refl

module _ {ℓ} {A : Type ℓ} where
  kept-append :
      (flags : List Bool) (xs ys : List A)
      → kept (replicate (length xs) true ++ flags) (xs ++ ys) ≡ xs ++ kept flags ys
  kept-append flags [] ys = refl
  kept-append flags (x ∷ xs) ys = ap (λ r. x ∷ r) (kept-append flags xs ys)

  kept-replicate : (k : ℕ) (xs : List A) → kept (replicate k false) xs ≡ []
  kept-replicate zero xs = refl
  kept-replicate (suc k) [] = refl
  kept-replicate (suc k) (x ∷ xs) = kept-replicate k xs

kept_path :
    (p : Poseidon) (root : List ℕ) (path rest : List (List ℕ)) (positions others : List Bool)
    (n : ℕ)
    → length positions ≡ length path
    → (let flags = replicate (length path) true ++ replicate n false in
        merkle_root p root (kept flags (path ++ rest)) (kept flags (positions ++ others)))
      ≡ merkle_root p root path positions
kept_path p root path rest positions others n h =
    let e = kept-append (replicate n false) path rest in
    let e' = kept-append (replicate n false) positions others in
    let i : kept (replicate (length path) true ++ replicate n false) (positions ++ others)
        ≡ positions ++ kept (replicate n false) others =
      subst
        (λ m.
          kept (replicate m true ++ replicate n false) (positions ++ others)
          ≡ positions ++ kept (replicate n false) others)
        h e' in
    rw (e, i, kept-replicate n rest, kept-replicate n others, append-nil path, append-nil positions)
      refl

module _ (b : Builder) (p : Poseidon) (leaf : List ℕ) where
  -- For hashes as siblings, as many siblings and positions as flags, and fewer flags than the
  -- field's order: `build` holds exactly if the depth is the number of leading flags that are set,
  -- and then its root is the Merkle root over all the levels whose flag is set.
  pub build_lem :
      (flags : List Bool) (siblings : List (List ℕ)) (positions : List Bool) (depth : ℕ)
      → length siblings ≡ length flags
      → length positions ≡ length flags
      → length flags < order
      → All IsHash siblings
      → build b p (length flags) leaf siblings positions flags depth ≡ (
          if leading flags == depth
          then some
              (merkle_root p (p.hash_no_pad leaf) (kept flags siblings) (kept flags positions))
          else none)
  unfolding build
  build_lem flags siblings positions depth h k f a =
      let e : (length siblings == length flags) ≡ true =
        (==_iff (length siblings) (length flags)).1 h in
      let e' : (length positions == length flags) ≡ true =
        (==_iff (length positions) (length flags)).1 k in
      let s : depth_loop b p flags 1 0 ≡ leading flags =
        depth_loop_lem b p flags 0 (omega arith) ∙ omega arith in
      let r =
        root_loop_lem b p flags siblings positions (p.hash_no_pad leaf) h k a
          (p.length-hash leaf) in
      rw (e, e', s, b.connect_lem (leading flags) depth, r) (guard-some _ (leading flags == depth))

  -- For hashes as siblings, d of them and as many positions up to the depth, k more of each, and
  -- d + k below the field's order: the flags that `assign` gives for depth d satisfy `build`, and its
  -- root is the Merkle root over the first d levels.
  pub build-assign :
      (path rest : List (List ℕ)) (positions others : List Bool)
      → length positions ≡ length path
      → length others ≡ length rest
      → length path + length rest < order
      → All IsHash (path ++ rest)
      → (assign (length path + length rest) (length path) >>= λ flags.
          build b p
            (length path + length rest)
            leaf
            (path ++ rest)
            (positions ++ others)
            flags
            (length path))
        ≡ some (merkle_root p (p.hash_no_pad leaf) path positions)
  unfolding assign
  build-assign path rest positions others h k f a =
      let d = length path in
      let n = length rest in
      let flags = replicate d true ++ replicate n false in
      let l : length flags ≡ d + n =
        length-append (replicate d true) (replicate n false)
        ∙ omega (arith, length-replicate d true, length-replicate n false) in
      let t : leb d (d + n) ≡ true = ground arith in
      let m : d + n - d ≡ n = omega arith in
      let s : length (path ++ rest) ≡ length flags = length-append path rest ∙ sym l in
      let c : length (positions ++ others) ≡ length flags =
        length-append positions others ∙ omega (arith, l) in
      let lead : leading flags ≡ d =
        leading-append d (replicate n false) ∙ omega (arith, leading-replicate n) in
      let e : (leading flags == d) ≡ true = (==_iff (leading flags) d).1 lead in
      rw (t, m)
        (ap (λ n. build b p n leaf (path ++ rest) (positions ++ others) flags d) (sym l)
          ∙ build_lem flags (path ++ rest) (positions ++ others) d s c (omega arith) a
          ∙ rw (e) (ap some (kept_path p (p.hash_no_pad leaf) path rest positions others n h)))

  -- The flags need not be contiguous: where the first d are set, the next one is not, and the one
  -- after it is, `build` holds for depth d, and its root is over d + 1 levels. For hashes as siblings,
  -- as many positions as siblings, and d + 2 below the field's order.
  pub build-not_contiguous :
      (path : List (List ℕ)) (positions : List Bool) (skipped last : List ℕ) (c c' : Bool)
      → length positions ≡ length path
      → length path + 2 < order
      → All IsHash (path ++ skipped ∷ last ∷ [])
      → build b p
          (length path + 2)
          leaf
          (path ++ skipped ∷ last ∷ [])
          (positions ++ c ∷ c' ∷ [])
          (replicate (length path) true ++ false ∷ true ∷ [])
          (length path)
        ≡ some (merkle_root p (p.hash_no_pad leaf) (path ++ last ∷ []) (positions ++ c' ∷ []))
  build-not_contiguous path positions skipped last c c' h f a =
      let d = length path in
      let ends = false ∷ true ∷ [] in
      let flags = replicate d true ++ ends in
      let l : length flags ≡ d + 2 =
        length-append (replicate d true) ends ∙ omega (arith, length-replicate d true) in
      let s : length (path ++ skipped ∷ last ∷ []) ≡ length flags =
        length-append path (skipped ∷ last ∷ []) ∙ omega (arith, l) in
      let q : length (positions ++ c ∷ c' ∷ []) ≡ length flags =
        length-append positions (c ∷ c' ∷ []) ∙ omega (arith, l) in
      let lead : leading flags ≡ d = leading-append d ends ∙ omega arith in
      let e : (leading flags == d) ≡ true = (==_iff (leading flags) d).1 lead in
      let i = kept-append ends path (skipped ∷ last ∷ []) in
      let i' : kept flags (positions ++ c ∷ c' ∷ []) ≡ positions ++ c' ∷ [] =
        subst
          (λ m. kept (replicate m true ++ ends) (positions ++ c ∷ c' ∷ []) ≡ positions ++ c' ∷ []) h
          (kept-append ends positions (c ∷ c' ∷ [])) in
      ap (λ n. build b p n leaf (path ++ skipped ∷ last ∷ []) (positions ++ c ∷ c' ∷ []) flags d)
        (sym l)
      ∙ build_lem flags (path ++ skipped ∷ last ∷ []) (positions ++ c ∷ c' ∷ []) d s q (omega arith)
          a
      ∙ rw (e, i, i') refl
