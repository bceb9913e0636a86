-- ===== src/BlockTree/Accepts.antt =====
-- What the circuit of the block tree accepts.
use euclid_database.Prelude.{
  ℕ, ◌+◌, ◌%◌, ◌≡◌, ◌↔◌, refl, Bool, true, false, List, [], ◌∷◌, ◌++◌, some, guard, length, bit,
  ◌==◌, ==_iff, arith, ap, ◌∙◌, sym, >>=-eq-some, length-append, Bool-cases, inl, inr,
}
use euclid_database.Plonky2.{Builder, order}
use euclid_database.Plonky2.Laws.{connect_eq, connect_same}
use euclid_database.Plonky2.Poseidon.{Poseidon}
use euclid_database.Plonky2.Merkle.{
  MerkleProofs, IsHash, merkle_root, zero_hash, hash_or_noop, equal_hashes,
}
use euclid_database.Array.{enforce_equal}
use euclid_database.Array.Slices.{enforce_equal_iff}
use euclid_database.State.{state_block_header, state_block_number, state_root, prev_block_header}
use euclid_database.State.Layout.{state_sizes}
use euclid_database.BlockTree.{
  init_root, block_root, first_block_number, block_number, original_block_header, leaf_data,
  init_root_loop, verify_proofs, BlockTreeWires, verify_append_only, build_block, block_logic,
}
use euclid_database.BlockTree.Layout.{block_sizes, flagged}
use euclid_database.BlockTree.Steps.{IsSized, leaf_index, Inserts, next_pis}

pub equal_hashes_lem : (xs ys : List ℕ) → equal_hashes xs ys ≡ true → xs ≡ ys
equal_hashes_lem [] [] h = refl
equal_hashes_lem [] (y ∷ ys) h = cc
equal_hashes_lem (x ∷ xs) [] h = cc
equal_hashes_lem (x ∷ xs) (y ∷ ys) h = elim (Bool-cases (x == y)) [
  | inl e ↦
      let same : x ≡ y = (==_iff x y).0 e in
      let rest : equal_hashes xs ys ≡ true = rw e at h in
      ap (λ z. z ∷ xs) same ∙ ap (λ zs. y ∷ zs) (equal_hashes_lem xs ys rest)
  | inr e ↦ let h' : false ≡ true = rw e at h in absurd (cc)
]

pub equal_hashes_refl : (xs : List ℕ) → equal_hashes xs xs ≡ true
equal_hashes_refl [] = refl
equal_hashes_refl (x ∷ xs) = rw ((==_iff x x).1 refl) (equal_hashes_refl xs)

guard-elim : (c : Bool) {u : Unit {0}} → guard c ≡ some u → c ≡ true
guard-elim true e = refl
guard-elim false e = cc

pub length-leaf_data : (leaf_pi : List ℕ) → length leaf_pi ≡ 21 → length (leaf_data leaf_pi) ≡ 13
unfolding leaf_data
length-leaf_data leaf_pi h =
    let (r, e, f) = state_sizes leaf_pi h in
    omega (arith, length-append (state_block_header leaf_pi) (state_root leaf_pi))

pub hash-leaf_data :
    (p : Poseidon) (leaf_pi : List ℕ)
    → length leaf_pi ≡ 21
    → hash_or_noop p (leaf_data leaf_pi) ≡ p.hash_no_pad (leaf_data leaf_pi)
hash-leaf_data p leaf_pi h = rw (length-leaf_data leaf_pi h) refl

module _ (b : Builder) (p : Poseidon) (g : MerkleProofs p) where
  -- The loop compares the roots where the flag is set.
  init_root_loop_iff :
      (c : Bool) (xs ys : List ℕ)
      → length xs ≡ length ys
      → (init_root_loop b c xs ys ≡ some tt) ↔ (c ≡ true → xs ≡ ys)
  unfolding init_root_loop
  init_root_loop_iff c [] [] h = ((λ e t. refl), λ e. refl)
  init_root_loop_iff c [] (y ∷ ys) h = absurd (omega arith)
  init_root_loop_iff c (x ∷ xs) [] h = absurd (omega arith)
  init_root_loop_iff true (x ∷ xs) (y ∷ ys) h =
      let ih = init_root_loop_iff true xs ys (omega arith) in
      rw (b.select_lem true x y) (
        (λ e t.
            let (u, e1, r) = >>=-eq-some (b.connect x y) _ e in
            ap (λ z. z ∷ xs) (connect_eq b x y e1) ∙ ap (λ zs. y ∷ zs) (ih.0 r refl)),
        λ e.
            let s : x ∷ xs ≡ y ∷ ys = e refl in
            let s0 : x ≡ y = cc s in
            let s1 : xs ≡ ys = cc s in rw (connect_same b x y s0) (ih.1 (λ t. s1)),
      )
  init_root_loop_iff false (x ∷ xs) (y ∷ ys) h =
      let ih = init_root_loop_iff false xs ys (omega arith) in
      rw (b.select_lem false x y, connect_same b y y refl)
        ((λ e t. absurd (cc t)), λ e. ih.1 (λ t. absurd (cc t)))

  opening_iff :
      (leaf : List ℕ) (wires : BlockTreeWires) (root : List ℕ) {max_depth : ℕ}
      → IsSized max_depth wires
      → IsHash root
      → (g.verify_merkle_proof leaf wires.leaf_index_bits root wires.path ≡ some tt)
        ↔ (merkle_root p (hash_or_noop p leaf) wires.path wires.leaf_index_bits ≡ root)
  opening_iff leaf wires root z h =
      let l : length wires.path ≡ length wires.leaf_index_bits = z.path_sized ∙ sym z.bits_sized in
      let e =
        g.verify_merkle_proof_lem leaf wires.leaf_index_bits root wires.path l z.path_hashes h in
      (
        (λ v. equal_hashes_lem _ root (guard-elim _ (sym e ∙ v))),
        λ v. e ∙ rw (v, equal_hashes_refl root) refl,
      )

  verify_proofs_iff :
      (prev leaf_pi : List ℕ) (index : ℕ) (c : Bool)
      → length prev ≡ 18
      → length leaf_pi ≡ 21
      → (verify_proofs b prev leaf_pi index c ≡ some tt) ↔ (
          (original_block_header prev ≡ prev_block_header leaf_pi)
          × (b.add (first_block_number prev) index ≡ state_block_number leaf_pi)
          × (b.add (block_number prev) 1 ≡ state_block_number leaf_pi)
          × (c ≡ true → init_root prev ≡ block_root prev))
  unfolding verify_proofs
  verify_proofs_iff prev leaf_pi index c h l =
      let (z0, z1, z2) = block_sizes prev h in
      let (y0, y1, y2) = state_sizes leaf_pi l in
      let number = state_block_number leaf_pi in
      let headers =
        enforce_equal_iff b (original_block_header prev) (prev_block_header leaf_pi)
          (omega (arith, z2, y2)) in
      let roots = init_root_loop_iff c (init_root prev) (block_root prev) (omega (arith, z0, z1)) in
      (
        (λ e.
            let (u, e1, r1) =
              >>=-eq-some (enforce_equal b (original_block_header prev) (prev_block_header leaf_pi))
                _ e in
            let (v, e2, r2) =
              >>=-eq-some (b.connect (b.add (first_block_number prev) index) number) _ r1 in
            let (w, e3, r3) = >>=-eq-some (b.connect (b.add (block_number prev) 1) number) _ r2 in
            (headers.0 e1, connect_eq b _ number e2, connect_eq b _ number e3, roots.0 r3)),
        λ x.
            rw
              (
                headers.1 x.0,
                connect_same b (b.add (first_block_number prev) index) number x.1,
                connect_same b (b.add (block_number prev) 1) number x.2,
              )
              (roots.1 x.3),
      )

  module _ (prev leaf_pi : List ℕ) (wires : BlockTreeWires) {max_depth : ℕ} (h : length prev ≡ 18)
      (l : length leaf_pi ≡ 21) (z : IsSized max_depth wires) where
    verify_append_only_iff : (verify_append_only b p g prev leaf_pi wires ≡ some tt) ↔ (
        (merkle_root p (p.hash_no_pad (leaf_data leaf_pi)) wires.path wires.leaf_index_bits
          ≡ wires.root)
        × (merkle_root p zero_hash wires.path wires.leaf_index_bits ≡ block_root prev))
    unfolding verify_append_only
    verify_append_only_iff =
        let added = opening_iff (leaf_data leaf_pi) wires wires.root z z.root_hash in
        let empty = opening_iff [] wires (block_root prev) z (block_sizes prev h).1 in
        let e = hash-leaf_data p leaf_pi l in
        (
          (λ v.
              let (u, e1, r1) =
                >>=-eq-some
                  (g.verify_merkle_proof (leaf_data leaf_pi) wires.leaf_index_bits wires.root
                    wires.path)
                  _ v in
              (
                ap (λ x. merkle_root p x wires.path wires.leaf_index_bits) (sym e) ∙ added.0 e1,
                empty.0 r1,
              )),
          λ x.
              let first =
                added.1 (ap (λ y. merkle_root p y wires.path wires.leaf_index_bits) e ∙ x.0) in
              rw first (empty.1 x.1),
        )

    first_wire : b.is_equal (b.le_sum wires.leaf_index_bits) 0 ≡ (leaf_index wires == 0)
    first_wire = b.is_equal_lem _ 0 ∙ ap (λ i. i == 0) (b.le_sum_lem wires.leaf_index_bits)

    numbers : (x : ℕ) → b.add x (b.le_sum wires.leaf_index_bits) ≡ (x + leaf_index wires) % order
    numbers x = b.add_lem x _ ∙ ap (λ i. (x + i) % order) (b.le_sum_lem wires.leaf_index_bits)

    first_iff : (leaf_index wires ≡ 0) ↔ (b.is_equal (b.le_sum wires.leaf_index_bits) 0 ≡ true)
    first_iff =
        let t = ==_iff (leaf_index wires) 0 in
        ((λ e. first_wire ∙ t.1 e), λ e. t.0 (sym first_wire ∙ e))

    -- `build_block` accepts the insertions that meet the conditions.
    pub build_block_iff :
        (pis : List ℕ) (is_first : Bool)
        → (build_block b p g prev leaf_pi wires ≡ some (pis, is_first)) ↔ (
            Inserts p prev leaf_pi wires
            × (pis ≡ next_pis prev leaf_pi wires)
            × (is_first ≡ (leaf_index wires == 0)))
    unfolding build_block
    build_block_iff pis is_first =
        let index = b.le_sum wires.leaf_index_bits in
        let c = b.is_equal index 0 in
        let proofs = verify_proofs_iff prev leaf_pi index c h l in
        let appended = verify_append_only_iff in
        (
          (λ e.
              let (u, e1, r1) = >>=-eq-some (verify_proofs b prev leaf_pi index c) _ e in
              let (v, e2, r2) = >>=-eq-some (verify_append_only b p g prev leaf_pi wires) _ r1 in
              let x = proofs.0 e1 in
              let y = appended.0 e2 in
              (
                record {
                  header_follows = x.0;
                  index_counts = sym (numbers (first_block_number prev)) ∙ x.1;
                  number_follows = sym (b.add_lem (block_number prev) 1) ∙ x.2;
                  first_root = λ f. x.3 (first_iff.0 f);
                  leaf_added = y.0;
                  leaf_empty = y.1;
                },
                cc r2,
                sym (cc r2) ∙ first_wire,
              )),
          λ (i, e, f).
              rw
                (
                  proofs.1 (
                    i.header_follows,
                    numbers (first_block_number prev) ∙ i.index_counts,
                    b.add_lem (block_number prev) 1 ∙ i.number_follows,
                    λ t. i.first_root (first_iff.1 t),
                  ),
                  appended.1 (i.leaf_added, i.leaf_empty),
                  e,
                  f,
                  first_wire,
                )
                refl,
        )

module _ (b : Builder) (p : Poseidon) (g : MerkleProofs p) where
  -- For public inputs and wires of their sizes, the circuit accepts exactly the insertions that meet the
  -- conditions, with the flag of a dummy proof for the index zero and only there, and registers the
  -- public inputs of the new tree.
  pub block_logic_iff :
      (prev : List ℕ) (flag : ℕ) (leaf_pi : List ℕ) (wires : BlockTreeWires) (next : List ℕ)
      {max_depth : ℕ}
      → length prev ≡ 18
      → length leaf_pi ≡ 21
      → IsSized max_depth wires
      → (block_logic b p g (prev ++ flag ∷ []) leaf_pi wires ≡ some next) ↔ (
          Inserts p prev leaf_pi wires
          × (flag ≡ bit (leaf_index wires == 0))
          × (next ≡ next_pis prev leaf_pi wires ++ 0 ∷ []))
  unfolding block_logic
  block_logic_iff prev flag leaf_pi wires next h l z =
      let (f0, f1) = flagged prev flag h in
      let built = build_block_iff b p g prev leaf_pi wires h l z in
      let is_first = leaf_index wires == 0 in
      (
        (λ e.
            let (r, e1, r1) = >>=-eq-some (build_block b p g prev leaf_pi wires) _ (rw f0 at e) in
            let (i, e2, e3) = (built r.0 r.1).0 e1 in
            let (u, e4, r2) = >>=-eq-some (b.connect (bit r.1) _) _ r1 in
            let e5 : next ≡ r.0 ++ 0 ∷ [] = cc r2 in
            (
              i,
              sym (connect_eq b (bit r.1) _ e4 ∙ f1) ∙ ap bit e3,
              e5 ∙ ap (λ ys. ys ++ 0 ∷ []) e2,
            )),
        λ (i, e, e').
            rw
              (
                f0,
                (built (next_pis prev leaf_pi wires) is_first).1 (i, refl, refl),
                f1,
                e',
                connect_same b (bit is_first) flag (sym e),
              )
              refl,
      )
