-- ===== src/DigestEqual/Equality.antt =====
-- The whole way from the two proofs of storage to the equality of the digests.
use euclid_database.Prelude.{
  ℕ, ◌-◌, ◌≡◌, ◌↔◌, refl, List, [], ◌∷◌, ◌++◌, ◌>>=◌, some, length, take, get_or, arith, ap, ◌∙◌,
  sym, take_front, drop_behind, get_behind, >>=-eq-some,
}
use euclid_database.Plonky2.{Builder, order}
use euclid_database.Plonky2.Poseidon.{Poseidon}
use euclid_database.Array.{enforce_equal}
use euclid_database.GroupHashing.{Group, connect_curve_points}
use euclid_database.GroupHashing.Points.{connect_curve_points_iff}
use euclid_database.Mapping.{accumulator, mpt_key, root_hash, mapping_slot, entries}
use euclid_database.Lpn.StorageTree.{
  Tree, AllEntries, prove, tree_root, tree_digest, length-tree_digest, prove_lem,
}
use euclid_database.LengthMatch.{
  register_match, root_hash_data, storage_slot, length_value, length_match,
}
use euclid_database.LengthMatch.Matching.{length_match_iff}
use euclid_database.DigestEqual.{
  match_digest, match_root, match_mapping_slot, match_length_slot, register_equal, digest_equal,
}

-- The readers return what length_match registered.
register_match_lem :
    (digest root : List ℕ) (slot length_slot : ℕ)
    → length digest ≡ 11
    → length root ≡ 8
    → let pis = register_match digest root slot length_slot in
      (match_digest pis ≡ digest)
      × (match_root pis ≡ root)
      × (match_mapping_slot pis ≡ slot)
      × (match_length_slot pis ≡ length_slot)
unfolding register_match match_digest match_root match_mapping_slot match_length_slot
register_match_lem digest root slot length_slot h k =
    let slots = slot ∷ length_slot ∷ [] in
    (
      take_front digest (root ++ slots) 11 h,
      ap (λ r. take 8 r) (drop_behind digest (root ++ slots) 11 0 (omega arith))
          ∙ take_front root slots 8 k,
      get_behind digest (root ++ slots) 19 8 0 (omega arith)
          ∙ get_behind root slots 8 0 0 (omega arith),
      get_behind digest (root ++ slots) 20 9 0 (omega arith)
          ∙ get_behind root slots 9 1 0 (omega arith),
    )

-- What the matching registers of its two proofs.
abbrev pub matched : List ℕ → List ℕ → List ℕ
matched length_pi mapping_pi =
    register_match (accumulator mapping_pi) (root_hash_data length_pi) (mapping_slot mapping_pi)
      (storage_slot length_pi)

length_match_pis :
    (b : Builder) (length_pi mapping_pi : List ℕ) {pis : List ℕ}
    → length_match b length_pi mapping_pi ≡ some pis
    → matched length_pi mapping_pi ≡ pis
unfolding length_match
length_match_pis b length_pi mapping_pi e =
    let (_, e1, r1) = >>=-eq-some (b.connect (mpt_key mapping_pi).pointer (order - 1)) _ e in
    let (_, e2, r2) = >>=-eq-some (b.connect (length_value length_pi) (entries mapping_pi)) _ r1 in
    let (_, e3, r3) =
      >>=-eq-some (enforce_equal b (root_hash_data length_pi) (root_hash mapping_pi)) _ r2 in
    cc r3

module _ (b : Builder) (p : Poseidon) (g : Group) where
  -- For root hashes of eight words, a point of eleven wires, and entries of bytes: from a proof of the
  -- stored length, a proof over the mapping and the proof of a rebuilt tree, the two circuits are
  -- satisfied exactly if the mapping's key is used up, the stored length is the number of entries,
  -- the two roots of the contract's storage are equal, and the point of the mapping's proof has the
  -- coordinates of the sum over the tree's entries, none of them infinity; they register the
  -- point, both roots and both slots.
  pub digest_equal_iff :
      (length_pi mapping_pi pis : List ℕ) (t : Tree)
      → length (root_hash_data length_pi) ≡ 8
      → length (root_hash mapping_pi) ≡ 8
      → length (accumulator mapping_pi) ≡ 11
      → AllEntries t
      → ((length_match b length_pi mapping_pi >>= λ mpt_pi. digest_equal b mpt_pi (prove b p g t))
          ≡ some pis)
        ↔ (((mpt_key mapping_pi).pointer ≡ order - 1)
            × (length_value length_pi ≡ entries mapping_pi)
            × (root_hash_data length_pi ≡ root_hash mapping_pi)
            × (take 10 (accumulator mapping_pi) ≡ take 10 (tree_digest g t))
            × (get_or (accumulator mapping_pi) 10 0 ≡ 0)
            × (get_or (tree_digest g t) 10 0 ≡ 0)
            × (pis
                ≡ register_equal
                    (accumulator mapping_pi)
                    (root_hash_data length_pi)
                    (tree_root p t)
                    (mapping_slot mapping_pi)
                    (storage_slot length_pi)))
  unfolding digest_equal
  digest_equal_iff length_pi mapping_pi pis t h k d w =
      let point = accumulator mapping_pi in
      let sum = tree_digest g t in
      let (r, s) = prove_lem b p g t w in
      let (m0, m1, m2, m3) =
        register_match_lem point (root_hash_data length_pi) (mapping_slot mapping_pi)
          (storage_slot length_pi) d h in
      let lengths = length_match_iff b length_pi mapping_pi (h ∙ sym k) in
      let points = connect_curve_points_iff b point sum d (length-tree_digest g t) in
      (
        (λ e.
            let (mpt_pi, e1, r1) = >>=-eq-some (length_match b length_pi mapping_pi) _ e in
            let q = length_match_pis b length_pi mapping_pi e1 in
            let (l0, l1, l2) = lengths.0 (e1 ∙ ap some (sym q)) in
            let r2 =
              rw (m0, m1, m2, m3, r, s) at (ap (λ x. digest_equal b x (prove b p g t)) q ∙ r1) in
            let (_, e3, r3) = >>=-eq-some (connect_curve_points b point sum) _ r2 in
            let (c0, c1, c2) = points.0 e3 in (l0, l1, l2, c0, c1, c2, sym (cc r3))),
        λ (l0, l1, l2, c0, c1, c2, e).
            rw (lengths.1 (l0, l1, l2), m0, m1, m2, m3, r, s, points.1 (c0, c1, c2), e) refl,
      )
