-- ===== src/LengthMatch/Matching.antt =====
-- What `length_match` proves of the two proofs that it takes.
use euclid_database.Prelude.{ℕ, ◌-◌, ◌≡◌, ◌↔◌, refl, List, some, length, >>=-eq-some}
use euclid_database.Plonky2.{Builder, order}
use euclid_database.Array.{enforce_equal}
use euclid_database.Array.Slices.{enforce_equal_iff}
use euclid_database.Plonky2.Laws.{connect_eq, connect_same}
use euclid_database.Mapping.{accumulator, mpt_key, root_hash, mapping_slot, entries}
use euclid_database.LengthMatch.{
  length_match, register_match, root_hash_data, storage_slot, length_value,
}

-- For root hashes of one length, `length_match` is satisfied, and registers the digest and the slots of
-- the two proofs with the common root, exactly if the mapping's key is used up, the stored length is
-- the number of entries, and the two roots are equal.
pub length_match_iff :
    (b : Builder) (length_pi mapping_pi : List ℕ)
    → length (root_hash_data length_pi) ≡ length (root_hash mapping_pi)
    → (length_match b length_pi mapping_pi
        ≡ some (
            register_match
              (accumulator mapping_pi)
              (root_hash_data length_pi)
              (mapping_slot mapping_pi)
              (storage_slot length_pi)))
      ↔ (((mpt_key mapping_pi).pointer ≡ order - 1)
          × (length_value length_pi ≡ entries mapping_pi)
          × (root_hash_data length_pi ≡ root_hash mapping_pi))
unfolding length_match
length_match_iff b length_pi mapping_pi h =
    let pointer = (mpt_key mapping_pi).pointer in
    let xs = root_hash_data length_pi in
    let ys = root_hash mapping_pi in
    let roots = enforce_equal_iff b xs ys h in
    (
      (λ e.
          let (u, e1, r1) = >>=-eq-some (b.connect pointer (order - 1)) _ e in
          let (v, e2, r2) =
            >>=-eq-some (b.connect (length_value length_pi) (entries mapping_pi)) _ r1 in
          let (w, e3, r3) = >>=-eq-some (enforce_equal b xs ys) _ r2 in
          (
            connect_eq b pointer (order - 1) e1,
            connect_eq b (length_value length_pi) (entries mapping_pi) e2,
            roots.0 e3,
          )),
      λ x.
          rw
            (
              connect_same b pointer (order - 1) x.0,
              connect_same b (length_value length_pi) (entries mapping_pi) x.1,
              roots.1 x.2,
            )
            refl,
    )
