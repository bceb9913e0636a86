-- ===== src/BlockLinking/Roots.antt =====
-- The roots that a link reads in a header and in the leaf of an account.
use euclid_database.Prelude.{
  ℕ, ◌+◌, [], bit, ◌^◌, ◌≤◌, ◌<◌, ◌≡◌, refl, true, List, some, length, take, drop, length-slice,
  All-take, All-drop, arith, ap, ◌∙◌, sym, >>=-eq-some, subst,
}
use euclid_database.Plonky2.{Builder}
use euclid_database.Utils.Compare.{less_than}
use euclid_database.Utils.Pack.{convert_u8_to_u32_slice, convert_u8_targets_to_u32, le_words}
use euclid_database.Utils.Pack.Words.{length-le_words}
use euclid_database.Utils.Pack.Laws.{IsByte, AllBytes, convert_u8_to_u32_lem, pack_loop_lem}
use euclid_database.Array.{extract_array, enforce_equal}
use euclid_database.Array.Access.{AllField}
use euclid_database.Array.Reads.{extract_array_lem}
use euclid_database.Array.Slices.{enforce_equal_iff}
use euclid_database.Array.Vectors.{convert_u8_to_u32}
use euclid_database.Keccak.{hash_len}
use euclid_database.Mpt.Selects.{connect_true}
use euclid_database.Mpt.Key.{some-elim}
use euclid_database.Mpt.Verify.{IsHash}
use euclid_database.BlockLinking.{
  AccountWires, BlockInputsWires, header_rlp_state_root_offset, verify_state_root_hash_inclusion,
  verify_storage_root_hash_inclusion,
}

-- The words of the 32 bytes at a place.
abbrev pub hash_at : List ℕ → ℕ → List ℕ
hash_at arr at = le_words (take hash_len (drop at arr))

module _ (b : Builder) where
  bytes_at : (arr : List ℕ) (at : ℕ) → AllBytes arr → AllBytes (take hash_len (drop at arr))
  bytes_at arr at h = All-take IsByte hash_len (drop at arr) (All-drop IsByte at arr h)

  length-bytes_at :
      (arr : List ℕ) (at : ℕ) → at + 32 ≤ length arr → length (take hash_len (drop at arr)) ≡ 32
  length-bytes_at arr at h = length-slice arr at 32 h

  length-hash_at : (arr : List ℕ) (at : ℕ) → at + 32 ≤ length arr → length (hash_at arr at) ≡ 8
  length-hash_at arr at h =
      omega (arith, length-le_words (take hash_len (drop at arr)), length-bytes_at arr at h)

  pub targets_at :
      (arr : List ℕ) (at : ℕ)
      → AllBytes arr
      → at + 32 ≤ length arr
      → convert_u8_targets_to_u32 b (take hash_len (drop at arr)) ≡ some (hash_at arr at)
  unfolding convert_u8_targets_to_u32
  targets_at arr at f h =
      rw
        (
          length-bytes_at arr at h,
          pack_loop_lem b (take hash_len (drop at arr)) (bytes_at arr at f),
        )
        refl

  words_at :
      (arr : List ℕ) (at : ℕ)
      → AllBytes arr
      → at + 32 ≤ length arr
      → convert_u8_to_u32 b (take hash_len (drop at arr)) ≡ hash_at arr at
  unfolding convert_u8_to_u32_slice
  words_at arr at f h =
      convert_u8_to_u32_lem b (take hash_len (drop at arr)) (bytes_at arr at f)
      ∙ rw (length-bytes_at arr at h) refl

  enforced :
      (xs ys : List ℕ) (u : Unit {0})
      → length xs ≡ length ys
      → enforce_equal b xs ys ≡ some u
      → xs ≡ ys
  enforced xs ys tt h e = (enforce_equal_iff b xs ys h).0 e

  pub state_root_lem :
      (wires : BlockInputsWires) (root : List ℕ) (u : Unit {0})
      → AllBytes wires.header_rlp.arr
      → 123 ≤ length wires.header_rlp.arr
      → IsHash root
      → verify_state_root_hash_inclusion b wires root ≡ some u
      → root ≡ hash_at wires.header_rlp.arr header_rlp_state_root_offset
  unfolding verify_state_root_hash_inclusion
  state_root_lem wires root u f h l e =
      let arr = wires.header_rlp.arr in
      let (words, e1, r1) =
        >>=-eq-some
          (convert_u8_targets_to_u32 b (take hash_len (drop header_rlp_state_root_offset arr))) _
          e in
      let q : words ≡ hash_at arr 91 =
        some-elim (λ r. r) [] (sym e1 ∙ targets_at arr 91 f (omega arith)) in
      sym (
        enforced (hash_at arr 91) root u (omega (arith, length-hash_at arr 91 (omega arith), l))
          (subst (λ ws. enforce_equal b ws root ≡ some u) q r1))

  pub storage_root_lem :
      (wires : AccountWires) (root : List ℕ) (u : Unit {0})
      → AllField wires.leaf.arr
      → AllBytes wires.leaf.arr
      → wires.storage_root_offset + 32 ≤ length wires.leaf.arr
      → length wires.leaf.arr < 2 ^ 61
      → IsHash root
      → verify_storage_root_hash_inclusion b wires root ≡ some u
      → (less_than b wires.storage_root_offset wires.leaf.real_len 7 ≡ some true)
        × (root ≡ hash_at wires.leaf.arr wires.storage_root_offset)
  unfolding verify_storage_root_hash_inclusion
  storage_root_lem wires root u g f h small l e =
      let arr = wires.leaf.arr in
      let at = wires.storage_root_offset in
      let (within, e1, r1) = >>=-eq-some (less_than b at wires.leaf.real_len 7) _ e in
      let (v, e2, r2) = >>=-eq-some (b.connect (bit within) (bit true)) _ r1 in
      let (bytes, e3, r3) = >>=-eq-some (extract_array b arr at hash_len) _ r2 in
      let q : bytes ≡ take hash_len (drop at arr) =
        some-elim (λ r. r) [] (sym e3 ∙ extract_array_lem b arr at 32 g h small) in
      let w : convert_u8_to_u32 b bytes ≡ hash_at arr at =
        ap (λ r. convert_u8_to_u32 b r) q ∙ words_at arr at f h in
      (
        e1 ∙ ap some (connect_true b within e2),
        sym (
            enforced (hash_at arr at) root u (omega (arith, length-hash_at arr at h, l))
              (subst (λ ws. enforce_equal b ws root ≡ some u) w r3)),
      )
