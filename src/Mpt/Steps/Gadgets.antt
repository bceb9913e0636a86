-- ===== src/Mpt/Steps/Gadgets.antt =====
-- The gadgets on one node accept a pair or a branch.
use euclid_database.Prelude.{
  ℕ, ◌/◌, ◌%◌, ◌<◌, ◌≡◌, ◌⊎◌, Bool, true, false, List, some, ltb, ◌==◌, bit, length, get_or,
  All-get_or, Bool-cases, inl, inr, ltb→lt, arith, ap, ◌∙◌, sym, >>=-eq-some, Circuit,
  length-build_array, subst, ==_iff, ◌&&◌,
}
use euclid_database.Plonky2.{Builder, IsField}
use euclid_database.Array.{value_at, extract_array, select}
use euclid_database.Array.Access.{value_at_large}
use euclid_database.Rlp.{
  RlpHeader, RlpList, select_header, decode_fixed_list, decode_compact_encoding, compact_loop,
  max_items_in_list,
}
use euclid_database.Rlp.Compact.{split_byte, first_bits, padding_test}
use euclid_database.Array.{VectorWire}
use euclid_database.Keccak.{hash_len}
use euclid_database.Mpt.{
  MptKeyWire, advance_by, current_nibble, select_key, advance_key_branch,
  advance_key_leaf_or_extension, advance_key,
}
use euclid_database.Mpt.Selects.{select_left, select_right, select_key-true, select_key-false}
use euclid_database.Mpt.Key.{some-elim, leaf_key_lem}
use euclid_database.Mpt.Steps.{IsNode, is_hex_prefix, IsPair, IsBranch, IsStep}

module _ (b : Builder) where
  pub length-extracted :
      (node : List ℕ) (at n : ℕ) (xs : List ℕ) → extract_array b node at n ≡ some xs → length xs ≡ n
  unfolding extract_array
  length-extracted node at n xs e = length-build_array n _ xs e

  compact_lem :
      (node : List ℕ) (h : RlpHeader) (r : VectorWire × Bool)
      → IsNode node
      → decode_compact_encoding b node h ≡ some r
      → let c = get_or node h.offset 0 in
        (c < 256)
        × (r.1 ≡ is_hex_prefix c)
        × (r.0.real_len ≡ b.add (b.mul 2 h.len) (b.sub (bit (c / 16 % 2 == 1)) 2))
  unfolding decode_compact_encoding
  compact_lem node h r (f, large) e =
      let c = get_or node h.offset 0 in
      let fc : IsField c = All-get_or IsField node h.offset 0 f (omega arith) in
      let split = b.split_low_high_lem c 4 8 fc (omega arith) (omega arith) in
      let e0 = rw (value_at_large b node h.offset f large) at e in
      elim (Bool-cases (ltb c 256)) [
        | inl t ↦
            let small = ltb→lt c 256 t in
            let e1 =
              rw
                (
                  split_byte b c small,
                  first_bits b (c / 16) (omega arith),
                  padding_test b (c / 16 % 2 == 1) (c % 16) (omega arith),
                )
                at e0 in
            let (nibbles, e2, r2) = >>=-eq-some (compact_loop b node _ (c % 16) h.offset _) _ e1 in
            (
              small,
              sym (some-elim (λ (o : VectorWire × Bool). o.1) true r2),
              sym (some-elim (λ (o : VectorWire × Bool). o.0.real_len) 0 r2),
            )
        | inr t ↦ let e1 = rw (split, t) at e0 in cc
      ]

  pub pair_lem :
      (value_len : ℕ) (node : List ℕ) (key key' : MptKeyWire) (headers : RlpList) (value : List ℕ)
      → IsNode node
      → advance_key_leaf_or_extension b value_len node key headers ≡ some (key', value, true)
      → IsPair b value_len node headers key key' value
  unfolding advance_key_leaf_or_extension advance_by
  pair_lem value_len node key key' headers value sized e =
      let h : RlpHeader = record {
        data_type = get_or headers.data_types 0 0;
        offset = get_or headers.offsets 0 0;
        len = get_or headers.lens 0 0;
      } in
      let ((extracted, flag), e1, r1) = >>=-eq-some (decode_compact_encoding b node h) _ e in
      let (v, e2, r2) =
        >>=-eq-some (extract_array b node (get_or headers.offsets 1 0) value_len) _ r1 in
      let (small, prefix, real_len) = compact_lem node h (extracted, flag) sized e1 in
      let c = get_or node h.offset 0 in
      let odd = bit (c / 16 % 2 == 1) in
      let key_is = some-elim (λ (o : MptKeyWire × List ℕ × Bool). o.0) key r2 in
      let value_is : v ≡ value = some-elim (λ (o : MptKeyWire × List ℕ × Bool). o.1) v r2 in
      let both : (headers.num_fields == 2 && flag) ≡ true =
        rw (b.is_equal_lem headers.num_fields 2, b.and_bool_lem (headers.num_fields == 2) flag) at
          (some-elim (λ (o : MptKeyWire × List ℕ × Bool). o.2) true r2) in
      let moved : b.sub key.pointer extracted.real_len ≡ key'.pointer =
        ap (λ (m : MptKeyWire). m.pointer) key_is in
      (
        (==_iff headers.num_fields 2).0 (ground (arith, both)),
        small,
        sym prefix ∙ ground (arith, both),
        sym (ap (λ (m : MptKeyWire). m.key) key_is),
        omega (
          arith,
          moved,
          real_len,
          b.sub_lem key.pointer extracted.real_len,
          b.add_lem (b.mul 2 h.len) (b.sub odd 2),
          b.mul_lem 2 h.len,
          b.sub_lem odd 2,
        ),
        e2 ∙ ap some value_is,
      )

  pub branch_lem :
      (node : List ℕ) (key key' : MptKeyWire) (headers : RlpList) (child : List ℕ) (nibble : ℕ)
      → advance_key_branch b node key headers ≡ some (key', child, true, nibble)
      → IsBranch b node headers key key' child nibble
  unfolding advance_key_branch current_nibble advance_by
  branch_lem node key key' headers child nibble e =
      let (nib, e1, r1) = >>=-eq-some (value_at b key.key key.pointer) _ e in
      let (header, e2, r2) = >>=-eq-some (select_header b headers nib) _ r1 in
      let (hash, e3, r3) = >>=-eq-some (extract_array b node header.offset hash_len) _ r2 in
      let key_is = some-elim (λ (o : MptKeyWire × List ℕ × Bool × ℕ). o.0) key r3 in
      let nibble_is : nib ≡ nibble =
        some-elim (λ (o : MptKeyWire × List ℕ × Bool × ℕ). o.3) nib r3 in
      let full : (17 == headers.num_fields) ≡ true =
        sym (b.is_equal_lem 17 headers.num_fields)
        ∙ some-elim (λ (o : MptKeyWire × List ℕ × Bool × ℕ). o.2) true r3 in
      let moved : b.sub key.pointer 1 ≡ key'.pointer = ap (λ (m : MptKeyWire). m.pointer) key_is in
      (
        header,
        sym ((==_iff 17 headers.num_fields).0 full),
        e1 ∙ ap some nibble_is,
        sym (ap (λ (m : MptKeyWire). m.key) key_is),
        omega (arith, moved, b.sub_lem key.pointer 1),
        ap (λ n. select_header b headers n) (sym nibble_is) ∙ e2,
        e3 ∙ ap some (some-elim (λ (o : MptKeyWire × List ℕ × Bool × ℕ). o.1) hash r3),
      )

  length-leaf :
      (value_len : ℕ) (node : List ℕ) (key : MptKeyWire) (hs : RlpList) (k1 : MptKeyWire)
      (c1 : List ℕ) (valid : Bool)
      → advance_key_leaf_or_extension b value_len node key hs ≡ some (k1, c1, valid)
      → length c1 ≡ value_len
  unfolding advance_key_leaf_or_extension
  length-leaf value_len node key hs k1 c1 valid e =
      let (r, e1, r1) = >>=-eq-some (decode_compact_encoding b node _) _ e in
      let (v, e2, r2) = >>=-eq-some (extract_array b node _ value_len) _ r1 in
      ap length (sym (some-elim (λ (o : MptKeyWire × List ℕ × Bool). o.1) v r2))
      ∙ length-extracted node _ value_len v e2

  pub step_lem :
      (node : List ℕ) (key key' : MptKeyWire) (child : List ℕ)
      → IsNode node
      → advance_key b node key ≡ some (key', child, true)
      → IsStep b node key key' child × (length child ≡ 32)
  unfolding advance_key
  step_lem node key key' child sized e =
      let (hs, e1, r1) = >>=-eq-some (decode_fixed_list b max_items_in_list node 0) _ e in
      let ((k1, c1, is_tuple), e2, r2) =
        >>=-eq-some (advance_key_leaf_or_extension b hash_len node key hs) _ r1 in
      let ((k2, c2, is_branch, nibble), e3, r3) =
        >>=-eq-some (advance_key_branch b node key hs) _ r2 in
      either hs k1 c1 is_tuple k2 c2 is_branch nibble e1 e2 e3 r3 (Bool-cases is_tuple)
    where
      either :
          (hs : RlpList) (k1 : MptKeyWire) (c1 : List ℕ) (is_tuple : Bool) (k2 : MptKeyWire)
          (c2 : List ℕ) (is_branch : Bool) (nibble : ℕ)
          → decode_fixed_list b max_items_in_list node 0 ≡ some hs
          → advance_key_leaf_or_extension b hash_len node key hs ≡ some (k1, c1, is_tuple)
          → advance_key_branch b node key hs ≡ some (k2, c2, is_branch, nibble)
          → ◌≡◌ {A = Circuit (MptKeyWire × List ℕ × Bool)}
              (some (
                select_key b k1 is_tuple k2,
                select b is_tuple c1 c2,
                b.or_bool is_tuple is_branch,
              ))
              (some (key', child, true))
          → (is_tuple ≡ true) ⊎ (is_tuple ≡ false)
          → IsStep b node key key' child × (length child ≡ 32)
      either hs k1 c1 is_tuple k2 c2 is_branch nibble e1 e2 e3 r (inl t) =
          let r' = rw t at r in
          let key_is : k1 ≡ key' =
            sym (select_key-true b k1 k2)
            ∙ some-elim (λ (o : MptKeyWire × List ℕ × Bool). o.0) k1 r' in
          let child_is : c1 ≡ child =
            sym (select_left b c1 c2) ∙ some-elim (λ (o : MptKeyWire × List ℕ × Bool). o.1) c1 r' in
          let pair =
            pair_lem hash_len node key k1 hs c1 sized (e2 ∙ ap (λ c. some (k1, c1, c)) t) in
          (
            (
              hs,
              e1,
              inl (
                  subst (λ k. IsPair b 32 node hs key k child) key_is
                    (subst (λ c. IsPair b 32 node hs key k1 c) child_is pair)),
            ),
            ap length (sym child_is) ∙ length-extracted node _ 32 c1 pair.5,
          )
      either hs k1 c1 is_tuple k2 c2 is_branch nibble e1 e2 e3 r (inr t) =
          let r' = rw t at r in
          let is_branch_true : is_branch ≡ true = ground (
            arith,
            b.or_bool_lem false is_branch,
            some-elim (λ (o : MptKeyWire × List ℕ × Bool). o.2) true r',
          ) in
          let branch =
            branch_lem node key k2 hs c2 nibble
              (e3 ∙ ap (λ c. some (k2, c2, c, nibble)) is_branch_true) in
          let l1 : length c1 ≡ 32 = length-leaf hash_len node key hs k1 c1 is_tuple e2 in
          let l2 : length c2 ≡ 32 = length-extracted node _ 32 c2 branch.6 in
          let same : k1.key ≡ k2.key =
            leaf_key_lem b hash_len node key hs (k1, c1, is_tuple) e2 ∙ sym branch.3 in
          let key_is : k2 ≡ key' =
            sym (select_key-false b k1 k2 same)
            ∙ some-elim (λ (o : MptKeyWire × List ℕ × Bool). o.0) k1 r' in
          let child_is : c2 ≡ child =
            sym (select_right b c1 c2 (l1 ∙ sym l2))
            ∙ some-elim (λ (o : MptKeyWire × List ℕ × Bool). o.1) c1 r' in
          (
            (
              hs,
              e1,
              inr (
                nibble,
                subst (λ k. IsBranch b node hs key k child nibble) key_is
                    (subst (λ c. IsBranch b node hs key k2 c nibble) child_is branch),
              ),
            ),
            ap length (sym child_is) ∙ l2,
          )
