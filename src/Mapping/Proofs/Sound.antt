-- ===== src/Mapping/Proofs/Sound.antt =====
-- What a proof over a mapping exposes.
pub mod Sizes
use native.Mathlib.Nat.{mod-add-mod}
use mathlib.Core.Path.{ap₂}
use euclid_database.Prelude.{
  ℕ, ◌+◌, ◌%◌, ◌≤◌, ◌<◌, ◌≡◌, refl, Bool, true, false, List, [], ◌∷◌, ◌++◌, ◌>>=◌, some, ltb,
  length, length-append, Bool-cases, inl, inr, >>=-eq-some, arith, ap, sym, subst, ◌∙◌, bit,
  if◌then◌else◌,
}
use euclid_database.Plonky2.{Builder, order, IsField}
use euclid_database.Utils.Compare.{less_than}
use euclid_database.Utils.Compare.Laws.{less_than_lem}
use euclid_database.Utils.Pack.{convert_u8_targets_to_u32}
use euclid_database.GroupHashing.{Group}
use euclid_database.Array.{VectorWire, assert_bytes, equals}
use euclid_database.Array.Vectors.{convert_u8_to_u32}
use euclid_database.Rlp.{RlpList, decode_fixed_list, max_items_in_list}
use euclid_database.Keccak.{hash_vector, hash_len}
use euclid_database.Keccak.Reference.{KeccakHash}
use euclid_database.Mpt.{MptKeyWire, max_leaf_value_len, advance_by, advance_key_leaf_or_extension}
use euclid_database.Mpt.Key.{leaf_key_lem, some-elim}
use euclid_database.Mpt.Selects.{connect_true'}
use euclid_database.Mpt.Steps.{IsNode}
use euclid_database.Mpt.Steps.Gadgets.{pair_lem}
use euclid_database.StorageKey.{mapping_slot_key}
use euclid_database.Mapping.{
  Curve, register, extension_circuit, branch_circuit, accumulator, mpt_key, root_hash, mapping_slot,
  entries, check_child, children_loop,
}
use euclid_database.Mapping.PublicInputs.{register_lem}
use euclid_database.Mapping.Leaf.{LeafWires, leaf_value, mapping_leaf}
use euclid_database.Mapping.Children.{IsChild, check_child_lem}
use euclid_database.Mapping.Proofs.{
  Proof, Proofs, leaf, extension, branch, nil, cons, number, IsSized, AllSized, Exposed,
  exposed_pis, prove_mapping, prove_children, Holds, HoldsAll, HoldsLeaf, IsParent,
}
use euclid_database.Mapping.Proofs.Sound.Sizes.{
  WellSized, exposed_pis_lem, mapping_slot_key-length, hash_vector-length,
}

module _ (b : Builder) (k : KeccakHash) (g : Group) (curve : Curve) where
  -- What a proof shows: its public inputs are those of entries that it holds, with their number.
  abbrev pub Shows : Proof → List ℕ → Type 0
  Shows p pis =
      (es : List (List ℕ × List ℕ)) × (x : Exposed) × Holds b k.hash_keccak256 g curve p es x
      × (pis ≡ exposed_pis x (length es % order))
      × WellSized x

  pub leaf_lem :
      (w : LeafWires) (pis : List ℕ)
      → IsNode w.node.arr
      → mapping_leaf b k.hash_keccak256 g w ≡ some pis
      → Shows (leaf w) pis
  unfolding mapping_leaf Holds
  leaf_lem w pis sized e =
      let hk = k.hash_keccak256 in
      let (u, e0, r0) = >>=-eq-some (assert_bytes b w.node.arr) _ e in
      let (root, e1, r1) = >>=-eq-some (hash_vector b hk w.node w.root_diff) _ r0 in
      let (key, e2, r2) =
        >>=-eq-some
          (mapping_slot_key b hk w.mapping_key w.slot w.location_diff w.location_bytes w.key_diff) _
          r1 in
      let (hs, e3, r3) = >>=-eq-some (decode_fixed_list b 2 w.node.arr 0) _ r2 in
      let ((new_key, encoded, valid), e4, r4) =
        >>=-eq-some (advance_key_leaf_or_extension b max_leaf_value_len w.node.arr key hs) _ r3 in
      let (u', e5, r5) = >>=-eq-some (b.connect (bit true) (bit valid)) _ r4 in
      let (value, e6, r6) = >>=-eq-some (leaf_value b encoded) _ r5 in
      let (packed, e7, r7) =
        >>=-eq-some (convert_u8_targets_to_u32 b (w.mapping_key ++ value)) _ r6 in
      let x : Exposed = record {
        key = new_key;
        slot = w.slot;
        root = root;
        digest = g.map_to_curve_point packed;
      } in
      (
        (w.mapping_key, value) ∷ [],
        x,
        (
          key,
          hs,
          encoded,
          value,
          packed,
          e1,
          e2,
          e3,
          pair_lem b 33 w.node.arr key new_key hs encoded sized
              (e4 ∙ ap (λ c. some (new_key, encoded, c)) (connect_true' b valid e5)),
          e6,
          e7,
          refl,
          refl,
          refl,
        ),
        sym (some-elim (λ r. r) pis r7),
        (
          ap length
                (leaf_key_lem b max_leaf_value_len w.node.arr key hs (new_key, encoded, valid) e4)
              ∙ mapping_slot_key-length b k w.mapping_key w.slot w.location_diff w.location_bytes
                  w.key_diff key e2,
          hash_vector-length b k w.node w.root_diff root e1,
          g.length-map_to_curve_point packed,
        ),
      )

  pub extension_lem :
      (node : VectorWire) (diff : ℕ) (p : Proof) (child pis : List ℕ)
      → IsNode node.arr
      → Shows p child
      → extension_circuit b k.hash_keccak256 node diff child ≡ some pis
      → Shows (extension node diff p) pis
  unfolding extension_circuit Holds
  extension_lem node diff p child pis sized (es, y, held, same, sizes) e =
      let hk = k.hash_keccak256 in
      let n = length es % order in
      let (ra, rk, rs, rn, rr) = exposed_pis_lem y n sizes in
      let (u, e0, r0) = >>=-eq-some (assert_bytes b node.arr) _ (
        rw (ra, rk, rs, rn, rr) at (ap (λ c. extension_circuit b hk node diff c) (sym same) ∙ e)) in
      let (root, e1, r1) = >>=-eq-some (hash_vector b hk node diff) _ r0 in
      let (hs, e2, r2) = >>=-eq-some (decode_fixed_list b 2 node.arr 0) _ r1 in
      let ((new_key, hash, valid), e3, r3) =
        >>=-eq-some (advance_key_leaf_or_extension b hash_len node.arr y.key hs) _ r2 in
      let (u1, e4, r4) = >>=-eq-some (b.connect (bit true) (bit valid)) _ r3 in
      let (u2, e5, r5) =
        >>=-eq-some (b.connect (bit true) (bit (equals b (convert_u8_to_u32 b hash) y.root))) _
          r4 in
      let x : Exposed = record { key = new_key; slot = y.slot; root = root; digest = y.digest } in
      (
        es,
        x,
        (
          y,
          held,
          (
            hs,
            hash,
            e1,
            e2,
            pair_lem b 32 node.arr y.key new_key hs hash sized
                (e3 ∙ ap (λ c. some (new_key, hash, c)) (connect_true' b valid e4)),
            connect_true' b (equals b (convert_u8_to_u32 b hash) y.root) e5,
            refl,
            refl,
          ),
        ),
        sym (some-elim (λ r. r) pis r5),
        (
          ap length (leaf_key_lem b hash_len node.arr y.key hs (new_key, hash, valid) e3) ∙ sizes.0,
          hash_vector-length b k node diff root e1,
          sizes.2,
        ),
      )

  module _ (node : List ℕ) (headers : RlpList) (common_prefix : MptKeyWire) (slot nb : ℕ) where
    -- What the loop over the children adds to a point and to a number of entries.
    abbrev pub Adds : Proofs → ℕ → List ℕ → List ℕ → ℕ → List ℕ → ℕ → Type 0
    Adds ps i seen acc n acc' n' =
        (es : List (List ℕ × List ℕ)) × HoldsAll b k.hash_keccak256 g curve ps node headers
          common_prefix slot nb i seen acc es acc'
        × (n' ≡ (n + length es) % order)
        × (length acc' ≡ 11)

    counts : (n m l r : ℕ) → r ≡ ((n + m % order) % order + l) % order → r ≡ (n + (m + l)) % order
    counts n m l r e = omega (arith, e)

    pub child_lem :
        (p : Proof) (ps : Proofs) (pis : List ℕ) (inputs : List (List ℕ)) (i : ℕ)
        (seen acc : List ℕ) (n : ℕ) (acc' : List ℕ) (n' : ℕ)
        → nb ≤ 16
        → i < 16
        → n < order
        → length acc ≡ 11
        → Shows p pis
        → ((nibble : ℕ) (acc1 : List ℕ) (n1 : ℕ)
            → n1 < order
            → length acc1 ≡ 11
            → children_loop b k.hash_keccak256 curve node headers common_prefix slot nb
                (i + 1)
                inputs
                acc1
                n1
                (seen ++ (nibble ∷ []))
              ≡ some (acc', n')
            → Adds ps (i + 1) (seen ++ (nibble ∷ [])) acc1 n1 acc' n')
        → children_loop b k.hash_keccak256 curve node headers common_prefix slot nb i
            (pis ∷ inputs)
            acc
            n
            seen
          ≡ some (acc', n')
        → Adds (cons p ps) i seen acc n acc' n'
    unfolding children_loop HoldsAll
    child_lem p ps pis inputs i seen acc n acc' n' small low f size (here, y, held, same, sizes) ih
          e =
        let hk = k.hash_keccak256 in
        let m = length here % order in
        let (ra, rk, rs, rn, rr) = exposed_pis_lem y m sizes in
        let t : less_than b i nb 4 ≡ some (ltb i nb) =
          less_than_lem b i nb 4 (omega arith) (omega arith) (omega arith) (omega arith)
            (omega arith) in
        let e' =
          rw (t, ra, rn) at
            (ap
                (λ c.
                  children_loop b hk curve node headers common_prefix slot nb i (c ∷ inputs) acc n
                    seen)
                (sym same)
              ∙ e) in
        elim (Bool-cases (ltb i nb)) [
          | inl c ↦
              let (nibble, e1, e2) =
                >>=-eq-some
                  (check_child b hk curve node headers common_prefix slot seen true
                    (exposed_pis y m))
                  _
                  (rw
                    (
                      c,
                      curve.curve_select_lem true y.digest curve.curve_zero,
                      b.select_lem true m 0,
                    )
                    at e') in
              let child =
                check_child_lem b hk curve node headers common_prefix slot seen (exposed_pis y m)
                  nibble e1 in
              let (rest, held', number', size') =
                ih nibble (curve.curve_add acc y.digest) (b.add n m) (omega (arith, b.add_lem n m))
                  (curve.length-curve_add acc y.digest) e2 in
              (
                here ++ rest,
                (nibble, inl (c, (here, rest, y, held, rw (rk, rs, rr) at child, held', refl))),
                counts n (length here) (length rest) n'
                      (number' ∙ ap (λ z. (z + length rest) % order) (b.add_lem n m))
                    ∙ ap (λ z. (n + z) % order) (sym (length-append here rest)),
                size',
              )
          | inr c ↦
              let (nibble, e1, e2) =
                >>=-eq-some
                  (check_child b hk curve node headers common_prefix slot seen false
                    (exposed_pis y m))
                  _
                  (rw
                    (
                      c,
                      curve.curve_select_lem false y.digest curve.curve_zero,
                      b.select_lem false m 0,
                    )
                    at e') in
              let (rest, held', number', size') =
                ih nibble (curve.curve_add acc curve.curve_zero) (b.add n 0)
                  (omega (arith, b.add_lem n 0)) (curve.length-curve_add acc curve.curve_zero) e2 in
              (
                rest,
                (nibble, inr (c, held')),
                number' ∙ ap (λ z. (z + length rest) % order) (omega (arith, b.add_lem n 0)),
                size',
              )
        ]
