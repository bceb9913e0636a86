-- ===== src/Mapping/Leaf/OtherKey.antt =====
-- A leaf of the mapping does not tie the key of its entry to the key in its node.
use euclid_database.Prelude.{
  ℕ, ◌%◌, ◌≡◌, refl, Bool, true, List, ◌++◌, some, length, length-append, ==_iff, >>=-eq-some,
  arith, ap, sym, ◌∙◌, bit, Circuit, none, Bool-cases, inl, inr, ◌==◌,
}
use euclid_database.Plonky2.{Builder}
use euclid_database.Utils.Pack.{convert_u8_targets_to_u32, pack_loop}
use euclid_database.GroupHashing.{Group}
use euclid_database.Array.{assert_bytes, extract_array}
use euclid_database.Rlp.{RlpList, decode_fixed_list, decode_compact_encoding}
use euclid_database.Keccak.{hash_vector, hash_to_bytes}
use euclid_database.Mpt.{
  MptKeyWire, max_leaf_value_len, advance_by, advance_key_leaf_or_extension, init_from_u32_targets,
  word_nibbles,
}
use euclid_database.Mpt.Key.{some-elim}
use euclid_database.StorageKey.{mapping_slot_key, keccak_mpt}
use euclid_database.Mapping.{register}
use euclid_database.Mapping.Leaf.{LeafWires, leaf_value, mapping_leaf}

-- The wires of a leaf with another key, slot and storage key.
abbrev pub with_entry : LeafWires → LeafWires → LeafWires
with_entry w other = record other { node = w.node; root_diff = w.root_diff }

module _ (b : Builder) (hash_keccak256 : List ℕ → List Bool → List ℕ) where
  -- Every storage key starts at its last nibble.
  mapping_slot_key-pointer :
      (mapping_key : List ℕ) (slot diff : ℕ) (location_bytes : List ℕ) (key_diff : ℕ)
      (key : MptKeyWire)
      → mapping_slot_key b hash_keccak256 mapping_key slot diff location_bytes key_diff ≡ some key
      → key.pointer ≡ 63
  unfolding mapping_slot_key keccak_mpt init_from_u32_targets
  mapping_slot_key-pointer mapping_key slot diff location_bytes key_diff key e =
      let (u, e0, r0) = >>=-eq-some (assert_bytes b mapping_key) _ e in
      let (place, e1, r1) =
        >>=-eq-some (hash_to_bytes b hash_keccak256 _ diff location_bytes) _ r0 in
      let (ws, e2, r2) = >>=-eq-some (hash_vector b hash_keccak256 _ key_diff) _ r1 in
      let (ns, e3, r3) = >>=-eq-some (word_nibbles b ws) _ r2 in
      sym (some-elim (λ (m : MptKeyWire). m.pointer) 63 r3)

  -- A leaf or extension node is read the same way for every key with the same pointer.
  pub advance_leaf-other_key :
      (n : ℕ) (node : List ℕ) (key other : MptKeyWire) (headers : RlpList) (new_key : MptKeyWire)
      (value : List ℕ) (valid : Bool)
      → key.pointer ≡ other.pointer
      → advance_key_leaf_or_extension b n node key headers ≡ some (new_key, value, valid)
      → advance_key_leaf_or_extension b n node other headers
        ≡ some (record { key = other.key; pointer = new_key.pointer }, value, valid)
  unfolding advance_key_leaf_or_extension advance_by
  advance_leaf-other_key n node key other headers new_key value valid p e =
      let ((extracted, ok), e1, r1) = >>=-eq-some (decode_compact_encoding b node _) _ e in
      let (child, e2, r2) = >>=-eq-some (extract_array b node _ n) _ r1 in
      let q = some-elim (λ (t : MptKeyWire × List ℕ × Bool). t) (new_key, value, valid) r2 in
      rw (e1, e2, ← p)
        (ap
          (λ (t : MptKeyWire × List ℕ × Bool).
            some (record { key = other.key; pointer = t.0.pointer }, t.1, t.2))
          q)

  packs :
      (xs ws : List ℕ)
      → convert_u8_targets_to_u32 b xs ≡ some ws
      → (length xs % 4 ≡ 0) × (pack_loop b xs ≡ ws)
  unfolding convert_u8_targets_to_u32
  packs xs ws e = elim (Bool-cases (length xs % 4 == 0)) [
    | inl whole ↦ ((==_iff (length xs % 4) 0).0 whole, some-elim (λ r. r) ws (rw whole at e))
    | inr part ↦ absurd (refused (rw part at e))
  ]
    where
      refused : ¬ (◌≡◌ {A = Circuit (List ℕ)} none (some ws))
      refused e = cc

  packed_whole :
      (xs : List ℕ) → length xs % 4 ≡ 0 → convert_u8_targets_to_u32 b xs ≡ some (pack_loop b xs)
  unfolding convert_u8_targets_to_u32
  packed_whole xs h = rw ((==_iff (length xs % 4) 0).1 h) refl

  module _ (g : Group) where
    complete :
        (w : LeafWires) (u : Unit {0}) (root : List ℕ) (key : MptKeyWire) (headers : RlpList)
        (new_key : MptKeyWire) (encoded value packed : List ℕ) (valid : Bool) (u' : Unit {0})
        → assert_bytes b w.node.arr ≡ some u
        → hash_vector b hash_keccak256 w.node w.root_diff ≡ some root
        → mapping_slot_key b hash_keccak256 w.mapping_key w.slot w.location_diff w.location_bytes
            w.key_diff
          ≡ some key
        → decode_fixed_list b 2 w.node.arr 0 ≡ some headers
        → advance_key_leaf_or_extension b max_leaf_value_len w.node.arr key headers
          ≡ some (new_key, encoded, valid)
        → b.connect (bit true) (bit valid) ≡ some u'
        → leaf_value b encoded ≡ some value
        → convert_u8_targets_to_u32 b (w.mapping_key ++ value) ≡ some packed
        → mapping_leaf b hash_keccak256 g w
          ≡ some (register new_key w.slot 1 root (g.map_to_curve_point packed))
    unfolding mapping_leaf
    complete w u root key headers new_key encoded value packed valid u' e0 e1 e2 e3 e4 e5 e6 e7 =
        rw (e0, e1, e2, e3, e4, e5, e6, e7) refl

    -- Where a leaf is accepted with the key and the slot of one entry, the same node is accepted with
    -- those of any other entry whose storage key the circuit derives, from a mapping key of the same
    -- length: with the same value, and up to
    -- the nibbles of the key, the digest and the slot the same public inputs.
    pub mapping_leaf-other_key :
        (w other : LeafWires) (pis : List ℕ) (other_key : MptKeyWire)
        → length w.mapping_key ≡ length other.mapping_key
        → mapping_leaf b hash_keccak256 g w ≡ some pis
        → mapping_slot_key b hash_keccak256 other.mapping_key other.slot other.location_diff
            other.location_bytes other.key_diff
          ≡ some other_key
        → (key : MptKeyWire) × (value : List ℕ) × (root : List ℕ) × (pis
            ≡ register key w.slot 1 root
                (g.map_to_curve_point (pack_loop b (w.mapping_key ++ value))))
          × (mapping_leaf b hash_keccak256 g (with_entry w other)
              ≡ some (
                  register
                    (record { key = other_key.key; pointer = key.pointer })
                    other.slot
                    1
                    root
                    (g.map_to_curve_point (pack_loop b (other.mapping_key ++ value)))))
    unfolding mapping_leaf
    mapping_leaf-other_key w other pis other_key size e derived =
        let hk = hash_keccak256 in
        let (u, e0, r0) = >>=-eq-some (assert_bytes b w.node.arr) _ e in
        let (root, e1, r1) = >>=-eq-some (hash_vector b hk w.node w.root_diff) _ r0 in
        let (key, e2, r2) =
          >>=-eq-some
            (mapping_slot_key b hk w.mapping_key w.slot w.location_diff w.location_bytes w.key_diff)
            _ r1 in
        let (hs, e3, r3) = >>=-eq-some (decode_fixed_list b 2 w.node.arr 0) _ r2 in
        let ((new_key, encoded, valid), e4, r4) =
          >>=-eq-some (advance_key_leaf_or_extension b max_leaf_value_len w.node.arr key hs) _ r3 in
        let (u', e5, r5) = >>=-eq-some (b.connect (bit true) (bit valid)) _ r4 in
        let (value, e6, r6) = >>=-eq-some (leaf_value b encoded) _ r5 in
        let (packed, e7, r7) =
          >>=-eq-some (convert_u8_targets_to_u32 b (w.mapping_key ++ value)) _ r6 in
        let words = packs (w.mapping_key ++ value) packed e7 in
        let pointers : key.pointer ≡ other_key.pointer =
          mapping_slot_key-pointer w.mapping_key w.slot w.location_diff w.location_bytes w.key_diff
            key e2
          ∙ sym (
              mapping_slot_key-pointer other.mapping_key other.slot other.location_diff
                other.location_bytes other.key_diff other_key derived) in
        let moved =
          advance_leaf-other_key max_leaf_value_len w.node.arr key other_key hs new_key encoded
            valid pointers e4 in
        (
          new_key,
          value,
          root,
          sym (some-elim (λ r. r) pis r7)
              ∙ ap (λ ws. register new_key w.slot 1 root (g.map_to_curve_point ws)) (sym words.1),
          complete (with_entry w other) u root other_key hs _ encoded value _ valid u' e0 e1 derived
              e3 moved e5 e6
              (packed_whole (other.mapping_key ++ value) (
                omega (
                  arith,
                  size,
                  words.0,
                  length-append w.mapping_key value,
                  length-append other.mapping_key value,
                ))),
        )
