-- ===== src/Mapping/Children.antt =====
-- The checks of a branch on one child of it.
use euclid_database.Prelude.{
  ℕ, ◌≢◌, ◌≡◌, Bool, true, false, List, [], ◌∷◌, some, bit, All, ◌==◌, ==_iff, >>=-eq-some, arith,
  ap, ◌∙◌, sym, subst, ◌&&◌,
}
use euclid_database.Plonky2.{Builder}
use euclid_database.Plonky2.Laws.{connect_eq}
use euclid_database.Utils.Pack.{convert_u8_targets_to_u32}
use euclid_database.Array.{equals, is_slice_equals}
use euclid_database.Rlp.{RlpList}
use euclid_database.Mpt.{MptKeyWire, advance_key_branch, is_prefix_equal}
use euclid_database.Mpt.Selects.{connect_true}
use euclid_database.Mpt.Steps.{IsBranch}
use euclid_database.Mpt.Steps.Gadgets.{branch_lem}
use euclid_database.Mapping.{Curve, mpt_key, root_hash, mapping_slot, unseen, check_child}

-- A child that counts, with its key, its slot and its hash: the node has 17 items and holds the hash at
-- the current nibble of the child's key, which no child before it has, and its slot and its key's
-- pointer are those of the branch.
abbrev pub IsChild :
    Builder → List ℕ → RlpList → MptKeyWire → ℕ → List ℕ → MptKeyWire → ℕ → List ℕ → ℕ → Type 0
IsChild b node headers common_prefix slot seen_nibbles key child_slot root nibble =
    (new_key : MptKeyWire) × (hash : List ℕ) × (packed : List ℕ) × IsBranch b node headers key
      new_key hash nibble
    × (convert_u8_targets_to_u32 b hash ≡ some packed)
    × (equals b packed root ≡ true)
    × All (λ sn. sn ≢ nibble) seen_nibbles
    × (common_prefix.pointer ≡ key.pointer)
    × (slot ≡ child_slot)

module _ (b : Builder) (hash_keccak256 : List ℕ → List Bool → List ℕ) (curve : Curve) where
  -- A constraint that holds only of children that count.
  enforced :
      (c : Bool) {u : Unit {0}}
      → b.connect (b.select true (bit c) (bit true)) (bit true) ≡ some u
      → c ≡ true
  enforced c e = connect_true b c (rw (b.select_lem true (bit c) (bit true)) at e)

  not_equal :
      (sn nibble : ℕ) {u : Unit {0}}
      → b.connect (b.select true (bit (b.is_equal sn nibble)) (bit false)) (bit false) ≡ some u
      → sn ≢ nibble
  not_equal sn nibble e same =
      let zero_ : b.select true (bit (b.is_equal sn nibble)) 0 ≡ 0 = connect_eq b _ 0 e in
      let one_ : b.select true (bit (b.is_equal sn nibble)) 0 ≡ 1 =
        b.select_lem true (bit (b.is_equal sn nibble)) 0
        ∙ ap bit (b.is_equal_lem sn nibble ∙ (==_iff sn nibble).1 same) in
      absurd (omega (arith, zero_, one_))

  unseen_lem :
      (seen_nibbles : List ℕ) (nibble : ℕ) {u : Unit {0}}
      → unseen b hash_keccak256 curve seen_nibbles nibble true ≡ some u
      → All (λ sn. sn ≢ nibble) seen_nibbles
  unfolding unseen
  unseen_lem [] nibble e = tt
  unseen_lem (sn ∷ seen_nibbles) nibble e =
      let (u, e1, r1) = >>=-eq-some (b.connect _ _) _ e in
      (not_equal sn nibble e1, unseen_lem seen_nibbles nibble r1)

  same_pointer :
      (self other : MptKeyWire)
      → is_prefix_equal b self other ≡ some true
      → self.pointer ≡ other.pointer
  unfolding is_prefix_equal
  same_pointer self other e =
      let (c, e1, r1) = >>=-eq-some (is_slice_equals b self.key other.key self.pointer) _ e in
      let both : (self.pointer == other.pointer && c) ≡ true =
        sym (b.and_bool_lem (self.pointer == other.pointer) c)
        ∙ ap (λ d. b.and_bool d c) (sym (b.is_equal_lem self.pointer other.pointer))
        ∙ cc r1 in
      (==_iff self.pointer other.pointer).0 (ground (arith, both))

  pub check_child_lem :
      (node : List ℕ) (headers : RlpList) (common_prefix : MptKeyWire) (slot : ℕ)
      (seen_nibbles proof_inputs : List ℕ) (nibble : ℕ)
      → check_child b hash_keccak256 curve node headers common_prefix slot seen_nibbles true
          proof_inputs
        ≡ some nibble
      → IsChild b node headers common_prefix slot seen_nibbles
          (mpt_key proof_inputs)
          (mapping_slot proof_inputs)
          (root_hash proof_inputs)
          nibble
  unfolding check_child
  check_child_lem node headers common_prefix slot seen_nibbles proof_inputs nibble e =
      let key = mpt_key proof_inputs in
      let ((new_key, hash, valid, nib), e1, r1) =
        >>=-eq-some (advance_key_branch b node key headers) _ e in
      let (u1, e2, r2) = >>=-eq-some (b.connect _ _) _ r1 in
      let (u2, e3, r3) = >>=-eq-some (unseen b hash_keccak256 curve seen_nibbles nib true) _ r2 in
      let (packed, e4, r4) = >>=-eq-some (convert_u8_targets_to_u32 b hash) _ r3 in
      let (u3, e5, r5) = >>=-eq-some (b.connect _ _) _ r4 in
      let (same, e6, r6) = >>=-eq-some (is_prefix_equal b common_prefix key) _ r5 in
      let (u4, e7, r7) = >>=-eq-some (b.connect _ _) _ r6 in
      let (u5, e8, r8) = >>=-eq-some (b.connect _ _) _ r7 in
      let n : nib ≡ nibble = cc r8 in
      (
        new_key,
        hash,
        packed,
        branch_lem b node key new_key headers hash nibble (
            e1
            ∙ ap (λ c. some (new_key, hash, c, nib)) (enforced valid e2)
            ∙ ap (λ m. some (new_key, hash, true, m)) n),
        e4,
        enforced (equals b packed (root_hash proof_inputs)) e5,
        subst (λ m. All (λ sn. sn ≢ m) seen_nibbles) n (unseen_lem seen_nibbles nib e3),
        same_pointer common_prefix key (e6 ∙ ap some (enforced same e7)),
        (==_iff slot (mapping_slot proof_inputs)).0 (
            sym (b.is_equal_lem slot (mapping_slot proof_inputs))
            ∙ enforced (b.is_equal slot (mapping_slot proof_inputs)) e8),
      )
