-- ===== src/Mpt/Key.antt =====
-- The key wires: advancing keeps the key, and the test of prefixes tells nothing of the keys.
use euclid_database.Prelude.{
  ℕ, ◌<◌, ◌≤◌, ◌≡◌, Bool, true, false, List, Circuit, some, none, length, ap, ◌∙◌, sym, arith, ◌==◌,
  >>=-eq-some, ◌↔◌, take, ==_iff, Bool-cases, inl, inr,
}
use euclid_database.Plonky2.{Builder}
use euclid_database.Array.{extract_array}
use euclid_database.Array.Slices.{is_slice_equals-always, enforce_slice_equals_iff}
use euclid_database.Rlp.{RlpList, decode_fixed_list, decode_compact_encoding, max_items_in_list}
use euclid_database.Keccak.{hash_len}
use euclid_database.Mpt.{
  MptKeyWire, advance_by, advance_key, advance_key_branch, advance_key_leaf_or_extension,
  select_key, is_prefix_equal, enforce_prefix_equal,
}

pub some-elim {ℓ κ} :
    {A : Type ℓ} {B : Type κ} (f : A → B) (d : B) {x y : A}
    → ◌≡◌ {A = Circuit A} (some x) (some y)
    → f x ≡ f y
some-elim f d e = ap (λ o. elim o [ none ↦ d | some a ↦ f a ]) e

module _ (b : Builder) where
  pub leaf_key_lem :
      (value_len : ℕ) (node : List ℕ) (key : MptKeyWire) (hs : RlpList)
      (r : MptKeyWire × List ℕ × Bool)
      → advance_key_leaf_or_extension b value_len node key hs ≡ some r
      → r.0.key ≡ key.key
  unfolding advance_key_leaf_or_extension advance_by
  leaf_key_lem value_len node key hs r e =
      let (c, e1, r1) = >>=-eq-some (decode_compact_encoding b node _) _ e in
      let (v, e2, r2) = >>=-eq-some (extract_array b node _ value_len) _ r1 in
      sym (some-elim (λ (t : MptKeyWire × List ℕ × Bool). t.0.key) key.key r2)

  pub advance_key_lem :
      (node : List ℕ) (key key' : MptKeyWire) (child : List ℕ) (valid : Bool)
      → advance_key b node key ≡ some (key', child, valid)
      → key'.key ≡ key.key
  unfolding advance_key select_key
  advance_key_lem node key key' child valid e =
      let (hs, e1, r1) = >>=-eq-some (decode_fixed_list b max_items_in_list node 0) _ e in
      let (t, e2, r2) = >>=-eq-some (advance_key_leaf_or_extension b hash_len node key hs) _ r1 in
      let (u, e3, r3) = >>=-eq-some (advance_key_branch b node key hs) _ r2 in
      sym (some-elim (λ (t : MptKeyWire × List ℕ × Bool). t.0.key) key.key r3)
      ∙ leaf_key_lem hash_len node key hs t e2

  -- For keys of 64 nibbles and a pointer below 64, `is_prefix_equal` compares the pointers alone.
  pub is_prefix_equal-pointers :
      (self other : MptKeyWire)
      → length self.key ≡ 64
      → length other.key ≡ 64
      → self.pointer < 64
      → is_prefix_equal b self other ≡ some (self.pointer == other.pointer)
  unfolding is_prefix_equal
  is_prefix_equal-pointers self other h k p =
      rw
        (
          is_slice_equals-always b self.key other.key self.pointer (omega arith) (omega arith)
              (omega arith),
          b.is_equal_lem self.pointer other.pointer,
          b.and_bool_lem (self.pointer == other.pointer) true,
        )
        (ground arith)

  -- For keys of 64 nibbles and a pointer of at most 64, `enforce_prefix_equal` is satisfied exactly
  -- by equal pointers and keys that agree before the pointer.
  pub enforce_prefix_equal_iff :
      (self other : MptKeyWire)
      → length self.key ≡ 64
      → length other.key ≡ 64
      → self.pointer ≤ 64
      → (enforce_prefix_equal b self other ≡ some tt) ↔ (
          (self.pointer ≡ other.pointer)
          × (take self.pointer self.key ≡ take self.pointer other.key))
  unfolding enforce_prefix_equal
  enforce_prefix_equal_iff self other h k p =
      let prefix =
        enforce_slice_equals_iff b self.key other.key self.pointer (omega arith) (omega arith) p in
      let same = ==_iff self.pointer other.pointer in
      elim (Bool-cases (self.pointer == other.pointer)) [
        | inl e ↦
            rw (b.connect_lem self.pointer other.pointer, e)
              ((λ x. (same.0 e, prefix.0 x)), λ x. prefix.1 x.1)
        | inr e ↦
            rw (b.connect_lem self.pointer other.pointer, e)
              ((λ x. cc), λ x. absurd (differ (sym e ∙ same.1 x.0)))
      ]
    where
      differ : ¬ (false ≡ true)
      differ x = cc
