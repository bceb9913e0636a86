-- ===== src/Mapping/Proofs/Sound/Sizes.antt =====
-- The sizes of what a proof over a mapping exposes, and its public inputs read.
use euclid_database.Prelude.{
  ℕ, ◌*◌, ◌≡◌, List, [], ◌∷◌, some, length, All, >>=-eq-some, arith, ap, sym, subst, ◌∙◌,
}
use euclid_database.Plonky2.{Builder}
use euclid_database.Utils.Pack.{
  convert_u8_targets_to_u32, convert_u32_fields_to_u8_vec, to_le_bytes, bytes_to_nibbles,
}
use euclid_database.Utils.Pack.Words.{IsU32}
use euclid_database.Array.{VectorWire, assert_bytes}
use euclid_database.Keccak.{hash_vector, hash_to_bytes, padded_node, blocks}
use euclid_database.Keccak.Reference.{KeccakHash}
use euclid_database.Mpt.{MptKeyWire}
use euclid_database.Mpt.Nibbles.{init_from_u32_targets_lem}
use euclid_database.Mpt.Key.{some-elim}
use euclid_database.StorageKey.{mapping_slot_key, keccak_mpt}
use euclid_database.Mapping.{accumulator, mpt_key, root_hash, mapping_slot, entries}
use euclid_database.Mapping.PublicInputs.{register_lem}
use euclid_database.Mapping.Proofs.{Exposed, exposed_pis}

-- A key of 64 nibbles, a hash of eight words and a point of eleven wires.
abbrev pub WellSized : Exposed → Type 0
WellSized x = (length x.key.key ≡ 64) × (length x.root ≡ 8) × (length x.digest ≡ 11)

-- The readers return what is exposed.
pub exposed_pis_lem :
    (x : Exposed) (n : ℕ)
    → WellSized x
    → (accumulator (exposed_pis x n) ≡ x.digest)
      × (mpt_key (exposed_pis x n) ≡ x.key)
      × (mapping_slot (exposed_pis x n) ≡ x.slot)
      × (entries (exposed_pis x n) ≡ n)
      × (root_hash (exposed_pis x n) ≡ x.root)
exposed_pis_lem x n (sk, sr, sd) =
    let (a, k, t, s, m, r) = register_lem x.key x.slot n x.root x.digest sd sk sr in
    let key = mpt_key (exposed_pis x n) in
    let e : ◌≡◌ {A = MptKeyWire} key x.key =
      ap (λ ns. record { key = ns; pointer = key.pointer }) k
      ∙ ap (λ p. record { key = x.key.key; pointer = p }) t in
    (a, e, s, m, r)

length-bytes_to_nibbles : (bytes : List ℕ) → length (bytes_to_nibbles bytes) ≡ 2 * length bytes
unfolding bytes_to_nibbles
length-bytes_to_nibbles [] = omega arith
length-bytes_to_nibbles (x ∷ bytes) = omega (arith, length-bytes_to_nibbles bytes)

length-convert : (ws : List ℕ) → length (convert_u32_fields_to_u8_vec ws) ≡ 4 * length ws
unfolding convert_u32_fields_to_u8_vec to_le_bytes
length-convert [] = omega arith
length-convert (w ∷ ws) = omega (arith, length-convert ws)

module _ (b : Builder) (k : KeccakHash) where
  -- The hash is a value of the gadget.
  hash_vector-words :
      (node : VectorWire) (diff : ℕ) (h : List ℕ)
      → hash_vector b k.hash_keccak256 node diff ≡ some h
      → (length h ≡ 8) × All IsU32 h
  unfolding hash_vector
  hash_vector-words node diff h e =
      let (padded, e1, r1) = >>=-eq-some (padded_node b node diff) _ e in
      let (ws, e2, r2) = >>=-eq-some (convert_u8_targets_to_u32 b padded) _ r1 in
      let (fs, e3, r3) = >>=-eq-some (blocks b node diff) _ r2 in
      let q : k.hash_keccak256 ws fs ≡ h = cc r3 in
      (
        ap length (sym q) ∙ k.length-hash_keccak256 ws fs,
        subst (All IsU32) q (k.hash_keccak256-IsU32 ws fs),
      )

  pub hash_vector-length :
      (node : VectorWire) (diff : ℕ) (h : List ℕ)
      → hash_vector b k.hash_keccak256 node diff ≡ some h
      → length h ≡ 8
  hash_vector-length node diff h e = (hash_vector-words node diff h e).0

  -- A storage key has 64 nibbles.
  pub mapping_slot_key-length :
      (mapping_key : List ℕ) (slot diff : ℕ) (location_bytes : List ℕ) (key_diff : ℕ)
      (key : MptKeyWire)
      → mapping_slot_key b k.hash_keccak256 mapping_key slot diff location_bytes key_diff ≡ some key
      → length key.key ≡ 64
  unfolding mapping_slot_key keccak_mpt
  mapping_slot_key-length mapping_key slot diff location_bytes key_diff key e =
      let hk = k.hash_keccak256 in
      let (u, e0, r0) = >>=-eq-some (assert_bytes b mapping_key) _ e in
      let (place, e1, r1) = >>=-eq-some (hash_to_bytes b hk _ diff location_bytes) _ r0 in
      let (ws, e2, r2) = >>=-eq-some (hash_vector b hk _ key_diff) _ r1 in
      let (l, w) = hash_vector-words _ key_diff ws e2 in
      let nibbles = bytes_to_nibbles (convert_u32_fields_to_u8_vec ws) in
      let q : nibbles ≡ key.key =
        some-elim (λ (m : MptKeyWire). m.key) nibbles
          (sym (init_from_u32_targets_lem b ws w) ∙ r2) in
      ap length (sym q)
      ∙ omega
          (arith, length-bytes_to_nibbles (convert_u32_fields_to_u8_vec ws), length-convert ws, l)
