-- ===== src/StorageKey/Derivation.antt =====
-- The key derived in the circuit is the one derived from the slot.
use euclid_database.Prelude.{
  ℕ, ◌-◌, ◌%◌, ◌≤◌, ◌<◌, ◌≡◌, ◌↔◌, refl, false, List, [], ◌∷◌, ◌++◌, Circuit, ◌>>=◌, some, none,
  ltb, ◌==◌, ==_iff, length, replicate, All-append, All-replicate, length-append, length-replicate,
  Bool-cases, inl, inr, arith, ap, sym, subst, ◌∙◌,
}
use mathlib.Core.List.{append_assoc}
use euclid_database.Plonky2.{Builder}
use euclid_database.Plonky2.Laws.{connect_same}
use euclid_database.Utils.Pack.{le_words, pack_loop, convert_u8_targets_to_u32, bytes_to_nibbles}
use euclid_database.Utils.Pack.Laws.{IsByte, AllBytes, pack_loop_lem}
use euclid_database.Utils.Pack.Words.{length-le_words, length-pack_loop}
use euclid_database.Array.{equals}
use euclid_database.Array.Access.{AllField, AllBytes-AllField}
use euclid_database.Array.Bytes.{assert_bytes_iff}
use euclid_database.Array.Reads.{equals_iff}
use euclid_database.Keccak.{
  compute_size_with_padding, compute_padding_size, hash_vector, hash_to_bytes,
}
use euclid_database.Keccak.Padding.{compute_size_with_padding_lem}
use euclid_database.Keccak.Reference.{KeccakHash}
use euclid_database.Keccak.Hashing.{hash_vector-packed}
use euclid_database.Mpt.{MptKeyWire, init_from_u32_targets}
use euclid_database.Mpt.Nibbles.{init_from_u32_targets-le_words}
use euclid_database.StorageKey.{
  keccak_mpt, simple_slot, mapping_slot_key, left_pad, simple, mapping, H256, location, mpt_key_vec,
  mpt_nibbles,
}

-- A key at its last nibble.
abbrev pub key_at_end : List ℕ → MptKeyWire
key_at_end nibbles = record { key = nibbles; pointer = 63 }

pub left_pad-AllBytes :
    (n : ℕ) (slice : List ℕ) {padded : List ℕ}
    → left_pad n slice ≡ some padded
    → AllBytes slice
    → AllBytes padded × (length padded ≡ n)
unfolding left_pad
left_pad-AllBytes n slice {padded} e h =
    let l = length slice in
    elim (Bool-cases (ltb n l)) [
      | inl long ↦ absurd (none_some (rw long at e))
      | inr fits ↦ elim (Bool-cases (l == n)) [
        | inl full ↦
            let s : slice ≡ padded = cc (rw (fits, full) at e) in
            (subst AllBytes s h, ap length (sym s) ∙ (==_iff l n).0 full)
        | inr short ↦
            let s : replicate (n - l) 0 ++ slice ≡ padded = cc (rw (fits, short) at e) in
            (
              subst AllBytes s (
                  All-append IsByte (replicate (n - l) 0) slice
                    (All-replicate IsByte (n - l) 0 (omega arith)) h),
              ap length (sym s)
                  ∙ length-append (replicate (n - l) 0) slice
                  ∙ omega (arith, length-replicate {A = ℕ} (n - l) 0, le_of_fits l fits),
            )
      ]
    ]
  where
    none_some : ¬ (◌≡◌ {A = Circuit (List ℕ)} none (some padded))
    none_some e = cc

    le_of_fits : (l : ℕ) → ltb n l ≡ false → l ≤ n
    le_of_fits l h = ground arith

left_pad-byte : (slot : ℕ) → left_pad 32 (slot ∷ []) ≡ some (replicate 31 0 ++ (slot ∷ []))
unfolding left_pad
left_pad-byte slot = refl

module _ (b : Builder) (h256 : H256) (k : KeccakHash) where
  pub simple_slot_lem :
      (slot : ℕ)
      → slot < 256
      → simple_slot b k.hash_keccak256 slot (compute_padding_size 32)
        ≡ (mpt_nibbles h256 k.keccak256 (simple slot) >>= λ nibbles. some (key_at_end nibbles))
  unfolding simple_slot mpt_nibbles mpt_key_vec location
  simple_slot_lem slot h =
      let bytes = replicate 31 0 ++ (slot ∷ []) in
      let f : AllBytes bytes = omega (arith, h) in
      let hash =
        hash_vector-packed b k bytes bytes 104 1 (AllBytes-AllField bytes f) f refl refl
          (pack_loop_lem b bytes f) refl (omega arith) (omega arith) in
      let key =
        init_from_u32_targets-le_words b (k.keccak256 bytes) (k.keccak256-AllBytes bytes)
          (omega (arith, k.length-keccak256 bytes)) in
      rw (compute_size_with_padding_lem 64, h256.from_low_u64_be_byte slot h, hash, key) refl

  -- The hash of a location whose packing is given, whatever its wires are.
  location_key :
      (wires place : List ℕ)
      → AllField wires
      → AllBytes place
      → length wires ≡ 32
      → length place ≡ 32
      → pack_loop b wires ≡ le_words place
      → (hash_vector b k.hash_keccak256
            (record {
              arr = wires ++ replicate (compute_size_with_padding 32 - 32) 0;
              real_len = 32;
            })
            (compute_padding_size 32)
          >>= λ words. init_from_u32_targets b words)
        ≡ some (key_at_end (bytes_to_nibbles (k.keccak256 place)))
  location_key wires place f g l m packed =
      let hash : hash_vector b k.hash_keccak256
            (record { arr = wires ++ replicate 104 0; real_len = 32 }) (compute_padding_size 32)
          ≡ some (le_words (k.keccak256 place)) =
        subst
          (λ n.
            hash_vector b k.hash_keccak256 (record { arr = wires ++ replicate 104 0; real_len = n })
              (compute_padding_size n)
            ≡ some (le_words (k.keccak256 place)))
          m
          (hash_vector-packed b k wires place 104 1 f g (l ∙ sym m) (omega (arith, m)) packed
            (omega (arith, m)) (omega (arith, m)) (omega arith)) in
      let key =
        init_from_u32_targets-le_words b (k.keccak256 place) (k.keccak256-AllBytes place)
          (omega (arith, k.length-keccak256 place)) in
      rw (compute_size_with_padding_lem 32, hash) key

  module _ (mapping_key padded wires : List ℕ) (slot : ℕ) (mpt_key : MptKeyWire)
      (fits : left_pad 32 mapping_key ≡ some padded) (bytes : AllBytes mapping_key)
      (small : slot < 256) (fields : AllField wires) (size : length wires ≡ 32) where
    abbrev place : List ℕ
    place = k.keccak256 (padded ++ (replicate 31 0 ++ (slot ∷ [])))

    first_hash :
        hash_vector b k.hash_keccak256
          (record {
            arr =
                padded
                ++ (replicate 31 0 ++ (slot ∷ replicate (compute_size_with_padding 64 - 64) 0));
            real_len = 64;
          })
          (compute_padding_size 64)
        ≡ some (le_words place)
    first_hash =
        let input = padded ++ (replicate 31 0 ++ (slot ∷ [])) in
        let (w, l) = left_pad-AllBytes 32 mapping_key fits bytes in
        let f : AllBytes input =
          All-append IsByte padded (replicate 31 0 ++ (slot ∷ [])) w (omega (arith, small)) in
        let m : length input ≡ 64 =
          length-append padded (replicate 31 0 ++ (slot ∷ [])) ∙ omega (arith, l) in
        rw
          (
            compute_size_with_padding_lem 64,
            ← append_assoc padded (replicate 31 0 ++ (slot ∷ [])) (replicate 72 0),
          )
          (subst
            (λ n.
              hash_vector b k.hash_keccak256
                (record { arr = input ++ replicate 72 0; real_len = n }) (compute_padding_size n)
              ≡ some (le_words place))
            m
            (hash_vector-packed b k input input 72 1 (AllBytes-AllField input f) f refl
              (omega (arith, m)) (pack_loop_lem b input f) (omega (arith, m)) (omega (arith, m))
              (omega arith)))

    -- For a mapping key of at most 32 bytes, padded on the left, and a slot of one byte: with the
    -- wires that `assign` gives the Keccak gadgets, and any 32 field elements for the bytes of the location,
    -- the circuit is satisfied exactly if these pack to the words of the location of the slot, and
    -- its key is that of the slot, in nibbles, with the pointer at the last one.
    pub mapping_slot_key_iff :
        (mapping_slot_key b k.hash_keccak256 padded slot
            (compute_padding_size 64)
            wires
            (compute_padding_size 32)
          ≡ some mpt_key)
        ↔ (convert_u8_targets_to_u32 b wires ≡ (
            location h256 k.keccak256 (mapping mapping_key slot) >>= λ bytes.
            some (le_words bytes)))
          × (mpt_nibbles h256 k.keccak256 (mapping mapping_key slot) ≡ some mpt_key.key)
          × (mpt_key.pointer ≡ 63)
    unfolding mapping_slot_key keccak_mpt hash_to_bytes convert_u8_targets_to_u32 mpt_nibbles
        mpt_key_vec location
    mapping_slot_key_iff =
        let (w, l) = left_pad-AllBytes 32 mapping_key fits bytes in
        let byte : slot % 256 ≡ slot = omega (arith, small) in
        let whole : length wires % 4 ≡ 0 = omega (arith, size) in
        let sizes : length (pack_loop b wires) ≡ length (le_words place) =
          length-pack_loop b wires
          ∙ omega (
            arith,
            length-le_words place,
            k.length-keccak256 (padded ++ (replicate 31 0 ++ (slot ∷ []))),
          ) in
        let same = equals_iff b (pack_loop b wires) (le_words place) sizes in
        rw
          (
            (assert_bytes_iff b padded (AllBytes-AllField padded w)).1 w,
            first_hash,
            (==_iff (length wires % 4) 0).1 whole,
            fits,
            byte,
            left_pad-byte slot,
          )
          (elim (Bool-cases (equals b (pack_loop b wires) (le_words place))) [
            | inl p ↦
                let packed = same.0 p in
                let key =
                  location_key wires place fields (k.keccak256-AllBytes _) size
                    (k.length-keccak256 _) packed in
                rw (p, connect_same b 1 1 refl, key)
                  (
                    (λ e.
                        let q : key_at_end (bytes_to_nibbles (k.keccak256 place)) ≡ mpt_key =
                          cc e in
                        (
                          ap some packed,
                          ap (λ (m : MptKeyWire). some m.key) q,
                          sym (ap (λ (m : MptKeyWire). m.pointer) q),
                        )),
                    λ (e1, e2, e3).
                        let q : bytes_to_nibbles (k.keccak256 place) ≡ mpt_key.key = cc e2 in
                        ap (λ n. some (key_at_end n)) q
                        ∙ ap (λ n. some (record { key = mpt_key.key; pointer = n })) (sym e3),
                  )
            | inr p ↦
                rw (p, b.connect_lem 1 0)
                  (
                    (λ e. cc),
                    λ (e1, e2, e3).
                        let packed : pack_loop b wires ≡ le_words place = cc e1 in
                        cc (p, same.1 packed),
                  )
          ])
