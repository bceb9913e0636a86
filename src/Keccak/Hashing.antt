-- ===== src/Keccak/Hashing.antt =====
-- `hash_vector` is Keccak-256 of the data that its packing stands for.
use euclid_database.Prelude.{
  ℕ, ◌+◌, ◌-◌, ◌*◌, ◌/◌, ◌%◌, ◌≤◌, ◌<◌, ◌≢◌, ◌≡◌, refl, List, ◌++◌, some, length, take, replicate,
  All-append, All-replicate, length-append, length-replicate, take_front, take_all, ==_iff, arith,
  ap, sym, ◌∙◌,
}
use euclid_database.Plonky2.{Builder, IsField}
use euclid_database.Utils.Pack.{le_words, pack_loop, convert_u8_targets_to_u32}
use euclid_database.Utils.Pack.Laws.{IsByte, AllBytes, pack_loop_lem}
use euclid_database.Utils.Pack.Words.{le_words-append, pack_loop-append}
use euclid_database.Array.{VectorWire}
use euclid_database.Array.Access.{AllField}
use euclid_database.Keccak.{compute_padding_size, hash_vector}
use euclid_database.Keccak.Padding.{pad_bytes, padded_node_lem}
use euclid_database.Keccak.Blocks.{padded_data, blocks_lem, pad_bytes-AllBytes, length-padded_data}
use euclid_database.Keccak.Reference.{KeccakHash}

module _ (b : Builder) where
  -- For wires that pack to the words of some bytes, whole words of them, in an array of whole blocks:
  -- with the `diff` that `assign` gives, the result is the hash of these bytes. The wires need not
  -- be bytes.
  pub hash_vector-packed :
      (h : KeccakHash) (data_ bytes : List ℕ) (m k : ℕ)
      → AllField data_
      → AllBytes bytes
      → length data_ ≡ length bytes
      → length bytes % 4 ≡ 0
      → pack_loop b data_ ≡ le_words bytes
      → length bytes + m ≡ k * 136
      → length bytes / 136 < k
      → k ≤ 256
      → hash_vector b h.hash_keccak256
          (record { arr = data_ ++ replicate m 0; real_len = length bytes })
          (compute_padding_size (length bytes))
        ≡ some (le_words (h.keccak256 bytes))
  unfolding hash_vector convert_u8_targets_to_u32
  hash_vector-packed h data_ bytes m k f g same whole packed size room small =
      let n = length bytes in
      let arr = data_ ++ replicate m 0 in
      let a : VectorWire = record { arr = arr; real_len = n } in
      let pad = pad_bytes n ++ replicate ((k - 1 - n / 136) * 136) 0 in
      let l : length arr ≡ k * 136 =
        length-append data_ (replicate m 0) ∙ omega (arith, length-replicate {A = ℕ} m 0) in
      let short : n % 136 ≢ 135 = λ e. absurd (omega arith) in
      let front : take n arr ≡ data_ = take_front data_ (replicate m 0) n same in
      let node =
        padded_node_lem b a k
          (All-append IsField data_ (replicate m 0) f (All-replicate IsField m 0 (omega arith))) l
          room short (omega arith) in
      let byte_pad : AllBytes pad =
        All-append IsByte (pad_bytes n) (replicate ((k - 1 - n / 136) * 136) 0)
          (pad_bytes-AllBytes n) (All-replicate IsByte ((k - 1 - n / 136) * 136) 0 (omega arith)) in
      let size' : length (data_ ++ pad) % 4 ≡ 0 =
        ap (λ r. length (r ++ pad) % 4) (sym front)
        ∙ omega (arith, length-padded_data arr n k l room short) in
      let words : pack_loop b (data_ ++ pad) ≡ le_words (padded_data bytes n k) =
        pack_loop-append b data_ pad (omega arith)
        ∙ rw (packed, pack_loop_lem b pad byte_pad, take_all bytes n refl)
            (sym (le_words-append bytes pad whole)) in
      rw
        (
          node,
          front,
          (==_iff (length (data_ ++ pad) % 4) 0).1 size',
          words,
          blocks_lem b a k l room small,
          h.hash_keccak256_lem bytes k g room short,
        )
        refl
