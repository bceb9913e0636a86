-- ===== src/Mapping/PublicInputs.antt =====
-- The layout of the public inputs: every reader returns what was registered.
use euclid_database.Prelude.{
  ℕ, ◌≡◌, List, ◌∷◌, ◌++◌, length, take, arith, ap, ◌∙◌, sym, take-length, take_front, drop_behind,
  get_behind,
}
use euclid_database.Mpt.{MptKeyWire}
use euclid_database.Mapping.{register, accumulator, mpt_key, root_hash, mapping_slot, entries}

-- For a point of eleven wires, a key of 64 nibbles and a hash of eight words, the readers of the public
-- inputs return the point, the key with its pointer, the slot, the count and the hash registered.
pub register_lem :
    (key : MptKeyWire) (slot n : ℕ) (c d : List ℕ)
    → length d ≡ 11
    → length key.key ≡ 64
    → length c ≡ 8
    → let pis = register key slot n c d in
      (accumulator pis ≡ d)
      × ((mpt_key pis).key ≡ key.key)
      × ((mpt_key pis).pointer ≡ key.pointer)
      × (mapping_slot pis ≡ slot)
      × (entries pis ≡ n)
      × (root_hash pis ≡ c)
unfolding register accumulator mpt_key root_hash mapping_slot entries
register_lem key slot n c d hd hk hc =
    let tail_ = key.pointer ∷ slot ∷ n ∷ c in
    let ks = key.key in
    (
      take_front d (ks ++ tail_) 11 hd,
      ap (λ r. take 64 r) (drop_behind d (ks ++ tail_) 11 0 (omega arith))
          ∙ take_front ks tail_ 64 hk,
      get_behind d (ks ++ tail_) 75 64 0 (omega arith) ∙ get_behind ks tail_ 64 0 0 (omega arith),
      get_behind d (ks ++ tail_) 76 65 0 (omega arith) ∙ get_behind ks tail_ 65 1 0 (omega arith),
      get_behind d (ks ++ tail_) 77 66 0 (omega arith) ∙ get_behind ks tail_ 66 2 0 (omega arith),
      ap (λ r. take 8 r)
            (drop_behind d (ks ++ tail_) 78 67 (omega arith)
              ∙ drop_behind ks tail_ 67 3 (omega arith))
          ∙ ap (λ m. take m c) (sym hc)
          ∙ take-length c,
    )
