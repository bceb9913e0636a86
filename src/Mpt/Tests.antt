-- ===== src/Mpt/Tests.antt =====
-- A proof of the value 255 at the key of 64 zero nibbles, with a branch above the leaf and a level of
-- padding, and keys that differ.
use euclid_database.Prelude.{
  ℕ, ◌≡◌, ◌↔◌, refl, Bool, true, false, List, [], ◌∷◌, ◌++◌, some, arith, replicate, take,
}
use euclid_database.Plonky2.Reference.{goldilocks}
use euclid_database.Mpt.{MptKeyWire, InputWires, is_prefix_equal, enforce_prefix_equal}
use euclid_database.Mpt.Key.{is_prefix_equal-pointers, enforce_prefix_equal_iff}
use euclid_database.Mpt.Traced.{Traced}

abbrev zero_hash : List ℕ → List Bool → List ℕ
zero_hash ws flags = replicate 8 0

abbrev zero_key : MptKeyWire
zero_key = record { key = replicate 64 0; pointer = 63 }

-- The leaf holds the nibbles behind the first one, and the branch its hash at nibble 0.
abbrev branch_node : List ℕ
branch_node = 0xf1 ∷ 0xa0 ∷ (replicate 32 0 ++ (replicate 16 0x80 ++ replicate 86 0))

abbrev two_nodes : InputWires
two_nodes = record {
  key_wire = zero_key;
  leaf = record {
    arr = 0xe4 ∷ 0xa0 ∷ 0x30 ∷ (replicate 31 0 ++ (0x82 ∷ 0x81 ∷ 0xff ∷ replicate 99 0));
    real_len = 37;
  };
  leaf_diff = 99;
  levels =
      record { node = record { arr = branch_node; real_len = 50 }; diff = 86; is_real = true }
      ∷ record { node = record { arr = branch_node; real_len = 50 }; diff = 86; is_real = false }
      ∷ [];
}

abbrev one_key : MptKeyWire
one_key = record { key = replicate 64 1; pointer = 63 }

is_prefix_equal-pointers_example : is_prefix_equal goldilocks zero_key one_key ≡ some true
is_prefix_equal-pointers_example =
    is_prefix_equal-pointers goldilocks zero_key one_key refl refl (omega arith)

enforce_prefix_equal_iff_example :
    (enforce_prefix_equal goldilocks zero_key one_key ≡ some tt)
    ↔ ((zero_key.pointer ≡ one_key.pointer) × (take 63 zero_key.key ≡ take 63 one_key.key))
enforce_prefix_equal_iff_example =
    enforce_prefix_equal_iff goldilocks zero_key one_key refl refl (omega arith)
