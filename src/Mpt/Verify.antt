-- ===== src/Mpt/Verify.antt =====
-- What a proof that `verify_mpt_proof` accepts consists of: a chain of nodes from the leaf to the root.
use euclid_database.Prelude.{
  ℕ, ◌-◌, ◌≡◌, ◌↔◌, refl, Bool, true, false, List, [], ◌∷◌, some, none, length, bit, ap, ◌∙◌, sym,
  >>=-eq-some, subst, Bool-cases, inl, inr,
}
use euclid_database.Plonky2.{Builder, order}
use euclid_database.Utils.Pack.{convert_u8_targets_to_u32}
use euclid_database.Array.{VectorWire, select, equals}
use euclid_database.Rlp.{RlpList, decode_fixed_list}
use euclid_database.Keccak.{hash_vector, padded_node, blocks}
use euclid_database.Plonky2.Laws.{connect_eq}
use euclid_database.Mpt.Selects.{
  connect_true', select_left, select_right, select_key-true, select_key-false, length-select,
  holds_in_parent,
}
use euclid_database.Mpt.Key.{advance_key_lem, some-elim}
use euclid_database.Mpt.{
  MptKeyWire, Level, InputWires, advance_key, select_key, advance_key_leaf_or_extension,
  verify_loop, verify_mpt_proof, nb_items_leaf, max_leaf_value_len,
}

abbrev pub IsHash : List ℕ → Type 0
IsHash h = length h ≡ 8

module _ (b : Builder) (keccak : List ℕ → List Bool → List ℕ) where
  -- The levels lead from a child's hash and the key there to a root's hash and the key at the root. A
  -- level that is to be processed holds the child's hash where `advance_key` reads it; the others change nothing,
  -- and their gadgets are satisfied.
  pub data Chain : List Level → List ℕ → MptKeyWire → List ℕ → MptKeyWire → Type 0 where
    done : (last : List ℕ) (key : MptKeyWire) → Chain [] last key last key
    parent :
        (level : Level) (levels : List Level) (last child words hash root : List ℕ)
        (key key' final : MptKeyWire)
        → level.is_real ≡ true
        → advance_key b level.node.arr key ≡ some (key', child, true)
        → convert_u8_targets_to_u32 b child ≡ some words
        → equals b last words ≡ true
        → hash_vector b keccak level.node level.diff ≡ some hash
        → Chain levels hash key' root final
        → Chain (level ∷ levels) last key root final
    padding :
        (level : Level) (levels : List Level) (last child words hash root : List ℕ)
        (key key' final : MptKeyWire) (valid : Bool)
        → level.is_real ≡ false
        → advance_key b level.node.arr key ≡ some (key', child, valid)
        → convert_u8_targets_to_u32 b child ≡ some words
        → hash_vector b keccak level.node level.diff ≡ some hash
        → Chain levels last key root final
        → Chain (level ∷ levels) last key root final

  module _ (length-keccak : (ws : List ℕ) (fs : List Bool) → IsHash (keccak ws fs)) where
    pub hash_vector-IsHash :
        (node : VectorWire) (diff : ℕ) (h : List ℕ)
        → hash_vector b keccak node diff ≡ some h
        → IsHash h
    unfolding hash_vector
    hash_vector-IsHash node diff h e =
        let (padded, e1, r1) = >>=-eq-some (padded_node b node diff) _ e in
        let (ws, e2, r2) = >>=-eq-some (convert_u8_targets_to_u32 b padded) _ r1 in
        let (fs, e3, r3) = >>=-eq-some (blocks b node diff) _ r2 in
        sym (ap (λ o. elim o [ none ↦ 8 | some x ↦ length x ]) r3) ∙ length-keccak ws fs

    chain_step :
        (level : Level) (levels : List Level) (last child words hash root : List ℕ)
        (key key' final : MptKeyWire) (valid : Bool) {u : Unit {0}}
        → IsHash last
        → advance_key b level.node.arr key ≡ some (key', child, valid)
        → convert_u8_targets_to_u32 b child ≡ some words
        → b.connect
            (b.select level.is_real (bit (b.and_bool valid (equals b last words))) (bit true))
            (bit true)
          ≡ some u
        → hash_vector b keccak level.node level.diff ≡ some hash
        → Chain levels
            (select b level.is_real hash last)
            (select_key b key' level.is_real key)
            root
            final
        → Chain (level ∷ levels) last key root final
    chain_step level levels last child words hash root key key' final valid h e1 e2 e3 e4 rest =
        elim (Bool-cases level.is_real) [
          | inl r ↦
              let v = holds_in_parent b level.is_real valid (equals b last words) e3 r in
              parent level levels last child words hash root key key' final r
                (e1 ∙ ap (λ c. some (key', child, c)) v.0) e2 v.1 e4
                (rw (r, select_left b hash last, select_key-true b key' key) at rest)
          | inr r ↦
              let l : length hash ≡ length last =
                hash_vector-IsHash level.node level.diff hash e4 ∙ sym h in
              let k = advance_key_lem b level.node.arr key key' child valid e1 in
              padding level levels last child words hash root key key' final valid r e1 e2 e4
                (rw (r, select_right b hash last l, select_key-false b key' key k) at rest)
        ]

    Chain-IsHash :
        (levels : List Level) (last root : List ℕ) (key final : MptKeyWire)
        → Chain levels last key root final
        → IsHash last
        → IsHash root
    Chain-IsHash _ last _ key _ (done _ _) h = h
    Chain-IsHash _ last root key final
          (parent level levels _ child words hash _ _ key' _ r e1 e2 found e4 rest) h =
        Chain-IsHash levels hash root key' final rest
          (hash_vector-IsHash level.node level.diff hash e4)
    Chain-IsHash _ last root key final
          (padding level levels _ child words hash _ _ key' _ valid r e1 e2 e4 rest) h =
        Chain-IsHash levels last root key final rest h

    verify_loop-Chain :
        (levels : List Level) (last root : List ℕ) (key final : MptKeyWire)
        → IsHash last
        → verify_loop b keccak levels last key ≡ some (root, final)
        → Chain levels last key root final
    unfolding verify_loop
    verify_loop-Chain [] last root key final h e =
        subst (λ (o : List ℕ × MptKeyWire). Chain [] last key o.0 o.1)
          (ap (λ o. elim o [ none ↦ (last, key) | some x ↦ x ]) e) (done last key)
    verify_loop-Chain (level ∷ levels) last root key final h e =
        let ((key', child, valid), e1, r1) = >>=-eq-some (advance_key b level.node.arr key) _ e in
        let (words, e2, r2) = >>=-eq-some (convert_u8_targets_to_u32 b child) _ r1 in
        let (u, e3, r3) = >>=-eq-some (b.connect _ _) _ r2 in
        let (hash, e4, r4) = >>=-eq-some (hash_vector b keccak level.node level.diff) _ r3 in
        let l : IsHash (select b level.is_real hash last) =
          length-select b level.is_real hash last
          ∙ hash_vector-IsHash level.node level.diff hash e4 in
        chain_step level levels last child words hash root key key' final valid h e1 e2 e3 e4 (
          verify_loop-Chain levels (select b level.is_real hash last) root
            (select_key b key' level.is_real key) final l r4)

    connect_holds : b.connect 1 1 ≡ some tt
    connect_holds = b.connect_lem 1 1

    Chain-verify_loop :
        (levels : List Level) (last root : List ℕ) (key final : MptKeyWire)
        → IsHash last
        → Chain levels last key root final
        → verify_loop b keccak levels last key ≡ some (root, final)
    unfolding verify_loop
    Chain-verify_loop _ last _ key _ h (done _ _) = refl
    Chain-verify_loop _ last root key final h
          (parent level levels _ child words hash _ _ key' _ r e1 e2 found e4 rest) =
        let l = hash_vector-IsHash level.node level.diff hash e4 in
        rw
          (
            e1,
            e2,
            r,
            found,
            b.and_bool_lem true true,
            b.select_lem true 1 1,
            connect_holds,
            e4,
            select_left b hash last,
            select_key-true b key' key,
          )
          (Chain-verify_loop levels hash root key' final l rest)
    Chain-verify_loop _ last root key final h
          (padding level levels _ child words hash _ _ key' _ valid r e1 e2 e4 rest) =
        let l = hash_vector-IsHash level.node level.diff hash e4 ∙ sym h in
        let k = advance_key_lem b level.node.arr key key' child valid e1 in
        let c = b.and_bool valid (equals b last words) in
        rw
          (
            e1,
            e2,
            r,
            b.select_lem false (bit c) 1,
            connect_holds,
            e4,
            select_right b hash last l,
            select_key-false b key' key k,
          )
          (Chain-verify_loop levels last root key final h rest)

    -- An accepted proof: the leaf's headers, its value and the key before it, a chain from the leaf's
    -- hash to the root, and a key that is used up.
    abbrev pub Accepted : InputWires → List ℕ → List ℕ → Type 0
    Accepted inputs value root =
        (leaf_hash : List ℕ) × (headers : RlpList) × (key : MptKeyWire) × (final : MptKeyWire)
        × (hash_vector b keccak inputs.leaf inputs.leaf_diff ≡ some leaf_hash)
        × (decode_fixed_list b nb_items_leaf inputs.leaf.arr 0 ≡ some headers)
        × (advance_key_leaf_or_extension b max_leaf_value_len inputs.leaf.arr inputs.key_wire
              headers
            ≡ some (key, value, true))
        × Chain inputs.levels leaf_hash key root final
        × (final.pointer ≡ order - 1)

    -- For a hash of eight words: `verify_mpt_proof` returns a value and a root exactly if its gadgets
    -- accept the leaf, and the levels that are to be processed form a chain from the leaf to the root,
    -- each of which holds its child's hash where `advance_key` reads it, with the key's pointer at -1
    -- at the end.
    pub verify_mpt_proof_iff :
        (inputs : InputWires) (value root : List ℕ)
        → (verify_mpt_proof b keccak inputs ≡ some (value, root)) ↔ Accepted inputs value root
    unfolding verify_mpt_proof
    verify_mpt_proof_iff inputs value root = (sound, complete)
      where
        sound : verify_mpt_proof b keccak inputs ≡ some (value, root) → Accepted inputs value root
        sound e =
            let (leaf_hash, e1, r1) =
              >>=-eq-some (hash_vector b keccak inputs.leaf inputs.leaf_diff) _ e in
            let (headers, e2, r2) =
              >>=-eq-some (decode_fixed_list b nb_items_leaf inputs.leaf.arr 0) _ r1 in
            let ((key, v, is_leaf), e3, r3) =
              >>=-eq-some
                (advance_key_leaf_or_extension b max_leaf_value_len inputs.leaf.arr inputs.key_wire
                  headers)
                _ r2 in
            let (u, e4, r4) = >>=-eq-some (b.connect 1 (bit is_leaf)) _ r3 in
            let ((root', final), e5, r5) =
              >>=-eq-some (verify_loop b keccak inputs.levels leaf_hash key) _ r4 in
            let (u', e6, r6) = >>=-eq-some (b.connect final.pointer (order - 1)) _ r5 in
            let l = hash_vector-IsHash inputs.leaf inputs.leaf_diff leaf_hash e1 in
            let chain = verify_loop-Chain inputs.levels leaf_hash root' key final l e5 in
            let same : (v ≡ value) × (root' ≡ root) = (
              some-elim (λ (o : List ℕ × List ℕ). o.0) value r6,
              some-elim (λ (o : List ℕ × List ℕ). o.1) root r6,
            ) in
            (
              leaf_hash,
              headers,
              key,
              final,
              e1,
              e2,
              e3
                  ∙ ap (λ w. some (key, w, is_leaf)) same.0
                  ∙ ap (λ c. some (key, value, c)) (connect_true' b is_leaf e4),
              subst (λ r. Chain inputs.levels leaf_hash key r final) same.1 chain,
              connect_eq b final.pointer (order - 1) e6,
            )

        complete :
            Accepted inputs value root → verify_mpt_proof b keccak inputs ≡ some (value, root)
        complete (leaf_hash, headers, key, final, e1, e2, e3, chain, p) =
            let l = hash_vector-IsHash inputs.leaf inputs.leaf_diff leaf_hash e1 in
            rw
              (
                e1,
                e2,
                e3,
                connect_holds,
                Chain-verify_loop inputs.levels leaf_hash root key final l chain,
                p,
                b.connect_lem (order - 1) (order - 1),
              )
              refl

    pub verify_mpt_proof-IsHash :
        (inputs : InputWires) (value root : List ℕ)
        → verify_mpt_proof b keccak inputs ≡ some (value, root)
        → IsHash root
    verify_mpt_proof-IsHash inputs value root e =
        let (leaf_hash, headers, key, final, e1, e2, e3, chain, e4) =
          (verify_mpt_proof_iff inputs value root).0 e in
        Chain-IsHash inputs.levels leaf_hash root key final chain
          (hash_vector-IsHash inputs.leaf inputs.leaf_diff leaf_hash e1)
