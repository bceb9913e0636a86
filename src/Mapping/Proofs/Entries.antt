-- ===== src/Mapping/Proofs/Entries.antt =====
-- The entries behind any proof over a mapping.
use euclid_database.Prelude.{
  ℕ, ◌+◌, ◌%◌, ◌≤◌, ◌<◌, ◌≡◌, refl, List, [], ◌∷◌, ◌++◌, some, length, >>=-eq-some, arith, ap, sym,
  ◌∙◌,
}
use euclid_database.Plonky2.{Builder, order}
use euclid_database.GroupHashing.{Group}
use euclid_database.Array.{VectorWire, assert_bytes}
use euclid_database.Rlp.{RlpList, decode_fixed_list, max_items_in_list}
use euclid_database.Keccak.{hash_vector}
use euclid_database.Keccak.Reference.{KeccakHash}
use euclid_database.Mpt.{MptKeyWire, advance_by}
use euclid_database.Mpt.Key.{some-elim}
use euclid_database.Mapping.{Curve, branch_circuit, children_loop}
use euclid_database.Mapping.Proofs.{
  Proof, Proofs, leaf, extension, branch, nil, cons, number, IsSized, AllSized, Exposed,
  exposed_pis, prove_mapping, prove_children, Holds, HoldsAll,
}
use euclid_database.Mapping.Proofs.Sound.{Shows, Adds, leaf_lem, extension_lem, child_lem}
use euclid_database.Mapping.Proofs.Sound.Sizes.{hash_vector-length}

module _ (b : Builder) (k : KeccakHash) (g : Group) (curve : Curve) where
  branch_lem :
      (node : VectorWire) (diff : ℕ) (common_prefix : MptKeyWire) (slot nb : ℕ) (ps : Proofs)
      (inputs : List (List ℕ)) (pis : List ℕ)
      → length common_prefix.key ≡ 64
      → ((headers : RlpList) (acc : List ℕ) (n : ℕ)
          → children_loop b k.hash_keccak256 curve node.arr headers common_prefix slot nb 0 inputs
              curve.curve_zero 0 []
            ≡ some (acc, n)
          → Adds b k g curve node.arr headers common_prefix slot nb ps 0 [] curve.curve_zero 0 acc
              n)
      → branch_circuit b k.hash_keccak256 curve node diff common_prefix slot nb inputs ≡ some pis
      → Shows b k g curve (branch node diff common_prefix slot nb ps) pis
  unfolding branch_circuit Holds advance_by
  branch_lem node diff common_prefix slot nb ps inputs pis size children e =
      let hk = k.hash_keccak256 in
      let (u, e0, r0) = >>=-eq-some (assert_bytes b node.arr) _ e in
      let (root, e1, r1) = >>=-eq-some (hash_vector b hk node diff) _ r0 in
      let (hs, e2, r2) = >>=-eq-some (decode_fixed_list b max_items_in_list node.arr 0) _ r1 in
      let ((acc, n), e3, r3) =
        >>=-eq-some
          (children_loop b hk curve node.arr hs common_prefix slot nb 0 inputs curve.curve_zero 0
            [])
          _ r2 in
      let (es, held, count, point) = children hs acc n e3 in
      let x : Exposed = record {
        key = advance_by b common_prefix 1;
        slot = slot;
        root = root;
        digest = acc;
      } in
      (
        es,
        x,
        (hs, e1, e2, refl, refl, held),
        sym (some-elim (λ r. r) pis r3)
            ∙ ap (λ m. exposed_pis x m) (count ∙ ap (λ m. m % order) (omega arith)),
        (size, hash_vector-length b k node diff root e1, point),
      )

  mutual
    unfolding prove_mapping IsSized HoldsAll children_loop

    proof_lem :
        (p : Proof) (pis : List ℕ)
        → IsSized p
        → prove_mapping b k.hash_keccak256 g curve p ≡ some pis
        → Shows b k g curve p pis
    proof_lem (leaf wires) pis z e = leaf_lem b k g curve wires pis z e
    proof_lem (extension node diff p) pis (sized, z) e =
        let (child, e1, r1) = >>=-eq-some (prove_mapping b k.hash_keccak256 g curve p) _ e in
        extension_lem b k g curve node diff p child pis sized (proof_lem p child z e1) r1
    proof_lem (branch node diff common_prefix slot nb ps) pis (size, few, children, z) e =
        let (inputs, e1, r1) = >>=-eq-some (prove_children b k.hash_keccak256 g curve ps) _ e in
        branch_lem node diff common_prefix slot nb ps inputs pis size
          (λ headers acc n l.
            children_lem ps inputs node.arr headers common_prefix slot nb 0 [] curve.curve_zero 0
              acc n z few (omega arith) (omega arith) curve.length-curve_zero e1 l)
          r1

    children_lem :
        (ps : Proofs) (inputs : List (List ℕ)) (node : List ℕ) (headers : RlpList)
        (common_prefix : MptKeyWire) (slot nb i : ℕ) (seen acc : List ℕ) (n : ℕ) (acc' : List ℕ)
        (n' : ℕ)
        → AllSized ps
        → nb ≤ 16
        → i + number ps ≤ 16
        → n < order
        → length acc ≡ 11
        → prove_children b k.hash_keccak256 g curve ps ≡ some inputs
        → children_loop b k.hash_keccak256 curve node headers common_prefix slot nb i inputs acc n
            seen
          ≡ some (acc', n')
        → Adds b k g curve node headers common_prefix slot nb ps i seen acc n acc' n'
    children_lem nil inputs node headers common_prefix slot nb i seen acc n acc' n' z few fits f
          size e1 e2 =
        let hk = k.hash_keccak256 in
        let none_left : [] ≡ inputs = some-elim (λ r. r) inputs e1 in
        let r =
          ap (λ z. children_loop b hk curve node headers common_prefix slot nb i z acc n seen)
            none_left
          ∙ e2 in
        let point : acc ≡ acc' = some-elim (λ (o : List ℕ × ℕ). o.0) acc' r in
        let count : n ≡ n' = some-elim (λ (o : List ℕ × ℕ). o.1) n' r in
        ([], (refl, sym point), omega (arith, count), ap length (sym point) ∙ size)
    children_lem (cons p ps) inputs node headers common_prefix slot nb i seen acc n acc' n' z few
          fits f size e1 e2 =
        let hk = k.hash_keccak256 in
        let (pis, q1, r1) = >>=-eq-some (prove_mapping b hk g curve p) _ e1 in
        let (rest, q2, r2) = >>=-eq-some (prove_children b hk g curve ps) _ r1 in
        let same : pis ∷ rest ≡ inputs = some-elim (λ r. r) inputs r2 in
        child_lem b k g curve node headers common_prefix slot nb p ps pis rest i seen acc n acc' n'
          few (omega arith) f size (proof_lem p pis z.0 q1)
          (λ nibble acc1 n1 f1 size1 l.
            children_lem ps rest node headers common_prefix slot nb (i + 1) (seen ++ (nibble ∷ []))
              acc1 n1 acc' n' z.1 few (omega arith) f1 size1 q2 l)
          (ap (λ z. children_loop b hk curve node headers common_prefix slot nb i z acc n seen) same
            ∙ e2)
