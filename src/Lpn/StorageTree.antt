-- ===== src/Lpn/StorageTree.antt =====
-- The proof of a whole storage tree exposes the tree's Merkle root and the sum of its leaves' points.
use euclid_database.Prelude.{
  ℕ, ◌+◌, ◌≡◌, List, ◌++◌, take, drop, length, arith, ap, ◌∙◌, sym, take-append, drop-append_right,
  take-length, All-append, create_from, create_from_ext, create_from-get_or, create_from-append,
  create_from_shift, get_or, ltb, lt→ltb, ◌-◌, Bool, true, false, if◌then◌else◌, refl,
}
use euclid_database.Plonky2.{Builder}
use euclid_database.Plonky2.Poseidon.{Poseidon}
use euclid_database.Utils.Pack.{convert_u8_to_u32_slice}
use euclid_database.Utils.Pack.Laws.{IsByte, AllBytes, convert_u8_to_u32_lem}
use euclid_database.Array.{concat}
use euclid_database.Array.Vectors.{convert_u8_to_u32}
use euclid_database.GroupHashing.{Group}
use euclid_database.Lpn.{register_node, root_raw, digest_raw, leaf_circuit, node_circuit}

-- A tree with the entries of a mapping at its leaves.
pub data Tree : Type 0 where
  leaf : (key value : List ℕ) → Tree
  node : (left right : Tree) → Tree

-- The proofs, from the leaves to the root.
abbrev pub prove : Builder → Poseidon → Group → Tree → List ℕ
prove b p g (leaf key value) = leaf_circuit b p g key value
prove b p g (node left right) = node_circuit b p g (prove b p g left) (prove b p g right)

-- The bytes of the entries.
abbrev pub AllEntries : Tree → Type 0
AllEntries (leaf key value) = AllBytes key × AllBytes value
AllEntries (node left right) = AllEntries left × AllEntries right

-- The Merkle root, with the packed entries at the leaves.
abbrev pub tree_root : Poseidon → Tree → List ℕ
tree_root p (leaf key value) = p.hash_no_pad (convert_u8_to_u32_slice (key ++ value))
tree_root p (node left right) = p.hash_no_pad (tree_root p left ++ tree_root p right)

-- The sum of the points of the entries.
abbrev pub tree_digest : Group → Tree → List ℕ
tree_digest g (leaf key value) = g.map_to_curve_point (convert_u8_to_u32_slice (key ++ value))
tree_digest g (node left right) = g.add_curve_point (tree_digest g left) (tree_digest g right)

pub concat_lem : (xs ys : List ℕ) (d : ℕ) → concat xs ys d ≡ xs ++ ys
unfolding concat
concat_lem xs ys d =
    let m = length xs in
    let n = length ys in
    let f = λ (i : ℕ). if ltb i m then get_or xs i d else get_or ys (i - m) d in
    let z : 0 + m ≡ m + 0 = omega arith in
    let front : create_from 0 m f ≡ xs =
      create_from_ext 0 m f (λ i. get_or xs i d)
        (λ j g h.
          pick_left (ltb j m) (get_or xs j d) (get_or ys (j - m) d) (lt→ltb j m (omega arith)))
      ∙ create_from-get_or xs 0 m d (omega arith)
      ∙ take-length xs in
    let back : create_from (0 + m) n f ≡ ys =
      ap (λ k. create_from k n f) z
      ∙ create_from_shift m 0 n f
      ∙ create_from_ext 0 n (λ j. f (m + j)) (λ i. get_or ys i d) (λ j g h. shifted j)
      ∙ create_from-get_or ys 0 n d (omega arith)
      ∙ take-length ys in
    create_from-append 0 m n f ∙ rw (front, back) refl
  where
    pick_left : (c : Bool) (x y : ℕ) → c ≡ true → (if c then x else y) ≡ x
    pick_left c x y h = rw h refl

    shifted :
        (j : ℕ)
        → (if ltb (length xs + j) (length xs)
            then get_or xs (length xs + j) d
            else get_or ys (length xs + j - length xs) d)
          ≡ get_or ys j d
    shifted j =
        let t : ltb (length xs + j) (length xs) ≡ false = ground arith in
        let e : length xs + j - length xs ≡ j = omega arith in rw (t, e) refl

registered :
    (root digest : List ℕ)
    → length root ≡ 4
    → length digest ≡ 11
    → (root_raw (register_node root digest) ≡ root)
      × (digest_raw (register_node root digest) ≡ digest)
unfolding register_node root_raw digest_raw
registered root digest h k =
    let z : length root + 0 ≡ 4 = omega arith in
    (
      ap (λ n. take n (root ++ digest)) (sym h) ∙ take-append root digest,
      ap (λ n. take 11 (drop n (root ++ digest))) (sym z)
          ∙ ap (λ r. take 11 r) (drop-append_right root digest 0)
          ∙ ap (λ n. take n digest) (sym k)
          ∙ take-length digest,
    )

-- For entries of bytes, the public inputs of the proof of a tree are its Merkle root over the
-- entries packed into words, and the sum of the points of the packed entries.
pub prove_lem :
    (b : Builder) (p : Poseidon) (g : Group) (t : Tree)
    → AllEntries t
    → (root_raw (prove b p g t) ≡ tree_root p t) × (digest_raw (prove b p g t) ≡ tree_digest g t)
unfolding leaf_circuit node_circuit
prove_lem b p g (leaf key value) f =
    let kv = convert_u8_to_u32 b (concat key value 0) in
    let e : kv ≡ convert_u8_to_u32_slice (key ++ value) =
      ap (λ xs. convert_u8_to_u32 b xs) (concat_lem key value 0)
      ∙ convert_u8_to_u32_lem b (key ++ value) (All-append IsByte key value f.0 f.1) in
    let r =
      registered (p.hash_no_pad kv) (g.map_to_curve_point kv) (p.length-hash kv)
        (g.length-map_to_curve_point kv) in
    (r.0 ∙ ap (λ xs. p.hash_no_pad xs) e, r.1 ∙ ap (λ xs. g.map_to_curve_point xs) e)
prove_lem b p g (node left right) f =
    let l = prove_lem b p g left f.0 in
    let m = prove_lem b p g right f.1 in
    let x = prove b p g left in
    let y = prove b p g right in
    let d = g.add_curve_point (digest_raw x) (digest_raw y) in
    let r =
      registered (p.hash_no_pad (root_raw x ++ root_raw y)) d
        (p.length-hash (root_raw x ++ root_raw y))
        (g.length-add_curve_point (digest_raw x) (digest_raw y)) in
    (
      r.0
          ∙ ap (λ xs. p.hash_no_pad (xs ++ root_raw y)) l.0
          ∙ ap (λ xs. p.hash_no_pad (tree_root p left ++ xs)) m.0,
      r.1
          ∙ ap (λ xs. g.add_curve_point xs (digest_raw y)) l.1
          ∙ ap (λ xs. g.add_curve_point (tree_digest g left) xs) m.1,
    )

pub length-tree_digest : (g : Group) (t : Tree) → length (tree_digest g t) ≡ 11
length-tree_digest g (leaf key value) =
    g.length-map_to_curve_point (convert_u8_to_u32_slice (key ++ value))
length-tree_digest g (node left right) =
    g.length-add_curve_point (tree_digest g left) (tree_digest g right)
