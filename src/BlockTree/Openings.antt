-- ===== src/BlockTree/Openings.antt =====
-- Openings of a full binary tree of Poseidon hashes. Two openings at one index with the same siblings
-- show trees that differ there alone, or a collision of the hash.
use std.Path.{fun_ext}
use euclid_database.Prelude.{
  ℕ, zero, suc, ◌+◌, ◌-◌, ◌*◌, ◌≡◌, ◌≢◌, ◌<◌, refl, Bool, true, false, ◌⊎◌, inl, inr, List, [], ◌∷◌,
  ◌++◌, length, take, drop, bit, ◌==◌, ==_iff, from_bits, if◌then◌else◌, arith, ap, ◌∙◌, sym, All,
  Bool-cases, length-append, take_front, drop_behind,
}
use euclid_database.Plonky2.Poseidon.{Poseidon, swapped}
use euclid_database.Plonky2.Merkle.{IsHash, parent, merkle_root, equal_hashes}
use euclid_database.BlockTree.Accepts.{equal_hashes_lem, equal_hashes_refl}

-- Two different pairs of hashes with one hash.
pub record Collision (p : Poseidon) : Type 0 where
  pub one : List ℕ
  pub other : List ℕ
  pub one_sized : length one ≡ 8
  pub other_sized : length other ≡ 8
  pub differ : one ≢ other
  pub collide : p.hash_no_pad one ≡ p.hash_no_pad other

-- The level above the hashes f 0, f 1, ..., and the root over 2 ^ depth of them.
abbrev pub level : Poseidon → (ℕ → List ℕ) → ℕ → List ℕ
level p f i = p.hash_no_pad (f (2 * i) ++ f (1 + 2 * i))

abbrev pub full_root : Poseidon → ℕ → (ℕ → List ℕ) → List ℕ
full_root p zero f = f 0
full_root p (suc depth) f = full_root p depth (level p f)

abbrev pub update : (ℕ → List ℕ) → ℕ → List ℕ → ℕ → List ℕ
update f i v j = if j == i then v else f j

pub decided : (xs ys : List ℕ) → (xs ≡ ys) ⊎ (xs ≢ ys)
decided xs ys = elim (Bool-cases (equal_hashes xs ys)) [
  | inl e ↦ inl (equal_hashes_lem xs ys e)
  | inr e ↦ inr (λ s. different xs ys e s)
]
  where
    different : (xs ys : List ℕ) → equal_hashes xs ys ≡ false → xs ≡ ys → ⊥
    different xs ys e s =
        let t : equal_hashes xs ys ≡ true = rw s (equal_hashes_refl ys) in absurd (cc)

pub same_halves :
    (xs ys zs ws : List ℕ) → IsHash xs → IsHash zs → xs ++ ys ≡ zs ++ ws → (xs ≡ zs) × (ys ≡ ws)
same_halves xs ys zs ws h k e = (
  sym (take_front xs ys 4 h) ∙ ap (λ r. take 4 r) e ∙ take_front zs ws 4 k,
  sym (drop_behind xs ys 4 0 (omega arith))
      ∙ ap (λ r. drop 4 r) e
      ∙ drop_behind zs ws 4 0 (omega arith),
)

-- Equal hashes of two pairs.
halves :
    (p : Poseidon) (xs ys zs ws : List ℕ)
    → IsHash xs
    → IsHash ys
    → IsHash zs
    → IsHash ws
    → p.hash_no_pad (xs ++ ys) ≡ p.hash_no_pad (zs ++ ws)
    → Collision p ⊎ ((xs ≡ zs) × (ys ≡ ws))
halves p xs ys zs ws h i j k e = elim (decided (xs ++ ys) (zs ++ ws)) [
  | inl s ↦ inr (same_halves xs ys zs ws h j s)
  | inr d ↦ inl (record {
    one = xs ++ ys;
    other = zs ++ ws;
    one_sized = omega (arith, length-append xs ys);
    other_sized = omega (arith, length-append zs ws);
    differ = d;
    collide = e;
  })
]

==-false : (a b : ℕ) → a ≢ b → (a == b) ≡ false
==-false a b h = ground arith

pub update_self : (f : ℕ → List ℕ) (i j : ℕ) (v : List ℕ) → j ≡ i → update f i v j ≡ v
update_self f i j v h = rw ((==_iff j i).1 h) refl

pub update_ne : (f : ℕ → List ℕ) (i j : ℕ) (v : List ℕ) → j ≢ i → update f i v j ≡ f j
update_ne f i j v h = rw (==-false j i h) refl

level_at :
    (p : Poseidon) (f : ℕ → List ℕ) (i : ℕ) (x y : List ℕ)
    → f (2 * i) ≡ x
    → f (1 + 2 * i) ≡ y
    → level p f i ≡ p.hash_no_pad (x ++ y)
level_at p f i x y h k =
    ap (λ l. p.hash_no_pad (l ++ f (1 + 2 * i))) h ∙ ap (λ r. p.hash_no_pad (x ++ r)) k

-- A level above an updated one.
pub level-update_at :
    (p : Poseidon) (f : ℕ → List ℕ) (c : Bool) (j : ℕ) (v s : List ℕ) (i : ℕ)
    → s ≡ f (1 - bit c + 2 * j)
    → update (level p f) j (parent p v s c) i ≡ level p (update f (bit c + 2 * j) v) i
level-update_at p f c j v s i e = elim (Bool-cases (i == j)) [
  | inl t ↦
      let q : i ≡ j = (==_iff i j).0 t in
      update_self (level p f) j i (parent p v s c) q ∙ sym (here c e q)
  | inr t ↦
      let q : i ≢ j = λ r. ground (arith, t, r) in
      let k = bit c + 2 * j in
      update_ne (level p f) j i (parent p v s c) q
      ∙ sym (
          level_at p (update f k v) i (f (2 * i)) (f (1 + 2 * i))
            (update_ne f k (2 * i) v (λ r. elsewhere c 0 q (omega arith) (omega (arith, r))))
            (update_ne f k (1 + 2 * i) v (λ r. elsewhere c 1 q (omega arith) r)))
]
  where
    here :
        (c : Bool)
        → s ≡ f (1 - bit c + 2 * j)
        → i ≡ j
        → level p (update f (bit c + 2 * j) v) i ≡ parent p v s c
    here false e q =
        level_at p (update f (0 + 2 * j) v) i v s
          (update_self f (0 + 2 * j) (2 * i) v (omega arith))
          (update_ne f (0 + 2 * j) (1 + 2 * i) v (λ r. omega arith) ∙ sym (e ∙ ap f (omega arith)))
    here true e q =
        level_at p (update f (1 + 2 * j) v) i s v
          (update_ne f (1 + 2 * j) (2 * i) v (λ r. omega arith) ∙ sym (e ∙ ap f (omega arith)))
          (update_self f (1 + 2 * j) (1 + 2 * i) v (omega arith))

    elsewhere : (c : Bool) (d : ℕ) → i ≢ j → d < 2 → d + 2 * i ≡ bit c + 2 * j → ⊥
    elsewhere false d q h r = q (omega arith)
    elsewhere true d q h r = q (omega arith)

-- The children below an opened hash.
opened_pair :
    (p : Poseidon) (f : ℕ → List ℕ) (c : Bool) (j : ℕ) (x s : List ℕ)
    → IsHash x
    → IsHash s
    → ((i : ℕ) → IsHash (f i))
    → parent p x s c ≡ level p f j
    → Collision p ⊎ ((x ≡ f (bit c + 2 * j)) × (s ≡ f (1 - bit c + 2 * j)))
opened_pair p f false j x s h k a e =
    elim (halves p x s (f (2 * j)) (f (1 + 2 * j)) h k (a (2 * j)) (a (1 + 2 * j)) e) [
      | inl c ↦ inl c
      | inr q ↦ inr (q.0 ∙ ap f (omega arith), q.1 ∙ ap f (omega arith))
    ]
opened_pair p f true j x s h k a e =
    elim (halves p s x (f (2 * j)) (f (1 + 2 * j)) k h (a (2 * j)) (a (1 + 2 * j)) e) [
      | inl c ↦ inl c
      | inr q ↦ inr (q.1 ∙ ap f (omega arith), q.0 ∙ ap f (omega arith))
    ]

-- What an opening at an index shows of the tree: the hash there, and the root with another hash.
abbrev pub Opened : Poseidon → (ℕ → List ℕ) → List (List ℕ) → List Bool → List ℕ → Type 0
Opened p f siblings bits x =
    (x ≡ f (from_bits bits))
    × ((v : List ℕ)
        → merkle_root p v siblings bits ≡ full_root p (length bits) (update f (from_bits bits) v))

pub opening :
    (p : Poseidon) (f : ℕ → List ℕ) (siblings : List (List ℕ)) (bits : List Bool) (x : List ℕ)
    → length siblings ≡ length bits
    → All IsHash siblings
    → IsHash x
    → ((i : ℕ) → IsHash (f i))
    → merkle_root p x siblings bits ≡ full_root p (length bits) f
    → Collision p ⊎ Opened p f siblings bits x
opening p f [] [] x l k h a e = inr (e, λ v. refl)
opening p f [] (c ∷ bits) x l k h a e = absurd (omega arith)
opening p f (s ∷ siblings) [] x l k h a e = absurd (omega arith)
opening p f (s ∷ siblings) (c ∷ bits) x l k h a e =
    let j = from_bits bits in
    elim (opening p (level p f) siblings bits (parent p x s c) (omega arith) k.1
      (p.length-hash (swapped c x s)) (λ i. p.length-hash (f (2 * i) ++ f (1 + 2 * i))) e) [
        | inl col ↦ inl col
        | inr above ↦ elim (opened_pair p f c j x s h k.0 a above.0) [
          | inl col ↦ inl col
          | inr q ↦ inr (
            q.0,
            λ v.
                above.1 (parent p v s c)
                ∙ ap (full_root p (length bits)) (fun_ext (λ i. level-update_at p f c j v s i q.1)),
          )
        ]
      ]
