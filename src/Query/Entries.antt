-- ===== src/Query/Entries.antt =====
-- What a proof over entries of a storage tree exposes.
use euclid_database.Prelude.{
  ℕ, ◌≡◌, ◌↔◌, refl, Bool, List, ◌++◌, Circuit, ◌>>=◌, some, length, take, arith, ap, ◌∙◌, sym,
  subst, take_front, take_all, drop_behind, >>=-eq-some,
}
use euclid_database.Plonky2.{Builder}
use euclid_database.Plonky2.Poseidon.{Poseidon}
use euclid_database.Plonky2.Merkle.{IsHash, parent}
use euclid_database.Array.{enforce_equal}
use euclid_database.Array.Slices.{enforce_equal_iff}
use euclid_database.MerkleTree.StateTree.{hash_maybe_swap_lem}
use euclid_database.GroupHashing.{Group}
use euclid_database.Lpn.StorageTree.{concat_lem}
use euclid_database.Query.Storage.{
  register_query, query_root, query_digest, query_owner, query_leaf, query_full_inner,
  query_partial_inner,
}

-- A part of a storage tree: entries, nodes with two proved children, and nodes with one.
pub data Entries : Type 0 where
  entry : (key value : List ℕ) → Entries
  both : (left right : Entries) → Entries
  one : (proved : Entries) (unproved : List ℕ) (proved_is_right : Bool) → Entries

-- The sizes of the packed keys and values, and of the hashes.
abbrev pub IsSizedEntries : Entries → Type 0
IsSizedEntries (entry key value) = (length key ≡ 8) × (length value ≡ 8)
IsSizedEntries (both left right) = IsSizedEntries left × IsSizedEntries right
IsSizedEntries (one proved unproved right) = IsSizedEntries proved × IsHash unproved

-- The Merkle root, the sum of the points of the keys, and the owner of the first entry.
abbrev pub entries_root : Poseidon → Entries → List ℕ
entries_root p (entry key value) = p.hash_no_pad (key ++ value)
entries_root p (both left right) = p.hash_no_pad (entries_root p left ++ entries_root p right)
entries_root p (one proved unproved right) = parent p (entries_root p proved) unproved right

abbrev pub entries_digest : Group → Entries → List ℕ
entries_digest g (entry key value) = g.map_to_curve_point key
entries_digest g (both left right) =
    g.add_curve_point (entries_digest g left) (entries_digest g right)
entries_digest g (one proved unproved right) = entries_digest g proved

abbrev pub first_owner : Entries → List ℕ
first_owner (entry key value) = value
first_owner (both left right) = first_owner left
first_owner (one proved unproved right) = first_owner proved

-- All the entries have one owner.
abbrev pub OwnedBy : List ℕ → Entries → Type 0
OwnedBy owner (entry key value) = value ≡ owner
OwnedBy owner (both left right) = OwnedBy owner left × OwnedBy owner right
OwnedBy owner (one proved unproved right) = OwnedBy owner proved

-- The proofs, from the entries up.
abbrev pub prove_entries : Builder → Poseidon → Group → Entries → Circuit (List ℕ)
prove_entries b p g (entry key value) = some (query_leaf b p g key value)
prove_entries b p g (both left right) =
    prove_entries b p g left >>= λ l. prove_entries b p g right >>= λ r. query_full_inner b p g l r
prove_entries b p g (one proved unproved right) =
    prove_entries b p g proved >>= λ l. some (query_partial_inner b p g l unproved right)

-- The public inputs that a proof has.
abbrev pub entries_pis : Poseidon → Group → Entries → List ℕ
entries_pis p g t = register_query (entries_root p t) (entries_digest g t) (first_owner t)

pub register_query_lem :
    (root digest owner : List ℕ)
    → IsHash root
    → length digest ≡ 11
    → length owner ≡ 8
    → let pis = register_query root digest owner in
      (query_root pis ≡ root) × (query_digest pis ≡ digest) × (query_owner pis ≡ owner)
unfolding register_query query_root query_digest query_owner
register_query_lem root digest owner h k l =
    let rest = digest ++ owner in
    (
      take_front root rest 4 h,
      ap (λ r. take 11 r) (drop_behind root rest 4 0 (omega arith)) ∙ take_front digest owner 11 k,
      ap (λ r. take 8 r)
            (drop_behind root rest 15 11 (omega arith)
              ∙ drop_behind digest owner 11 0 (omega arith))
          ∙ take_all owner 8 l,
    )

pub entries_root-IsHash : (p : Poseidon) (t : Entries) → IsHash (entries_root p t)
entries_root-IsHash p (entry key value) = p.length-hash (key ++ value)
entries_root-IsHash p (both left right) =
    p.length-hash (entries_root p left ++ entries_root p right)
entries_root-IsHash p (one proved unproved right) = p.length-hash _

pub length-entries_digest : (g : Group) (t : Entries) → length (entries_digest g t) ≡ 11
length-entries_digest g (entry key value) = g.length-map_to_curve_point key
length-entries_digest g (both left right) =
    g.length-add_curve_point (entries_digest g left) (entries_digest g right)
length-entries_digest g (one proved unproved right) = length-entries_digest g proved

pub length-first_owner : (t : Entries) → IsSizedEntries t → length (first_owner t) ≡ 8
length-first_owner (entry key value) z = z.1
length-first_owner (both left right) z = length-first_owner left z.0
length-first_owner (one proved unproved right) z = length-first_owner proved z.0

OwnedBy-first_owner : (owner : List ℕ) (t : Entries) → OwnedBy owner t → first_owner t ≡ owner
OwnedBy-first_owner owner (entry key value) o = o
OwnedBy-first_owner owner (both left right) o = OwnedBy-first_owner owner left o.0
OwnedBy-first_owner owner (one proved unproved right) o = OwnedBy-first_owner owner proved o

-- What a proof exposes, read.
pub entries_pis_lem :
    (p : Poseidon) (g : Group) (t : Entries)
    → IsSizedEntries t
    → (query_root (entries_pis p g t) ≡ entries_root p t)
      × (query_digest (entries_pis p g t) ≡ entries_digest g t)
      × (query_owner (entries_pis p g t) ≡ first_owner t)
entries_pis_lem p g t z =
    register_query_lem (entries_root p t) (entries_digest g t) (first_owner t)
      (entries_root-IsHash p t) (length-entries_digest g t) (length-first_owner t z)

OwnedBy-subst : (x y : List ℕ) (t : Entries) → x ≡ y → OwnedBy x t → OwnedBy y t
OwnedBy-subst x y t e o = subst (λ w. OwnedBy w t) e o

module _ (b : Builder) (p : Poseidon) (g : Group) where
  leaf_lem : (key value : List ℕ) → query_leaf b p g key value ≡ entries_pis p g (entry key value)
  unfolding query_leaf
  leaf_lem key value =
      ap (λ kv. register_query (p.hash_no_pad kv) (g.map_to_curve_point key) value)
        (concat_lem key value 0)

  one_lem :
      (t : Entries) (unproved : List ℕ) (c : Bool)
      → IsSizedEntries t
      → IsHash unproved
      → query_partial_inner b p g (entries_pis p g t) unproved c
        ≡ entries_pis p g (one t unproved c)
  unfolding query_partial_inner
  one_lem t unproved c z h =
      let (r, d, o) = entries_pis_lem p g t z in
      let e = hash_maybe_swap_lem p (entries_root p t) unproved c (entries_root-IsHash p t) h in
      rw (r, d, o, e) refl

  both_lem :
      (l r : Entries) (pis : List ℕ)
      → IsSizedEntries l
      → IsSizedEntries r
      → (query_full_inner b p g (entries_pis p g l) (entries_pis p g r) ≡ some pis)
        ↔ ((first_owner l ≡ first_owner r) × (pis ≡ entries_pis p g (both l r)))
  unfolding query_full_inner
  both_lem l r pis z y =
      let (r0, d0, o0) = entries_pis_lem p g l z in
      let (r1, d1, o1) = entries_pis_lem p g r y in
      let owners =
        enforce_equal_iff b (first_owner l) (first_owner r)
          (length-first_owner l z ∙ sym (length-first_owner r y)) in
      rw (r0, d0, o0, r1, d1, o1)
        (
          (λ e.
              let (u, e1, e2) = >>=-eq-some (enforce_equal b (first_owner l) (first_owner r)) _ e in
              let e3 : entries_pis p g (both l r) ≡ pis = cc e2 in (owners.0 e1, sym e3)),
          λ (e, f). rw (owners.1 e, f) refl,
        )

  -- For packed keys and values of eight words and hashes as siblings: a part of a storage tree has a
  -- proof exactly if all its entries have one owner, and the proof exposes the Merkle root, the sum
  -- of the points of the keys and the owner.
  pub prove_entries_iff :
      (t : Entries) (pis : List ℕ)
      → IsSizedEntries t
      → (prove_entries b p g t ≡ some pis) ↔ (OwnedBy (first_owner t) t × (pis ≡ entries_pis p g t))
  prove_entries_iff (entry key value) pis z =
      let e = leaf_lem key value in
      (
        (λ h. let h' : query_leaf b p g key value ≡ pis = cc h in (refl, sym h' ∙ e)),
        λ (o, h). ap some (e ∙ sym h),
      )
  prove_entries_iff (one t unproved c) pis z =
      let ih = prove_entries_iff t (entries_pis p g t) z.0 in
      let e = one_lem t unproved c z.0 z.1 in
      (
        (λ h.
            let (l, h1, h2) = >>=-eq-some (prove_entries b p g t) _ h in
            let (o, f) = (prove_entries_iff t l z.0).0 h1 in
            let h3 : query_partial_inner b p g l unproved c ≡ pis = cc h2 in
            (o, sym h3 ∙ ap (λ x. query_partial_inner b p g x unproved c) f ∙ e)),
        λ (o, h). rw (ih.1 (o, refl)) (ap some (e ∙ sym h)),
      )
  prove_entries_iff (both l r) pis z =
      let node = both_lem l r pis z.0 z.1 in
      let left = prove_entries_iff l (entries_pis p g l) z.0 in
      let right = prove_entries_iff r (entries_pis p g r) z.1 in
      (
        (λ h.
            let (x, h1, h2) = >>=-eq-some (prove_entries b p g l) _ h in
            let (y, h3, h4) = >>=-eq-some (prove_entries b p g r) _ h2 in
            let (o, f) = (prove_entries_iff l x z.0).0 h1 in
            let (o', f') = (prove_entries_iff r y z.1).0 h3 in
            let h5 : query_full_inner b p g (entries_pis p g l) (entries_pis p g r) ≡ some pis =
              ap (λ w. query_full_inner b p g w (entries_pis p g r)) (sym f)
              ∙ ap (λ w. query_full_inner b p g x w) (sym f')
              ∙ h4 in
            let (same, e) = node.0 h5 in
            ((o, OwnedBy-subst (first_owner r) (first_owner l) r (sym same) o'), e)),
        λ (o, h).
            let same = OwnedBy-first_owner (first_owner l) r o.1 in
            rw
              (
                left.1 (o.0, refl),
                right.1 (OwnedBy-subst (first_owner l) (first_owner r) r (sym same) o.1, refl),
              )
              (node.1 (sym same, h)),
      )
