-- ===== src/Query/Revealed.antt =====
-- What an accepted revelation shows.
use euclid_database.Prelude.{
  ℕ, zero, suc, ◌+◌, ◌-◌, ◌^◌, ◌≤◌, ◌<◌, ◌≡◌, refl, Bool, true, false, List, [], ◌∷◌, Option, some,
  none, map, length, take, bit, ltb, ltb→lt, lt→ltb, arith, ap, ◌∙◌, sym, All, >>=-eq-some,
}
use euclid_database.Plonky2.{Builder}
use euclid_database.Plonky2.Laws.{connect_eq}
use euclid_database.Plonky2.Poseidon.{Poseidon}
use euclid_database.Plonky2.Merkle.{MerkleProofs}
use euclid_database.Utils.Compare.{less_than}
use euclid_database.Utils.Compare.Laws.{comparisons}
use euclid_database.GroupHashing.{Group}
use euclid_database.Query.Revelation.{Choice, last, check_order, digests_loop}

-- The identifiers grow strictly, from the one before them on.
abbrev pub AscendingFrom : Option ℕ → List ℕ → Type 0
AscendingFrom previous [] = Unit
AscendingFrom none (x ∷ ids) = AscendingFrom (some x) ids
AscendingFrom (some y) (x ∷ ids) = (y < x) × AscendingFrom (some x) ids

abbrev pub Ascending : List ℕ → Type 0
Ascending ids = AscendingFrom none ids

-- The points that are added: those of the first n keys, and zeros behind them.
abbrev pub chosen : Group → Choice → ℕ → List (List ℕ) → List (List ℕ)
chosen g c n [] = []
chosen g c zero (key ∷ keys) = c.curve_zero ∷ chosen g c zero keys
chosen g c (suc n) (key ∷ keys) = g.map_to_curve_point key ∷ chosen g c n keys

abbrev pub IsId : ℕ → Type 0
IsId x = x < 2 ^ 32

abbrev pub PreviousIsId : Option ℕ → Type 0
PreviousIsId none = Unit
PreviousIsId (some x) = IsId x

not_less : (i n : ℕ) → n ≤ i → ltb i n ≡ false
not_less i n h = ground arith

pub set : (d : Bool) → bit d ≡ 1 → d ≡ true
set true e = refl
set false e = absurd (omega (arith, e))

module _ (b : Builder) (p : Poseidon) (g : Group) (c : Choice) (gadget : MerkleProofs p) where
  -- The order of an included identifier after the one before it.
  check_included :
      (previous : Option ℕ) (curr : ℕ) (ids : List ℕ) {u : Unit {0}}
      → PreviousIsId previous
      → IsId curr
      → check_order b p g c gadget previous curr true ≡ some u
      → AscendingFrom (some curr) ids
      → AscendingFrom previous (curr ∷ ids)
  unfolding check_order
  check_included none curr ids h k e a = a
  check_included (some y) curr ids h k e a =
      let o = (comparisons b y curr 32 (omega arith) h k).0 in
      let (ordered, e1, e2) = >>=-eq-some (less_than b y curr 32) _ e in
      let o' : ordered ≡ ltb y curr = cc (o, e1) in
      let e3 : bit ordered ≡ 1 = sym (b.select_lem true (bit ordered) 1) ∙ connect_eq b _ 1 e2 in
      (ltb→lt y curr (sym o' ∙ set ordered e3), a)

  pub loop_lem :
      (i : ℕ) (previous : Option ℕ) (keys : List (List ℕ)) (n k : ℕ) (ds : List (List ℕ))
      → i + length keys ≤ 256
      → n < 256
      → k ≡ n - i
      → PreviousIsId previous
      → All (λ key. IsId (last key)) keys
      → digests_loop b p g c gadget i previous keys n ≡ some ds
      → (ds ≡ chosen g c k keys) × AscendingFrom previous (take k (map last keys))
  unfolding digests_loop
  loop_lem i previous [] n zero ds l m q h a e = (sym (cc e), tt)
  loop_lem i previous [] n (suc k) ds l m q h a e = (sym (cc e), tt)
  loop_lem i previous (key ∷ keys) n zero ds l m q h a e =
      let t : less_than b i n 8 ≡ some false =
        (comparisons b i n 8 (omega arith) (omega arith) (omega arith)).0
        ∙ ap some (not_less i n (omega (arith, q))) in
      let (u, e1, r1) =
        >>=-eq-some (check_order b p g c gadget previous (last key) false) _ (rw t at e) in
      let (rest, e2, r2) =
        >>=-eq-some (digests_loop b p g c gadget (i + 1) (some (last key)) keys n) _ r1 in
      let ih =
        loop_lem (i + 1) (some (last key)) keys n zero rest (omega (arith, l)) m (omega (arith, q))
          a.0 a.1 e2 in
      let r3 : c.curve_select false (g.map_to_curve_point key) c.curve_zero ∷ rest ≡ ds = cc r2 in
      (
        sym r3
            ∙ ap (λ d. d ∷ rest) (c.curve_select_lem false (g.map_to_curve_point key) c.curve_zero)
            ∙ ap (λ rs. c.curve_zero ∷ rs) ih.0,
        tt,
      )
  loop_lem i previous (key ∷ keys) n (suc k) ds l m q h a e =
      let t : less_than b i n 8 ≡ some true =
        (comparisons b i n 8 (omega arith) (omega (arith, q)) (omega arith)).0
        ∙ ap some (lt→ltb i n (omega (arith, q))) in
      let (u, e1, r1) =
        >>=-eq-some (check_order b p g c gadget previous (last key) true) _ (rw t at e) in
      let (rest, e2, r2) =
        >>=-eq-some (digests_loop b p g c gadget (i + 1) (some (last key)) keys n) _ r1 in
      let ih =
        loop_lem (i + 1) (some (last key)) keys n k rest (omega (arith, l)) m (omega (arith, q)) a.0
          a.1 e2 in
      let r3 : c.curve_select true (g.map_to_curve_point key) c.curve_zero ∷ rest ≡ ds = cc r2 in
      (
        sym r3
            ∙ ap (λ d. d ∷ rest) (c.curve_select_lem true (g.map_to_curve_point key) c.curve_zero)
            ∙ ap (λ rs. g.map_to_curve_point key ∷ rs) ih.0,
        check_included previous (last key) (take k (map last keys)) h a.0 e1 ih.1,
      )
