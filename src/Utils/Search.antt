-- ===== src/Utils/Search.antt =====
-- mrp2-utils/src/utils.rs, `find_index_subvector`: the first place of a subvector. An empty `sub`
-- stops the code, since `windows(0)` panics.
use euclid_database.Prelude.{
  ℕ, zero, suc, ◌+◌, ◌≤◌, ◌<◌, ◌≡◌, refl, ap, subst, Circuit, ◌>>◌, guard, ltb, ltb→lt, lt→ltb,
  List, [], ◌∷◌, Option, none, some, Bool, true, false, ◌&&◌, leb, leb→le, length-take, length-drop,
  ◌↔◌, length, take, drop, arith, if◌then◌else◌, Bool-cases, inl, inr, ◌∙◌,
}
use euclid_database.Array.Reads.{same, same_iff}

-- Whether the window at the front of `v` is there and equal to `sub`.
window : List ℕ → List ℕ → Bool
window sub v = leb (length sub) (length v) && same (take (length sub) v) sub

-- `v.windows(sub.len()).position(|s| s == sub)` from position i on.
position : List ℕ → List ℕ → ℕ → Option ℕ
position sub [] i = none
position sub (x ∷ v) i =
    let rest = position sub v (i + 1) in if window sub (x ∷ v) then some i else rest

unfoldable pub find_index_subvector : List ℕ → List ℕ → Circuit (Option ℕ)
unfolding position window
find_index_subvector v sub = do guard (ltb 0 (length sub)); some (position sub v 0)

-- `sub` stands in `v` at index j.
abbrev pub StandsAt : List ℕ → List ℕ → ℕ → Type 0
StandsAt sub v j = (j + length sub ≤ length v) × (take (length sub) (drop j v) ≡ sub)

window_iff :
    (sub v : List ℕ) (j : ℕ) → j < length v → (window sub (drop j v) ≡ true) ↔ StandsAt sub v j
unfolding window
window_iff sub v j h =
    let n = length sub in
    let d = length-drop j v in
    elim (Bool-cases (leb n (length (drop j v)))) [
      | inl fits ↦
          let le : n ≤ length (drop j v) = leb→le n (length (drop j v)) fits in
          let s = same_iff (take n (drop j v)) sub (length-take n (drop j v) ∙ omega arith) in
          rw fits ((λ p. (omega arith, s.0 p)), λ q. s.1 q.1)
      | inr short ↦
          rw short ((λ p. cc), λ q. absurd (too_short n (length (drop j v)) short (omega arith)))
    ]
  where
    too_short : (n m : ℕ) → leb n m ≡ false → n ≤ m → ⊥
    too_short n m p q = ground arith

-- No window of `v` before index k is `sub`.
abbrev NoneBefore : List ℕ → List ℕ → ℕ → Type 0
NoneBefore sub v k = (j : ℕ) → j < k → window sub (drop j v) ≡ false

NoneBefore-cons :
    (sub v : List ℕ) (x k : ℕ)
    → window sub (x ∷ v) ≡ false
    → NoneBefore sub v k
    → NoneBefore sub (x ∷ v) (suc k)
NoneBefore-cons sub v x k p h zero lt = p
NoneBefore-cons sub v x k p h (suc j) lt = h j (omega arith)

position-some :
    (sub v : List ℕ) (i r : ℕ)
    → position sub v i ≡ some r
    → (k : ℕ) × (r ≡ i + k) × (k < length v) × (window sub (drop k v) ≡ true) × NoneBefore sub v k
unfolding position
position-some sub [] i r h = cc
position-some sub (x ∷ v) i r h = elim (Bool-cases (window sub (x ∷ v))) [
  | inl here ↦
      let e : some i ≡ some r = rw here at h in
      (0, ground arith, omega arith, here, λ j lt. absurd (omega arith))
  | inr later ↦
      let e : position sub v (i + 1) ≡ some r = rw later at h in
      let (k, sum, lt, found, before) = position-some sub v (i + 1) r e in
      (suc k, omega arith, omega arith, found, NoneBefore-cons sub v x k later before)
]

position-none : (sub v : List ℕ) (i : ℕ) → position sub v i ≡ none → NoneBefore sub v (length v)
unfolding position
position-none sub [] i h = λ j lt. absurd (omega arith)
position-none sub (x ∷ v) i h = elim (Bool-cases (window sub (x ∷ v))) [
  | inl here ↦ let e : some i ≡ none = rw here at h in cc
  | inr later ↦
      let e : position sub v (i + 1) ≡ none = rw later at h in
      NoneBefore-cons sub v x (length v) later (position-none sub v (i + 1) e)
]

not_standing :
    (sub v : List ℕ) (j : ℕ) → j < length v → window sub (drop j v) ≡ false → ¬ StandsAt sub v j
not_standing sub v j h w s = let t = (window_iff sub v j h).1 s in cc

-- The index at which `sub` stands first.
abbrev pub StandsFirst : List ℕ → List ℕ → ℕ → Type 0
StandsFirst sub v i = StandsAt sub v i × ((j : ℕ) → j < i → ¬ StandsAt sub v j)

position-first : (v sub : List ℕ) (i : ℕ) → position sub v 0 ≡ some i → StandsFirst sub v i
position-first v sub i h =
    let (k, e, lt, found, before) = position-some sub v 0 i h in
    let e' : i ≡ k = omega arith in
    rw e' ((window_iff sub v k lt).0 found, λ j p. not_standing sub v j (omega arith) (before j p))

position-absent :
    (v sub : List ℕ) → 0 < length sub → position sub v 0 ≡ none → (j : ℕ) → ¬ StandsAt sub v j
position-absent v sub pos h j s =
    not_standing sub v j (omega (arith, s.0)) (position-none sub v 0 h j (omega (arith, s.0))) s

one_first : (sub v : List ℕ) (i k : ℕ) → StandsFirst sub v i → StandsFirst sub v k → i ≡ k
one_first sub v i k f g = elim (Bool-cases (ltb i k)) [
  | inl t ↦ absurd (g.1 i (ltb→lt i k t) f.0)
  | inr t ↦ elim (Bool-cases (ltb k i)) [
    | inl u ↦ absurd (f.1 k (ltb→lt k i u) g.0)
    | inr u ↦ ground arith
  ]
]

-- The two kinds of result.
abbrev Found : List ℕ → List ℕ → Option ℕ → Type 0
Found sub v none = (j : ℕ) → ¬ StandsAt sub v j
Found sub v (some k) = StandsFirst sub v k

position-Found : (v sub : List ℕ) → 0 < length sub → Found sub v (position sub v 0)
position-Found v sub pos = cases (position sub v 0) refl
  where
    cases : (r : Option ℕ) → position sub v 0 ≡ r → Found sub v r
    cases none e = position-absent v sub pos e
    cases (some k) e = position-first v sub k e

result_iff :
    (sub v : List ℕ) (r : Option ℕ)
    → Found sub v r
    → ((i : ℕ) → (r ≡ some i) ↔ StandsFirst sub v i) × ((r ≡ none) ↔ ((j : ℕ) → ¬ StandsAt sub v j))
result_iff sub v none f = (λ i. ((λ e. cc), λ s. absurd (f i s.0)), ((λ e. f), λ _. refl))
result_iff sub v (some k) f = (
  λ i. (
    (λ e. let e' : k ≡ i = cc e in subst (StandsFirst sub v) e' f),
    λ s. ap some (one_first sub v k i f s),
  ),
  ((λ e. cc), λ h. absurd (h k f.0)),
)

-- For a `sub` of at least one item: `find_index_subvector` returns an index exactly if it is the first
-- at which `sub` stands, and nothing exactly if `sub` stands nowhere. On an empty `sub` the code stops.
pub find_index_subvector_lem :
    (v sub : List ℕ)
    → 0 < length sub
    → ((i : ℕ) → (find_index_subvector v sub ≡ some (some i)) ↔ StandsFirst sub v i)
      × ((find_index_subvector v sub ≡ some none) ↔ ((j : ℕ) → ¬ StandsAt sub v j))
      × (find_index_subvector v [] ≡ none)
unfolding find_index_subvector
find_index_subvector_lem v sub pos =
    let (found, absent) = result_iff sub v (position sub v 0) (position-Found v sub pos) in
    let t : ltb 0 (length sub) ≡ true = lt→ltb 0 (length sub) pos in
    rw t (
      λ i. ((λ e. (found i).0 (inner _ _ e)), λ s. ap some ((found i).1 s)),
      ((λ e. absent.0 (inner _ _ e)), λ h. ap some (absent.1 h)),
      refl,
    )
  where
    inner : (x y : Option ℕ) → ◌≡◌ {A = Circuit (Option ℕ)} (some x) (some y) → x ≡ y
    inner x y e = ap (λ o. elim o [ none ↦ none | some a ↦ a ]) e
