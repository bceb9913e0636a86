-- ===== src/Prelude/Arrays.antt =====
-- Fixed-size arrays as lists: `core::array::from_fn`, a gadget for each index, and slices.
use Prim.Native.Nat.{ℕ, zero, suc, ◌+◌, ◌≤◌, ◌<◌}
use mathlib.Core.Path.{◌≡◌, refl, ap, sym, ◌∙◌}
use mathlib.Core.Option.{some, none}
use mathlib.Core.List.{List, [], ◌∷◌, ◌++◌}
use native.Mathlib.Omega.{arith}
use euclid_database.Prelude.Lists.{
  length, get_or, take, drop, replicate, length-take, length-drop, take-length,
}
use euclid_database.Prelude.Constraints.{Circuit, ◌>>=◌, >>=-eq-some}

abbrev pub All {ℓ κ} : {A : Type ℓ} → (A → Type κ) → List A → Type κ
All P [] = Unit
All P (x ∷ xs) = P x × All P xs

pub All-get_or {ℓ κ} :
    {A : Type ℓ} (P : A → Type κ) (xs : List A) (i : ℕ) (d : A) → All P xs → P d → P (get_or xs i d)
All-get_or P [] i d h p = p
All-get_or P (x ∷ xs) zero d h p = h.0
All-get_or P (x ∷ xs) (suc i) d h p = All-get_or P xs i d h.1 p

pub All-replicate {ℓ κ} :
    {A : Type ℓ} (P : A → Type κ) (n : ℕ) (a : A) → P a → All P (replicate n a)
All-replicate P zero a p = tt
All-replicate P (suc n) a p = (p, All-replicate P n a p)

pub All-append {ℓ κ} :
    {A : Type ℓ} (P : A → Type κ) (xs ys : List A) → All P xs → All P ys → All P (xs ++ ys)
All-append P [] ys h k = k
All-append P (x ∷ xs) ys h k = (h.0, All-append P xs ys h.1 k)

pub All-take {ℓ κ} :
    {A : Type ℓ} (P : A → Type κ) (n : ℕ) (xs : List A) → All P xs → All P (take n xs)
All-take P zero xs h = tt
All-take P (suc n) [] h = tt
All-take P (suc n) (x ∷ xs) h = (h.0, All-take P n xs h.1)

pub All-drop {ℓ κ} :
    {A : Type ℓ} (P : A → Type κ) (n : ℕ) (xs : List A) → All P xs → All P (drop n xs)
All-drop P zero xs h = h
All-drop P (suc n) [] h = tt
All-drop P (suc n) (x ∷ xs) h = All-drop P n xs h.1

module _ {ℓ} {A : Type ℓ} where
  -- f i, f (i + 1), …, n items.
  abbrev pub create_from : ℕ → ℕ → (ℕ → A) → List A
  create_from i zero f = []
  create_from i (suc n) f = f i ∷ create_from (i + 1) n f

  -- `create_array(f)`, for an array of n items.
  abbrev pub create_array : ℕ → (ℕ → A) → List A
  create_array n f = create_from 0 n f

  -- The same where each item is a gadget.
  pub build_from : ℕ → ℕ → (ℕ → Circuit A) → Circuit (List A)
  build_from i zero f = some []
  build_from i (suc n) f = f i >>= λ y. build_from (i + 1) n f >>= λ ys. some (y ∷ ys)

  unfoldable pub build_array : ℕ → (ℕ → Circuit A) → Circuit (List A)
  unfolding build_from
  build_array n f = build_from 0 n f

  pub length-create_from : (i n : ℕ) (f : ℕ → A) → length (create_from i n f) ≡ n
  length-create_from i zero f = refl
  length-create_from i (suc n) f = ap suc (length-create_from (i + 1) n f)

  build_from_lem :
      (i n : ℕ) (f : ℕ → Circuit A) (g : ℕ → A)
      → ((j : ℕ) → i ≤ j → j < i + n → f j ≡ some (g j))
      → build_from i n f ≡ some (create_from i n g)
  unfolding build_from
  build_from_lem i zero f g h = refl
  build_from_lem i (suc n) f g h =
      let ih : build_from (i + 1) n f ≡ some (create_from (i + 1) n g) =
        build_from_lem (i + 1) n f g (λ j p q. h j (omega arith) (omega arith)) in
      rw (h i (omega arith) (omega arith), ih) refl

  -- An array of gadgets that are all satisfied.
  pub build_array_lem :
      (n : ℕ) (f : ℕ → Circuit A) (g : ℕ → A)
      → ((j : ℕ) → j < n → f j ≡ some (g j))
      → build_array n f ≡ some (create_array n g)
  unfolding build_array
  build_array_lem n f g h = build_from_lem 0 n f g (λ j p q. h j (omega arith))

  length-build_from :
      (i n : ℕ) (f : ℕ → Circuit A) (xs : List A) → build_from i n f ≡ some xs → length xs ≡ n
  unfolding build_from
  length-build_from i zero f xs e = let e' : [] ≡ xs = cc e in ap length (sym e')
  length-build_from i (suc n) f xs e =
      let (y, e1, r1) = >>=-eq-some (f i) _ e in
      let (ys, e2, r2) = >>=-eq-some (build_from (i + 1) n f) _ r1 in
      let e' : y ∷ ys ≡ xs = cc r2 in
      ap length (sym e') ∙ ap suc (length-build_from (i + 1) n f ys e2)

  pub length-build_array :
      (n : ℕ) (f : ℕ → Circuit A) (xs : List A) → build_array n f ≡ some xs → length xs ≡ n
  unfolding build_array
  length-build_array n f xs e = length-build_from 0 n f xs e

  -- An array whose first gadget is not satisfied.
  pub build_array-none : (n : ℕ) (f : ℕ → Circuit A) → f 0 ≡ none → build_array (suc n) f ≡ none
  unfolding build_array
  build_array-none n f h = rw h refl

  pub create_from_ext :
      (i n : ℕ) (f g : ℕ → A)
      → ((j : ℕ) → i ≤ j → j < i + n → f j ≡ g j)
      → create_from i n f ≡ create_from i n g
  create_from_ext i zero f g h = refl
  create_from_ext i (suc n) f g h =
      rw (h i (omega arith) (omega arith)) (
        ap (λ r. g i ∷ r)
          (create_from_ext (i + 1) n f g (λ j p q. h j (omega arith) (omega arith))))

  pub create_from-suc :
      (i n : ℕ) (f : ℕ → A) → create_from (suc i) n f ≡ create_from i n (λ j. f (suc j))
  create_from-suc i zero f = refl
  create_from-suc i (suc n) f =
      let e : suc i + 1 ≡ suc (i + 1) = omega arith in
      rw e (ap (λ r. f (suc i) ∷ r) (create_from-suc (i + 1) n f))

  pub create_from_shift :
      (k i n : ℕ) (f : ℕ → A) → create_from (k + i) n f ≡ create_from i n (λ j. f (k + j))
  create_from_shift k i zero f = refl
  create_from_shift k i (suc n) f =
      let e : k + i + 1 ≡ k + (i + 1) = omega arith in
      rw e (ap (λ r. f (k + i) ∷ r) (create_from_shift k (i + 1) n f))

  pub get_or-create_from :
      (i n j : ℕ) (f : ℕ → A) (d : A) → j < n → get_or (create_from i n f) j d ≡ f (i + j)
  get_or-create_from i zero j f d h = absurd (omega arith)
  get_or-create_from i (suc n) zero f d h = ap f (omega arith)
  get_or-create_from i (suc n) (suc j) f d h =
      get_or-create_from (i + 1) n j f d (omega arith) ∙ ap f (omega arith)

  -- Reading n items from position i gives the slice.
  pub create_from-get_or :
      (xs : List A) (i n : ℕ) (d : A)
      → i + n ≤ length xs
      → create_from i n (λ j. get_or xs j d) ≡ take n (drop i xs)
  create_from-get_or xs i zero d h = refl
  create_from-get_or [] i (suc n) d h = absurd (omega arith)
  create_from-get_or (x ∷ xs) zero (suc n) d h =
      ap (λ r. x ∷ r)
        (create_from-suc 0 n (λ j. get_or (x ∷ xs) j d) ∙ create_from-get_or xs 0 n d (omega arith))
  create_from-get_or (x ∷ xs) (suc i) (suc n) d h =
      create_from-suc i (suc n) (λ j. get_or (x ∷ xs) j d)
      ∙ create_from-get_or xs i (suc n) d (omega arith)

  -- `self[at..at + n]`, built from reads.
  pub create_array-slice :
      (xs : List A) (at n : ℕ) (d : A)
      → at + n ≤ length xs
      → create_array n (λ i. get_or xs (at + i) d) ≡ take n (drop at xs)
  create_array-slice xs at n d h =
      let e : at + 0 ≡ at = omega arith in
      sym (create_from_shift at 0 n (λ j. get_or xs j d)) ∙ rw e (create_from-get_or xs at n d h)

  pub length-slice :
      (xs : List A) (at n : ℕ) → at + n ≤ length xs → length (take n (drop at xs)) ≡ n
  length-slice xs at n h = length-take n (drop at xs) ∙ omega (arith, length-drop at xs)

  pub create_from-append :
      (i m n : ℕ) (f : ℕ → A)
      → create_from i (m + n) f ≡ create_from i m f ++ create_from (i + m) n f
  create_from-append i zero n f =
      let e : 0 + n ≡ n = omega arith in let e' : i + 0 ≡ i = omega arith in rw (e, e') refl
  create_from-append i (suc m) n f =
      let e : suc m + n ≡ suc (m + n) = omega arith in
      let e' : i + suc m ≡ i + 1 + m = omega arith in
      rw (e, e') (ap (λ r. f i ∷ r) (create_from-append (i + 1) m n f))

  pub create_from-replicate :
      (i n : ℕ) (f : ℕ → A) (a : A)
      → ((j : ℕ) → i ≤ j → j < i + n → f j ≡ a)
      → create_from i n f ≡ replicate n a
  create_from-replicate i zero f a h = refl
  create_from-replicate i (suc n) f a h = rw (h i (omega arith) (omega arith)) (
      ap (λ r. a ∷ r)
        (create_from-replicate (i + 1) n f a (λ j p q. h j (omega arith) (omega arith))))

  pub drop-cons :
      (xs : List A) (i : ℕ) (d : A) → i < length xs → drop i xs ≡ get_or xs i d ∷ drop (suc i) xs
  drop-cons [] i d h = absurd (omega arith)
  drop-cons (x ∷ xs) zero d h = refl
  drop-cons (x ∷ xs) (suc i) d h = drop-cons xs i d (omega arith)

  pub take-nil : (n : ℕ) → take {A = A} n [] ≡ []
  take-nil zero = refl
  take-nil (suc n) = refl

  pub get_or-append_right :
      (xs ys : List A) (i : ℕ) (d : A) → get_or (xs ++ ys) (length xs + i) d ≡ get_or ys i d
  get_or-append_right [] ys i d = ap (λ k. get_or ys k d) (omega arith)
  get_or-append_right (x ∷ xs) ys i d =
      let e : suc (length xs) + i ≡ suc (length xs + i) = omega arith in
      rw e (get_or-append_right xs ys i d)

  pub drop-append_right : (xs ys : List A) (i : ℕ) → drop (length xs + i) (xs ++ ys) ≡ drop i ys
  drop-append_right [] ys i = ap (λ k. drop k ys) (omega arith)
  drop-append_right (x ∷ xs) ys i =
      let e : suc (length xs) + i ≡ suc (length xs + i) = omega arith in
      rw e (drop-append_right xs ys i)

  pub take-append : (xs ys : List A) → take (length xs) (xs ++ ys) ≡ xs
  take-append [] ys = refl
  take-append (x ∷ xs) ys = ap (λ r. x ∷ r) (take-append xs ys)

-- Reading behind a front of known length.
module _ {ℓ} {A : Type ℓ} where
  pub drop_behind : (xs ys : List A) (k i : ℕ) → length xs + i ≡ k → drop k (xs ++ ys) ≡ drop i ys
  drop_behind xs ys k i h = ap (λ m. drop m (xs ++ ys)) (sym h) ∙ drop-append_right xs ys i

  pub take_front : (xs ys : List A) (k : ℕ) → length xs ≡ k → take k (xs ++ ys) ≡ xs
  take_front xs ys k h = ap (λ m. take m (xs ++ ys)) (sym h) ∙ take-append xs ys

  pub take_all : (xs : List A) (k : ℕ) → length xs ≡ k → take k xs ≡ xs
  take_all xs k h = ap (λ m. take m xs) (sym h) ∙ take-length xs

  pub get_behind :
      (xs ys : List A) (k i : ℕ) (d : A) → length xs + i ≡ k → get_or (xs ++ ys) k d ≡ get_or ys i d
  get_behind xs ys k i d h = ap (λ m. get_or (xs ++ ys) m d) (sym h) ∙ get_or-append_right xs ys i d
