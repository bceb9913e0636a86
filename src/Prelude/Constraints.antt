-- ===== src/Prelude/Constraints.antt =====
-- Circuits by their values: a gadget maps the values of its input wires to the values of its
-- output wires, or to `none` where no assignment satisfies the constraints that it adds.
use mathlib.Core.Path.{◌≡◌, refl}
use mathlib.Core.Bool.{Bool, true, false}
use mathlib.Core.Option.{Option, none, some}
use mathlib.Core.List.{List, [], ◌∷◌}

abbrev pub Circuit {ℓ} : Type ℓ → Type ℓ
Circuit A = Option A

infixl 5 ◌>>=◌ ◌>>◌
abbrev pub ◌>>=◌ {ℓ κ} : {A : Type ℓ} {B : Type κ} → Circuit A → (A → Circuit B) → Circuit B
none >>= f = none
some a >>= f = f a

abbrev pub ◌>>◌ {ℓ} : {B : Type ℓ} → Circuit (Unit {0}) → Circuit B → Circuit B
m >> k = m >>= λ _. k

-- A constraint that holds or not.
abbrev pub guard : Bool → Circuit (Unit {0})
guard true = some tt
guard false = none

-- A gadget for each element, in order.
abbrev pub traverse {ℓ κ} : {A : Type ℓ} {B : Type κ} → (A → Circuit B) → List A → Circuit (List B)
traverse f [] = some []
traverse f (x ∷ xs) = f x >>= λ y. traverse f xs >>= λ ys. some (y ∷ ys)

-- Inversion of a satisfied sequence.
pub >>=-eq-some {ℓ κ} :
    {A : Type ℓ} {B : Type κ} (m : Circuit A) (f : A → Circuit B) {y : B}
    → (m >>= f) ≡ some y
    → (a : A) × (m ≡ some a) × (f a ≡ some y)
>>=-eq-some none f h = cc
>>=-eq-some (some a) f h = (a, refl, h)
