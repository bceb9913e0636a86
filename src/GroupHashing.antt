-- ===== src/GroupHashing.antt =====
-- mrp2-utils/src/group_hashing (mod.rs, curve_add.rs): sums of points of a curve, and their comparison.
-- The map to the curve and the addition of two points are arithmetic of plonky2_ecgfp5, parameters
-- in a record of operations.
pub mod Points
use euclid_database.Prelude.{
  ℕ, ◌≡◌, refl, replicate, Bool, false, List, [], ◌∷◌, ◌++◌, Circuit, ◌>>=◌, ◌>>◌, some, none,
  length, take, get_or, bit,
}
use euclid_database.Plonky2.{Builder}
use euclid_database.Array.{enforce_equal}

-- A point is given by its eleven wires.
pub record Group : Type 0 where
  pub map_to_curve_point : List ℕ → List ℕ
  pub length-map_to_curve_point : (xs : List ℕ) → length (map_to_curve_point xs) ≡ 11
  -- `add_curve_point` of two points.
  pub add_curve_point : List ℕ → List ℕ → List ℕ
  pub length-add_curve_point : (x y : List ℕ) → length (add_curve_point x y) ≡ 11

-- Points that meet the laws, for runs.
abbrev pub constant_group : Group
constant_group = record {
  map_to_curve_point = λ xs. replicate 10 1 ++ 0 ∷ [];
  length-map_to_curve_point = λ xs. refl;
  add_curve_point = λ x y. replicate 10 2 ++ 0 ∷ [];
  length-add_curve_point = λ x y. refl;
}

-- `add_curve_target`: the points are added from the left, and there is one at least.
unfoldable pub add_loop : Group → List ℕ → List (List ℕ) → List ℕ
add_loop g acc [] = acc
add_loop g acc (point ∷ inputs) = add_loop g (g.add_curve_point acc point) inputs

unfoldable pub add_curve_target : Group → List (List ℕ) → Circuit (List ℕ)
add_curve_target g [] = none
add_curve_target g (point ∷ inputs) = some (add_loop g point inputs)

-- `connect_curve_points`: the two coordinates are equal, and none of the points is infinity.
unfoldable pub connect_curve_points : Builder → List ℕ → List ℕ → Circuit (Unit {0})
connect_curve_points b x y = do
  enforce_equal b (take 10 x) (take 10 y)
  b.connect (get_or x 10 0) (bit false)
  b.connect (get_or y 10 0) (bit false)
