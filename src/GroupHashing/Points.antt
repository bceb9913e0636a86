-- ===== src/GroupHashing/Points.antt =====
-- Points by their wires.
use euclid_database.Prelude.{
  ℕ, ◌≡◌, ◌↔◌, List, [], ◌∷◌, some, length, take, get_or, length-take, arith, >>=-eq-some,
}
use euclid_database.Plonky2.{Builder}
use euclid_database.Plonky2.Laws.{connect_eq, connect_same}
use euclid_database.Array.{enforce_equal}
use euclid_database.Array.Slices.{enforce_equal_iff}
use euclid_database.GroupHashing.{Group, add_loop, connect_curve_points}

pub add_loop-IsPoint :
    (g : Group) (acc : List ℕ) (points : List (List ℕ))
    → length acc ≡ 11
    → length (add_loop g acc points) ≡ 11
unfolding add_loop
add_loop-IsPoint g acc [] h = h
add_loop-IsPoint g acc (x ∷ points) h =
    add_loop-IsPoint g (g.add_curve_point acc x) points (g.length-add_curve_point acc x)

-- Two points are connected if their coordinates are equal and none is infinity.
pub connect_curve_points_iff :
    (b : Builder) (x y : List ℕ)
    → length x ≡ 11
    → length y ≡ 11
    → (connect_curve_points b x y ≡ some tt)
      ↔ ((take 10 x ≡ take 10 y) × (get_or x 10 0 ≡ 0) × (get_or y 10 0 ≡ 0))
unfolding connect_curve_points
connect_curve_points_iff b x y h k =
    let same =
      enforce_equal_iff b (take 10 x) (take 10 y)
        (omega (arith, length-take 10 x, length-take 10 y)) in
    (
      (λ e.
          let (u, e1, r1) = >>=-eq-some (enforce_equal b (take 10 x) (take 10 y)) _ e in
          let (v, e2, r2) = >>=-eq-some (b.connect (get_or x 10 0) 0) _ r1 in
          (same.0 e1, connect_eq b (get_or x 10 0) 0 e2, connect_eq b (get_or y 10 0) 0 r2)),
      λ (e, f, g).
          rw (same.1 e, connect_same b (get_or x 10 0) 0 f) (connect_same b (get_or y 10 0) 0 g),
    )
