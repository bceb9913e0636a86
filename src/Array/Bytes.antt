-- ===== src/Array/Bytes.antt =====
-- `assert_bytes`: the wires are bytes.
use euclid_database.Prelude.{
  ℕ, ◌<◌, ◌≡◌, ◌↔◌, refl, false, List, [], ◌∷◌, some, ltb, ltb→lt, Bool-cases, inl, inr, arith,
}
use euclid_database.Plonky2.{Builder}
use euclid_database.Utils.Pack.Laws.{AllBytes}
use euclid_database.Array.{assert_bytes}
use euclid_database.Array.Access.{AllField}

module _ (b : Builder) where
  -- On elements of the field, the assertion holds exactly for bytes.
  pub assert_bytes_iff : (xs : List ℕ) → AllField xs → (assert_bytes b xs ≡ some tt) ↔ AllBytes xs
  unfolding assert_bytes
  assert_bytes_iff [] f = ((λ e. tt), λ h. refl)
  assert_bytes_iff (x ∷ xs) f =
      let ih = assert_bytes_iff xs f.1 in
      elim (Bool-cases (ltb x 256)) [
        | inl small ↦
            rw (b.range_check_lem x 8 f.0, small)
              ((λ e. (ltb→lt x 256 small, ih.0 e)), λ h. ih.1 h.1)
        | inr large ↦
            rw (b.range_check_lem x 8 f.0, large)
              ((λ e. cc), λ h. absurd (omega (arith, not_below x h.0 large)))
      ]
    where
      not_below : (x : ℕ) → x < 256 → ltb x 256 ≡ false → ⊥
      not_below x h e = ground arith
