-- ===== src/Plonky2/Poseidon.antt =====
-- plonky2's Poseidon hash: its sponge, and the hash of a list of wires. A `HashOutTarget` is the list
-- of its four elements.
use euclid_database.Prelude.{
  ℕ, ◌≡◌, refl, Bool, true, false, List, [], ◌∷◌, ◌++◌, length, take, drop, arith, if◌then◌else◌,
  create_array, get_or,
}

-- `NUM_HASH_OUT_ELTS`
abbrev pub num_hash_out_elts : ℕ
num_hash_out_elts = 4

-- The two halves of eight wires, exchanged if the flag is set.
abbrev pub swapped : Bool → List ℕ → List ℕ → List ℕ
swapped swap left right = if swap then right ++ left else left ++ right

pub record Poseidon : Type 1 where
  pub State : Type 0
  -- `P::new(repeat(zero))`, `set_from_slice(chunk, 0)`, `permute_swapped` and `squeeze`.
  pub new : State
  pub set_from_slice : State → List ℕ → State
  pub permute_swapped : State → Bool → State
  pub squeeze : State → List ℕ
  -- `P::RATE` wires are absorbed and squeezed at a time.
  pub rate : ℕ
  pub rate_lem : rate ≡ 8
  pub length-squeeze : (s : State) → length (squeeze s) ≡ 8
  -- `hash_n_to_hash_no_pad`
  pub hash_no_pad : List ℕ → List ℕ
  pub length-hash : (xs : List ℕ) → length (hash_no_pad xs) ≡ 4
  -- One absorption of two hashes is the hash of the two, in the order that the flag says.
  pub permute_lem :
      (left right : List ℕ) (swap : Bool)
      → length left ≡ 4
      → length right ≡ 4
      → take 4 (squeeze (permute_swapped (set_from_slice new (left ++ right)) swap))
        ≡ hash_no_pad (swapped swap left right)

-- A hash that meets the laws, for runs: the first four wires.
abbrev pub first_four : List ℕ → List ℕ
first_four xs = create_array 4 λ i. get_or xs i 0

-- A state is the absorbed wires.
abbrev pub exchanged : List ℕ → Bool → List ℕ
exchanged xs swap = swapped swap (take 4 xs) (drop 4 xs)

four_items :
    (xs : List ℕ)
    → length xs ≡ 4
    → (w : ℕ) × (x : ℕ) × (y : ℕ) × (z : ℕ) × (xs ≡ w ∷ x ∷ y ∷ z ∷ [])
four_items [] h = absurd (omega arith)
four_items (w ∷ []) h = absurd (omega arith)
four_items (w ∷ x ∷ []) h = absurd (omega arith)
four_items (w ∷ x ∷ y ∷ []) h = absurd (omega arith)
four_items (w ∷ x ∷ y ∷ z ∷ []) h = (w, x, y, z, refl)
four_items (w ∷ x ∷ y ∷ z ∷ u ∷ xs) h = absurd (omega arith)

pub permutes :
    (left right : List ℕ) (swap : Bool)
    → length left ≡ 4
    → length right ≡ 4
    → take 4 (create_array 8 λ i. get_or (exchanged (left ++ right) swap) i 0)
      ≡ first_four (swapped swap left right)
permutes left right swap h k =
    let (w, x, y, z, e) = four_items left h in
    let (w', x', y', z', e') = four_items right k in rw (e, e') (both swap w x y z w' x' y' z')
  where
    both :
        (swap : Bool) (w x y z w' x' y' z' : ℕ)
        → take 4 (
            create_array 8
              λ i. get_or (exchanged (w ∷ x ∷ y ∷ z ∷ w' ∷ x' ∷ y' ∷ z' ∷ []) swap) i 0)
          ≡ first_four (swapped swap (w ∷ x ∷ y ∷ z ∷ []) (w' ∷ x' ∷ y' ∷ z' ∷ []))
    both true w x y z w' x' y' z' = refl
    both false w x y z w' x' y' z' = refl

abbrev pub reference_poseidon : Poseidon
reference_poseidon = record {
  State = List ℕ;
  new = [];
  set_from_slice = λ s xs. xs;
  permute_swapped = exchanged;
  squeeze = λ s. create_array 8 λ i. get_or s i 0;
  rate = 8;
  rate_lem = refl;
  length-squeeze = λ s. refl;
  hash_no_pad = first_four;
  length-hash = λ xs. refl;
  permute_lem = permutes;
}
