-- ===== src/Rlp/Encode.antt =====
-- The RLP encoding, as its specification defines it, and that the circuit decodes it.
use mathlib.Core.List.{append_assoc}
use native.Mathlib.Nat.{add-zero}
use euclid_database.Prelude.{
  ℕ, ◌+◌, ◌/◌, ◌%◌, ◌^◌, ◌<◌, ◌≡◌, refl, Bool, true, false, List, [], ◌∷◌, ◌++◌, some, ltb, leb,
  length, get_or, take, drop, arith, ap, ◌∙◌, sym, if◌then◌else◌, bit, get_or-append_right,
  drop-append_right, take-append, length-append, Bool-cases, inl, inr,
}
use euclid_database.Plonky2.{Builder}
use euclid_database.Utils.Pack.Laws.{AllBytes}
use euclid_database.Rlp.{RlpHeader, decode_header}
use euclid_database.Rlp.Header.{header_at, payload_start, payload_len, decode_header_lem}

-- The header of a payload of n bytes: 128 is the base for strings, and 192 for lists.
unfoldable pub head_bytes : ℕ → ℕ → List ℕ
head_bytes base n =
    if ltb n 56
    then (base + n) ∷ []
    else (if ltb n 256 then (base + 56) ∷ n ∷ [] else (base + 57) ∷ (n / 256) ∷ (n % 256) ∷ [])

-- Whether a string is one byte below 128, which stands for itself.
unfoldable pub stands_for_itself : List ℕ → Bool
stands_for_itself [] = false
stands_for_itself (c ∷ []) = ltb c 128
stands_for_itself (c ∷ d ∷ s) = false

-- The encoding of a string, or of a list whose items are encoded one after the other.
pub data Item : Type 0 where
  string : List ℕ → Item
  list : List ℕ → Item

abbrev pub payload : Item → List ℕ
payload (string s) = s
payload (list s) = s

unfoldable pub head : Item → List ℕ
unfolding head_bytes stands_for_itself
head (string s) = if stands_for_itself s then [] else head_bytes 128 (length s)
head (list s) = head_bytes 192 (length s)

unfoldable pub encode : Item → List ℕ
unfolding head
encode t = head t ++ payload t

abbrev pub kind : Item → ℕ
kind (string s) = 0
kind (list s) = 1

-- What the first three bytes say: where the payload starts, how long it is, and of which type.
abbrev Describes : ℕ → ℕ → List ℕ → Type 0
Describes k n xs =
    (payload_len (get_or xs 0 0) (get_or xs 1 0) (get_or xs 2 0) ≡ n)
    × (bit (leb 192 (get_or xs 0 0)) ≡ k)

head_bytes_lem :
    (n : ℕ) (rest : List ℕ)
    → n < 65536
    → (payload_start (get_or (head_bytes 128 n ++ rest) 0 0) ≡ length (head_bytes 128 n))
      × Describes 0 n (head_bytes 128 n ++ rest)
      × (payload_start (get_or (head_bytes 192 n ++ rest) 0 0) ≡ length (head_bytes 192 n))
      × Describes 1 n (head_bytes 192 n ++ rest)
unfolding head_bytes
head_bytes_lem n rest h = elim (Bool-cases (ltb n 56)) [
  | inl short ↦
      rw short
        (ground arith, (ground arith, ground arith), ground arith, (ground arith, ground arith))
  | inr long ↦ elim (Bool-cases (ltb n 256)) [
    | inl one ↦ rw (long, one) (refl, (refl, refl), refl, (refl, refl))
    | inr two ↦ rw (long, two) (refl, (omega arith, refl), refl, (omega arith, refl))
  ]
]

-- The encoding of an item says where its payload starts, how long it is and of which type.
encode_lem :
    (t : Item) (rest : List ℕ)
    → length (payload t) < 65536
    → (payload_start (get_or (encode t ++ rest) 0 0) ≡ length (head t))
      × Describes (kind t) (length (payload t)) (encode t ++ rest)
unfolding encode head stands_for_itself
encode_lem (list s) rest h =
    rw (append_assoc (head_bytes 192 (length s)) s rest)
      (let l = head_bytes_lem (length s) (s ++ rest) h in (l.2, l.3))
encode_lem (string s) rest h = elim (Bool-cases (stands_for_itself s)) [
  | inl single ↦ rw single (single_lem s rest single)
  | inr other ↦
      rw (other, append_assoc (head_bytes 128 (length s)) s rest)
        (let l = head_bytes_lem (length s) (s ++ rest) h in (l.0, l.1))
]
  where
    single_lem :
        (s rest : List ℕ)
        → stands_for_itself s ≡ true
        → (payload_start (get_or (s ++ rest) 0 0) ≡ 0) × Describes 0 (length s) (s ++ rest)
    single_lem [] rest e = cc
    single_lem (c ∷ []) rest e = (ground arith, (ground arith, ground arith))
    single_lem (c ∷ d ∷ s) rest e = cc

-- The slice that a header describes.
abbrev pub slice_of : List ℕ → RlpHeader → List ℕ
slice_of bytes h = take h.len (drop h.offset bytes)

header_at-append :
    (pre xs : List ℕ)
    → header_at (pre ++ xs) (length pre) ≡ record {
      len = payload_len (get_or xs 0 0) (get_or xs 1 0) (get_or xs 2 0);
      offset = length pre + payload_start (get_or xs 0 0);
      data_type = bit (leb 192 (get_or xs 0 0));
    }
header_at-append pre xs =
    let e : get_or (pre ++ xs) (length pre) 0 ≡ get_or xs 0 0 =
      ap (λ k. get_or (pre ++ xs) k 0) (sym (add-zero (length pre)))
      ∙ get_or-append_right pre xs 0 0 in
    rw (e, get_or-append_right pre xs 1 0, get_or-append_right pre xs 2 0) refl

-- The header of an item behind `pre`.
abbrev pub header_of : List ℕ → Item → RlpHeader
header_of pre t = record {
  len = length (payload t);
  offset = length pre + length (head t);
  data_type = kind t;
}

pub length-encode : (t : Item) → length (encode t) ≡ length (head t) + length (payload t)
unfolding encode
length-encode t = length-append (head t) (payload t)

slice_of-header_of :
    (pre post : List ℕ) (t : Item)
    → slice_of (pre ++ (encode t ++ post)) (header_of pre t) ≡ payload t
unfolding encode
slice_of-header_of pre post t =
    let e : drop (length (head t)) (head t ++ (payload t ++ post)) ≡ payload t ++ post =
      ap (λ k. drop k (head t ++ (payload t ++ post))) (sym (add-zero (length (head t))))
      ∙ drop-append_right (head t) (payload t ++ post) 0 in
    rw
      (
        drop-append_right pre (head t ++ payload t ++ post) (length (head t)),
        append_assoc (head t) (payload t) post,
        e,
      )
      (take-append (payload t) post)

module _ (b : Builder) where
  -- The decoded header, written out.
  pub decode_header-encode-at :
      (pre post : List ℕ) (t : Item)
      → AllBytes (pre ++ (encode t ++ post))
      → length pre < 2 ^ 62
      → length (payload t) < 65536
      → decode_header b (pre ++ (encode t ++ post)) (length pre) ≡ some (header_of pre t)
  decode_header-encode-at pre post t f small h =
      let (start, describes) = encode_lem t post h in
      decode_header_lem b (pre ++ (encode t ++ post)) (length pre) f small
      ∙ ap some
          (header_at-append pre (encode t ++ post) ∙ rw (start, describes.0, describes.1) refl)

  -- An item that stands anywhere in bytes is decoded: the header gives its type and its length, the
  -- slice that it describes is the item's payload, and it ends where the item ends.
  pub decode_header-encode :
      (pre post : List ℕ) (t : Item)
      → AllBytes (pre ++ (encode t ++ post))
      → length pre < 2 ^ 62
      → length (payload t) < 65536
      → (h : RlpHeader) × (decode_header b (pre ++ (encode t ++ post)) (length pre) ≡ some h)
        × (h.data_type ≡ kind t)
        × (h.len ≡ length (payload t))
        × (slice_of (pre ++ (encode t ++ post)) h ≡ payload t)
        × (h.offset + h.len ≡ length pre + length (encode t))
  decode_header-encode pre post t f small h = (
    header_of pre t,
    decode_header-encode-at pre post t f small h,
    refl,
    refl,
    slice_of-header_of pre post t,
    omega (arith, length-encode t),
  )
