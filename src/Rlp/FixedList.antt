-- ===== src/Rlp/FixedList.antt =====
-- `decode_fixed_list` on the encoding of a list.
use mathlib.Core.List.{append_assoc}
use euclid_database.Prelude.{
  ℕ, zero, suc, ◌+◌, ◌^◌, ◌≤◌, ◌<◌, ◌≡◌, refl, true, false, List, [], ◌∷◌, ◌++◌, some, length,
  arith, ap, ◌∙◌, sym, subst, min, length-append, replicate, length-replicate, ◌==◌,
}
use native.Mathlib.Nat.{add-zero}
use euclid_database.Plonky2.{Builder}
use euclid_database.Plonky2.Laws.{add_small, sub_small}
use euclid_database.Utils.Pack.Laws.{AllBytes}
use euclid_database.Rlp.{RlpHeader, decode_header, fixed_list_loop, header_list, decode_fixed_list}
use euclid_database.Rlp.Header.{header_at, decode_header_lem}
use euclid_database.Rlp.Encode.{
  Item, string, list, payload, head, encode, header_of, length-encode, head_bytes,
  decode_header-encode-at,
}

-- Items one after the other.
abbrev pub encode_all : List Item → List ℕ
encode_all [] = []
encode_all (t ∷ ts) = encode t ++ encode_all ts

-- The headers of the first n items behind `pre`.
abbrev pub headers_of : ℕ → List ℕ → List Item → List RlpHeader
headers_of zero pre ts = []
headers_of (suc n) pre [] = []
headers_of (suc n) pre (t ∷ ts) = header_of pre t ∷ headers_of n (pre ++ encode t) ts

length-head_bytes : (base n : ℕ) → 0 < length (head_bytes base n)
unfolding head_bytes
length-head_bytes base n = ground arith

-- No item has an empty encoding.
encode_pos : (t : Item) → 0 < length (head t) + length (payload t)
unfolding head
encode_pos (list s) = omega (arith, length-head_bytes 192 (length s))
encode_pos (string []) = omega (arith, length-head_bytes 128 0)
encode_pos (string (c ∷ s)) = omega arith

encode_list : (s post : List ℕ) → encode (list s) ++ post ≡ head (list s) ++ (s ++ post)
unfolding encode
encode_list s post = append_assoc (head (list s)) s post

differ : (i j : ℕ) → i < j → (i == j) ≡ false
differ i j h = ground arith

pub length-headers_of :
    (n : ℕ) (pre : List ℕ) (ts : List Item) → length (headers_of n pre ts) ≡ min n (length ts)
length-headers_of zero pre ts = omega arith
length-headers_of (suc n) pre [] = omega arith
length-headers_of (suc n) pre (t ∷ ts) = omega (arith, length-headers_of n (pre ++ encode t) ts)

module _ (b : Builder) where
  -- Behind the end the offset and the count stay.
  loop_past :
      (bytes : List ℕ) (end n num : ℕ)
      → AllBytes bytes
      → end < 2 ^ 62
      → num < 2 ^ 62
      → fixed_list_loop b bytes end n end num ≡ some (replicate n (header_at bytes end), num)
  unfolding fixed_list_loop
  loop_past bytes end zero num f small hn = refl
  loop_past bytes end (suc n) num f small hn =
      let e : b.is_equal end end ≡ true = b.is_equal_lem end end ∙ ground arith in
      let h = header_at bytes end in
      let stay : b.mul_add 0 (b.sub (b.add h.offset h.len) end) end ≡ end =
        omega (arith, b.mul_add_lem 0 (b.sub (b.add h.offset h.len) end) end) in
      let same_num : b.add num 0 ≡ num = omega (arith, b.add_lem num 0) in
      rw
        (
          e,
          b.not_bool_lem true,
          decode_header_lem b bytes end f small,
          stay,
          same_num,
          loop_past bytes end n num f small hn,
        )
        refl

  -- The decoder's state behind the item: the offset is the item's end.
  next_offset :
      (pre : List ℕ) (t : Item)
      → length pre + length (encode t) < 2 ^ 61
      → b.mul_add 1
          (b.sub (b.add (header_of pre t).offset (header_of pre t).len) (length pre))
          (length pre)
        ≡ length (pre ++ encode t)
  next_offset pre t small =
      let n = length (head t) + length (payload t) in
      let e : length (encode t) ≡ n = length-encode t in
      let s : b.add (header_of pre t).offset (header_of pre t).len ≡ length pre + n =
        add_small b _ _ (omega arith) ∙ omega arith in
      let d : b.sub (length pre + n) (length pre) ≡ n =
        sub_small b _ _ (omega arith) (omega arith) ∙ omega arith in
      rw (s, d) (b.mul_add_lem 1 n (length pre) ∙ omega (arith, length-append pre (encode t)))

  loop_items :
      (n : ℕ) (pre post : List ℕ) (ts : List Item) (bytes : List ℕ) (end num : ℕ)
      → bytes ≡ pre ++ (encode_all ts ++ post)
      → end ≡ length pre + length (encode_all ts)
      → AllBytes bytes
      → length bytes < 2 ^ 61
      → length (encode_all ts) < 65536
      → num + n < 2 ^ 61
      → (extra : List RlpHeader) × (fixed_list_loop b bytes end n (length pre) num
          ≡ some (headers_of n pre ts ++ extra, num + length (headers_of n pre ts)))
        × (length (headers_of n pre ts) + length extra ≡ n)
  unfolding fixed_list_loop
  loop_items zero pre post ts bytes end num e stop f small short hn =
      ([], rw (add-zero num) refl, refl)
  loop_items (suc n) pre post [] bytes end num e stop f small short hn =
      let q : length pre ≡ end = omega arith in
      let fits : length pre ≤ length bytes = omega (arith, ap length e, length-append pre post) in
      (
        replicate (suc n) (header_at bytes end),
        rw (q, add-zero num) (loop_past bytes end (suc n) num f (omega arith) (omega arith)),
        omega (arith, length-replicate n (header_at bytes end)),
      )
  loop_items (suc n) pre post (t ∷ ts) bytes end num e stop f small short hn =
      let e2 : bytes ≡ pre ++ (encode t ++ (encode_all ts ++ post)) =
        e ∙ ap (λ r. pre ++ r) (append_assoc (encode t) (encode_all ts) post) in
      let e3 : bytes ≡ (pre ++ encode t) ++ (encode_all ts ++ post) =
        e2 ∙ sym (append_assoc pre (encode t) (encode_all ts ++ post)) in
      let total : length (encode_all (t ∷ ts)) ≡ length (encode t) + length (encode_all ts) =
        length-append (encode t) (encode_all ts) in
      let whole : length bytes ≡ length pre + (length (encode t) + length (encode_all ts ++ post)) =
        ap length e2
        ∙ length-append pre _
        ∙ ap (λ k. length pre + k) (length-append (encode t) _) in
      let dec : decode_header b bytes (length pre) ≡ some (header_of pre t) =
        subst (λ w. AllBytes w → decode_header b w (length pre) ≡ some (header_of pre t)) (sym e2)
          (λ g.
            decode_header-encode-at b pre (encode_all ts ++ post) t g (omega arith)
              (omega (arith, length-encode t)))
          f in
      let before : b.is_equal (length pre) end ≡ false =
        b.is_equal_lem (length pre) end
        ∙ differ (length pre) end (omega (arith, length-encode t, encode_pos t)) in
      let (extra, run, len) =
        loop_items n (pre ++ encode t) post ts bytes end (num + 1) e3
          (omega (arith, length-append pre (encode t))) f small (omega arith) (omega arith) in
      (
        extra,
        rw
            (
              dec,
              before,
              b.not_bool_lem false,
              next_offset pre t (omega arith),
              add_small b num 1 (omega arith),
              run,
            )
            (ap (λ k. some (header_of pre t ∷ (headers_of n (pre ++ encode t) ts ++ extra), k))
              (omega arith)),
        omega arith,
      )

  -- The list's items are decoded in order, as many as there are rounds; the count is that of the
  -- items seen, and the headers behind the last item are not counted.
  pub decode_fixed_list-encode :
      (n : ℕ) (pre post : List ℕ) (ts : List Item)
      → AllBytes (pre ++ (encode (list (encode_all ts)) ++ post))
      → length (pre ++ (encode (list (encode_all ts)) ++ post)) < 2 ^ 61
      → length (encode_all ts) < 65536
      → n < 2 ^ 60
      → (extra : List RlpHeader) × (decode_fixed_list b n
            (pre ++ (encode (list (encode_all ts)) ++ post))
            (length pre)
          ≡ some (
              header_list
                (headers_of n (pre ++ head (list (encode_all ts))) ts ++ extra, min n (length ts))))
        × (min n (length ts) + length extra ≡ n)
  unfolding decode_fixed_list
  decode_fixed_list-encode n pre post ts f small short hn =
      let all = encode_all ts in
      let l = list all in
      let bytes = pre ++ (encode l ++ post) in
      let size : length bytes ≡ length pre + (length (head l) + length all + length post) =
        length-append pre (encode l ++ post)
        ∙ ap (λ k. length pre + k)
            (length-append (encode l) post ∙ ap (λ k. k + length post) (length-encode l)) in
      let start : length pre + length (head l) ≡ length (pre ++ head l) =
        sym (length-append pre (head l)) in
      let e : bytes ≡ (pre ++ head l) ++ (all ++ post) =
        ap (λ r. pre ++ r) (encode_list all post) ∙ sym (append_assoc pre (head l) (all ++ post)) in
      let (extra, run, len) =
        loop_items n (pre ++ head l) post ts bytes (length (pre ++ head l) + length all) 0 e refl f
          small short (omega arith) in
      let count = length-headers_of n (pre ++ head l) ts in
      (
        extra,
        rw
            (
              decode_header-encode-at b pre post l f (omega arith) short,
              start,
              add_small b (length (pre ++ head l)) (length all) (omega arith),
              run,
            )
            (ap (λ k. some (header_list (headers_of n (pre ++ head l) ts ++ extra, k)))
              (omega arith)),
        omega arith,
      )
