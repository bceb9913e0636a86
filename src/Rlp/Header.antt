-- ===== src/Rlp/Header.antt =====
-- `decode_header` against the definition of the RLP prefix byte.
use euclid_database.Prelude.{
  ℕ, zero, suc, ◌+◌, ◌-◌, ◌*◌, ◌^◌, ◌≤◌, ◌<◌, ◌≡◌, refl, bit, true, false, List, some, ltb, leb,
  leb→le, get_or, All-get_or, arith, ◌∙◌, if◌then◌else◌, Bool-cases, inl, inr,
}
use euclid_database.Plonky2.{Builder, order}
use euclid_database.Plonky2.Laws.{add_small, sub_small}
use euclid_database.Utils.Compare.{less_than}
use euclid_database.Utils.Compare.Laws.{less_than_lem, less_than_negative, comparisons}
use euclid_database.Utils.Pack.Laws.{IsByte, AllBytes}
use euclid_database.Array.Access.{AllBytes-AllField}
use euclid_database.Rlp.{
  RlpHeader, quin_selector, data_len_round, data_len_loop, data_len, decode_header,
}
use euclid_database.Rlp.Select.{quin_selector_lem}

-- The big-endian length of n bytes of which x and y are the first two: the rest is not read.
abbrev pub be_len : ℕ → ℕ → ℕ → ℕ
be_len zero x y = 0
be_len (suc zero) x y = x
be_len (suc (suc n)) x y = x * 256 + y

-- The five ranges of the prefix byte: a single byte, a short string, a long string, a short list
-- and a long list. The offset of the payload, counted from the prefix.
abbrev pub payload_start : ℕ → ℕ
payload_start p =
    if ltb p 128
    then 0
    else (if ltb p 184
        then 1
        else (if ltb p 192 then p - 182 else (if ltb p 248 then 1 else p - 246)))

abbrev pub payload_len : ℕ → ℕ → ℕ → ℕ
payload_len p x y =
    if ltb p 128
    then 1
    else (if ltb p 184
        then p - 128
        else (if ltb p 192
            then be_len (p - 183) x y
            else (if ltb p 248 then p - 192 else be_len (p - 247) x y)))

abbrev pub header_at : List ℕ → ℕ → RlpHeader
header_at bytes offset =
    let p = get_or bytes offset 0 in
    record {
      len = payload_len p (get_or bytes (offset + 1) 0) (get_or bytes (offset + 2) 0);
      offset = offset + payload_start p;
      data_type = bit (leb 192 p);
    }

pub payload_start-le : (p : ℕ) → p < 256 → payload_start p ≤ 9
payload_start-le p h = ground arith

module _ (b : Builder) where
  round_read :
      (bytes : List ℕ) (n offset i res : ℕ)
      → AllBytes bytes
      → offset < 2 ^ 62
      → i < 2
      → res < 2 ^ 50
      → less_than b i n 8 ≡ some true
      → data_len_round b bytes n offset i res ≡ some (res * 256 + get_or bytes (offset + 1 + i) 0)
  unfolding data_len_round
  round_read bytes n offset i res f small hi hr lt =
      let item : get_or bytes (offset + 1 + i) 0 < 256 =
        All-get_or IsByte bytes (offset + 1 + i) 0 f (omega arith) in
      let place : b.add (b.add i offset) 1 ≡ offset + 1 + i =
        omega (arith, b.add_lem i offset, b.add_lem (b.add i offset) 1) in
      let total = res * 256 + get_or bytes (offset + 1 + i) 0 in
      let q = quin_selector_lem b bytes (offset + 1 + i) (AllBytes-AllField bytes f) in
      let m : b.mul 256 res ≡ res * 256 = omega (arith, b.mul_lem 256 res) in
      let t : b.add (res * 256) (get_or bytes (offset + 1 + i) 0) ≡ total =
        add_small b _ _ (omega arith) in
      let keep : b.mul total 1 ≡ total = omega (arith, b.mul_lem total 1) in
      let drop_ : b.mul 0 res ≡ 0 = omega (arith, b.mul_lem 0 res) in
      let last : b.add total 0 ≡ total = omega (arith, b.add_lem total 0) in
      rw (lt, b.not_bool_lem true, place, q, m, t, keep, drop_, last) refl

  round_skip :
      (bytes : List ℕ) (n offset i res : ℕ)
      → res < 2 ^ 50
      → less_than b i n 8 ≡ some false
      → data_len_round b bytes n offset i res ≡ some res
  unfolding data_len_round
  round_skip bytes n offset i res hr lt =
      let total = b.add (b.mul 256 res) (quin_selector b bytes (b.add (b.add i offset) 1)) in
      let drop_ : b.mul total 0 ≡ 0 = omega (arith, b.mul_lem total 0) in
      let keep : b.mul 1 res ≡ res = omega (arith, b.mul_lem 1 res) in
      let last : b.add 0 res ≡ res = omega (arith, b.add_lem 0 res) in
      rw (lt, b.not_bool_lem false, drop_, keep, last) refl

  -- The number of length bytes is p - c, or less than none.
  counted :
      (p c i : ℕ) → p < 256 → c < 248 → i < 2 → less_than b i (b.sub p c) 8 ≡ some (ltb i (p - c))
  counted p c i hp hc hi = elim (Bool-cases (leb c p)) [
    | inl le ↦ rw (sub_small b p c (leb→le c p le) (omega arith)) (
        less_than_lem b i (p - c) 8 (omega arith) (omega arith) (omega arith) (omega arith)
          (ground arith))
    | inr gt ↦
        let below : p < c = ground arith in
        let e : b.sub p c ≡ order - (c - p) = omega (arith, b.sub_lem p c) in
        rw (e, less_than_negative b i (c - p) 8 (omega arith) (omega arith) (omega arith))
          (ground arith)
  ]

  data_len_counted :
      (bytes : List ℕ) (n k offset : ℕ)
      → AllBytes bytes
      → offset < 2 ^ 62
      → ((i : ℕ) → i < 2 → less_than b i n 8 ≡ some (ltb i k))
      → data_len b bytes n offset
        ≡ some (be_len k (get_or bytes (offset + 1 + 0) 0) (get_or bytes (offset + 1 + 1) 0))
  unfolding data_len data_len_loop
  data_len_counted bytes n zero offset f small h =
      rw
        (
          round_skip bytes n offset 0 0 (omega arith) (h 0 (omega arith)),
          round_skip bytes n offset 1 0 (omega arith) (h 1 (omega arith)),
        )
        refl
  data_len_counted bytes n (suc zero) offset f small h =
      let x = get_or bytes (offset + 1 + 0) 0 in
      let hx : x < 256 = All-get_or IsByte bytes (offset + 1 + 0) 0 f (omega arith) in
      let e : 0 * 256 + x ≡ x = omega arith in
      rw
        (
          round_read bytes n offset 0 0 f small (omega arith) (omega arith) (h 0 (omega arith)),
          e,
          round_skip bytes n offset 1 x (omega arith) (h 1 (omega arith)),
        )
        refl
  data_len_counted bytes n (suc (suc k)) offset f small h =
      let x = get_or bytes (offset + 1 + 0) 0 in
      let hx : x < 256 = All-get_or IsByte bytes (offset + 1 + 0) 0 f (omega arith) in
      let e : 0 * 256 + x ≡ x = omega arith in
      rw
        (
          round_read bytes n offset 0 0 f small (omega arith) (omega arith)
              (h 0 (omega arith) ∙ ground arith),
          e,
          round_read bytes n offset 1 x f small (omega arith) (omega arith)
              (h 1 (omega arith) ∙ ground arith),
        )
        refl

  data_len_lem :
      (bytes : List ℕ) (p c offset : ℕ)
      → AllBytes bytes
      → offset < 2 ^ 62
      → p < 256
      → c < 248
      → data_len b bytes (b.sub p c) offset
        ≡ some (be_len (p - c) (get_or bytes (offset + 1) 0) (get_or bytes (offset + 2) 0))
  data_len_lem bytes p c offset f small hp hc =
      let e : offset + 1 + 0 ≡ offset + 1 = omega arith in
      let e' : offset + 1 + 1 ≡ offset + 2 = omega arith in
      data_len_counted bytes (b.sub p c) (p - c) offset f small (λ i h. counted p c i hp hc h)
      ∙ rw (e, e') refl

  offset_selects :
      (p : ℕ)
      → p < 256
      → b.select (ltb p 128) 0 (
          b.select (ltb p 184) 1 (
            b.select
              (ltb p 192)
              (b.sub (b.add p 1) 183)
              (b.select (ltb p 248) 1 (b.sub (b.add p 1) 247))))
        ≡ payload_start p
  offset_selects p h =
      simp b.select_lem
        (ground (arith, b.sub_lem (b.add p 1) 183, b.sub_lem (b.add p 1) 247, b.add_lem p 1))

  len_selects :
      (p x y : ℕ)
      → p < 256
      → b.select (ltb p 128) 1 (
          b.select (ltb p 184) (b.sub p 128) (
            b.select
              (ltb p 192)
              (be_len (p - 183) x y)
              (b.select (ltb p 248) (b.sub p 192) (be_len (p - 247) x y))))
        ≡ payload_len p x y
  len_selects p x y h = simp b.select_lem (ground (arith, b.sub_lem p 128, b.sub_lem p 192))

  -- On bytes, wherever the offset, the circuit is satisfied and decodes the header that the prefix
  -- byte defines, with the length limited to two bytes.
  pub decode_header_lem :
      (bytes : List ℕ) (offset : ℕ)
      → AllBytes bytes
      → offset < 2 ^ 62
      → decode_header b bytes offset ≡ some (header_at bytes offset)
  unfolding decode_header
  decode_header_lem bytes offset f small =
      let p = get_or bytes offset 0 in
      let hp : p < 256 = All-get_or IsByte bytes offset 0 f (omega arith) in
      let lt = λ (c : ℕ) (h : c < 256). (comparisons b p c 8 (omega arith) hp h).0 in
      rw
        (
          quin_selector_lem b bytes offset (AllBytes-AllField bytes f),
          lt 128 (omega arith),
          lt 184 (omega arith),
          lt 192 (omega arith),
          lt 248 (omega arith),
          data_len_lem bytes p 247 offset f small hp (omega arith),
          data_len_lem bytes p 183 offset f small hp (omega arith),
          (comparisons b p 192 8 (omega arith) hp (omega arith)).3,
          offset_selects p hp,
          len_selects p _ _ hp,
          add_small b offset (payload_start p) (omega (arith, payload_start-le p hp)),
        )
        refl
