-- ===== src/Groups/Decoding.antt =====
-- `group_add` reads the handles of its message within it.
use open_dax.Base.{
  ℕ, zero, suc, ◌+◌, ◌*◌, ◌%◌, ◌^◌, ◌≤◌, ◌≡◌, ◌≢◌, ap, ltb, if◌then◌else◌, Bool-cases, inl, inr,
  List, ◌∷◌, length, take, drop, Error, Result, ret, fail, crash, and_then, or_crash, arith,
  get_elem?-of_lt,
}
use open_dax.Base.Int.{signed}
use open_dax.Memory.{Block, little_endian}
use open_dax.Memory.Copies.{slice-inside}
use open_dax.Server.{Handle}
use open_dax.Groups.{msg_tag_group_data_size, field, handle_at, decode}

module _ (block : Block) where
  field_inside :
      (offset size : ℕ) → offset + size ≤ length block → (v : ℕ) × (field offset size block ≡ ret v)
  unfolding field
  field_inside offset size h = (
    little_endian (take size (drop offset block)),
    ap (λ o. and_then (or_crash o) (λ bytes. ret (little_endian bytes)))
        (slice-inside offset size block h),
  )

  handle_at_inside :
      (offset : ℕ) → offset + 21 ≤ length block → (h : Handle) × (handle_at block offset ≡ ret h)
  unfolding handle_at
  handle_at_inside offset h =
      let (index, e₁) = field_inside offset 4 (omega arith) in
      let (byte, e₂) = field_inside (offset + 4) 4 (omega arith) in
      let (bit, e₃) = get_elem?-of_lt block (offset + 8) (omega arith) in
      let (count, e₄) = field_inside (offset + 9) 4 (omega arith) in
      let (size, e₅) = field_inside (offset + 13) 4 (omega arith) in
      let (type, e₆) = field_inside (offset + 17) 4 (omega arith) in
      (
        record {
          index = signed 32 index;
          byte = byte;
          bit = bit;
          count = count;
          size = size;
          type = type;
        },
        λ i. and_then (e₁ i) (λ index. and_then (e₂ i) (λ byte. and_then (or_crash (e₃ i)) (λ bit.
            and_then (e₄ i) (λ count. and_then (e₅ i) (λ size. and_then (e₆ i) (λ type.
              ret (record {
                index = signed 32 index;
                byte = byte;
                bit = bit;
                count = count;
                size = size;
                type = type;
              }))))))),
      )

  cons_total :
      (h : Handle) (r : Result (List Handle)) → r ≢ crash → and_then r (λ hs. ret (h ∷ hs)) ≢ crash
  cons_total h (ret hs) ne e = cc
  cons_total h (fail x) ne e = cc
  cons_total h crash ne e = ne e

  pub decode_total : (k n total : ℕ) → 21 * (n + k) ≤ length block → decode block n k total ≢ crash
  unfolding decode
  decode_total zero n total room e = cc
  decode_total (suc k) n total room e =
      let (h, eh) = handle_at_inside (21 * n) (omega arith) in
      let sum = (total + h.size) % 2 ^ 32 in
      let rest = decode block (n + 1) k sum in
      let e' : (if ltb msg_tag_group_data_size sum
            then fail Error.too_big
            else and_then rest (λ hs. ret (h ∷ hs)))
          ≡ crash =
        rw eh at e in
      elim (Bool-cases (ltb msg_tag_group_data_size sum)) [
        | inl t ↦ let e'' : fail Error.too_big ≡ crash = rw t at e' in cc
        | inr f ↦ cons_total h rest (decode_total k (n + 1) sum (omega arith)) (rw f at e')
      ]
