-- ===== src/Event/Compare.antt =====
-- `_generic_compare` and `_event_compare` of src/server/events.c.
use open_dax.Base.{
  ℕ, zero, suc, ◌+◌, ◌-◌, ◌*◌, ◌/◌, ◌%◌, Bool, true, false, ◌||◌, ◌==◌, if◌then◌else◌, set, drop,
  Ordering, Option, none, some, ret, Result, and_then, or_crash,
}
use open_dax.Base.Int.{ℤ, pos, signed, ltb_ℤ}
use open_dax.Memory.{Block, byte_at, slice, little_endian}
use open_dax.Types.{
  TagType, dax_byte, dax_sint, dax_char, dax_word, dax_int, dax_uint, dax_dword, dax_dint,
  dax_udint, dax_real, dax_lword, dax_lint, dax_ulint, dax_time, dax_lreal, typesize,
}
use open_dax.Event.{Event, Floats}
use open_dax.Event.Bits.{Verdict, mark, shared, shared_from}

-- How the branches of `_generic_compare` and `_generic_deadband` read a value of a type.
pub data Kind : Type 0 where
  unsigned : ℕ → Kind
  by_sign : ℕ → Kind
  float32 : Kind
  float64 : Kind

-- The `case` labels of both, with the bytes that they read.
unfoldable pub kind_of : TagType → Option Kind
kind_of t =
    if t == dax_byte
    then some (unsigned 1)
    else if t == dax_sint || t == dax_char
    then some (by_sign 1)
    else if t == dax_uint || t == dax_word
    then some (unsigned 2)
    else if t == dax_int
    then some (by_sign 2)
    else if t == dax_udint || t == dax_dword || t == dax_time
    then some (unsigned 4)
    else if t == dax_dint
    then some (by_sign 4)
    else if t == dax_ulint || t == dax_lword
    then some (unsigned 8)
    else if t == dax_lint
    then some (by_sign 8)
    else if t == dax_real
    then some float32
    else if t == dax_lreal
    then some float64
    else none

-- The value that `n` bytes at the front of a block stand for.
unfoldable pub value : ℕ → Block → Result ℕ
unfolding slice little_endian
value n block = and_then (or_crash (slice 0 n block)) (λ bytes. ret (little_endian bytes))

unfoldable pub order_ℤ : ℤ → ℤ → Ordering
order_ℤ a b = if ltb_ℤ a b then Ordering.lt else if ltb_ℤ b a then Ordering.gt else Ordering.eq

unfoldable pub order_float : (ℕ → ℕ → Bool) → ℕ → ℕ → Ordering
order_float less a b =
    if less a b then Ordering.lt else if less b a then Ordering.gt else Ordering.eq

unfoldable pub value_order : Floats → Kind → Block → Block → Result Ordering
unfolding value order_ℤ order_float
value_order floats (unsigned n) a b =
    and_then (value n a) (λ x. and_then (value n b) (λ y. ret (order_ℤ (pos x) (pos y))))
value_order floats (by_sign n) a b =
    and_then (value n a)
      (λ x. and_then (value n b) (λ y. ret (order_ℤ (signed (8 * n) x) (signed (8 * n) y))))
value_order floats float32 a b =
    and_then (value 4 a) (λ x. and_then (value 4 b) (λ y. ret (order_float floats.less32 x y)))
value_order floats float64 a b =
    and_then (value 8 a) (λ x. and_then (value 8 b) (λ y. ret (order_float floats.less64 x y)))

-- `_generic_compare`. A type without a case fails an `assert`.
unfoldable pub generic_compare : Floats → TagType → Block → Block → Result Ordering
unfolding kind_of value_order
generic_compare floats t a b = and_then (or_crash (kind_of t)) (λ kind. value_order floats kind a b)

unfoldable pub same_order : Ordering → Ordering → Bool
same_order Ordering.lt Ordering.lt = true
same_order Ordering.eq Ordering.eq = true
same_order Ordering.gt Ordering.gt = true
same_order _ _ = false

-- The loop of `_event_compare`: `n` is the bytes that are left, `inc` those of an item, `bit` the
-- item's bit in the test block, and `dat` begins with the item. A round takes a byte off at least.
unfoldable pub compare_loop :
    (Block → Result Ordering) → Ordering → ℕ → ℕ → ℕ → ℕ → Block → Block → Bool → Verdict
unfolding mark same_order
compare_loop order wanted inc zero n bit test dat hit = ret (hit, test)
compare_loop order wanted inc (suc fuel) n bit test dat hit =
    let i = bit / 8 in
    let round = and_then (order dat) (λ o. and_then (byte_at test i) (λ x.
      let (fires, x') = mark (same_order o wanted) x (bit % 8) in
      compare_loop order wanted inc fuel (n - inc) (bit + 1) (set test i x') (drop inc dat)
        (hit || fires))) in
    if n == 0 then ret (hit, test) else round

-- The size of a base type in bytes.
abbrev pub item_bytes : TagType → ℕ
item_bytes t = typesize t / 8

-- `_event_compare`; `wanted` is the order of the operand and an item.
unfoldable pub compare_event : Floats → Event → Block → ℕ → ℕ → Ordering → Verdict
unfolding generic_compare compare_loop
compare_event floats e dat offset size wanted =
    let len = shared e offset size in
    let inc = item_bytes e.datatype in
    compare_loop (generic_compare floats e.datatype e.operand) wanted inc len len
      ((offset - e.byte) / inc) e.test (drop (shared_from e offset) dat) false
