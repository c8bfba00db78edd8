-- ===== src/Event/Deadband.antt =====
-- `_generic_deadband` and `_event_deadband` of src/server/events.c.
use mathlib.Core.Option
use open_dax.Base.{
  ℕ, zero, suc, ◌+◌, ◌-◌, ◌*◌, ◌%◌, ◌^◌, Bool, false, not, ◌&&◌, ◌||◌, leb, ◌==◌, if◌then◌else◌,
  drop, Option, none, some, Result, ret, and_then, or_crash,
}
use open_dax.Base.Int.{ℤ, pos, negsuc, signed, ltb_ℤ, equal_ℤ, neg_ℤ, sub_ℕ, ◌+ℤ◌}
use open_dax.Memory.{Block, slice, splice}
use open_dax.Event.{Event, Floats}
use open_dax.Event.Bits.{Verdict, shared, shared_from}
use open_dax.Event.Compare.{Kind, unsigned, by_sign, float32, float64, kind_of, value, item_bytes}

abbrev pub abs : ℤ → ℤ
abs (pos n) = pos n
abs (negsuc n) = pos (suc n)

-- The difference of `_generic_deadband` between words `a` and `b`, in the variable that the branch
-- keeps it in. Words of 4 bytes without a sign are subtracted without one. A difference that
-- overflows an `int` or a `long` is not defined.
unfoldable pub deadband_diff : Kind → ℕ → ℕ → Option ℤ
deadband_diff (unsigned n) a b =
    if n == 4
    then some (pos ((a + 2 ^ 32 - b) % 2 ^ 32))
    else if n == 8
    then some (signed 64 ((a + 2 ^ 64 - b) % 2 ^ 64))
    else some (sub_ℕ a b)
deadband_diff (by_sign n) a b =
    let w = 8 * n in
    let exact = signed w a +ℤ neg_ℤ (signed w b) in
    let kept = signed w ((a + 2 ^ w - b) % 2 ^ w) in
    if leb 4 n && not (equal_ℤ exact kept) then none else some kept
deadband_diff float32 a b = none
deadband_diff float64 a b = none

-- `_generic_deadband` on the words of the old value, the new one and the deadband.
unfoldable pub exceeds : Floats → Kind → ℕ → ℕ → ℕ → Option Bool
unfolding deadband_diff
exceeds floats (unsigned n) a b band =
    Option.map (λ diff. not (ltb_ℤ (abs diff) (pos band))) (deadband_diff (unsigned n) a b)
exceeds floats (by_sign n) a b band =
    Option.map (λ diff. not (ltb_ℤ (abs diff) (signed (8 * n) band)))
      (deadband_diff (by_sign n) a b)
exceeds floats float32 a b band = some (floats.apart32 a b band)
exceeds floats float64 a b band = some (floats.apart64 a b band)

abbrev pub kind_bytes : Kind → ℕ
kind_bytes (unsigned n) = n
kind_bytes (by_sign n) = n
kind_bytes float32 = 4
kind_bytes float64 = 8

-- `_generic_deadband`, on blocks that begin with the values.
unfoldable pub generic_deadband : Floats → Event → Block → Block → Result Bool
unfolding kind_of value exceeds
generic_deadband floats e old new = and_then (or_crash (kind_of e.datatype)) (λ kind.
    let n = kind_bytes kind in
    and_then (value n e.operand) (λ band.
      and_then (value n old)
        (λ a. and_then (value n new) (λ b. or_crash (exceeds floats kind a b band)))))

-- The loop of `_event_deadband`: an item that left its deadband is copied to the test block.
unfoldable pub deadband_loop : Floats → Event → ℕ → ℕ → ℕ → ℕ → Block → Block → Bool → Verdict
unfolding generic_deadband slice splice
deadband_loop floats e inc zero n i test dat hit = ret (hit, test)
deadband_loop floats e inc (suc fuel) n i test dat hit =
    let round = and_then (generic_deadband floats e (drop i test) dat) (λ fires.
      and_then (keep_item fires) (λ test'.
        deadband_loop floats e inc fuel (n - inc) (i + inc) test' (drop inc dat) (hit || fires))) in
    if n == 0 then ret (hit, test) else round
  where
    keep_item : Bool → Result Block
    keep_item fires =
        if fires
        then and_then (or_crash (slice 0 inc dat)) (λ bytes. or_crash (splice i bytes test))
        else ret test

-- `_event_deadband`
unfoldable pub deadband_event : Floats → Event → Block → ℕ → ℕ → Verdict
unfolding deadband_loop
deadband_event floats e dat offset size =
    let len = shared e offset size in
    deadband_loop floats e (item_bytes e.datatype) len len (offset - e.byte) e.test
      (drop (shared_from e offset) dat) false
