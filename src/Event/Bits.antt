-- ===== src/Event/Bits.antt =====
-- The tests of src/server/events.c that look at single bits and bytes: `_event_change`,
-- `_event_set` and `_event_reset`. A test returns whether the event fires, and the new `test` block.
use open_dax.Base.{
  ℕ, zero, suc, ◌+◌, ◌-◌, min, max, Bool, true, false, not, ◌&&◌, ◌||◌, ◌==◌, if◌then◌else◌, set,
  drop, Result, ret, and_then,
}
use open_dax.Base.Int.{pos_part, signed}
use open_dax.Base.Bits.{test_bit, set_bit, clear_bit}
use open_dax.Memory.{Block, byte_at}
use open_dax.Types.{dax_bool}
use open_dax.Event.{Event}

abbrev pub Verdict : Type 0
Verdict = Result (Bool × Block)

-- The rounds of a loop up to a count, which is an `int`: none for a negative one.
abbrev pub rounds : ℕ → ℕ
rounds count = pos_part (signed 32 count)

-- A loop over the bits of an event, from bit `bit` of byte `i` on: `f` takes the byte of the test
-- block, that of the data and the bit, and gives whether the event fires and the new test byte.
unfoldable pub bit_loop : (ℕ → ℕ → ℕ → Bool × ℕ) → ℕ → ℕ → ℕ → Block → Block → Bool → Verdict
bit_loop f zero i bit test dat hit = ret (hit, test)
bit_loop f (suc n) i bit test dat hit = and_then (byte_at test i) (λ x.
    and_then (byte_at dat i) (λ y.
      let (fires, x') = f x y bit in
      let wraps = bit + 1 == 8 in
      bit_loop f n (if wraps then i + 1 else i) (if wraps then 0 else bit + 1) (set test i x') dat
        (hit || fires)))

-- The loop body of `_event_change` on a BOOL: a bit that differs copies its byte.
unfoldable pub change_bit : ℕ → ℕ → ℕ → Bool × ℕ
change_bit x y k =
    if (test_bit x k && not (test_bit y k)) || (not (test_bit x k) && test_bit y k)
    then (true, y)
    else (false, x)

-- The flag at bit `k` of a test byte: set when the condition holds, cleared when it does not. The
-- event fires when the flag goes up.
unfoldable pub mark : Bool → ℕ → ℕ → Bool × ℕ
unfolding set_bit clear_bit
mark holds x k =
    if holds
    then (if test_bit x k then (false, x) else (true, set_bit x k))
    else (false, clear_bit x k)

-- The loop body of `_event_set`.
unfoldable pub set_test : ℕ → ℕ → ℕ → Bool × ℕ
unfolding mark
set_test x y k = mark (test_bit y k) x k

-- The loop body of `_event_reset`.
unfoldable pub reset_test : ℕ → ℕ → ℕ → Bool × ℕ
unfolding mark
reset_test x y k = mark (not (test_bit y k)) x k

-- The loop of `_event_change` on the other types: `n` bytes from `i` of the test block and from `j`
-- of the data on.
unfoldable pub change_loop : ℕ → ℕ → ℕ → Block → Block → Bool → Verdict
change_loop zero i j test dat hit = ret (hit, test)
change_loop (suc n) i j test dat hit = and_then (byte_at test i) (λ x.
    and_then (byte_at dat j) (λ y.
      change_loop n (i + 1) (j + 1) (if x == y then test else set test i y) dat
        (hit || not (x == y))))

-- The first byte of the data that a write at `offset` and the event share, and how many they share.
abbrev pub shared_from : Event → ℕ → ℕ
shared_from e offset = max offset e.byte

abbrev pub shared : Event → ℕ → ℕ → ℕ
shared e offset size = min (e.byte + e.size) (offset + size) - max offset e.byte

-- `_event_change`. Its loop over bits reads the data from the event's byte on.
unfoldable pub change : Event → Block → ℕ → ℕ → Verdict
unfolding bit_loop change_bit change_loop
change e dat offset size =
    if e.datatype == dax_bool
    then bit_loop change_bit (rounds e.count) 0 e.bit e.test (drop e.byte dat) false
    else change_loop (shared e offset size) (offset - e.byte) (shared_from e offset) e.test dat
        false

-- `_event_set` and `_event_reset`
unfoldable pub set_or_reset : (ℕ → ℕ → ℕ → Bool × ℕ) → Event → Block → Verdict
unfolding bit_loop
set_or_reset f e dat = bit_loop f (rounds e.count) 0 e.bit e.test (drop e.byte dat) false
