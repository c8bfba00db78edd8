-- ===== src/Event/Hit.antt =====
-- `_event_hit` of src/server/events.c: whether a write fires an event.
use open_dax.Base.{ℕ, true, false, ◌==◌, if◌then◌else◌, Ordering, ret}
use open_dax.Memory.{Block}
use open_dax.Event.{
  Event, Floats, event_write, event_change, event_set, event_reset, event_equal, event_greater,
  event_less, event_deadband,
}
use open_dax.Event.Bits.{Verdict, change, set_or_reset, set_test, reset_test}
use open_dax.Event.Compare.{compare_event}
use open_dax.Event.Deadband.{deadband_event}

-- `_event_hit`
unfoldable pub event_hit : Floats → Event → Block → ℕ → ℕ → Verdict
unfolding change set_or_reset set_test reset_test compare_event deadband_event
event_hit floats e dat offset size =
    let t = e.eventtype in
    if t == event_write
    then ret (true, e.test)
    else if t == event_change
    then change e dat offset size
    else if t == event_set
    then set_or_reset set_test e dat
    else if t == event_reset
    then set_or_reset reset_test e dat
    else if t == event_equal
    then compare_event floats e dat offset size Ordering.eq
    else if t == event_greater
    then compare_event floats e dat offset size Ordering.lt
    else if t == event_less
    then compare_event floats e dat offset size Ordering.gt
    else if t == event_deadband
    then deadband_event floats e dat offset size
    else ret (false, e.test)
