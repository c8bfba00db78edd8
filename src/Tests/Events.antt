-- ===== src/Tests/Events.antt =====
-- The theorems on events at events of two bytes and of ten bits.
use open_dax.Base.{[], ◌∷◌, refl, arith, false, drop}
use open_dax.Memory.{Block}
use open_dax.Types.{dax_bool, dax_byte}
use open_dax.Event.{Event, event_change, event_set}
use open_dax.Event.Bits.{change, set_or_reset, set_test, reset_test}
use open_dax.Event.Changed.{NotedBy, change-Noted}
use open_dax.Event.Flags.{Flagged, bit_is_set, bit_is_clear, set_or_reset-Flagged}

-- Two bytes from 1 on, of which 5 and 6 were noted.
abbrev byte_event : Event
byte_event = record {
  id = 1;
  byte = 1;
  bit = 0;
  count = 2;
  size = 2;
  options = 0;
  datatype = dax_byte;
  eventtype = event_change;
  operand = [];
  test = 5 ∷ 6 ∷ [];
  notify = 0;
}

abbrev four_bytes : Block
four_bytes = 9 ∷ 5 ∷ 7 ∷ 8 ∷ []

change-Noted_example : NotedBy byte_event four_bytes 2 2 (change byte_event four_bytes 2 2)
change-Noted_example =
    change-Noted byte_event four_bytes 2 2 refl (omega arith) (omega arith) (omega arith)
      (omega arith)

-- Ten bits from bit 3 of byte 1 on.
abbrev bit_event : Event
bit_event = record {
  id = 2;
  byte = 1;
  bit = 3;
  count = 10;
  size = 2;
  options = 0;
  datatype = dax_bool;
  eventtype = event_set;
  operand = [];
  test = 0 ∷ 0x10 ∷ [];
  notify = 0;
}

set_or_reset-Flagged_example :
    Flagged bit_is_set 10 3
      (0 ∷ 0x10 ∷ [])
      (drop 1 four_bytes)
      false
      (set_or_reset set_test bit_event four_bytes)
    × Flagged bit_is_clear 10 3
        (0 ∷ 0x10 ∷ [])
        (drop 1 four_bytes)
        false
        (set_or_reset reset_test bit_event four_bytes)
set_or_reset-Flagged_example =
    set_or_reset-Flagged bit_event four_bytes (omega arith) (omega arith) (omega arith)
