-- ===== src/Event.antt =====
-- The events of a tag, `_dax_event` of src/server/tagbase.h, and when a write fires them:
-- `_event_hit` and what it calls in src/server/events.c.
-- `byte + size` of an event is below 2 ^ 31 (`event_add` sees to it, but for sums that wrap), so
-- that the sums and differences below are those of the code.
pub mod Bits
pub mod Compare
pub mod Deadband
pub mod Hit
pub mod Changed
pub mod Flags
use open_dax.Base.{ℕ, List, Bool, Option}
use open_dax.Memory.{Block}
use open_dax.Types.{TagType}

abbrev pub event_write : ℕ
event_write = 0x02

abbrev pub event_change : ℕ
event_change = 0x03

abbrev pub event_set : ℕ
event_set = 0x04

abbrev pub event_reset : ℕ
event_reset = 0x05

abbrev pub event_equal : ℕ
event_equal = 0x06

abbrev pub event_greater : ℕ
event_greater = 0x07

abbrev pub event_less : ℕ
event_less = 0x08

abbrev pub event_deadband : ℕ
event_deadband = 0x09

abbrev pub event_deleted : ℕ
event_deleted = 0x0a

-- `_dax_event`. `operand` is its `data`, empty for NULL, and so is `test`. `notify` identifies a
-- module.
pub record Event : Type 0 where
  pub id : ℕ
  pub byte : ℕ
  pub bit : ℕ
  pub count : ℕ
  pub size : ℕ
  pub options : ℕ
  pub datatype : TagType
  pub eventtype : ℕ
  pub operand : Block
  pub test : Block
  pub notify : ℕ

-- C's arithmetic on `float` and `double`, on their bit patterns: `a < b`, and whether the distance
-- of `a` and `b` is at least `c`.
pub record Floats : Type 0 where
  pub less32 : ℕ → ℕ → Bool
  pub less64 : ℕ → ℕ → Bool
  pub apart32 : ℕ → ℕ → ℕ → Bool
  pub apart64 : ℕ → ℕ → ℕ → Bool
