-- ===== src/Store/Notify.antt =====
-- `event_check` and `_send_event` of src/server/events.c.
use Prim.Native.Nat.{bit_or}
use open_dax.Base.{
  ℕ, ◌+◌, ◌-◌, ◌/◌, ◌%◌, ◌^◌, Bool, ◌&&◌, List, [], ◌∷◌, ◌++◌, leb, ltb, ◌==◌, if◌then◌else◌,
  Result, ret, crash, and_then, or_crash,
}
use open_dax.Base.Int.{ℤ, pos, signed, ltb_ℤ}
use open_dax.Base.Bits.{test_bit}
use open_dax.Memory.{Block, slice}
use open_dax.Event.{Event, Floats, event_deleted}
use open_dax.Event.Hit.{event_hit}
use open_dax.Server.{Module, TagData, null, block, functions, Output, sent}

abbrev pub dax_msgmax : ℕ
dax_msgmax = 4096

-- `htonl`: the four bytes of a word, the highest first.
abbrev pub big_endian32 : ℕ → Block
big_endian32 n = n / 2 ^ 24 % 256 ∷ n / 2 ^ 16 % 256 ∷ n / 2 ^ 8 % 256 ∷ n % 256 ∷ []

-- `event->notify->fd`, where the module is still there.
unfoldable pub fd_of : ℕ → List Module → Result ℤ
fd_of id [] = crash
fd_of id (m ∷ ms) = if m.id == id then ret m.fd else fd_of id ms

-- EVENT_OPT_SEND_DATA is bit 0.
abbrev pub sends_data : Event → Bool
sends_data e = test_bit e.options 0

-- The bytes that events see. Those of a virtual tag are its function pointers, which no event is
-- to look at.
abbrev pub visible : TagData → Block
visible null = []
visible (block b) = b
visible (functions v) = []

-- The data of the event, if the module asked for it. A message has room for 16 bytes less than its
-- size; what does not fit is written behind its end.
unfoldable pub event_payload : Event → Block → Result Block
unfolding slice
event_payload e dat =
    if sends_data e
    then (if ltb dax_msgmax (e.size + 16) then crash else or_crash (slice e.byte e.size dat))
    else ret []

-- `_send_event`: one message, or none if it is too long.
unfoldable pub send_event : List Module → ℕ → Block → Event → Result (List Output)
unfolding event_payload fd_of
send_event modules idx dat e =
    if sends_data e && ltb dax_msgmax ((e.size + 16) % 2 ^ 32)
    then ret []
    else and_then (event_payload e dat) (λ payload. and_then (fd_of e.notify modules) (λ fd. ret (
        sent fd (
          big_endian32 ((if sends_data e then e.size else 0) + 8)
          ++ (big_endian32 (bit_or 0x8000_0000 e.eventtype)
              ++ (big_endian32 idx ++ (big_endian32 e.id ++ payload))))
        ∷ [])))

-- Whether the event's range and the `size` bytes at `offset` meet. The first sum is one of 32 bits
-- without a sign; the second, as the event's byte, is an `int`.
unfoldable pub meets : Event → ℕ → ℕ → Bool
meets e offset size =
    leb offset ((e.byte + e.size + (2 ^ 32 - 1)) % 2 ^ 32)
    && ltb_ℤ (signed 32 e.byte) (pos (offset + size))

module _ (floats : Floats) (modules : List Module) (idx : ℕ) (dat : Block) where
  -- One round of `event_check`.
  unfoldable pub notify_one : ℕ → ℕ → Event → Result (Event × List Output)
  unfolding meets event_hit send_event
  notify_one offset size e =
      if meets e offset size
      then and_then (event_hit floats e dat offset size) (λ (fires, test).
        and_then (if fires then send_event modules idx dat e else ret [])
          (λ out. ret (record e { test = test }, out)))
      else ret (e, [])

  -- The loop of `event_check` over the tag's events.
  unfoldable pub notify_all : ℕ → ℕ → List Event → Result (List Event × List Output)
  unfolding notify_one
  notify_all offset size [] = ret ([], [])
  notify_all offset size (e ∷ es) = and_then (notify_one offset size e) (λ (e', out).
      and_then (notify_all offset size es) (λ (es', out'). ret (e' ∷ es', out ++ out')))

  -- The loop of `event_del_check`.
  unfoldable pub notify_deleted : List Event → Result (List Output)
  unfolding send_event
  notify_deleted [] = ret []
  notify_deleted (e ∷ es) =
      and_then (if e.eventtype == event_deleted then send_event modules idx dat e else ret [])
        (λ out. and_then (notify_deleted es) (λ out'. ret (out ++ out')))
