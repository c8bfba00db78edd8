-- ===== src/Events.antt =====
-- Adding events: `event_add` of src/server/events.c, with `_verify_event_type` and `_set_event_data`.
-- The events of a tag are a list, the newest first.
pub mod Del
pub mod Numbered
pub mod Removed
pub mod Adding
pub mod Quiet
pub mod OfQueue
use open_dax.Base.{
  ℕ, zero, suc, ◌+◌, ◌-◌, ◌*◌, ◌/◌, ◌%◌, ◌^◌, Bool, true, false, not, ◌&&◌, ◌||◌, List, [], ◌∷◌,
  ◌++◌, Option, none, some, length, replicate, leb, ltb, ◌==◌, if◌then◌else◌, Error, Outcome, ok,
  err, fault, ◌>>=◌, ◌>>◌, Result, ret, fail, crash, and_then, or_crash, or_fail, run,
}
use open_dax.Base.Int.{ℤ, pos, negsuc, ◌+ℤ◌, neg_ℤ, mul_ℤ, is_no_int, signed}
use open_dax.Base.Bits.{set_bit}
use open_dax.Base.Attrs.{clear_attr}
use open_dax.Memory.{Block, slice}
use open_dax.Types.{TagType, dax_bool, dax_real, dax_lreal, dax_custom, is_queue}
use open_dax.Cdt.{Datatype, type_size, u32}
use open_dax.Event.{
  Event, event_write, event_change, event_set, event_reset, event_equal, event_greater, event_less,
  event_deadband,
}
use open_dax.Server.{Handle, Module, Tag, Server, M, has, tag_at, set_tag, attr_virtual, attr_event}
use open_dax.Store.{at_tag, sized, tag_get_size}
use open_dax.Store.Notify.{visible}

-- `_verify_event_type`: 0 or not.
unfoldable pub verify_event_type : TagType → ℕ → Bool
verify_event_type ttype etype =
    if etype == event_write || etype == event_change
    then true
    else if etype == event_set || etype == event_reset
    then ttype == dax_bool
    else if etype == event_equal
    then not
        (ttype == dax_real || (ttype == dax_lreal || (ttype == dax_bool || leb dax_custom ttype)))
    else not (ttype == dax_bool || leb dax_custom ttype)

-- An `int` where it meets an unsigned number.
abbrev pub as_word : ℤ → ℕ
as_word (pos n) = n
as_word (negsuc n) = 2 ^ 32 - suc n

-- `(count - 1)/8 + 1`, where `count` is an `int`, and a quotient goes towards 0.
unfoldable pub flag_bytes : ℤ → Result ℤ
flag_bytes (pos zero) = ret (pos 1)
flag_bytes (pos (suc n)) = ret (pos (n / 8 + 1))
flag_bytes (negsuc n) =
    if leb (2 ^ 31 - 1) n then crash else ret (pos 1 +ℤ neg_ℤ (pos ((n + 2) / 8)))

-- `type_size(...) * count`, a product of two `int`s; ERR_NOTFOUND is -5.
abbrev pub int_product : ℤ → ℤ → Result ℤ
int_product a b = if is_no_int (mul_ℤ a b) then crash else ret (mul_ℤ a b)

unfoldable pub items_size : ℕ → Result ℕ → Result ℤ
items_size count (ret n) = int_product (signed 32 n) (signed 32 count)
items_size count (fail e) = int_product (negsuc 4) (signed 32 count)
items_size count crash = crash

-- The bytes that `bzero` clears, of a block that was allocated for them; with a negative size it is
-- not defined.
unfoldable pub zeroed : ℤ → Result Block
zeroed (pos n) = ret (replicate n 0)
zeroed (negsuc n) = crash

-- The number of bytes of a copy; one of a negative size is not defined.
unfoldable pub copied_bytes : ℤ → ℕ → Block → Result Block
unfolding slice
copied_bytes (pos n) byte b = or_crash (slice byte n b)
copied_bytes (negsuc n) byte b = crash

-- `_set_event_data`: what the event keeps as its `data` and as its `test`. `sent` is what stands behind the handle in the message, `dat` the tag's bytes.
unfoldable pub set_event_data : List Datatype → Event → Block → Block → Result (Block × Block)
unfolding sized items_size flag_bytes copied_bytes zeroed
set_event_data dts e sent dat =
    if e.eventtype == event_deadband
    then and_then (sized 1 (type_size dts e.datatype)) (λ size.
      and_then (items_size e.count (type_size dts e.datatype)) (λ testsize.
        and_then (copied_bytes size 0 sent)
          (λ operand. and_then (copied_bytes testsize e.byte dat) (λ test. ret (operand, test)))))
    else if e.eventtype == event_change
    then and_then
        (if e.datatype == dax_bool
          then flag_bytes (signed 32 e.count)
          else items_size e.count (type_size dts e.datatype))
        (λ testsize. and_then (copied_bytes testsize e.byte dat) (λ test. ret ([], test)))
    else if e.eventtype == event_set || e.eventtype == event_reset
    then and_then (flag_bytes (signed 32 e.count))
        (λ testsize. and_then (zeroed testsize) (λ test. ret ([], test)))
    else if e.eventtype == event_equal
        || (e.eventtype == event_greater || e.eventtype == event_less)
    then and_then (sized 1 (type_size dts e.datatype)) (λ size.
      and_then (flag_bytes (signed 32 e.count)) (λ testsize.
        and_then (copied_bytes size 0 sent)
          (λ operand. and_then (zeroed testsize) (λ test. ret (operand, test)))))
    else ret ([], [])

-- A queue has write events of the whole tag only. The size is asked for with the type as the index
-- of a tag.
unfoldable pub check_queue : Server → Handle → ℕ → Tag → Result (Unit {0})
unfolding tag_get_size
check_queue s h etype t =
    if is_queue t.type
    then (if not (h.byte == 0) || not (etype == event_write)
        then fail Error.illegal
        else and_then (or_crash (tag_at s (signed 32 t.type))) (λ other.
          and_then (tag_get_size s.datatypes other) (λ size.
            if h.size == as_word size * t.count % 2 ^ 32 then ret tt else fail Error.illegal)))
    else ret tt

-- The checks of `event_add`.
unfoldable pub check_event : Server → Handle → ℕ → Tag → Result (Unit {0})
unfolding check_queue tag_get_size verify_event_type
check_event s h etype t =
    if has t attr_virtual && not (is_queue t.type)
    then fail Error.illegal
    else and_then (check_queue s h etype t) (λ _. and_then (tag_get_size s.datatypes t) (λ room.
      if ltb (as_word room) ((h.byte + h.size) % 2 ^ 32)
      then fail Error.too_big
      else if verify_event_type h.type etype
      then ret tt
      else fail Error.arg))

abbrev pub new_event : Handle → ℕ → Tag → ℕ → Event
new_event h etype t notify = record {
  id = t.nextevent;
  byte = h.byte;
  bit = h.bit;
  count = h.count;
  size = h.size;
  options = 0;
  datatype = h.type;
  eventtype = etype;
  operand = [];
  test = [];
  notify = notify;
}

-- `module->event_count`, changed by one.
unfoldable pub recount : ℕ → ℤ → List Module → List Module
recount id d [] = []
recount id d (m ∷ ms) =
    if m.id == id then record m { event_count = m.event_count +ℤ d } ∷ ms else m ∷ recount id d ms

-- The attributes of a tag that had these events.
abbrev pub attr_before : ℕ → List Event → ℕ
attr_before attr [] = set_bit attr attr_event
attr_before attr (e ∷ es) = attr

-- The event goes to the front of the tag's list.
abbrev pub with_event : Tag → Event → Tag
with_event t e = record t {
  nextevent = t.nextevent + 1;
  events = e ∷ t.events;
  attr = attr_before t.attr t.events;
}

unfoldable pub add_event : Handle → ℕ → ℕ → Tag → Block × Block → M ℕ
unfolding recount
add_event h etype notify t (operand, test) s =
    let e = record (new_event h etype t notify) { operand = operand; test = test } in
    let s' = set_tag s h.index (with_event t e) in
    ok t.nextevent (record s' { modules = recount notify (pos 1) s'.modules })

-- `event_add`; `notify` is the module.
unfoldable pub event_add : Handle → ℕ → Block → ℕ → M ℕ
unfolding check_event set_event_data add_event
event_add h etype sent notify s =
    at_tag (tag_at s h.index)
      (λ t s.
        (do
          run (check_event s h etype t)
          kept ←
              run
                (set_event_data s.datatypes (new_event h etype t notify) sent (visible t.tag_data))
          add_event h etype notify t kept)
          s)
      s
