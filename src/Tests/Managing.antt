-- ===== src/Tests/Managing.antt =====
-- The theorems on adding and deleting events at a server with one tag.
use open_dax.Base.{ℕ, ◌+◌, ◌<◌, ◌≡◌, refl, [], ◌∷◌, some, false, ok, fault, arith, ret}
use open_dax.Base.Int.{pos}
use open_dax.Memory.{Block}
use open_dax.Types.{dax_byte, is_base}
use open_dax.Event.{Event, event_change, event_write}
use open_dax.Event.Bits.{change}
use open_dax.Server.{Handle, Tag, Server, tag_at}
use open_dax.Cdt.{type_size, type_size_fuel}
use open_dax.Events.{items_size, event_add, with_event}
use open_dax.Events.Del.{event_del}
use open_dax.Events.Adding.{Added, event_add-Added}
use open_dax.Events.Quiet.{event_add-quiet}
use open_dax.Events.Removed.{Deletes, event_del-Deletes}
use open_dax.Events.OfQueue.{event_add-queue}
use open_dax.Tests.Samples.{tag_ab, one_tag, client, writes_heard}

-- Bytes 1 and 2 of the tag.
abbrev middle : Handle
middle = record { index = pos 0; byte = 1; bit = 0; count = 2; size = 2; type = dax_byte }

abbrev changes_heard : Event
changes_heard = record {
  id = 2;
  byte = 1;
  bit = 0;
  count = 2;
  size = 2;
  options = 0;
  datatype = dax_byte;
  eventtype = event_change;
  operand = [];
  test = 2 ∷ 3 ∷ [];
  notify = 9;
}

abbrev two_events : Tag
two_events = record tag_ab { nextevent = 3; events = changes_heard ∷ writes_heard ∷ [] }

abbrev heard : Server
heard = record one_tag {
  db = two_events ∷ [];
  modules = record client { event_count = pos 1 } ∷ [];
}

was_added : event_add middle event_change [] 9 one_tag ≡ ok 2 heard
unfolding event_add type_size type_size_fuel is_base
was_added = refl

two_bytes : items_size 2 (type_size [] dax_byte) ≡ ret (pos 2)
unfolding items_size type_size type_size_fuel is_base
two_bytes = refl

event_add-Added_example :
    (i : ℕ) × (t : Tag) × (middle.index ≡ pos i)
    × (tag_at one_tag (pos i) ≡ some t)
    × Added i middle event_change [] 9 t one_tag 2 heard
event_add-Added_example = event_add-Added middle event_change [] 9 2 one_tag heard was_added

event_add-quiet_example :
    (e : Event) × (tag_at heard (pos 0) ≡ some (with_event tag_ab e))
    × ((offset size : ℕ)
        → offset < e.byte + e.size
        → e.byte < offset + size
        → (noted : Block) × (change e (1 ∷ 2 ∷ 3 ∷ 4 ∷ []) offset size ≡ ret (false, noted)))
event_add-quiet_example =
    event_add-quiet 0 middle [] 9 2 tag_ab (1 ∷ 2 ∷ 3 ∷ 4 ∷ []) one_tag heard refl refl refl refl
      two_bytes was_added

event_del-Deletes_example : Deletes 0 1 9 two_events (event_del (pos 0) 1 9 heard)
event_del-Deletes_example =
    event_del-Deletes 0 1 9 two_events heard refl (omega arith, (omega arith, tt))

-- A queue of bytes.
abbrev queue_tag : Tag
queue_tag = record tag_ab { type = 0x4000_0003 }

event_add-queue_example :
    event_add
      (record { index = pos 0; byte = 0; bit = 0; count = 1; size = 1; type = dax_byte })
      event_write
      []
      9
      (record one_tag { db = queue_tag ∷ [] })
    ≡ fault
event_add-queue_example =
    event_add-queue
      (record { index = pos 0; byte = 0; bit = 0; count = 1; size = 1; type = dax_byte }) [] 9
      queue_tag (record one_tag { db = queue_tag ∷ [] }) refl refl (omega arith) refl
