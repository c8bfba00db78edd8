-- ===== src/Store.antt =====
-- Reading and writing tags: `tag_get_size`, `tag_read`, `tag_write` and `tag_mask_write` of
-- src/server/tagbase.c, with the hooks of src/server/virtualtag.c and `event_check` of
-- src/server/events.c. What a write is given is a list of bytes, `size` long.
pub mod Notify
pub mod Hooks
pub mod Written
pub mod Roundtrip
pub mod Frame
pub mod Alike
pub mod Untouched
pub mod Spared
pub mod Masking
pub mod Bounds
use open_dax.Base.{
  ℕ, suc, ◌+◌, ◌-◌, ◌*◌, ◌/◌, ◌%◌, ◌^◌, Bool, true, false, not, ◌&&◌, ◌||◌, List, [], ◌∷◌, ◌++◌,
  Option, none, some, length, get_elem?, leb, ltb, ◌==◌, if◌then◌else◌, Error, Outcome, ok, err,
  fault, ◌>>=◌, ◌>>◌, attempt, Result, ret, fail, crash, and_then, or_crash, run,
}
use open_dax.Base.Int.{ℤ, pos, negsuc, pos_part, ◌+ℤ◌, ltb_ℤ, add_overflows, signed}
use open_dax.Base.Bits.{mask_byte}
use open_dax.Memory.{Block, slice_int, splice_int}
use open_dax.Types.{TagType, dax_bool}
use open_dax.Cdt.{Datatype, type_size, u32}
use open_dax.TagQueue.{TagQueue, write_queue}
use open_dax.Event.{Event, Floats}
use open_dax.Server.{
  Output, retained, VirtFunctions, WriteFunction, writes_queue, TagData, null, block, functions,
  Tag, Server, M, has, tag_at, place_of, set_tag, emit, attr_virtual, attr_special, attr_ovr_set,
  attr_retain,
}
use open_dax.Store.Notify.{visible, notify_all}
use open_dax.Store.Hooks.{
  virtual_read, keep_queue, special_tag_read, special_tag_write, special_tag_mask_write,
}

-- The `int` that `type_size` and the count give; ERR_NOTFOUND is -5.
unfoldable pub sized : ℕ → Result ℕ → Result ℤ
sized count (ret n) = ret (signed 32 (u32 (n * count)))
sized count (fail e) = ret (signed 32 (u32 ((2 ^ 32 - 5) * count)))
sized count crash = crash

-- `tag_get_size`
unfoldable pub tag_get_size : List Datatype → Tag → Result ℤ
unfolding sized
tag_get_size dts t =
    if t.type == dax_bool
    then ret (signed 32 (t.count / 8 + 1))
    else sized t.count (type_size dts t.type)

-- `(offset + size) > tag_get_size(idx)`
unfoldable pub check_size : List Datatype → Tag → ℤ → ℕ → Result (Unit {0})
unfolding tag_get_size
check_size dts t offset size =
    if add_overflows offset (pos size)
    then crash
    else and_then (tag_get_size dts t)
        (λ room. if ltb_ℤ room (offset +ℤ pos size) then fail Error.too_big else ret tt)

-- `_db[idx].data`, where it is a block.
unfoldable pub tag_bytes : TagData → Result Block
tag_bytes null = fail Error.deleted
tag_bytes (block b) = ret b
tag_bytes (functions v) = crash

-- The block of a tag that is not virtual, once the size is checked.
unfoldable pub checked_bytes : List Datatype → Tag → ℤ → ℕ → Result Block
unfolding check_size tag_bytes
checked_bytes dts t offset size =
    and_then (check_size dts t offset size) (λ _. tag_bytes t.tag_data)

-- The loops of `tag_read` and `tag_mask_write`: the bits under the mask are new.
unfoldable pub mask_bytes : Block → Block → Block → Result Block
mask_bytes (o ∷ os) (n ∷ ns) (m ∷ ms) =
    and_then (mask_bytes os ns ms) (λ rest. ret (mask_byte o n m ∷ rest))
mask_bytes [] ns ms = ret []
mask_bytes os ns ms = crash

-- The bytes from `offset` on of a pointer that may be NULL.
unfoldable pub part_of : ℤ → ℕ → Option Block → Result Block
part_of offset size none = crash
part_of offset size (some b) = or_crash (slice_int offset (pos size) b)

-- The override that lies over the stored bytes.
unfoldable pub overlay : Tag → ℤ → Block → Result Block
unfolding mask_bytes part_of
overlay t offset stored =
    if has t attr_ovr_set
    then and_then (part_of offset (length stored) t.odata) (λ over.
      and_then (part_of offset (length stored) t.omask) (λ mask. mask_bytes stored over mask))
    else ret stored

unfoldable pub stored_read : List Datatype → Tag → ℤ → ℕ → Result Block
unfolding checked_bytes overlay
stored_read dts t offset size = and_then (checked_bytes dts t offset size) (λ b.
    and_then (or_crash (slice_int offset (pos size) b)) (λ stored.
      and_then (if has t attr_special then special_tag_read else ret tt)
        (λ _. overlay t offset stored)))

-- The work on the tag at an index, once that is known to be in range.
abbrev pub at_tag : {A : Type 0} → Option Tag → (Tag → M A) → M A
at_tag none f s = err Error.arg s
at_tag (some t) f s = f t s

-- The same without the check.
abbrev pub unchecked_tag : {A : Type 0} → Option Tag → (Tag → M A) → M A
unchecked_tag none f s = fault
unchecked_tag (some t) f s = f t s

unfoldable pub read_at : ℤ → ℤ → ℕ → ℤ → Tag → M Block
unfolding stored_read virtual_read
read_at fd offset size idx t s =
    if has t attr_virtual
    then (elim t.tag_data [
      | null ↦ fault
      | block b ↦ fault
      | functions v ↦ virtual_read fd idx t v size v.rf s
    ])
    else run (stored_read s.datatypes t offset size) s

-- `tag_read`: the bytes that it writes to `data`.
unfoldable pub tag_read : ℤ → ℤ → ℤ → ℕ → M Block
unfolding read_at
tag_read fd idx offset size s = at_tag (tag_at s idx) (read_at fd offset size idx) s

-- The tag goes back with the events that were looked at, and what they send goes out.
unfoldable pub noticed :
    Server → ℤ → Tag → Result (List Event × List Output) → Outcome Server (Unit {0})
noticed s idx t (ret (es, out)) = ok tt (emit (set_tag s idx (record t { events = es })) out)
noticed s idx t (fail e) = fault
noticed s idx t crash = fault

-- `ret_tag_write`, for a retained tag.
unfoldable pub retain_write : ℤ → Tag → M (Unit {0})
retain_write idx t s =
    if has t attr_retain then ok tt (emit s (retained (place_of idx) ∷ [])) else ok tt s

-- What the loop of `tag_mask_write` leaves from `offset` on.
unfoldable pub masked_bytes : ℤ → Block → Block → Block → Result Block
unfolding mask_bytes part_of
masked_bytes offset bytes mask old =
    and_then (part_of offset (length bytes) (some old)) (λ here. mask_bytes here bytes mask)

-- The hooks, at the tags that have one.
unfoldable pub write_hook : ℤ → ℤ → Tag → ℤ → ℕ → M (Unit {0})
unfolding special_tag_write
write_hook fd idx t offset size =
    if has t attr_special then special_tag_write fd idx t.type offset size else ok tt

unfoldable pub mask_write_hook : ℤ → ℤ → Tag → ℤ → ℕ → M (Unit {0})
unfolding special_tag_mask_write
mask_write_hook fd idx t offset size =
    if has t attr_special then special_tag_mask_write fd idx t.type offset size else ok tt

module _ (floats : Floats) where
  -- `event_check`, on the tag `t` at `idx`.
  unfoldable pub event_check : ℤ → Tag → ℕ → ℕ → M (Unit {0})
  unfolding noticed notify_all
  event_check idx t offset size s =
      noticed s idx t
        (notify_all floats s.modules (place_of idx) (visible t.tag_data) offset size t.events)

  -- New bytes for a tag, with what follows from them.
  unfoldable pub commit : ℤ → ℤ → ℕ → Tag → Block → M (Unit {0})
  unfolding event_check retain_write
  commit idx offset size t b = do
    event_check idx (record t { tag_data = block b }) (pos_part offset) size
    retain_write idx t

  -- `memcpy(&(_db[idx].data[offset]), data, size)`, and what follows.
  unfoldable pub put_bytes : ℤ → ℤ → Block → Tag → Block → M (Unit {0})
  unfolding commit
  put_bytes idx offset bytes t old = do
    new ← run (or_crash (splice_int offset bytes old))
    commit idx offset (length bytes) t new

  unfoldable pub stored_write : ℤ → ℤ → Block → ℤ → Tag → M (Unit {0})
  unfolding checked_bytes write_hook put_bytes
  stored_write fd offset bytes idx t s =
      (do
        old ← run (checked_bytes s.datatypes t offset (length bytes))
        write_hook fd idx t offset (length bytes)
        put_bytes idx offset bytes t old)
        s

  -- `event_check`, on the tag as it is at `idx`.
  unfoldable pub event_check_at : ℤ → ℕ → ℕ → M (Unit {0})
  unfolding event_check
  event_check_at idx offset size s = elim (tag_at s idx) [
    | none ↦ fault
    | some t ↦ event_check idx t offset size s
  ]

  -- `write_queue` behind its tag, with its call of `event_check`.
  unfoldable pub queue_write : ℤ → Block → ℤ → Tag → VirtFunctions → Option TagQueue → M (Unit {0})
  unfolding write_queue keep_queue event_check_at
  queue_write offset bytes idx t v none s = fault
  queue_write offset bytes idx t v (some q) s =
      elim (keep_queue s idx t v (write_queue q offset bytes)) [
        | ok _ s' ↦ event_check_at idx (pos_part offset) (length bytes) s'
        | err e s' ↦ err e s'
        | fault ↦ fault
      ]

  -- `vf->wf(...)`
  unfoldable pub virtual_write :
      ℤ → Block → ℤ → Tag → VirtFunctions → Option WriteFunction → M (Unit {0})
  unfolding queue_write
  virtual_write offset bytes idx t v none s = err Error.readonly s
  virtual_write offset bytes idx t v (some writes_queue) s =
      queue_write offset bytes idx t v v.userdata s

  unfoldable pub write_at : ℤ → ℤ → Block → ℤ → Tag → M (Unit {0})
  unfolding stored_write virtual_write
  write_at fd offset bytes idx t s =
      if has t attr_virtual
      then (elim t.tag_data [
        | null ↦ fault
        | block b ↦ fault
        | functions v ↦ virtual_write offset bytes idx t v v.wf s
      ])
      else stored_write fd offset bytes idx t s

  -- `tag_write`
  unfoldable pub tag_write : ℤ → ℤ → ℤ → Block → M (Unit {0})
  unfolding write_at
  tag_write fd idx offset bytes s = at_tag (tag_at s idx) (write_at fd offset bytes idx) s

  -- The loop of `tag_mask_write`, and what follows.
  unfoldable pub put_masked : ℤ → ℤ → Block → Block → Tag → Block → M (Unit {0})
  unfolding masked_bytes put_bytes
  put_masked idx offset bytes mask t old = do
    masked ← run (masked_bytes offset bytes mask old)
    put_bytes idx offset masked t old

  unfoldable pub mask_write_at : ℤ → ℤ → Block → Block → ℤ → Tag → M (Unit {0})
  unfolding checked_bytes mask_write_hook put_masked
  mask_write_at fd offset bytes mask idx t s =
      if has t attr_virtual
      then err Error.illegal s
      else (do
        old ← run (checked_bytes s.datatypes t offset (length bytes))
        mask_write_hook fd idx t offset (length bytes)
        put_masked idx offset bytes mask t old)
          s

  -- `tag_mask_write`: it reads the attributes before it looks at the index.
  unfoldable pub tag_mask_write : ℤ → ℤ → ℤ → Block → Block → M (Unit {0})
  unfolding mask_write_at
  tag_mask_write fd idx offset bytes mask s =
      unchecked_tag (tag_at s idx) (mask_write_at fd offset bytes mask idx) s
