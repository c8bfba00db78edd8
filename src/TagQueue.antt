-- ===== src/TagQueue.antt =====
-- The queue behind a queue tag: `tag_queue`, `write_queue` and `read_queue` of
-- src/server/virtualtag.c, and `_queue_add` of src/server/tagbase.c. A pointer of the array is NULL,
-- names one of the areas that the queue has allocated, or is what `realloc` left in new memory.
-- The call of `event_check` stands in `Store`.
pub mod Inv
pub mod Fifo
use open_dax.Base.{
  ℕ, zero, suc, ◌+◌, ◌-◌, ◌*◌, ◌%◌, Bool, true, false, not, ◌&&◌, ◌||◌, List, [], ◌∷◌, ◌++◌, Option,
  none, some, ltb, ◌==◌, if◌then◌else◌, length, get_elem?, set, take, drop, replicate, Error,
  Outcome, ok, err, fault,
}
use open_dax.Base.Int.{ℤ, pos, negsuc}

-- A pointer of `q->queue`.
pub data Slot : Type 0 where
  null : Slot
  area : ℕ → Slot
  unset : Slot

-- `tag_queue`; `areas` are the blocks that were allocated for its entries.
pub record TagQueue : Type 0 where
  pub type : ℕ
  pub count : ℕ
  pub size : ℕ
  pub qsize : ℕ
  pub qcount : ℕ
  pub qread : ℕ
  pub queue : List Slot
  pub areas : List (List ℕ)

abbrev pub start_queue_size : ℕ
start_queue_size = 16

-- `_queue_add`, for a tag of that type, number of items and size.
unfoldable pub new_queue : ℕ → ℕ → ℕ → TagQueue
new_queue type count size = record {
  type = type;
  count = count;
  size = size;
  qsize = start_queue_size;
  qcount = 0;
  qread = 0;
  queue = replicate start_queue_size null;
  areas = [];
}

-- The array doubled: `realloc`, then the part before `qread` is copied behind the old end. With
-- `qread` 0 the copy is empty.
unfoldable pub grow : TagQueue → TagQueue
grow q = record q {
  qsize = q.qsize * 2;
  queue = q.queue ++ (take q.qread q.queue ++ replicate (q.qsize - q.qread) unset);
}

-- The entry is written at `next`, into an area that is there or a new one.
unfoldable pub put : TagQueue → ℕ → List ℕ → Option Slot → Outcome TagQueue (Unit {0})
put q next bytes none = fault
put q next bytes (some unset) = fault
put q next bytes (some null) = ok tt (record q {
  queue = set q.queue next (area (length q.areas));
  areas = q.areas ++ (bytes ∷ []);
  qcount = q.qcount + 1;
})
put q next bytes (some (area a)) =
    ok tt (record q { areas = set q.areas a bytes; qcount = q.qcount + 1 })

unfoldable pub put_next : TagQueue → List ℕ → Outcome TagQueue (Unit {0})
unfolding put
put_next q bytes =
    let next = (q.qread + q.qcount) % q.qsize in put q next bytes (get_elem? q.queue next)

-- `offset != 0`
abbrev pub is_zero : ℤ → Bool
is_zero (pos n) = n == 0
is_zero (negsuc n) = false

-- `write_queue`; `bytes` is what `data` points to, `size` long.
unfoldable pub write_queue : TagQueue → ℤ → List ℕ → Outcome TagQueue (Unit {0})
unfolding grow put_next
write_queue q offset bytes =
    if not (is_zero offset) || not (length bytes == q.size)
    then err Error.illegal q
    else if q.qcount == q.qsize
    then put_next (grow q) bytes
    else put_next q bytes

-- The entry at `qread`, whose `q->size` bytes go to the caller.
unfoldable pub take_entry : TagQueue → Option Slot → Option (List ℕ)
take_entry q none = none
take_entry q (some null) = none
take_entry q (some unset) = none
take_entry q (some (area a)) = get_elem? q.areas a

unfoldable pub advance : TagQueue → TagQueue
advance q = record q {
  qread = if q.qread + 1 == q.qsize then 0 else q.qread + 1;
  qcount = q.qcount - 1;
}

-- `read_queue`. It looks at neither the offset nor the size that the caller asks for.
unfoldable pub read_queue : TagQueue → Outcome TagQueue (List ℕ)
unfolding take_entry advance
read_queue q =
    if q.qcount == 0 then err Error.empty q else (elim (take_entry q (get_elem? q.queue q.qread)) [
      | none ↦ fault
      | some bytes ↦ ok bytes (advance q)
    ])
