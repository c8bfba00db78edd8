-- ===== src/Store/Hooks.antt =====
-- The hooks of src/server/virtualtag.c: the reads of virtual tags, and the checks on special tags.
use open_dax.Base.{
  ℕ, ◌+◌, ◌-◌, ◌/◌, ◌%◌, max, not, ◌&&◌, ◌||◌, [], ◌∷◌, ◌++◌, Option, none, some, length, get_elem?,
  take, replicate, ltb, ◌==◌, if◌then◌else◌, Error, Outcome, ok, err, fault, ◌>>=◌, Result, ret,
  fail, and_then, crash, or_crash, run, zero, suc,
}
use open_dax.Base.Int.{ℤ, pos, equal_ℤ, ltb_ℤ}
use open_dax.Memory.{Block}
use open_dax.Text.{CString}
use open_dax.Types.{TagType}
use open_dax.TagQueue.{TagQueue, read_queue}
use open_dax.Server.{
  ReadFunction, reads_time, reads_tag_name, reads_queue, VirtFunctions, null, block, functions,
  Module, Tag, Server, M, set_tag,
}
use open_dax.Server.Find.{module_find_fd}

-- The lowest `n` bytes of a number, as they stand in memory.
unfoldable pub memory_of : ℕ → ℕ → Block
memory_of zero v = []
memory_of (suc n) v = v % 256 ∷ memory_of n (v / 256)

-- `server_time`: `size` bytes from a value of eight.
unfoldable pub server_time : ℕ → ℕ → Result Block
unfolding memory_of
server_time clock size = if ltb 8 size then crash else ret (take size (memory_of 8 clock))

-- The name with its NUL, after at least DAX_TAGNAME_SIZE zeros were written.
abbrev pub name_field : CString → Block
name_field name = name ++ replicate (max 32 (length name + 1) - length name) 0

-- The name in the entry of a tag, as `tag_get_index` finds it.
unfoldable pub entry_name : Option Tag → Result CString
entry_name none = fail Error.arg
entry_name (some t) = elim t.tag_data [
  | null ↦ fail Error.deleted
  | block b ↦ or_crash t.name
  | functions v ↦ or_crash t.name
]

unfoldable pub module_name : Option Module → Server → Result Block
unfolding entry_name
module_name none s = fail Error.notfound
module_name (some m) s =
    if m.tagindex == 0
    then fail Error.notfound
    else and_then (entry_name (get_elem? s.db m.tagindex)) (λ name. ret (name_field name))

-- `get_module_tag_name`: the bytes that it writes to `data`.
unfoldable pub get_module_tag_name : ℤ → M Block
unfolding module_find_fd module_name
get_module_tag_name fd s = (do m ← module_find_fd fd; λ s'. run (module_name m s') s') s

-- The queue goes back to its tag.
unfoldable pub keep_queue :
    {A : Type 0} → Server → ℤ → Tag → VirtFunctions → Outcome TagQueue A → Outcome Server A
keep_queue s idx t v (ok a q) =
    ok a (set_tag s idx (record t { tag_data = functions (record v { userdata = some q }) }))
keep_queue s idx t v (err e q) =
    err e (set_tag s idx (record t { tag_data = functions (record v { userdata = some q }) }))
keep_queue s idx t v fault = fault

-- `vf->rf(...)`: the bytes that the function writes to `data`.
unfoldable pub virtual_read : ℤ → ℤ → Tag → VirtFunctions → ℕ → Option ReadFunction → M Block
unfolding server_time get_module_tag_name keep_queue
virtual_read fd idx t v size none s = err Error.writeonly s
virtual_read fd idx t v size (some reads_time) s = run (server_time s.clock size) s
virtual_read fd idx t v size (some reads_tag_name) s = get_module_tag_name fd s
virtual_read fd idx t v size (some reads_queue) s = elim v.userdata [
  | none ↦ fault
  | some q ↦ keep_queue s idx t v (read_queue q)
]

-- A module tag is written by its own module, and not before place 12.
unfoldable pub owner_writes : ℤ → ℤ → Option Module → Result (Unit {0})
owner_writes idx offset none = fail Error.notfound
owner_writes idx offset (some m) =
    if not (equal_ℤ (pos m.tagindex) idx) || ltb_ℤ offset (pos 12)
    then fail Error.readonly
    else ret tt

-- `special_tag_read`
abbrev pub special_tag_read : Result (Unit {0})
special_tag_read = ret tt

-- `special_tag_write`: everybody writes the byte of the command bits.
unfoldable pub special_tag_write : ℤ → ℤ → TagType → ℤ → ℕ → M (Unit {0})
unfolding module_find_fd owner_writes
special_tag_write fd idx type offset size s =
    if not (type == s.module_tag_type) || (equal_ℤ offset (pos 77) && size == 1)
    then ok tt s
    else (do m ← module_find_fd fd; run (owner_writes idx offset m)) s

-- `special_tag_mask_write`
unfoldable pub special_tag_mask_write : ℤ → ℤ → TagType → ℤ → ℕ → M (Unit {0})
unfolding module_find_fd owner_writes
special_tag_mask_write fd idx type offset size s =
    if not (type == s.module_tag_type) || (equal_ℤ offset (pos 77) && size == 1)
    then ok tt s
    else (do m ← module_find_fd fd; run (owner_writes idx offset m)) s
