-- ===== src/Tagbase.antt =====
-- The tag database of src/server/tagbase.c: what `tag_add`, `tag_del` and the functions that look a
-- tag up share. Allocation does not fail. What C reads from memory that nobody wrote is a
-- parameter.
pub mod Add
pub mod Del
pub mod Override
pub mod Lookup
pub mod Names
pub mod Adding
pub mod Added
pub mod Deleted
pub mod Handles
use open_dax.Base.{
  ℕ, zero, suc, ◌+◌, ◌-◌, ◌*◌, ◌/◌, ◌%◌, ◌^◌, Bool, true, false, not, ◌&&◌, ◌||◌, List, [], ◌∷◌,
  ◌++◌, Option, none, some, length, get_elem?, set, take, replicate, leb, ltb, ◌==◌, if◌then◌else◌,
  Error, Outcome, ok, err, fault, ◌>>=◌, ◌>>◌, attempt, Result, ret, fail, crash, and_then,
  or_crash, run,
}
use open_dax.Base.Int.{ℤ, pos, negsuc, equal_ℤ, signed}
use open_dax.Base.Bits.{test_bit, set_bit}
use open_dax.Memory.{Block}
use open_dax.Text.{CString}
use open_dax.Types.{TagType, dax_bool, is_custom, is_queue, cdt_to_index}
use open_dax.Cdt.{Datatype, checktype, validate_name, type_size, u32}
use open_dax.NameIndex.{Entry, get_by_name, add_index, del_index}
use open_dax.TagQueue.{TagQueue, new_queue}
use open_dax.Event.{Event, Floats}
use open_dax.Server.{
  DataMap, reads_queue, writes_queue, Output, retain_added, retain_removed, TagData, null, block,
  functions, Tag, Server, M, has, tag_at, place_of, set_tag, emit, attr_readonly, attr_virtual,
  attr_retain, attr_owned,
}
use open_dax.Store.{unchecked_tag, tag_write}
use open_dax.Store.Hooks.{memory_of}
use open_dax.Store.Notify.{notify_deleted, visible}

-- What stands in memory that was not set: behind the end of a name, in an entry of `_db` that
-- `realloc` added, and in the bytes that `realloc` added to a tag.
pub record Unset : Type 0 where
  pub behind : CString → Block
  pub attr_at : ℕ → ℕ
  pub mappings_at : ℕ → List DataMap
  pub byte_at : ℕ → ℕ

abbrev pub dax_taglist_size : ℕ
dax_taglist_size = 1024

-- The places of the status tags.
abbrev pub index_tagcount : ℤ
index_tagcount = pos 0

abbrev pub index_lastindex : ℤ
index_lastindex = pos 1

abbrev pub index_added_tag : ℤ
index_added_tag = pos 2

abbrev pub index_deleted_tag : ℤ
index_deleted_tag = pos 3

unfoldable pub change_refcount :
    (ℕ → ℕ) → List Datatype → ℕ → Option Datatype → Option (List Datatype)
change_refcount f dts n none = none
change_refcount f dts n (some d) = some (set dts n (record d { refcount = f d.refcount }))

-- `_cdt_inc_refcount` and `_cdt_dec_refcount`, for a compound type; `none` is an access outside of
-- the table.
unfoldable pub refcount : (ℕ → ℕ) → List Datatype → TagType → Option (List Datatype)
unfolding change_refcount
refcount f dts type =
    if is_custom type
    then change_refcount f dts (cdt_to_index type) (get_elem? dts (cdt_to_index type))
    else some dts

-- The attributes that `_set_attribute` adds.
unfoldable pub with_attributes : ℕ → ℕ → ℕ
with_attributes attr old =
    if test_bit attr attr_retain
    then set_bit old attr_retain
    else if test_bit attr attr_owned
    then set_bit (if test_bit attr attr_readonly then set_bit old attr_readonly else old) attr_owned
    else old

-- `_set_attribute`, with `ret_add_tag` for a retained tag.
unfoldable pub set_attribute : ℕ → ℕ → M (Unit {0})
unfolding with_attributes
set_attribute n attr s =
    unchecked_tag (get_elem? s.db n)
      (λ t s. ok tt (
        emit (set_tag s (pos n) (record t { attr = with_attributes attr t.attr }))
          (if test_bit attr attr_retain then retain_added n ∷ [] else [])))
      s

-- Whether `_db[n].data` is not NULL.
abbrev pub is_data : TagData → Bool
is_data null = false
is_data (block b) = true
is_data (functions v) = true

-- `_tagnextindex` and the other counters, as four bytes.
abbrev pub word : ℕ → Block
word n = memory_of 4 n

module _ (u : Unset) where
  -- The 47 bytes of `_tag_added` and `_tag_deleted`; 33 bytes are copied from the name on.
  unfoldable pub tag_desc : ℕ → TagType → ℕ → ℕ → CString → Block
  tag_desc idx type count attr name =
      word idx
      ++ (word type ++ (word count ++ (memory_of 2 attr ++ take 33 (name ++ (0 ∷ u.behind name)))))

module _ (floats : Floats) where
  -- The server writes a status tag, whatever comes of it.
  unfoldable pub write_status : ℤ → Block → M (Unit {0})
  write_status idx bytes = attempt (tag_write floats (negsuc 0) idx (pos 0) bytes)

  -- The same, if the tag has data.
  unfoldable pub write_counter : ℤ → ℕ → M (Unit {0})
  unfolding write_status
  write_counter idx n s = elim (tag_at s idx) [
    | none ↦ ok tt s
    | some t ↦ if is_data t.tag_data then write_status idx (word n) s else ok tt s
  ]
