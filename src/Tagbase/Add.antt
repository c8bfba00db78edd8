-- ===== src/Tagbase/Add.antt =====
-- `tag_add` of src/server/tagbase.c, with `_queue_add`, `_database_grow` and `_add_index`.
use open_dax.Base.{
  ℕ, zero, suc, ◌+◌, ◌-◌, ◌*◌, ◌/◌, ◌%◌, not, ◌&&◌, List, [], ◌∷◌, ◌++◌, Option, none, some, length,
  get_elem?, take, replicate, leb, ltb, ◌==◌, if◌then◌else◌, Error, ok, err, ◌>>=◌, ◌>>◌, Result,
  ret, and_then, or_crash, run,
}
use open_dax.Base.Int.{ℤ, pos, equal_ℤ}
use open_dax.Base.Bits.{set_bit}
use open_dax.Memory.{Block}
use open_dax.Text.{CString}
use open_dax.Types.{TagType, dax_bool, is_queue}
use open_dax.Cdt.{Datatype, checktype, validate_name, type_size, u32}
use open_dax.NameIndex.{get_by_name, add_index}
use open_dax.TagQueue.{new_queue}
use open_dax.Event.{Floats}
use open_dax.Server.{
  DataMap, reads_queue, writes_queue, TagData, null, block, functions, Tag, Server, M, has, set_tag,
  attr_virtual, attr_owned,
}
use open_dax.Store.{unchecked_tag}
use open_dax.Tagbase.{
  Unset, dax_taglist_size, index_tagcount, index_lastindex, index_added_tag, refcount,
  set_attribute, word, tag_desc, write_status, write_counter,
}

-- `_database_grow`, when `_tagnextindex >= _dbsize`.
unfoldable pub make_room : Server → Server
make_room s = if leb s.dbsize (length s.db) then record s { dbsize = s.dbsize * 2 } else s

-- The size in bytes that `tag_add` computes.
unfoldable pub new_size : List Datatype → TagType → ℕ → Result ℕ
new_size dts type count =
    if type == dax_bool
    then ret (count / 8 + 1)
    else and_then (type_size dts type) (λ n. ret (u32 (n * count)))

-- The bytes from `k` on that `realloc` adds.
unfoldable pub unset_bytes : (ℕ → ℕ) → ℕ → ℕ → Block
unset_bytes f k zero = []
unset_bytes f k (suc n) = f k % 256 ∷ unset_bytes f (k + 1) n

-- `xrealloc` of a tag's data. The functions of a virtual tag take up 24 bytes; `none` cuts them.
unfoldable pub resize : (ℕ → ℕ) → ℕ → TagData → Option TagData
unfolding unset_bytes
resize f size null = some (block (replicate size 0))
resize f size (block b) = some (block (take size b ++ unset_bytes f (length b) (size - length b)))
resize f size (functions v) = if ltb size 24 then none else some (functions v)

-- The tag enters the index, and the datatype counts it.
unfoldable pub index_tag : ℕ → CString → TagType → M (Unit {0})
unfolding refcount
index_tag n name type s =
    (do
      index ← run (add_index name n s.index)
      dts ← run (or_crash (refcount suc s.datatypes type))
      λ s. ok tt (record s { index = index; datatypes = dts }))
      s

-- `_tagnextindex++` and `_tagcount++`, where the entry was written.
unfoldable pub count_tag : Tag → M (Unit {0})
count_tag t s = ok tt (record s { db = s.db ++ (t ∷ []); tagcount = s.tagcount + 1 })

module _ (u : Unset) where
  -- The attributes of an entry that no tag has used: the first array was set to zero.
  unfoldable pub blank_attr : ℕ → ℕ
  blank_attr n = if ltb n dax_taglist_size then 0 else u.attr_at n

  unfoldable pub blank_mappings : ℕ → List DataMap
  blank_mappings n = if ltb n dax_taglist_size then [] else u.mappings_at n

  -- The entry of a new tag at place `n`.
  unfoldable pub new_tag : ℕ → ℤ → CString → TagType → ℕ → ℕ → Tag
  unfolding blank_attr blank_mappings
  new_tag n fd name type count size = record {
    type = type;
    attr = if is_queue type then set_bit (blank_attr n) attr_virtual else blank_attr n;
    count = count;
    name = some name;
    fd = fd;
    nextevent = 1;
    nextmap = 1;
    events = [];
    mappings = blank_mappings n;
    tag_data =
        if is_queue type
        then functions (record {
          rf = some reads_queue;
          wf = some writes_queue;
          userdata = some (new_queue type count size);
        })
        else block (replicate size 0);
    omask = none;
    odata = none;
  }

  module _ (floats : Floats) where
    -- The end of `tag_add` for a new tag: it is counted, and announced.
    unfoldable pub announce : ℕ → CString → TagType → ℕ → ℕ → M ℕ
    unfolding write_counter set_attribute write_status tag_desc
    announce n name type count attr = do
      λ s. write_counter floats index_tagcount s.tagcount s
      set_attribute n attr
      write_status floats index_added_tag (tag_desc u n type count attr name)
      ok n

    -- `tag_add` for a name that is not there.
    unfoldable pub add_new : ℤ → CString → TagType → ℕ → ℕ → ℕ → M ℕ
    unfolding index_tag write_counter count_tag announce new_tag
    add_new fd name type count attr size s =
        let n = length s.db in
        (do
          index_tag n name type
          write_counter floats index_lastindex n
          count_tag (new_tag n fd name type count size)
          announce n name type count attr)
          s

    -- A tag gets room for more items.
    unfoldable pub add_larger : ℕ → Tag → ℕ → ℕ → ℕ → M ℕ
    unfolding resize set_attribute write_status
    add_larger n t count attr size = do
      d ← run (or_crash (resize u.byte_at size t.tag_data))
      λ s. ok tt (set_tag s (pos n) (record t { tag_data = d; count = count }))
      set_attribute n attr
      write_status floats index_added_tag (word n)
      ok n

    -- `tag_add` for the name of a tag that is there, at `n`.
    unfoldable pub add_again : ℤ → TagType → ℕ → ℕ → ℕ → ℕ → Tag → M ℕ
    unfolding set_attribute add_larger
    add_again fd type count attr size n t =
        if has t attr_owned && not (equal_ℤ t.fd fd)
        then err Error.tag_dupl
        else if t.type == type && leb count t.count
        then set_attribute n attr >> ok n
        else if t.type == type
        then add_larger n t count attr size
        else err Error.tag_dupl

    unfoldable pub add_named : ℤ → CString → TagType → ℕ → ℕ → ℕ → Option ℕ → M ℕ
    unfolding add_new add_again
    add_named fd name type count attr size none s = add_new fd name type count attr size s
    add_named fd name type count attr size (some n) s =
        unchecked_tag (get_elem? s.db n) (add_again fd type count attr size n) s

    unfoldable pub add_checked : ℤ → CString → TagType → ℕ → ℕ → M ℕ
    unfolding add_named new_size
    add_checked fd name type count attr s =
        (do
          size ← run (new_size s.datatypes type count)
          add_named fd name type count attr size (get_by_name name s.index))
          s

    -- `tag_add`
    unfoldable pub tag_add : ℤ → CString → TagType → ℕ → ℕ → M ℕ
    unfolding add_checked make_room
    tag_add fd name type count attr s =
        if count == 0
        then err Error.arg s
        else (let s' = make_room s in
            if not (checktype s.datatypes type)
            then err Error.badtype s'
            else (elim (validate_name name) [
              | some e ↦ err Error.tag_bad s'
              | none ↦ add_checked fd name type count attr s'
            ]))
