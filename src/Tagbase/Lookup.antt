-- ===== src/Tagbase/Lookup.antt =====
-- `tag_get_name`, `tag_get_index` and the attribute tests of src/server/tagbase.c.
use open_dax.Base.{
  ℕ, Bool, ◌&&◌, Option, none, some, get_elem?, if◌then◌else◌, Error, Result, ret, fail, and_then,
  or_crash,
}
use open_dax.Base.Int.{ℤ, equal_ℤ}
use open_dax.Text.{CString}
use open_dax.Types.{TagType, is_queue}
use open_dax.NameIndex.{get_by_name}
use open_dax.Server.{Tag, Server, has, tag_at, place_of, attr_readonly, attr_virtual, attr_owned}
use open_dax.Tagbase.{is_data}

-- `dax_tag`
pub record TagInfo : Type 0 where
  pub idx : ℕ
  pub type : TagType
  pub count : ℕ
  pub attr : ℕ
  pub name : CString

-- What is told of a tag that has data.
unfoldable pub tag_info : ℕ → Tag → Result TagInfo
tag_info n t =
    if is_data t.tag_data
    then and_then (or_crash t.name) (λ name.
      ret (record { idx = n; type = t.type; count = t.count; attr = t.attr; name = name }))
    else fail Error.deleted

unfoldable pub found_tag : Server → Option ℕ → Result TagInfo
unfolding tag_info
found_tag s none = fail Error.notfound
found_tag s (some n) = and_then (or_crash (get_elem? s.db n)) (tag_info n)

-- `tag_get_name`
unfoldable pub tag_get_name : Server → CString → Result TagInfo
unfolding found_tag
tag_get_name s name = found_tag s (get_by_name name s.index)

-- `tag_get_index`
unfoldable pub tag_get_index : Server → ℤ → Result TagInfo
unfolding tag_info
tag_get_index s idx = elim (tag_at s idx) [
  | none ↦ fail Error.arg
  | some t ↦ tag_info (place_of idx) t
]

-- The attribute tests, at a tag.
unfoldable pub is_tag_readonly : Tag → Bool
is_tag_readonly t = has t attr_readonly

unfoldable pub is_tag_virtual : Tag → Bool
is_tag_virtual t = has t attr_virtual

unfoldable pub is_tag_queue : Tag → Bool
is_tag_queue t = is_queue t.type

unfoldable pub is_tag_owned : ℤ → Tag → Bool
is_tag_owned fd t = has t attr_owned && equal_ℤ t.fd fd
