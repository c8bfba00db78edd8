-- ===== src/Server.antt =====
-- The state of the tag server: the tag database of src/server/tagbase.h, the modules and groups of
-- src/server/daxtypes.h, and what the server sends and stores. Allocation does not fail.
pub mod Find
use open_dax.Base.{
  ℕ, suc, ◌+◌, ◌-◌, ◌/◌, ◌%◌, ◌^◌, Bool, List, [], ◌∷◌, ◌++◌, Option, none, some, get_elem?, set,
  ◌==◌, if◌then◌else◌, Outcome, Result,
}
use open_dax.Base.Int.{ℤ, pos, negsuc, equal_ℤ}
use open_dax.Base.Bits.{test_bit, set_bit}
use open_dax.Memory.{Block}
use open_dax.Text.{CString}
use open_dax.Types.{TagType}
use open_dax.Cdt.{Datatype}
use open_dax.TagQueue.{TagQueue}
use open_dax.Event.{Event}
use open_dax.NameIndex.{Entry}

-- `tag_handle`
pub record Handle : Type 0 where
  pub index : ℤ
  pub byte : ℕ
  pub bit : ℕ
  pub count : ℕ
  pub size : ℕ
  pub type : TagType

-- `_dax_datamap`
pub record DataMap : Type 0 where
  pub id : ℕ
  pub source : Handle
  pub dest : Handle
  pub mask : Option Block

-- The functions of src/server/virtualtag.c that `virt_functions` points to.
pub data ReadFunction : Type 0 where
  reads_time reads_tag_name reads_queue : ReadFunction

pub data WriteFunction : Type 0 where
  writes_queue : WriteFunction

-- `virt_functions`
pub record VirtFunctions : Type 0 where
  pub rf : Option ReadFunction
  pub wf : Option WriteFunction
  pub userdata : Option TagQueue

-- What the pointer `data` of a tag points to.
pub data TagData : Type 0 where
  null : TagData
  block : Block → TagData
  functions : VirtFunctions → TagData

-- `_dax_tag_db`; `tag_data` is its `data`. A deleted tag keeps its place, with no name and no data.
pub record Tag : Type 0 where
  pub type : TagType
  pub attr : ℕ
  pub count : ℕ
  pub name : Option CString
  pub fd : ℤ
  pub nextevent : ℕ
  pub nextmap : ℕ
  pub events : List Event
  pub mappings : List DataMap
  pub tag_data : TagData
  pub omask : Option Block
  pub odata : Option Block

-- `tag_group`
pub record Group : Type 0 where
  pub flags : ℕ
  pub size : ℕ
  pub count : ℕ
  pub members : Option (List Handle)

-- `dax_module`; `id` stands for its address.
pub record Module : Type 0 where
  pub id : ℕ
  pub name : CString
  pub fd : ℤ
  pub tagindex : ℕ
  pub timeout : ℕ
  pub event_count : ℤ
  pub tag_groups : List Group
  pub groups_size : ℕ

-- What leaves the server: a message on a socket, or what happens to a tag in the retention file.
pub data Output : Type 0 where
  sent : ℤ → Block → Output
  retained retain_added retain_removed : ℕ → Output

-- The static variables. `db` is `_db` up to `_tagnextindex`, `modules` the ring of modules from
-- `_current_mod` on, and `clock` what `xtime` returns.
pub record Server : Type 0 where
  pub db : List Tag
  pub index : List Entry
  pub dbsize : ℕ
  pub tagcount : ℕ
  pub ovrdinstalled : ℕ
  pub ovrdset : ℕ
  pub datatypes : List Datatype
  pub module_tag_type : TagType
  pub modules : List Module
  pub mod_uuid : ℕ
  pub clock : ℕ
  pub output : List Output

-- A function of the server that returns an `A`.
abbrev pub M : Type 0 → Type 0
M A = Server → Outcome Server A

-- The attribute bits of opendax.h, by their places.
abbrev pub attr_readonly : ℕ
attr_readonly = 0

abbrev pub attr_virtual : ℕ
attr_virtual = 1

abbrev pub attr_retain : ℕ
attr_retain = 2

abbrev pub attr_ovr_set : ℕ
attr_ovr_set = 3

abbrev pub attr_special : ℕ
attr_special = 4

abbrev pub attr_owned : ℕ
attr_owned = 5

abbrev pub attr_mapping : ℕ
attr_mapping = 12

abbrev pub attr_event : ℕ
attr_event = 13

abbrev pub attr_override : ℕ
attr_override = 14

-- Whether an attribute is set.
abbrev pub has : Tag → ℕ → Bool
has t attr = test_bit t.attr attr

-- `_db[idx]`, where `0 <= idx < _tagnextindex`.
abbrev pub tag_at : Server → ℤ → Option Tag
tag_at s (pos i) = get_elem? s.db i
tag_at s (negsuc i) = none

-- The place in `db` of an index that is in range.
abbrev pub place_of : ℤ → ℕ
place_of (pos i) = i
place_of (negsuc i) = 0

abbrev pub set_tag : Server → ℤ → Tag → Server
set_tag s idx t = record s { db = set s.db (place_of idx) t }

abbrev pub emit : Server → List Output → Server
emit s out = record s { output = s.output ++ out }
