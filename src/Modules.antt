-- ===== src/Modules.antt =====
-- src/server/module.c: the modules that are registered, the tag that each has, and what goes with a
-- module. The host of a module, which nothing reads, and `_module_count` are left out.
pub mod Ring
use open_dax.Base.{
  ℕ, zero, suc, ◌+◌, ◌-◌, ◌%◌, ◌^◌, Bool, true, false, ◌&&◌, List, [], ◌∷◌, ◌++◌, Option, none,
  some, length, get_elem?, take, replicate, leb, ltb, ◌==◌, if◌then◌else◌, Ordering, Error, Outcome,
  ok, err, fault, ◌>>=◌, ◌>>◌, attempt, Result, ret, fail, crash, and_then, or_crash, run,
}
use open_dax.Base.Int.{ℤ, pos, negsuc, equal_ℤ}
use open_dax.Base.Bits.{set_bit}
use open_dax.Text.{CString, codes, strcmp, strtok, decimal}
use open_dax.Types.{TagType}
use open_dax.Cdt.{cdt_get_type}
use open_dax.NameIndex.{get_by_name}
use open_dax.Event.{Floats}
use open_dax.Server.{Module, Server, M, tag_at, set_tag, attr_special}
use open_dax.Server.Find.{module_find_fd}
use open_dax.Store.{tag_write}
use open_dax.Store.Hooks.{memory_of}
use open_dax.Events.{as_word}
use open_dax.Events.Del.{events_cleanup}
use open_dax.Groups.Cleanup.{groups_cleanup}
use open_dax.Tagbase.{Unset, is_data, write_status}
use open_dax.Tagbase.Add.{tag_add}
use open_dax.Tagbase.Del.{tag_del}
use open_dax.Tagbase.Lookup.{is_tag_owned}
use open_dax.Tagbase.Override.{change_attr}

-- The ring from a new module on, which stands behind the current one.
abbrev pub joined_by : Module → List Module → List Module
joined_by m [] = m ∷ []
joined_by m (c ∷ ms) = m ∷ (ms ++ (c ∷ []))

-- `module_add`; `id` is the address that `xmalloc` gives, which clears the memory there.
unfoldable pub module_add : ℕ → CString → M Module
module_add id name s =
    let m : Module = record {
      id = id;
      name = name;
      fd = pos 0;
      tagindex = 0;
      timeout = 0;
      event_count = pos 0;
      tag_groups = [];
      groups_size = 0;
    } in
    ok m (record s { modules = joined_by m s.modules })

-- `module_del`; the module behind a current one that goes is then the current one.
unfoldable pub without_module : ℕ → List Module → List Module
without_module id [] = []
without_module id (m ∷ ms) = if m.id == id then ms else m ∷ without_module id ms

unfoldable pub module_del : ℕ → M (Unit {0})
unfolding without_module
module_del id s = ok tt (record s { modules = without_module id s.modules })

-- A change of the module at an address.
unfoldable pub change_module : ℕ → (Module → Module) → List Module → List Module
change_module id f [] = []
change_module id f (m ∷ ms) = if m.id == id then f m ∷ ms else m ∷ change_module id f ms

abbrev pub set_module : ℕ → (Module → Module) → M (Unit {0})
set_module id f s = ok tt (record s { modules = change_module id f s.modules })

-- The names between the spaces of a text. Each takes one byte at least, so that the length is fuel
-- enough.
unfoldable pub tokens : ℕ → CString → List CString
unfolding strtok
tokens zero text = []
tokens (suc fuel) text = elim (strtok b' ' text) [
  | none ↦ []
  | some (token, rest) ↦ token ∷ tokens fuel rest
]

unfoldable pub is_listed : List CString → CString → Bool
unfolding strcmp
is_listed [] name = false
is_listed (x ∷ xs) name = elim (strcmp x name) [
  | Ordering.eq ↦ true
  | Ordering.lt ↦ is_listed xs name
  | Ordering.gt ↦ is_listed xs name
]

-- `_check_module_tag_exclusion`; the list of the option is kept from the first call on.
unfoldable pub check_module_tag_exclusion : Option CString → CString → Bool
unfolding tokens is_listed
check_module_tag_exclusion none name = false
check_module_tag_exclusion (some text) name = is_listed (tokens (length text) text) name

-- `%0<width>d`
unfoldable pub padded : ℕ → ℕ → CString
unfolding decimal
padded width n = let digits = decimal 10 n [] in replicate (width - length digits) b'0' ++ digits

-- The name of a module's tag, with a number if it is taken.
unfoldable pub numbered_name : Bool → CString → ℕ → CString
unfolding padded
numbered_name false name uuid = name
numbered_name true name uuid =
    if ltb uuid 1000
    then take (32 - 3) name ++ padded 3 uuid
    else take (32 - 5) name ++ padded 5 uuid

-- `tag_get_name(tagname, NULL) == 0`
unfoldable pub is_taken : CString → Server → Result Bool
is_taken name s = elim (get_by_name name s.index) [
  | none ↦ ret false
  | some n ↦ and_then (or_crash (get_elem? s.db n)) (λ t. ret (is_data t.tag_data))
]

-- The name for the tag of a new module: its module's, cut to 30 bytes, behind `_m`.
unfoldable pub module_tag_name : CString → M CString
unfolding is_taken numbered_name
module_tag_name name = do
  taken ← λ s. run (is_taken (codes "_m" ++ take 30 name) s) s
  λ s.
      ok (numbered_name taken (codes "_m" ++ take 30 name) s.mod_uuid)
        (if taken then record s { mod_uuid = s.mod_uuid + 1 } else s)

-- The place of the status tag for the last module, and of the descriptor in a module's tag.
abbrev pub index_lastmodule : ℤ
index_lastmodule = pos 6

abbrev pub mod_id_offset : ℤ
mod_id_offset = pos 8

module _ (u : Unset) (floats : Floats) where
  -- The tag gets its values, and is special from then on. `tag` is what `tag_add` returned; all its
  -- errors are negative, and no tag is there.
  unfoldable pub describe_module : ℤ → CString → ℤ → M (Unit {0})
  unfolding change_attr write_status memory_of
  describe_module fd tagname tag = do
    λ s. write_status floats tag (memory_of 8 s.clock) s
    attempt (tag_write floats (negsuc 0) tag mod_id_offset (memory_of 4 (as_word fd)))
    change_attr tag (λ a. set_bit a attr_special)
    write_status floats index_lastmodule (take 32 (tagname ++ replicate 33 0))

  -- The result of `tag_add` for a module's tag.
  unfoldable pub add_module_tag : ℕ → CString → M ℤ
  unfolding tag_add change_module
  add_module_tag id tagname s =
      elim (tag_add u floats (negsuc 0) tagname
        (elim (cdt_get_type s.datatypes (codes "_module")) [ none ↦ 0 | some type ↦ type ]) 1 0 s) [
          | ok n s' ↦ (set_module id (λ m. record m { tagindex = n }) >> ok (pos n)) s'
          | err e s' ↦ ok (negsuc 0) s'
          | fault ↦ fault
        ]

  unfoldable pub make_module_tag : ℕ → CString → ℤ → M (Unit {0})
  unfolding module_tag_name add_module_tag describe_module
  make_module_tag id name fd = do
    tagname ← module_tag_name name
    tag ← add_module_tag id tagname
    describe_module fd tagname tag

  -- The loop of `module_unregister` over the `n` tags from `k` on, which drops the errors of `tag_del`.
  unfoldable pub delete_owned : ℤ → ℕ → ℕ → M (Unit {0})
  unfolding tag_del
  delete_owned fd zero k s = ok tt s
  delete_owned fd (suc n) k s =
      let rest = delete_owned fd n (k + 1) in
      elim (get_elem? s.db k) [
        | none ↦ fault
        | some t ↦
            if is_tag_owned fd t then (attempt (tag_del u floats (pos k)) >> rest) s else rest s
      ]

  -- `groups_cleanup` on the module at an address.
  unfoldable pub clean_groups : Module → M (Unit {0})
  unfolding groups_cleanup change_module
  clean_groups m s = elim (groups_cleanup m) [
    | ok a m' ↦
        set_module m.id (λ x. record x { tag_groups = m'.tag_groups; groups_size = m'.groups_size })
          s
    | err e m' ↦ ok tt s
    | fault ↦ fault
  ]

  unfoldable pub remove_module : ℤ → Module → M (Unit {0})
  unfolding clean_groups delete_owned tag_del module_del
  remove_module fd m = do
    attempt (events_cleanup m.id)
    clean_groups m
    λ s. delete_owned fd (length s.db) 0 s
    attempt (tag_del u floats (pos m.tagindex))
    module_del m.id

  -- `module_unregister`
  unfoldable pub module_unregister : ℤ → M (Unit {0})
  unfolding module_find_fd remove_module
  module_unregister fd = do
    found ← module_find_fd fd
    elim found [ none ↦ ok tt | some m ↦ remove_module fd m ]

  -- The part of `module_register` from `module_add` on.
  unfoldable pub register_new : ℕ → Option CString → CString → ℕ → ℤ → M ℕ
  unfolding module_add change_module check_module_tag_exclusion make_module_tag
  register_new id exclude name timeout fd = do
    m ← module_add id name
    set_module m.id (λ x. record x { fd = fd; timeout = timeout })
    if check_module_tag_exclusion exclude name then ok tt else make_module_tag m.id name fd
    ok m.id

  -- `module_register`, which returns the module's address; `exclude` is `opt_mod_tag_exclude`.
  unfoldable pub module_register : ℕ → Option CString → CString → ℕ → ℤ → M ℕ
  unfolding module_find_fd module_unregister register_new
  module_register id exclude name timeout fd = do
    test ← module_find_fd fd
    elim test [ none ↦ ok tt | some m ↦ module_unregister m.fd ]
    register_new id exclude name timeout fd
