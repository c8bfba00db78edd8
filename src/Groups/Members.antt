-- ===== src/Groups/Members.antt =====
-- `group_read` and `group_write` of src/server/groups.c. The group is looked up in the module, and its
-- members are read or written in the order of the group. The buffer is the caller's: a write to it is
-- taken to fit, and a read beyond it is not defined.
use open_dax.Base.{
  ℕ, zero, suc, ◌+◌, ltb, if◌then◌else◌, List, [], ◌∷◌, ◌++◌, Option, none, some, get_elem?, Error,
  ok, err, fault, ◌>>=◌, ◌>>◌, or_crash, run,
}
use open_dax.Base.Int.{negsuc, signed}
use open_dax.Memory.{Block, slice}
use open_dax.Event.{Floats}
use open_dax.Server.{Handle, Group, Module, M}
use open_dax.Groups.{is_used}
use open_dax.Store.{tag_read, tag_write}

-- The members array of a group; NULL has none.
abbrev pub members_of : Option (List Handle) → List Handle
members_of none = []
members_of (some hs) = hs

-- The work on a group that is in use.
unfoldable pub with_group : {A : Type 0} → Option Group → (Group → M A) → M A
with_group none f s = fault
with_group (some g) f s = if is_used g then f g s else err Error.notfound s

-- The loop of `group_read`, with what `buff` has so far.
unfoldable pub read_members : ℕ → List Handle → Block → M Block
unfolding tag_read
read_members zero hs buff s = ok buff s
read_members (suc k) [] buff s = fault
read_members (suc k) (h ∷ hs) buff s =
    (do
      bytes ← tag_read (negsuc 0) h.index (signed 32 h.byte) h.size
      read_members k hs (buff ++ bytes))
      s

-- `group_read`, whose result is the length of what it reads.
unfoldable pub group_read : Module → ℕ → ℕ → M Block
unfolding with_group read_members
group_read m n size = with_group (get_elem? m.tag_groups n) (λ g s.
    if ltb size g.size then err Error.arg s else read_members g.count (members_of g.members) [] s)

module _ (floats : Floats) where
  -- The loop of `group_write` from `offset` of the buffer on.
  unfoldable pub write_members : ℕ → List Handle → Block → ℕ → M ℕ
  unfolding tag_write slice
  write_members zero hs buff offset s = ok offset s
  write_members (suc k) [] buff offset s = fault
  write_members (suc k) (h ∷ hs) buff offset s =
      (do
        bytes ← run (or_crash (slice offset h.size buff))
        tag_write floats (negsuc 0) h.index (signed 32 h.byte) bytes
        write_members k hs buff (offset + h.size))
        s

  -- `group_write`
  unfoldable pub group_write : Module → ℕ → Block → M ℕ
  unfolding with_group write_members
  group_write m n buff =
      with_group (get_elem? m.tag_groups n)
        (λ g. write_members g.count (members_of g.members) buff 0)
