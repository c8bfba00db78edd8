-- ===== src/Tagbase/Override.antt =====
-- The overrides of src/server/tagbase.c: `override_add`, `override_del`, `override_get` and
-- `override_set`. An override is a block of bytes and a block of masks beside the tag's data.
pub mod Counted
pub mod Overlaid
pub mod Reading
pub mod OfBool
use open_dax.Base.{
  ℕ, zero, suc, ◌+◌, ◌-◌, ◌%◌, ◌^◌, Bool, true, false, ◌&&◌, List, [], ◌∷◌, ◌++◌, Option, none,
  some, length, replicate, take, ltb, ◌==◌, if◌then◌else◌, Error, Outcome, ok, err, ◌>>=◌, ◌>>◌,
  Result, ret, fail, crash, and_then, or_crash, run,
}
use open_dax.Base.Int.{ℤ, pos, negsuc, ◌+ℤ◌, ltb_ℤ, add_overflows}
use open_dax.Base.Bits.{set_bit}
use open_dax.Base.Attrs.{clear_attr, and_not}
use open_dax.Memory.{Block, slice_int, splice_int}
use open_dax.Cdt.{Datatype, type_size}
use open_dax.Event.{Floats}
use open_dax.Server.{Tag, Server, M, has, tag_at, set_tag, attr_ovr_set, attr_override}
use open_dax.Store.{at_tag, unchecked_tag, sized, part_of, tag_bytes}
use open_dax.Tagbase.{is_data, write_counter}
use open_dax.Tagbase.Add.{unset_bytes}

abbrev pub index_ovrd_installed : ℤ
index_ovrd_installed = pos 7

abbrev pub index_ovrd_set : ℤ
index_ovrd_set = pos 8

-- The work on the tag at an index that is in range, if the tag has data.
unfoldable pub with_data : {A : Type 0} → ℤ → (Tag → M A) → M A
with_data idx f s =
    at_tag (tag_at s idx) (λ t s. if is_data t.tag_data then f t s else err Error.deleted s) s

-- `_db[idx].count * type_size(_db[idx].type)`, as an `int`.
unfoldable pub over_size : List Datatype → Tag → Result ℤ
unfolding sized
over_size dts t = sized t.count (type_size dts t.type)

-- `malloc(tag_size)` and `bzero` of `size` bytes; a negative size is more than there is.
unfoldable pub fresh : (ℕ → ℕ) → ℤ → ℕ → Result Block
unfolding unset_bytes
fresh f (pos room) size =
    if ltb room size then crash else ret (replicate size 0 ++ unset_bytes f size (room - size))
fresh f (negsuc room) size = fail Error.alloc

-- `odata` or `omask`: the blocks are new if there is no `odata`.
unfoldable pub block_of : (ℕ → ℕ) → ℤ → ℕ → Option Block → Option Block → Result Block
unfolding fresh
block_of f room size none kept = fresh f room size
block_of f room size (some b) kept = or_crash kept

-- `(offset + size) > tag_size`
unfoldable pub within : ℤ → ℤ → ℕ → Result (Unit {0})
within room offset size =
    if add_overflows offset (pos size)
    then crash
    else if ltb_ℤ room (offset +ℤ pos size)
    then fail Error.too_big
    else ret tt

-- `_db[idx].attr`, changed.
unfoldable pub change_attr : ℤ → (ℕ → ℕ) → M (Unit {0})
change_attr idx f s =
    unchecked_tag (tag_at s idx) (λ t s. ok tt (set_tag s idx (record t { attr = f t.attr }))) s

-- One less, of 32 bits.
abbrev pub one_less : ℕ → ℕ
one_less n = (n + (2 ^ 32 - 1)) % 2 ^ 32

module _ (floats : Floats) where
  -- The end of `override_add`: the first override of a tag is counted.
  unfoldable pub count_override : ℤ → Tag → M (Unit {0})
  unfolding write_counter
  count_override idx t s =
      if has t attr_override
      then ok tt s
      else write_counter floats index_ovrd_installed (s.ovrdinstalled + 1)
          (record s { ovrdinstalled = s.ovrdinstalled + 1 })

  -- The bytes and masks go into the blocks.
  unfoldable pub put_override : ℤ → ℤ → Block → Block → Tag → Block → Block → ℤ → M (Unit {0})
  unfolding within count_override change_attr
  put_override idx offset bytes mask t odata omask room = do
    λ s. ok tt (set_tag s idx (record t { odata = some odata; omask = some omask }))
    run (within room offset (length bytes))
    odata' ← run (or_crash (splice_int offset bytes odata))
    omask' ← run (or_crash (splice_int offset mask omask))
    λ s. ok tt (set_tag s idx (record t { odata = some odata'; omask = some omask' }))
    count_override idx t
    change_attr idx (λ a. set_bit a attr_override)

  -- `override_add`, with as many masks as bytes; `data_at` and `mask_at` are what `malloc` left.
  unfoldable pub override_add : (ℕ → ℕ) → (ℕ → ℕ) → ℤ → ℤ → Block → Block → M (Unit {0})
  unfolding with_data over_size block_of put_override
  override_add data_at mask_at idx offset bytes mask = with_data idx (λ t s.
      (do
        room ← run (over_size s.datatypes t)
        odata ← run (block_of data_at room (length bytes) t.odata t.odata)
        omask ← run (block_of mask_at room (length bytes) t.odata t.omask)
        put_override idx offset bytes mask t odata omask room)
        s)

  -- The first loop of `override_del`: the bits under the mask become 0.
  unfoldable pub drop_bytes : Block → Block → Block
  drop_bytes (o ∷ os) (m ∷ ms) = and_not o m ∷ drop_bytes os ms
  drop_bytes os ms = os

  unfoldable pub drop_masked : ℤ → Block → Option Block → Result Block
  unfolding part_of drop_bytes
  drop_masked offset mask none = crash
  drop_masked offset mask (some b) =
      and_then (part_of offset (length mask) (some b))
        (λ here. or_crash (splice_int offset (drop_bytes here mask) b))

  abbrev pub all_zero : Block → Bool
  all_zero [] = true
  all_zero (b ∷ bs) = (b == 0) && all_zero bs

  -- The second loop, which looks at `tag_size` masks.
  unfoldable pub nothing_left : ℤ → Block → Result Bool
  nothing_left (pos room) omask =
      if all_zero (take room omask)
      then (if ltb (length omask) room then crash else ret true)
      else ret false
  nothing_left (negsuc room) omask = ret true

  -- The override of a tag goes.
  unfoldable pub lift_override : ℤ → M (Unit {0})
  unfolding write_counter change_attr
  lift_override idx = do
    change_attr idx (λ a. clear_attr (clear_attr a attr_override) attr_ovr_set)
    λ s.
        write_counter floats index_ovrd_installed (one_less s.ovrdinstalled)
          (record s { ovrdinstalled = one_less s.ovrdinstalled })
    λ s.
        unchecked_tag (tag_at s idx)
          (λ t s. ok tt (set_tag s idx (record t { odata = none; omask = none }))) s

  -- `override_del`
  unfoldable pub override_del : ℤ → ℤ → Block → M (Unit {0})
  unfolding with_data over_size drop_masked nothing_left lift_override
  override_del idx offset mask = with_data idx (λ t s. elim t.odata [
    | none ↦ err Error.generic s
    | some b ↦
        (do
          omask ← run (drop_masked offset mask t.omask)
          odata ← run (drop_masked offset mask t.odata)
          λ s. ok tt (set_tag s idx (record t { odata = some odata; omask = some omask }))
          room ← run (over_size s.datatypes t)
          gone ← run (nothing_left room omask)
          if gone then lift_override idx else ok tt)
          s
  ])

  -- The flag goes up, if there is an override.
  unfoldable pub raise_flag : ℤ → Tag → Option Block → M (Unit {0})
  unfolding write_counter change_attr
  raise_flag idx t none s = err Error.illegal s
  raise_flag idx t (some b) s =
      if has t attr_ovr_set
      then ok tt s
      else (do
        write_counter floats index_ovrd_set (s.ovrdset + 1)
        change_attr idx (λ a. set_bit a attr_ovr_set))
          (record s { ovrdset = s.ovrdset + 1 })

  unfoldable pub lower_flag : ℤ → Tag → M (Unit {0})
  unfolding write_counter change_attr
  lower_flag idx t s =
      if has t attr_ovr_set
      then (do
        write_counter floats index_ovrd_set (one_less s.ovrdset)
        change_attr idx (λ a. clear_attr a attr_ovr_set))
          (record s { ovrdset = one_less s.ovrdset })
      else ok tt s

  -- `override_set`: the count of overrides that are set follows the flag.
  unfoldable pub override_set : ℤ → ℕ → M (Unit {0})
  unfolding with_data raise_flag lower_flag
  override_set idx flag =
      with_data idx (λ t s. if flag == 0 then lower_flag idx t s else raise_flag idx t t.odata s)

-- `override_get`: what it copies to `data` and to `mask`. It copies from the front.
unfoldable pub override_get : ℤ → ℤ → ℕ → M (Block × Block)
unfolding with_data over_size within part_of tag_bytes
override_get idx offset size = with_data idx (λ t s.
    (do
      room ← run (over_size s.datatypes t)
      run (within room offset size)
      here ← run (and_then (tag_bytes t.tag_data) (λ b. part_of (pos 0) size (some b)))
      mask ← run (part_of (pos 0) size t.omask)
      ok (here, mask))
      s)
