-- ===== src/Mapping.antt =====
-- Mappings, which copy parts of a tag to another tag when it is written: src/server/mapping.c. The
-- mappings of a tag are a list, the newest first.
pub mod Bits
pub mod Moved
pub mod Copied
pub mod Followed
pub mod Defects
use open_dax.Base.{
  ℕ, zero, suc, ◌+◌, ◌-◌, ◌%◌, ◌^◌, Bool, true, false, ◌&&◌, ◌||◌, List, [], ◌∷◌, Option, none,
  some, length, replicate, set, drop, leb, ltb, ◌==◌, if◌then◌else◌, Error, Outcome, ok, err, fault,
  ◌>>=◌, ◌>>◌, Result, ret, fail, crash, and_then, or_crash, run,
}
use open_dax.Base.Int.{ℤ, pos, negsuc, signed, equal_ℤ}
use open_dax.Base.Bits.{set_bit, test_bit}
use open_dax.Base.Attrs.{clear_attr}
use open_dax.Memory.{Block, slice, byte_at}
use open_dax.Types.{dax_bool}
use open_dax.Event.{Floats}
use open_dax.Server.{
  Handle, DataMap, TagData, null, block, functions, Tag, Server, M, has, tag_at, set_tag,
  attr_virtual, attr_readonly, attr_mapping,
}
use open_dax.Store.{at_tag, unchecked_tag, tag_get_size, tag_write, tag_mask_write}
use open_dax.Events.{as_word}

-- `_handles_equal`
unfoldable pub handles_equal : Handle → Handle → Bool
handles_equal g h =
    equal_ℤ g.index h.index
    && (g.type == h.type
        && (g.count == h.count && (g.byte == h.byte && (g.bit == h.bit && g.size == h.size))))

-- `x |= (0x01 << bit)` on a byte: a bit above 7 is cut off.
abbrev pub raise : ℕ → ℕ → ℕ
raise x bit = if ltb bit 8 then set_bit x bit else x

-- A step from bit `bit` of byte `i` to the next bit.
abbrev pub next_byte : ℕ → ℕ → ℕ
next_byte i bit = if bit + 1 == 8 then i + 1 else i

abbrev pub next_bit : ℕ → ℕ
next_bit bit = if bit + 1 == 8 then 0 else bit + 1

-- The loop of `map_add` for the mask: `n` bits from bit `bit` of byte `i` on go up.
unfoldable pub mask_bits : ℕ → ℕ → ℕ → Block → Result Block
mask_bits zero i bit mask = ret mask
mask_bits (suc n) i bit mask =
    and_then (if leb 31 bit then crash else byte_at mask i)
      (λ x. mask_bits n (next_byte i bit) (next_bit bit) (set mask i (raise x bit)))

-- The mask of a new mapping.
unfoldable pub new_mask : Handle → Handle → Result (Option Block)
unfolding mask_bits
new_mask src dest =
    if src.type == dax_bool
    then and_then (mask_bits src.count 0 dest.bit (replicate src.size 0)) (λ mask. ret (some mask))
    else ret none

-- The loop of `map_add` that looks for the same mapping.
unfoldable pub find_same : Handle → Handle → List DataMap → Option ℕ
unfolding handles_equal
find_same src dest [] = none
find_same src dest (m ∷ ms) =
    if handles_equal src m.source && handles_equal dest m.dest
    then some m.id
    else find_same src dest ms

-- The checks of `map_add` on the source tag `t` and the destination `u`.
unfoldable pub check_map : Server → Handle → Handle → Tag → Tag → Result (Unit {0})
unfolding tag_get_size
check_map s src dest t u =
    if has t attr_virtual || has u attr_virtual
    then fail Error.illegal
    else if has u attr_readonly
    then fail Error.readonly
    else and_then (tag_get_size s.datatypes t) (λ room.
      if ltb (as_word room) ((src.byte + src.size) % 2 ^ 32)
      then fail Error.too_big
      else and_then (tag_get_size s.datatypes u) (λ room'.
        if ltb (as_word room') ((dest.byte + dest.size) % 2 ^ 32) || ltb dest.size src.size
        then fail Error.too_big
        else ret tt))

-- The end of `map_add`.
unfoldable pub add_map : Handle → Handle → Tag → Option ℕ → M ℕ
unfolding new_mask
add_map src dest t (some id) s = ok id s
add_map src dest t none s =
    (do
      mask ← run (new_mask src dest)
      λ s. ok t.nextmap (
          set_tag s src.index (record t {
            nextmap = t.nextmap + 1;
            mappings =
                record { id = t.nextmap; source = src; dest = dest; mask = mask } ∷ t.mappings;
            attr = set_bit t.attr attr_mapping;
          })))
      s

-- `map_add`
unfoldable pub map_add : Handle → Handle → M ℕ
unfolding check_map find_same add_map
map_add src dest s =
    at_tag (tag_at s src.index)
      (λ t. at_tag (tag_at s dest.index) (λ u s.
        (do run (check_map s src dest t u); add_map src dest t (find_same src dest t.mappings)) s))
      s

-- The loop of `map_del` behind the first mapping: what is left behind the one that is found.
unfoldable pub after_map : ℕ → List DataMap → Option (List DataMap)
after_map id [] = none
after_map id (m ∷ ms) = if m.id == id then some ms else after_map id ms

-- `map_del` on the mappings: `prev` stays at the first one.
unfoldable pub del_map : ℕ → List DataMap → Result (Option (List DataMap))
unfolding after_map
del_map id [] = crash
del_map id (m ∷ ms) =
    if m.id == id
    then ret (some ms)
    else elim (after_map id ms) [ none ↦ ret none | some rest ↦ ret (some (m ∷ rest)) ]

-- The mappings that are left go back to the tag.
unfoldable pub keep_maps : ℤ → Tag → Option (List DataMap) → M (Unit {0})
keep_maps index t none s = err Error.notfound s
keep_maps index t (some ms) s = ok tt (set_tag s index (record t { mappings = ms }))

-- `map_del`
unfoldable pub map_del : ℤ → ℕ → M (Unit {0})
unfolding del_map keep_maps
map_del index id s =
    at_tag (tag_at s index) (λ t. run (del_map id t.mappings) >>= keep_maps index t) s

unfoldable pub find_map : ℕ → List DataMap → Option DataMap
find_map id [] = none
find_map id (m ∷ ms) = if m.id == id then some m else find_map id ms

-- `map_get`
unfoldable pub map_get : ℤ → ℕ → M (Handle × Handle)
unfolding find_map
map_get index id s =
    at_tag (tag_at s index)
      (λ t s. elim (find_map id t.mappings) [
        | none ↦ err Error.notfound s
        | some m ↦ ok (m.source, m.dest) s
      ])
      s

-- The loop of `map_check` over bits: those that are up in the source go up in the new bytes.
unfoldable pub move_bits : ℕ → ℕ → ℕ → ℕ → ℕ → Block → Block → Result Block
move_bits zero i b j c src out = ret out
move_bits (suc n) i b j c src out =
    and_then (if leb 31 b || leb 31 c then crash else byte_at src i) (λ y.
      and_then
        (if test_bit y b
          then and_then (byte_at out j) (λ x. ret (set out j (raise x c)))
          else ret out)
        (λ out'. move_bits n (next_byte i b) (next_bit b) (next_byte j c) (next_bit c) src out'))

-- Whether a mapping and the `size` bytes at `offset` meet.
unfoldable pub map_hit : DataMap → ℕ → ℕ → Bool
map_hit m offset size =
    leb offset ((m.source.byte + m.source.size + (2 ^ 32 - 1)) % 2 ^ 32)
    && leb m.source.byte ((offset + size + (2 ^ 32 - 1)) % 2 ^ 32)

-- The source and the destination of a mapping share bytes.
abbrev pub overlaps : DataMap → Bool
overlaps m =
    equal_ℤ m.source.index m.dest.index
    && (ltb m.source.byte (m.dest.byte + m.source.size)
        && ltb m.dest.byte (m.source.byte + m.source.size))

module _ (floats : Floats) where
  -- The bytes of a mapping go to its destination, with `memcpy` if that is not refused; a copy between
  -- places that overlap is not defined.
  unfoldable pub copy_bytes : DataMap → Block → M (Unit {0})
  unfolding slice tag_write
  copy_bytes m b = do
    bytes ← run (or_crash (slice m.source.byte m.source.size b))
    tag_write floats (negsuc 0) m.dest.index (signed 32 m.dest.byte) bytes
    run (if overlaps m then crash else ret tt)

  unfoldable pub copy_bits : DataMap → Block → Block → M (Unit {0})
  unfolding move_bits tag_mask_write
  copy_bits m mask b = do
    new ← run (
        move_bits m.source.count 0 m.source.bit 0 m.dest.bit (drop m.source.byte b)
          (replicate m.source.size 0))
    tag_mask_write floats (negsuc 0) m.dest.index (signed 32 m.dest.byte) new mask

  -- A round of `map_check` that hits.
  unfoldable pub copy_map : DataMap → Option Block → TagData → M (Unit {0})
  unfolding copy_bytes copy_bits
  copy_map m mask null s = fault
  copy_map m mask (functions v) s = fault
  copy_map m none (block b) s = copy_bytes m b s
  copy_map m (some mask) (block b) s = copy_bits m mask b s

  -- The loop of `map_check`. A mapping to a deleted tag is freed before its `next` is read.
  unfoldable pub check_maps : List DataMap → ℕ → ℕ → M (Unit {0})
  unfolding map_hit copy_map
  check_maps [] offset size s = ok tt s
  check_maps (m ∷ ms) offset size s =
      let rest = λ (s : Server). check_maps ms offset size s in
      if map_hit m offset size
      then (elim (unchecked_tag (tag_at s m.source.index) (λ t. copy_map m m.mask t.tag_data) s) [
        | ok a s' ↦ rest s'
        | err Error.deleted s' ↦ fault
        | err e s' ↦ rest s'
        | fault ↦ fault
      ])
      else rest s

  -- `map_check`
  unfoldable pub map_check : ℤ → ℕ → ℕ → M (Unit {0})
  unfolding check_maps
  map_check idx offset size s =
      unchecked_tag (tag_at s idx) (λ t. check_maps t.mappings offset size) s
