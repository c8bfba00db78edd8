-- ===== src/Tests/Mappings.antt =====
-- The theorems on mappings at a server with two tags.
use open_dax.Base.Bits.{mask_byte, set_bit}
use open_dax.Cdt.{type_size, type_size_fuel}
use open_dax.Base.{ℕ, ◌+◌, ◌*◌, ◌≡◌, refl, [], ◌∷◌, none, some, ok, fault, ret, arith, replicate}
use open_dax.Base.Int.{pos}
use open_dax.Memory.{Block, slice, splice_int, slice_int}
use open_dax.Types.{dax_bool, dax_byte, is_base}
use open_dax.Server.{Handle, DataMap, Tag, Server, block, retained, set_tag}
use open_dax.Store.{tag_read}
use open_dax.Mapping.{mask_bits, copy_map, map_add, map_del, find_same, find_map, check_map}
use open_dax.Mapping.Copied.{BitsCopied}
use open_dax.Mapping.Followed.{copy_map-bytes, copy_map-bits}
use open_dax.Mapping.Defects.{map_add-overflow, map_del-drops}
use open_dax.Tests.Samples.{tag_ab, one_tag, no_floats}

abbrev target : Tag
target = record tag_ab { events = []; tag_data = block (9 ∷ 0xff ∷ 9 ∷ 9 ∷ []) }

abbrev two : Server
two = record one_tag { db = tag_ab ∷ target ∷ [] }

abbrev two_with : Block → Server
two_with b = record two {
  db = tag_ab ∷ record target { tag_data = block b } ∷ [];
  output = retained 1 ∷ [];
}

-- Bytes 1 and 2 to bytes 2 and 3.
abbrev bytes_map : DataMap
bytes_map = record {
  id = 1;
  source = record { index = pos 0; byte = 1; bit = 0; count = 2; size = 2; type = dax_byte };
  dest = record { index = pos 1; byte = 2; bit = 0; count = 2; size = 2; type = dax_byte };
  mask = none;
}

bytes_moved :
    copy_map no_floats bytes_map none (block (1 ∷ 2 ∷ 3 ∷ 4 ∷ [])) two
    ≡ ok tt (two_with (9 ∷ 0xff ∷ 2 ∷ 3 ∷ []))
unfolding copy_map type_size type_size_fuel is_base splice_int
bytes_moved = refl

copy_map-bytes_example :
    (bytes : Block) × (slice 1 2 (1 ∷ 2 ∷ 3 ∷ 4 ∷ []) ≡ some bytes)
    × (tag_read (pos 6) (pos 1) (pos 2) 2 (two_with (9 ∷ 0xff ∷ 2 ∷ 3 ∷ []))
        ≡ ok bytes (two_with (9 ∷ 0xff ∷ 2 ∷ 3 ∷ [])))
copy_map-bytes_example =
    copy_map-bytes no_floats (pos 6) 1 bytes_map (1 ∷ 2 ∷ 3 ∷ 4 ∷ []) target two
      (two_with (9 ∷ 0xff ∷ 2 ∷ 3 ∷ [])) refl refl refl refl bytes_moved

-- Three bits from bit 1 of byte 2 on, to bit 4 of byte 1.
abbrev bits_map : DataMap
bits_map = record {
  id = 2;
  source = record { index = pos 0; byte = 2; bit = 1; count = 3; size = 1; type = dax_bool };
  dest = record { index = pos 1; byte = 1; bit = 4; count = 3; size = 1; type = dax_bool };
  mask = some (0x70 ∷ []);
}

bits_moved :
    copy_map no_floats bits_map (some (0x70 ∷ [])) (block (1 ∷ 2 ∷ 3 ∷ 4 ∷ [])) two
    ≡ ok tt (two_with (9 ∷ 0x9f ∷ 9 ∷ 9 ∷ []))
unfolding copy_map type_size type_size_fuel is_base slice_int splice_int mask_byte
bits_moved = refl

mask_made : mask_bits 3 0 4 (replicate 1 0) ≡ ret (0x70 ∷ [])
unfolding mask_bits set_bit
mask_made = refl

copy_map-bits_example :
    (before : Block) × (after : Block) × (tag_read (pos 6) (pos 1) (pos 1) 1 two ≡ ok before two)
    × (tag_read (pos 6) (pos 1) (pos 1) 1 (two_with (9 ∷ 0x9f ∷ 9 ∷ 9 ∷ []))
        ≡ ok after (two_with (9 ∷ 0x9f ∷ 9 ∷ 9 ∷ [])))
    × BitsCopied 3 (8 * 2 + 1) 4 1 (1 ∷ 2 ∷ 3 ∷ 4 ∷ []) before after
copy_map-bits_example =
    copy_map-bits no_floats (pos 6) 1 bits_map (1 ∷ 2 ∷ 3 ∷ 4 ∷ []) target two
      (two_with (9 ∷ 0x9f ∷ 9 ∷ 9 ∷ [])) refl refl refl refl (0x70 ∷ [])
      (record { from = omega arith; to = omega arith; taken = omega arith; given = omega arith })
      mask_made bits_moved

-- Eight BOOLs of a byte, to bit 3 on.
abbrev octet : ℕ → ℕ → ℕ → Handle
octet index bit size = record {
  index = pos index;
  byte = 0;
  bit = bit;
  count = 8;
  size = size;
  type = dax_bool;
}

let_through : check_map two (octet 0 0 1) (octet 1 3 2) tag_ab target ≡ ret tt
unfolding check_map type_size type_size_fuel is_base
let_through = refl

none_same : find_same (octet 0 0 1) (octet 1 3 2) [] ≡ none
unfolding find_same
none_same = refl

map_add-overflow_example : map_add (octet 0 0 1) (octet 1 3 2) two ≡ fault
map_add-overflow_example =
    map_add-overflow (octet 0 0 1) (octet 1 3 2) tag_ab target two refl refl let_through none_same
      refl (omega arith) (omega arith) (omega arith)

abbrev numbered : ℕ → DataMap
numbered n = record bytes_map { id = n }

abbrev three_maps : Tag
three_maps = record tag_ab { mappings = numbered 3 ∷ numbered 2 ∷ numbered 1 ∷ [] }

abbrev with_maps : Server
with_maps = record one_tag { db = three_maps ∷ [] }

not_there : find_map 1 (numbered 2 ∷ []) ≡ none
unfolding find_map
not_there = refl

map_del-drops_example :
    map_del (pos 0) 1 with_maps
    ≡ ok tt (set_tag with_maps (pos 0) (record three_maps { mappings = numbered 3 ∷ [] }))
map_del-drops_example =
    map_del-drops (pos 0) three_maps with_maps (numbered 3) (numbered 1) (numbered 2 ∷ []) [] refl
      refl refl not_there
