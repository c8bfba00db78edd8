-- ===== src/Tests/Tags.antt =====
-- The theorems on tags at a server with one tag.
use open_dax.Base.{
  ℕ, ◌≡◌, ◌+◌, ◌^◌, refl, [], ◌∷◌, length, take, drop, leb, if◌then◌else◌, ok, err, fault, Error,
  ret, arith,
}
use open_dax.Base.Int.{pos, negsuc}
use open_dax.Base.Bits.{mask_byte}
use open_dax.Memory.{Block, slice_int, splice_int}
use open_dax.Text.{codes, strcmp}
use open_dax.Types.{dax_dint, is_base}
use open_dax.NameIndex.{get_by_name}
use open_dax.Cdt.{type_size, type_size_fuel}
use open_dax.Server.{Server, block, sent, retained}
use open_dax.Store.{tag_get_size, tag_read, tag_write, tag_mask_write}
use open_dax.Store.Frame.{KeptBy}
use open_dax.Store.Untouched.{tag_write-KeptBy}
use open_dax.Store.Roundtrip.{tag_read-tag_write}
use open_dax.Store.Masking.{Masked, tag_read-tag_mask_write}
use open_dax.Store.Bounds.{Plain, tag_read-bounds, tag_read-negative}
use open_dax.Tagbase.Add.{tag_add}
use open_dax.Tagbase.Del.{tag_del}
use open_dax.Tagbase.Lookup.{TagInfo, tag_get_name, tag_get_index}
use open_dax.Tagbase.Added.{AddedBy, tag_add-AddedBy}
use open_dax.Tagbase.Deleted.{RemovedBy, tag_del-RemovedBy}
use open_dax.Tagbase.Handles.{tag_get_index-tag_get_name}
use open_dax.Tests.Samples.{no_floats, zeros, tag_ab, one_tag, one_tag-Named}

tag_add-AddedBy_example :
    AddedBy one_tag (codes "b") (tag_add zeros no_floats (pos 5) (codes "b") dax_dint 2 0 one_tag)
tag_add-AddedBy_example =
    tag_add-AddedBy zeros no_floats (pos 5) (codes "b") dax_dint 2 0 one_tag one_tag-Named

tag_del-RemovedBy_example : RemovedBy one_tag (codes "ab") (tag_del zeros no_floats (pos 0) one_tag)
tag_del-RemovedBy_example =
    tag_del-RemovedBy zeros no_floats one_tag 0 tag_ab (codes "ab") one_tag-Named refl refl

info_ab : TagInfo
info_ab = record { idx = 0; type = dax_dint; count = 1; attr = 4; name = codes "ab" }

lookup_ab : tag_get_name one_tag (codes "ab") ≡ ret info_ab
unfolding tag_get_name get_by_name info_ab strcmp
lookup_ab = refl

tag_get_index-tag_get_name_example :
    (info_ab.name ≡ codes "ab") × (tag_get_index one_tag (pos info_ab.idx) ≡ ret info_ab)
tag_get_index-tag_get_name_example =
    tag_get_index-tag_get_name one_tag (codes "ab") info_ab one_tag-Named lookup_ab

-- The tag after two bytes were written at 1, and the module has heard of it.
abbrev after_write : Block → Server
after_write bytes = record one_tag {
  db = record tag_ab { tag_data = block bytes } ∷ [];
  output =
      sent (pos 5)
        (0 ∷ 0 ∷ 0 ∷ 10 ∷ 0x80 ∷ 0 ∷ 0 ∷ 2 ∷ 0 ∷ 0 ∷ 0 ∷ 0 ∷ 0 ∷ 0 ∷ 0 ∷ 1 ∷ take 2 bytes)
      ∷ retained 0
      ∷ [];
}

written_ab :
    tag_write no_floats (negsuc 0) (pos 0) (pos 1) (7 ∷ 8 ∷ []) one_tag
    ≡ ok tt (after_write (1 ∷ 7 ∷ 8 ∷ 4 ∷ []))
unfolding tag_write type_size type_size_fuel is_base splice_int
written_ab = refl

tag_read-tag_write_example :
    tag_read (pos 6) (pos 0) (pos 1) 2 (after_write (1 ∷ 7 ∷ 8 ∷ 4 ∷ []))
    ≡ ok (7 ∷ 8 ∷ []) (after_write (1 ∷ 7 ∷ 8 ∷ 4 ∷ []))
tag_read-tag_write_example =
    tag_read-tag_write no_floats (negsuc 0) (pos 6) 0 (pos 1) (7 ∷ 8 ∷ []) tag_ab one_tag
      (after_write (1 ∷ 7 ∷ 8 ∷ 4 ∷ [])) refl refl refl written_ab

masked_ab :
    tag_mask_write no_floats
      (negsuc 0)
      (pos 0)
      (pos 1)
      (0xff ∷ 0xff ∷ [])
      (0x10 ∷ 0x0f ∷ [])
      one_tag
    ≡ ok tt (after_write (1 ∷ 0x12 ∷ 0x0f ∷ 4 ∷ []))
unfolding tag_mask_write type_size type_size_fuel is_base slice_int splice_int mask_byte
masked_ab = refl

tag_read-tag_mask_write_example :
    (before : Block) × (after : Block) × (tag_read (pos 6) (pos 0) (pos 1) 2 one_tag
      ≡ ok before one_tag)
    × (tag_read (pos 6) (pos 0) (pos 1) 2 (after_write (1 ∷ 0x12 ∷ 0x0f ∷ 4 ∷ []))
        ≡ ok after (after_write (1 ∷ 0x12 ∷ 0x0f ∷ 4 ∷ [])))
    × Masked before (0xff ∷ 0xff ∷ []) (0x10 ∷ 0x0f ∷ []) after
tag_read-tag_mask_write_example =
    tag_read-tag_mask_write no_floats (negsuc 0) (pos 6) 0 (pos 1) (0xff ∷ 0xff ∷ [])
      (0x10 ∷ 0x0f ∷ []) tag_ab one_tag (after_write (1 ∷ 0x12 ∷ 0x0f ∷ 4 ∷ [])) refl refl refl
      masked_ab

tag_write-KeptBy_example :
    KeptBy 0 tag_ab one_tag (tag_write no_floats (pos 5) (pos 0) (pos 1) (7 ∷ 8 ∷ []) one_tag)
    × KeptBy 0 tag_ab one_tag
        (tag_mask_write no_floats (pos 5) (pos 0) (pos 1) (7 ∷ 8 ∷ []) (1 ∷ 1 ∷ []) one_tag)
tag_write-KeptBy_example =
    tag_write-KeptBy no_floats (pos 5) 0 (pos 1) (7 ∷ 8 ∷ []) (1 ∷ 1 ∷ []) tag_ab one_tag refl

tag_ab-Plain : Plain one_tag 0 tag_ab (1 ∷ 2 ∷ 3 ∷ 4 ∷ [])
unfolding tag_get_size type_size type_size_fuel is_base
tag_ab-Plain = record {
  at = refl;
  plain = refl;
  no_override = refl;
  data_block = refl;
  sized = refl;
}

tag_read-bounds_example : tag_read (pos 6) (pos 0) (pos 2) 2 one_tag ≡ (
    if leb (2 ^ 31) (2 + 2)
    then fault
    else if leb (2 + 2) (length {A = ℕ} (1 ∷ 2 ∷ 3 ∷ 4 ∷ []))
    then ok (take 2 (drop 2 (1 ∷ 2 ∷ 3 ∷ 4 ∷ []))) one_tag
    else err Error.too_big one_tag)
tag_read-bounds_example =
    tag_read-bounds one_tag 0 tag_ab (1 ∷ 2 ∷ 3 ∷ 4 ∷ []) tag_ab-Plain (pos 6) 2 2

tag_read-negative_example : tag_read (pos 6) (pos 0) (negsuc 0) 2 one_tag ≡ fault
tag_read-negative_example =
    tag_read-negative one_tag 0 tag_ab (1 ∷ 2 ∷ 3 ∷ 4 ∷ []) tag_ab-Plain (pos 6) 0 2 (omega arith)
      (omega arith) (omega arith)
