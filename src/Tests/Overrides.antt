-- ===== src/Tests/Overrides.antt =====
-- The theorems on overrides at a server with one tag, and at one with a BOOL tag.
use open_dax.Base.Bits.{set_bit}
use open_dax.Cdt.{type_size, type_size_fuel}
use open_dax.Base.{◌≡◌, refl, [], ◌∷◌, some, ok, fault, arith}
use open_dax.Base.Int.{pos}
use open_dax.Memory.{Block, splice_int, slice_int}
use open_dax.Types.{dax_bool, is_base}
use open_dax.Server.{Tag, Server, block}
use open_dax.Store.{tag_read}
use open_dax.Store.Masking.{Masked}
use open_dax.Tagbase.Override.{override_add, override_set}
use open_dax.Tagbase.Override.Reading.{tag_read-override_set}
use open_dax.Tagbase.Override.OfBool.{override_add-bool}
use open_dax.Tests.Samples.{tag_ab, one_tag, no_floats}

-- The second byte overridden by 0xf0 under the mask 0x3c.
abbrev overridden_ab : Tag
overridden_ab = record tag_ab {
  attr = 0x4004;
  odata = some (0 ∷ 0xf0 ∷ 7 ∷ 7 ∷ []);
  omask = some (0 ∷ 0x3c ∷ 7 ∷ 7 ∷ []);
}

abbrev added : Server
added = record one_tag { db = overridden_ab ∷ []; ovrdinstalled = 1 }

abbrev raised : Server
raised = record added { db = record overridden_ab { attr = 0x400c } ∷ []; ovrdset = 1 }

was_added :
    override_add no_floats (λ k. 7) (λ k. 7) (pos 0) (pos 1) (0xf0 ∷ []) (0x3c ∷ []) one_tag
    ≡ ok tt added
unfolding override_add type_size type_size_fuel is_base splice_int set_bit
was_added = refl

was_raised : override_set no_floats (pos 0) 1 added ≡ ok tt raised
unfolding override_set set_bit
was_raised = refl

was_read : tag_read (pos 5) (pos 0) (pos 1) 1 one_tag ≡ ok (2 ∷ []) one_tag
unfolding tag_read type_size type_size_fuel is_base slice_int
was_read = refl

tag_read-override_set_example :
    (after : Block) × (tag_read (pos 6) (pos 0) (pos 1) 1 raised ≡ ok after raised)
    × Masked (2 ∷ []) (0xf0 ∷ []) (0x3c ∷ []) after
tag_read-override_set_example =
    tag_read-override_set no_floats (λ k. 7) (λ k. 7) (pos 5) (pos 6) 0 1 (pos 1) (0xf0 ∷ [])
      (0x3c ∷ []) (2 ∷ []) tag_ab one_tag added raised refl refl refl (omega arith) (omega arith)
      refl (omega arith) was_read was_added was_raised

abbrev bool_tag : Tag
bool_tag = record tag_ab { type = dax_bool; count = 4; tag_data = block (5 ∷ []) }

override_add-bool_example :
    override_add no_floats
      (λ k. 0)
      (λ k. 0)
      (pos 0)
      (pos 0)
      (1 ∷ [])
      (1 ∷ [])
      (record one_tag { db = bool_tag ∷ [] })
    ≡ fault
override_add-bool_example =
    override_add-bool no_floats (λ k. 0) (λ k. 0) (pos 0) (pos 0) (1 ∷ []) (1 ∷ []) bool_tag
      (record one_tag { db = bool_tag ∷ [] }) refl refl refl refl (omega arith)
