-- ===== src/Tagbase/Override/Reading.antt =====
-- What a read gives while an override is set.
use open_dax.Base.{
  ℕ, ◌<◌, ◌≡◌, ◌≢◌, refl, ap, sym, ◌∙◌, subst, true, false, List, [], ◌∷◌, some, length, ok, ret,
  run, run-ok, if◌then◌else◌, and_then, or_crash, arith,
}
use open_dax.Base.Int.{ℤ, pos, pos_part}
use open_dax.Base.Bits.{set_bit, mask_byte, test_bit, bit-set_bit_self, bit-set_bit_ne}
use open_dax.Memory.{Block, slice_int}
use open_dax.Cdt.{Datatype}
use open_dax.Event.{Floats}
use open_dax.Server.{
  Tag, Server, has, tag_at, attr_virtual, attr_special, attr_ovr_set, attr_override,
}
use open_dax.Store.{
  checked_bytes, check_size, mask_bytes, overlay, part_of, stored_read, tag_get_size, tag_read,
}
use open_dax.Store.Hooks.{special_tag_read}
use open_dax.Store.Roundtrip.{tag_read-stored, slice_int-splice_int, quiet, stored_read-parts}
use open_dax.Store.Masking.{Masked, mask_bytes-Masked, slice_int-length}
use open_dax.Tagbase.Override.{override_add, override_set}
use open_dax.Tagbase.Override.Overlaid.{overridden, override_add-Overlaid, raised-Holding}

-- The loop has a byte and a mask for each stored byte.
mask_bytes_total :
    (os ns ms : Block)
    → length os ≡ length ns
    → length ns ≡ length ms
    → (rs : Block) × (mask_bytes os ns ms ≡ ret rs)
unfolding mask_bytes
mask_bytes_total [] ns ms e e' = ([], refl)
mask_bytes_total (o ∷ os) [] ms e e' = absurd (omega arith)
mask_bytes_total (o ∷ os) (n ∷ ns) [] e e' = absurd (omega arith)
mask_bytes_total (o ∷ os) (n ∷ ns) (m ∷ ms) e e' =
    let (rs, h) = mask_bytes_total os ns ms (omega arith) (omega arith) in
    (mask_byte o n m ∷ rs, ap (λ r. and_then r (λ rest. ret (mask_byte o n m ∷ rest))) h)

module _ (dts : List Datatype) (t : Tag) (offset : ℤ) (size : ℕ) where
  -- Other overrides and attributes do not change where the bytes are.
  checked_bytes-overridden :
      (b od om : Block) (a : ℕ)
      → checked_bytes dts t offset size ≡ ret b
      → checked_bytes dts (record t { attr = a; odata = some od; omask = some om }) offset size
        ≡ ret b
  unfolding checked_bytes check_size tag_get_size
  checked_bytes-overridden b od om a h = h

  -- A read through an override that is set, where bytes and masks have been put.
  stored_read-Masked :
      (b stored bytes mask od om : Block) (a : ℕ)
      → checked_bytes dts t offset size ≡ ret b
      → slice_int offset (pos size) b ≡ some stored
      → slice_int offset (pos size) od ≡ some bytes
      → slice_int offset (pos size) om ≡ some mask
      → test_bit a attr_ovr_set ≡ true
      → (after : Block) × (stored_read dts
            (record t { attr = a; odata = some od; omask = some om })
            offset
            size
          ≡ ret after)
        × Masked stored bytes mask after
  unfolding stored_read overlay part_of
  stored_read-Masked b stored bytes mask od om a c cut cut_od cut_om on =
      let t' : Tag = record t { attr = a; odata = some od; omask = some om } in
      let ls = slice_int-length offset size b stored cut in
      let lb = slice_int-length offset size od bytes cut_od in
      let lm = slice_int-length offset size om mask cut_om in
      let (after, made) = mask_bytes_total stored bytes mask (ls ∙ sym lb) (lb ∙ sym lm) in
      let rest = λ (stored : Block).
        and_then (if has t' attr_special then special_tag_read else ret tt)
          (λ _. overlay t' offset stored) in
      let over : overlay t' offset stored ≡ ret after =
        (λ j.
          if on j
          then and_then (part_of offset (length stored) (some od)) (λ over.
            and_then (part_of offset (length stored) (some om))
              (λ mask. mask_bytes stored over mask))
          else ret stored)
        ∙ (λ j. and_then (or_crash (slice_int offset (pos (ls j)) od)) (λ over.
            and_then (or_crash (slice_int offset (pos (ls j)) om))
              (λ mask. mask_bytes stored over mask)))
        ∙ (λ j.
            and_then (or_crash (cut_od j))
              (λ over. and_then (or_crash (cut_om j)) (λ mask. mask_bytes stored over mask)))
        ∙ made in
      (
        after,
        (λ j.
              and_then (checked_bytes-overridden b od om a c j)
                (λ b. and_then (or_crash (slice_int offset (pos size) b)) rest))
            ∙ (λ j. and_then (or_crash (cut j)) rest)
            ∙ quiet (has t' attr_special) (overlay t' offset stored)
            ∙ over,
        (mask_bytes-Masked stored bytes mask after made).0,
      )

-- After `override_add` of bytes and masks to a tag that has no override set and is neither virtual nor
-- one of the counters of overrides, and `override_set`, a read of that range gives the new bits where
-- the mask is set, and elsewhere the bits that a read gave before.
pub tag_read-override_set :
    (floats : Floats) (data_at mask_at : ℕ → ℕ) (fd fd' : ℤ) (i flag : ℕ) (offset : ℤ)
    (bytes mask before : Block) (t : Tag) (s s₁ s₂ : Server)
    → tag_at s (pos i) ≡ some t
    → has t attr_virtual ≡ false
    → has t attr_ovr_set ≡ false
    → i ≢ 7
    → i ≢ 8
    → length mask ≡ length bytes
    → 0 < flag
    → tag_read fd (pos i) offset (length bytes) s ≡ ok before s
    → override_add floats data_at mask_at (pos i) offset bytes mask s ≡ ok tt s₁
    → override_set floats (pos i) flag s₁ ≡ ok tt s₂
    → (after : Block) × (tag_read fd' (pos i) offset (length bytes) s₂ ≡ ok after s₂)
      × Masked before bytes mask after
tag_read-override_set floats data_at mask_at fd fd' i flag offset bytes mask before t s s₁ s₂ at v
      off ne₇ ne₈ lm up r e₁ e₂ =
    let n = length bytes in
    let o =
      override_add-Overlaid i floats t offset bytes mask data_at mask_at s s₁
        (λ same. ne₇ (sym (place same))) at e₁ in
    let (at₁, _, dts₁) = o.holding in
    let t₁ = overridden t o.odata o.omask in
    let off₁ : has t₁ attr_ovr_set ≡ false =
      ground (arith, bit-set_bit_ne attr_ovr_set attr_override t.attr (omega arith), off) in
    let (at₂, _, dts₂) =
      raised-Holding i flag floats s₁ s₂ t₁ (λ same. ne₈ (sym (place same))) at₁ e₂ up off₁ o.odata
        refl in
    let a = set_bit t₁.attr attr_ovr_set in
    let t₂ : Tag = record t { attr = a; odata = some o.odata; omask = some o.omask } in
    let v₂ : has t₂ attr_virtual ≡ false = ground (
      arith,
      bit-set_bit_ne attr_virtual attr_override t.attr (omega arith),
      bit-set_bit_ne attr_virtual attr_ovr_set t₁.attr (omega arith),
      v,
    ) in
    let on : test_bit a attr_ovr_set ≡ true =
      ground (arith, bit-set_bit_self attr_ovr_set t₁.attr) in
    let (got, _) =
      run-ok (stored_read s.datatypes t offset n) s before s
        (sym (tag_read-stored fd i offset n t s at v) ∙ r) in
    let (b, c, cut) = stored_read-parts s.datatypes t offset n before off got in
    let (after, h, m) =
      stored_read-Masked s.datatypes t offset n b before bytes mask o.odata o.omask a c cut
        (slice_int-splice_int offset bytes o.over o.odata o.data_put)
        (subst (λ k. slice_int offset (pos k) o.omask ≡ some mask) lm
          (slice_int-splice_int offset mask o.under o.omask o.mask_put))
        on in
    (
      after,
      tag_read-stored fd' i offset n t₂ s₂ at₂ v₂
          ∙ (λ j. run (stored_read ((dts₂ ∙ dts₁) j) t₂ offset n) s₂)
          ∙ (λ j. run (h j) s₂),
      m,
    )
  where
    place : {j k : ℕ} → ◌≡◌ {A = ℤ} (pos j) (pos k) → j ≡ k
    place e = ap pos_part e
