-- ===== src/Store/Masking.antt =====
-- What `tag_mask_write` writes, bit by bit.
use open_dax.Base.{
  ℕ, ◌<◌, ◌≡◌, refl, ap, sym, ◌∙◌, subst, [], ◌∷◌, some, length, if◌then◌else◌, false, ok, ret, run,
  and_then-ret, or_crash-ret, >>=-ok, >>-ok, run-ok, ◌>>◌, ◌>>=◌, suc,
}
use open_dax.Base.Int.{ℤ, pos, negsuc}
use open_dax.Base.Bits.{bit, test_bit, mask_byte, bit-mask_byte}
use open_dax.Memory.{Block, slice_int, splice_int}
use open_dax.Memory.Copies.{length-slice}
use open_dax.Event.{Floats}
use open_dax.Server.{Tag, Server, has, tag_at, attr_virtual, attr_ovr_set}
use open_dax.Store.{
  part_of, mask_bytes, masked_bytes, mask_write_hook, put_bytes, put_masked, checked_bytes,
  stored_read, tag_read, mask_write_at, unchecked_tag, tag_mask_write,
}
use open_dax.Store.Written.{Committed, put_bytes-Committed, mask_write_hook-turns, unturn}
use open_dax.Store.Roundtrip.{
  tag_read-stored, tag_at-Committed, rewritten, stored_read-rewritten, stored_read-plain,
}

-- Bit for bit, the new byte where the mask is set, and the old one elsewhere.
abbrev pub Masked : Block → Block → Block → Block → Type 0
Masked [] ns ms [] = Unit {0}
Masked (o ∷ os) (n ∷ ns) (m ∷ ms) (r ∷ rs) =
    ((j : ℕ) → j < 8 → m < 256 → bit j r ≡ (if test_bit m j then bit j n else bit j o))
    × Masked os ns ms rs
Masked os ns ms rs = ⊥

pub mask_bytes-Masked :
    (os ns ms rs : Block)
    → mask_bytes os ns ms ≡ ret rs
    → Masked os ns ms rs × (length rs ≡ length os)
unfolding mask_bytes
mask_bytes-Masked [] ns ms [] e = (tt, refl)
mask_bytes-Masked [] ns ms (r ∷ rs) e = cc
mask_bytes-Masked (o ∷ os) [] ms rs e = cc
mask_bytes-Masked (o ∷ os) (n ∷ ns) [] rs e = cc
mask_bytes-Masked (o ∷ os) (n ∷ ns) (m ∷ ms) rs e =
    let (rest, e', same) =
      and_then-ret (mask_bytes os ns ms) (λ rest. ret (mask_byte o n m ∷ rest)) rs e in
    let (is, len) = mask_bytes-Masked os ns ms rest e' in
    let out : mask_byte o n m ∷ rest ≡ rs = cc in
    subst (λ rs. Masked (o ∷ os) (n ∷ ns) (m ∷ ms) rs × (length rs ≡ length (o ∷ os))) out
      (((λ j hj hm. bit-mask_byte j o n m hj hm), is), ap suc len)

pub slice_int-length :
    (offset : ℤ) (size : ℕ) (b bytes : Block)
    → slice_int offset (pos size) b ≡ some bytes
    → length bytes ≡ size
unfolding slice_int
slice_int-length (pos offset) size b bytes e = length-slice offset size b bytes e
slice_int-length (negsuc offset) size b bytes e = cc

module _ (floats : Floats) (i : ℕ) where
  put_masked-Committed :
      (offset : ℤ) (bytes mask : Block) (t : Tag) (old : Block) (s s' : Server)
      → put_masked floats (pos i) offset bytes mask t old s ≡ ok tt s'
      → (here : Block) × (masked : Block) × (new : Block) × (slice_int offset
            (pos (length bytes))
            old
          ≡ some here)
        × (mask_bytes here bytes mask ≡ ret masked)
        × (splice_int offset masked old ≡ some new)
        × Committed s i t new s'
  unfolding put_masked masked_bytes part_of
  put_masked-Committed offset bytes mask t old s s' h =
      let (masked, s₁, e₁, h₁) =
        >>=-ok (run (masked_bytes offset bytes mask old))
          (λ masked. put_bytes floats (pos i) offset masked t old) s tt s' h in
      let (got, same) = run-ok (masked_bytes offset bytes mask old) s masked s₁ e₁ in
      let (here, cut, made) =
        and_then-ret (part_of offset (length bytes) (some old)) (λ here. mask_bytes here bytes mask)
          masked got in
      let (new, put, c) = put_bytes-Committed floats i offset masked t old s₁ s' h₁ in
      (
        here,
        masked,
        new,
        or_crash-ret _ here cut,
        made,
        put,
        subst (λ s₂. Committed s₂ i t new s') (sym same) c,
      )

  tag_mask_write-chain :
      (fd offset : ℤ) (bytes mask : Block) (t : Tag) (s : Server)
      → tag_at s (pos i) ≡ some t
      → has t attr_virtual ≡ false
      → tag_mask_write floats fd (pos i) offset bytes mask s
        ≡ (run (checked_bytes s.datatypes t offset (length bytes)) >>= (λ old.
              mask_write_hook fd (pos i) t offset (length bytes)
              >> put_masked floats (pos i) offset bytes mask t old))
            s
  unfolding tag_mask_write mask_write_at
  tag_mask_write-chain fd offset bytes mask t s at v =
      ap (λ o. unchecked_tag o (mask_write_at floats fd offset bytes mask (pos i)) s) at
      ∙ (rw v refl)

  tag_mask_write-Committed :
      (fd offset : ℤ) (bytes mask : Block) (t : Tag) (s s' : Server)
      → tag_at s (pos i) ≡ some t
      → has t attr_virtual ≡ false
      → tag_mask_write floats fd (pos i) offset bytes mask s ≡ ok tt s'
      → (old : Block) × (here : Block) × (masked : Block) × (new : Block) × (checked_bytes
            s.datatypes t offset
            (length bytes)
          ≡ ret old)
        × (slice_int offset (pos (length bytes)) old ≡ some here)
        × (mask_bytes here bytes mask ≡ ret masked)
        × (splice_int offset masked old ≡ some new)
        × Committed s i t new s'
  tag_mask_write-Committed fd offset bytes mask t s s' at v w =
      let hook = mask_write_hook fd (pos i) t offset (length bytes) in
      let put = λ (old : Block). put_masked floats (pos i) offset bytes mask t old in
      let (old, s₁, e₁, h₁) =
        >>=-ok (run (checked_bytes s.datatypes t offset (length bytes))) (λ old. hook >> put old) s
          tt s' (sym (tag_mask_write-chain fd offset bytes mask t s at v) ∙ w) in
      let (got, same) = run-ok (checked_bytes s.datatypes t offset (length bytes)) s old s₁ e₁ in
      let (s₂, e₂, h₂) = >>-ok hook (put old) s₁ tt s' h₁ in
      let (ring, turned) = mask_write_hook-turns fd (pos i) t offset (length bytes) s₁ s₂ e₂ in
      let (here, masked, new, cut, made, spliced, c) =
        put_masked-Committed offset bytes mask t old s₂ s' h₂ in
      (
        old,
        here,
        masked,
        new,
        got,
        cut,
        made,
        spliced,
        unturn s ring i t new s₂ s'
            (turned ∙ ap (λ (s₃ : Server). record s₃ { modules = ring }) (sym same)) c,
      )

-- After a successful masked write to a tag that is neither virtual nor overridden, a read gives the
-- new bits where the mask is set, and elsewhere the bits that a read gave before.
pub tag_read-tag_mask_write :
    (floats : Floats) (fd fd' : ℤ) (i : ℕ) (offset : ℤ) (bytes mask : Block) (t : Tag)
    (s s' : Server)
    → tag_at s (pos i) ≡ some t
    → has t attr_virtual ≡ false
    → has t attr_ovr_set ≡ false
    → tag_mask_write floats fd (pos i) offset bytes mask s ≡ ok tt s'
    → (before : Block) × (after : Block) × (tag_read fd' (pos i) offset (length bytes) s
        ≡ ok before s)
      × (tag_read fd' (pos i) offset (length bytes) s' ≡ ok after s')
      × Masked before bytes mask after
tag_read-tag_mask_write floats fd fd' i offset bytes mask t s s' at v o w =
    let (old, here, masked, new, got, cut, made, put, c) =
      tag_mask_write-Committed floats i fd offset bytes mask t s s' at v w in
    let (is, len) = mask_bytes-Masked here bytes mask masked made in
    let n : length masked ≡ length bytes =
      len ∙ slice_int-length offset (length bytes) old here cut in
    let t' = rewritten t new c.looked_at in
    (
      here,
      masked,
      tag_read-stored fd' i offset (length bytes) t s at v
          ∙ ap (λ r. run r s)
              (stored_read-plain s.datatypes t offset (length bytes) old here o got cut),
      tag_read-stored fd' i offset (length bytes) t' s' (tag_at-Committed s i t new s' c at) v
          ∙ ap (λ dts. run (stored_read dts t' offset (length bytes)) s') c.datatypes
          ∙ ap (λ k. run (stored_read s.datatypes t' offset k) s') (sym n)
          ∙ ap (λ r. run r s')
              (stored_read-rewritten s.datatypes t offset masked old new c.looked_at o
                (subst (λ k. checked_bytes s.datatypes t offset k ≡ ret old) (sym n) got) put),
      is,
    )
